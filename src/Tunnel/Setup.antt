-- ===== src/Tunnel/Setup.antt =====
-- `tunnel_init` and `tunnel_destroy`: the descriptors of the process, and their release on errors.
use bi_tun.Base.{
  ℕ, zero, suc, ◌%◌, ◌^◌, Bool, true, false, Option, none, some, List, [], replicate, ltb,
  if◌then◌else◌,
}
use bi_tun.Replay.{anti_replay_init}
use bi_tun.Socks5
use bi_tun.Socks5.{Context}
use bi_tun.Tunnel.Types.{Tunnel, disconnected, Channel, Address, Config, FecEncoder}
use bi_tun.Tunnel.Host.{Host}
use bi_tun.Tunnel.Send.{Sys, fec_max_n, fec_max_r, fec_block_size}
use bi_tun.Tunnel.FecIn.{fec_max_groups, zero_group}
use bi_tun.Tunnel.Channels.{max_channels, cleared_address, fixed_peer, reset_tunnel}
use bi_tun.Tunnel.Local.{DnsResult, Events}
pub mod Counts
pub mod Ledger
pub mod Closing
mod Tests

-- What else the process calls. A poll set and a queue go by the descriptor that each owns.
pub record Platform (E : Host) : Type 0 where
  pub mutex_create : Host.World E → Host.World E
  pub mutex_lock : Host.World E → Host.World E
  pub mutex_unlock : Host.World E → Host.World E
  pub mutex_destroy : Host.World E → Host.World E
  pub socket_dgram : Host.World E → Option ℕ × Host.World E
  pub set_reuseaddr : ℕ → Host.World E → Host.World E
  pub bind : ℕ → Address → Host.World E → Bool × Host.World E
  pub listen : ℕ → Host.World E → Bool × Host.World E
  -- the address, or `none` for a string that is not one
  pub inet_pton : List ℕ → Option (List ℕ)
  pub poll_create : Host.World E → Option ℕ × Host.World E
  pub poll_destroy : ℕ → Host.World E → Host.World E
  pub queue_create : Host.World E → Option ℕ × Host.World E
  pub queue_destroy : ℕ → Host.World E → Host.World E
  pub queue_clear_wakeup : ℕ → Host.World E → Host.World E
  pub queue_pop : ℕ → Host.World E → Option DnsResult × Host.World E
  pub poll_wait : ℕ → Host.World E → List (ℕ × Events) × Host.World E
  -- `none` for a result that is not positive
  pub recvfrom : Host.World E → Option (List ℕ × Address) × Host.World E
  pub time_ms : Host.World E → ℕ × Host.World E
  pub ikcp_check : Host.Kcp E → ℕ → ℕ
  -- whether a signal has come
  pub should_exit : Host.World E → Bool
  -- what the arrays on the stack hold
  pub stack : List ℕ

-- The tunnel with the fields of `tunnel_t` that hold descriptors. -1 and NULL are `none`.
pub record Process (E : Host) : Type 0 where
  pub sys : Sys E
  pub udp_fd : ℕ
  pub tcp_listen_fd : Option ℕ
  pub poll_set : Option ℕ
  pub dns_queue : Option ℕ
  pub running : Bool

-- After `memset` to 0: the descriptor is 0.
abbrev pub zero_context : Context
zero_context = record {
  state = Socks5.init;
  methods_left = 0;
  addr_type = 0;
  addr_len = 0;
  addr_idx = 0;
  port = 0;
  port_idx = 0;
  domain = none;
  ipv4 = replicate 4 0;
  ipv6 = replicate 16 0;
  req_hdr = replicate 4 0;
  req_hdr_idx = 0;
  method_idx = 0;
  found_no_auth = false;
}

abbrev pub zero_channel : Channel
zero_channel = record {
  channel_id = 0;
  tcp_fd = some 0;
  is_active = false;
  socks5_ctx = zero_context;
  send_wnd = 0;
  recv_wnd = 0;
  local_recv_accum = 0;
  socks5_handshake_done = false;
  port = 0;
  read_suspended = false;
}

abbrev pub zero_encoder : FecEncoder
zero_encoder = record {
  current_group_id = 0;
  data_packet_count = 0;
  n = 0;
  r = 0;
  last_packet_time = 0;
  data_lengths = replicate fec_max_n 0;
  data_blocks = replicate fec_max_n (replicate fec_block_size 0);
  parity_blocks = replicate fec_max_r (replicate fec_block_size 0);
}

module _ (E : Host) (O : Platform E) where
  open E use {World, Kcp, set_nonblocking, close, poll_add_in, socket_create, real_ms}
  open O use {
    mutex_create, mutex_lock, mutex_unlock, mutex_destroy, socket_dgram, set_reuseaddr, bind,
    listen, inet_pton, poll_create, poll_destroy, queue_create, queue_destroy, queue_pop,
  }

  -- An address as `inet_pton` and `htons` leave it in a `sockaddr_in` of zeros.
  abbrev pub address_of : Option (List ℕ) → ℕ → Address
  address_of text port =
      let ip : List ℕ = elim text [
        | none ↦ replicate 4 0
        | some chars ↦ elim (inet_pton chars) [ none ↦ replicate 4 0 | some bytes ↦ bytes ]
      ] in
      record { ip = ip; port = port % 2 ^ 16 }

  -- The state that `tunnel_init` leaves, given the time and the static counters.
  unfoldable pub initial_tunnel : Config → ℕ → ℕ → ℕ → Tunnel Kcp
  initial_tunnel config now odd even = record {
    config = config;
    state = disconnected;
    peer_addr =
        if fixed_peer config
        then address_of config.remote_ip config.remote_port
        else cleared_address;
    peer_addr_valid = fixed_peer config;
    r_local = replicate 32 0;
    r_remote = replicate 32 0;
    is_odd_id_generator = true;
    session_key = replicate 32 0;
    seq_send = 0;
    anti_replay_win = anti_replay_init;
    kcp = none;
    channels = replicate max_channels zero_channel;
    last_recv_time = 0;
    last_keepalive_time = 0;
    last_ping_time = 0;
    auth_start_time = 0;
    last_reset_timestamp = 0;
    last_reset_salt = 0;
    fec_enc = record zero_encoder { n = 10; r = 1 };
    groups = replicate fec_max_groups zero_group;
    fec_n = 10;
    fec_r = 1;
    stats_expected_groups = 0;
    stats_received_packets = 0;
    stats_group_packet_count = 0;
    last_stats_report_time = now;
    next_odd_id = odd;
    next_even_id = even;
  }

  module _ (config : Config) (odd even : ℕ) where
    -- From the parity set-up on; nothing can fail any more.
    unfoldable pub init_fec : ℕ → ℕ → ℕ → Option ℕ → World → Option (Process E) × World
    unfolding initial_tunnel
    init_fec udp ps queue listener w =
        let (now, w') = real_ms w in
        (
          some (record {
            sys = record { tun = initial_tunnel config now odd even; world = w' };
            udp_fd = udp;
            tcp_listen_fd = listener;
            poll_set = some ps;
            dns_queue = some queue;
            running = false;
          }),
          w',
        )

    -- The listener of the SOCKS5 clients.
    unfoldable pub init_listener : ℕ → ℕ → ℕ → World → Option (Process E) × World
    unfolding init_fec
    init_listener udp ps queue w =
        let (fd, opened) = socket_create w in
        if ltb 0 config.local_port
        then elim fd [
          | none ↦ init_fec udp ps queue none opened
          | some tcp ↦
              let ready = set_nonblocking tcp (set_reuseaddr tcp opened) in
              let (bound, after_bind) = bind tcp (address_of none config.local_port) ready in
              let (listening, after_listen) = listen tcp after_bind in
              let undo =
                λ (v : World). close udp (poll_destroy ps (queue_destroy queue (close tcp v))) in
              if bound
              then (if listening
                  then init_fec udp ps queue (some tcp) (poll_add_in tcp after_listen)
                  else (none, undo after_listen))
              else (none, undo after_bind)
        ]
        else init_fec udp ps queue none w

    unfoldable pub init_queue : ℕ → ℕ → World → Option (Process E) × World
    unfolding init_listener
    init_queue udp ps w =
        let (queue, made) = queue_create (poll_add_in udp w) in
        elim queue [
          | none ↦ (none, close udp (poll_destroy ps made))
          | some q ↦ init_listener udp ps q (poll_add_in q made)
        ]

    unfoldable pub init_socket : ℕ → World → Option (Process E) × World
    unfolding init_queue
    init_socket udp w =
        let (bound, after_bind) =
          bind udp (address_of config.local_ip config.local_port) (set_nonblocking udp w) in
        let (set, made) = poll_create after_bind in
        if bound
        then elim set [ none ↦ (none, close udp made) | some ps ↦ init_queue udp ps made ]
        else (none, close udp after_bind)

    -- `none` is a return of -1.
    unfoldable pub tunnel_init : World → Option (Process E) × World
    unfolding init_socket
    tunnel_init w =
        let (udp, opened) = socket_dgram (mutex_create w) in
        elim udp [ none ↦ (none, opened) | some fd ↦ init_socket fd opened ]

  -- The loop that frees what is left in the queue, `fuel` results at most.
  unfoldable pub free_results : ℕ → ℕ → World → World
  free_results zero queue w = w
  free_results (suc fuel) queue w =
      let (res, w') = queue_pop queue w in
      elim res [ none ↦ w' | some r ↦ free_results fuel queue w' ]

  unfoldable pub tunnel_destroy : ℕ → Process E → Process E
  unfolding free_results
  tunnel_destroy fuel p =
      let reset = reset_tunnel E (record (p.sys) { world = mutex_lock p.sys.world }) in
      let no_udp = close p.udp_fd reset.world in
      let no_tcp : World = elim p.tcp_listen_fd [ none ↦ no_udp | some fd ↦ close fd no_udp ] in
      let no_poll : World = elim p.poll_set [ none ↦ no_tcp | some ps ↦ poll_destroy ps no_tcp ] in
      let no_queue : World = elim p.dns_queue [
        | none ↦ no_poll
        | some q ↦ queue_destroy q (free_results fuel q no_poll)
      ] in
      record p {
        sys = record reset { world = mutex_destroy (mutex_unlock no_queue) };
        poll_set = none;
        dns_queue = none;
        running = false;
      }
