-- ===== src/Tunnel/Toy.antt =====
-- A toy host: its clock stands still, its cipher adds a tag and changes nothing, and its world is the
-- list of what was sent; its KCP is the list of what it was given.
use bi_tun.Base.{ℕ, true, false, none, some, List, [], ◌∷◌, length, replicate, u8}
use bi_tun.Replay.{anti_replay_init}
use bi_tun.Tunnel.Types.{TunnelState, Address, FecEncoder}
use bi_tun.Tunnel.Host.{Host}
use bi_tun.Tunnel.Send.{Sys}

abbrev pub toy : Host
toy = record {
  World = List (List ℕ);
  Kcp = List (List ℕ);
  real_ms = λ w. (9000, w);
  random_bytes = λ n w. (replicate n 5, w);
  random_u32 = λ w. (5, w);
  padding = replicate 4 0;
  malloc = λ n. some (replicate n 0);
  hmac_sha256 = λ key text. replicate 32 (u8 (length text));
  aead_encrypt = λ key nonce plain. some (plain, replicate 16 7);
  aead_decrypt = λ key nonce tag ciphertext. some ciphertext;
  sendto = λ packet addr w. packet ∷ w;
  socket_create = λ w. (some 3, w);
  set_nonblocking = λ fd w. w;
  connect_started = λ fd addr w. (true, w);
  send = λ fd bytes w. (some (length bytes), bytes ∷ w);
  close = λ fd w. w;
  poll_add_in = λ fd w. w;
  poll_add_in_out = λ fd w. w;
  poll_mod_in = λ fd w. w;
  poll_del = λ fd w. w;
  accept = λ w. (some 4, w);
  recv = λ fd w. (some [], w);
  connect_failed = λ fd w. (false, w);
  dns_resolve_async = λ domain id w. w;
  ikcp_create = λ conv. [];
  ikcp_wndsize = λ kcp a b. kcp;
  ikcp_setmtu = λ kcp mtu. kcp;
  ikcp_nodelay = λ kcp a b c d. kcp;
  ikcp_send = λ kcp bytes. bytes ∷ kcp;
  ikcp_input = λ kcp bytes. bytes ∷ kcp;
  ikcp_waitsnd = λ kcp. length kcp;
  ikcp_recv = λ kcp. (none, kcp);
  ikcp_update = λ kcp now. ([], kcp);
}

abbrev pub peer : Address
peer = record { ip = 10 ∷ 0 ∷ 0 ∷ 1 ∷ []; port = 4000 }

abbrev pub idle_encoder : FecEncoder
idle_encoder = record {
  current_group_id = 0;
  data_packet_count = 0;
  n = 10;
  r = 1;
  last_packet_time = 0;
  data_lengths = [];
  data_blocks = [];
  parity_blocks = [];
}

-- A tunnel in the state given, with no channels.
abbrev pub in_state : TunnelState → Sys toy
in_state st = record {
  tun = record {
    config = record {
      local_ip = none;
      local_port = 0;
      remote_ip = none;
      remote_port = 0;
      psk = replicate 32 1;
    };
    state = st;
    peer_addr = peer;
    peer_addr_valid = true;
    r_local = replicate 32 3;
    r_remote = replicate 32 2;
    is_odd_id_generator = true;
    session_key = replicate 32 9;
    seq_send = 0;
    anti_replay_win = anti_replay_init;
    kcp = some [];
    channels = [];
    last_recv_time = 0;
    last_keepalive_time = 0;
    last_ping_time = 0;
    auth_start_time = 0;
    last_reset_timestamp = 0;
    last_reset_salt = 0;
    fec_enc = idle_encoder;
    groups = [];
    fec_n = 10;
    fec_r = 1;
    stats_expected_groups = 0;
    stats_received_packets = 0;
    stats_group_packet_count = 0;
    last_stats_report_time = 0;
    next_odd_id = 1;
    next_even_id = 2;
  };
  world = [];
}
