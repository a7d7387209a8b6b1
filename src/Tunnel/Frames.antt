-- ===== src/Tunnel/Frames.antt =====
-- Section 4 of `tunnel_run`: the frames that KCP delivers. `buf` is `kcp_buf` with the frame at its
-- start and, behind it, what the array held before.
use bi_tun.Base.{
  ℕ, zero, suc, ◌+◌, true, false, Option, none, some, List, [], ◌∷◌, ◌++◌, length, drop, get_or,
  get_elem?, ltb, leb, ◌==◌, if◌then◌else◌, u32, slice, be32, from_be, c_string,
}
use bi_tun.Tunnel.Types.{Channel, Address}
use bi_tun.Tunnel.Host.{Host}
use bi_tun.Tunnel.Send.{Sys, send_control_frame}
use bi_tun.Tunnel.Channels.{find_channel, find_free, put_channel, close_channel}

-- `CMD_FEC_FEEDBACK`: the parameters for a reported loss.
unfoldable pub fec_for_loss : ℕ → ℕ × ℕ
fec_for_loss loss_rate =
    if loss_rate == 0
    then (10, 0)
    else if leb loss_rate 5
    then (10, 1)
    else if leb loss_rate 10
    then (8, 2)
    else if leb loss_rate 20
    then (5, 2)
    else (4, 3)

-- What the code writes to a slot for an incoming connection, before it looks at the address.
abbrev pub opened_channel : Channel → ℕ → ℕ → Channel
opened_channel ch channel_id port = record ch {
  is_active = true;
  channel_id = channel_id;
  tcp_fd = none;
  send_wnd = 4096;
  recv_wnd = 4096;
  local_recv_accum = 0;
  read_suspended = false;
  port = port;
  socks5_handshake_done = true;
}

-- The answer to the SOCKS5 client.
abbrev pub socks5_answer : ℕ → List ℕ
socks5_answer code = 0x05 ∷ code ∷ 0x00 ∷ 0x01 ∷ 0 ∷ 0 ∷ 0 ∷ 0 ∷ 0 ∷ 0 ∷ []

module _ (E : Host) where
  open E use {
    socket_create, set_nonblocking, connect_started, close, poll_add_in, poll_add_in_out,
    poll_mod_in, dns_resolve_async, send, malloc, ikcp_recv,
  }

  abbrev pub in_world : Sys E → Host.World E → Sys E
  in_world s world = record s { world = world }

  -- CONNECT_ACK with status 1, and the end of the channel.
  unfoldable pub refuse : Sys E → ℕ → Sys E
  refuse s channel_id = close_channel E (send_control_frame E s channel_id 0x02 (1 ∷ [])) channel_id

  -- The connection of the channel in slot `idx` to its target.
  unfoldable pub connect_target : Sys E → ℕ → Channel → Address → Sys E
  unfolding refuse
  connect_target s idx ch target =
      let (created, world) = socket_create s.world in
      elim created [
        | none ↦ refuse (in_world s world) ch.channel_id
        | some fd ↦
            let (started, world') = connect_started fd target (set_nonblocking fd world) in
            if started
            then put_channel E (in_world s (poll_add_in_out fd world')) idx
                (record ch { tcp_fd = some fd })
            else refuse (in_world s (close fd world')) ch.channel_id
      ]

  unfoldable pub resolve_domain : Sys E → ℕ → List ℕ → Sys E
  resolve_domain s channel_id payload =
      let dom_len = get_or payload 3 0 in
      elim (malloc (dom_len + 1)) [
        | none ↦ s
        | some buffer ↦
            in_world s (dns_resolve_async (c_string (slice payload 4 dom_len)) channel_id s.world)
      ]

  unfoldable pub on_connect : Sys E → ℕ → List ℕ → Sys E
  unfolding connect_target resolve_domain
  on_connect s channel_id payload =
      let port = from_be (slice payload 1 2) in
      let addr_type = get_or payload 0 0 in
      let target : Address = record { ip = slice payload 3 4; port = port } in
      elim (find_free s.tun.channels) [
        | none ↦ send_control_frame E s channel_id 0x02 (1 ∷ [])
        | some idx ↦ elim (get_elem? s.tun.channels idx) [
          | none ↦ s
          | some slot ↦
              let ch = opened_channel slot channel_id port in
              let opened = put_channel E s idx ch in
              if addr_type == 1
              then connect_target opened idx ch target
              else if addr_type == 2
              then resolve_domain opened channel_id payload
              else opened
        ]
      ]

  -- A call on the descriptor -1 does nothing.
  abbrev pub with_fd : Option ℕ → (ℕ → Host.World E → Host.World E) → Host.World E → Host.World E
  with_fd none act world = world
  with_fd (some fd) act world = act fd world

  unfoldable pub on_connect_ack : Sys E → ℕ → Channel → List ℕ → Sys E
  on_connect_ack s idx ch payload =
      let answer : ℕ → Host.World E =
        λ code. with_fd ch.tcp_fd (λ fd world. (send fd (socks5_answer code) world).1) s.world in
      if get_or payload 0 0 == 0
      then put_channel E (in_world s (with_fd ch.tcp_fd poll_add_in (answer 0))) idx
          (record ch { socks5_handshake_done = true })
      else close_channel E (in_world s (answer 5)) ch.channel_id

  -- After `sent` bytes to the local connection.
  unfoldable pub account : Sys E → ℕ → Channel → ℕ → Sys E
  account s idx ch sent =
      let accum = u32 (ch.local_recv_accum + sent) in
      let reported = send_control_frame E s ch.channel_id 0x06 (be32 accum) in
      if sent == 0
      then s
      else if leb 2048 accum
      then put_channel E reported idx (record ch { local_recv_accum = 0 })
      else put_channel E s idx (record ch { local_recv_accum = accum })

  unfoldable pub on_data : Sys E → ℕ → Channel → List ℕ → Sys E
  unfolding account
  on_data s idx ch payload = elim ch.tcp_fd [
    | none ↦ s
    | some fd ↦
        let (sent, world) = send fd payload s.world in
        elim sent [ none ↦ in_world s world | some n ↦ account (in_world s world) idx ch n ]
  ]

  unfoldable pub on_window_update : Sys E → ℕ → Channel → List ℕ → Sys E
  on_window_update s idx ch payload =
      put_channel E (in_world s (with_fd ch.tcp_fd poll_mod_in s.world)) idx
        (record ch { send_wnd = u32 (ch.send_wnd + from_be (slice payload 0 4)) })

  -- A command for a channel that exists.
  unfoldable pub on_channel_frame : Sys E → ℕ → Channel → ℕ → List ℕ → ℕ → Sys E
  unfolding on_connect_ack on_data on_window_update
  on_channel_frame s idx ch cmd payload payload_len =
      if cmd == 0x02
      then on_connect_ack s idx ch payload
      else if cmd == 0x03
      then on_data s idx ch (slice payload 0 payload_len)
      else if cmd == 0x04
      then close_channel E s ch.channel_id
      else if cmd == 0x06
      then on_window_update s idx ch payload
      else s

  unfoldable pub on_feedback : Sys E → List ℕ → ℕ → Sys E
  unfolding fec_for_loss
  on_feedback s payload payload_len =
      let (n, r) = fec_for_loss (get_or payload 0 0) in
      if leb 1 payload_len then record s { tun = record (s.tun) { fec_n = n; fec_r = r } } else s

  unfoldable pub handle_frame : Sys E → List ℕ → ℕ → Sys E
  unfolding on_connect on_channel_frame on_feedback
  handle_frame s buf now =
      let channel_id = from_be (slice buf 0 4) in
      let cmd = get_or buf 4 0 in
      let payload_len = from_be (slice buf 6 2) in
      let payload = drop 8 buf in
      let on_channel : Sys E = elim (find_channel s.tun.channels channel_id) [
        | none ↦ if cmd == 0x01 then on_connect s channel_id payload else s
        | some idx ↦ elim (get_elem? s.tun.channels idx) [
          | none ↦ s
          | some ch ↦ if cmd == 0x01 then s else on_channel_frame s idx ch cmd payload payload_len
        ]
      ] in
      if cmd == 0x05
      then record s { tun = record (s.tun) { last_recv_time = now } }
      else if cmd == 0x07
      then on_feedback s payload payload_len
      else on_channel

  -- The loop on `ikcp_recv`, `fuel` messages at most; `held` is what `kcp_buf` holds.
  unfoldable pub frames_loop : ℕ → Sys E → List ℕ → ℕ → Sys E
  unfolding handle_frame
  frames_loop zero s held now = s
  frames_loop (suc fuel) s held now = elim s.tun.kcp [
    | none ↦ s
    | some kcp ↦
        let (received, kcp') = ikcp_recv kcp in
        let popped = record s { tun = record (s.tun) { kcp = some kcp' } } in
        elim received [
          | none ↦ popped
          | some message ↦
              let buf = message ++ drop (length message) held in
              frames_loop fuel
                (if ltb (length message) 8 then popped else handle_frame popped buf now) buf now
        ]
  ]
