-- ===== src/Tunnel/Live/Framed.antt =====
-- A frame that KCP delivers leaves the state alone, and a KCP where there was one.
use bi_tun.Base.{
  ℕ, zero, suc, ◌+◌, some, List, [], ◌∷◌, ◌++◌, length, get_or, get_elem?, drop, slice, from_be,
  be32, u32, ltb, leb, ◌==◌, if◌then◌else◌,
}
use bi_tun.Tunnel.Types.{Channel, Address}
use bi_tun.Tunnel.Host.{Host}
use bi_tun.Tunnel.Send.{Sys, send_control_frame}
use bi_tun.Tunnel.Channels.{find_channel, find_free, put_channel, close_channel}
use bi_tun.Tunnel.Frames.{
  in_world, refuse, connect_target, resolve_domain, on_connect, with_fd, on_connect_ack, account,
  on_data, on_window_update, on_channel_frame, on_feedback, handle_frame, frames_loop,
  opened_channel, socks5_answer,
}
use bi_tun.Tunnel.Reset.{close_channel-SameSession}
use bi_tun.Tunnel.Live.{Live, session-Live, other_kcp-Live, either, whether, whether_is}
use bi_tun.Tunnel.Live.Sending.{send_control_frame-Live}

module _ (E : Host) where
  pub close-Live : (s : Sys E) (id : ℕ) → Live E s → Live E (close_channel E s id)
  close-Live s id h =
      let (n, st, k, key) = close_channel-SameSession E s id in
      session-Live E s (close_channel E s id) st k h

  pub refuse-Live : (s : Sys E) (id : ℕ) → Live E s → Live E (refuse E s id)
  unfolding refuse
  refuse-Live s id h =
      close-Live (send_control_frame E s id 0x02 (1 ∷ [])) id
        (send_control_frame-Live E s id 0x02 (1 ∷ []) h)

  pub connect_target-Live :
      (s : Sys E) (idx : ℕ) (ch : Channel) (target : Address)
      → Live E s
      → Live E (connect_target E s idx ch target)
  unfolding Live connect_target
  connect_target-Live s idx ch target h =
      let (created, world) = Host.socket_create E s.world in
      whether (Live E) created (refuse-Live (in_world E s world) ch.channel_id h) (λ fd.
        let (started, world') =
          Host.connect_started E fd target (Host.set_nonblocking E fd world) in
        either (Live E) started h
          (refuse-Live (in_world E s (Host.close E fd world')) ch.channel_id h))

  resolve_domain-Live :
      (s : Sys E) (id : ℕ) (payload : List ℕ) → Live E s → Live E (resolve_domain E s id payload)
  unfolding Live resolve_domain
  resolve_domain-Live s id payload h =
      whether (Live E) (Host.malloc E (get_or payload 3 0 + 1)) h (λ buffer. h)

  on_connect-Live :
      (s : Sys E) (id : ℕ) (payload : List ℕ) → Live E s → Live E (on_connect E s id payload)
  unfolding Live on_connect
  on_connect-Live s id payload h =
      let port = from_be (slice payload 1 2) in
      let addr_type = get_or payload 0 0 in
      let target : Address = record { ip = slice payload 3 4; port = port } in
      whether (Live E) (find_free s.tun.channels) (send_control_frame-Live E s id 0x02 (1 ∷ []) h)
        (λ idx. whether (Live E) (get_elem? s.tun.channels idx) h (λ slot.
          let ch = opened_channel slot id port in
          let opened = put_channel E s idx ch in
          let here = h in
          either (Live E) (addr_type == 1) (connect_target-Live opened idx ch target here)
            (either (Live E) (addr_type == 2) (resolve_domain-Live opened id payload here) here)))

  on_connect_ack-Live :
      (s : Sys E) (idx : ℕ) (ch : Channel) (payload : List ℕ)
      → Live E s
      → Live E (on_connect_ack E s idx ch payload)
  unfolding Live on_connect_ack
  on_connect_ack-Live s idx ch payload h =
      let answer : ℕ → Host.World E = λ code.
        with_fd E ch.tcp_fd (λ fd world. (Host.send E fd (socks5_answer code) world).1) s.world in
      either (Live E) (get_or payload 0 0 == 0) h
        (close-Live (in_world E s (answer 5)) ch.channel_id h)

  account-Live :
      (s : Sys E) (idx : ℕ) (ch : Channel) (sent : ℕ) → Live E s → Live E (account E s idx ch sent)
  unfolding Live account
  account-Live s idx ch sent h =
      let accum = u32 (ch.local_recv_accum + sent) in
      let reported = send_control_frame E s ch.channel_id 0x06 (be32 accum) in
      either (Live E) (sent == 0) h (
        either (Live E) (leb 2048 accum)
          (send_control_frame-Live E s ch.channel_id 0x06 (be32 accum) h) h)

  on_data-Live :
      (s : Sys E) (idx : ℕ) (ch : Channel) (payload : List ℕ)
      → Live E s
      → Live E (on_data E s idx ch payload)
  unfolding Live on_data
  on_data-Live s idx ch payload h = whether (Live E) ch.tcp_fd h (λ fd.
      let (sent, world) = Host.send E fd payload s.world in
      whether (Live E) sent h (λ k. account-Live (in_world E s world) idx ch k h))

  on_channel_frame-Live :
      (s : Sys E) (idx : ℕ) (ch : Channel) (cmd : ℕ) (payload : List ℕ) (payload_len : ℕ)
      → Live E s
      → Live E (on_channel_frame E s idx ch cmd payload payload_len)
  unfolding Live on_channel_frame on_window_update
  on_channel_frame-Live s idx ch cmd payload payload_len h =
      either (Live E) (cmd == 0x02) (on_connect_ack-Live s idx ch payload h) (
        either (Live E) (cmd == 0x03) (on_data-Live s idx ch (slice payload 0 payload_len) h) (
          either (Live E) (cmd == 0x04) (close-Live s ch.channel_id h)
            (either (Live E) (cmd == 0x06) h h)))

  on_feedback-Live :
      (s : Sys E) (payload : List ℕ) (payload_len : ℕ)
      → Live E s
      → Live E (on_feedback E s payload payload_len)
  unfolding Live on_feedback
  on_feedback-Live s payload payload_len h = either (Live E) (leb 1 payload_len) h h

  handle_frame-Live :
      (s : Sys E) (buf : List ℕ) (now : ℕ) → Live E s → Live E (handle_frame E s buf now)
  unfolding Live handle_frame
  handle_frame-Live s buf now h =
      let id = from_be (slice buf 0 4) in
      let cmd = get_or buf 4 0 in
      let payload = drop 8 buf in
      let payload_len = from_be (slice buf 6 2) in
      either (Live E) (cmd == 0x05) h (
        either (Live E) (cmd == 0x07) (on_feedback-Live s payload payload_len h) (
          whether (Live E) (find_channel s.tun.channels id)
            (either (Live E) (cmd == 0x01) (on_connect-Live s id payload h) h)
            (λ idx. whether (Live E) (get_elem? s.tun.channels idx) h (λ ch.
              either (Live E) (cmd == 0x01) h
                (on_channel_frame-Live s idx ch cmd payload payload_len h)))))

  pub frames_loop-Live :
      (fuel : ℕ) (s : Sys E) (held : List ℕ) (now : ℕ)
      → Live E s
      → Live E (frames_loop E fuel s held now)
  unfolding Live frames_loop
  frames_loop-Live zero s held now h = h
  frames_loop-Live (suc fuel) s held now h = whether_is (Live E) s.tun.kcp h (λ kcp e.
      let (received, kcp') = Host.ikcp_recv E kcp in
      let popped = record s { tun = record (s.tun) { kcp = some kcp' } } in
      let popped-h : Live E popped = other_kcp-Live E s kcp kcp' e h in
      whether (Live E) received popped-h (λ message.
        let buf = message ++ drop (length message) held in
        frames_loop-Live fuel
          (if ltb (length message) 8 then popped else handle_frame E popped buf now) buf now
          (either (Live E) (ltb (length message) 8) popped-h
            (handle_frame-Live popped buf now popped-h))))
