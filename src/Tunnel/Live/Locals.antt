-- ===== src/Tunnel/Live/Locals.antt =====
-- The events of local connections and the results of name resolution leave the state alone, and a KCP
-- where there was one.
use bi_tun.Base.{
  ℕ, true, false, not, ◌||◌, Option, none, some, Bool-cases, inl, inr, List, [], ◌∷◌, length, take,
  get_elem?, ◌==◌, if◌then◌else◌,
}
use bi_tun.Socks5.{need_more, resolved, failed, fault, Outcome, socks5_init, socks5_handle_input}
use bi_tun.Tunnel.Types.{Channel}
use bi_tun.Tunnel.Host.{Host}
use bi_tun.Tunnel.Send.{Sys, send_control_frame}
use bi_tun.Tunnel.Channels.{find_index, find_channel, find_free, put_channel, close_channel}
use bi_tun.Tunnel.Frames.{in_world}
use bi_tun.Tunnel.Local.{
  DnsResult, Events, next_id, accept_client, on_socks5_bytes, connect_payload, forwarded,
  forward_bytes, on_readable, is_congested, on_event, owns, on_tcp_event, on_dns_result,
}
use bi_tun.Tunnel.Live.{Live, either, whether}
use bi_tun.Tunnel.Live.Sending.{send_control_frame-Live}
use bi_tun.Tunnel.Live.Framed.{close-Live, refuse-Live, connect_target-Live}

by_outcome :
    {B : Type 0} (P : B → Type 0) (o : Outcome) {a b c : B}
    → P a
    → P b
    → P c
    → P (elim o [ need_more ↦ a | resolved ↦ b | failed ↦ c | fault ↦ a ])
by_outcome P need_more x y z = x
by_outcome P resolved x y z = y
by_outcome P failed x y z = z
by_outcome P fault x y z = x

module _ (E : Host) where
  next_id-Live :
      (s : Sys E) (w : Host.World E)
      → Live E s
      → Live E (record { tun = (next_id E s.tun).1; world = w })
  unfolding Live next_id
  next_id-Live s w h = elim (Bool-cases s.tun.is_odd_id_generator) [
    | inl o ↦ rw (o, next_id) h
    | inr e ↦ rw (e, next_id) h
  ]

  pub accept_client-Live : (s : Sys E) → Live E s → Live E (accept_client E s)
  unfolding Live accept_client
  accept_client-Live s h =
      let (client, world) = Host.accept E s.world in
      whether (Live E) client h (λ fd. whether (Live E) (find_free s.tun.channels) h (λ idx.
        whether (Live E) (get_elem? s.tun.channels idx) h (λ slot.
          let ready = Host.set_nonblocking E fd world in
          let ch = record slot {
            is_active = true;
            tcp_fd = some fd;
            send_wnd = 4096;
            recv_wnd = 4096;
            local_recv_accum = 0;
            socks5_handshake_done = false;
            read_suspended = false;
            socks5_ctx = socks5_init slot.socks5_ctx;
            channel_id = (next_id E s.tun).0;
          } in
          let polled = Host.poll_add_in E fd ready in (next_id-Live s polled h))))

  -- A channel closed and the other end told.
  end-Live :
      (s : Sys E) (id close_id : ℕ) (payload : List ℕ)
      → Live E s
      → Live E (send_control_frame E (close_channel E s id) close_id 0x04 payload)
  end-Live s id close_id payload h =
      send_control_frame-Live E (close_channel E s id) close_id 0x04 payload (close-Live E s id h)

  socks5_bytes-Live :
      (s : Sys E) (idx : ℕ) (ch : Channel) (fd : ℕ) (bytes : List ℕ)
      → Live E s
      → Live E (on_socks5_bytes E s idx ch fd bytes)
  unfolding Live on_socks5_bytes
  socks5_bytes-Live s idx ch fd bytes h =
      let (ctx, resp, outcome) = socks5_handle_input (Host.malloc E) ch.socks5_ctx bytes in
      let world : Host.World E =
        if length resp == 0 then s.world else (Host.send E fd resp s.world).1 in
      let parsed = put_channel E (in_world E s world) idx (record ch { socks5_ctx = ctx }) in
      let parsed-h : Live E parsed = h in
      let finished : Channel = record ch {
        socks5_ctx = ctx;
        socks5_handshake_done = true;
        port = ctx.port;
      } in
      let done = put_channel E (in_world E s world) idx finished in
      let done-h : Live E done = h in
      by_outcome (Live E) outcome parsed-h
        (whether (Live E) (connect_payload ctx) done-h
          (λ payload. send_control_frame-Live E done ch.channel_id 0x01 payload done-h))
        (end-Live parsed ch.channel_id ch.channel_id (1 ∷ []) parsed-h)

  forward-Live :
      (s : Sys E) (idx : ℕ) (ch : Channel) (bytes : List ℕ)
      → Live E s
      → Live E (forward_bytes E s idx ch bytes)
  unfolding Live forward_bytes
  forward-Live s idx ch bytes h =
      let to_read = forwarded (length bytes) ch.send_wnd in
      let sent = send_control_frame E s ch.channel_id 0x03 (take to_read bytes) in
      either (Live E) (to_read == 0) h
        ((send_control_frame-Live E s ch.channel_id 0x03 (take to_read bytes) h))

  readable-Live :
      (s : Sys E) (idx : ℕ) (ch : Channel) (fd : ℕ) → Live E s → Live E (on_readable E s idx ch fd)
  unfolding Live on_readable
  readable-Live s idx ch fd h =
      let (received, world) = Host.recv E fd s.world in go received (in_world E s world) h
    where
      go :
          (o : Option (List ℕ)) (r : Sys E)
          → Live E r
          → Live E (elim o [
            | none ↦ r
            | some [] ↦
                send_control_frame E (close_channel E r ch.channel_id) ch.channel_id 0x04 (1 ∷ [])
            | some (byte ∷ rest) ↦
                if ch.socks5_handshake_done
                then forward_bytes E r idx ch (byte ∷ rest)
                else on_socks5_bytes E r idx ch fd (byte ∷ rest)
          ])
      go none r g = g
      go (some []) r g = end-Live r ch.channel_id ch.channel_id (1 ∷ []) g
      go (some (byte ∷ rest)) r g =
          either (Live E) ch.socks5_handshake_done (forward-Live r idx ch (byte ∷ rest) g)
            (socks5_bytes-Live r idx ch fd (byte ∷ rest) g)

  event-Live :
      (s : Sys E) (idx : ℕ) (ch : Channel) (fd : ℕ) (events : Events)
      → Live E s
      → Live E (on_event E s idx ch fd events)
  unfolding Live on_event
  event-Live s idx ch fd events h =
      let (bad, world) = Host.connect_failed E fd s.world in
      either (Live E) events.poll_out
        (either (Live E) bad (refuse-Live E (in_world E s world) ch.channel_id h)
          (send_control_frame-Live E (in_world E s world) ch.channel_id 0x02 (0 ∷ []) h))
        (either (Live E) events.poll_err (end-Live s ch.channel_id ch.channel_id (2 ∷ []) h) (
          either (Live E) (not events.poll_in || ch.read_suspended) h
            (either (Live E) (is_congested E s.tun) (h) (readable-Live s idx ch fd h))))

  pub tcp_event-Live :
      (s : Sys E) (fd : ℕ) (events : Events) → Live E s → Live E (on_tcp_event E s fd events)
  unfolding on_tcp_event
  tcp_event-Live s fd events h =
      whether (Live E) (find_index (owns E fd) s.tun.channels 0) h (λ idx.
        whether (Live E) (get_elem? s.tun.channels idx) h (λ ch. event-Live s idx ch fd events h))

  pub dns_result-Live : (s : Sys E) (res : DnsResult) → Live E s → Live E (on_dns_result E s res)
  unfolding on_dns_result
  dns_result-Live s res h =
      let ip : List ℕ = elim res.resolved_addr [
        | none ↦ take 4 res.resolved_ipv4
        | some addr ↦ addr
      ] in
      whether (Live E) (find_channel s.tun.channels res.channel_id) h (λ idx.
        whether (Live E) (get_elem? s.tun.channels idx) h (λ ch.
          either (Live E) res.success
            (connect_target-Live E s idx ch (record { ip = ip; port = ch.port }) h)
            (refuse-Live E s ch.channel_id h)))
