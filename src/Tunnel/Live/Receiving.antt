-- ===== src/Tunnel/Live/Receiving.antt =====
-- A packet from the network keeps a KCP where the tunnel is connected, and nowhere else.
use bi_tun.Base.{
  ℕ, ◌≡◌, refl, sym, ap, ◌∙◌, arith, true, false, not, ◌||◌, List, length, drop, slice, from_be,
  memcmp_eq, ltb, leb, ◌==◌, if◌then◌else◌,
}
use bi_tun.Replay.{anti_replay_check, anti_replay_update}
use bi_tun.Tunnel.Types.{TunnelState, disconnected, punching, auth, connected, Address}
use bi_tun.Tunnel.Host.{Host}
use bi_tun.Tunnel.Send.{Sys}
use bi_tun.Tunnel.Channels.{max_channels, forget_session, fixed_peer, reset_tunnel}
use bi_tun.Tunnel.Handshake.{
  ping_magic, pong_magic, chal_magic, resp_magic, reset_magic, begin_auth, start_session, on_ping,
  on_pong, on_chal, on_resp, on_reset, accept_reset, is_connected, early, is_punching,
}
use bi_tun.Tunnel.Receive.{same_address, header_of, accept_packet, on_encrypted, on_packet}
use bi_tun.Tunnel.Reset.{close_all-SameSession}
use bi_tun.Tunnel.Live.{Live, is_some, either, whether}
use bi_tun.Tunnel.Live.Incoming.{incoming-Live}

module _ (E : Host) where
  on_encrypted-Live :
      (s : Sys E) (buf : List ℕ) (from : Address) (now : ℕ)
      → Live E s
      → Live E (on_encrypted E s buf from now)
  unfolding Live on_encrypted accept_packet
  on_encrypted-Live s buf from now h =
      let seq = from_be (slice buf 0 8) in
      let known = record s {
        tun = record (s.tun) {
          anti_replay_win = anti_replay_update s.tun.anti_replay_win seq;
          peer_addr = if same_address from s.tun.peer_addr then s.tun.peer_addr else from;
        };
      } in
      either (Live E)
        (not (is_connected s.tun.state)
          || ltb (length buf) 36
          || not (anti_replay_check s.tun.anti_replay_win seq))
        h
        (whether (Live E)
          (Host.aead_decrypt E s.tun.session_key (slice buf 8 12) (slice buf 20 16) (drop 36 buf)) h
          (λ plain.
            either (Live E) (leb 6 (length plain))
              (incoming-Live E known (header_of plain) (drop 6 plain) now h) h))

  -- A reset has neither, whatever was there before.
  pub reset-Live : (s : Sys E) → Live E (reset_tunnel E s)
  unfolding Live reset_tunnel forget_session
  reset-Live s =
      let (n, st, k, key) =
        close_all-SameSession E max_channels 0 (record s { tun = forget_session E s.tun }) in
      let cleared = ap is_some k ∙ sym (ap is_connected st) in
      either (Live E) (fixed_peer s.tun.config) cleared cleared

  reset-state : (s : Sys E) → (reset_tunnel E s).tun.state ≡ disconnected
  unfolding reset_tunnel forget_session
  reset-state s =
      let (n, st, k, key) =
        close_all-SameSession E max_channels 0 (record s { tun = forget_session E s.tun }) in
      either (λ (t : Sys E). t.tun.state ≡ disconnected) (fixed_peer s.tun.config) st st

  -- In a state that is not connected there is no KCP.
  idle-kcp : (s : Sys E) → is_connected s.tun.state ≡ false → Live E s → is_some s.tun.kcp ≡ false
  unfolding Live
  idle-kcp s off h = h ∙ off

  not_early : (st : TunnelState) → early st ≡ true → is_connected st ≡ false
  not_early disconnected e = refl
  not_early punching e = refl
  not_early auth e = refl
  not_early connected e = sym e

  not_punching : (st : TunnelState) → is_punching st ≡ true → is_connected st ≡ false
  not_punching disconnected e = refl
  not_punching punching e = refl
  not_punching auth e = refl
  not_punching connected e = sym e

  on_ping-Live :
      (s : Sys E) (buf : List ℕ) (from : Address) (now : ℕ)
      → Live E s
      → Live E (on_ping E s buf from now)
  unfolding Live on_ping begin_auth
  on_ping-Live s buf from now h =
      let idle = idle-kcp s in let off = not_early s.tun.state in ground (arith, h, idle, off)

  on_pong-Live : (s : Sys E) (buf : List ℕ) (now : ℕ) → Live E s → Live E (on_pong E s buf now)
  unfolding Live on_pong begin_auth
  on_pong-Live s buf now h =
      let idle = idle-kcp s in let off = not_punching s.tun.state in ground (arith, h, idle, off)

  on_chal-Live : (s : Sys E) (buf : List ℕ) → Live E s → Live E (on_chal E s buf)
  unfolding Live on_chal start_session
  on_chal-Live s buf h = ground (arith, h)

  on_resp-Live : (s : Sys E) (buf : List ℕ) (now : ℕ) → Live E s → Live E (on_resp E s buf now)
  unfolding Live on_resp start_session
  on_resp-Live s buf now h = ground (arith, h)

  accept_reset-Live :
      (s : Sys E) (from : Address) (now time salt : ℕ)
      → Live E (accept_reset E s from now time salt)
  unfolding Live accept_reset begin_auth
  accept_reset-Live s from now time salt =
      let noted = record s {
        tun = record (s.tun) { last_reset_timestamp = time; last_reset_salt = salt };
      } in
      idle-kcp (reset_tunnel E noted) (ap is_connected (reset-state noted)) (reset-Live noted)

  on_reset-Live :
      (s : Sys E) (buf : List ℕ) (from : Address) (now : ℕ)
      → Live E s
      → Live E (on_reset E s buf from now)
  unfolding Live on_reset
  on_reset-Live s buf from now h =
      let asked = record s { world = (Host.real_ms E s.world).1 } in
      let accepted =
        accept_reset-Live asked from now (from_be (slice buf 8 8)) (from_be (slice buf 16 8)) in
      ground (arith, h, accepted)

  pub on_packet-Live :
      (s : Sys E) (buf : List ℕ) (from : Address) (now : ℕ)
      → Live E s
      → Live E (on_packet E s buf from now)
  unfolding on_packet
  on_packet-Live s buf from now h =
      let encrypted = on_encrypted-Live s buf from now h in
      either (Live E) (length buf == 0) h (
        either (Live E) (ltb (length buf) 4) encrypted (
          either (Live E) (memcmp_eq 4 buf ping_magic) (on_ping-Live s buf from now h) (
            either (Live E) (memcmp_eq 4 buf pong_magic) (on_pong-Live s buf now h) (
              either (Live E) (memcmp_eq 4 buf chal_magic) (on_chal-Live s buf h) (
                either (Live E) (memcmp_eq 4 buf resp_magic) (on_resp-Live s buf now h) (
                  either (Live E) (memcmp_eq 4 buf reset_magic) (on_reset-Live s buf from now h)
                    encrypted))))))
