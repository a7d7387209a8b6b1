-- ===== src/Tunnel/Live/Rounds.antt =====
-- KCP and the state agree through whole rounds of `tunnel_run`.
use bi_tun.Base.{
  ℕ, zero, suc, ◌+◌, ◌≡◌, ap, ◌∙◌, refl, true, false, ◌&&◌, none, some, List, [], ◌∷◌, get_elem?,
  ltb, ◌==◌, if◌then◌else◌,
}
use bi_tun.Tunnel.Types.{TunnelState, disconnected, punching, auth, connected}
use bi_tun.Tunnel.Host.{Host}
use bi_tun.Tunnel.Send.{Sys}
use bi_tun.Tunnel.Channels.{max_channels, put_channel, reset_tunnel}
use bi_tun.Tunnel.Handshake.{is_connected, send_auth_reset}
use bi_tun.Tunnel.Frames.{in_world}
use bi_tun.Tunnel.Local.{Events, on_dns_result}
use bi_tun.Tunnel.Tick.{since, update_kcp, send_ping, keepalive, resume_loop, resume_channels, tick}
use bi_tun.Tunnel.Setup.{Platform, Process}
use bi_tun.Tunnel.Run.{
  is_fd, poll_timeout, handle_results, on_datagram, handle_event, handle_events, round, run_loop,
  tunnel_run,
}
use bi_tun.Tunnel.Live.{Live, Same-refl, Same-Live, core_with, is_some, either, whether}
use bi_tun.Tunnel.Live.Sending.{send_control_frame-Live}
use bi_tun.Tunnel.Live.Updating.{before_keepalive, before_keepalive-Same}
use bi_tun.Tunnel.Live.Receiving.{reset-Live, on_packet-Live}
use bi_tun.Tunnel.Live.Framed.{frames_loop-Live}
use bi_tun.Tunnel.Live.Locals.{accept_client-Live, tcp_event-Live, dns_result-Live}

module _ (E : Host) where
  auth_reset-Live : (s : Sys E) → Live E s → Live E (send_auth_reset E s)
  unfolding Live send_auth_reset
  auth_reset-Live s h = either (Live E) s.tun.peer_addr_valid h h

  keepalive-Live :
      (st : TunnelState) (s : Sys E) (now : ℕ)
      → s.tun.state ≡ st
      → Live E s
      → Live E (keepalive E st s now)
  unfolding Live keepalive send_ping
  keepalive-Live connected s now e h =
      either (Live E) (ltb 30000 (since now s.tun.last_recv_time)) (reset-Live E s) (
        either (Live E) (ltb 10000 (since now s.tun.last_keepalive_time))
          (send_control_frame-Live E s 0 0x05 [] h) h)
  keepalive-Live disconnected s now e h =
      either (Live E) s.tun.peer_addr_valid (h ∙ ap is_connected e) h
  keepalive-Live punching s now e h =
      either (Live E) (ltb 1000 (since now s.tun.last_ping_time))
        (auth_reset-Live (send_ping E s) h) h
  keepalive-Live auth s now e h =
      either (Live E) (ltb 5000 (since now s.tun.auth_start_time)) (reset-Live E s)
        (either (Live E) (ltb 500 (since now s.tun.last_ping_time)) h h)

  resume_loop-Live : (left i : ℕ) (s : Sys E) → Live E s → Live E (resume_loop E left i s)
  unfolding Live resume_loop
  resume_loop-Live zero i s h = h
  resume_loop-Live (suc left) i s h =
      let next : Sys E = elim (get_elem? s.tun.channels i) [
        | none ↦ s
        | some ch ↦ elim ch.tcp_fd [
          | none ↦ s
          | some fd ↦
              if ch.is_active && ch.read_suspended
              then put_channel E (record s { world = Host.poll_mod_in E fd s.world }) i
                  (record ch { read_suspended = false })
              else s
        ]
      ] in
      resume_loop-Live left (i + 1) next (
        whether (Live E) (get_elem? s.tun.channels i) h (λ ch.
          whether (Live E) ch.tcp_fd h
            (λ fd. either (Live E) (ch.is_active && ch.read_suspended) h h)))

  tick-Live : (s : Sys E) (now : ℕ) → Live E s → Live E (tick E s now)
  unfolding tick resume_channels
  tick-Live s now h =
      let flushed = before_keepalive E (core_with E s s.tun.kcp) s now in
      let flushed-h : Live E flushed =
        Same-Live E s flushed h
          (before_keepalive-Same E (core_with E s s.tun.kcp) s now (Same-refl E s)) in
      let kept = keepalive E flushed.tun.state flushed now in
      let kept-h = keepalive-Live flushed.tun.state flushed now refl flushed-h in
      whether (Live E) kept.tun.kcp kept-h (λ kcp.
        either (Live E) (ltb (Host.ikcp_waitsnd E kcp) 16)
          (resume_loop-Live max_channels 0 kept kept-h) kept-h)

  module _ (O : Platform E) where
    results-Live :
        (fuel queue : ℕ) (s : Sys E) → Live E s → Live E (handle_results E O fuel queue s)
    unfolding Live handle_results
    results-Live zero queue s h = h
    results-Live (suc fuel) queue s h =
        let (res, world) = Platform.queue_pop O queue s.world in
        let popped = in_world E s world in
        whether (Live E) res h
          (λ r. results-Live fuel queue (on_dns_result E popped r) (dns_result-Live E popped r h))

    event-Live :
        (fuel : ℕ) (p : Process E) (s : Sys E) (now fd : ℕ) (events : Events)
        → Live E s
        → Live E (handle_event E O fuel p s now fd events)
    unfolding Live handle_event on_datagram
    event-Live fuel p s now fd events h =
        let (received, world) = Platform.recvfrom O s.world in
        let read = in_world E s world in
        either (Live E) (is_fd p.dns_queue fd)
          (results-Live fuel fd (in_world E s (Platform.queue_clear_wakeup O fd s.world)) h)
          (either (Live E) (fd == p.udp_fd)
            (whether (Live E) received h
              (λ datagram. on_packet-Live E read datagram.0 datagram.1 now h))
            (either (Live E) (is_fd p.tcp_listen_fd fd) (accept_client-Live E s h)
              (tcp_event-Live E s fd events h)))

    events-Live :
        (fuel : ℕ) (p : Process E) (events : List (ℕ × Events)) (s : Sys E) (now : ℕ)
        → Live E s
        → Live E (handle_events E O fuel p events s now)
    unfolding handle_events
    events-Live fuel p [] s now h = h
    events-Live fuel p (event ∷ rest) s now h =
        events-Live fuel p rest (handle_event E O fuel p s now event.0 event.1) now
          (event-Live fuel p s now event.0 event.1 h)

    round-Live : (fuel : ℕ) (p : Process E) → Live E p.sys → Live E (round E O fuel p).sys
    unfolding Live round
    round-Live fuel p h =
        let (now, w) = Platform.time_ms O p.sys.world in
        let start = in_world E p.sys w in
        let timeout = poll_timeout E O (update_kcp E start now) now in
        let ticked = tick E start now in
        let (events, after_poll) = Platform.poll_wait O timeout ticked.world in
        let polled = in_world E ticked after_poll in
        let handled = handle_events E O fuel p events polled now in
        let handled-h : Live E handled =
          events-Live fuel p events polled now (tick-Live start now h) in
        either (Live E) (is_connected handled.tun.state)
          (frames_loop-Live E fuel handled (Platform.stack O) now handled-h) handled-h

    run_loop-Live : (fuel : ℕ) (p : Process E) → Live E p.sys → Live E (run_loop E O fuel p).sys
    unfolding run_loop
    run_loop-Live zero p h = h
    run_loop-Live (suc fuel) p h =
        either (λ (q : Process E). Live E q.sys) p.running
          (either (λ (q : Process E). Live E q.sys) (Platform.should_exit O p.sys.world) h
            (run_loop-Live fuel (round E O fuel p) (round-Live fuel p h)))
          h

    run-Live : (fuel : ℕ) (p : Process E) → Live E (tunnel_run E O fuel p).sys
    unfolding tunnel_run
    run-Live fuel p =
        run_loop-Live fuel (record p { sys = reset_tunnel E p.sys; running = true })
          (reset-Live E p.sys)

-- There is a KCP exactly while the tunnel is connected: so it stands after any number of rounds of
-- `tunnel_run`, whatever packets, frames, events and results of name resolution they bring, from
-- whatever state it is called in.
pub tunnel_run-connected :
    (E : Host) (O : Platform E) (fuel : ℕ) (p : Process E)
    → let t = (tunnel_run E O fuel p).sys.tun in is_some t.kcp ≡ is_connected t.state
unfolding Live
tunnel_run-connected E O fuel p = run-Live E O fuel p
