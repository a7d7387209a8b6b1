-- ===== src/Tunnel/Run.antt =====
-- `tunnel_run`: the rounds of the loop, each the timed part, the poll with its events, and the frames
-- that KCP has ready.
use bi_tun.Base.{
  ℕ, zero, suc, ◌-◌, ◌≤◌, ◌<◌, arith, Bool, true, false, ◌&&◌, Option, none, some, List, [], ◌∷◌,
  ltb, leb, ◌==◌, if◌then◌else◌, u32, Option-cases, inl, inr,
}
use bi_tun.Tunnel.Host.{Host}
use bi_tun.Tunnel.Send.{Sys}
use bi_tun.Tunnel.Channels.{reset_tunnel}
use bi_tun.Tunnel.Handshake.{is_connected}
use bi_tun.Tunnel.Tick.{since, update_kcp, tick}
use bi_tun.Tunnel.Receive.{on_packet}
use bi_tun.Tunnel.Frames.{in_world, frames_loop}
use bi_tun.Tunnel.Local.{Events, accept_client, on_tcp_event, on_dns_result}
use bi_tun.Tunnel.Setup.{Platform, Process}

abbrev pub is_fd : Option ℕ → ℕ → Bool
is_fd none fd = false
is_fd (some own) fd = fd == own

clamped :
    (raw : ℕ)
    → let capped : ℕ = if ltb 50 raw then 20 else raw in
      let waiting : ℕ = if leb capped 0 then 5 else capped in (0 < waiting) × (waiting ≤ 50)
clamped raw = ground arith

shortened :
    (due : Bool) (waited waiting : ℕ)
    → (0 < waiting) × (waiting ≤ 50)
    → let t : ℕ =
        if due
        then (if leb 10 waited
            then waiting
            else if ltb (u32 (10 - waited)) waiting
            then u32 (10 - waited)
            else waiting)
        else waiting in
      (0 < t) × (t ≤ 50)
shortened due waited waiting h = ground arith

module _ (E : Host) (O : Platform E) where
  open E use {World, real_ms}
  open O use {
    queue_clear_wakeup, queue_pop, poll_wait, recvfrom, time_ms, ikcp_check, should_exit, stack,
  }

  -- `kcp_timeout`, of the tunnel after `ikcp_update`.
  unfoldable pub poll_timeout : Sys E → ℕ → ℕ
  poll_timeout s now = elim s.tun.kcp [
    | none ↦ 20
    | some kcp ↦
        let raw = u32 (since (ikcp_check kcp (u32 now)) now) in
        let capped : ℕ = if ltb 50 raw then 20 else raw in
        let waiting : ℕ = if leb capped 0 then 5 else capped in
        let waited = since (real_ms s.world).0 s.tun.fec_enc.last_packet_time in
        let flush = u32 (10 - waited) in
        if is_connected s.tun.state
          && (ltb 0 s.tun.fec_enc.r && ltb 0 s.tun.fec_enc.data_packet_count)
        then (if leb 10 waited then waiting else if ltb flush waiting then flush else waiting)
        else waiting
  ]

  -- The loop on the results of name resolution, `fuel` of them at most.
  unfoldable pub handle_results : ℕ → ℕ → Sys E → Sys E
  handle_results zero queue s = s
  handle_results (suc fuel) queue s =
      let (res, world) = queue_pop queue s.world in
      let popped = in_world E s world in
      elim res [ none ↦ popped | some r ↦ handle_results fuel queue (on_dns_result E popped r) ]

  unfoldable pub on_datagram : Sys E → ℕ → Sys E
  on_datagram s now =
      let (received, world) = recvfrom s.world in
      let read = in_world E s world in
      elim received [ none ↦ read | some datagram ↦ on_packet E read datagram.0 datagram.1 now ]

  -- One event of the poll.
  unfoldable pub handle_event : ℕ → Process E → Sys E → ℕ → ℕ → Events → Sys E
  unfolding handle_results on_datagram
  handle_event fuel p s now fd events =
      if is_fd p.dns_queue fd
      then handle_results fuel fd (in_world E s (queue_clear_wakeup fd s.world))
      else if fd == p.udp_fd
      then on_datagram s now
      else if is_fd p.tcp_listen_fd fd
      then accept_client E s
      else on_tcp_event E s fd events

  unfoldable pub handle_events : ℕ → Process E → List (ℕ × Events) → Sys E → ℕ → Sys E
  unfolding handle_event
  handle_events fuel p [] s now = s
  handle_events fuel p (event ∷ rest) s now =
      handle_events fuel p rest (handle_event fuel p s now event.0 event.1) now

  unfoldable pub round : ℕ → Process E → Process E
  unfolding poll_timeout handle_events
  round fuel p =
      let (now, w) = time_ms p.sys.world in
      let start = in_world E p.sys w in
      let timeout = poll_timeout (update_kcp E start now) now in
      let ticked = tick E start now in
      let (events, after_poll) = poll_wait timeout ticked.world in
      let handled = handle_events fuel p events (in_world E ticked after_poll) now in
      let delivered : Sys E =
        if is_connected handled.tun.state then frames_loop E fuel handled stack now else handled in
      record p { sys = delivered }

  -- The loop, with `fuel` rounds to go.
  unfoldable pub run_loop : ℕ → Process E → Process E
  unfolding round
  run_loop zero p = p
  run_loop (suc fuel) p =
      if p.running
      then (if should_exit p.sys.world
          then record p { running = false }
          else run_loop fuel (round fuel p))
      else p

  unfoldable pub tunnel_run : ℕ → Process E → Process E
  unfolding run_loop
  tunnel_run fuel p = run_loop fuel (record p { sys = reset_tunnel E p.sys; running = true })

  -- The poll waits at least one and at most 50 milliseconds, whatever KCP and the clocks say.
  pub poll_timeout-bounds :
      (s : Sys E) (now : ℕ) → (0 < poll_timeout s now) × (poll_timeout s now ≤ 50)
  unfolding poll_timeout
  poll_timeout-bounds s now = elim (Option-cases s.tun.kcp) [
    | inl e ↦ rw e (omega arith, omega arith)
    | inr (kcp, e) ↦ rw e (
        shortened
          (is_connected s.tun.state
            && (ltb 0 s.tun.fec_enc.r && ltb 0 s.tun.fec_enc.data_packet_count))
          (since (real_ms s.world).0 s.tun.fec_enc.last_packet_time)
          (let raw = u32 (since (ikcp_check kcp (u32 now)) now) in
            let capped : ℕ = if ltb 50 raw then 20 else raw in if leb capped 0 then 5 else capped)
          (clamped (u32 (since (ikcp_check kcp (u32 now)) now))))
  ]
