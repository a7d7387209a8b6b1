-- ===== src/Tunnel/Timeouts.antt =====
-- The timeouts of `tunnel_run`: a peer that is silent does not keep a session or a handshake.
use bi_tun.Base.{
  ℕ, refl, sym, ap, ◌∙◌, ltb, if◌then◌else◌, ◌≤◌, ◌<◌, ◌≡◌, false, none, some, length, replicate,
  get_elem?, lt→ltb, ◌⊎◌, inl, inr,
}
use mathlib.Core.Path.{subst}
use bi_tun.Tunnel.Types.{Channel, TunnelState, disconnected, auth, connected}
use bi_tun.Tunnel.Host.{Host}
use bi_tun.Tunnel.Send.{Sys}
use bi_tun.Tunnel.Channels.{max_channels, reset_tunnel}
use bi_tun.Tunnel.Reset.{reset_tunnel-closed}
use bi_tun.Tunnel.Tick.{since, keepalive, resume_loop, resume_channels, tick}
use bi_tun.Tunnel.Live.{Core, core_with, Same-refl, Same-core}
use bi_tun.Tunnel.Live.Updating.{before_keepalive, before_keepalive-Same}

-- The keepalive section alone, in the state `st` that it reads.
lapsed :
    (E : Host) (st : TunnelState) (s : Sys E) (now : ℕ)
    → ((st ≡ connected) × (30000 < since now s.tun.last_recv_time))
      ⊎ ((st ≡ auth) × (5000 < since now s.tun.auth_start_time))
    → keepalive E st s now ≡ reset_tunnel E s
unfolding keepalive
lapsed E st s now (inl (e, late)) =
    rw (e, keepalive, lt→ltb 30000 (since now s.tun.last_recv_time) late) refl
lapsed E st s now (inr (e, late)) =
    rw (e, keepalive, lt→ltb 5000 (since now s.tun.auth_start_time) late) refl

-- Without KCP there is nothing to resume.
resume_channels-idle : (E : Host) (s : Sys E) → s.tun.kcp ≡ none → resume_channels E s ≡ s
unfolding resume_channels
resume_channels-idle E s e =
    ap
      (λ o. elim o [
        | none ↦ s
        | some kcp ↦ if ltb (Host.ikcp_waitsnd E kcp) 16 then resume_loop E max_channels 0 s else s
      ])
      e

-- A connected tunnel that has heard nothing for more than 30 seconds, and one that has been
-- authenticating for more than 5, with at most 256 channels, is disconnected when the part of the
-- round before its poll is over, whatever KCP and the parity have sent in it: no channel is active,
-- and there is neither a KCP session nor a key.
pub tick-timeout :
    (E : Host) (s : Sys E) (now : ℕ)
    → ((s.tun.state ≡ connected) × (30000 < since now s.tun.last_recv_time))
      ⊎ ((s.tun.state ≡ auth) × (5000 < since now s.tun.auth_start_time))
    → length s.tun.channels ≤ max_channels
    → let t = (tick E s now).tun in
      ((k : ℕ) (ch : Channel) → get_elem? t.channels k ≡ some ch → ch.is_active ≡ false)
      × (t.state ≡ disconnected)
      × (t.kcp ≡ none)
      × (t.session_key ≡ replicate 32 0)
unfolding tick
tick-timeout E s now late size =
    let c = core_with E s s.tun.kcp in
    let flushed = before_keepalive E c s now in
    let same = Same-core E c flushed (before_keepalive-Same E c s now (Same-refl E s)) in
    let reset = lapsed E flushed.tun.state flushed now (
      subst
        (λ (d : Core E).
          ((d.0 ≡ connected) × (30000 < since now d.3)) ⊎ ((d.0 ≡ auth) × (5000 < since now d.4)))
        (sym same) late) in
    let closed =
      reset_tunnel-closed E flushed
        (subst (λ (d : Core E). length d.2 ≤ max_channels) (sym same) size) in
    let resumed = resume_channels-idle E (reset_tunnel E flushed) closed.2 in
    subst
      (λ (r : Sys E).
        ((k : ℕ) (ch : Channel) → get_elem? r.tun.channels k ≡ some ch → ch.is_active ≡ false)
        × (r.tun.state ≡ disconnected)
        × (r.tun.kcp ≡ none)
        × (r.tun.session_key ≡ replicate 32 0))
      (sym (ap (resume_channels E) reset ∙ resumed)) closed
