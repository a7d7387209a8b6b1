-- ===== src/Tunnel/Live.antt =====
-- KCP and the state: that the session of src/tunnel.c has a KCP exactly while it is connected.
use bi_tun.Base.{
  ℕ, ◌≡◌, sym, ap, ◌∙◌, refl, Bool, true, false, Option, none, some, List, if◌then◌else◌,
}
use bi_tun.Tunnel.Types.{Channel, TunnelState}
use bi_tun.Tunnel.Host.{Host}
use bi_tun.Tunnel.Send.{Sys}
use bi_tun.Tunnel.Handshake.{is_connected}
pub mod Sending
pub mod Updating
pub mod Incoming
pub mod Receiving
pub mod Framed
pub mod Locals
pub mod Rounds

module _ {B : Type 0} (P : B → Type 0) where
  pub either : (b : Bool) {x y : B} → P x → P y → P (if b then x else y)
  either true h g = h
  either false h g = g

  pub whether :
      {A : Type 0} (o : Option A) {x : B} {f : A → B}
      → P x
      → ((a : A) → P (f a))
      → P (elim o [ none ↦ x | some a ↦ f a ])
  whether none h g = h
  whether (some a) h g = g a

  -- The case where there is something comes with the equation.
  pub whether_is :
      {A : Type 0} (o : Option A) {x : B} {f : A → B}
      → P x
      → ((a : A) → o ≡ some a → P (f a))
      → P (elim o [ none ↦ x | some a ↦ f a ])
  whether_is none h g = h
  whether_is (some a) h g = g a refl

abbrev pub is_some : {A : Type 0} → Option A → Bool
is_some none = false
is_some (some a) = true

module _ (E : Host) where
  -- There is a KCP exactly where the tunnel is connected.
  unfoldable pub Live : Sys E → Type 0
  Live s = is_some s.tun.kcp ≡ is_connected s.tun.state

  -- What is known of `s` holds of what has its state and its KCP.
  pub session-Live :
      (s t : Sys E) → t.tun.state ≡ s.tun.state → t.tun.kcp ≡ s.tun.kcp → Live s → Live t
  unfolding Live
  session-Live s t state kcp h = ap is_some kcp ∙ h ∙ sym (ap is_connected state)

  -- What sending leaves alone: the state, whether there is a KCP, the channels, and the times that the
  -- timeouts look at.
  abbrev pub Core : Type 0
  Core = TunnelState × Bool × List Channel × ℕ × ℕ

  abbrev pub core_with : Sys E → Option (Host.Kcp E) → Core
  core_with s kcp =
      (s.tun.state, is_some kcp, s.tun.channels, s.tun.last_recv_time, s.tun.auth_start_time)

  unfoldable pub Same : Core → Sys E → Type 0
  Same c s = core_with s s.tun.kcp ≡ c

  pub Same-refl : (s : Sys E) → Same (core_with s s.tun.kcp) s
  unfolding Same
  Same-refl s = refl

  pub Same-core : (c : Core) (s : Sys E) → Same c s → core_with s s.tun.kcp ≡ c
  unfolding Same
  Same-core c s h = h

  pub Same-Live : (s t : Sys E) → Live s → Same (core_with s s.tun.kcp) t → Live t
  unfolding Live Same
  Same-Live s t h same = ap (λ c. c.1) same ∙ h ∙ sym (ap (λ c. is_connected c.0) same)

  -- A KCP in place of another.
  pub other_kcp-Same :
      (c : Core) (s : Sys E) (kcp kcp' : Host.Kcp E)
      → s.tun.kcp ≡ some kcp
      → Same c s
      → Same c (record s { tun = record (s.tun) { kcp = some kcp' } })
  unfolding Same
  other_kcp-Same c s kcp kcp' e h = sym (ap (core_with s) e) ∙ h

  pub other_kcp-Live :
      (s : Sys E) (kcp kcp' : Host.Kcp E)
      → s.tun.kcp ≡ some kcp
      → Live s
      → Live (record s { tun = record (s.tun) { kcp = some kcp' } })
  unfolding Live
  other_kcp-Live s kcp kcp' e h = sym (ap is_some e) ∙ h
