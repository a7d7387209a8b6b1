-- ===== src/Tunnel/Replayed.antt =====
-- What a reset leaves behind, and the same reset packet again.
use bi_tun.Base.{
  ℕ, zero, suc, ◌+◌, ◌<◌, ◌≤◌, ◌≡◌, refl, ap, ◌∙◌, arith, Bool, false, ◌&&◌, ◌||◌, none, some, List,
  length, ◌==◌, if◌then◌else◌, slice, get_elem?, from_be, le→ltb-false, Bool-cases, Option-cases,
  inl, inr,
}
use bi_tun.Tunnel.Types.{auth, Address}
use bi_tun.Tunnel.Host.{Host}
use bi_tun.Tunnel.Send.{Sys}
use bi_tun.Tunnel.Channels.{
  max_channels, close_channel, close_all, forget_session, reset_tunnel, find_channel,
}
use bi_tun.Tunnel.Handshake.{
  const_memcmp, reset_signature, begin_auth, on_reset, accept_reset, skew,
}

pass_guards {ℓ} :
    {A : Type ℓ} (x y z : A) (e : Bool) {a b c d f : Bool}
    → a ≡ false
    → b ≡ false
    → c ≡ false
    → d ≡ false
    → f ≡ false
    → (if a then x else if b || c then y else if d || (f && e) then y else z) ≡ z
pass_guards x y z e ha hb hc hd hf = rw (ha, hb, hc, hd, hf) refl

lt→not_eq : (a b : ℕ) → a < b → (b == a) ≡ false
lt→not_eq a b h = ground (arith, h)

module _ (E : Host) where
  -- What no closing of channels touches.
  Kept : Sys E → Sys E → Type 0
  Kept s t =
      (t.tun.config ≡ s.tun.config)
      × (t.tun.last_reset_timestamp ≡ s.tun.last_reset_timestamp)
      × (t.tun.last_reset_salt ≡ s.tun.last_reset_salt)

  close_channel-Kept : (s : Sys E) (id : ℕ) → Kept s (close_channel E s id)
  unfolding Kept close_channel
  close_channel-Kept s id = elim (Option-cases (find_channel s.tun.channels id)) [
    | inl e ↦ rw (e, close_channel) (refl, refl, refl)
    | inr (idx, e) ↦ elim (Option-cases (get_elem? s.tun.channels idx)) [
      | inl e' ↦ rw (e, e', close_channel) (refl, refl, refl)
      | inr (ch, e') ↦ rw (e, e', close_channel) (refl, refl, refl)
    ]
  ]

  close_all-Kept : (left i : ℕ) (s : Sys E) → Kept s (close_all E left i s)
  unfolding close_all Kept
  close_all-Kept zero i s = (refl, refl, refl)
  close_all-Kept (suc left) i s =
      let next : Sys E = elim (get_elem? s.tun.channels i) [
        | none ↦ s
        | some ch ↦ if ch.is_active then close_channel E s ch.channel_id else s
      ] in
      let (c, t, a) = close_all-Kept left (i + 1) next in
      let one : Kept s next = elim (Option-cases (get_elem? s.tun.channels i)) [
        | inl e ↦ rw e (refl, refl, refl)
        | inr (ch, e) ↦ rw e (elim (Bool-cases ch.is_active) [
          | inl active ↦ rw active (close_channel-Kept s ch.channel_id)
          | inr idle ↦ rw idle (refl, refl, refl)
        ])
      ] in
      (c ∙ one.0, t ∙ one.1, a ∙ one.2)

  -- After an accepted reset the record of the last one is blank, and the configuration is the same.
  accept_reset-blank :
      (s : Sys E) (from : Address) (now time salt : ℕ)
      → let t = accept_reset E s from now time salt in
        (t.tun.config ≡ s.tun.config)
        × (t.tun.last_reset_timestamp ≡ 0)
        × (t.tun.last_reset_salt ≡ 0)
        × (t.tun.state ≡ auth)
  unfolding accept_reset reset_tunnel forget_session begin_auth Kept
  accept_reset-blank s from now time salt =
      let noted = record s {
        tun = record (s.tun) { last_reset_timestamp = time; last_reset_salt = salt };
      } in
      let forgotten = record noted { tun = forget_session E noted.tun } in
      let (c, t, a) = close_all-Kept max_channels 0 forgotten in ground (arith, c, t, a)

  reset_accepts :
      (s : Sys E) (buf : List ℕ) (from : Address) (now : ℕ)
      → let time = from_be (slice buf 8 8) in
        let salt = from_be (slice buf 16 8) in
        56 ≤ length buf
        → const_memcmp
            (reset_signature E s.tun.config.psk (slice buf 8 8) (slice buf 16 8))
            (slice buf 24 32)
            32
          ≡ false
        → skew (Host.real_ms E s.world).0 time ≤ 5000
        → s.tun.last_reset_timestamp < time
        → on_reset E s buf from now
          ≡ accept_reset E (record s { world = (Host.real_ms E s.world).1 }) from now time salt
  unfolding on_reset
  reset_accepts s buf from now size mac skewed newer =
      let time = from_be (slice buf 8 8) in
      let salt = from_be (slice buf 16 8) in
      let (local, world) = Host.real_ms E s.world in
      let asked = record s { world = world } in
      pass_guards s asked (accept_reset E asked from now time salt) (salt == s.tun.last_reset_salt)
        (le→ltb-false (length buf) 56 size) (le→ltb-false 5000 (skew local time) skewed) mac
        (le→ltb-false time s.tun.last_reset_timestamp (omega arith))
        (lt→not_eq s.tun.last_reset_timestamp time newer)

  -- An accepted reset packet is accepted again, as often as it comes within the five seconds around
  -- its time: if the packet has its 56 bytes, its MAC is right, its time is in the window both times
  -- and is not 0, and the first copy was not older than the last reset, then the second copy resets
  -- the tunnel too.
  pub reset_replay_accepted :
      (s : Sys E) (buf : List ℕ) (from from' : Address) (now now' : ℕ)
      → let time = from_be (slice buf 8 8) in
        let salt = from_be (slice buf 16 8) in
        let once = on_reset E s buf from now in
        56 ≤ length buf
        → const_memcmp
            (reset_signature E s.tun.config.psk (slice buf 8 8) (slice buf 16 8))
            (slice buf 24 32)
            32
          ≡ false
        → skew (Host.real_ms E s.world).0 time ≤ 5000
        → s.tun.last_reset_timestamp < time
        → skew (Host.real_ms E once.world).0 time ≤ 5000
        → on_reset E once buf from' now'
          ≡ accept_reset E
              (record once { world = (Host.real_ms E once.world).1 })
              from'
              now'
              time
              salt
  reset_replay_accepted s buf from from' now now' size mac skewed newer again =
      let time = from_be (slice buf 8 8) in
      let salt = from_be (slice buf 16 8) in
      let asked = record s { world = (Host.real_ms E s.world).1 } in
      let first = reset_accepts s buf from now size mac skewed newer in
      let (c, t, a, _) = accept_reset-blank asked from now time salt in
      let config = ap (λ x. x.tun.config) first ∙ c in
      let last = ap (λ x. x.tun.last_reset_timestamp) first ∙ t in
      let mac' =
        ap
          (λ cfg.
            const_memcmp (reset_signature E cfg.psk (slice buf 8 8) (slice buf 16 8))
              (slice buf 24 32) 32)
          config
        ∙ mac in
      reset_accepts (on_reset E s buf from now) buf from' now' size mac' again (omega arith)
