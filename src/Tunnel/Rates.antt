-- ===== src/Tunnel/Rates.antt =====
-- The arithmetic of the loss report, of the adaptive parity and of the windows.
use bi_tun.Base.{
  ℕ, zero, suc, ◌+◌, ◌-◌, ◌*◌, ◌/◌, ◌≤◌, ◌<◌, ◌≡◌, refl, ap, arith, false, List, [], ◌∷◌, ◌++◌,
  length, take, ltb, ◌==◌, if◌then◌else◌, length-append, Bool-cases, ◌∙◌, ◌⊎◌, inl, inr,
}
use native.Mathlib.Nat.{div-le_of_le-mul, zero-div}
use bi_tun.Tunnel.Types.{Channel}
use bi_tun.Tunnel.Host.{Host}
use bi_tun.Tunnel.Send.{Sys, send_control_frame, fec_max_n, fec_max_r}
use bi_tun.Tunnel.Channels.{put_channel}
use bi_tun.Tunnel.FecIn.{loss_rate}
use bi_tun.Tunnel.Frames.{fec_for_loss}
use bi_tun.Tunnel.Local.{forwarded, forward_bytes}

share : (a e : ℕ) → a ≤ e → 0 < e → a * 100 / e ≤ 100
share a e h pos = div-le_of_le-mul e (omega arith)

no_difference : (a b : ℕ) → ltb b a ≡ false → a - b ≡ 0
no_difference a b h = ground (arith, h)

-- The rate that is reported is the share of the expected packets that did not come, in percent and
-- rounded down: for a positive number of expected packets, neither the cast to a byte nor the cap
-- changes it.
pub loss_rate_lem :
    (expected received : ℕ)
    → 0 < expected
    → loss_rate expected received ≡ (expected - received) * 100 / expected
unfolding loss_rate
loss_rate_lem expected received h =
    let bound = share (expected - received) expected (omega arith) h in
    let none_lost = zero-div expected in
    elim (Bool-cases (ltb received expected)) [
      | inl fewer ↦ rw fewer (ground (arith, bound))
      | inr all ↦ rw all (
          ground
            (arith, none_lost, ap (λ k. k * 100 / expected) (no_difference expected received all)))
    ]

-- Where a higher loss is reported, the share of parity blocks to data blocks is not lower; and the
-- group always has a data block, and fits the arrays of the encoder.
pub fec_for_loss-monotone :
    (low high : ℕ)
    → low ≤ high
    → let (n, r) = fec_for_loss low in
      let (n', r') = fec_for_loss high in
      (r * n' ≤ r' * n) × (0 < n) × (n ≤ fec_max_n) × (r ≤ fec_max_r)
unfolding fec_for_loss
fec_for_loss-monotone low high h = ground arith

take-append {ℓ} :
    {A : Type ℓ} (k : ℕ) (xs ys : List A) → k ≤ length xs → take k (xs ++ ys) ≡ take k xs
take-append zero xs ys h = refl
take-append (suc k) [] ys h = absurd (omega arith)
take-append (suc k) (x ∷ xs) ys h = ap (λ r. x ∷ r) (take-append k xs ys (omega arith))

same_length :
    (k l w : ℕ) → (k ≡ 2048) ⊎ (k ≡ w) → (forwarded (k + l) w ≡ forwarded k w) × (forwarded k w ≤ k)
unfolding forwarded
same_length k l w (inl h) = ground (arith, h)
same_length k l w (inr h) = ground (arith, h)

module _ (E : Host) where
  forward_prefix : Sys E → ℕ → Channel → ℕ → List ℕ → Sys E
  forward_prefix s idx ch k bytes =
      if k == 0
      then s
      else put_channel E (send_control_frame E s ch.channel_id 0x03 bytes) idx
          (record ch { send_wnd = ch.send_wnd - k })

  -- Of one read of the local connection, the bytes after the first 2048, or after those that the
  -- window takes, are lost: the tunnel ends in the state that it has after a read without them.
  pub forward_bytes-loses :
      (s : Sys E) (idx : ℕ) (ch : Channel) (kept lost : List ℕ)
      → (length kept ≡ 2048) ⊎ (length kept ≡ ch.send_wnd)
      → forward_bytes E s idx ch (kept ++ lost) ≡ forward_bytes E s idx ch kept
  unfolding forward_bytes forward_prefix
  forward_bytes-loses s idx ch kept lost h =
      let (same, within) = same_length (length kept) (length lost) ch.send_wnd h in
      let amount : forwarded (length (kept ++ lost)) ch.send_wnd
          ≡ forwarded (length kept) ch.send_wnd =
        rw (length-append kept lost) same in
      let sent = forwarded (length kept) ch.send_wnd in
      ap (λ k. forward_prefix s idx ch k (take k (kept ++ lost))) amount
      ∙ ap (forward_prefix s idx ch sent) (take-append sent kept lost within)
