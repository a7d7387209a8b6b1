-- ===== src/Gf/Vanish.antt =====
-- A sum of simple fractions over distinct poles that is 0 at as many other points is 0 throughout.
use bi_tun.Base.{
  ℕ, ◌<◌, ◌≤◌, bit_xor, ◌≡◌, ◌≢◌, refl, sym, ap, ap₂, ◌∙◌, arith, List, [], ◌∷◌, length, xor-zero,
  xor-lt-byte,
}
use bi_tun.Gf.{gf_mul}
use bi_tun.Gf.Field.{mul-lt, zero-mul, mul-ne_zero, div-lt}
use bi_tun.Gf.Cauchy.{inv, xor-ne_zero, mul-zero_inv, inv-ne_zero}
use bi_tun.Gf.Fractions.{
  All, Distinct, fractions, Bytes, All-map, All-and, reduced, xor-eq, reduced-zero,
}

fractions-none : (c : ℕ → ℕ) (js : List ℕ) (z : ℕ) → All (λ j. c j ≡ 0) js → fractions c js z ≡ 0
unfolding fractions
fractions-none c [] z h = refl
fractions-none c (j ∷ js) z h =
    ap₂ bit_xor (ap (λ k. gf_mul k (inv (bit_xor z j))) h.0 ∙ zero-mul (inv (bit_xor z j)))
      (fractions-none c js z h.1)
    ∙ xor-zero 0

-- The factor by which a coefficient is reduced is a byte that is not 0.
module _ (a p j : ℕ) (ha : a < 256) (hp : p < 256) (hj : j < 256) where
  factor-lt : gf_mul (bit_xor j a) (inv (bit_xor j p)) < 256
  factor-lt =
      mul-lt (bit_xor j a) (inv (bit_xor j p)) (xor-lt-byte j a hj ha)
        (div-lt (bit_xor j p) (xor-lt-byte j p hj hp))

  factor-ne_zero : j ≢ a → j ≢ p → gf_mul (bit_xor j a) (inv (bit_xor j p)) ≢ 0
  factor-ne_zero ja jp =
      let v = bit_xor j p in
      let hv = xor-lt-byte j p hj hp in
      mul-ne_zero (bit_xor j a) (inv v) (xor-lt-byte j a hj ha) (div-lt v hv) (xor-ne_zero j a ja)
        (inv-ne_zero v hv (xor-ne_zero j p jp))

-- The reduced sum is 0 at the other zeros.
reduced-zeros :
    (c : ℕ → ℕ) (a p : ℕ) (js ps : List ℕ)
    → Bytes c (a ∷ js)
    → All (λ j. j < 256) (a ∷ js)
    → p < 256
    → All (λ j. p ≢ j) (a ∷ js)
    → fractions c (a ∷ js) p ≡ 0
    → All (λ q. q < 256) ps
    → All (λ q. p ≢ q) ps
    → All (λ q. All (λ j. q ≢ j) (a ∷ js)) ps
    → All (λ q. fractions c (a ∷ js) q ≡ 0) ps
    → All (λ q. fractions (reduced c a p) js q ≡ 0) ps
reduced-zeros c a p js [] h b hp away zp bq pq apart zeros = tt
reduced-zeros c a p js (q ∷ ps) h b hp away zp bq pq apart zeros = (
  reduced-zero a p q b.0 hp bq.0 (λ e. pq.0 (sym e)) c js h b.1
      (All-map (λ j ne e. ne (sym e)) js away.1) apart.0.1 apart.0.0 away.0 zeros.0 zp,
  reduced-zeros c a p js ps h b hp away zp bq.1 pq.1 apart.1 zeros.1,
)

-- As many zeros as poles, all of them distinct, leave no coefficient.
pub fractions-vanish :
    (c : ℕ → ℕ) (js ps : List ℕ)
    → Bytes c js
    → All (λ j. j < 256) js
    → All (λ p. p < 256) ps
    → Distinct js
    → Distinct ps
    → All (λ p. All (λ j. p ≢ j) js) ps
    → length js ≤ length ps
    → All (λ p. fractions c js p ≡ 0) ps
    → All (λ j. c j ≡ 0) js
unfolding fractions
fractions-vanish c [] ps h bj bp dj dp apart size zeros = tt
fractions-vanish c (a ∷ js) [] h bj bp dj dp apart size zeros = absurd (omega arith)
fractions-vanish c (a ∷ js) (p ∷ ps) h bj bp dj dp apart size zeros =
    let factor = λ (j : ℕ). gf_mul (bit_xor j a) (inv (bit_xor j p)) in
    let bytes : Bytes (reduced c a p) js =
      All-map
        (λ j (x : (c j < 256) × (j < 256)).
          mul-lt (c j) (factor j) x.0 (factor-lt a p j bj.0 bp.0 x.1))
        js (All-and (λ j. c j < 256) (λ j. j < 256) js h.1 bj.1) in
    let gone =
      fractions-vanish (reduced c a p) js ps bytes bj.1 bp.1 dj.1 dp.1
        (All-map (λ q (x : All (λ j. q ≢ j) (a ∷ js)). x.1) ps apart.1) (omega arith)
        (reduced-zeros c a p js ps h bj bp.0 apart.0 zeros.0 bp.1 dp.0 apart.1 zeros.1) in
    let others : All (λ j. c j ≡ 0) js = back js h.1 bj.1 dj.0 apart.0.1 gone in
    let d = bit_xor p a in
    let hd = xor-lt-byte p a bp.0 bj.0 in
    (
      mul-zero_inv (c a) (inv d) h.0 (div-lt d hd) (inv-ne_zero d hd (xor-ne_zero p a apart.0.0))
          (xor-eq (gf_mul (c a) (inv d)) (fractions c js p) zeros.0 ∙ fractions-none c js p others),
      others,
    )
  where
    back :
        (ks : List ℕ)
        → Bytes c ks
        → All (λ j. j < 256) ks
        → All (λ j. a ≢ j) ks
        → All (λ j. p ≢ j) ks
        → All (λ j. reduced c a p j ≡ 0) ks
        → All (λ j. c j ≡ 0) ks
    back [] b hk ak pk z = tt
    back (k ∷ ks) b hk ak pk z = (
      mul-zero_inv (c k) (gf_mul (bit_xor k a) (inv (bit_xor k p))) b.0
          (factor-lt a p k bj.0 bp.0 hk.0)
          (factor-ne_zero a p k bj.0 bp.0 hk.0 (λ e. ak.0 (sym e)) (λ e. pk.0 (sym e))) z.0,
      back ks b.1 hk.1 ak.1 pk.1 z.1,
    )
