-- ===== src/Gf/Fractions.antt =====
-- Sums of simple fractions over the field, and what is left of one when a pole is divided out.
use bi_tun.Base.{
  ℕ, ◌<◌, bit_xor, ◌≡◌, ◌≢◌, sym, ap, ap₂, ◌∙◌, arith, List, [], ◌∷◌, xor_self, xor_comm, xor-zero,
  xor-lt-byte, ℕ_discrete,
}
use bi_tun.Gf.{gf_mul}
use bi_tun.Gf.Powers.{xor_swap}
use bi_tun.Gf.Field.{
  mul_comm, mul_assoc, mul_distrib, mul-lt, mul-one, zero-mul, div-lt, mul-div_cancel,
}
use bi_tun.Gf.Cauchy.{inv, xor-ne_zero, xor_chain, mul_distrib_left, partial_fractions}

abbrev pub All {ℓ} : (ℕ → Type ℓ) → List ℕ → Type ℓ
All P [] = Unit
All P (x ∷ xs) = P x × All P xs

abbrev pub Distinct : List ℕ → Type 0
Distinct [] = Unit {0}
Distinct (x ∷ xs) = All (λ y. x ≢ y) xs × Distinct xs

-- Sum of c j / (z + j) over the poles `j`.
unfoldable pub fractions : (ℕ → ℕ) → List ℕ → ℕ → ℕ
fractions c [] z = 0
fractions c (j ∷ js) z = bit_xor (gf_mul (c j) (inv (bit_xor z j))) (fractions c js z)

abbrev pub Bytes : (ℕ → ℕ) → List ℕ → Type 0
Bytes c = All (λ j. c j < 256)

pub All-map {ℓ κ} :
    {P : ℕ → Type ℓ} {Q : ℕ → Type κ} → ((x : ℕ) → P x → Q x) → (xs : List ℕ) → All P xs → All Q xs
All-map f [] h = tt
All-map f (x ∷ xs) h = (f x h.0, All-map f xs h.1)

pub All-and {ℓ κ} :
    (P : ℕ → Type ℓ) (Q : ℕ → Type κ) (xs : List ℕ) → All P xs → All Q xs → All (λ x. P x × Q x) xs
All-and P Q [] h g = tt
All-and P Q (x ∷ xs) h g = ((h.0, g.0), All-and P Q xs h.1 g.1)

-- The coefficients after the pole `a` and the zero `p` are divided out.
abbrev pub reduced : (ℕ → ℕ) → ℕ → ℕ → ℕ → ℕ
reduced c a p j = gf_mul (c j) (gf_mul (bit_xor j a) (inv (bit_xor j p)))

pub xor-eq : (a b : ℕ) → bit_xor a b ≡ 0 → a ≡ b
xor-eq a b e = elim (ℕ_discrete a b) [ yes same ↦ same | no ne ↦ absurd (xor-ne_zero a b ne e) ]

pub fractions-lt :
    (c : ℕ → ℕ) (js : List ℕ) (z : ℕ)
    → Bytes c js
    → All (λ j. j < 256) js
    → z < 256
    → fractions c js z < 256
unfolding fractions
fractions-lt c [] z h g k = omega arith
fractions-lt c (j ∷ js) z h g k =
    xor-lt-byte (gf_mul (c j) (inv (bit_xor z j))) (fractions c js z)
      (mul-lt (c j) (inv (bit_xor z j)) h.0 (div-lt (bit_xor z j) (xor-lt-byte z j k g.0)))
      (fractions-lt c js z h.1 g.1 k)

module _ (a p q : ℕ) (ha : a < 256) (hp : p < 256) (hq : q < 256) (pq : q ≢ p) where
  -- What is left of the sum at `q`.
  abbrev combined : ℕ → ℕ → ℕ
  combined f g =
      gf_mul (bit_xor (gf_mul f (bit_xor q a)) (gf_mul g (bit_xor p a))) (inv (bit_xor q p))

  term :
      (c j : ℕ)
      → c < 256
      → j < 256
      → j ≢ p
      → q ≢ j
      → gf_mul (gf_mul c (gf_mul (bit_xor j a) (inv (bit_xor j p)))) (inv (bit_xor q j))
        ≡ combined (gf_mul c (inv (bit_xor q j))) (gf_mul c (inv (bit_xor p j)))
  term c j hc hj jp qj =
      let u = bit_xor j a in
      let v = bit_xor j p in
      let w = bit_xor q j in
      let hu = xor-lt-byte j a hj ha in
      let hv = xor-lt-byte j p hj hp in
      let hw = xor-lt-byte q j hq hj in
      let ht = xor-lt-byte q a hq ha in
      let hy = xor-lt-byte p a hp ha in
      let hs = xor-lt-byte q p hq hp in
      let wt-lt = mul-lt (inv w) (bit_xor q a) (div-lt w hw) ht in
      let vy-lt = mul-lt (inv v) (bit_xor p a) (div-lt v hv) hy in
      let same-s : bit_xor w v ≡ bit_xor q p = xor_chain q j p in
      let same-t : bit_xor w u ≡ bit_xor q a = xor_chain q j a in
      let same-y : bit_xor v u ≡ bit_xor p a =
        ap (λ k. bit_xor k u) (xor_comm j p) ∙ xor_chain p j a in
      let fractional : gf_mul (gf_mul u (inv v)) (inv w)
          ≡ gf_mul (bit_xor (gf_mul (inv w) (bit_xor q a)) (gf_mul (inv v) (bit_xor p a)))
              (inv (bit_xor q p)) =
        partial_fractions u v w hu hv hw (xor-ne_zero j p jp) (xor-ne_zero q j qj)
          (λ e. xor-ne_zero q p pq (sym same-s ∙ e))
        ∙ ap₂ (λ t s. gf_mul (bit_xor (gf_mul (inv w) t) (gf_mul (inv v) (bit_xor v u))) (inv s))
            same-t same-s
        ∙ ap
            (λ y.
              gf_mul (bit_xor (gf_mul (inv w) (bit_xor q a)) (gf_mul (inv v) y))
                (inv (bit_xor q p)))
            same-y in
      sym (
        mul_assoc c (gf_mul u (inv v)) (inv w) hc (mul-lt u (inv v) hu (div-lt v hv)) (div-lt w hw))
      ∙ ap (gf_mul c) fractional
      ∙ mul_assoc c (bit_xor (gf_mul (inv w) (bit_xor q a)) (gf_mul (inv v) (bit_xor p a)))
          (inv (bit_xor q p)) hc
          (xor-lt-byte (gf_mul (inv w) (bit_xor q a)) (gf_mul (inv v) (bit_xor p a)) wt-lt vy-lt)
          (div-lt (bit_xor q p) hs)
      ∙ ap (λ k. gf_mul k (inv (bit_xor q p)))
          (mul_distrib_left c (gf_mul (inv w) (bit_xor q a)) (gf_mul (inv v) (bit_xor p a)) hc wt-lt
              vy-lt
            ∙ ap₂ bit_xor (mul_assoc c (inv w) (bit_xor q a) hc (div-lt w hw) ht) (
                mul_assoc c (inv v) (bit_xor p a) hc (div-lt v hv) hy
                ∙ ap (λ k. gf_mul (gf_mul c (inv k)) (bit_xor p a)) (xor_comm j p)))

  combined-xor :
      (f g f' g' : ℕ)
      → f < 256
      → g < 256
      → f' < 256
      → g' < 256
      → bit_xor (combined f g) (combined f' g') ≡ combined (bit_xor f f') (bit_xor g g')
  combined-xor f g f' g' hf hg hf' hg' =
      let t = bit_xor q a in
      let y = bit_xor p a in
      let ht = xor-lt-byte q a hq ha in
      let hy = xor-lt-byte p a hp ha in
      let hs = div-lt (bit_xor q p) (xor-lt-byte q p hq hp) in
      sym (
        mul_distrib (bit_xor (gf_mul f t) (gf_mul g y)) (bit_xor (gf_mul f' t) (gf_mul g' y))
          (inv (bit_xor q p))
          (xor-lt-byte (gf_mul f t) (gf_mul g y) (mul-lt f t hf ht) (mul-lt g y hg hy))
          (xor-lt-byte (gf_mul f' t) (gf_mul g' y) (mul-lt f' t hf' ht) (mul-lt g' y hg' hy)) hs)
      ∙ ap (λ k. gf_mul k (inv (bit_xor q p)))
          (xor_swap (gf_mul f t) (gf_mul g y) (gf_mul f' t) (gf_mul g' y)
            ∙ sym (ap₂ bit_xor (mul_distrib f f' t hf hf' ht) (mul_distrib g g' y hg hg' hy)))

  fractions-reduced :
      (c : ℕ → ℕ) (js : List ℕ)
      → Bytes c js
      → All (λ j. j < 256) js
      → All (λ j. j ≢ p) js
      → All (λ j. q ≢ j) js
      → fractions (reduced c a p) js q ≡ combined (fractions c js q) (fractions c js p)
  unfolding fractions
  fractions-reduced c [] h b jp qj = sym (
      ap₂ (λ f g. gf_mul (bit_xor f g) (inv (bit_xor q p))) (zero-mul (bit_xor q a))
        (zero-mul (bit_xor p a))
      ∙ ap (λ k. gf_mul k (inv (bit_xor q p))) (xor-zero 0)
      ∙ zero-mul (inv (bit_xor q p)))
  fractions-reduced c (j ∷ js) h b jp qj =
      ap₂ bit_xor (term (c j) j h.0 b.0 jp.0 qj.0) (fractions-reduced c js h.1 b.1 jp.1 qj.1)
      ∙ combined-xor (gf_mul (c j) (inv (bit_xor q j))) (gf_mul (c j) (inv (bit_xor p j)))
          (fractions c js q) (fractions c js p)
          (mul-lt (c j) (inv (bit_xor q j)) h.0 (div-lt (bit_xor q j) (xor-lt-byte q j hq b.0)))
          (mul-lt (c j) (inv (bit_xor p j)) h.0 (div-lt (bit_xor p j) (xor-lt-byte p j hp b.0)))
          (fractions-lt c js q h.1 b.1 hq) (fractions-lt c js p h.1 b.1 hp)

  -- Where the whole sum is 0 at `p` and at `q`, the reduced one is 0 at `q`.
  pub reduced-zero :
      (c : ℕ → ℕ) (js : List ℕ)
      → Bytes c (a ∷ js)
      → All (λ j. j < 256) js
      → All (λ j. j ≢ p) js
      → All (λ j. q ≢ j) js
      → q ≢ a
      → p ≢ a
      → fractions c (a ∷ js) q ≡ 0
      → fractions c (a ∷ js) p ≡ 0
      → fractions (reduced c a p) js q ≡ 0
  unfolding fractions
  reduced-zero c js h b jp qj qa pa zq zp =
      fractions-reduced c js h.1 b jp qj
      ∙ ap₂ (λ f g. gf_mul (bit_xor f g) (inv (bit_xor q p))) (rest q hq qa (fractions c js q) zq)
          (rest p hp pa (fractions c js p) zp)
      ∙ ap (λ k. gf_mul k (inv (bit_xor q p))) (xor_self (c a))
      ∙ zero-mul (inv (bit_xor q p))
    where
      -- c a / (z + a) + f = 0, so f (z + a) = c a
      rest :
          (z : ℕ)
          → z < 256
          → z ≢ a
          → (f : ℕ) → bit_xor (gf_mul (c a) (inv (bit_xor z a))) f ≡ 0
          → gf_mul f (bit_xor z a) ≡ c a
      rest z hz za f e =
          let d = bit_xor z a in
          let hd = xor-lt-byte z a hz ha in
          ap (λ k. gf_mul k d) (sym (xor-eq (gf_mul (c a) (inv d)) f e))
          ∙ sym (mul_assoc (c a) (inv d) d h.0 (div-lt d hd) hd)
          ∙ ap (gf_mul (c a)) (mul_comm (inv d) d ∙ mul-div_cancel d hd (xor-ne_zero z a za))
          ∙ mul-one (c a) h.0
