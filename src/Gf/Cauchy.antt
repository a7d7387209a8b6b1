-- ===== src/Gf/Cauchy.antt =====
-- Sums of simple fractions over the field: one with as many zeros as terms has no terms.
use bi_tun.Base.{
  ℕ, ◌<◌, bit_xor, ◌≡◌, ◌≢◌, sym, ap, ap₂, ◌∙◌, arith, xor_self, xor_comm, xor_assoc, xor-zero,
  zero-xor, xor-lt-byte, ℕ_discrete,
}
use bi_tun.Gf.{gf_mul, gf_div}
use bi_tun.Gf.Field.{
  mul_comm, mul_assoc, mul_distrib, mul-lt, mul-one, mul-zero, mul-ne_zero, div-lt, mul-div_cancel,
}

abbrev pub inv : ℕ → ℕ
inv b = gf_div 1 b

pub xor-ne_zero : (a b : ℕ) → a ≢ b → bit_xor a b ≢ 0
xor-ne_zero a b ne e = ne (
    sym (xor-zero a)
    ∙ ap (bit_xor a) (sym (xor_self b))
    ∙ sym (xor_assoc a b b)
    ∙ ap (λ k. bit_xor k b) e
    ∙ zero-xor b)

-- (a + b) + (b + c) = a + c
pub xor_chain : (a b c : ℕ) → bit_xor (bit_xor a b) (bit_xor b c) ≡ bit_xor a c
xor_chain a b c =
    xor_assoc a b (bit_xor b c)
    ∙ ap (bit_xor a) (sym (xor_assoc b b c) ∙ ap (λ k. bit_xor k c) (xor_self b) ∙ zero-xor c)

pub mul_distrib_left :
    (a b c : ℕ)
    → a < 256
    → b < 256
    → c < 256
    → gf_mul a (bit_xor b c) ≡ bit_xor (gf_mul a b) (gf_mul a c)
mul_distrib_left a b c h g k =
    mul_comm a (bit_xor b c) ∙ mul_distrib b c a g k h ∙ ap₂ bit_xor (mul_comm b a) (mul_comm c a)

-- a b = 0 with b not 0
pub mul-zero_inv : (a b : ℕ) → a < 256 → b < 256 → b ≢ 0 → gf_mul a b ≡ 0 → a ≡ 0
mul-zero_inv a b h g nb e = elim (ℕ_discrete a 0) [
  | yes z ↦ z
  | no na ↦ absurd (mul-ne_zero a b h g na nb e)
]

pub inv-ne_zero : (b : ℕ) → b < 256 → b ≢ 0 → inv b ≢ 0
inv-ne_zero b h nb e =
    let contra : ◌≡◌ {A = ℕ} 0 1 =
      sym (mul-zero b) ∙ ap (gf_mul b) (sym e) ∙ mul-div_cancel b h nb in
    omega arith

module _ (u v w : ℕ) (hu : u < 256) (hv : v < 256) (hw : w < 256) (nv : v ≢ 0) (nw : w ≢ 0)
    (ns : bit_xor w v ≢ 0) where
  -- w' (w + u) = 1 + w' u
  over : (b : ℕ) → b < 256 → b ≢ 0 → gf_mul (inv b) (bit_xor b u) ≡ bit_xor 1 (gf_mul (inv b) u)
  over b hb nb =
      mul_distrib_left (inv b) b u (div-lt b hb) hb hu
      ∙ ap (λ k. bit_xor k (gf_mul (inv b) u)) (mul_comm (inv b) b ∙ mul-div_cancel b hb nb)

  -- w' (w + u) + v' (v + u) = w' u + v' u
  numerator :
      bit_xor (gf_mul (inv w) (bit_xor w u)) (gf_mul (inv v) (bit_xor v u))
      ≡ bit_xor (gf_mul (inv w) u) (gf_mul (inv v) u)
  numerator =
      ap₂ bit_xor (over w hw nw ∙ xor_comm 1 (gf_mul (inv w) u)) (over v hv nv)
      ∙ xor_chain (gf_mul (inv w) u) 1 (gf_mul (inv v) u)

  -- u v' w' (w + v) = w' u + v' u
  product :
      gf_mul (gf_mul (gf_mul u (inv v)) (inv w)) (bit_xor w v)
      ≡ bit_xor (gf_mul (inv w) u) (gf_mul (inv v) u)
  product =
      let uv = gf_mul u (inv v) in
      let uv-lt = mul-lt u (inv v) hu (div-lt v hv) in
      let uw = gf_mul u (inv w) in
      let uw-lt = mul-lt u (inv w) hu (div-lt w hw) in
      mul_distrib_left (gf_mul uv (inv w)) w v (mul-lt uv (inv w) uv-lt (div-lt w hw)) hw hv
      ∙ ap₂ bit_xor (cancel uv w uv-lt hw nw)
          (ap (λ k. gf_mul k v) (swap_inverses) ∙ cancel uw v uw-lt hv nv)
      ∙ ap₂ bit_xor (mul_comm u (inv v)) (mul_comm u (inv w))
      ∙ xor_comm (gf_mul (inv v) u) (gf_mul (inv w) u)
    where
      cancel : (a b : ℕ) → a < 256 → b < 256 → b ≢ 0 → gf_mul (gf_mul a (inv b)) b ≡ a
      cancel a b ha hb nb =
          sym (mul_assoc a (inv b) b ha (div-lt b hb) hb)
          ∙ ap (gf_mul a) (mul_comm (inv b) b ∙ mul-div_cancel b hb nb)
          ∙ mul-one a ha

      swap_inverses : gf_mul (gf_mul u (inv v)) (inv w) ≡ gf_mul (gf_mul u (inv w)) (inv v)
      swap_inverses =
          sym (mul_assoc u (inv v) (inv w) hu (div-lt v hv) (div-lt w hw))
          ∙ ap (gf_mul u) (mul_comm (inv v) (inv w))
          ∙ mul_assoc u (inv w) (inv v) hu (div-lt w hw) (div-lt v hv)

  -- The fraction as a combination of two simple ones.
  pub partial_fractions :
      gf_mul (gf_mul u (inv v)) (inv w)
      ≡ gf_mul
          (bit_xor (gf_mul (inv w) (bit_xor w u)) (gf_mul (inv v) (bit_xor v u)))
          (inv (bit_xor w v))
  partial_fractions =
      let s = bit_xor w v in
      let hs = xor-lt-byte w v hw hv in
      let whole = gf_mul (gf_mul u (inv v)) (inv w) in
      let whole-lt =
        mul-lt (gf_mul u (inv v)) (inv w) (mul-lt u (inv v) hu (div-lt v hv)) (div-lt w hw) in
      sym (mul-one whole whole-lt)
      ∙ ap (gf_mul whole) (sym (mul-div_cancel s hs ns))
      ∙ mul_assoc whole s (inv s) whole-lt hs (div-lt s hs)
      ∙ ap (λ k. gf_mul k (inv s)) (product ∙ sym numerator)
