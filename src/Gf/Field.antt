-- ===== src/Gf/Field.antt =====
-- The operations of the tables make the bytes a field.
use bi_tun.Base.{
  ℕ, ◌+◌, ◌-◌, ◌<◌, bit_xor, ◌≡◌, ◌≢◌, sym, ap, ap₂, ◌∙◌, arith, ℕ_discrete, xor_self, xor-lt-byte,
}
use bi_tun.Gf.{gf_exp, gf_log, gf_mul, gf_div}
use bi_tun.Gf.Powers.{steps, steps-lt, steps-xor, steps-zero, steps-add, steps_comm}
use bi_tun.Gf.Entries.{exp-steps, log-le, steps-log, steps_full, steps_ne_zero, log-one}

pub mul-zero : (a : ℕ) → gf_mul a 0 ≡ 0
unfolding gf_mul
mul-zero a = ground arith

pub zero-mul : (a : ℕ) → gf_mul 0 a ≡ 0
unfolding gf_mul
zero-mul a = ground arith

pub mul_comm : (a b : ℕ) → gf_mul a b ≡ gf_mul b a
unfolding gf_mul
mul_comm a b =
    ground (arith, ap gf_exp {x = gf_log a + gf_log b} {y = gf_log b + gf_log a} (omega arith))

-- Multiplication by a byte that is not 0 is as many steps of the generator as its logarithm says.
mul-steps_pos : (a b : ℕ) → a < 256 → b < 256 → a ≢ 0 → b ≢ 0 → gf_mul a b ≡ steps (gf_log b) a
unfolding gf_mul
mul-steps_pos a b h g na nb = ground (
  arith,
  exp-steps (gf_log a + gf_log b),
  log-le a h na,
  log-le b g nb,
  ap (λ m. steps m 1) {x = gf_log a + gf_log b} {y = gf_log b + gf_log a} (omega arith),
  steps-add (gf_log b) (gf_log a) 1,
  ap (steps (gf_log b)) (steps-log a h na),
)

pub mul-steps : (a b : ℕ) → a < 256 → b < 256 → b ≢ 0 → gf_mul a b ≡ steps (gf_log b) a
mul-steps a b h g nb = elim (ℕ_discrete a 0) [
  | yes e ↦ rw e (zero-mul b ∙ sym (steps-zero (gf_log b)))
  | no na ↦ mul-steps_pos a b h g na nb
]

pub mul-lt : (a b : ℕ) → a < 256 → b < 256 → gf_mul a b < 256
mul-lt a b h g = elim (ℕ_discrete b 0) [
  | yes e ↦ rw (e, mul-zero a) (omega arith)
  | no nb ↦ rw (mul-steps a b h g nb) (steps-lt (gf_log b) a h)
]

-- Powers that agree on 1 agree everywhere.
same_steps : (m n a : ℕ) → steps m 1 ≡ steps n 1 → a < 256 → steps m a ≡ steps n a
same_steps m n a e h = elim (ℕ_discrete a 0) [
  | yes z ↦ rw z (steps-zero m ∙ sym (steps-zero n))
  | no na ↦
      ap (steps m) (sym (steps-log a h na))
      ∙ steps_comm m (gf_log a) 1
      ∙ ap (steps (gf_log a)) e
      ∙ steps_comm (gf_log a) n 1
      ∙ ap (steps n) (steps-log a h na)
]

-- The product of two bytes that are not 0 as a power of the generator.
product_power :
    (b c : ℕ) → b < 256 → c < 256 → b ≢ 0 → c ≢ 0 → gf_mul b c ≡ steps (gf_log c + gf_log b) 1
product_power b c g k nb nc =
    mul-steps b c g k nc
    ∙ ap (steps (gf_log c)) (sym (steps-log b g nb))
    ∙ steps-add (gf_log c) (gf_log b) 1

pub mul-ne_zero : (b c : ℕ) → b < 256 → c < 256 → b ≢ 0 → c ≢ 0 → gf_mul b c ≢ 0
mul-ne_zero b c g k nb nc e =
    steps_ne_zero (gf_log c + gf_log b) (omega (arith, log-le b g nb, log-le c k nc))
      (sym (product_power b c g k nb nc) ∙ e)

mul_assoc_pos :
    (a b c : ℕ)
    → a < 256
    → b < 256
    → c < 256
    → b ≢ 0
    → c ≢ 0
    → gf_mul a (gf_mul b c) ≡ gf_mul (gf_mul a b) c
mul_assoc_pos a b c h g k nb nc =
    let w = gf_mul b c in
    let w-lt = mul-lt b c g k in
    let w-ne = mul-ne_zero b c g k nb nc in
    mul-steps a w h w-lt w-ne
    ∙ same_steps (gf_log w) (gf_log c + gf_log b) a
        (steps-log w w-lt w-ne ∙ product_power b c g k nb nc) h
    ∙ sym (steps-add (gf_log c) (gf_log b) a)
    ∙ ap (steps (gf_log c)) (sym (mul-steps a b h g nb))
    ∙ sym (mul-steps (gf_mul a b) c (mul-lt a b h g) k nc)

-- The product by tables is associative on bytes.
pub mul_assoc :
    (a b c : ℕ) → a < 256 → b < 256 → c < 256 → gf_mul a (gf_mul b c) ≡ gf_mul (gf_mul a b) c
mul_assoc a b c h g k = elim (ℕ_discrete c 0) [
  | yes e ↦ simp (e, mul-zero)
  | no nc ↦ elim (ℕ_discrete b 0) [
    | yes e ↦ simp (e, mul-zero, zero-mul)
    | no nb ↦ mul_assoc_pos a b c h g k nb nc
  ]
]

-- The product by tables distributes over exclusive or on bytes.
pub mul_distrib :
    (a b c : ℕ)
    → a < 256
    → b < 256
    → c < 256
    → gf_mul (bit_xor a b) c ≡ bit_xor (gf_mul a c) (gf_mul b c)
mul_distrib a b c h g k = elim (ℕ_discrete c 0) [
  | yes e ↦ simp (e, mul-zero, xor_self)
  | no nc ↦
      mul-steps (bit_xor a b) c (xor-lt-byte a b h g) k nc
      ∙ steps-xor (gf_log c) a b h g
      ∙ sym (ap₂ bit_xor (mul-steps a c h k nc) (mul-steps b c g k nc))
]

pub mul-one : (a : ℕ) → a < 256 → gf_mul a 1 ≡ a
unfolding steps
mul-one a h =
    mul-steps a 1 h (omega arith) (omega arith)
    ∙ same_steps (gf_log 1) 0 a (steps-log 1 (omega arith) (omega arith)) h

pub one-mul : (a : ℕ) → a < 256 → gf_mul 1 a ≡ a
one-mul a h = mul_comm 1 a ∙ mul-one a h

inverse_power : (b : ℕ) → b < 256 → b ≢ 0 → gf_div 1 b ≡ steps (255 - gf_log b) 1
unfolding gf_div
inverse_power b h nb = ground (arith, log-one, log-le b h nb, exp-steps (255 - gf_log b))

pub div-lt : (b : ℕ) → b < 256 → gf_div 1 b < 256
div-lt b h = elim (ℕ_discrete b 0) [
  | yes e ↦ rw e (unfold gf_div in omega arith)
  | no nb ↦ rw (inverse_power b h nb) (steps-lt (255 - gf_log b) 1 (omega arith))
]

-- `gf_div 1 b` is the inverse of every byte that is not 0.
pub mul-div_cancel : (b : ℕ) → b < 256 → b ≢ 0 → gf_mul b (gf_div 1 b) ≡ 1
mul-div_cancel b h nb =
    let i = 255 - gf_log b in
    let small : i < 511 = omega arith in
    let inv-lt = steps-lt i 1 (omega arith) in
    let inv-ne = steps_ne_zero i small in
    ap (gf_mul b) (inverse_power b h nb)
    ∙ mul-steps b (steps i 1) h inv-lt inv-ne
    ∙ same_steps (gf_log (steps i 1)) i b (steps-log (steps i 1) inv-lt inv-ne) h
    ∙ ap (steps i) (sym (steps-log b h nb))
    ∙ steps-add i (gf_log b) 1
    ∙ ap (λ m. steps m 1) {x = i + gf_log b} {y = 255} (omega (arith, log-le b h nb))
    ∙ steps_full
