-- ===== src/Gf/Powers.antt =====
-- Multiplication by the generator, iterated: a linear map of bytes.
use bi_tun.Base.{
  ℕ, zero, suc, ◌+◌, ◌*◌, ◌/◌, ◌%◌, ◌<◌, bit_xor, ◌≡◌, refl, sym, ap, ap₂, ◌∙◌, arith, ◌⊎◌, inl,
  inr, ◌!=◌, if◌then◌else◌, xor_assoc, xor_comm, xor-zero, bit_xor_low, xor-lt-pow, xor-lt-byte,
  and_mask, bit, bit_lt_two,
}
use bi_tun.Gf.{next_val}

-- The reduction of a doubled byte, chosen by its top digit.
abbrev pub reduction : ℕ → ℕ
reduction d = if d != 0 then 0x11d else 0

digit_cases : (d : ℕ) → d < 2 → (d ≡ 0) ⊎ (d ≡ 1)
digit_cases zero h = inl refl
digit_cases (suc zero) h = inr refl
digit_cases (suc (suc d)) h = absurd (omega arith)

next_val_lem : (a : ℕ) → a < 256 → next_val a ≡ bit_xor (a * 2) (reduction (bit 7 a))
unfolding next_val
next_val_lem a h = ground (arith, and_mask 8 (a * 2), xor-zero (a * 2), bit_lt_two 7 a)

digit-xor : (k a b : ℕ) → bit k (bit_xor a b) ≡ (bit k a + bit k b) % 2
digit-xor zero a b = omega (arith, bit_xor_low a b)
digit-xor (suc k) a b = ap (bit k) half ∙ digit-xor k (a / 2) (b / 2)
  where
    half : bit_xor a b / 2 ≡ bit_xor (a / 2) (b / 2)
    half = omega (arith, bit_xor_low a b)

double-xor : (a b : ℕ) → bit_xor a b * 2 ≡ bit_xor (a * 2) (b * 2)
double-xor a b = omega (
  arith,
  bit_xor_low (a * 2) (b * 2),
  ap₂ bit_xor {x = a * 2 / 2} {y = a} {u = b * 2 / 2} {v = b} (omega arith) (omega arith),
)

reduction-xor :
    (d e : ℕ) → d < 2 → e < 2 → reduction ((d + e) % 2) ≡ bit_xor (reduction d) (reduction e)
reduction-xor zero zero h g = refl
reduction-xor zero (suc zero) h g = refl
reduction-xor (suc zero) zero h g = refl
reduction-xor (suc zero) (suc zero) h g = refl
reduction-xor (suc (suc d)) e h g = absurd (omega arith)
reduction-xor zero (suc (suc e)) h g = absurd (omega arith)
reduction-xor (suc zero) (suc (suc e)) h g = absurd (omega arith)

pub xor_swap :
    (a b c d : ℕ) → bit_xor (bit_xor a b) (bit_xor c d) ≡ bit_xor (bit_xor a c) (bit_xor b d)
xor_swap a b c d =
    xor_assoc a b (bit_xor c d)
    ∙ ap (bit_xor a)
        (sym (xor_assoc b c d) ∙ ap (λ t. bit_xor t d) (xor_comm b c) ∙ xor_assoc c b d)
    ∙ sym (xor_assoc a c (bit_xor b d))

pub next_val-lt : (a : ℕ) → a < 256 → next_val a < 256
next_val-lt a h = rw (next_val_lem a h) (elim (digit_cases (bit 7 a) (bit_lt_two 7 a)) [
  | inl e ↦ rw e (rw (xor-zero (a * 2)) (omega (arith, e)))
  | inr e ↦ rw e (
      omega (
        arith,
        e,
        digit-xor 8 (a * 2) 0x11d,
        xor-lt-pow 9 (a * 2) 0x11d (omega arith) (omega arith),
      ))
])

pub next_val-xor :
    (a b : ℕ) → a < 256 → b < 256 → next_val (bit_xor a b) ≡ bit_xor (next_val a) (next_val b)
next_val-xor a b h g =
    next_val_lem (bit_xor a b) (xor-lt-byte a b h g)
    ∙ ap₂ bit_xor (double-xor a b) (
        ap reduction (digit-xor 7 a b)
        ∙ reduction-xor (bit 7 a) (bit 7 b) (bit_lt_two 7 a) (bit_lt_two 7 b))
    ∙ xor_swap (a * 2) (b * 2) (reduction (bit 7 a)) (reduction (bit 7 b))
    ∙ sym (ap₂ bit_xor (next_val_lem a h) (next_val_lem b g))

-- `k` steps of the generator.
unfoldable pub steps : ℕ → ℕ → ℕ
steps zero a = a
steps (suc k) a = next_val (steps k a)

-- The maps `steps k` are linear, keep bytes and 0, and add up.
pub steps-lt : (k a : ℕ) → a < 256 → steps k a < 256
unfolding steps
steps-lt zero a h = h
steps-lt (suc k) a h = next_val-lt (steps k a) (steps-lt k a h)

pub steps-xor :
    (k a b : ℕ) → a < 256 → b < 256 → steps k (bit_xor a b) ≡ bit_xor (steps k a) (steps k b)
unfolding steps
steps-xor zero a b h g = refl
steps-xor (suc k) a b h g =
    ap next_val (steps-xor k a b h g)
    ∙ next_val-xor (steps k a) (steps k b) (steps-lt k a h) (steps-lt k b g)

pub steps-zero : (k : ℕ) → steps k 0 ≡ 0
unfolding steps next_val
steps-zero zero = refl
steps-zero (suc k) = ap next_val (steps-zero k)

pub steps-add : (j k a : ℕ) → steps j (steps k a) ≡ steps (j + k) a
unfolding steps
steps-add zero k a = ap (λ m. steps m a) {x = k} {y = 0 + k} (omega arith)
steps-add (suc j) k a =
    ap next_val (steps-add j k a)
    ∙ ap (λ m. steps m a) {x = suc (j + k)} {y = suc j + k} (omega arith)

pub steps_comm : (j k a : ℕ) → steps j (steps k a) ≡ steps k (steps j a)
steps_comm j k a =
    steps-add j k a
    ∙ ap (λ m. steps m a) {x = j + k} {y = k + j} (omega arith)
    ∙ sym (steps-add k j a)

pub steps-suc : (k a : ℕ) → steps k (next_val a) ≡ steps (suc k) a
unfolding steps
steps-suc zero a = refl
steps-suc (suc k) a = ap next_val (steps-suc k a)
