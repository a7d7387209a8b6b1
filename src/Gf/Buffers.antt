-- ===== src/Gf/Buffers.antt =====
-- `gf_mul_add_buf`: the three loops are one, at every byte `dst + coef * src`.
use bi_tun.Base.{
  ℕ, zero, suc, ◌+◌, ◌<◌, bit_xor, ◌≡◌, ◌≢◌, refl, sym, ap, ap₂, ◌∙◌, arith, List, [], ◌∷◌, length,
  get_or, ◌!=◌, if◌then◌else◌, ℕ_discrete, xor-zero, xor-lt-byte,
}
use bi_tun.Gf.{gf_exp, gf_log, gf_mul, xor_loop, log_loop, gf_mul_add_buf}
use bi_tun.Gf.Field.{mul-zero, zero-mul, one-mul, mul-lt}

-- The elements are bytes.
abbrev pub AllBytes : List ℕ → Type 0
AllBytes [] = Unit {0}
AllBytes (b ∷ bs) = (b < 256) × AllBytes bs

pub get_or-lt : (bs : List ℕ) (i : ℕ) → AllBytes bs → get_or bs i 0 < 256
get_or-lt [] i h = omega arith
get_or-lt (b ∷ bs) zero h = h.0
get_or-lt (b ∷ bs) (suc i) h = get_or-lt bs i h.1

-- `dst + coef * src` over the first `len` bytes.
pub add_scaled : List ℕ → List ℕ → ℕ → ℕ → List ℕ
add_scaled dst src coef zero = dst
add_scaled [] src coef (suc len) = []
add_scaled (d ∷ dst) [] coef (suc len) = d ∷ dst
add_scaled (d ∷ dst) (s ∷ src) coef (suc len) =
    bit_xor d (gf_mul coef s) ∷ add_scaled dst src coef len

zero_coef : (dst src : List ℕ) (len : ℕ) → add_scaled dst src 0 len ≡ dst
unfolding add_scaled
zero_coef dst src zero = refl
zero_coef [] src (suc len) = refl
zero_coef (d ∷ dst) [] (suc len) = refl
zero_coef (d ∷ dst) (s ∷ src) (suc len) =
    ap₂ ◌∷◌ (ap (bit_xor d) (zero-mul s) ∙ xor-zero d) (zero_coef dst src len)

one_coef :
    (dst src : List ℕ) (len : ℕ) → AllBytes src → xor_loop dst src len ≡ add_scaled dst src 1 len
unfolding add_scaled xor_loop
one_coef dst src zero h = refl
one_coef [] src (suc len) h = refl
one_coef (d ∷ dst) [] (suc len) h = refl
one_coef (d ∷ dst) (s ∷ src) (suc len) h =
    ap₂ ◌∷◌ (ap (bit_xor d) (sym (one-mul s h.0))) (one_coef dst src len h.1)

log_entry :
    (coef d s : ℕ)
    → coef ≢ 0
    → (if s != 0 then bit_xor d (gf_exp (gf_log coef + gf_log s)) else d)
      ≡ bit_xor d (gf_mul coef s)
unfolding gf_mul
log_entry coef d s ne = ground (arith, xor-zero d)

log_coef :
    (coef : ℕ) (dst src : List ℕ) (len : ℕ)
    → coef ≢ 0
    → log_loop (gf_log coef) dst src len ≡ add_scaled dst src coef len
unfolding add_scaled log_loop
log_coef coef dst src zero ne = refl
log_coef coef [] src (suc len) ne = refl
log_coef coef (d ∷ dst) [] (suc len) ne = refl
log_coef coef (d ∷ dst) (s ∷ src) (suc len) ne =
    ap₂ ◌∷◌ (log_entry coef d s ne) (log_coef coef dst src len ne)

-- Whatever the coefficient, the buffer becomes `dst + coef * src` in the field.
pub mul_add_buf-add_scaled :
    (dst src : List ℕ) (coef len : ℕ)
    → AllBytes src
    → gf_mul_add_buf dst src coef len ≡ add_scaled dst src coef len
unfolding gf_mul_add_buf
mul_add_buf-add_scaled dst src coef len h = elim (ℕ_discrete coef 0) [
  | yes e ↦ rw e (sym (zero_coef dst src len))
  | no ne ↦ ground (arith, one_coef dst src len h, log_coef coef dst src len ne)
]

pub length-add_scaled :
    (dst src : List ℕ) (coef len : ℕ) → length (add_scaled dst src coef len) ≡ length dst
unfolding add_scaled
length-add_scaled dst src coef zero = refl
length-add_scaled [] src coef (suc len) = refl
length-add_scaled (d ∷ dst) [] coef (suc len) = refl
length-add_scaled (d ∷ dst) (s ∷ src) coef (suc len) = ap suc (length-add_scaled dst src coef len)

pub get_or-add_scaled :
    (dst src : List ℕ) (coef len t : ℕ)
    → length dst ≡ len
    → length src ≡ len
    → get_or (add_scaled dst src coef len) t 0
      ≡ bit_xor (get_or dst t 0) (gf_mul coef (get_or src t 0))
unfolding add_scaled
get_or-add_scaled [] [] coef zero t e f = sym (ap (bit_xor 0) (mul-zero coef) ∙ xor-zero 0)
get_or-add_scaled [] [] coef (suc len) t e f = absurd (omega arith)
get_or-add_scaled [] (s ∷ src) coef len t e f = absurd (omega arith)
get_or-add_scaled (d ∷ dst) [] coef len t e f = absurd (omega arith)
get_or-add_scaled (d ∷ dst) (s ∷ src) coef zero t e f = absurd (omega arith)
get_or-add_scaled (d ∷ dst) (s ∷ src) coef (suc len) zero e f = refl
get_or-add_scaled (d ∷ dst) (s ∷ src) coef (suc len) (suc t) e f =
    get_or-add_scaled dst src coef len t (omega arith) (omega arith)

pub AllBytes-add_scaled :
    (dst src : List ℕ) (coef len : ℕ)
    → coef < 256
    → AllBytes dst
    → AllBytes src
    → AllBytes (add_scaled dst src coef len)
unfolding add_scaled
AllBytes-add_scaled dst src coef zero k h g = h
AllBytes-add_scaled [] src coef (suc len) k h g = h
AllBytes-add_scaled (d ∷ dst) [] coef (suc len) k h g = h
AllBytes-add_scaled (d ∷ dst) (s ∷ src) coef (suc len) k h g = (
  xor-lt-byte d (gf_mul coef s) h.0 (mul-lt coef s k g.0),
  AllBytes-add_scaled dst src coef len k h.1 g.1,
)
