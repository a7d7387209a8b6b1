-- ===== src/Gf.antt =====
-- GF(256) of src/fec.c and src/fec.h: the logarithm tables and the operations on bytes and buffers.
pub mod Powers
pub mod Entries
pub mod Field
pub mod Buffers
pub mod Cauchy
pub mod Fractions
pub mod Vanish
pub mod Poles
mod Tests
use bi_tun.Base.{
  ℕ, zero, suc, ◌+◌, ◌-◌, ◌*◌, ◌<◌, bit_and, bit_xor, Bool, true, false, ◌||◌, List, [], ◌∷◌, ltb,
  ◌==◌, ◌!=◌, if◌then◌else◌, ◌<<<◌, get_or, set, replicate,
}

-- `gf_exp` and `gf_log`
pub record Tables : Type 0 where
  pub exp : List ℕ
  pub log : List ℕ

-- One step of `val <<= 1`, reduced by the polynomial 0x11d.
unfoldable pub next_val : ℕ → ℕ
next_val val =
    let doubled = val <<< 1 in if bit_and doubled 0x100 != 0 then bit_xor doubled 0x11d else doubled

-- The body of the loop of `gf_init` at round `i`, and the loop with `left` rounds to go.
unfoldable pub init_round : Tables → ℕ → ℕ → Tables
init_round t i val = record { exp = set (set t.exp i val) (i + 255) val; log = set t.log val i }

unfoldable pub init_loop : ℕ → ℕ → ℕ → Tables → Tables
unfolding init_round next_val
init_loop zero i val t = t
init_loop (suc left) i val t = init_loop left (i + 1) (next_val val) (init_round t i val)

-- The globals before and after `gf_init`.
abbrev pub blank : Tables
blank = record { exp = replicate 512 0; log = replicate 256 0 }

unfoldable pub gf_init : Tables
unfolding init_loop
gf_init = let t = init_loop 256 0 1 blank in record t { log = set t.log 0 0 }

unfoldable pub gf_exp : ℕ → ℕ
gf_exp i = get_or gf_init.exp i 0

unfoldable pub gf_log : ℕ → ℕ
gf_log a = get_or gf_init.log a 0

unfoldable pub gf_add : ℕ → ℕ → ℕ
gf_add a b = bit_xor a b

unfoldable pub gf_sub : ℕ → ℕ → ℕ
gf_sub a b = bit_xor a b

unfoldable pub gf_mul : ℕ → ℕ → ℕ
gf_mul a b = if (a == 0) || (b == 0) then 0 else gf_exp (gf_log a + gf_log b)

-- `diff` is an `int`; 255 is added where it is negative.
unfoldable pub gf_div : ℕ → ℕ → ℕ
gf_div a b =
    let diff =
      if ltb (gf_log a) (gf_log b) then gf_log a + 255 - gf_log b else gf_log a - gf_log b in
    if a == 0 then 0 else if b == 0 then 0 else gf_exp diff

-- The loops of `gf_mul_add_buf` over `len` bytes, by the kind of the coefficient.
unfoldable pub xor_loop : List ℕ → List ℕ → ℕ → List ℕ
xor_loop dst src zero = dst
xor_loop [] src (suc len) = []
xor_loop (d ∷ dst) [] (suc len) = d ∷ dst
xor_loop (d ∷ dst) (s ∷ src) (suc len) = bit_xor d s ∷ xor_loop dst src len

unfoldable pub log_loop : ℕ → List ℕ → List ℕ → ℕ → List ℕ
log_loop log_c dst src zero = dst
log_loop log_c [] src (suc len) = []
log_loop log_c (d ∷ dst) [] (suc len) = d ∷ dst
log_loop log_c (d ∷ dst) (s ∷ src) (suc len) =
    (if s != 0 then bit_xor d (gf_exp (log_c + gf_log s)) else d) ∷ log_loop log_c dst src len

unfoldable pub gf_mul_add_buf : List ℕ → List ℕ → ℕ → ℕ → List ℕ
gf_mul_add_buf dst src coef len =
    if coef == 0
    then dst
    else if coef == 1
    then xor_loop dst src len
    else log_loop (gf_log coef) dst src len
