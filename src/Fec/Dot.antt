-- ===== src/Fec/Dot.antt =====
-- The product of a row with a column of bytes, and what the row operations do to it.
use bi_tun.Base.{
  ℕ, zero, suc, ◌<◌, bit_xor, ◌≡◌, ◌≢◌, refl, sym, ap, ap₂, ◌∙◌, arith, List, [], ◌∷◌, length,
  get_or, xor-zero, zero-xor, xor-lt-byte,
}
use bi_tun.Gf.{gf_mul}
use bi_tun.Gf.Powers.{xor_swap}
use bi_tun.Gf.Field.{zero-mul, mul_comm, mul_assoc, mul_distrib, mul-lt, one-mul}
use bi_tun.Gf.Buffers.{AllBytes}
use bi_tun.Fec.{scale, add_multiple}

unfoldable pub dot : List ℕ → List ℕ → ℕ
dot [] xs = 0
dot (a ∷ as') [] = 0
dot (a ∷ as') (x ∷ xs) = bit_xor (gf_mul a x) (dot as' xs)

pub dot-lt : (row xs : List ℕ) → AllBytes row → AllBytes xs → dot row xs < 256
unfolding dot
dot-lt [] xs h g = omega arith
dot-lt (a ∷ row) [] h g = omega arith
dot-lt (a ∷ row) (x ∷ xs) h g =
    xor-lt-byte (gf_mul a x) (dot row xs) (mul-lt a x h.0 g.0) (dot-lt row xs h.1 g.1)

-- (a p) x = (a x) p
mul_swap : (a p x : ℕ) → a < 256 → p < 256 → x < 256 → gf_mul (gf_mul a p) x ≡ gf_mul (gf_mul a x) p
mul_swap a p x h g k =
    sym (mul_assoc a p x h g k) ∙ ap (gf_mul a) (mul_comm p x) ∙ mul_assoc a x p h k g

pub dot-scale :
    (row xs : List ℕ) (p : ℕ)
    → p < 256
    → AllBytes row
    → AllBytes xs
    → dot (scale row p) xs ≡ gf_mul (dot row xs) p
unfolding dot
dot-scale [] xs p k h g = sym (zero-mul p)
dot-scale (a ∷ row) [] p k h g = sym (zero-mul p)
dot-scale (a ∷ row) (x ∷ xs) p k h g =
    ap₂ bit_xor (mul_swap a p x h.0 k g.0) (dot-scale row xs p k h.1 g.1)
    ∙ sym (mul_distrib (gf_mul a x) (dot row xs) p (mul-lt a x h.0 g.0) (dot-lt row xs h.1 g.1) k)

-- (a + b f) x = a x + (b x) f
mul_add :
    (a b f x : ℕ)
    → a < 256
    → b < 256
    → f < 256
    → x < 256
    → gf_mul (bit_xor a (gf_mul b f)) x ≡ bit_xor (gf_mul a x) (gf_mul (gf_mul b x) f)
mul_add a b f x ha hb hf hx =
    mul_distrib a (gf_mul b f) x ha (mul-lt b f hb hf) hx
    ∙ ap (bit_xor (gf_mul a x)) (mul_swap b f x hb hf hx)

pub dot-add_multiple :
    (row other xs : List ℕ) (f : ℕ)
    → f < 256
    → length other ≡ length row
    → AllBytes row
    → AllBytes other
    → AllBytes xs
    → dot (add_multiple row other f) xs ≡ bit_xor (dot row xs) (gf_mul (dot other xs) f)
unfolding dot add_multiple
dot-add_multiple [] [] xs f k e h o g = sym (ap (bit_xor 0) (zero-mul f) ∙ xor-zero 0)
dot-add_multiple [] (b ∷ other) xs f k e h o g = absurd (omega arith)
dot-add_multiple (a ∷ row) [] xs f k e h o g = absurd (omega arith)
dot-add_multiple (a ∷ row) (b ∷ other) [] f k e h o g =
    sym (ap (bit_xor 0) (zero-mul f) ∙ xor-zero 0)
dot-add_multiple (a ∷ row) (b ∷ other) (x ∷ xs) f k e h o g =
    ap₂ bit_xor (mul_add a b f x h.0 o.0 k g.0)
      (dot-add_multiple row other xs f k (omega arith) h.1 o.1 g.1)
    ∙ xor_swap (gf_mul a x) (gf_mul (gf_mul b x) f) (dot row xs) (gf_mul (dot other xs) f)
    ∙ ap (bit_xor (bit_xor (gf_mul a x) (dot row xs))) (
        sym (
          mul_distrib (gf_mul b x) (dot other xs) f (mul-lt b x o.0 g.0) (dot-lt other xs o.1 g.1)
            k))

dot_zero : (row xs : List ℕ) → ((j : ℕ) → j < length xs → get_or row j 0 ≡ 0) → dot row xs ≡ 0
unfolding dot
dot_zero [] xs h = refl
dot_zero (a ∷ row) [] h = refl
dot_zero (a ∷ row) (x ∷ xs) h =
    ap₂ bit_xor (ap (λ b. gf_mul b x) (h 0 (omega arith)) ∙ zero-mul x)
      (dot_zero row xs (λ j lt. h (suc j) (omega arith)))
    ∙ xor-zero 0

-- A row that is 1 in one place and 0 elsewhere picks that byte.
pub dot_delta :
    (row xs : List ℕ) (i : ℕ)
    → length row ≡ length xs
    → i < length xs
    → AllBytes xs
    → get_or row i 0 ≡ 1
    → ((j : ℕ) → j < length xs → j ≢ i → get_or row j 0 ≡ 0)
    → dot row xs ≡ get_or xs i 0
unfolding dot
dot_delta [] xs i e h g one others = absurd (omega arith)
dot_delta (a ∷ row) [] i e h g one others = absurd (omega arith)
dot_delta (a ∷ row) (x ∷ xs) zero e h g one others =
    ap₂ bit_xor (ap (λ b. gf_mul b x) one ∙ one-mul x g.0)
      (dot_zero row xs (λ j lt. others (suc j) (omega arith) (omega arith)))
    ∙ xor-zero x
dot_delta (a ∷ row) (x ∷ xs) (suc i) e h g one others =
    ap₂ bit_xor (ap (λ b. gf_mul b x) (others 0 (omega arith) (omega arith)) ∙ zero-mul x) (
      dot_delta row xs i (omega arith) (omega arith) g.1 one
        (λ j lt ne. others (suc j) (omega arith) (omega arith)))
    ∙ zero-xor (get_or xs i 0)
