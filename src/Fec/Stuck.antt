-- ===== src/Fec/Stuck.antt =====
-- The steps of `gf_invert_matrix` on a column without a pivot, and products with few terms.
use bi_tun.Base.{
  ℕ, zero, suc, ◌+◌, ◌<◌, bit_xor, ◌≡◌, ◌≢◌, refl, sym, ap, ap₂, ◌∙◌, arith, none, List, [], ◌∷◌,
  length, get_or, set, drop, xor-zero, zero-xor, ℕ_discrete, Option-cases, inl, inr,
}
use bi_tun.Gf.{gf_mul, gf_div}
use bi_tun.Fec.{
  Row, row_at, entry, find_pivot, scale, add_multiple, scale_pivot, clear_row, invert_step,
}
use bi_tun.Fec.Dot.{dot}
use bi_tun.Fec.Augmented.{ne_test, none-ne-some, step-found}

pub find_pivot-none :
    (rows : List Row) (i p k : ℕ)
    → find_pivot rows i p ≡ none
    → k < length rows
    → entry (row_at rows k) i ≡ 0
unfolding find_pivot
find_pivot-none [] i p k e h = absurd (omega arith)
find_pivot-none (row ∷ rest) i p zero e h = elim (ℕ_discrete (entry row i) 0) [
  | yes z ↦ z
  | no nz ↦ absurd (ground arith)
]
find_pivot-none (row ∷ rest) i p (suc k) e h = elim (ℕ_discrete (entry row i) 0) [
  | yes z ↦ find_pivot-none rest i (p + 1) k (ground arith) (omega arith)
  | no nz ↦ absurd (ground arith)
]

-- A product of a row and a column with no, one or two terms that are not 0.
pub dot_none :
    (row xs : List ℕ)
    → ((j : ℕ) → j < length xs → gf_mul (get_or row j 0) (get_or xs j 0) ≡ 0)
    → dot row xs ≡ 0
unfolding dot
dot_none [] xs h = refl
dot_none (a ∷ row) [] h = refl
dot_none (a ∷ row) (x ∷ xs) h =
    ap₂ bit_xor (h 0 (omega arith)) (dot_none row xs (λ j lt. h (suc j) (omega arith))) ∙ xor-zero 0

dot_one :
    (row xs : List ℕ) (p : ℕ)
    → p < length row
    → p < length xs
    → ((j : ℕ) → j < length xs → j ≢ p → gf_mul (get_or row j 0) (get_or xs j 0) ≡ 0)
    → dot row xs ≡ gf_mul (get_or row p 0) (get_or xs p 0)
unfolding dot
dot_one [] xs p hr hx h = absurd (omega arith)
dot_one (a ∷ row) [] p hr hx h = absurd (omega arith)
dot_one (a ∷ row) (x ∷ xs) zero hr hx h =
    ap (bit_xor (gf_mul a x)) (dot_none row xs (λ j lt. h (suc j) (omega arith) (omega arith)))
    ∙ xor-zero (gf_mul a x)
dot_one (a ∷ row) (x ∷ xs) (suc p) hr hx h =
    ap₂ bit_xor (h 0 (omega arith) (omega arith)) (
      dot_one row xs p (omega arith) (omega arith)
        (λ j lt ne. h (suc j) (omega arith) (omega arith)))
    ∙ zero-xor (gf_mul (get_or row p 0) (get_or xs p 0))

pub dot_two :
    (row xs : List ℕ) (p q : ℕ)
    → p < q
    → q < length row
    → q < length xs
    → ((j : ℕ) → j < length xs → j ≢ p → j ≢ q → gf_mul (get_or row j 0) (get_or xs j 0) ≡ 0)
    → dot row xs
      ≡ bit_xor (gf_mul (get_or row p 0) (get_or xs p 0)) (gf_mul (get_or row q 0) (get_or xs q 0))
unfolding dot
dot_two [] xs p q pq hr hx h = absurd (omega arith)
dot_two (a ∷ row) [] p q pq hr hx h = absurd (omega arith)
dot_two (a ∷ row) (x ∷ xs) p zero pq hr hx h = absurd (omega arith)
dot_two (a ∷ row) (x ∷ xs) zero (suc q) pq hr hx h = ap (bit_xor (gf_mul a x)) (
    dot_one row xs q (omega arith) (omega arith)
      (λ j lt ne. h (suc j) (omega arith) (omega arith) (omega arith)))
dot_two (a ∷ row) (x ∷ xs) (suc p) (suc q) pq hr hx h =
    ap₂ bit_xor (h 0 (omega arith) (omega arith) (omega arith)) (
      dot_two row xs p q (omega arith) (omega arith) (omega arith)
        (λ j lt np nq. h (suc j) (omega arith) (omega arith) (omega arith)))
    ∙ zero-xor (
        bit_xor (gf_mul (get_or row p 0) (get_or xs p 0)) (gf_mul (get_or row q 0) (get_or xs q 0)))

pub scale_pivot_same :
    (rows : List Row) (i : ℕ) → entry (row_at rows i) i ≡ 1 → scale_pivot rows i ≡ rows
unfolding scale_pivot
scale_pivot_same rows i e = rw e refl

pub scale_pivot-set :
    (rows : List Row) (i : ℕ)
    → entry (row_at rows i) i ≢ 1
    → let row = row_at rows i in
      let c = gf_div 1 (entry row i) in
      scale_pivot rows i ≡ set rows i (record { a = scale row.a c; inv = scale row.inv c })
unfolding scale_pivot
scale_pivot-set rows i ne = rw (ne_test (entry (row_at rows i) i) 1 ne) refl

pub step_missing :
    (i : ℕ) (rows : List Row) → find_pivot (drop i rows) i i ≡ none → invert_step rows i ≡ none
unfolding invert_step
step_missing i rows e = rw (e, invert_step) refl

pub step_stuck :
    (i : ℕ) (rows : List Row) → invert_step rows i ≡ none → find_pivot (drop i rows) i i ≡ none
step_stuck i rows e = elim (Option-cases (find_pivot (drop i rows) i i)) [
  | inl missing ↦ missing
  | inr (p, found) ↦ absurd (none-ne-some (sym e ∙ step-found i p rows found))
]

-- Clearing adds a multiple of the pivot row, perhaps by 0.
pub clear_row-zero :
    (pivot_row row : Row) (i : ℕ) → entry row i ≡ 0 → clear_row pivot_row row i ≡ row
unfolding clear_row
clear_row-zero pivot_row row i e = rw e refl

pub clear_row-add :
    (pivot_row row : Row) (i : ℕ)
    → entry row i ≢ 0
    → (clear_row pivot_row row i).a ≡ add_multiple row.a pivot_row.a (entry row i)
unfolding clear_row
clear_row-add pivot_row row i ne = rw (ne_test (entry row i) 0 ne) refl
