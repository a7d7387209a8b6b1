-- ===== src/Fec/Rows.antt =====
-- What each row operation does, row by row.
use bi_tun.Base.{
  ℕ, zero, suc, ◌+◌, ◌≤◌, ◌<◌, bit_xor, ◌≡◌, ◌≢◌, refl, sym, ap, ◌∙◌, arith, some, List, [], ◌∷◌,
  length, get_or, set, replicate, drop, ◌==◌, ◌!=◌, if◌then◌else◌, length-set, get_or-set_self,
  get_or-set_ne, xor-lt-byte, xor-zero, ℕ_discrete, ◌-◌,
}
use bi_tun.Gf.{gf_mul}
use bi_tun.Gf.Field.{mul-lt, zero-mul}
use bi_tun.Gf.Buffers.{AllBytes}
use bi_tun.Fec.{
  Row, no_row, row_at, entry, unit_row, find_pivot, swap_rows, scale, add_multiple, clear_row,
  clear_others,
}

pub AllBytes-scale : (xs : List ℕ) (p : ℕ) → p < 256 → AllBytes xs → AllBytes (scale xs p)
AllBytes-scale [] p k h = tt
AllBytes-scale (x ∷ xs) p k h = (mul-lt x p h.0 k, AllBytes-scale xs p k h.1)

pub get_or-scale : (xs : List ℕ) (p j : ℕ) → get_or (scale xs p) j 0 ≡ gf_mul (get_or xs j 0) p
get_or-scale [] p j = sym (zero-mul p)
get_or-scale (x ∷ xs) p zero = refl
get_or-scale (x ∷ xs) p (suc j) = get_or-scale xs p j

pub AllBytes-add_multiple :
    (xs ys : List ℕ) (f : ℕ) → f < 256 → AllBytes xs → AllBytes ys → AllBytes (add_multiple xs ys f)
unfolding add_multiple
AllBytes-add_multiple [] ys f k h g = tt
AllBytes-add_multiple (x ∷ xs) [] f k h g = h
AllBytes-add_multiple (x ∷ xs) (y ∷ ys) f k h g =
    (xor-lt-byte x (gf_mul y f) h.0 (mul-lt y f g.0 k), AllBytes-add_multiple xs ys f k h.1 g.1)

pub length-add_multiple : (xs ys : List ℕ) (f : ℕ) → length (add_multiple xs ys f) ≡ length xs
unfolding add_multiple
length-add_multiple [] ys f = refl
length-add_multiple (x ∷ xs) [] f = refl
length-add_multiple (x ∷ xs) (y ∷ ys) f = ap suc (length-add_multiple xs ys f)

pub get_or-add_multiple :
    (xs ys : List ℕ) (f j : ℕ)
    → length xs ≡ length ys
    → get_or (add_multiple xs ys f) j 0 ≡ bit_xor (get_or xs j 0) (gf_mul (get_or ys j 0) f)
unfolding add_multiple
get_or-add_multiple [] [] f j e = sym (ap (bit_xor 0) (zero-mul f) ∙ xor-zero 0)
get_or-add_multiple [] (y ∷ ys) f j e = absurd (omega arith)
get_or-add_multiple (x ∷ xs) [] f j e = absurd (omega arith)
get_or-add_multiple (x ∷ xs) (y ∷ ys) f zero e = refl
get_or-add_multiple (x ∷ xs) (y ∷ ys) f (suc j) e = get_or-add_multiple xs ys f j (omega arith)

pub AllBytes-unit_row : (n i : ℕ) → AllBytes (unit_row n i)
AllBytes-unit_row n i = written (replicate n 0) i (zeros n)
  where
    zeros : (n : ℕ) → AllBytes (replicate n 0)
    zeros zero = tt
    zeros (suc n) = (omega arith, zeros n)

    written : (xs : List ℕ) (i : ℕ) → AllBytes xs → AllBytes (set xs i 1)
    written [] i h = tt
    written (x ∷ xs) zero h = (omega arith, h.1)
    written (x ∷ xs) (suc i) h = (h.0, written xs i h.1)

-- The search stops at the first row, from `p` on, whose entry in column `i` is not 0.
pub find_pivot-found :
    (rows : List Row) (i p q : ℕ)
    → find_pivot rows i p ≡ some q
    → (p ≤ q) × (q < p + length rows) × (entry (row_at rows (q - p)) i ≢ 0)
unfolding find_pivot
find_pivot-found [] i p q e = absurd (ground arith)
find_pivot-found (row ∷ rest) i p q e = elim (ℕ_discrete (entry row i) 0) [
  | yes z ↦
      let ih = find_pivot-found rest i (p + 1) q (ground arith) in
      (
        omega arith,
        omega arith,
        λ n. ih.2 (
            ap (λ k. entry (row_at (row ∷ rest) k) i) {x = suc (q - (p + 1))} {y = q - p}
              (omega arith)
            ∙ n),
      )
  | no nz ↦
      let here : p ≡ q = ground arith in
      (
        omega arith,
        omega arith,
        λ n. nz (ap (λ k. entry (row_at (row ∷ rest) k) i) {x = 0} {y = q - p} (omega arith) ∙ n),
      )
]

pub row_at-drop : (rows : List Row) (i k : ℕ) → row_at (drop i rows) k ≡ row_at rows (i + k)
row_at-drop rows zero k = ap (row_at rows) {x = k} {y = 0 + k} (omega arith)
row_at-drop [] (suc i) k = refl
row_at-drop (row ∷ rows) (suc i) k =
    row_at-drop rows i k ∙ ap (row_at (row ∷ rows)) {x = suc (i + k)} {y = suc i + k} (omega arith)

pub length-clear_others :
    (pivot_row : Row) (i r : ℕ) (rows : List Row)
    → length (clear_others pivot_row i r rows) ≡ length rows
unfolding clear_others
length-clear_others pivot_row i r [] = refl
length-clear_others pivot_row i r (row ∷ rows) =
    ap suc (length-clear_others pivot_row i (r + 1) rows)

pub row_at-clear_others :
    (pivot_row : Row) (i r : ℕ) (rows : List Row) (k : ℕ)
    → k < length rows
    → row_at (clear_others pivot_row i r rows) k
      ≡ (if r + k != i then clear_row pivot_row (row_at rows k) i else row_at rows k)
unfolding clear_others
row_at-clear_others pivot_row i r [] k h = absurd (omega arith)
row_at-clear_others pivot_row i r (row ∷ rows) zero h =
    ap (λ m. if m != i then clear_row pivot_row row i else row) {x = r} {y = r + 0} (omega arith)
row_at-clear_others pivot_row i r (row ∷ rows) (suc k) h =
    row_at-clear_others pivot_row i (r + 1) rows k (omega arith)
    ∙ ap (λ m. if m != i then clear_row pivot_row (row_at rows k) i else row_at rows k)
        {x = r + 1 + k} {y = r + suc k} (omega arith)

pub length-swap_rows : (rows : List Row) (i p : ℕ) → length (swap_rows rows i p) ≡ length rows
unfolding swap_rows
length-swap_rows rows i p = ground (
  arith,
  length-set rows i (row_at rows p),
  length-set (set rows i (row_at rows p)) p (row_at rows i),
)

pub row_at-swap_rows :
    (rows : List Row) (i p r : ℕ)
    → i < length rows
    → p < length rows
    → row_at (swap_rows rows i p) r ≡ row_at rows (if r == i then p else if r == p then i else r)
unfolding swap_rows
row_at-swap_rows rows i p r hi hp = ground (
  arith,
  get_or-set_self rows i (row_at rows p) no_row,
  get_or-set_ne rows i r (row_at rows p) no_row,
  length-set rows i (row_at rows p),
  get_or-set_self (set rows i (row_at rows p)) p (row_at rows i) no_row,
  get_or-set_ne (set rows i (row_at rows p)) p r (row_at rows i) no_row,
)
