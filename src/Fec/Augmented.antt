-- ===== src/Fec/Augmented.antt =====
-- The matrix beside its inverse, as `gf_invert_matrix` starts with it, and what a row stands for.
use bi_tun.Base.{
  ℕ, zero, suc, ◌+◌, ◌<◌, ◌≡◌, ◌≢◌, refl, ap, ◌∙◌, arith, true, false, none, some, List, [], ◌∷◌,
  length, get_or, replicate, drop, ◌==◌, ◌!=◌, if◌then◌else◌,
}
use bi_tun.Gf.Buffers.{AllBytes}
use bi_tun.Fec.{
  Row, row_at, entry, unit_row, find_pivot, swap_rows, scale_pivot, clear_others, invert_step,
  with_identity,
}
use bi_tun.Fec.Dot.{dot}

pub ne_test : (a b : ℕ) → a ≢ b → (a != b) ≡ true
ne_test a b h = ground arith

pub same_test : (a b : ℕ) → a ≡ b → (a != b) ≡ false
same_test a b h = ground arith

pub none-ne-some {ℓ} : {A : Type ℓ} {a : A} → none ≡ some a → ⊥
none-ne-some e = cc

pub some_inv {ℓ} : {A : Type ℓ} {a b : A} → some a ≡ some b → a ≡ b
some_inv e = cc

pub step-found :
    (i p : ℕ) (rows : List Row)
    → find_pivot (drop i rows) i i ≡ some p
    → invert_step rows i
      ≡ some (
          clear_others
            (row_at (scale_pivot (swap_rows rows i p) i) i)
            i
            0
            (scale_pivot (swap_rows rows i p) i))
unfolding invert_step
step-found i p rows found = rw (found, invert_step)

pub length-with_identity :
    (n i : ℕ) (matrix : List (List ℕ)) → length (with_identity n i matrix) ≡ length matrix
unfolding with_identity
length-with_identity n i [] = refl
length-with_identity n i (a ∷ rest) = ap suc (length-with_identity n (i + 1) rest)

pub row_at-with_identity :
    (n i : ℕ) (matrix : List (List ℕ)) (r : ℕ)
    → r < length matrix
    → row_at (with_identity n i matrix) r
      ≡ record { a = get_or matrix r []; inv = unit_row n (i + r) }
unfolding with_identity
row_at-with_identity n i [] r h = absurd (omega arith)
row_at-with_identity n i (a ∷ rest) zero h =
    ap (λ k. record { a = a; inv = unit_row n k }) {x = i} {y = i + 0} (omega arith)
row_at-with_identity n i (a ∷ rest) (suc r) h =
    row_at-with_identity n (i + 1) rest r (omega arith)
    ∙ ap (λ k. record { a = get_or rest r []; inv = unit_row n k }) {x = i + 1 + r} {y = i + suc r}
        (omega arith)

pub get_or-zeros : (n j : ℕ) → get_or {A = ℕ} (replicate n 0) j 0 ≡ 0
get_or-zeros zero j = refl
get_or-zeros (suc n) zero = refl
get_or-zeros (suc n) (suc j) = get_or-zeros n j

abbrev pub delta : ℕ → ℕ → ℕ
delta r j = if r == j then 1 else 0

pub delta-zero : (i j : ℕ) → j < i → delta i j ≡ 0
delta-zero i j h = ground arith

-- `x` stands for the unknown column and `y` for the known one: a row of `A` applied to `x` is the
-- row of `A_inv` applied to `y`.
pub record Holds (n : ℕ) (x y : List ℕ) (row : Row) : Type 0 where
  pub a_size : length row.a ≡ n
  pub inv_size : length row.inv ≡ n
  pub a_bytes : AllBytes row.a
  pub inv_bytes : AllBytes row.inv
  pub same : dot row.a x ≡ dot row.inv y

-- Row `r` is a row of the identity in its first `i` columns.
abbrev pub Cleared : ℕ → ℕ → Row → Type 0
Cleared i r row = (j : ℕ) → j < i → entry row j ≡ delta r j
