-- ===== src/Fec/Invert.antt =====
-- `gf_invert_matrix`: where it succeeds, its second matrix inverts the first.
use bi_tun.Base.{
  ℕ, zero, suc, ◌+◌, ◌-◌, ◌≤◌, ◌<◌, bit_xor, ◌≡◌, ◌≢◌, sym, ap, ap₂, ◌∙◌, arith, some, List, [],
  length, get_or, set, replicate, drop, ◌==◌, if◌then◌else◌, length-set, length-map,
  length-replicate, length-drop, get_or-set_self, get_or-set_ne, xor_self, xor-zero, ℕ_discrete,
  Option-cases, inl, inr,
}
use mathlib.Core.Path.{subst}
use bi_tun.Gf.{gf_mul, gf_div}
use bi_tun.Gf.Field.{zero-mul, mul-zero, one-mul, div-lt, mul-div_cancel}
use bi_tun.Gf.Buffers.{AllBytes, get_or-lt}
use bi_tun.Fec.{
  Row, no_row, row_at, entry, unit_row, find_pivot, swap_rows, scale, scale_pivot, clear_row,
  clear_others, invert_step, invert_loop, with_identity, gf_invert_matrix,
}
use bi_tun.Fec.Dot.{dot, dot-scale, dot-add_multiple, dot_delta}
use bi_tun.Fec.Rows.{
  AllBytes-scale, get_or-scale, AllBytes-add_multiple, length-add_multiple, get_or-add_multiple,
  AllBytes-unit_row, find_pivot-found, row_at-drop, length-clear_others, row_at-clear_others,
  length-swap_rows, row_at-swap_rows,
}
use bi_tun.Fec.Augmented.{
  ne_test, same_test, none-ne-some, some_inv, step-found, length-with_identity,
  row_at-with_identity, get_or-zeros, delta, delta-zero, Holds, Cleared,
}

module _ (n : ℕ) (x y : List ℕ) (x_bytes : AllBytes x) (y_bytes : AllBytes y) where
  scaled-Holds :
      (row : Row) (p : ℕ)
      → p < 256
      → Holds n x y row
      → Holds n x y (record { a = scale row.a p; inv = scale row.inv p })
  scaled-Holds row p k h = record {
    a_size = length-map row.a (λ b. gf_mul b p) ∙ h.a_size;
    inv_size = length-map row.inv (λ b. gf_mul b p) ∙ h.inv_size;
    a_bytes = AllBytes-scale row.a p k h.a_bytes;
    inv_bytes = AllBytes-scale row.inv p k h.inv_bytes;
    same =
        dot-scale row.a x p k h.a_bytes x_bytes
        ∙ ap (λ d. gf_mul d p) h.same
        ∙ sym (dot-scale row.inv y p k h.inv_bytes y_bytes);
  }

  cleared-Holds :
      (pivot_row row : Row) (i : ℕ)
      → Holds n x y pivot_row
      → Holds n x y row
      → Holds n x y (clear_row pivot_row row i)
  unfolding clear_row
  cleared-Holds pivot_row row i g h = elim (ℕ_discrete (entry row i) 0) [
    | yes z ↦ rw z h
    | no nz ↦ rw (ne_test (entry row i) 0 nz) (record {
      a_size = length-add_multiple row.a pivot_row.a (entry row i) ∙ h.a_size;
      inv_size = length-add_multiple row.inv pivot_row.inv (entry row i) ∙ h.inv_size;
      a_bytes =
          AllBytes-add_multiple row.a pivot_row.a (entry row i) (get_or-lt row.a i h.a_bytes)
            h.a_bytes g.a_bytes;
      inv_bytes =
          AllBytes-add_multiple row.inv pivot_row.inv (entry row i) (get_or-lt row.a i h.a_bytes)
            h.inv_bytes g.inv_bytes;
      same =
          dot-add_multiple row.a pivot_row.a x (entry row i) (get_or-lt row.a i h.a_bytes)
            (g.a_size ∙ sym h.a_size) h.a_bytes g.a_bytes x_bytes
          ∙ ap₂ (λ d e. bit_xor d (gf_mul e (entry row i))) h.same g.same
          ∙ sym (
              dot-add_multiple row.inv pivot_row.inv y (entry row i) (get_or-lt row.a i h.a_bytes)
                (g.inv_size ∙ sym h.inv_size) h.inv_bytes g.inv_bytes y_bytes);
    })
  ]

  entry-clear_row :
      (pivot_row row : Row) (i j : ℕ)
      → Holds n x y pivot_row
      → Holds n x y row
      → entry (clear_row pivot_row row i) j
        ≡ bit_xor (entry row j) (gf_mul (entry pivot_row j) (entry row i))
  unfolding clear_row
  entry-clear_row pivot_row row i j g h = elim (ℕ_discrete (entry row i) 0) [
    | yes z ↦
        rw z
          (sym (ap (bit_xor (entry row j)) (mul-zero (entry pivot_row j)) ∙ xor-zero (entry row j)))
    | no nz ↦
        rw (ne_test (entry row i) 0 nz)
          (get_or-add_multiple row.a pivot_row.a (entry row i) j (h.a_size ∙ sym g.a_size))
  ]

  -- The state before round `i`: `n` rows, each in the relation and cleared up to column `i`.
  pub record Ready (i : ℕ) (rows : List Row) : Type 0 where
    pub count : length rows ≡ n
    pub holds : (r : ℕ) → r < n → Holds n x y (row_at rows r)
    pub cleared : (r : ℕ) → r < n → Cleared i r (row_at rows r)

  pub swap-Ready :
      (i p : ℕ) (rows : List Row) → i ≤ p → p < n → Ready i rows → Ready i (swap_rows rows i p)
  swap-Ready i p rows le lt s =
      let at =
        λ (r : ℕ). row_at-swap_rows rows i p r (omega (arith, s.count)) (omega (arith, s.count)) in
      record {
        count = length-swap_rows rows i p ∙ s.count;
        holds = λ r h.
            rw (at r) (s.holds (if r == i then p else if r == p then i else r) (ground arith));
        cleared = λ r h j k. rw (at r) (
            s.cleared (if r == i then p else if r == p then i else r) (ground arith) j k
            ∙ ground arith);
      }

  set-Ready :
      (i : ℕ) (rows : List Row) (row : Row)
      → i < n
      → Ready i rows
      → Holds n x y row
      → Cleared i i row
      → Ready i (set rows i row)
  set-Ready i rows row lt s h c = record {
    count = length-set rows i row ∙ s.count;
    holds = λ r k. elim (ℕ_discrete i r) [
      | yes e ↦ rw (← e, get_or-set_self rows i row no_row (omega (arith, s.count))) h
      | no ne ↦ rw (get_or-set_ne rows i r row no_row ne) (s.holds r k)
    ];
    cleared = λ r k. elim (ℕ_discrete i r) [
      | yes e ↦ rw (← e, get_or-set_self rows i row no_row (omega (arith, s.count))) c
      | no ne ↦ rw (get_or-set_ne rows i r row no_row ne) (s.cleared r k)
    ];
  }

  pub scale-Ready :
      (i : ℕ) (rows : List Row)
      → i < n
      → entry (row_at rows i) i ≢ 0
      → Ready i rows
      → Ready i (scale_pivot rows i) × (entry (row_at (scale_pivot rows i) i) i ≡ 1)
  unfolding scale_pivot
  scale-Ready i rows lt ne s = elim (ℕ_discrete (entry (row_at rows i) i) 1) [
    | yes e ↦ rw e (s, e)
    | no n1 ↦
        let row = row_at rows i in
        let pivot = entry row i in
        let h = s.holds i lt in
        let pivot-lt = get_or-lt row.a i h.a_bytes in
        let p = gf_div 1 pivot in
        let scaled : Row = record { a = scale row.a p; inv = scale row.inv p } in
        rw (ne_test pivot 1 n1) (
          set-Ready i rows scaled lt s (scaled-Holds row p (div-lt pivot pivot-lt) h) (λ j k.
              get_or-scale row.a p j
              ∙ ap (λ b. gf_mul b p) (s.cleared i lt j k ∙ delta-zero i j k)
              ∙ zero-mul p
              ∙ sym (delta-zero i j k)),
          ap (λ (r : Row). entry r i)
                (get_or-set_self rows i scaled no_row (omega (arith, s.count)))
              ∙ get_or-scale row.a p i
              ∙ mul-div_cancel pivot pivot-lt ne,
        )
  ]

  pub other_row :
      (i r : ℕ) (rows : List Row)
      → r < length rows
      → r ≢ i
      → row_at (clear_others (row_at rows i) i 0 rows) r
        ≡ clear_row (row_at rows i) (row_at rows r) i
  other_row i r rows h ne =
      row_at-clear_others (row_at rows i) i 0 rows r h
      ∙ ap (λ b. if b then clear_row (row_at rows i) (row_at rows r) i else row_at rows r)
          (ne_test (0 + r) i (omega arith))

  pub pivot_kept :
      (i : ℕ) (rows : List Row)
      → i < length rows
      → row_at (clear_others (row_at rows i) i 0 rows) i ≡ row_at rows i
  pivot_kept i rows h =
      row_at-clear_others (row_at rows i) i 0 rows i h
      ∙ ap (λ b. if b then clear_row (row_at rows i) (row_at rows i) i else row_at rows i)
          (same_test (0 + i) i (omega arith))

  clear-Ready :
      (i : ℕ) (rows : List Row)
      → i < n
      → Ready i rows
      → entry (row_at rows i) i ≡ 1
      → Ready (suc i) (clear_others (row_at rows i) i 0 rows)
  clear-Ready i rows lt s one = record {
    count = length-clear_others (row_at rows i) i 0 rows ∙ s.count;
    holds = λ r k. elim (ℕ_discrete r i) [
      | yes e ↦ rw (e, pivot_kept i rows (omega (arith, s.count))) (s.holds i lt)
      | no ne ↦
          rw (other_row i r rows (omega (arith, s.count)) ne)
            (cleared-Holds (row_at rows i) (row_at rows r) i (s.holds i lt) (s.holds r k))
    ];
    cleared = λ r k j l. elim (ℕ_discrete r i) [
      | yes e ↦
          rw (e, pivot_kept i rows (omega (arith, s.count)))
            (elim (ℕ_discrete j i) [
              | yes f ↦ rw f (one ∙ ground arith)
              | no g ↦ s.cleared i lt j (omega arith)
            ])
      | no ne ↦ rw (other_row i r rows (omega (arith, s.count)) ne) (
          entry-clear_row (row_at rows i) (row_at rows r) i j (s.holds i lt) (s.holds r k)
          ∙ other_entry r j k l ne)
    ];
  }
    where
      other_entry :
          (r j : ℕ)
          → r < n
          → j < suc i
          → r ≢ i
          → bit_xor
              (entry (row_at rows r) j)
              (gf_mul (entry (row_at rows i) j) (entry (row_at rows r) i))
            ≡ delta r j
      other_entry r j k l ne = elim (ℕ_discrete j i) [
        | yes f ↦ rw f (
            ap (λ b. bit_xor (entry (row_at rows r) i) (gf_mul b (entry (row_at rows r) i))) one
            ∙ ap (bit_xor (entry (row_at rows r) i)) (
                one-mul (entry (row_at rows r) i)
                  (get_or-lt (row_at rows r).a i (s.holds r k).a_bytes))
            ∙ xor_self (entry (row_at rows r) i)
            ∙ ground arith)
        | no g ↦
            ap (λ b. bit_xor (entry (row_at rows r) j) (gf_mul b (entry (row_at rows r) i)))
              (s.cleared i lt j (omega arith) ∙ delta-zero i j (omega arith))
            ∙ ap (bit_xor (entry (row_at rows r) j)) (zero-mul (entry (row_at rows r) i))
            ∙ xor-zero (entry (row_at rows r) j)
            ∙ s.cleared r k j (omega arith)
      ]

  pub step-Ready :
      (i : ℕ) (rows next : List Row)
      → i < n
      → Ready i rows
      → invert_step rows i ≡ some next
      → Ready (suc i) next
  unfolding invert_step
  step-Ready i rows next lt s e = elim (Option-cases (find_pivot (drop i rows) i i)) [
    | inl missing ↦ absurd (none-ne-some (rw (missing, invert_step) at e))
    | inr (p, found) ↦
        let (le, below, nonzero) = find_pivot-found (drop i rows) i i p found in
        let p-lt : p < n = omega (arith, s.count, length-drop i rows) in
        let swapped = swap-Ready i p rows le p-lt s in
        let moved =
          row_at-swap_rows rows i p i (omega (arith, s.count)) (omega (arith, s.count))
          ∙ ap (row_at rows) {x = if i == i then p else if i == p then i else i} {y = p}
              (ground arith) in
        let old =
          row_at-drop rows i (p - i) ∙ ap (row_at rows) {x = i + (p - i)} {y = p} (omega arith) in
        let (scaled, one) =
          scale-Ready i (swap_rows rows i p) lt
            (λ z. nonzero (ap (λ (r : Row). entry r i) (old ∙ sym moved) ∙ z)) swapped in
        subst (Ready (suc i)) (some_inv (sym (step-found i p rows found) ∙ e))
          (clear-Ready i (scale_pivot (swap_rows rows i p) i) lt scaled one)
  ]

  loop-Ready :
      (left i : ℕ) (rows out : List Row)
      → left + i ≡ n
      → Ready i rows
      → invert_loop left i rows ≡ some out
      → Ready n out
  unfolding invert_loop
  loop-Ready zero i rows out sum s e =
      subst (λ m. Ready m out) {x = i} {y = n} (omega arith) (subst (Ready i) (some_inv e) s)
  loop-Ready (suc left) i rows out sum s e = elim (Option-cases (invert_step rows i)) [
    | inl stuck ↦ absurd (none-ne-some (rw (stuck, invert_loop) at e))
    | inr (next, stepped) ↦
        loop-Ready left (i + 1) next out (omega arith)
          (subst (λ m. Ready m next) {x = suc i} {y = i + 1} (omega arith)
            (step-Ready i rows next (omega arith) s stepped))
          (rw (stepped, invert_loop) at e)
  ]

  pub start-Ready :
      (matrix : List (List ℕ))
      → length matrix ≡ n
      → length y ≡ n
      → ((r : ℕ)
          → r < n
          → (length (get_or matrix r []) ≡ n)
            × AllBytes (get_or matrix r [])
            × (dot (get_or matrix r []) x ≡ get_or y r 0))
      → Ready 0 (with_identity n 0 matrix)
  start-Ready matrix e size given = record {
    count = length-with_identity n 0 matrix ∙ e;
    holds = λ r h. rw (row_at-with_identity n 0 matrix r (omega (arith, e))) (record {
      a_size = (given r h).0;
      inv_size = length-set {A = ℕ} (replicate n 0) (0 + r) 1 ∙ length-replicate {A = ℕ} n 0;
      a_bytes = (given r h).1;
      inv_bytes = AllBytes-unit_row n (0 + r);
      same = (given r h).2 ∙ sym (unit-dot r h size);
    });
    cleared = λ r h j l. absurd (omega arith);
  }
    where
      unit-dot : (r : ℕ) → r < n → length y ≡ n → dot (unit_row n (0 + r)) y ≡ get_or y r 0
      unit-dot r h size =
          ap (λ k. dot (unit_row n k) y) {x = 0 + r} {y = r} (omega arith)
          ∙ dot_delta (unit_row n r) y r
              (length-set {A = ℕ} (replicate n 0) r 1 ∙ length-replicate {A = ℕ} n 0 ∙ sym size)
              (omega arith) y_bytes
              (get_or-set_self (replicate n 0) r 1 0 (omega (arith, length-replicate {A = ℕ} n 0)))
              (λ j lt ne.
                get_or-set_ne (replicate n 0) r j 1 0 (λ e. ne (sym e)) ∙ get_or-zeros n j)

-- Where `gf_invert_matrix` succeeds, row `j` of its second matrix has `n` entries and recovers entry `j` of any column
-- from the products of the first matrix with it.
pub invert_recovers :
    (n : ℕ) (matrix : List (List ℕ)) (x y : List ℕ) (out : List Row)
    → AllBytes x
    → AllBytes y
    → length x ≡ n
    → length y ≡ n
    → length matrix ≡ n
    → ((r : ℕ)
        → r < n
        → (length (get_or matrix r []) ≡ n)
          × AllBytes (get_or matrix r [])
          × (dot (get_or matrix r []) x ≡ get_or y r 0))
    → gf_invert_matrix matrix n ≡ some out
    → (j : ℕ) → j < n
    → (length (row_at out j).inv ≡ n) × (dot (row_at out j).inv y ≡ get_or x j 0)
unfolding gf_invert_matrix
invert_recovers n matrix x y out hx hy lx ly lm given e j h =
    let s =
      loop-Ready n x y hx hy n 0 (with_identity n 0 matrix) out (omega arith)
        (start-Ready n x y hx hy matrix lm ly given) e in
    let row = row_at out j in
    (
      (s.holds j h).inv_size,
      sym (s.holds j h).same
          ∙ dot_delta row.a x j ((s.holds j h).a_size ∙ sym lx) (omega arith) hx
              (s.cleared j h j h ∙ ground arith)
              (λ k lt ne. s.cleared j h k (omega arith) ∙ ground arith),
    )
