-- ===== src/Fec/Singular.antt =====
-- Where `gf_invert_matrix` fails, the matrix sends a column that is not 0 to 0.
use bi_tun.Base.{
  ℕ, zero, suc, ◌+◌, ◌-◌, ◌≤◌, ◌<◌, bit_xor, ◌≡◌, ◌≢◌, sym, ap, ap₂, ◌∙◌, arith, none, some, List,
  [], length, get_or, get_or-set_self, get_or-set_ne, replicate, drop, ◌==◌, if◌then◌else◌, ltb,
  dec_lt, length-replicate, tabulate, length-tabulate, get_or-tabulate, length-drop, xor_self,
  xor-zero, ℕ_discrete, Option-cases, inl, inr,
}
use mathlib.Core.Path.{subst}
use bi_tun.Gf.{gf_mul, gf_div}
use bi_tun.Gf.Field.{zero-mul, mul-zero, mul-one, one-mul, div-lt}
use bi_tun.Gf.Cauchy.{mul-zero_inv, inv-ne_zero}
use bi_tun.Gf.Buffers.{AllBytes, get_or-lt}
use bi_tun.Fec.{
  Row, no_row, row_at, entry, find_pivot, swap_rows, scale, scale_pivot, clear_row, clear_others,
  invert_step, invert_loop, with_identity, gf_invert_matrix,
}
use bi_tun.Fec.Dot.{dot, dot-lt, dot-scale, dot-add_multiple}
use bi_tun.Fec.Rows.{find_pivot-found, row_at-drop, row_at-swap_rows}
use bi_tun.Fec.Invert.{
  Ready, other_row, pivot_kept, swap-Ready, scale-Ready, step-Ready, start-Ready,
}
use bi_tun.Fec.Augmented.{
  delta, none-ne-some, some_inv, step-found, row_at-with_identity, get_or-zeros,
}
use bi_tun.Fec.Stuck.{
  find_pivot-none, dot_none, dot_two, scale_pivot_same, scale_pivot-set, step_missing, step_stuck,
  clear_row-zero, clear_row-add,
}

-- A column that `next` sends to 0 is one that `rows` sends to 0.
Back : ℕ → List Row → List Row → Type 0
Back n rows next =
    (x : List ℕ)
    → AllBytes x
    → ((r : ℕ) → r < n → dot (row_at next r).a x ≡ 0)
    → (r : ℕ) → r < n
    → dot (row_at rows r).a x ≡ 0

-- A column with an entry 1 that the rows send to 0.
pub record Kernel (n : ℕ) (row : ℕ → List ℕ) : Type 0 where
  pub vector : List ℕ
  pub size : length vector ≡ n
  pub bytes : AllBytes vector
  pub place : ℕ
  pub inside : place < n
  pub unit : get_or vector place 0 ≡ 1
  pub sent : (r : ℕ) → r < n → dot (row r) vector ≡ 0

module _ (n : ℕ) (x y : List ℕ) (x_bytes : AllBytes x) (y_bytes : AllBytes y) where
  abbrev State : ℕ → List Row → Type 0
  State = Ready n x y x_bytes y_bytes

  -- The row found is swapped to place `i`, and its entry there is not 0.
  pivot_at :
      (i p : ℕ) (rows : List Row)
      → i < n
      → State i rows
      → find_pivot (drop i rows) i i ≡ some p
      → (i ≤ p) × (p < n) × (entry (row_at (swap_rows rows i p) i) i ≢ 0)
  pivot_at i p rows lt s found =
      let (le, below, nonzero) = find_pivot-found (drop i rows) i i p found in
      let p-lt : p < n = omega (arith, s.count, length-drop i rows) in
      let moved =
        row_at-swap_rows rows i p i (omega (arith, s.count)) (omega (arith, s.count))
        ∙ ap (row_at rows) {x = if i == i then p else if i == p then i else i} {y = p}
            (ground arith) in
      let old =
        row_at-drop rows i (p - i) ∙ ap (row_at rows) {x = i + (p - i)} {y = p} (omega arith) in
      (le, p-lt, λ z. nonzero (ap (λ (r : Row). entry r i) (old ∙ sym moved) ∙ z))

  swap-Back :
      (i p : ℕ) (rows : List Row) → i < n → p < n → State i rows → Back n rows (swap_rows rows i p)
  unfolding Back
  swap-Back i p rows hi hp s z zb zero_at r h =
      let other = if r == i then p else if r == p then i else r in
      let at = row_at-swap_rows rows i p other (omega (arith, s.count)) (omega (arith, s.count)) in
      let there : (if other == i then p else if other == p then i else other) ≡ r = ground arith in
      ap (λ k. dot (row_at rows k).a z) (sym there)
      ∙ ap (λ (w : Row). dot w.a z) (sym at)
      ∙ zero_at other (ground arith)

  scale-Back :
      (i : ℕ) (rows : List Row)
      → i < n
      → entry (row_at rows i) i ≢ 0
      → State i rows
      → Back n rows (scale_pivot rows i)
  unfolding Back
  scale-Back i rows lt ne s z zb zero_at r h = elim (ℕ_discrete (entry (row_at rows i) i) 1) [
    | yes one ↦ ap (λ w. dot (row_at w r).a z) (sym (scale_pivot_same rows i one)) ∙ zero_at r h
    | no n1 ↦
        let row = row_at rows i in
        let c = gf_div 1 (entry row i) in
        let pivot-lt = get_or-lt row.a i (s.holds i lt).a_bytes in
        let scaled : Row = record { a = scale row.a c; inv = scale row.inv c } in
        let there = scale_pivot-set rows i n1 in
        elim (ℕ_discrete i r) [
          | no ir ↦
              ap (λ (w : Row). dot w.a z)
                (sym (ap (λ w. row_at w r) there ∙ get_or-set_ne rows i r scaled no_row ir))
              ∙ zero_at r h
          | yes same ↦ rw (← same) (
              mul-zero_inv (dot row.a z) c (dot-lt row.a z (s.holds i lt).a_bytes zb)
                (div-lt (entry row i) pivot-lt) (inv-ne_zero (entry row i) pivot-lt ne)
                (sym (dot-scale row.a z c (div-lt (entry row i) pivot-lt) (s.holds i lt).a_bytes zb)
                  ∙ ap (λ (w : Row). dot w.a z)
                      (sym (
                        ap (λ w. row_at w i) there
                        ∙ get_or-set_self rows i scaled no_row (omega (arith, s.count))))
                  ∙ zero_at i lt))
        ]
  ]

  clear-Back :
      (i : ℕ) (rows : List Row)
      → i < n
      → State i rows
      → Back n rows (clear_others (row_at rows i) i 0 rows)
  unfolding Back
  clear-Back i rows lt s z zb zero_at r h = elim (ℕ_discrete r i) [
    | yes same ↦ rw same pivot_zero
    | no ne ↦
        let row = row_at rows r in
        let pivot_row = row_at rows i in
        let f = entry row i in
        let after : dot (clear_row pivot_row row i).a z ≡ 0 =
          ap (λ (w : Row). dot w.a z)
            (sym (other_row n x y x_bytes y_bytes i r rows (omega (arith, s.count)) ne))
          ∙ zero_at r h in
        elim (ℕ_discrete f 0) [
          | yes z0 ↦ ap (λ (w : Row). dot w.a z) (sym (clear_row-zero pivot_row row i z0)) ∙ after
          | no nz ↦
              sym (
                ap (bit_xor (dot row.a z)) (ap (λ k. gf_mul k f) pivot_zero ∙ zero-mul f)
                ∙ xor-zero (dot row.a z))
              ∙ sym (
                  dot-add_multiple row.a pivot_row.a z f (get_or-lt row.a i (s.holds r h).a_bytes)
                    ((s.holds i lt).a_size ∙ sym (s.holds r h).a_size) (s.holds r h).a_bytes
                    (s.holds i lt).a_bytes zb)
              ∙ ap (λ w. dot w z) (sym (clear_row-add pivot_row row i nz))
              ∙ after
        ]
  ]
    where
      pivot_zero : dot (row_at rows i).a z ≡ 0
      pivot_zero =
          ap (λ (w : Row). dot w.a z)
            (sym (pivot_kept n x y x_bytes y_bytes i rows (omega (arith, s.count))))
          ∙ zero_at i lt

  step-Back :
      (i : ℕ) (rows next : List Row)
      → i < n
      → State i rows
      → invert_step rows i ≡ some next
      → Back n rows next
  unfolding Back
  step-Back i rows next lt s e z zb zero_at = elim (Option-cases (find_pivot (drop i rows) i i)) [
    | inl missing ↦ absurd (none-ne-some (sym (step_missing i rows missing) ∙ e))
    | inr (p, found) ↦
        let (le, p-lt, nonzero) = pivot_at i p rows lt s found in
        let swapped = swap-Ready n x y x_bytes y_bytes i p rows le p-lt s in
        let sw = swap_rows rows i p in
        let (scaled, one) = scale-Ready n x y x_bytes y_bytes i sw lt nonzero swapped in
        let same = some_inv (sym e ∙ step-found i p rows found) in
        swap-Back i p rows lt p-lt s z zb (
          scale-Back i sw lt nonzero swapped z zb (
            clear-Back i (scale_pivot sw i) lt scaled z zb
              (λ r h. ap (λ w. dot (row_at w r).a z) (sym same) ∙ zero_at r h)))
  ]

  -- The column that a failing round `i` leaves.
  abbrev column : ℕ → List Row → ℕ → ℕ
  column i rows c = if ltb c i then entry (row_at rows c) i else if c == i then 1 else 0

  stuck_column :
      (i : ℕ) (rows : List Row)
      → i < n
      → State i rows
      → invert_step rows i ≡ none
      → (r : ℕ) → r < n
      → dot (row_at rows r).a (tabulate n 0 (column i rows)) ≡ 0
  stuck_column i rows lt s e r h = elim (dec_lt r i) [
    | yes above ↦
        dot_two row.a z r i above (omega (arith, size)) (omega (arith, z-size))
          (λ j lj nr ni. others j (omega (arith, lj, z-size)) (λ _. nr) ni)
        ∙ ap₂ bit_xor
            (ap₂ gf_mul (s.cleared r h r above ∙ delta_self r) (value r h ∙ above_value r above)
              ∙ one-mul (entry row i) entry-lt)
            (ap (gf_mul (entry row i)) (value i lt ∙ at_value) ∙ mul-one (entry row i) entry-lt)
        ∙ xor_self (entry row i)
    | no below ↦
        let blank : entry row i ≡ 0 =
          ap (λ k. entry (row_at rows k) i) {x = r} {y = i + (r - i)} (omega arith)
          ∙ ap (λ (w : Row). entry w i) (sym (row_at-drop rows i (r - i)))
          ∙ find_pivot-none (drop i rows) i i (r - i) (step_stuck i rows e)
              (omega (arith, length-drop i rows, s.count)) in
        dot_none row.a z (λ j lj. elim (ℕ_discrete j i) [
          | yes at ↦
              ap (λ k. gf_mul (get_or row.a k 0) (get_or z j 0)) at
              ∙ ap (λ k. gf_mul k (get_or z j 0)) blank
              ∙ zero-mul (get_or z j 0)
          | no ni ↦ others j (omega (arith, lj, z-size)) (λ left. omega arith) ni
        ])
  ]
    where
      row : Row
      row = row_at rows r

      z : List ℕ
      z = tabulate n 0 (column i rows)

      size : length row.a ≡ n
      size = (s.holds r h).a_size

      z-size : length z ≡ n
      z-size = length-tabulate n 0 (column i rows)

      entry-lt : entry row i < 256
      entry-lt = get_or-lt row.a i (s.holds r h).a_bytes

      value : (j : ℕ) → j < n → get_or z j 0 ≡ column i rows j
      value j k =
          get_or-tabulate n 0 (column i rows) j 0 k
          ∙ ap (column i rows) {x = 0 + j} {y = j} (omega arith)

      above_value : (j : ℕ) → j < i → column i rows j ≡ entry (row_at rows j) i
      above_value j k = ground arith

      at_value : column i rows i ≡ 1
      at_value = ground arith

      delta_self : (k : ℕ) → delta k k ≡ 1
      delta_self k = ground arith

      off : (j : ℕ) → j ≢ r → delta r j ≡ 0
      off j ne = ground arith

      beyond : (j : ℕ) → ¬ (j < i) → j ≢ i → column i rows j ≡ 0
      beyond j a b = ground arith

      others :
          (j : ℕ) → j < n → (j < i → j ≢ r) → j ≢ i → gf_mul (get_or row.a j 0) (get_or z j 0) ≡ 0
      others j lj nr ni = elim (dec_lt j i) [
        | yes left ↦
            ap (λ k. gf_mul k (get_or z j 0)) (s.cleared r h j left ∙ off j (nr left))
            ∙ zero-mul (get_or z j 0)
        | no right ↦
            ap (gf_mul (get_or row.a j 0)) (value j lj ∙ beyond j right ni)
            ∙ mul-zero (get_or row.a j 0)
      ]

  column_bytes :
      (i : ℕ) (rows : List Row)
      → i < n
      → State i rows
      → (left j : ℕ) → left + j ≤ n
      → AllBytes (tabulate left j (column i rows))
  column_bytes i rows lt s zero j h = tt
  column_bytes i rows lt s (suc left) j h = (
    ground (arith, get_or-lt (row_at rows j).a i (s.holds j (omega arith)).a_bytes),
    column_bytes i rows lt s left (j + 1) (omega arith),
  )

  loop-Kernel :
      (left i : ℕ) (rows : List Row)
      → left + i ≡ n
      → State i rows
      → invert_loop left i rows ≡ none
      → Kernel n (λ r. (row_at rows r).a)
  unfolding invert_loop Back
  loop-Kernel zero i rows sum s e = absurd (none-ne-some (sym e))
  loop-Kernel (suc left) i rows sum s e = elim (Option-cases (invert_step rows i)) [
    | inl stuck ↦
        let lt : i < n = omega arith in
        record {
          vector = tabulate n 0 (column i rows);
          size = length-tabulate n 0 (column i rows);
          bytes = column_bytes i rows lt s n 0 (omega arith);
          place = i;
          inside = lt;
          unit =
              get_or-tabulate n 0 (column i rows) i 0 lt
              ∙ ap (column i rows) {x = 0 + i} {y = i} (omega arith)
              ∙ ground arith;
          sent = stuck_column i rows lt s stuck;
        }
    | inr (next, stepped) ↦
        let lt : i < n = omega arith in
        let ready =
          subst (λ m. State m next) {x = suc i} {y = i + 1} (omega arith)
            (step-Ready n x y x_bytes y_bytes i rows next lt s stepped) in
        let k =
          loop-Kernel left (i + 1) next (omega arith) ready (rw (stepped, invert_loop) at e) in
        record {
          vector = k.vector;
          size = k.size;
          bytes = k.bytes;
          place = k.place;
          inside = k.inside;
          unit = k.unit;
          sent = step-Back i rows next lt s stepped k.vector k.bytes k.sent;
        }
  ]

zero_bytes : (n : ℕ) → AllBytes (replicate n 0)
zero_bytes zero = tt
zero_bytes (suc n) = (omega arith, zero_bytes n)

-- Where `gf_invert_matrix` returns -1 on an `n` by `n` matrix, some column of bytes with an entry 1
-- is sent to 0 by every row.
pub invert_singular :
    (n : ℕ) (matrix : List (List ℕ))
    → length matrix ≡ n
    → ((r : ℕ) → r < n → (length (get_or matrix r []) ≡ n) × AllBytes (get_or matrix r []))
    → gf_invert_matrix matrix n ≡ none
    → Kernel n (λ r. get_or matrix r [])
unfolding gf_invert_matrix
invert_singular n matrix size given e =
    let zs : List ℕ = replicate n 0 in
    let zb = zero_bytes n in
    let sent_zero : (row : List ℕ) → dot row zs ≡ 0 = λ row.
      dot_none row zs
        (λ j _. ap (gf_mul (get_or row j 0)) (get_or-zeros n j) ∙ mul-zero (get_or row j 0)) in
    let start = start-Ready n zs zs zb zb matrix size (length-replicate {A = ℕ} n 0) (λ r h.
      ((given r h).0, (given r h).1, sent_zero (get_or matrix r []) ∙ sym (get_or-zeros n r))) in
    let k = loop-Kernel n zs zs zb zb n 0 (with_identity n 0 matrix) (omega arith) start e in
    record {
      vector = k.vector;
      size = k.size;
      bytes = k.bytes;
      place = k.place;
      inside = k.inside;
      unit = k.unit;
      sent = λ r h.
          ap (λ (w : Row). dot w.a k.vector)
            (sym (row_at-with_identity n 0 matrix r (omega (arith, size))))
          ∙ k.sent r h;
    }
