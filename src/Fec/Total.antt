-- ===== src/Fec/Total.antt =====
-- The decoder of src/fec.c never fails on enough blocks of one group: the matrix of any `n`
-- distinct indices can be inverted.
use bi_tun.Base.{
  ℕ, zero, suc, ◌+◌, ◌≤◌, ◌<◌, bit_xor, ◌≡◌, ◌≢◌, refl, sym, ap, ap₂, ◌∙◌, arith, true, none, some,
  List, [], length, get_or, ltb, tabulate, length-tabulate, xor-lt-byte, Bool-cases, Option-cases,
  ltb→lt, ltb-false→le, ℕ_discrete, inl, inr,
}
use bi_tun.Gf.{gf_mul}
use bi_tun.Gf.Field.{mul_comm}
use bi_tun.Gf.Buffers.{AllBytes, get_or-lt}
use mathlib.Core.Path.{subst}
use bi_tun.Gf.Cauchy.{inv}
use bi_tun.Gf.Fractions.{All, Distinct, fractions}
use bi_tun.Gf.Poles.{has, Known, Known-vanish}
use bi_tun.Fec.{Block, coefficient, decode_row, decode_matrix, gf_invert_matrix, fec_decode}
use bi_tun.Fec.Dot.{dot, dot_delta}
use bi_tun.Fec.Combine.{
  AreBlocks, decode_row-coefficient, get_or-decode_row, length-decode_row, AllBytes-decode_row,
}
use bi_tun.Fec.Singular.{invert_singular}
use bi_tun.Fec.Decode.{matrix_at, tabulate_entries, recover_all}
use bi_tun.Fec.Group.{Received, length-decode_matrix}

-- The numbers from `j` on.
abbrev range : ℕ → ℕ → List ℕ
range left j = tabulate left j (λ k. k)

-- The indices of the first blocks received, `left` of them from `i` on.
abbrev pub chosen : ℕ → ℕ → List ℕ → List ℕ
chosen left i indices = tabulate left i (λ k. get_or indices k 0)

All-tabulate {ℓ} :
    (P : ℕ → Type ℓ) (f : ℕ → ℕ) (n left j : ℕ)
    → left + j ≤ n
    → ((k : ℕ) → k < n → P (f k))
    → All P (tabulate left j f)
All-tabulate P f n zero j h p = tt
All-tabulate P f n (suc left) j h p =
    (p j (omega arith), All-tabulate P f n left (j + 1) (omega arith) p)

All-range {ℓ} :
    (P : ℕ → Type ℓ) (n left j : ℕ)
    → left + j ≤ n
    → ((k : ℕ) → j ≤ k → k < n → P k)
    → All P (range left j)
All-range P n zero j h p = tt
All-range P n (suc left) j h p = (
  p j (omega arith) (omega arith),
  All-range P n left (j + 1) (omega arith) (λ k low. p k (omega arith)),
)

Distinct-range : (left j : ℕ) → Distinct (range left j)
Distinct-range zero j = tt
Distinct-range (suc left) j = (
  All-range (λ y. j ≢ y) (left + (j + 1)) left (j + 1) (omega arith) (λ k low high. omega arith),
  Distinct-range left (j + 1),
)

has-range : (left j q : ℕ) → j ≤ q → q < left + j → has q (range left j) ≡ true
unfolding has
has-range zero j q low high = absurd (omega arith)
has-range (suc left) j q low high = elim (ℕ_discrete j q) [
  | yes e ↦ ground arith
  | no ne ↦ ground (arith, has-range left (j + 1) q (omega arith) (omega arith))
]

-- The row of a parity block times a column is the sum of fractions at its index.
fractions-dot :
    (c : ℕ → ℕ) (idx n left j : ℕ)
    → left + j ≤ n
    → n ≤ 256
    → idx < 256
    → fractions c (range left j) idx ≡ dot (tabulate left j (coefficient idx)) (tabulate left j c)
unfolding fractions dot coefficient
fractions-dot c idx n zero j h small byte_idx = refl
fractions-dot c idx n (suc left) j h small byte_idx =
    let lt = xor-lt-byte idx j byte_idx (omega arith) in
    ap₂ bit_xor
      (mul_comm (c j) (inv (bit_xor idx j)) ∙ ap (λ k. gf_mul (inv k) (c j)) (omega arith))
      (fractions-dot c idx n left (j + 1) (omega arith) small byte_idx)

module _ (n : ℕ) (indices : List ℕ) (small : n ≤ 256) (n_pos : 0 < n)
    (below : (k : ℕ) → k < n → get_or indices k 0 < 256)
    (apart : Distinct (chosen n 0 indices)) where
  given_rows :
      (r : ℕ)
      → r < n
      → let row = get_or (decode_matrix n 0 indices n) r [] in (length row ≡ n) × AllBytes row
  given_rows r h =
      rw (matrix_at n indices r h) (
        length-decode_row n 0 (get_or indices r 0) n,
        AllBytes-decode_row n 0 (get_or indices r 0) n,
      )

  module _ (x : List ℕ) (size : length x ≡ n) (x_bytes : AllBytes x)
      (sent : (r : ℕ) → r < n → dot (get_or (decode_matrix n 0 indices n) r []) x ≡ 0) where
    abbrev c : ℕ → ℕ
    c j = get_or x j 0

    sent_row : (r : ℕ) → r < n → dot (decode_row n 0 (get_or indices r 0) n) x ≡ 0
    sent_row r h = ap (λ row. dot row x) (sym (matrix_at n indices r h)) ∙ sent r h

    Known-index : (r : ℕ) → r < n → Known c (range n 0) (get_or indices r 0)
    Known-index r h =
        let idx = get_or indices r 0 in
        elim (Bool-cases (ltb idx n)) [
          | inl low ↦
              let lt = ltb→lt idx n low in
              inl (
                has-range n 0 idx (omega arith) (omega arith),
                sym (
                      dot_delta (decode_row n 0 idx n) x idx
                        (length-decode_row n 0 idx n ∙ sym size) (omega arith) x_bytes
                        (get_or-decode_row n 0 idx n idx lt ∙ ground arith)
                        (λ j k ne. get_or-decode_row n 0 idx n j (omega arith) ∙ ground arith))
                    ∙ sent_row r h,
              )
          | inr high ↦
              let ge = ltb-false→le idx n high in
              inr (
                All-range (λ j. idx ≢ j) n n 0 (omega arith) (λ k _ lt. omega arith),
                fractions-dot c idx n n 0 (omega arith) small (below r h)
                    ∙ ap₂ dot (sym (decode_row-coefficient n 0 idx n ge))
                        (tabulate_entries n x size)
                    ∙ sent_row r h,
              )
        ]

    no_column : All (λ j. c j ≡ 0) (range n 0)
    no_column =
        Known-vanish c (range n 0) (chosen n 0 indices) []
          (All-range (λ j. c j < 256) n n 0 (omega arith) (λ k _ lt. get_or-lt x k x_bytes))
          (All-range (λ j. j < 256) n n 0 (omega arith) (λ k _ lt. omega arith))
          (Distinct-range n 0)
          (All-tabulate (λ q. q < 256) (λ k. get_or indices k 0) n n 0 (omega arith) below) apart
          (All-tabulate (Known c (range n 0)) (λ k. get_or indices k 0) n n 0 (omega arith)
            Known-index)
          tt tt (All-tabulate (λ q. Unit) (λ k. get_or indices k 0) n n 0 (omega arith) (λ k h. tt))
          tt
          (omega (
            arith,
            length-tabulate n 0 (λ (k : ℕ). k),
            length-tabulate n 0 (λ k. get_or indices k 0),
          ))

  at_place : (p : ℕ → Type 0) (left j k : ℕ) → All p (range left j) → j ≤ k → k < left + j → p k
  at_place p zero j k h low high = absurd (omega arith)
  at_place p (suc left) j k h low high = elim (ℕ_discrete j k) [
    | yes e ↦ subst p e h.0
    | no ne ↦ at_place p left (j + 1) k h.1 (omega arith) (omega arith)
  ]

  -- Distinct indices of bytes give a matrix with an inverse.
  invertible : gf_invert_matrix (decode_matrix n 0 indices n) n ≢ none
  invertible e =
      let k =
        invert_singular n (decode_matrix n 0 indices n) (length-decode_matrix n 0 indices n)
          given_rows e in
      let blank : get_or k.vector k.place 0 ≡ 0 =
        at_place (λ j. get_or k.vector j 0 ≡ 0) n 0 k.place
          (no_column k.vector k.size k.bytes k.sent) (omega arith) (omega (arith, k.inside)) in
      let unit = k.unit in omega arith

-- Any `n` distinct blocks of a group are enough: with at least `n` blocks received, the first `n` of
-- them blocks of the group under distinct indices, and no more than 16 data and 256 blocks in all,
-- `fec_decode` succeeds and returns the encoder's data blocks.
pub decode_complete :
    (blocks : List Block) (n r len : ℕ) (received : List Block) (indices : List ℕ) (m : ℕ)
    → length blocks ≡ n
    → AreBlocks blocks n len
    → 0 < n
    → n ≤ 16
    → n ≤ m
    → n + r ≤ 256
    → Received received indices blocks n r len
    → Distinct (chosen n 0 indices)
    → fec_decode received indices m n len ≡ some blocks
unfolding fec_decode
decode_complete blocks n r len received indices m size fit n_pos few enough total came apart =
    elim (Option-cases (gf_invert_matrix (decode_matrix n 0 indices n) n)) [
      | inl singular ↦ absurd (
          invertible n indices (omega arith) n_pos (λ k h. let low = (came k h).0 in omega arith)
            apart singular)
      | inr (rows, inverted) ↦
          let all = recover_all blocks n r len size fit n_pos received indices came rows inverted in
          ground (arith, inverted, all)
    ]
