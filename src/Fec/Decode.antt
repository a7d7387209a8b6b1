-- ===== src/Fec/Decode.antt =====
-- The erasure code end to end: what `fec_decode` recovers is what `fec_encode` was given.
use bi_tun.Base.{
  ℕ, zero, suc, ◌+◌, ◌≤◌, ◌<◌, bit_xor, ◌≡◌, refl, sym, ap, ap₂, ◌∙◌, arith, none, some, List, [],
  ◌∷◌, length, get_or, take, take_all, replicate, length-replicate, tabulate, length-tabulate,
  get_or-tabulate, get_or_ext, zero-xor, ℕ_discrete, Option-cases, inl, inr,
}
use mathlib.Core.Path.{subst}
use bi_tun.Gf.Buffers.{AllBytes, get_or-lt}
use bi_tun.Fec.{
  Block, Row, row_at, gf_invert_matrix, decode_row, decode_matrix, find_block, recover_loop,
  recover_blocks, fec_decode,
}
use bi_tun.Fec.Dot.{dot}
use bi_tun.Fec.Invert.{invert_recovers}
use bi_tun.Fec.Combine.{
  AreBlocks, byte, combine, recover_loop-combine, combine-byte, length-decode_row,
  AllBytes-decode_row,
}
use bi_tun.Fec.Group.{
  zeros-byte, length-decode_matrix, get_or-decode_matrix, group, Received, data_block, group_block,
}

find_block-found :
    (left i : ℕ) (indices : List ℕ) (j q : ℕ)
    → find_block left i indices j ≡ some q
    → (q < i + left) × (get_or indices q 0 ≡ j)
unfolding find_block
find_block-found zero i indices j q e = absurd (ground arith)
find_block-found (suc left) i indices j q e = elim (ℕ_discrete (get_or indices i 0) j) [
  | yes same ↦
      let here : i ≡ q = ground arith in
      (omega arith, ap (λ k. get_or indices k 0) (sym here) ∙ same)
  | no other ↦
      let ih = find_block-found left (i + 1) indices j q (ground arith) in (omega arith, ih.1)
]

-- One block as the decoder writes it.
abbrev recovered : List Row → List ℕ → List Block → ℕ → ℕ → ℕ → Block
recovered rows indices received n len j = elim (find_block n 0 indices j) [
  | none ↦ recover_loop n 0 (row_at rows j).inv received len (replicate len 0)
  | some i ↦ take len (get_or received i [])
]

recover_blocks-tabulate :
    (left j : ℕ) (rows : List Row) (indices : List ℕ) (received : List Block) (n len : ℕ)
    → recover_blocks left j rows indices received n len
      ≡ tabulate left j (recovered rows indices received n len)
unfolding recover_blocks
recover_blocks-tabulate zero j rows indices received n len = refl
recover_blocks-tabulate (suc left) j rows indices received n len =
    ap (λ l. recovered rows indices received n len j ∷ l)
      (recover_blocks-tabulate left (j + 1) rows indices received n len)

pub tabulate_entries :
    (n : ℕ) (xs : List ℕ) → length xs ≡ n → tabulate n 0 (λ k. get_or xs k 0) ≡ xs
tabulate_entries n xs e =
    get_or_ext 0 (tabulate n 0 (λ k. get_or xs k 0)) xs
      (length-tabulate n 0 (λ k. get_or xs k 0) ∙ sym e)
      (λ i p.
        get_or-tabulate n 0 (λ k. get_or xs k 0) i 0
          (omega (arith, length-tabulate n 0 (λ k. get_or xs k 0)))
        ∙ ap (λ k. get_or xs k 0) {x = 0 + i} {y = i} (omega arith))

pub matrix_at :
    (n : ℕ) (indices : List ℕ) (r : ℕ)
    → r < n
    → get_or (decode_matrix n 0 indices n) r [] ≡ decode_row n 0 (get_or indices r 0) n
matrix_at n indices r h =
    get_or-decode_matrix n 0 indices n r h
    ∙ ap (λ m. decode_row n 0 (get_or indices m 0) n) {x = 0 + r} {y = r} (omega arith)

module _ (blocks : List Block) (n r len : ℕ) (size : length blocks ≡ n)
    (fit : AreBlocks blocks n len) (n_pos : 0 < n) (received : List Block) (indices : List ℕ)
    (came : Received received indices blocks n r len) (rows : List Row)
    (inverted : gf_invert_matrix (decode_matrix n 0 indices n) n ≡ some rows) where
  received_block :
      (k t : ℕ)
      → k < n
      → (length (get_or received k []) ≡ len)
        × AllBytes (get_or received k [])
        × (dot (decode_row n 0 (get_or indices k 0) n) (tabulate n 0 (byte blocks t))
            ≡ byte received t k)
  received_block k t h =
      let (low, same) = came k h in
      let b = group_block blocks n r len size fit n_pos (get_or indices k 0) t low in
      (
        ap length same ∙ b.0,
        subst AllBytes (sym same) b.1,
        b.2 ∙ ap (λ (c : Block). get_or c t 0) (sym same),
      )

  matrix_row :
      (t k : ℕ)
      → k < n
      → let row = get_or (decode_matrix n 0 indices n) k [] in
        (length row ≡ n)
        × AllBytes row
        × (dot row (tabulate n 0 (byte blocks t)) ≡ get_or (tabulate n 0 (byte received t)) k 0)
  matrix_row t k h = rw (matrix_at n indices k h) (
    length-decode_row n 0 (get_or indices k 0) n,
    AllBytes-decode_row n 0 (get_or indices k 0) n,
    (received_block k t h).2
        ∙ ap (byte received t) {x = k} {y = 0 + k} (omega arith)
        ∙ sym (get_or-tabulate n 0 (byte received t) k 0 h),
  )

  bytes_of_received : (left j t : ℕ) → left + j ≤ n → AllBytes (tabulate left j (byte received t))
  bytes_of_received zero j t h = tt
  bytes_of_received (suc left) j t h = (
    get_or-lt (get_or received j []) t (received_block j t (omega arith)).1,
    bytes_of_received left (j + 1) t (omega arith),
  )

  bytes_of_data : (left j t : ℕ) → left + j ≤ n → AllBytes (tabulate left j (byte blocks t))
  bytes_of_data zero j t h = tt
  bytes_of_data (suc left) j t h = (
    get_or-lt (get_or blocks j []) t (fit j (omega arith)).1,
    bytes_of_data left (j + 1) t (omega arith),
  )

  solved :
      (j t : ℕ)
      → j < n
      → (length (row_at rows j).inv ≡ n)
        × (dot (row_at rows j).inv (tabulate n 0 (byte received t)) ≡ byte blocks t j)
  solved j t h =
      let s =
        invert_recovers n (decode_matrix n 0 indices n) (tabulate n 0 (byte blocks t))
          (tabulate n 0 (byte received t)) rows (bytes_of_data n 0 t (omega arith))
          (bytes_of_received n 0 t (omega arith)) (length-tabulate n 0 (byte blocks t))
          (length-tabulate n 0 (byte received t)) (length-decode_matrix n 0 indices n)
          (matrix_row t) inverted j h in
      (
        s.0,
        s.1
            ∙ get_or-tabulate n 0 (byte blocks t) j 0 h
            ∙ ap (byte blocks t) {x = 0 + j} {y = j} (omega arith),
      )

  -- A block that did not come is the combination of those that came.
  rebuilt :
      (j : ℕ)
      → j < n
      → recover_loop n 0 (row_at rows j).inv received len (replicate len 0) ≡ get_or blocks j []
  rebuilt j h =
      let sum = λ (t : ℕ).
        combine-byte n 0 n (λ k. get_or (row_at rows j).inv k 0) received len (replicate len 0) t
          (omega arith) (λ k l. ((received_block k 0 l).0, (received_block k 0 l).1))
          (length-replicate {A = ℕ} len 0) in
      recover_loop-combine n 0 (row_at rows j).inv received len (replicate len 0)
      ∙ get_or_ext 0
          (combine n 0 (λ k. get_or (row_at rows j).inv k 0) received len (replicate len 0))
          (get_or blocks j []) ((sum 0).0 ∙ sym (fit j h).0)
          (λ t p.
            (sum t).1
            ∙ ap₂ bit_xor (zeros-byte len t) (
                ap (λ row. dot row (tabulate n 0 (byte received t)))
                  (tabulate_entries n (row_at rows j).inv (solved j t h).0)
                ∙ (solved j t h).1)
            ∙ zero-xor (byte blocks t j))

  recovered-eq-block :
      (j : ℕ) → j < n → recovered rows indices received n len j ≡ get_or blocks j []
  recovered-eq-block j h = elim (Option-cases (find_block n 0 indices j)) [
    | inl missing ↦ rw (missing, recovered) (rebuilt j h)
    | inr (q, found) ↦
        let (q-lt, at) = find_block-found n 0 indices j q found in
        let q-lt' : q < n = omega arith in
        rw (found, recovered)
          (take_all len (get_or received q []) (received_block q 0 q-lt').0
            ∙ (came q q-lt').1
            ∙ ap (λ k. get_or (group blocks n r len) k []) at
            ∙ data_block blocks n r len size fit n_pos j h)
  ]

  pub recover_all : recover_blocks n 0 rows indices received n len ≡ blocks
  recover_all =
      recover_blocks-tabulate n 0 rows indices received n len
      ∙ get_or_ext [] (tabulate n 0 (recovered rows indices received n len)) blocks
          (length-tabulate n 0 (recovered rows indices received n len) ∙ sym size)
          (λ j p.
            let h : j < n =
              omega (arith, length-tabulate n 0 (recovered rows indices received n len)) in
            get_or-tabulate n 0 (recovered rows indices received n len) j [] h
            ∙ ap (recovered rows indices received n len) {x = 0 + j} {y = j} (omega arith)
            ∙ recovered-eq-block j h)

-- Any blocks of the group that `fec_decode` accepts give back the data exactly: whatever mix of data
-- and parity blocks came first, a return of 0 leaves the encoder's data blocks in `recovered_data`.
pub decode-encode :
    (blocks : List Block) (n r len : ℕ) (received : List Block) (indices : List ℕ) (m : ℕ)
    (out : List Block)
    → length blocks ≡ n
    → AreBlocks blocks n len
    → 0 < n
    → Received received indices blocks n r len
    → fec_decode received indices m n len ≡ some out
    → out ≡ blocks
unfolding fec_decode
decode-encode blocks n r len received indices m out size fit n_pos came e =
    elim (Option-cases (gf_invert_matrix (decode_matrix n 0 indices n) n)) [
      | inl singular ↦ absurd (ground (arith, singular))
      | inr (rows, inverted) ↦
          let all = recover_all blocks n r len size fit n_pos received indices came rows inverted in
          ground (arith, inverted, all)
    ]
