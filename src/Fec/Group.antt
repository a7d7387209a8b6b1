-- ===== src/Fec/Group.antt =====
-- A group of blocks: the data, the parity that `fec_encode` adds, and the matrix row of each.
use bi_tun.Base.{
  ℕ, zero, suc, ◌+◌, ◌-◌, ◌≤◌, ◌<◌, bit_xor, ◌≡◌, refl, sym, ap, ◌∙◌, arith, List, [], ◌++◌, length,
  get_or, drop, ltb, replicate, length-replicate, tabulate, length-tabulate, get_or-tabulate,
  get_or-append_left, get_or-append_right, zero-xor, ltb→lt, ltb-false→le, Bool-cases, inl, inr,
}
use mathlib.Core.Path.{subst}
use bi_tun.Gf.Buffers.{AllBytes, get_or-lt}
use bi_tun.Fec.{Block, coefficient, parity_loop, parity_rows, fec_encode, decode_row, decode_matrix}
use bi_tun.Fec.Dot.{dot, dot_delta}
use bi_tun.Fec.Combine.{
  AreBlocks, byte, combine, parity_loop-combine, combine-byte, combine-AllBytes, coefficient-lt,
  decode_row-coefficient, get_or-decode_row, length-decode_row,
}

AllBytes-zeros : (n : ℕ) → AllBytes (replicate n 0)
AllBytes-zeros zero = tt
AllBytes-zeros (suc n) = (omega arith, AllBytes-zeros n)

pub zeros-byte : (n t : ℕ) → get_or {A = ℕ} (replicate n 0) t 0 ≡ 0
zeros-byte zero t = refl
zeros-byte (suc n) zero = refl
zeros-byte (suc n) (suc t) = zeros-byte n t

length-parity_rows :
    (left i n : ℕ) (blocks : List Block) (len : ℕ) → length (parity_rows left i n blocks len) ≡ left
unfolding parity_rows
length-parity_rows zero i n blocks len = refl
length-parity_rows (suc left) i n blocks len = ap suc (length-parity_rows left (i + 1) n blocks len)

get_or-parity_rows :
    (left i n : ℕ) (blocks : List Block) (len k : ℕ)
    → k < left
    → get_or (parity_rows left i n blocks len) k []
      ≡ parity_loop n 0 (i + k) n blocks len (replicate len 0)
unfolding parity_rows
get_or-parity_rows zero i n blocks len k h = absurd (omega arith)
get_or-parity_rows (suc left) i n blocks len zero h =
    ap (λ m. parity_loop n 0 m n blocks len (replicate len 0)) {x = i} {y = i + 0} (omega arith)
get_or-parity_rows (suc left) i n blocks len (suc k) h =
    get_or-parity_rows left (i + 1) n blocks len k (omega arith)
    ∙ ap (λ m. parity_loop n 0 m n blocks len (replicate len 0)) {x = i + 1 + k} {y = i + suc k}
        (omega arith)

pub length-decode_matrix :
    (left i : ℕ) (indices : List ℕ) (n : ℕ) → length (decode_matrix left i indices n) ≡ left
unfolding decode_matrix
length-decode_matrix zero i indices n = refl
length-decode_matrix (suc left) i indices n = ap suc (length-decode_matrix left (i + 1) indices n)

pub get_or-decode_matrix :
    (left i : ℕ) (indices : List ℕ) (n r : ℕ)
    → r < left
    → get_or (decode_matrix left i indices n) r [] ≡ decode_row n 0 (get_or indices (i + r) 0) n
unfolding decode_matrix
get_or-decode_matrix zero i indices n r h = absurd (omega arith)
get_or-decode_matrix (suc left) i indices n zero h =
    ap (λ m. decode_row n 0 (get_or indices m 0) n) {x = i} {y = i + 0} (omega arith)
get_or-decode_matrix (suc left) i indices n (suc r) h =
    get_or-decode_matrix left (i + 1) indices n r (omega arith)
    ∙ ap (λ m. decode_row n 0 (get_or indices m 0) n) {x = i + 1 + r} {y = i + suc r} (omega arith)

-- The blocks of a group in the order of their indices: the data, then the parity.
abbrev pub group : List Block → ℕ → ℕ → ℕ → List Block
group blocks n r len = blocks ++ fec_encode blocks n r len []

-- The first `n` blocks received are blocks of the group, each with its index.
abbrev pub Received : List Block → List ℕ → List Block → ℕ → ℕ → ℕ → Type 0
Received received indices blocks n r len =
    (k : ℕ)
    → k < n
    → (get_or indices k 0 < n + r)
      × (get_or received k [] ≡ get_or (group blocks n r len) (get_or indices k 0) [])

module _ (blocks : List Block) (n r len : ℕ) (size : length blocks ≡ n)
    (fit : AreBlocks blocks n len) (n_pos : 0 < n) where
  encode_rows : 0 < r → fec_encode blocks n r len [] ≡ parity_rows r 0 n blocks len ++ drop r []
  unfolding fec_encode
  encode_rows h = ground arith

  parity_block :
      (k : ℕ)
      → k < r
      → get_or (group blocks n r len) (n + k) []
        ≡ combine n 0 (coefficient (k + n)) blocks len (replicate len 0)
  parity_block k h =
      ap (λ m. get_or (group blocks n r len) (m + k) []) (sym size)
      ∙ get_or-append_right blocks (fec_encode blocks n r len []) k []
      ∙ ap (λ ys. get_or ys k []) (encode_rows (omega arith))
      ∙ get_or-append_left (parity_rows r 0 n blocks len) (drop r []) k []
          (omega (arith, length-parity_rows r 0 n blocks len))
      ∙ get_or-parity_rows r 0 n blocks len k h
      ∙ ap (λ m. parity_loop n 0 m n blocks len (replicate len 0)) {x = 0 + k} {y = k} (omega arith)
      ∙ parity_loop-combine n 0 k n blocks len (replicate len 0)

  pub data_block : (idx : ℕ) → idx < n → get_or (group blocks n r len) idx [] ≡ get_or blocks idx []
  data_block idx h = get_or-append_left blocks (fec_encode blocks n r len []) idx [] (omega arith)

  pub group_block :
      (idx t : ℕ)
      → idx < n + r
      → (length (get_or (group blocks n r len) idx []) ≡ len)
        × AllBytes (get_or (group blocks n r len) idx [])
        × (dot (decode_row n 0 idx n) (tabulate n 0 (byte blocks t))
            ≡ byte (group blocks n r len) t idx)
  group_block idx t h = elim (Bool-cases (ltb idx n)) [
    | inl low ↦
        let lt = ltb→lt idx n low in
        let same = data_block idx lt in
        (
          ap length same ∙ (fit idx lt).0,
          subst AllBytes (sym same) (fit idx lt).1,
          dot_delta (decode_row n 0 idx n) (tabulate n 0 (byte blocks t)) idx
                (length-decode_row n 0 idx n ∙ sym (length-tabulate n 0 (byte blocks t)))
                (omega (arith, length-tabulate n 0 (byte blocks t)))
                (column_bytes n 0 t (omega arith))
                (get_or-decode_row n 0 idx n idx lt ∙ ground arith)
                (λ j k ne.
                  get_or-decode_row n 0 idx n j (omega (arith, length-tabulate n 0 (byte blocks t)))
                  ∙ ground arith)
              ∙ get_or-tabulate n 0 (byte blocks t) idx 0 lt
              ∙ ap (byte blocks t) {x = 0 + idx} {y = idx} (omega arith)
              ∙ ap (λ (b : Block). get_or b t 0) (sym same),
        )
    | inr high ↦
        let ge = ltb-false→le idx n high in
        let k = idx - n in
        let same =
          ap (λ m. get_or (group blocks n r len) m []) {x = idx} {y = n + k} (omega arith)
          ∙ parity_block k (omega arith) in
        let sum =
          combine-byte n 0 n (coefficient (k + n)) blocks len (replicate len 0) t (omega arith) fit
            (length-replicate {A = ℕ} len 0) in
        (
          ap length same ∙ sum.0,
          subst AllBytes (sym same) (
              combine-AllBytes n 0 n (coefficient (k + n)) blocks len (replicate len 0)
                (omega arith) (coefficient-lt (k + n)) fit (AllBytes-zeros len)),
          ap (λ row. dot row (tabulate n 0 (byte blocks t))) (decode_row-coefficient n 0 idx n ge)
              ∙ ap (λ m. dot (tabulate n 0 (coefficient m)) (tabulate n 0 (byte blocks t)))
                  {x = idx} {y = k + n} (omega arith)
              ∙ sym (zero-xor _)
              ∙ ap
                  (λ z.
                    bit_xor z
                      (dot (tabulate n 0 (coefficient (k + n))) (tabulate n 0 (byte blocks t))))
                  (sym (zeros-byte len t))
              ∙ sym sum.1
              ∙ ap (λ (b : Block). get_or b t 0) (sym same),
        )
  ]
    where
      column_bytes : (left j t : ℕ) → left + j ≤ n → AllBytes (tabulate left j (byte blocks t))
      column_bytes zero j t h = tt
      column_bytes (suc left) j t h = (
        get_or-lt (get_or blocks j []) t (fit j (omega arith)).1,
        column_bytes left (j + 1) t (omega arith),
      )
