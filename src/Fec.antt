-- ===== src/Fec.antt =====
-- The systematic erasure code of src/fec.c: `fec_encode`, `gf_invert_matrix`, `fec_decode`.
-- A block is the list of its bytes. Row `i` of the matrix `A` stands beside row `i` of `A_inv`,
-- since the code does every row operation on both; the loops over `j` run along a row.
pub mod Dot
pub mod Combine
pub mod Rows
pub mod Augmented
pub mod Invert
pub mod Stuck
pub mod Singular
pub mod Group
pub mod Decode
pub mod Total
mod Tests
use bi_tun.Base.{
  ℕ, zero, suc, ◌+◌, bit_xor, Bool, true, false, ◌||◌, Option, none, some, List, [], ◌∷◌, ◌++◌, map,
  ltb, leb, ◌==◌, ◌!=◌, if◌then◌else◌, u8, get_or, set, drop, take, replicate, length,
}
use bi_tun.Gf.{gf_mul, gf_div, gf_mul_add_buf}

abbrev pub Block : Type 0
Block = List ℕ

-- The coefficient of data block `j` in the block of index `idx`.
unfoldable pub coefficient : ℕ → ℕ → ℕ
coefficient idx j = gf_div 1 (u8 (bit_xor idx j))

-- The loop over `j` for parity block `i`, with `left` rounds to go.
unfoldable pub parity_loop : ℕ → ℕ → ℕ → ℕ → List Block → ℕ → Block → Block
parity_loop zero j i n blocks len acc = acc
parity_loop (suc left) j i n blocks len acc =
    parity_loop left (j + 1) i n blocks len
      (gf_mul_add_buf acc (get_or blocks j []) (coefficient (i + n) j) len)

-- The loop over `i`.
unfoldable pub parity_rows : ℕ → ℕ → ℕ → List Block → ℕ → List Block
parity_rows zero i n blocks len = []
parity_rows (suc left) i n blocks len =
    parity_loop n 0 i n blocks len (replicate len 0) ∷ parity_rows left (i + 1) n blocks len

unfoldable pub fec_encode : List Block → ℕ → ℕ → ℕ → List Block → List Block
fec_encode data_blocks n r len parity_blocks =
    if leb n 0 || leb r 0
    then parity_blocks
    else parity_rows r 0 n data_blocks len ++ drop r parity_blocks

-- Row `i` of `A` and of `A_inv`.
pub record Row : Type 0 where
  pub a : List ℕ
  pub inv : List ℕ

abbrev pub no_row : Row
no_row = record { a = []; inv = [] }

abbrev pub row_at : List Row → ℕ → Row
row_at rows r = get_or rows r no_row

abbrev pub entry : Row → ℕ → ℕ
entry row j = get_or row.a j 0

-- The row of the identity: 1 in place `i`.
abbrev pub unit_row : ℕ → ℕ → List ℕ
unit_row n i = set (replicate n 0) i 1

-- `while (pivot_row < n && A[pivot_row * n + i] == 0)`, over the rows from `p` on.
unfoldable pub find_pivot : List Row → ℕ → ℕ → Option ℕ
find_pivot [] i p = none
find_pivot (row ∷ rest) i p =
    let later = find_pivot rest i (p + 1) in if entry row i == 0 then later else some p

unfoldable pub swap_rows : List Row → ℕ → ℕ → List Row
swap_rows rows i p = if p != i then set (set rows i (row_at rows p)) p (row_at rows i) else rows

abbrev pub scale : List ℕ → ℕ → List ℕ
scale xs factor = map (λ x. gf_mul x factor) xs

unfoldable pub scale_pivot : List Row → ℕ → List Row
scale_pivot rows i =
    let row = row_at rows i in
    let inv_pivot = gf_div 1 (entry row i) in
    if entry row i != 1
    then set rows i (record { a = scale row.a inv_pivot; inv = scale row.inv inv_pivot })
    else rows

-- `x ^= factor * y` along a row.
unfoldable pub add_multiple : List ℕ → List ℕ → ℕ → List ℕ
add_multiple [] ys factor = []
add_multiple (x ∷ xs) [] factor = x ∷ xs
add_multiple (x ∷ xs) (y ∷ ys) factor = bit_xor x (gf_mul y factor) ∷ add_multiple xs ys factor

unfoldable pub clear_row : Row → Row → ℕ → Row
unfolding add_multiple
clear_row pivot_row row i =
    let factor = entry row i in
    if factor != 0
    then record {
      a = add_multiple row.a pivot_row.a factor;
      inv = add_multiple row.inv pivot_row.inv factor;
    }
    else row

-- The loop over `row`: `r` is the number of the first row of the list.
unfoldable pub clear_others : Row → ℕ → ℕ → List Row → List Row
unfolding clear_row
clear_others pivot_row i r [] = []
clear_others pivot_row i r (row ∷ rest) =
    (if r != i then clear_row pivot_row row i else row) ∷ clear_others pivot_row i (r + 1) rest

-- One round of the outer loop; `none` is the return of -1.
unfoldable pub invert_step : List Row → ℕ → Option (List Row)
unfolding find_pivot swap_rows scale_pivot clear_others
invert_step rows i = elim (find_pivot (drop i rows) i i) [
  | none ↦ none
  | some p ↦
      let scaled = scale_pivot (swap_rows rows i p) i in
      some (clear_others (row_at scaled i) i 0 scaled)
]

unfoldable pub invert_loop : ℕ → ℕ → List Row → Option (List Row)
unfolding invert_step
invert_loop zero i rows = some rows
invert_loop (suc left) i rows = elim (invert_step rows i) [
  | none ↦ none
  | some next ↦ invert_loop left (i + 1) next
]

-- `A_inv` starts as the identity.
unfoldable pub with_identity : ℕ → ℕ → List (List ℕ) → List Row
with_identity n i [] = []
with_identity n i (a ∷ rest) = record { a = a; inv = unit_row n i } ∷ with_identity n (i + 1) rest

unfoldable pub gf_invert_matrix : List (List ℕ) → ℕ → Option (List Row)
unfolding invert_loop with_identity
gf_invert_matrix matrix n = invert_loop n 0 (with_identity n 0 matrix)

-- The row of `A` for a block of index `idx`, from column `j` on.
unfoldable pub decode_row : ℕ → ℕ → ℕ → ℕ → List ℕ
decode_row zero j idx n = []
decode_row (suc left) j idx n =
    (if ltb idx n then (if j == idx then 1 else 0) else coefficient idx j)
    ∷ decode_row left (j + 1) idx n

unfoldable pub decode_matrix : ℕ → ℕ → List ℕ → ℕ → List (List ℕ)
unfolding decode_row
decode_matrix zero i indices n = []
decode_matrix (suc left) i indices n =
    decode_row n 0 (get_or indices i 0) n ∷ decode_matrix left (i + 1) indices n

-- The search for block `j` among the first blocks received.
unfoldable pub find_block : ℕ → ℕ → List ℕ → ℕ → Option ℕ
find_block zero i indices j = none
find_block (suc left) i indices j =
    let later = find_block left (i + 1) indices j in
    if get_or indices i 0 == j then some i else later

unfoldable pub recover_loop : ℕ → ℕ → List ℕ → List Block → ℕ → Block → Block
recover_loop zero i coefs blocks len acc = acc
recover_loop (suc left) i coefs blocks len acc =
    recover_loop left (i + 1) coefs blocks len
      (gf_mul_add_buf acc (get_or blocks i []) (get_or coefs i 0) len)

unfoldable pub recover_blocks : ℕ → ℕ → List Row → List ℕ → List Block → ℕ → ℕ → List Block
unfolding find_block recover_loop
recover_blocks zero j rows indices blocks n len = []
recover_blocks (suc left) j rows indices blocks n len =
    elim (find_block n 0 indices j) [
      | none ↦ recover_loop n 0 (row_at rows j).inv blocks len (replicate len 0)
      | some i ↦ take len (get_or blocks i [])
    ]
    ∷ recover_blocks left (j + 1) rows indices blocks n len

-- `none` is the return of -1; else the blocks written to `recovered_data`.
unfoldable pub fec_decode : List Block → List ℕ → ℕ → ℕ → ℕ → Option (List Block)
unfolding gf_invert_matrix decode_matrix recover_blocks
fec_decode received indices num_received n len =
    if ltb num_received n
    then none
    else if ltb 16 n
    then none
    else elim (gf_invert_matrix (decode_matrix n 0 indices n) n) [
      | none ↦ none
      | some rows ↦ some (recover_blocks n 0 rows indices received n len)
    ]
