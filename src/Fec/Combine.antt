-- ===== src/Fec/Combine.antt =====
-- The accumulating loops of the encoder and the decoder are linear combinations of blocks.
use bi_tun.Base.{
  ℕ, zero, suc, ◌+◌, ◌≤◌, ◌<◌, bit_xor, ◌≡◌, refl, sym, ap, ap₂, ◌∙◌, arith, List, [], ◌∷◌, length,
  get_or, ltb, ◌==◌, if◌then◌else◌, tabulate, xor_assoc, xor-zero, bit_xor, u8,
}
use bi_tun.Gf.{gf_mul, gf_mul_add_buf}
use bi_tun.Gf.Field.{div-lt}
use bi_tun.Gf.Buffers.{
  AllBytes, mul_add_buf-add_scaled, length-add_scaled, get_or-add_scaled, AllBytes-add_scaled,
}
use bi_tun.Fec.{Block, coefficient, parity_loop, recover_loop, decode_row}
use bi_tun.Fec.Dot.{dot}

-- The first `n` blocks have `len` bytes.
abbrev pub AreBlocks : List Block → ℕ → ℕ → Type 0
AreBlocks blocks n len =
    (k : ℕ) → k < n → (length (get_or blocks k []) ≡ len) × AllBytes (get_or blocks k [])

-- Byte `t` of block `k`.
abbrev pub byte : List Block → ℕ → ℕ → ℕ
byte blocks t k = get_or (get_or blocks k []) t 0

-- Adds `coef k` times block `k` to `acc`, for `left` numbers `k` from `j` on.
pub combine : ℕ → ℕ → (ℕ → ℕ) → List Block → ℕ → Block → Block
combine zero j coef blocks len acc = acc
combine (suc left) j coef blocks len acc =
    combine left (j + 1) coef blocks len (gf_mul_add_buf acc (get_or blocks j []) (coef j) len)

pub parity_loop-combine :
    (left j i n : ℕ) (blocks : List Block) (len : ℕ) (acc : Block)
    → parity_loop left j i n blocks len acc ≡ combine left j (coefficient (i + n)) blocks len acc
unfolding parity_loop combine
parity_loop-combine zero j i n blocks len acc = refl
parity_loop-combine (suc left) j i n blocks len acc =
    parity_loop-combine left (j + 1) i n blocks len
      (gf_mul_add_buf acc (get_or blocks j []) (coefficient (i + n) j) len)

pub recover_loop-combine :
    (left i : ℕ) (coefs : List ℕ) (blocks : List Block) (len : ℕ) (acc : Block)
    → recover_loop left i coefs blocks len acc
      ≡ combine left i (λ k. get_or coefs k 0) blocks len acc
unfolding recover_loop combine
recover_loop-combine zero i coefs blocks len acc = refl
recover_loop-combine (suc left) i coefs blocks len acc =
    recover_loop-combine left (i + 1) coefs blocks len
      (gf_mul_add_buf acc (get_or blocks i []) (get_or coefs i 0) len)

-- Each byte of the combination is a product of the coefficients with a column of the blocks.
pub combine-byte :
    (left j n : ℕ) (coef : ℕ → ℕ) (blocks : List Block) (len : ℕ) (acc : Block) (t : ℕ)
    → left + j ≤ n
    → AreBlocks blocks n len
    → length acc ≡ len
    → (length (combine left j coef blocks len acc) ≡ len)
      × (get_or (combine left j coef blocks len acc) t 0
          ≡ bit_xor (get_or acc t 0) (dot (tabulate left j coef) (tabulate left j (byte blocks t))))
unfolding combine dot
combine-byte zero j n coef blocks len acc t h b e = (e, sym (xor-zero (get_or acc t 0)))
combine-byte (suc left) j n coef blocks len acc t h b e =
    let block = get_or blocks j [] in
    let here = b j (omega arith) in
    let same = mul_add_buf-add_scaled acc block (coef j) len here.1 in
    let next = gf_mul_add_buf acc block (coef j) len in
    let ih =
      combine-byte left (j + 1) n coef blocks len next t (omega arith) b
        (ap length same ∙ length-add_scaled acc block (coef j) len ∙ e) in
    (
      ih.0,
      ih.1
          ∙ ap
              (λ a.
                bit_xor a
                  (dot (tabulate left (j + 1) coef) (tabulate left (j + 1) (byte blocks t))))
              (ap (λ c. get_or c t 0) same ∙ get_or-add_scaled acc block (coef j) len t e here.0)
          ∙ xor_assoc (get_or acc t 0) (gf_mul (coef j) (byte blocks t j))
              (dot (tabulate left (j + 1) coef) (tabulate left (j + 1) (byte blocks t))),
    )

pub combine-AllBytes :
    (left j n : ℕ) (coef : ℕ → ℕ) (blocks : List Block) (len : ℕ) (acc : Block)
    → left + j ≤ n
    → ((k : ℕ) → coef k < 256)
    → AreBlocks blocks n len
    → AllBytes acc
    → AllBytes (combine left j coef blocks len acc)
unfolding combine
combine-AllBytes zero j n coef blocks len acc h c b a = a
combine-AllBytes (suc left) j n coef blocks len acc h c b a =
    let here = b j (omega arith) in
    combine-AllBytes left (j + 1) n coef blocks len
      (gf_mul_add_buf acc (get_or blocks j []) (coef j) len) (omega arith) c b
      (rw (mul_add_buf-add_scaled acc (get_or blocks j []) (coef j) len here.1)
        (AllBytes-add_scaled acc (get_or blocks j []) (coef j) len (c j) a here.1))

pub coefficient-lt : (idx j : ℕ) → coefficient idx j < 256
unfolding coefficient
coefficient-lt idx j = div-lt (u8 (bit_xor idx j)) (omega arith)

-- The row of the decoding matrix for a parity block holds its coefficients.
pub decode_row-coefficient :
    (left j idx n : ℕ) → n ≤ idx → decode_row left j idx n ≡ tabulate left j (coefficient idx)
unfolding decode_row
decode_row-coefficient zero j idx n h = refl
decode_row-coefficient (suc left) j idx n h =
    ap₂ ◌∷◌ (ground arith) (decode_row-coefficient left (j + 1) idx n h)

pub get_or-decode_row :
    (left j idx n k : ℕ)
    → k < left
    → get_or (decode_row left j idx n) k 0
      ≡ (if ltb idx n then (if j + k == idx then 1 else 0) else coefficient idx (j + k))
unfolding decode_row
get_or-decode_row zero j idx n k h = absurd (omega arith)
get_or-decode_row (suc left) j idx n zero h =
    ap (λ m. if ltb idx n then (if m == idx then 1 else 0) else coefficient idx m) {x = j}
      {y = j + 0} (omega arith)
get_or-decode_row (suc left) j idx n (suc k) h =
    get_or-decode_row left (j + 1) idx n k (omega arith)
    ∙ ap (λ m. if ltb idx n then (if m == idx then 1 else 0) else coefficient idx m) {x = j + 1 + k}
        {y = j + suc k} (omega arith)

pub length-decode_row : (left j idx n : ℕ) → length (decode_row left j idx n) ≡ left
unfolding decode_row
length-decode_row zero j idx n = refl
length-decode_row (suc left) j idx n = ap suc (length-decode_row left (j + 1) idx n)

pub AllBytes-decode_row : (left j idx n : ℕ) → AllBytes (decode_row left j idx n)
unfolding decode_row
AllBytes-decode_row zero j idx n = tt
AllBytes-decode_row (suc left) j idx n =
    (ground (arith, coefficient-lt idx j), AllBytes-decode_row left (j + 1) idx n)
