-- ===== src/Fec/Tests.antt =====
-- The erasure code on small blocks.
use bi_tun.Base.{
  ℕ, zero, suc, arith, ◌≡◌, refl, sym, ap, ◌∙◌, Option, none, some, List, [], ◌∷◌, get_or,
}
use bi_tun.Gf.{gf_init, gf_exp, gf_log, gf_mul, gf_div, gf_mul_add_buf, xor_loop, log_loop}
use bi_tun.Fec.{Block, coefficient, parity_loop, parity_rows, fec_encode, fec_decode}
use bi_tun.Fec.Combine.{AreBlocks}
use bi_tun.Fec.Decode.{decode-encode}
use bi_tun.Fec.Group.{Received}
use bi_tun.Fec.Total.{decode_complete}

abbrev three : List Block
three = (1 ∷ 200 ∷ []) ∷ (2 ∷ 0 ∷ []) ∷ (3 ∷ 77 ∷ []) ∷ []

abbrev parity : List Block
parity = fec_encode three 3 2 2 []

lost_two :
    fec_decode (get_or parity 1 [] ∷ (2 ∷ 0 ∷ []) ∷ get_or parity 0 [] ∷ []) (4 ∷ 1 ∷ 3 ∷ []) 3 3 2
    ≡ some three
unfolding fec_decode fec_encode parity_rows parity_loop coefficient gf_mul gf_div gf_exp gf_log
    gf_init gf_mul_add_buf xor_loop log_loop
lost_two = refl

abbrev came_in : List Block
came_in = get_or parity 1 [] ∷ (2 ∷ 0 ∷ []) ∷ get_or parity 0 [] ∷ []

abbrev came_indices : List ℕ
came_indices = 4 ∷ 1 ∷ 3 ∷ []

three-AreBlocks : AreBlocks three 3 2
three-AreBlocks zero h = (refl, omega arith)
three-AreBlocks (suc zero) h = (refl, omega arith)
three-AreBlocks (suc (suc zero)) h = (refl, omega arith)
three-AreBlocks (suc (suc (suc k))) h = absurd (omega arith)

three-Received : Received came_in came_indices three 3 2 2
unfolding fec_encode parity_rows
three-Received zero h = (omega arith, refl)
three-Received (suc zero) h = (omega arith, refl)
three-Received (suc (suc zero)) h = (omega arith, refl)
three-Received (suc (suc (suc k))) h = absurd (omega arith)

abbrev blocks_of : Option (List Block) → List Block
blocks_of none = []
blocks_of (some out) = out

-- What is recovered from the three blocks.
abbrev recovered : List Block
recovered = blocks_of (fec_decode came_in came_indices 3 3 2)

recovered-some : fec_decode came_in came_indices 3 3 2 ≡ some recovered
recovered-some = lost_two ∙ ap (λ o. some (blocks_of o)) (sym lost_two)

decode-encode_example : recovered ≡ three
decode-encode_example =
    decode-encode three 3 2 2 came_in came_indices 3 recovered refl three-AreBlocks (omega arith)
      three-Received recovered-some

-- Two parity blocks and one data block are enough.
decode_complete_example : fec_decode came_in came_indices 3 3 2 ≡ some three
decode_complete_example =
    decode_complete three 3 2 2 came_in came_indices 3 refl three-AreBlocks (omega arith)
      (omega arith) (omega arith) (omega arith) three-Received
      (((λ e. omega arith), ((λ e. omega arith), tt)), (((λ e. omega arith), tt), (tt, tt)))
