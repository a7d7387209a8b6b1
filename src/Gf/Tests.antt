-- ===== src/Gf/Tests.antt =====
-- Instances of the laws of the field.
use bi_tun.Base.{◌≡◌, arith, [], ◌∷◌, bit_xor}
use bi_tun.Gf.{gf_mul, gf_div, gf_mul_add_buf}
use bi_tun.Gf.Field.{mul_assoc, mul_distrib, mul-div_cancel}
use bi_tun.Gf.Buffers.{add_scaled, mul_add_buf-add_scaled}

mul_assoc_example : gf_mul 3 (gf_mul 200 77) ≡ gf_mul (gf_mul 3 200) 77
mul_assoc_example = mul_assoc 3 200 77 (omega arith) (omega arith) (omega arith)

mul_distrib_example : gf_mul (bit_xor 3 200) 77 ≡ bit_xor (gf_mul 3 77) (gf_mul 200 77)
mul_distrib_example = mul_distrib 3 200 77 (omega arith) (omega arith) (omega arith)

mul-div_cancel_example : gf_mul 29 (gf_div 1 29) ≡ 1
mul-div_cancel_example = mul-div_cancel 29 (omega arith) (omega arith)

mul_add_buf-add_scaled_example :
    gf_mul_add_buf (1 ∷ 2 ∷ []) (200 ∷ 0 ∷ []) 7 2 ≡ add_scaled (1 ∷ 2 ∷ []) (200 ∷ 0 ∷ []) 7 2
mul_add_buf-add_scaled_example =
    mul_add_buf-add_scaled (1 ∷ 2 ∷ []) (200 ∷ 0 ∷ []) 7 2 (omega arith)
