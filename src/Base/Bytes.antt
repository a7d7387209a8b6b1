-- ===== src/Base/Bytes.antt =====
-- Integers in network byte order, read back, and slices of concatenations.
use Prim.Native.Nat.{ℕ, ◌/◌, ◌%◌, ◌^◌, ◌<◌}
use mathlib.Core.Path.{◌≡◌, refl, ap}
use mathlib.Core.List.{List, [], ◌∷◌, ◌++◌}
use native.Mathlib.Omega.{arith}
use bi_tun.Base.Lists.{length, take, drop}
use bi_tun.Base.Memory.{be16, be32, be64, from_be}

pub from_be-be16 : (x : ℕ) → x < 2 ^ 16 → from_be (be16 x) ≡ x
from_be-be16 x h = omega arith

pub from_be-be32 : (x : ℕ) → x < 2 ^ 32 → from_be (be32 x) ≡ x
from_be-be32 x h = omega arith

pub from_be-be64 : (x : ℕ) → x < 2 ^ 64 → from_be (be64 x) ≡ x
from_be-be64 x h =
    omega (arith, from_be-be32 (x / 2 ^ 32) (omega arith), from_be-be32 (x % 2 ^ 32) (omega arith))

module _ {ℓ} {A : Type ℓ} where
  pub take-length_append : (xs ys : List A) → take (length xs) (xs ++ ys) ≡ xs
  take-length_append [] ys = refl
  take-length_append (x ∷ xs) ys = ap (λ r. x ∷ r) (take-length_append xs ys)

  pub drop-length_append : (xs ys : List A) → drop (length xs) (xs ++ ys) ≡ ys
  drop-length_append [] ys = refl
  drop-length_append (x ∷ xs) ys = drop-length_append xs ys
