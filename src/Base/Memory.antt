-- ===== src/Base/Memory.antt =====
-- Memory as lists of bytes: slices, comparisons, and integers in network byte order.
use Prim.Native.Nat.{ℕ, zero, suc, ◌+◌, ◌*◌, ◌/◌, ◌%◌, ◌^◌}
use mathlib.Core.Bool.{Bool, true, false, ◌&&◌}
use mathlib.Core.List.{List, [], ◌∷◌, ◌++◌}
use bi_tun.Base.Tests.{ltb, ◌==◌, if◌then◌else◌}
use bi_tun.Base.Lists.{take, drop, get_or, replicate}

-- `n` bytes from offset `off` on.
abbrev pub slice : List ℕ → ℕ → ℕ → List ℕ
slice buf off n = take n (drop off buf)

-- `memcmp(a, b, n) == 0` and `memcmp(a, b, n) > 0` on bytes `i`, … of both.
abbrev pub memcmp_eq : ℕ → List ℕ → List ℕ → Bool
memcmp_eq zero a b = true
memcmp_eq (suc n) a b = (get_or a 0 0 == get_or b 0 0) && memcmp_eq n (drop 1 a) (drop 1 b)

abbrev pub memcmp_gt : ℕ → List ℕ → List ℕ → Bool
memcmp_gt zero a b = false
memcmp_gt (suc n) a b =
    let later = memcmp_gt n (drop 1 a) (drop 1 b) in
    if ltb (get_or b 0 0) (get_or a 0 0)
    then true
    else if ltb (get_or a 0 0) (get_or b 0 0)
    then false
    else later

-- The string that starts at a pointer: the bytes up to the first zero byte.
abbrev pub c_string : List ℕ → List ℕ
c_string [] = []
c_string (c ∷ rest) = let later = c_string rest in if c == 0 then [] else c ∷ later

-- `memcpy` of a list over the start of an array, and `memset` to 0 after it: the array keeps its size.
abbrev pub padded : List ℕ → ℕ → List ℕ
padded bytes n = take n (bytes ++ replicate n 0)

abbrev pub be16 : ℕ → List ℕ
be16 x = x / 256 % 256 ∷ x % 256 ∷ []

abbrev pub be32 : ℕ → List ℕ
be32 x = be16 (x / 2 ^ 16) ++ be16 (x % 2 ^ 16)

abbrev pub be64 : ℕ → List ℕ
be64 x = be32 (x / 2 ^ 32) ++ be32 (x % 2 ^ 32)

-- The number that bytes in network order stand for.
abbrev pub from_be : List ℕ → ℕ
from_be bytes = go 0 bytes
  where
    go : ℕ → List ℕ → ℕ
    go acc [] = acc
    go acc (b ∷ bs) = go (acc * 256 + b) bs
