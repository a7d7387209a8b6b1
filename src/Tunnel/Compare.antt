-- ===== src/Tunnel/Compare.antt =====
-- The comparison in constant time of src/tunnel.c.
use bi_tun.Base.{
  ℕ, zero, suc, ◌+◌, ◌/◌, ◌≤◌, ◌≡◌, refl, sym, ap, ◌∙◌, arith, Bool, true, false, not, ◌&&◌, List,
  get_or, drop, ◌==◌, ◌!=◌, bit_or, bit_xor, memcmp_eq, bit_or_low, xor_assoc, xor_self, zero-xor,
  xor-zero, or-zero, ℕ_discrete,
}
use bi_tun.Tunnel.Handshake.{const_memcmp, diff_loop}

or-none : (k a b : ℕ) → a ≤ k → b ≤ k → bit_or a b ≡ 0 → (a ≡ 0) × (b ≡ 0)
or-none zero a b ha hb h = (omega arith, omega arith)
or-none (suc k) a b ha hb h =
    let low = bit_or_low a b in
    let (a0, b0) = or-none k (a / 2) (b / 2) (omega arith) (omega arith) (omega arith) in
    (omega arith, omega arith)

xor-same : (a b : ℕ) → bit_xor a b ≡ 0 → a ≡ b
xor-same a b h =
    sym (xor-zero a)
    ∙ ap (bit_xor a) (sym (xor_self b))
    ∙ sym (xor_assoc a b b)
    ∙ ap (λ x. bit_xor x b) h
    ∙ zero-xor b

-- A step of the loop keeps 0 exactly where it was 0 and the two bytes are equal.
step-zero : (diff x y : ℕ) → (bit_or diff (bit_xor x y) == 0) ≡ (diff == 0) && (x == y)
step-zero diff x y = elim (ℕ_discrete (bit_or diff (bit_xor x y)) 0) [
  | yes e ↦
      let (d, xy) = or-none (diff + bit_xor x y) diff (bit_xor x y) (omega arith) (omega arith) e in
      let same = xor-same x y xy in ground (arith, d, same, e)
  | no ne ↦ elim (ℕ_discrete x y) [
    | yes same ↦
        let nothing : bit_or diff (bit_xor x y) ≡ diff =
          ap (λ z. bit_or diff (bit_xor z y)) same ∙ ap (bit_or diff) (xor_self y) ∙ or-zero diff in
        ground (arith, nothing, ne, same)
    | no differ ↦ ground (arith, ne, differ)
  ]
]

and_assoc : (a b c : Bool) → (a && b) && c ≡ a && (b && c)
and_assoc true b c = refl
and_assoc false b c = refl

diff_loop-eq :
    (a b : List ℕ) (len diff : ℕ) → (diff_loop a b len diff == 0) ≡ (diff == 0) && memcmp_eq len a b
unfolding diff_loop
diff_loop-eq a b zero diff = ground arith
diff_loop-eq a b (suc len) diff =
    let x = get_or a 0 0 in
    let y = get_or b 0 0 in
    let rest = memcmp_eq len (drop 1 a) (drop 1 b) in
    diff_loop-eq (drop 1 a) (drop 1 b) len (bit_or diff (bit_xor x y))
    ∙ ap (λ q. q && rest) (step-zero diff x y)
    ∙ and_assoc (diff == 0) (x == y) rest

differs : (a : ℕ) → (a != 0) ≡ not (a == 0)
differs a = ground arith

-- The comparison in constant time reports a difference exactly where the first `len` bytes are not
-- all equal.
pub const_memcmp_lem : (a b : List ℕ) (len : ℕ) → const_memcmp a b len ≡ not (memcmp_eq len a b)
unfolding const_memcmp
const_memcmp_lem a b len = differs (diff_loop a b len 0) ∙ ap not (diff_loop-eq a b len 0)
