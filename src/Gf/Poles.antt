-- ===== src/Gf/Poles.antt =====
-- Poles whose coefficient is known to be 0 can be struck out of a sum of fractions.
use bi_tun.Base.{
  ℕ, suc, ◌+◌, ◌<◌, ◌≤◌, bit_xor, ◌≡◌, ◌≢◌, refl, sym, ap, ap₂, ◌∙◌, arith, Bool, true, false, ◌||◌,
  List, [], ◌∷◌, length, ◌==◌, if◌then◌else◌, zero-xor, ℕ_discrete, ◌⊎◌, inl, inr,
}
use mathlib.Core.Path.{subst}
use bi_tun.Gf.{gf_mul}
use bi_tun.Gf.Field.{zero-mul}
use bi_tun.Gf.Cauchy.{inv}
use bi_tun.Gf.Vanish.{fractions-vanish}
use bi_tun.Gf.Fractions.{All, All-map, All-and, Distinct, Bytes, fractions}

unfoldable pub has : ℕ → List ℕ → Bool
has q [] = false
has q (j ∷ js) = (j == q) || has q js

unfoldable pub remove : ℕ → List ℕ → List ℕ
remove q [] = []
remove q (j ∷ js) = let rest = remove q js in if j == q then rest else j ∷ rest

remove-hit : (q j : ℕ) (js : List ℕ) → j ≡ q → remove q (j ∷ js) ≡ remove q js
unfolding remove
remove-hit q j js e = ground arith

remove-miss : (q j : ℕ) (js : List ℕ) → j ≢ q → remove q (j ∷ js) ≡ j ∷ remove q js
unfolding remove
remove-miss q j js e = ground arith

length-remove : (q : ℕ) (js : List ℕ) → length (remove q js) ≤ length js
unfolding remove
length-remove q [] = omega arith
length-remove q (j ∷ js) = ground (arith, length-remove q js)

length-remove-has : (q : ℕ) (js : List ℕ) → has q js ≡ true → suc (length (remove q js)) ≤ length js
unfolding remove has
length-remove-has q [] h = absurd (ground arith)
length-remove-has q (j ∷ js) h = ground (arith, length-remove q js, length-remove-has q js)

has-remove : (q p : ℕ) (js : List ℕ) → p ≢ q → has p js ≡ true → has p (remove q js) ≡ true
unfolding remove has
has-remove q p [] ne h = h
has-remove q p (j ∷ js) ne h = ground (arith, has-remove q p js ne)

All-remove {ℓ} : (P : ℕ → Type ℓ) (q : ℕ) (js : List ℕ) → All P js → All P (remove q js)
unfolding remove
All-remove P q [] h = tt
All-remove P q (j ∷ js) h = elim (ℕ_discrete j q) [
  | yes e ↦ subst (All P) (sym (remove-hit q j js e)) (All-remove P q js h.1)
  | no ne ↦ subst (All P) (sym (remove-miss q j js ne)) (h.0, All-remove P q js h.1)
]

Distinct-remove : (q : ℕ) (js : List ℕ) → Distinct js → Distinct (remove q js)
unfolding remove
Distinct-remove q [] h = tt
Distinct-remove q (j ∷ js) h = elim (ℕ_discrete j q) [
  | yes e ↦ subst Distinct (sym (remove-hit q j js e)) (Distinct-remove q js h.1)
  | no ne ↦
      subst Distinct (sym (remove-miss q j js ne))
        (All-remove (λ y. j ≢ y) q js h.0, Distinct-remove q js h.1)
]

module _ (c : ℕ → ℕ) (q : ℕ) (gone : c q ≡ 0) where
  fractions-remove : (js : List ℕ) (z : ℕ) → fractions c (remove q js) z ≡ fractions c js z
  unfolding fractions remove
  fractions-remove [] z = refl
  fractions-remove (j ∷ js) z = elim (ℕ_discrete j q) [
    | yes e ↦
        ap (λ ks. fractions c ks z) (remove-hit q j js e)
        ∙ fractions-remove js z
        ∙ sym (
            ap₂ bit_xor
              (ap (λ k. gf_mul k (inv (bit_xor z j))) (ap c e ∙ gone)
                ∙ zero-mul (inv (bit_xor z j)))
              (refl {a = fractions c js z})
            ∙ zero-xor (fractions c js z))
    | no ne ↦
        ap (λ ks. fractions c ks z) (remove-miss q j js ne)
        ∙ ap (bit_xor (gf_mul (c j) (inv (bit_xor z j)))) (fractions-remove js z)
  ]

  All-restore : (js : List ℕ) → All (λ j. c j ≡ 0) (remove q js) → All (λ j. c j ≡ 0) js
  unfolding remove
  All-restore [] h = tt
  All-restore (j ∷ js) h = elim (ℕ_discrete j q) [
    | yes e ↦ (ap c e ∙ gone, All-restore js (subst (All (λ j. c j ≡ 0)) (remove-hit q j js e) h))
    | no ne ↦
        let h' = subst (All (λ j. c j ≡ 0)) (remove-miss q j js ne) h in (h'.0, All-restore js h'.1)
  ]

-- A pole with coefficient 0, or a zero that is no pole.
abbrev pub Known : (ℕ → ℕ) → List ℕ → ℕ → Type 0
Known c js q = ((has q js ≡ true) × (c q ≡ 0)) ⊎ (All (λ j. q ≢ j) js × (fractions c js q ≡ 0))

Known-remove :
    (c : ℕ → ℕ) (q : ℕ)
    → c q ≡ 0
    → (js : List ℕ) (p : ℕ) → p ≢ q
    → Known c js p
    → Known c (remove q js) p
Known-remove c q gone js p ne (inl (member, blank)) = inl (has-remove q p js ne member, blank)
Known-remove c q gone js p ne (inr (apart, zeroed)) =
    inr (All-remove (λ j. p ≢ j) q js apart, fractions-remove c q gone js p ∙ zeroed)

-- As many known points as poles, all distinct, leave no coefficient. `ps` are the zeros met so far.
pub Known-vanish :
    (c : ℕ → ℕ) (js qs ps : List ℕ)
    → Bytes c js
    → All (λ j. j < 256) js
    → Distinct js
    → All (λ q. q < 256) qs
    → Distinct qs
    → All (Known c js) qs
    → All (λ p. p < 256) ps
    → Distinct ps
    → All (λ q. All (λ p. q ≢ p) ps) qs
    → All (λ p. All (λ j. p ≢ j) js × (fractions c js p ≡ 0)) ps
    → length js ≤ length qs + length ps
    → All (λ j. c j ≡ 0) js
Known-vanish c js [] ps hc bj dj bq dq known bp dp away zeros size =
    fractions-vanish c js ps hc bj bp dj dp (All-map (λ p x. x.0) ps zeros) (omega arith)
      (All-map (λ p x. x.1) ps zeros)
Known-vanish c js (q ∷ qs) ps hc bj dj bq dq (inl (member, blank), known) bp dp away zeros size =
    All-restore c q blank js (
      Known-vanish c (remove q js) qs ps (All-remove (λ j. c j < 256) q js hc)
        (All-remove (λ j. j < 256) q js bj) (Distinct-remove q js dj) bq.1 dq.1
        (All-map
          (λ p (x : (q ≢ p) × Known c js p). Known-remove c q blank js p (λ e. x.0 (sym e)) x.1) qs
          (All-and (λ p. q ≢ p) (Known c js) qs dq.0 known))
        bp dp away.1
        (All-map
          (λ p (x : All (λ j. p ≢ j) js × (fractions c js p ≡ 0)).
            (All-remove (λ j. p ≢ j) q js x.0, fractions-remove c q blank js p ∙ x.1))
          ps zeros)
        (omega (arith, length-remove-has q js member)))
Known-vanish c js (q ∷ qs) ps hc bj dj bq dq (inr zeroed, known) bp dp away zeros size =
    Known-vanish c js qs (q ∷ ps) hc bj dj bq.1 dq.1 known (bq.0, bp) (away.0, dp)
      (All-map (λ p (x : (q ≢ p) × All (λ r. p ≢ r) ps). ((λ e. x.0 (sym e)), x.1)) qs
        (All-and (λ p. q ≢ p) (λ p. All (λ r. p ≢ r) ps) qs dq.0 away.1))
      (zeroed, zeros) (omega arith)
