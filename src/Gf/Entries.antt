-- ===== src/Gf/Entries.antt =====
-- What `gf_init` leaves in the tables.
use bi_tun.Base.{
  ℕ, zero, suc, ◌+◌, ◌≤◌, ◌<◌, Bool, true, ◌&&◌, ◌||◌, ◌≡◌, ◌≢◌, refl, sym, ap, ◌∙◌, arith, leb,
  ◌==◌, ◌!=◌, get_or,
}
use bi_tun.Gf.{Tables, next_val, gf_init, gf_exp, gf_log}
use bi_tun.Gf.Powers.{steps, steps-suc}

-- Whether the test holds of each index of a table of that size.
holds_on : (ℕ → Bool) → ℕ → Bool
holds_on test zero = true
holds_on test (suc size) = let earlier = holds_on test size in test size && earlier

holds_at : (test : ℕ → Bool) (size k : ℕ) → k < size → holds_on test size ≡ true → test k ≡ true
unfolding holds_on
holds_at test zero k inside checked = absurd (omega arith)
holds_at test (suc size) k inside checked =
    let earlier = holds_at test size k in ground (arith, checked, earlier)

-- The exponent table, walked with the running power: entry `i` on holds the powers of `val` on.
is_powers : ℕ → ℕ → ℕ → Tables → Bool
is_powers zero i val t = true
is_powers (suc left) i val t = (get_or t.exp i 0 == val) && is_powers left (i + 1) (next_val val) t

exp_checked : is_powers 511 0 1 gf_init ≡ true
unfolding is_powers gf_init
exp_checked = refl

is_powers-steps :
    (left i val : ℕ) (t : Tables)
    → is_powers left i val t ≡ true
    → (k : ℕ) → k < left
    → get_or t.exp (i + k) 0 ≡ steps k val
unfolding is_powers
is_powers-steps zero i val t h k lt = absurd (omega arith)
is_powers-steps (suc left) i val t h zero lt =
    ap (λ j. get_or t.exp j 0) {x = i + 0} {y = i} (omega arith) ∙ unfold steps in ground arith
is_powers-steps (suc left) i val t h (suc k) lt =
    ap (λ j. get_or t.exp j 0) {x = i + suc k} {y = i + 1 + k} (omega arith)
    ∙ is_powers-steps left (i + 1) (next_val val) t (ground arith) k (omega arith)
    ∙ steps-suc k val

-- Entry `k` of the exponent table is the generator to the power `k`.
pub exp-steps : (k : ℕ) → k < 511 → gf_exp k ≡ steps k 1
unfolding gf_exp
exp-steps k h =
    ap (λ j. get_or gf_init.exp j 0) {x = k} {y = 0 + k} (omega arith)
    ∙ is_powers-steps 511 0 1 gf_init exp_checked k h

is_log : Tables → ℕ → Bool
is_log t a = (a == 0) || (leb (get_or t.log a 0) 255 && get_or t.exp (get_or t.log a 0) 0 == a)

logs_checked : holds_on (is_log gf_init) 256 ≡ true
unfolding holds_on is_log gf_init
logs_checked = refl

log_entry : (a : ℕ) → a < 256 → a ≢ 0 → (gf_log a ≤ 255) × (gf_exp (gf_log a) ≡ a)
unfolding is_log gf_log gf_exp
log_entry a h ne = ground (arith, holds_at (is_log gf_init) 256 a h logs_checked)

pub log-le : (a : ℕ) → a < 256 → a ≢ 0 → gf_log a ≤ 255
log-le a h ne = (log_entry a h ne).0

-- The logarithm of a byte that is not 0 is a power that gives the byte.
pub steps-log : (a : ℕ) → a < 256 → a ≢ 0 → steps (gf_log a) 1 ≡ a
steps-log a h ne = let e = log_entry a h ne in sym (exp-steps (gf_log a) (omega (arith, e.0))) ∙ e.1

pub steps_full : steps 255 1 ≡ 1
unfolding gf_exp gf_init
steps_full = sym (exp-steps 255 (omega arith))

nonzero_checked : holds_on (λ k. get_or gf_init.exp k 0 != 0) 511 ≡ true
unfolding holds_on gf_init
nonzero_checked = refl

-- No power of the generator is 0.
pub steps_ne_zero : (k : ℕ) → k < 511 → steps k 1 ≢ 0
unfolding gf_exp
steps_ne_zero k h =
    ground
      (arith, exp-steps k h, holds_at (λ k. get_or gf_init.exp k 0 != 0) 511 k h nonzero_checked)

-- The loop reaches the value 1 again in its last round, and leaves 255 there.
pub log-one : gf_log 1 ≡ 255
unfolding gf_log gf_init
log-one = refl
