-- ===== src/Replay/History.antt =====
-- The window against the history of all numbers recorded so far.
use bi_tun.Base.{
  ℕ, zero, suc, ◌-◌, ◌/◌, ◌^◌, ◌≤◌, ◌<◌, bit_and, bit_or, Bool, true, false, not, ◌&&◌, ◌||◌, ◌⊎◌,
  List, [], ◌∷◌, ltb, ◌==◌, ◌!=◌, if◌then◌else◌, u64, ◌<<<◌, ◌≡◌, ◌≢◌, ==_iff, refl, sym, ap, ◌∙◌,
  arith, bit, bit-or, bit-shl, bit-shl_low, bit-mod_pow, bit-zero, bit-one, and_mask, bit_lt_two,
  Bool-cases, ltb→lt, ltb-false→le, tests, inl, inr,
}
use native.Mathlib.Nat.{pow-suc, pow-le-pow_right, one-le-pow}
use bi_tun.Replay.{Window, anti_replay_init, anti_replay_check, anti_replay_update, receive_all}

abbrev pub contains : ℕ → List ℕ → Bool
contains a [] = false
contains a (x ∷ xs) = (x == a) || contains a xs

abbrev pub digit : Bool → ℕ
digit true = 1
digit false = 0

-- The window remembers the history `seen`: nothing above `seq_max` was seen, and digit `k` of the
-- map says whether `seq_max - k` was.
pub record Tracks (w : Window) (seen : List ℕ) : Type 0 where
  pub top : (a : ℕ) → w.seq_max < a → contains a seen ≡ false
  pub recent :
      (k : ℕ) → k < 64 → k ≤ w.seq_max → bit k w.bitmap ≡ digit (contains (w.seq_max - k) seen)

pow_small : (k : ℕ) → k < 64 → u64 (1 <<< k) ≡ 2 ^ k
pow_small k h = omega (arith, pow-le-pow_right {n = 2} (omega arith) {i = k} {j = 63} (omega arith))

binary : (x : ℕ) → x < 2 → (x ≡ 0) ⊎ (x ≡ 1)
binary zero h = inl refl
binary (suc zero) h = inr refl
binary (suc (suc x)) h = absurd (omega arith)

-- The test of the code reads digit `k` of the map.
check_bit : (b k : ℕ) → k < 64 → (bit_and b (u64 (1 <<< k)) != 0) ≡ (bit k b == 1)
check_bit b k h =
    rw (pow_small k h, and_mask k b)
      (elim (binary (bit k b) (bit_lt_two k b)) [
        | inl e ↦ rw e (ground arith)
        | inr e ↦ rw e (ground (arith, one-le-pow k 2 (omega arith)))
      ])

pow_digit : (k j : ℕ) → bit k (2 ^ j) ≡ digit (k == j)
pow_digit zero zero = refl
pow_digit (suc k) zero = bit-one k ∙ ground arith
pow_digit zero (suc j) = ground (arith, pow-suc 2 j)
pow_digit (suc k) (suc j) =
    ap (bit k) {x = 2 ^ suc j / 2} {y = 2 ^ j} (omega (arith, pow-suc 2 j))
    ∙ pow_digit k j
    ∙ ground arith

digit_iff : (x : ℕ) (b : Bool) → x ≡ digit b → (x == 1) ≡ b
digit_iff x true e = ground arith
digit_iff x false e = ground arith

-- What the specification accepts: a number that is not 0, and is either above all that was seen or
-- among the 64 latest and not seen.
pub is_fresh : ℕ → List ℕ → ℕ → Bool
is_fresh top seen seq =
    not (seq == 0) && (ltb top seq || (ltb (top - seq) 64 && not (contains seq seen)))

-- On a window that tracks the history `seen`, the check accepts exactly the numbers that are fresh.
pub check-eq-is_fresh :
    (w : Window) (seen : List ℕ) (seq : ℕ)
    → Tracks w seen
    → anti_replay_check w seq ≡ is_fresh w.seq_max seen seq
unfolding anti_replay_check is_fresh
check-eq-is_fresh w seen seq t = ground (
  arith,
  check_bit w.bitmap (w.seq_max - seq),
  t.recent (w.seq_max - seq),
  digit_iff (bit (w.seq_max - seq) w.bitmap) (contains (w.seq_max - (w.seq_max - seq)) seen),
  sub-sub_cancel seq w.seq_max,
)
  where
    sub-sub_cancel : (a b : ℕ) → a ≤ b → b - (b - a) ≡ a
    sub-sub_cancel a b h = omega arith

pub init-Tracks : Tracks anti_replay_init []
unfolding anti_replay_init
init-Tracks = record { top = λ a h. refl; recent = λ k h g. bit-zero k }

abbrev shifted : Window → ℕ → ℕ
shifted w seq = if ltb (seq - w.seq_max) 64 then u64 (w.bitmap <<< (seq - w.seq_max)) else 0

-- The digits of the map once a number above the window has moved it.
module _ (w : Window) (seen : List ℕ) (seq : ℕ) (t : Tracks w seen) (ahead : w.seq_max < seq) where
  shifted-digit :
      (k : ℕ)
      → suc k < 64
      → suc k ≤ seq
      → bit (suc k) (shifted w seq) ≡ digit (contains (seq - suc k) seen)
  shifted-digit k small le = elim (Bool-cases (ltb (seq - w.seq_max) 64)) [
    | inl near ↦ rw near (elim (Bool-cases (ltb (suc k) (seq - w.seq_max))) [
      | inl out ↦
          bit-mod_pow 64 (suc k) (w.bitmap <<< (seq - w.seq_max)) small
          ∙ bit-shl_low (seq - w.seq_max) (suc k) w.bitmap (ltb→lt _ _ out)
          ∙ sym (ap digit (t.top (seq - suc k) (omega tests)))
      | inr inside ↦
          bit-mod_pow 64 (suc k) (w.bitmap <<< (seq - w.seq_max)) small
          ∙ bit-shl (seq - w.seq_max) (suc k) w.bitmap (ltb-false→le _ _ inside)
          ∙ t.recent (suc k - (seq - w.seq_max)) (omega tests) (omega tests)
          ∙ ap (λ a. digit (contains a seen)) {x = w.seq_max - (suc k - (seq - w.seq_max))}
              {y = seq - suc k} (omega tests)
    ])
    | inr far ↦ rw far (bit-zero (suc k) ∙ sym (ap digit (t.top (seq - suc k) (omega tests))))
  ]

  ahead-Tracks : Tracks (record { seq_max = seq; bitmap = bit_or (shifted w seq) 1 }) (seq ∷ seen)
  ahead-Tracks = record {
    top = λ a h. ground (arith, t.top a);
    recent = λ k small le. recent_digit k small le;
  }
    where
      recent_digit :
          (k : ℕ)
          → k < 64
          → k ≤ seq
          → bit k (bit_or (shifted w seq) 1) ≡ digit (contains (seq - k) (seq ∷ seen))
      recent_digit zero small le =
          bit-or 0 (shifted w seq) 1 ∙ ground (arith, bit_lt_two 0 (shifted w seq))
      recent_digit (suc k) small le =
          bit-or (suc k) (shifted w seq) 1 ∙ ground (arith, bit-one k, shifted-digit k small le)

-- A number inside the window sets its digit, and no other.
inside-Tracks :
    (w : Window) (seen : List ℕ) (seq : ℕ)
    → Tracks w seen
    → seq ≤ w.seq_max
    → w.seq_max - seq < 64
    → Tracks (record w { bitmap = bit_or w.bitmap (u64 (1 <<< (w.seq_max - seq))) }) (seq ∷ seen)
inside-Tracks w seen seq t below near = record {
  top = λ a h. ground (arith, t.top a);
  recent = λ k small le.
      bit-or k w.bitmap (u64 (1 <<< (w.seq_max - seq)))
      ∙ ground (
        arith,
        t.recent k small le,
        ap (bit k) (pow_small (w.seq_max - seq) near),
        pow_digit k (w.seq_max - seq),
        bit_lt_two k w.bitmap,
      );
}

-- If the window tracks a history, after the update it tracks that history with the new number
-- added.
pub update-Tracks :
    (w : Window) (seen : List ℕ) (seq : ℕ)
    → Tracks w seen
    → Tracks (anti_replay_update w seq) (seq ∷ seen)
unfolding anti_replay_update
update-Tracks w seen seq t = elim (Bool-cases (ltb w.seq_max seq)) [
  | inl ahead ↦ rw ahead (ahead-Tracks w seen seq t (ltb→lt _ _ ahead))
  | inr behind ↦ rw behind (elim (Bool-cases (ltb (w.seq_max - seq) 64)) [
    | inl near ↦ rw near (inside-Tracks w seen seq t (omega tests) (omega tests))
    | inr far ↦ rw far (record {
      top = λ a h. ground (arith, t.top a);
      recent = λ k small le. ground (arith, t.recent k small le);
    })
  ])
]

passed_new :
    (w : Window) (seen : List ℕ) (seq : ℕ)
    → Tracks w seen
    → anti_replay_check w seq ≡ true
    → (contains seq seen ≡ false) × (seq ≢ 0)
unfolding is_fresh
passed_new w seen seq t h = ground (arith, check-eq-is_fresh w seen seq t, t.top seq)

-- A list in which no number comes twice.
abbrev pub Distinct : List ℕ → Type 0
Distinct [] = Unit {0}
Distinct (x ∷ xs) = (contains x xs ≡ false) × Distinct xs

-- Nothing that was seen before is let through, nor is 0, and nothing is let through twice.
receive_all_below :
    (w : Window) (seen : List ℕ) (seqs : List ℕ)
    → Tracks w seen
    → ((a : ℕ) → contains a seen ≡ true → contains a (receive_all w seqs) ≡ false)
      × (contains 0 (receive_all w seqs) ≡ false)
      × Distinct (receive_all w seqs)
unfolding receive_all
receive_all_below w seen [] t = (λ a h. refl, refl, tt)
receive_all_below w seen (seq ∷ rest) t = elim (Bool-cases (anti_replay_check w seq)) [
  | inl passed ↦
      let ih =
        receive_all_below (anti_replay_update w seq) (seq ∷ seen) rest
          (update-Tracks w seen seq t) in
      let new = passed_new w seen seq t passed in
      rw passed (
        λ a h. ground (arith, ih.0 a, new, ==_iff seq a),
        ground (arith, ih.1, new),
        (ih.0 seq (ground arith), ih.2),
      )
  | inr dropped ↦ rw dropped (receive_all_below w seen rest t)
]

-- From a fresh window no sequence number is let through twice, whatever arrives, and 0 never is.
pub receive_all-Distinct :
    (seqs : List ℕ)
    → Distinct (receive_all anti_replay_init seqs)
      × (contains 0 (receive_all anti_replay_init seqs) ≡ false)
receive_all-Distinct seqs =
    let r = receive_all_below anti_replay_init [] seqs init-Tracks in (r.2, r.1)
