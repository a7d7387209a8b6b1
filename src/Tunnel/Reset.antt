-- ===== src/Tunnel/Reset.antt =====
-- What `reset_tunnel` leaves: no channel is active, whatever ids they had.
use bi_tun.Base.{
  ℕ, zero, suc, ◌+◌, ◌<◌, ◌≤◌, ◌≡◌, refl, sym, ap, ◌∙◌, arith, true, false, ◌&&◌, Option, none,
  some, List, [], ◌∷◌, length, length-set, set, get_elem?, get_elem?-set_self, get_elem?-set_ne,
  replicate, ◌==◌, Bool-cases, Option-cases, ℕ_discrete, inl, inr,
}
use mathlib.Core.Path.{subst}
use bi_tun.Socks5.{socks5_free}
use bi_tun.Tunnel.Types.{Tunnel, disconnected, Channel}
use bi_tun.Tunnel.Host.{Host}
use bi_tun.Tunnel.Send.{Sys}
use bi_tun.Tunnel.Channels.{
  max_channels, find_index, find_channel, fixed_peer, close_channel, close_all, forget_session,
  reset_tunnel,
}

-- The channels below `n` are not active.
abbrev pub IdleBelow : ℕ → List Channel → Type 0
IdleBelow n channels =
    (k : ℕ) (ch : Channel) → k < n → get_elem? channels k ≡ some ch → ch.is_active ≡ false

get_elem?-below :
    {A : Type 0} (xs : List A) (k : ℕ) (x : A) → get_elem? xs k ≡ some x → k < length xs
get_elem?-below [] k x e = absurd (ground arith)
get_elem?-below (y ∷ xs) zero x e = omega arith
get_elem?-below (y ∷ xs) (suc k) x e = omega (arith, get_elem?-below xs k x e)

pub get_elem?-none : {A : Type 0} (xs : List A) (k : ℕ) → get_elem? xs k ≡ none → length xs ≤ k
get_elem?-none [] k e = omega arith
get_elem?-none (y ∷ xs) zero e = absurd (ground arith)
get_elem?-none (y ∷ xs) (suc k) e = omega (arith, get_elem?-none xs k e)

-- The first that passes the test is the one at `i`, where none before it is active.
find_index-first :
    (id i j : ℕ) (channels : List Channel) (ch : Channel)
    → IdleBelow i channels
    → get_elem? channels i ≡ some ch
    → ch.is_active ≡ true
    → ch.channel_id ≡ id
    → find_index (λ c. c.is_active && (c.channel_id == id)) channels j ≡ some (j + i)
unfolding find_index
find_index-first id i j [] ch idle at on same = absurd (ground arith)
find_index-first id zero j (c ∷ rest) ch idle at on same = ground arith
find_index-first id (suc i) j (c ∷ rest) ch idle at on same =
    let off = idle 0 c (omega arith) refl in
    let ih =
      find_index-first id i (j + 1) rest ch (λ k d lt e. idle (suc k) d (omega arith) e) at on
        same in
    ground (arith, off, ih)

module _ (E : Host) where
  -- The channel at `i` closed.
  abbrev closed : Channel → Channel
  closed ch = record ch { tcp_fd = none; socks5_ctx = socks5_free ch.socks5_ctx; is_active = false }

  close_at :
      (s : Sys E) (i : ℕ) (ch : Channel)
      → IdleBelow i s.tun.channels
      → get_elem? s.tun.channels i ≡ some ch
      → ch.is_active ≡ true
      → (close_channel E s ch.channel_id).tun
        ≡ record (s.tun) { channels = set s.tun.channels i (closed ch) }
  unfolding close_channel find_channel
  close_at s i ch idle at on =
      let found =
        find_index-first ch.channel_id i 0 s.tun.channels ch idle at on refl
        ∙ ap some {x = 0 + i} {y = i} (omega arith) in
      rw (found, close_channel, at) refl

  IdleBelow-set :
      (i : ℕ) (channels : List Channel) (ch : Channel)
      → IdleBelow i channels
      → ch.is_active ≡ false
      → IdleBelow (suc i) (set channels i ch)
  IdleBelow-set i channels ch idle off k d lt e = elim (ℕ_discrete k i) [
    | yes same ↦
        let inside : i < length channels =
          omega
            (arith, get_elem?-below (set channels i ch) k d e, length-set channels i ch, same) in
        let here : some ch ≡ some d =
          sym (get_elem?-set_self channels i ch inside)
          ∙ ap (get_elem? (set channels i ch)) (sym same)
          ∙ e in
        ap (λ (o : Option Channel). elim o [ none ↦ false | some c ↦ c.is_active ]) (sym here) ∙ off
    | no ne ↦ idle k d (omega arith) (sym (get_elem?-set_ne channels i k ch (λ f. ne (sym f))) ∙ e)
  ]

  IdleBelow-skip :
      (i : ℕ) (channels : List Channel)
      → IdleBelow i channels
      → ((ch : Channel) → get_elem? channels i ≡ some ch → ch.is_active ≡ false)
      → IdleBelow (suc i) channels
  IdleBelow-skip i channels idle here k d lt e = elim (ℕ_discrete k i) [
    | yes same ↦ here d (ap (get_elem? channels) (sym same) ∙ e)
    | no ne ↦ idle k d (omega arith) e
  ]

  -- `t` has the channels, state, session and key of `s`, but for what is in the channels.
  abbrev pub SameSession : Tunnel (Host.Kcp E) → Tunnel (Host.Kcp E) → Type 0
  SameSession s t =
      (length t.channels ≡ length s.channels)
      × (t.state ≡ s.state)
      × (t.kcp ≡ s.kcp)
      × (t.session_key ≡ s.session_key)

  abbrev Cleared : ℕ → Tunnel (Host.Kcp E) → Tunnel (Host.Kcp E) → Type 0
  Cleared n s t = IdleBelow n t.channels × SameSession s t

  go_on :
      (left i : ℕ) (s next : Tunnel (Host.Kcp E)) (t : Tunnel (Host.Kcp E))
      → SameSession s next
      → Cleared (i + 1 + left) next t
      → Cleared (i + suc left) s t
  go_on left i s next t (n, st, k, key) (idle, (n', st', k', key')) =
      ((λ j d lt e. idle j d (omega arith) e), (n' ∙ n, st' ∙ st, k' ∙ k, key' ∙ key))

  close_all-Cleared :
      (left i : ℕ) (s : Sys E)
      → IdleBelow i s.tun.channels
      → Cleared (i + left) s.tun (close_all E left i s).tun
  unfolding close_all
  close_all-Cleared zero i s idle =
      ((λ k d lt e. idle k d (omega arith) e), (refl, refl, refl, refl))
  close_all-Cleared (suc left) i s idle = elim (Option-cases (get_elem? s.tun.channels i)) [
    | inl missing ↦
        rw (missing, close_all)
          (go_on left i s.tun s.tun (close_all E left (i + 1) s).tun (refl, refl, refl, refl)
            (close_all-Cleared left (i + 1) s (λ k d lt e.
              idle k d
                (omega (
                  arith,
                  get_elem?-below s.tun.channels k d e,
                  get_elem?-none s.tun.channels i missing,
                ))
                e)))
    | inr (ch, at) ↦ elim (Bool-cases ch.is_active) [
      | inr off ↦
          rw (at, close_all, off)
            (go_on left i s.tun s.tun (close_all E left (i + 1) s).tun (refl, refl, refl, refl)
              (close_all-Cleared left (i + 1) s (λ k d lt e.
                IdleBelow-skip i s.tun.channels idle
                  (λ c h.
                    ap (λ (o : Option Channel). elim o [ none ↦ false | some b ↦ b.is_active ])
                      (sym h ∙ at)
                    ∙ off)
                  k d (omega arith) e)))
      | inl on ↦
          let next = close_channel E s ch.channel_id in
          let now = close_at s i ch idle at on in
          rw (at, close_all, on)
            (go_on left i s.tun next.tun (close_all E left (i + 1) next).tun
              (
                ap (λ t. length t.channels) now ∙ length-set s.tun.channels i (closed ch),
                ap (λ t. t.state) now,
                ap (λ t. t.kcp) now,
                ap (λ t. t.session_key) now,
              )
              (close_all-Cleared left (i + 1) next (λ k d lt e.
                subst (λ t. IdleBelow (suc i) t.channels) (sym now)
                  (IdleBelow-set i s.tun.channels (closed ch) idle refl) k d (omega arith) e)))
    ]
  ]

  -- After a reset no channel of the table is active, even where several had one id, there is no
  -- session: the tunnel is disconnected, KCP is gone and the key is zeros.
  pub reset_tunnel-closed :
      (s : Sys E)
      → length s.tun.channels ≤ max_channels
      → let t = (reset_tunnel E s).tun in
        ((k : ℕ) (ch : Channel) → get_elem? t.channels k ≡ some ch → ch.is_active ≡ false)
        × (t.state ≡ disconnected)
        × (t.kcp ≡ none)
        × (t.session_key ≡ replicate 32 0)
  unfolding reset_tunnel forget_session
  reset_tunnel-closed s size =
      let started = record s { tun = forget_session E s.tun } in
      let t = (close_all E max_channels 0 started).tun in
      let (idle, (n, st, k, key)) =
        close_all-Cleared max_channels 0 started (λ k d lt e. absurd (omega arith)) in
      let all : (k : ℕ) (ch : Channel) → get_elem? t.channels k ≡ some ch → ch.is_active ≡ false =
        λ j ch e. idle j ch (omega (arith, get_elem?-below t.channels j ch e, n)) e in
      elim (Bool-cases (fixed_peer s.tun.config)) [
        | inl fixed ↦ rw (fixed, reset_tunnel) (all, st, k, key)
        | inr learnt ↦ rw (learnt, reset_tunnel) (all, st, k, key)
      ]

  -- Where no channel is active the loop does nothing.
  pub close_all_idle :
      (left i : ℕ) (s : Sys E)
      → ((k : ℕ) (ch : Channel) → get_elem? s.tun.channels k ≡ some ch → ch.is_active ≡ false)
      → close_all E left i s ≡ s
  unfolding close_all
  close_all_idle zero i s idle = refl
  close_all_idle (suc left) i s idle = elim (Option-cases (get_elem? s.tun.channels i)) [
    | inl missing ↦ rw (missing, close_all) (close_all_idle left (i + 1) s idle)
    | inr (ch, at) ↦ rw (at, close_all, idle i ch at) (close_all_idle left (i + 1) s idle)
  ]

  -- A close writes to a slot or changes nothing.
  pub close_channel-SameSession :
      (s : Sys E) (id : ℕ) → SameSession s.tun (close_channel E s id).tun
  unfolding close_channel
  close_channel-SameSession s id = elim (Option-cases (find_channel s.tun.channels id)) [
    | inl missing ↦ rw (missing, close_channel) (refl, refl, refl, refl)
    | inr (i, found) ↦ elim (Option-cases (get_elem? s.tun.channels i)) [
      | inl out ↦ rw (found, close_channel, out) (refl, refl, refl, refl)
      | inr (ch, at) ↦
          rw (found, close_channel, at) (length-set s.tun.channels i (closed ch), refl, refl, refl)
    ]
  ]

  pub close_all-SameSession :
      (left i : ℕ) (s : Sys E) → SameSession s.tun (close_all E left i s).tun
  unfolding close_all
  close_all-SameSession zero i s = (refl, refl, refl, refl)
  close_all-SameSession (suc left) i s = elim (Option-cases (get_elem? s.tun.channels i)) [
    | inl missing ↦ rw (missing, close_all) (close_all-SameSession left (i + 1) s)
    | inr (ch, at) ↦ elim (Bool-cases ch.is_active) [
      | inr off ↦ rw (at, close_all, off) (close_all-SameSession left (i + 1) s)
      | inl on ↦
          let (n, st, k, key) = close_channel-SameSession s ch.channel_id in
          let (n', st', k', key') =
            close_all-SameSession left (i + 1) (close_channel E s ch.channel_id) in
          rw (at, close_all, on) (n' ∙ n, st' ∙ st, k' ∙ k, key' ∙ key)
    ]
  ]
