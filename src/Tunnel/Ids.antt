-- ===== src/Tunnel/Ids.antt =====
-- The channel ids of the two ends: one end counts odd numbers, the other even ones.
use bi_tun.Base.{
  ℕ, zero, suc, ◌+◌, ◌*◌, ◌^◌, u32, ◌%◌, ◌<◌, ◌≡◌, ◌≢◌, refl, ap, ◌∙◌, arith, Bool, not, List, [],
  ◌∷◌, get_or, if◌then◌else◌, Bool-cases, inl, inr,
}
use bi_tun.Tunnel.Types.{Tunnel}
use bi_tun.Tunnel.Host.{Host}
use bi_tun.Tunnel.Local.{next_id}

module _ (E : Host) where
  -- The ids of the next `n` clients.
  unfoldable pub ids : ℕ → Tunnel (Host.Kcp E) → List ℕ
  unfolding next_id
  ids zero tun = []
  ids (suc n) tun = let (id, tun') = next_id E tun in id ∷ ids n tun'

  -- The counters as they start, or after any number of clients.
  abbrev pub Counting : Tunnel (Host.Kcp E) → Type 0
  Counting tun =
      (tun.next_odd_id % 2 ≡ 1)
      × (tun.next_even_id % 2 ≡ 0)
      × (tun.next_odd_id < 2 ^ 32)
      × (tun.next_even_id < 2 ^ 32)

  -- The id of the next client.
  abbrev start : Tunnel (Host.Kcp E) → ℕ
  start tun = if tun.is_odd_id_generator then tun.next_odd_id else tun.next_even_id

  abbrev pub parity : Bool → ℕ
  parity b = if b then 1 else 0

  next_id-parity :
      (tun : Tunnel (Host.Kcp E))
      → Counting tun
      → let (id, tun') = next_id E tun in
        (id % 2 ≡ parity tun.is_odd_id_generator)
        × Counting tun'
        × (tun'.is_odd_id_generator ≡ tun.is_odd_id_generator)
  unfolding next_id
  next_id-parity tun (odd, even, small, small') = elim (Bool-cases tun.is_odd_id_generator) [
    | inl o ↦ rw (next_id, o) (odd, (omega arith, even, omega arith, small'), refl)
    | inr e ↦ rw (next_id, e) (even, (odd, omega arith, small, omega arith), refl)
  ]

  next_id-start :
      (tun : Tunnel (Host.Kcp E))
      → let (id, tun') = next_id E tun in (id ≡ start tun) × (start tun' ≡ u32 (start tun + 2))
  unfolding next_id
  next_id-start tun = elim (Bool-cases tun.is_odd_id_generator) [
    | inl o ↦ rw (next_id, o) (refl, refl)
    | inr e ↦ rw (next_id, e) (refl, refl)
  ]

  start_lt : (tun : Tunnel (Host.Kcp E)) → Counting tun → start tun < 2 ^ 32
  start_lt tun (odd, even, small, small') = ground (arith, small, small')

  ids-parity :
      (n : ℕ) (tun : Tunnel (Host.Kcp E))
      → Counting tun
      → (k : ℕ) → k < n
      → get_or (ids n tun) k 0 % 2 ≡ parity tun.is_odd_id_generator
  unfolding ids
  ids-parity zero tun h k lt = absurd (omega arith)
  ids-parity (suc n) tun h zero lt = (next_id-parity tun h).0
  ids-parity (suc n) tun h (suc k) lt =
      let step = next_id-parity tun h in
      ids-parity n (next_id E tun).1 step.1 k (omega arith) ∙ ap parity step.2

  -- The counter advances by two from each client to the next, modulo 2 ^ 32.
  ids-nth :
      (n : ℕ) (tun : Tunnel (Host.Kcp E))
      → Counting tun
      → (k : ℕ) → k < n
      → get_or (ids n tun) k 0 ≡ u32 (start tun + 2 * k)
  unfolding ids
  ids-nth zero tun h k lt = absurd (omega arith)
  ids-nth (suc n) tun h zero lt = omega (arith, (next_id-start tun).0, start_lt tun h)
  ids-nth (suc n) tun h (suc k) lt =
      let ih = ids-nth n (next_id E tun).1 (next_id-parity tun h).1 k (omega arith) in
      omega (arith, ih, (next_id-start tun).1)

  -- Two ids of one end are different where there are fewer than 2 ^ 31 clients from the one to the
  -- other; and where one end generates odd ids and the other even ones, no id of the one is an id of
  -- the other, however many clients they take. The counters are below 2 ^ 32, and odd and even as
  -- they start.
  pub ids-apart :
      (a b : Tunnel (Host.Kcp E))
      → Counting a
      → Counting b
      → b.is_odd_id_generator ≡ not a.is_odd_id_generator
      → (n m i j k : ℕ) → i < j
      → j < n
      → j < i + 2 ^ 31
      → k < m
      → (get_or (ids n a) i 0 ≢ get_or (ids n a) j 0)
        × (get_or (ids n a) j 0 ≢ get_or (ids m b) k 0)
  ids-apart a b ha hb roles n m i j k hij hj near hk = (
    λ same. absurd (omega (arith, ids-nth n a ha i (omega arith), ids-nth n a ha j hj, same)),
    λ same.
        let pa = ids-parity n a ha j hj in
        let pb = ids-parity m b hb k hk in
        elim (Bool-cases a.is_odd_id_generator) [
          | inl o ↦ ground (arith, pa, pb, o, roles, same)
          | inr e ↦ ground (arith, pa, pb, e, roles, same)
        ],
  )
