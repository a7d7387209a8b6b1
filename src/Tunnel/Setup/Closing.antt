-- ===== src/Tunnel/Setup/Closing.antt =====
-- `tunnel_destroy` after `tunnel_init`: every descriptor is closed again.
use bi_tun.Base.{
  ℕ, zero, suc, ◌-◌, ◌≡◌, refl, sym, ap, ◌∙◌, arith, false, Option, none, some, get_elem?,
  get_elem?-replicate, Bool-cases, Option-cases, inl, inr,
}
use bi_tun.Tunnel.Types.{Config, Channel}
use bi_tun.Tunnel.Host.{Host}
use bi_tun.Tunnel.Send.{Sys}
use bi_tun.Tunnel.Channels.{max_channels, fixed_peer, forget_session, reset_tunnel, close_all}
use bi_tun.Tunnel.Reset.{close_all_idle}
use bi_tun.Tunnel.Setup.{Platform, Process, tunnel_init, tunnel_destroy, free_results, zero_channel}
use bi_tun.Tunnel.Setup.Ledger.{Balanced, init-Balanced}
use bi_tun.Tunnel.Setup.Counts.{Ledger, one, one_if}

module _ (E : Host) (O : Platform E) (L : Ledger E O) where
  open E use {World}
  open L use {
    held, close_closes, poll_closes, queue_closes, lock_keeps, unlock_keeps, destroy_keeps,
    pop_keeps,
  }

  reset-world :
      (s : Sys E)
      → ((k : ℕ) (ch : Channel) → get_elem? s.tun.channels k ≡ some ch → ch.is_active ≡ false)
      → (reset_tunnel E s).world ≡ s.world
  unfolding reset_tunnel forget_session
  reset-world s idle =
      let started = record s { tun = forget_session E s.tun } in
      let same : (close_all E max_channels 0 started).world ≡ s.world =
        ap (λ (t : Sys E). t.world) (close_all_idle E max_channels 0 started idle) in
      elim (Bool-cases (fixed_peer s.tun.config)) [
        | inl fixed ↦ rw (fixed, reset_tunnel) same
        | inr learnt ↦ rw (learnt, reset_tunnel) same
      ]

  free_results-held :
      (fuel queue : ℕ) (w : World) (k : ℕ) → held (free_results E O fuel queue w) k ≡ held w k
  unfolding free_results
  free_results-held zero queue w k = refl
  free_results-held (suc fuel) queue w k = elim (Option-cases (Platform.queue_pop O queue w).0) [
    | inl empty ↦ rw (empty, free_results) (pop_keeps queue w k)
    | inr (res, got) ↦
        rw (got, free_results)
          (free_results-held fuel queue (Platform.queue_pop O queue w).1 k ∙ pop_keeps queue w k)
  ]

  closed_if :
      (fd : Option ℕ) (w : World) (k : ℕ)
      → held (elim fd [ none ↦ w | some f ↦ Host.close E f w ]) k ≡ held w k - one_if fd k
  closed_if none w k = omega arith
  closed_if (some fd) w k = close_closes fd w k

  poll_closed_if :
      (fd : Option ℕ) (w : World) (k : ℕ)
      → held (elim fd [ none ↦ w | some f ↦ Platform.poll_destroy O f w ]) k
        ≡ held w k - one_if fd k
  poll_closed_if none w k = omega arith
  poll_closed_if (some fd) w k = poll_closes fd w k

  queue_closed_if :
      (fuel : ℕ) (fd : Option ℕ) (w : World) (k : ℕ)
      → held
          (elim fd [ none ↦ w | some f ↦ Platform.queue_destroy O f (free_results E O fuel f w) ])
          k
        ≡ held w k - one_if fd k
  queue_closed_if fuel none w k = omega arith
  queue_closed_if fuel (some fd) w k =
      queue_closes fd (free_results E O fuel fd w) k
      ∙ ap (λ m. m - one fd k) (free_results-held fuel fd w k)

  destroy-held :
      (fuel : ℕ) (p : Process E) (k : ℕ)
      → ((i : ℕ) (ch : Channel) → get_elem? p.sys.tun.channels i ≡ some ch → ch.is_active ≡ false)
      → held (tunnel_destroy E O fuel p).sys.world k
        ≡ held p.sys.world k
          - one p.udp_fd k
          - one_if p.tcp_listen_fd k
          - one_if p.poll_set k
          - one_if p.dns_queue k
  unfolding tunnel_destroy
  destroy-held fuel p k idle =
      let locked = record (p.sys) { world = Platform.mutex_lock O p.sys.world } in
      let reset = reset_tunnel E locked in
      let no_udp = Host.close E p.udp_fd reset.world in
      let no_tcp : World = elim p.tcp_listen_fd [
        | none ↦ no_udp
        | some fd ↦ Host.close E fd no_udp
      ] in
      let no_poll : World = elim p.poll_set [
        | none ↦ no_tcp
        | some ps ↦ Platform.poll_destroy O ps no_tcp
      ] in
      let no_queue : World = elim p.dns_queue [
        | none ↦ no_poll
        | some q ↦ Platform.queue_destroy O q (free_results E O fuel q no_poll)
      ] in
      destroy_keeps (Platform.mutex_unlock O no_queue) k
      ∙ unlock_keeps no_queue k
      ∙ queue_closed_if fuel p.dns_queue no_poll k
      ∙ ap (λ m. m - one_if p.dns_queue k)
          (poll_closed_if p.poll_set no_tcp k
            ∙ ap (λ m. m - one_if p.poll_set k)
                (closed_if p.tcp_listen_fd no_udp k
                  ∙ ap (λ m. m - one_if p.tcp_listen_fd k)
                      (close_closes p.udp_fd reset.world k
                        ∙ ap (λ m. m - one p.udp_fd k)
                            (ap (λ w. held w k) (reset-world locked idle)
                              ∙ lock_keeps p.sys.world k))))

  -- A tunnel that was set up and is destroyed leaves every descriptor number with as many open
  -- descriptors as before: the socket, the listener if there is one, the poll set and the queue are
  -- closed, and no other.
  pub destroy-init :
      (config : Config) (odd even : ℕ) (w : World) (fuel : ℕ) (p : Process E)
      → (tunnel_init E O config odd even w).0 ≡ some p
      → (k : ℕ) → held (tunnel_destroy E O fuel p).sys.world k ≡ held w k
  destroy-init config odd even w fuel p e k =
      go (tunnel_init E O config odd even w) (init-Balanced E O L config odd even w k) e
    where
      go :
          (r : Option (Process E) × World)
          → Balanced E O L k (held w k) r
          → r.0 ≡ some p
          → held (tunnel_destroy E O fuel p).sys.world k ≡ held w k
      go (none, v) b made = absurd (ground (arith, made))
      go (some q, v) b made =
          let same : q ≡ p = ap (λ o. elim o [ none ↦ q | some x ↦ x ]) made in
          let (here, blank) = b.1 in
          let idle : (i : ℕ) (ch : Channel)
              → get_elem? q.sys.tun.channels i ≡ some ch
              → ch.is_active ≡ false =
            λ i ch at.
              ap (λ (c : Channel). c.is_active)
                (get_elem?-replicate max_channels zero_channel i ch
                  (ap (λ cs. get_elem? cs i) (sym blank) ∙ at)) in
          ap (λ x. held (tunnel_destroy E O fuel x).sys.world k) (sym same)
          ∙ destroy-held fuel q k idle
          ∙ ap
              (λ m.
                m
                - one q.udp_fd k
                - one_if q.tcp_listen_fd k
                - one_if q.poll_set k
                - one_if q.dns_queue k)
              (ap (λ x. held x k) here ∙ b.0)
          ∙ omega arith
