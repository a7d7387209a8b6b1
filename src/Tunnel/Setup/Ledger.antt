-- ===== src/Tunnel/Setup/Ledger.antt =====
-- The descriptors that `tunnel_init` opens, counted: what the calls do to the count is a hypothesis.
use bi_tun.Base.{
  ℕ, ◌+◌, ◌-◌, ◌≡◌, refl, ap, ◌∙◌, arith, Option, none, some, replicate, ltb, if◌then◌else◌,
  Bool-cases, Option-cases, inl, inr,
}
use bi_tun.Tunnel.Types.{Config}
use bi_tun.Tunnel.Channels.{max_channels}
use bi_tun.Tunnel.Host.{Host}
use bi_tun.Tunnel.Setup.{
  zero_channel, initial_tunnel, Platform, Process, init_fec, init_listener, init_queue, init_socket,
  tunnel_init, address_of,
}
use bi_tun.Tunnel.Setup.Counts.{one, one_if, Ledger}

module _ (E : Host) (O : Platform E) (L : Ledger E O) where
  open E use {World}
  open L use {
    held, dgram_opens, stream_opens, poll_opens, queue_opens, close_closes, poll_closes,
    queue_closes, create_keeps, nonblocking_keeps, reuseaddr_keeps, bind_keeps, listen_keeps,
    poll_add_keeps, real_ms_keeps,
  }

  -- The descriptors of number `k` that are in a process.
  abbrev pub owned : Option (Process E) → ℕ → ℕ
  owned none k = 0
  owned (some p) k =
      one p.udp_fd k + one_if p.poll_set k + one_if p.dns_queue k + one_if p.tcp_listen_fd k

  -- The process has the world that was reached, and no channel.
  abbrev pub Made : Option (Process E) → World → Type 0
  Made none w = Unit {0}
  Made (some p) w = (p.sys.world ≡ w) × (p.sys.tun.channels ≡ replicate max_channels zero_channel)

  -- With `base` of them held by others: what a stage returns holds those and its own.
  abbrev pub Balanced : ℕ → ℕ → Option (Process E) × World → Type 0
  Balanced k base r = (held r.1 k ≡ base + owned r.0 k) × Made r.0 r.1

  module _ (config : Config) (odd even k base : ℕ) where
    fec-Balanced :
        (udp ps queue : ℕ) (listener : Option ℕ) (w : World)
        → held w k ≡ base + (one udp k + one ps k + one queue k + one_if listener k)
        → Balanced k base (init_fec E O config odd even udp ps queue listener w)
    unfolding init_fec initial_tunnel
    fec-Balanced udp ps queue listener w h = (real_ms_keeps w k ∙ h, (refl, refl))

    -- A call that opened what it returned.
    opened :
        (r : Option ℕ × World) (w : World) (o : Option ℕ)
        → r.0 ≡ o
        → held r.1 k ≡ held w k + one_if r.0 k
        → held r.1 k ≡ held w k + one_if o k
    opened r w o e h = h ∙ ap (λ x. held w k + one_if x k) e

    -- The four closes after the listener failed.
    undone :
        (udp ps queue tcp : ℕ) (v : World)
        → held v k ≡ base + (one udp k + one ps k + one queue k + one tcp k)
        → held
            (Host.close E udp
              (Platform.poll_destroy O ps (Platform.queue_destroy O queue (Host.close E tcp v))))
            k
          ≡ base + 0
    undone udp ps queue tcp v h =
        close_closes udp
          (Platform.poll_destroy O ps (Platform.queue_destroy O queue (Host.close E tcp v))) k
        ∙ ap (λ m. m - one udp k)
            (poll_closes ps (Platform.queue_destroy O queue (Host.close E tcp v)) k
              ∙ ap (λ m. m - one ps k)
                  (queue_closes queue (Host.close E tcp v) k
                    ∙ ap (λ m. m - one queue k) (close_closes tcp v k ∙ ap (λ m. m - one tcp k) h)))
        ∙ omega arith

    bind_tcp :
        (udp ps queue tcp : ℕ) (v : World)
        → held v k ≡ base + (one udp k + one ps k + one queue k + one tcp k)
        → let ready = Host.set_nonblocking E tcp (Platform.set_reuseaddr O tcp v) in
          let (bound, after_bind) =
            Platform.bind O tcp (address_of E O none config.local_port) ready in
          let (listening, after_listen) = Platform.listen O tcp after_bind in
          let undo = λ (x : World).
            Host.close E udp
              (Platform.poll_destroy O ps (Platform.queue_destroy O queue (Host.close E tcp x))) in
          Balanced k base (
            if bound
            then (if listening
                then init_fec E O config odd even udp ps queue
                    (some tcp)
                    (Host.poll_add_in E tcp after_listen)
                else (none, undo after_listen))
            else (none, undo after_bind))
    bind_tcp udp ps queue tcp v h =
        let ready = Host.set_nonblocking E tcp (Platform.set_reuseaddr O tcp v) in
        let address = address_of E O none config.local_port in
        let after_bind = (Platform.bind O tcp address ready).1 in
        let after_listen = (Platform.listen O tcp after_bind).1 in
        let total = base + (one udp k + one ps k + one queue k + one tcp k) in
        let b : held after_bind k ≡ total =
          bind_keeps tcp address ready k
          ∙ nonblocking_keeps tcp (Platform.set_reuseaddr O tcp v) k
          ∙ reuseaddr_keeps tcp v k
          ∙ h in
        let l : held after_listen k ≡ total = listen_keeps tcp after_bind k ∙ b in
        elim (Bool-cases (Platform.bind O tcp address ready).0) [
          | inr bad ↦ rw bad (undone udp ps queue tcp after_bind b, tt)
          | inl good ↦ elim (Bool-cases (Platform.listen O tcp after_bind).0) [
            | inr bad ↦ rw (good, bad) (undone udp ps queue tcp after_listen l, tt)
            | inl heard ↦
                rw (good, heard)
                  (fec-Balanced udp ps queue (some tcp) (Host.poll_add_in E tcp after_listen)
                    (poll_add_keeps tcp after_listen k ∙ l))
          ]
        ]

    listener-Balanced :
        (udp ps queue : ℕ) (w : World)
        → held w k ≡ base + (one udp k + one ps k + one queue k)
        → Balanced k base (init_listener E O config odd even udp ps queue w)
    unfolding init_listener
    listener-Balanced udp ps queue w h = elim (Bool-cases (ltb 0 config.local_port)) [
      | inr off ↦ rw off (fec-Balanced udp ps queue none w (h ∙ omega arith))
      | inl on ↦ elim (Option-cases (Host.socket_create E w).0) [
        | inl missing ↦
            rw (on, missing)
              (fec-Balanced udp ps queue none (Host.socket_create E w).1 (
                opened (Host.socket_create E w) w none missing (stream_opens w k)
                ∙ omega (arith, h)))
        | inr (tcp, made) ↦
            let v = (Host.socket_create E w).1 in
            let now : held v k ≡ base + (one udp k + one ps k + one queue k + one tcp k) =
              opened (Host.socket_create E w) w (some tcp) made (stream_opens w k)
              ∙ omega (arith, h) in
            rw (on, made) (bind_tcp udp ps queue tcp v now)
      ]
    ]

    queue-Balanced :
        (udp ps : ℕ) (w : World)
        → held w k ≡ base + (one udp k + one ps k)
        → Balanced k base (init_queue E O config odd even udp ps w)
    unfolding init_queue
    queue-Balanced udp ps w h =
        let r = Platform.queue_create O (Host.poll_add_in E udp w) in
        let before : held (Host.poll_add_in E udp w) k ≡ base + (one udp k + one ps k) =
          poll_add_keeps udp w k ∙ h in
        elim (Option-cases r.0) [
          | inl missing ↦
              rw (init_queue, missing)
                (
                  close_closes udp (Platform.poll_destroy O ps r.1) k
                      ∙ ap (λ m. m - one udp k)
                          (poll_closes ps r.1 k
                            ∙ ap (λ m. m - one ps k)
                                (opened r (Host.poll_add_in E udp w) none missing
                                    (queue_opens (Host.poll_add_in E udp w) k)
                                  ∙ ap (λ m. m + 0) before))
                      ∙ omega arith,
                  tt,
                )
          | inr (q, made) ↦
              rw (init_queue, made)
                (listener-Balanced udp ps q (Host.poll_add_in E q r.1) (
                  poll_add_keeps q r.1 k
                  ∙ opened r (Host.poll_add_in E udp w) (some q) made
                      (queue_opens (Host.poll_add_in E udp w) k)
                  ∙ ap (λ m. m + one q k) before
                  ∙ omega arith))
        ]

    socket-Balanced :
        (udp : ℕ) (w : World)
        → held w k ≡ base + one udp k
        → Balanced k base (init_socket E O config odd even udp w)
    unfolding init_socket
    socket-Balanced udp w h =
        let address = address_of E O config.local_ip config.local_port in
        let ready = Host.set_nonblocking E udp w in
        let v = (Platform.bind O udp address ready).1 in
        let r = Platform.poll_create O v in
        let before : held v k ≡ base + one udp k =
          bind_keeps udp address ready k ∙ nonblocking_keeps udp w k ∙ h in
        elim (Bool-cases (Platform.bind O udp address ready).0) [
          | inr bad ↦
              rw bad (close_closes udp v k ∙ ap (λ m. m - one udp k) before ∙ omega arith, tt)
          | inl good ↦ elim (Option-cases r.0) [
            | inl missing ↦
                rw (good, missing)
                  (
                    close_closes udp r.1 k
                        ∙ ap (λ m. m - one udp k)
                            (opened r v none missing (poll_opens v k) ∙ ap (λ m. m + 0) before)
                        ∙ omega arith,
                    tt,
                  )
            | inr (ps, made) ↦
                rw (good, made)
                  (queue-Balanced udp ps r.1 (
                    opened r v (some ps) made (poll_opens v k)
                    ∙ ap (λ m. m + one ps k) before
                    ∙ omega arith))
          ]
        ]

  pub init-Balanced :
      (config : Config) (odd even : ℕ) (w : World) (k : ℕ)
      → Balanced k (held w k) (tunnel_init E O config odd even w)
  unfolding tunnel_init
  init-Balanced config odd even w k =
      let v = Platform.mutex_create O w in
      let r = Platform.socket_dgram O v in
      let before : held v k ≡ held w k = create_keeps w k in
      elim (Option-cases r.0) [
        | inl missing ↦
            rw (tunnel_init, missing)
              (
                opened config odd even k (held w k) r v none missing (dgram_opens v k)
                    ∙ ap (λ m. m + 0) before,
                tt,
              )
        | inr (udp, made) ↦
            rw (tunnel_init, made)
              (socket-Balanced config odd even k (held w k) udp r.1 (
                opened config odd even k (held w k) r v (some udp) made (dgram_opens v k)
                ∙ ap (λ m. m + one udp k) before))
      ]

  -- `tunnel_init` leaks no descriptor: whichever call fails, a return of -1 leaves as many open
  -- descriptors of each number as there were; a success adds the socket, the poll set, the queue and
  -- the listener that the tunnel holds, and no other.
  pub tunnel_init-held :
      (config : Config) (odd even : ℕ) (w : World) (k : ℕ)
      → held (tunnel_init E O config odd even w).1 k
        ≡ held w k + owned (tunnel_init E O config odd even w).0 k
  tunnel_init-held config odd even w k = (init-Balanced config odd even w k).0
