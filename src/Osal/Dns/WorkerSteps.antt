-- ===== src/Osal/Dns/WorkerSteps.antt =====
-- The steps of the resolver thread, and of the requests to it, keep the invariant.
use bi_tun.Base.{
  ℕ, ◌<◌, ◌≡◌, ◌≢◌, refl, sym, ap, ◌∙◌, arith, Bool, true, false, Option, List, [], ◌∷◌, ◌++◌,
  append-nil, append_assoc, length, ltb, ltb→lt, ltb-false→le, Bool-cases, ◌⊎◌, inl, inr,
}
use mathlib.Core.Path.{subst}
use bi_tun.Tunnel.Local.{DnsResult}
use bi_tun.Osal.Queue.{Queue, push_locked, signal}
use bi_tun.Osal.Queue.Slots.{Holds, signal-Holds, next-Holds, push_locked_room, push_locked_full}
use bi_tun.Osal.Dns.{
  Task, Dns, new_task, takes, AddrInfo, dns_init, dns_resolve_async, take_task, resolve_task,
}
use bi_tun.Osal.Dns.Steps.{Worker, resting, signalling, ended, resolving, draining, System}
use bi_tun.Osal.Dns.Invariant.{
  init_tasks, request_tasks, take_tasks, Kept, kept, lost, WorkerKept, Sound,
}

module _ (getaddrinfo : List ℕ → Option AddrInfo) where
  module _ (s : System) (h : Sound getaddrinfo s) where
    kept_at : (w : Worker) → s.worker ≡ w → WorkerKept getaddrinfo w s.taken s.accepted
    kept_at w e = subst (λ v. WorkerKept getaddrinfo v s.taken s.accepted) e h.in_order

    taken-Kept : s.worker ≡ resting ⊎ s.worker ≡ ended → Kept getaddrinfo s.taken s.accepted
    unfolding WorkerKept
    taken-Kept (inl e) = kept_at resting e
    taken-Kept (inr e) = kept_at ended e

    -- A step that leaves the queue and the loop alone.
    calm :
        (w : Worker)
        → (s.worker ≢ signalling)
        → (0 < s.queue.count)
        → (0 < s.queue.event) ⊎ (s.receiver ≡ draining) ⊎ (w ≡ signalling)
    calm w ne p = elim (h.announced p) [
      | inl e ↦ inl e
      | inr (inl d) ↦ inr (inl d)
      | inr (inr k) ↦ absurd (ne k)
    ]

    pub init-Sound :
        (d : Dns)
        → dns_init true s.dns ≡ (true, d)
        → s.dns.running ≡ false
        → s.worker ≡ ended
        → Sound getaddrinfo (record s { dns = d; worker = resting; asked = s.taken })
    unfolding WorkerKept
    init-Sound d e off w = record {
      items = h.items;
      holds = h.holds;
      announced = calm resting (λ k. ground (arith, w, k));
      delivered = h.delivered;
      in_order = kept_at ended w;
      waiting =
          sym (append-nil s.taken) ∙ ap (λ ts. s.taken ++ ts) (sym (init_tasks s.dns d off e));
    }

    pub request-Sound :
        (domain : List ℕ) (channel_id : ℕ) (d : Dns)
        → dns_resolve_async true domain channel_id s.dns ≡ (true, d)
        → Sound getaddrinfo
            (record s { dns = d; asked = s.asked ++ (new_task domain channel_id ∷ []) })
    request-Sound domain channel_id d e = record {
      items = h.items;
      holds = h.holds;
      announced = h.announced;
      delivered = h.delivered;
      in_order = h.in_order;
      waiting =
          ap (λ ts. ts ++ (new_task domain channel_id ∷ [])) h.waiting
          ∙ append_assoc s.taken s.dns.tasks (new_task domain channel_id ∷ [])
          ∙ ap (λ ts. s.taken ++ ts) (sym (request_tasks domain channel_id s.dns d e));
    }

    pub take-Sound :
        (d : Dns) (task : Task)
        → s.worker ≡ resting
        → take_task s.dns ≡ takes task d
        → Sound getaddrinfo
            (record s { dns = d; worker = resolving task; taken = s.taken ++ (task ∷ []) })
    unfolding WorkerKept
    take-Sound d task w e = record {
      items = h.items;
      holds = h.holds;
      announced = calm (resolving task) (λ k. ground (arith, w, k));
      delivered = h.delivered;
      in_order = (s.taken, refl, kept_at resting w);
      waiting =
          h.waiting
          ∙ ap (λ ts. s.taken ++ ts) (take_tasks s.dns d task e)
          ∙ sym (append_assoc s.taken (task ∷ []) d.tasks);
    }

    -- What is known when the worker has a result in hand.
    before_put :
        (task : Task)
        → s.worker ≡ resolving task
        → (before : List Task) × (s.taken ≡ before ++ (task ∷ []))
          × Kept getaddrinfo before s.accepted
    unfolding WorkerKept
    before_put task w = kept_at (resolving task) w

    pub put-Sound :
        (q : Queue DnsResult) (task : Task) (allocated : Bool)
        → s.worker ≡ resolving task
        → push_locked s.queue (resolve_task getaddrinfo allocated task) ≡ (true, q)
        → Sound getaddrinfo (record s {
          worker = signalling;
          queue = q;
          accepted = s.accepted ++ (resolve_task getaddrinfo allocated task ∷ []);
        })
    unfolding WorkerKept
    put-Sound q task allocated w e =
        let res = resolve_task getaddrinfo allocated task in
        let (before, same, k) = before_put task w in
        record {
          items = h.items ++ (res ∷ []);
          holds = elim (Bool-cases (ltb (length h.items) s.queue.capacity)) [
            | inl low ↦
                let room = ltb→lt (length h.items) s.queue.capacity low in
                subst (λ p. Holds p (h.items ++ (res ∷ [])))
                  (ap (λ p. p.1) (sym (push_locked_room s.queue h.items h.holds res room) ∙ e))
                  (next-Holds s.queue h.items h.holds res room)
            | inr high ↦
                let full =
                  push_locked_full s.queue h.items h.holds res
                    (ltb-false→le (length h.items) s.queue.capacity high) in
                absurd (ground (arith, ap (λ p. p.0) (sym full ∙ e)))
          ];
          announced = λ p. inr (inr refl);
          delivered =
              ap (λ rs. rs ++ (res ∷ [])) h.delivered ∙ append_assoc s.handled h.items (res ∷ []);
          in_order =
              subst (λ ts. Kept getaddrinfo ts (s.accepted ++ (res ∷ []))) (sym same)
                (kept task allocated k);
          waiting = h.waiting;
        }

    pub overflow-Sound :
        (q : Queue DnsResult) (task : Task) (allocated : Bool)
        → s.worker ≡ resolving task
        → push_locked s.queue (resolve_task getaddrinfo allocated task) ≡ (false, q)
        → Sound getaddrinfo (record s { worker = resting; queue = q })
    unfolding WorkerKept
    overflow-Sound q task allocated w e =
        let res = resolve_task getaddrinfo allocated task in
        let (before, same, k) = before_put task w in
        let unchanged : s.queue ≡ q = elim (Bool-cases (ltb (length h.items) s.queue.capacity)) [
          | inl low ↦
              let room =
                push_locked_room s.queue h.items h.holds res
                  (ltb→lt (length h.items) s.queue.capacity low) in
              absurd (ground (arith, ap (λ p. p.0) (sym room ∙ e)))
          | inr high ↦
              let full =
                push_locked_full s.queue h.items h.holds res
                  (ltb-false→le (length h.items) s.queue.capacity high) in
              ap (λ p. p.1) (sym full ∙ e)
        ] in
        record {
          items = h.items;
          holds = subst (λ p. Holds p h.items) unchanged h.holds;
          announced =
              subst
                (λ (p : Queue DnsResult).
                  0 < p.count → (0 < p.event) ⊎ (s.receiver ≡ draining) ⊎ (resting ≡ signalling))
                unchanged (calm resting (λ k. ground (arith, w, k)));
          delivered = h.delivered;
          in_order = subst (λ ts. Kept getaddrinfo ts s.accepted) (sym same) (lost task k);
          waiting = h.waiting;
        }

    pub notify-Sound :
        s.worker ≡ signalling
        → Sound getaddrinfo (record s { worker = resting; queue = signal s.queue })
    unfolding WorkerKept signal
    notify-Sound w = record {
      items = h.items;
      holds = signal-Holds s.queue h.items h.holds;
      announced = λ p. inl (omega arith);
      delivered = h.delivered;
      in_order = kept_at signalling w;
      waiting = h.waiting;
    }

    pub finish-Sound : s.worker ≡ resting → Sound getaddrinfo (record s { worker = ended })
    unfolding WorkerKept
    finish-Sound w = record {
      items = h.items;
      holds = h.holds;
      announced = calm ended (λ k. ground (arith, w, k));
      delivered = h.delivered;
      in_order = kept_at resting w;
      waiting = h.waiting;
    }
