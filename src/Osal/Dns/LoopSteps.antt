-- ===== src/Osal/Dns/LoopSteps.antt =====
-- The steps of the tunnel's loop, and the stop of the thread, keep the invariant.
use bi_tun.Base.{
  ℕ, ◌≡◌, refl, sym, ap, ◌∙◌, arith, true, Option, none, some, List, [], ◌∷◌, ◌++◌, append-nil,
  append_assoc, length, inl, inr,
}
use mathlib.Core.Path.{subst}
use bi_tun.Tunnel.Local.{DnsResult}
use bi_tun.Osal.Queue.{Queue, pop, clear_wakeup}
use bi_tun.Osal.Queue.Slots.{Holds, left-Holds, pop-some, pop-none}
use bi_tun.Osal.Dns.{Dns, AddrInfo, deinit_stop, deinit_clear}
use bi_tun.Osal.Dns.Steps.{polling, draining, returned, System}
use bi_tun.Osal.Dns.Invariant.{some_inj, stop_tasks, Sound}

module _ (getaddrinfo : List ℕ → Option AddrInfo) where
  module _ (s : System) (h : Sound getaddrinfo s) where
    pub wake-Sound :
        Sound getaddrinfo (record s { receiver = draining; queue = clear_wakeup s.queue })
    unfolding clear_wakeup
    wake-Sound = record {
      items = h.items;
      holds = record {
        slots = h.holds.slots;
        bounded = h.holds.bounded;
        start = h.holds.start;
        finish = h.holds.finish;
        size = h.holds.size;
        entries = h.holds.entries;
      };
      announced = λ p. inr (inl refl);
      delivered = h.delivered;
      in_order = h.in_order;
      waiting = h.waiting;
    }

    pub handle-Sound :
        (q : Queue DnsResult) (res : DnsResult)
        → s.receiver ≡ draining
        → pop s.queue ≡ (some res, q)
        → Sound getaddrinfo (record s { queue = q; handled = s.handled ++ (res ∷ []) })
    handle-Sound q res r e = go h.items refl
      where
        go :
            (items : List DnsResult)
            → h.items ≡ items
            → Sound getaddrinfo (record s { queue = q; handled = s.handled ++ (res ∷ []) })
        go [] none_left =
            absurd
              (ground (arith, ap (λ p. p.0) (sym (pop-none s.queue h.items h.holds none_left) ∙ e)))
        go (x ∷ rest) first =
            let popped = sym (pop-some s.queue h.items h.holds x rest first) ∙ e in
            let same : x ≡ res = some_inj (ap (λ p. p.0) popped) in
            record {
              items = rest;
              holds =
                  subst (λ p. Holds p rest) (ap (λ p. p.1) popped)
                    (left-Holds s.queue h.items h.holds x rest first);
              announced = λ p. inr (inl r);
              delivered =
                  h.delivered
                  ∙ ap (λ rs. s.handled ++ rs) (first ∙ ap (λ y. y ∷ rest) same)
                  ∙ sym (append_assoc s.handled (res ∷ []) rest);
              in_order = h.in_order;
              waiting = h.waiting;
            }

    pub drained-Sound :
        (q : Queue DnsResult)
        → s.receiver ≡ draining
        → pop s.queue ≡ (none, q)
        → Sound getaddrinfo (record s { receiver = polling; queue = q })
    drained-Sound q r e = go h.items refl
      where
        go :
            (items : List DnsResult)
            → h.items ≡ items
            → Sound getaddrinfo (record s { receiver = polling; queue = q })
        go [] none_left =
            let unchanged : s.queue ≡ q =
              ap (λ p. p.1) (sym (pop-none s.queue h.items h.holds none_left) ∙ e) in
            subst (λ p. Sound getaddrinfo (record s { receiver = polling; queue = p })) unchanged
              (record {
                items = h.items;
                holds = h.holds;
                announced = λ p. absurd (omega (arith, h.holds.size, ap length none_left));
                delivered = h.delivered;
                in_order = h.in_order;
                waiting = h.waiting;
              })
        go (x ∷ rest) first = absurd (
            ground (arith, ap (λ p. p.0) (sym (pop-some s.queue h.items h.holds x rest first) ∙ e)))

    pub leave-Sound : s.receiver ≡ polling → Sound getaddrinfo (record s { receiver = returned })
    leave-Sound r = record {
      items = h.items;
      holds = h.holds;
      announced = λ p. elim (h.announced p) [
        | inl e ↦ inl e
        | inr (inl d) ↦ absurd (ground (arith, r, d))
        | inr (inr w) ↦ inr (inr w)
      ];
      delivered = h.delivered;
      in_order = h.in_order;
      waiting = h.waiting;
    }

    pub stop-Sound :
        (d : Dns) → deinit_stop s.dns ≡ (true, d) → Sound getaddrinfo (record s { dns = d })
    stop-Sound d e = record {
      items = h.items;
      holds = h.holds;
      announced = h.announced;
      delivered = h.delivered;
      in_order = h.in_order;
      waiting = h.waiting ∙ ap (λ ts. s.taken ++ ts) (sym (stop_tasks s.dns d e));
    }

    pub clear-Sound : Sound getaddrinfo (record s { dns = deinit_clear s.dns; asked = s.taken })
    unfolding deinit_clear
    clear-Sound = record {
      items = h.items;
      holds = h.holds;
      announced = h.announced;
      delivered = h.delivered;
      in_order = h.in_order;
      waiting = sym (append-nil s.taken);
    }
