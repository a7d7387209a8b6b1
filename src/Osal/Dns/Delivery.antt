-- ===== src/Osal/Dns/Delivery.antt =====
-- What the tunnel can rely on of the resolver thread, whichever way the steps of both are interleaved.
use bi_tun.Base.{
  ℕ, ◌<◌, ◌≡◌, sym, ap, ◌∙◌, Option, List, [], ◌∷◌, ◌++◌, append-nil, append_assoc, ◌⊎◌,
}
use mathlib.Core.Path.{subst}
use bi_tun.Tunnel.Local.{DnsResult}
use bi_tun.Osal.Queue.Slots.{Holds}
use bi_tun.Osal.Dns.{Task, AddrInfo}
use bi_tun.Osal.Dns.Steps.{
  Worker, resting, signalling, ended, resolving, polling, draining, System, Steps,
}
use bi_tun.Osal.Dns.Invariant.{Kept, WorkerKept, Sound, Fresh, Fresh-Sound}
use bi_tun.Osal.Dns.Sound.{Steps-Sound}

module _ (getaddrinfo : List ℕ → Option AddrInfo) where
  reached : {s t : System} → Fresh getaddrinfo s → Steps getaddrinfo s t → Sound getaddrinfo t
  reached f path = Steps-Sound getaddrinfo path (Fresh-Sound getaddrinfo f)

  -- No wake-up is lost: in every state that can be reached, while a result lies in the queue the
  -- eventfd is readable, or the tunnel is in the loop that takes results, or the worker has yet to
  -- write to the eventfd.
  pub no_lost_wakeup :
      {s t : System}
      → Fresh getaddrinfo s
      → Steps getaddrinfo s t
      → 0 < t.queue.count
      → (0 < t.queue.event) ⊎ (t.receiver ≡ draining) ⊎ (t.worker ≡ signalling)
  no_lost_wakeup f path p = Sound.announced (reached f path) p

  worker_prefix :
      (w : Worker) (taken : List Task) (accepted : List DnsResult)
      → WorkerKept getaddrinfo w taken accepted
      → (served : List Task) × (at_hand : List Task) × (taken ≡ served ++ at_hand)
        × Kept getaddrinfo served accepted
  unfolding WorkerKept
  worker_prefix resting taken accepted k = (taken, [], sym (append-nil taken), k)
  worker_prefix signalling taken accepted k = (taken, [], sym (append-nil taken), k)
  worker_prefix ended taken accepted k = (taken, [], sym (append-nil taken), k)
  worker_prefix (resolving t) taken accepted k = (k.0, t ∷ [], k.1, k.2)

  -- Results come in the order of the requests: in every state that can be reached, what the tunnel
  -- has handled, followed by what lies in the queue, are results of tasks that were asked for, each at
  -- most once, in the order they were asked for.
  pub results_in_order :
      {s t : System}
      → Fresh getaddrinfo s
      → Steps getaddrinfo s t
      → (items : List DnsResult) × (served : List Task) × (later : List Task) × Holds t.queue items
        × Kept getaddrinfo served (t.handled ++ items)
        × (t.asked ≡ served ++ later)
  results_in_order {t = t} f path =
      let h = reached f path in
      let (served, at_hand, split, k) =
        worker_prefix t.worker t.taken t.accepted (Sound.in_order h) in
      (
        Sound.items h,
        served,
        at_hand ++ t.dns.tasks,
        Sound.holds h,
        subst (Kept getaddrinfo served) (Sound.delivered h) k,
        Sound.waiting h
            ∙ ap (λ ts. ts ++ t.dns.tasks) split
            ∙ append_assoc served at_hand t.dns.tasks,
      )

  -- Where the tunnel has handled all that `s` had accepted.
  Emptied : System → Type 0
  Emptied s =
      (u : System) × Steps getaddrinfo s u
      × (u.queue.count ≡ 0)
      × (u.receiver ≡ polling)
      × (u.handled ≡ s.accepted)
