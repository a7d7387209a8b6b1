-- ===== src/Osal/Dns/Invariant.antt =====
-- The invariant of the resolver thread and the tunnel's loop, and what the calls do to the tasks.
use bi_tun.Base.{
  ℕ, ◌<◌, ◌≡◌, sym, ap, ap₂, ◌∙◌, arith, Bool, true, false, Option, none, some, List, [], ◌∷◌, ◌++◌,
  ◌⊎◌,
}
use bi_tun.Tunnel.Local.{DnsResult}
use bi_tun.Osal.Queue.Slots.{Holds}
use bi_tun.Osal.Dns.{
  Task, Dns, new_task, takes, AddrInfo, dns_init, dns_resolve_async, take_task, resolve_task,
  deinit_stop,
}
use bi_tun.Osal.Dns.Steps.{Worker, resting, signalling, ended, resolving, polling, draining, System}

pub some_inj : {A : Type 0} {a b : A} → some a ≡ some b → a ≡ b
some_inj {a = a} e = ap (λ o. elim o [ none ↦ a | some c ↦ c ]) e

pub init_tasks : (d e : Dns) → d.running ≡ false → dns_init true d ≡ (true, e) → e.tasks ≡ []
unfolding dns_init
init_tasks d e off h = ground arith

pub request_tasks :
    (domain : List ℕ) (channel_id : ℕ) (d e : Dns)
    → dns_resolve_async true domain channel_id d ≡ (true, e)
    → e.tasks ≡ d.tasks ++ (new_task domain channel_id ∷ [])
unfolding dns_resolve_async
request_tasks domain channel_id d e h = ground arith

pub take_tasks : (d e : Dns) (t : Task) → take_task d ≡ takes t e → d.tasks ≡ t ∷ e.tasks
unfolding take_task
take_tasks d e t h = ground arith

pub stop_tasks : (d e : Dns) → deinit_stop d ≡ (true, e) → e.tasks ≡ d.tasks
unfolding deinit_stop
stop_tasks d e h = ground arith

module _ (getaddrinfo : List ℕ → Option AddrInfo) where
  -- The results of some of the tasks, in the order of the tasks.
  pub data Kept : List Task → List DnsResult → Type 0 where
    nothing : Kept [] []
    kept :
        {ts : List Task} {rs : List DnsResult} (t : Task) (allocated : Bool)
        → Kept ts rs
        → Kept (ts ++ (t ∷ [])) (rs ++ (resolve_task getaddrinfo allocated t ∷ []))
    lost : {ts : List Task} {rs : List DnsResult} (t : Task) → Kept ts rs → Kept (ts ++ (t ∷ [])) rs

  -- The results that were accepted, against what the worker took and has at hand.
  unfoldable pub WorkerKept : Worker → List Task → List DnsResult → Type 0
  WorkerKept (resolving t) taken accepted =
      (before : List Task) × (taken ≡ before ++ (t ∷ [])) × Kept before accepted
  WorkerKept resting taken accepted = Kept taken accepted
  WorkerKept signalling taken accepted = Kept taken accepted
  WorkerKept ended taken accepted = Kept taken accepted

  pub record Sound (s : System) : Type 0 where
    pub items : List DnsResult
    pub holds : Holds s.queue items
    pub announced :
        (0 < s.queue.count)
        → (0 < s.queue.event) ⊎ (s.receiver ≡ draining) ⊎ (s.worker ≡ signalling)
    pub delivered : s.accepted ≡ s.handled ++ items
    pub in_order : WorkerKept s.worker s.taken s.accepted
    pub waiting : s.asked ≡ s.taken ++ s.dns.tasks

  -- Before `bitun_osal_dns_init`, with a queue as it is created.
  pub record Fresh (s : System) : Type 0 where
    pub empty : Holds s.queue []
    pub no_tasks : s.dns.tasks ≡ []
    pub not_started : s.worker ≡ ended
    pub at_poll : s.receiver ≡ polling
    pub none_asked : s.asked ≡ []
    pub none_taken : s.taken ≡ []
    pub none_accepted : s.accepted ≡ []
    pub none_handled : s.handled ≡ []

  pub Fresh-Sound : {s : System} → Fresh s → Sound s
  unfolding WorkerKept
  Fresh-Sound {s} f = record {
    items = [];
    holds = f.empty;
    announced = λ p. absurd (let e = f.empty.size in omega arith);
    delivered = f.none_accepted ∙ sym (ap (λ hs. hs ++ []) f.none_handled);
    in_order = rw (f.not_started, f.none_taken, f.none_accepted) nothing;
    waiting = f.none_asked ∙ sym (ap₂ ◌++◌ f.none_taken f.no_tasks);
  }
