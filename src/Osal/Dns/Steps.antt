-- ===== src/Osal/Dns/Steps.antt =====
-- The resolver thread of src/linux/bitun_osal.c and the tunnel's loop of src/tunnel.c, which share the
-- task list and the queue of results: every order in which their steps can come.
use bi_tun.Base.{ℕ, ◌<◌, ◌≡◌, Bool, true, false, Option, none, some, List, [], ◌∷◌, ◌++◌}
use bi_tun.Tunnel.Local.{DnsResult}
use bi_tun.Osal.Queue.{Queue, push_locked, signal, pop, clear_wakeup}
use bi_tun.Osal.Dns.{
  Task, Dns, new_task, stops, takes, AddrInfo, dns_init, dns_resolve_async, take_task, resolve_task,
  deinit_stop, deinit_clear,
}

-- Where the worker is: before it takes the lock, with a task taken, after it put a result in the
-- queue and before it writes to the eventfd, and after it returned.
pub data Worker : Type 0 where
  resting signalling ended : Worker
  resolving : Task → Worker

-- Where the tunnel's loop is: at the poll, in the loop that takes results, or past `tunnel_run`, which
-- `main` has left (or, where `tunnel_init` fails, has never entered) when it stops the thread.
pub data Receiver : Type 0 where
  polling draining returned : Receiver

-- With what was asked for and not dropped by `bitun_osal_dns_deinit`, what the worker took, and which
-- results the queue accepted and the tunnel handled, each in its order.
pub record System : Type 0 where
  pub dns : Dns
  pub worker : Worker
  pub queue : Queue DnsResult
  pub receiver : Receiver
  pub asked : List Task
  pub taken : List Task
  pub accepted : List DnsResult
  pub handled : List DnsResult

module _ (getaddrinfo : List ℕ → Option AddrInfo) where
  pub data Step : System → System → Type 0 where
    -- the thread is started
    init :
        {s : System} {d : Dns}
        → dns_init true s.dns ≡ (true, d)
        → s.dns.running ≡ false
        → s.worker ≡ ended
        → Step s (record s { dns = d; worker = resting; asked = s.taken })
    -- a frame asks for a name, which the loop handles outside its loop on results
    request :
        {s : System} {d : Dns} (domain : List ℕ) (channel_id : ℕ)
        → s.receiver ≡ polling
        → dns_resolve_async true domain channel_id s.dns ≡ (true, d)
        → Step s (record s { dns = d; asked = s.asked ++ (new_task domain channel_id ∷ []) })
    take_one :
        {s : System} {d : Dns} (task : Task)
        → s.worker ≡ resting
        → take_task s.dns ≡ takes task d
        → Step s (record s { dns = d; worker = resolving task; taken = s.taken ++ (task ∷ []) })
    put :
        {s : System} {q : Queue DnsResult} (task : Task) (allocated : Bool)
        → s.worker ≡ resolving task
        → push_locked s.queue (resolve_task getaddrinfo allocated task) ≡ (true, q)
        → Step s (record s {
          worker = signalling;
          queue = q;
          accepted = s.accepted ++ (resolve_task getaddrinfo allocated task ∷ []);
        })
    overflow :
        {s : System} {q : Queue DnsResult} (task : Task) (allocated : Bool)
        → s.worker ≡ resolving task
        → push_locked s.queue (resolve_task getaddrinfo allocated task) ≡ (false, q)
        → Step s (record s { worker = resting; queue = q })
    notify :
        {s : System}
        → s.worker ≡ signalling
        → Step s (record s { worker = resting; queue = signal s.queue })
    finish :
        {s : System}
        → s.worker ≡ resting
        → take_task s.dns ≡ stops
        → Step s (record s { worker = ended })
    -- the poll reports the eventfd
    wake :
        {s : System}
        → s.receiver ≡ polling
        → 0 < s.queue.event
        → Step s (record s { receiver = draining; queue = clear_wakeup s.queue })
    handle :
        {s : System} {q : Queue DnsResult} (res : DnsResult)
        → s.receiver ≡ draining
        → pop s.queue ≡ (some res, q)
        → Step s (record s { queue = q; handled = s.handled ++ (res ∷ []) })
    drained :
        {s : System} {q : Queue DnsResult}
        → s.receiver ≡ draining
        → pop s.queue ≡ (none, q)
        → Step s (record s { receiver = polling; queue = q })
    -- `tunnel_run` returns
    leave : {s : System} → s.receiver ≡ polling → Step s (record s { receiver = returned })
    stop :
        {s : System} {d : Dns}
        → s.receiver ≡ returned
        → deinit_stop s.dns ≡ (true, d)
        → Step s (record s { dns = d })
    -- after the join
    clear :
        {s : System}
        → s.receiver ≡ returned
        → s.worker ≡ ended
        → s.dns.running ≡ true
        → Step s (record s { dns = deinit_clear s.dns; asked = s.taken })

  pub data Steps : System → System → Type 0 where
    here : {s : System} → Steps s s
    after : {s t u : System} → Step s t → Steps t u → Steps s u
