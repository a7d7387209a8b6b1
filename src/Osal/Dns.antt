-- ===== src/Osal/Dns.antt =====
-- The resolver thread of src/linux/bitun_osal.c. What a thread does under `dns_lock` is one function;
-- the tasks are the list from `dns_queue_head` to `dns_queue_tail`. The queue of the result is the one
-- that the tunnel makes, so a task does not name it. `getaddrinfo` is a parameter.
use bi_tun.Base.{
  ℕ, Bool, true, false, Option, none, some, List, [], ◌∷◌, ◌++◌, c_string, take, replicate,
  if◌then◌else◌,
}
use bi_tun.Tunnel.Local.{DnsResult}
pub mod Steps
pub mod Invariant
pub mod WorkerSteps
pub mod LoopSteps
pub mod Sound
pub mod Delivery

-- `dns_task_t`
pub record Task : Type 0 where
  pub domain : List ℕ
  pub channel_id : ℕ

-- The static variables.
pub record Dns : Type 0 where
  pub tasks : List Task
  pub running : Bool
  pub should_stop : Bool

-- What the worker finds when it has the lock.
pub data Taken : Type 0 where
  waits stops : Taken
  takes : Task → Dns → Taken

-- The first address of a list that `getaddrinfo` returns.
pub record AddrInfo : Type 0 where
  pub is_inet : Bool
  pub addr : List ℕ

-- With the result of `pthread_create`; `true` is a return of 0.
unfoldable pub dns_init : Bool → Dns → Bool × Dns
dns_init created d =
    if d.running
    then (true, d)
    else (created, record { tasks = []; running = created; should_stop = false })

-- `strncpy` stops at the end of the name, and keeps 255 bytes of it at most.
abbrev pub new_task : List ℕ → ℕ → Task
new_task domain channel_id = record { domain = take 255 (c_string domain); channel_id = channel_id }

-- With the result of `malloc`.
unfoldable pub dns_resolve_async : Bool → List ℕ → ℕ → Dns → Bool × Dns
dns_resolve_async allocated domain channel_id d =
    if allocated
    then if d.running
      then (
        true,
        record {
          tasks = d.tasks ++ (new_task domain channel_id ∷ []);
          running = d.running;
          should_stop = d.should_stop;
        },
      )
      else (false, d)
    else (false, d)

-- The worker's wait and what it takes off the list.
unfoldable pub take_task : Dns → Taken
take_task d = if d.should_stop then stops else elim d.tasks [
  | [] ↦ waits
  | task ∷ rest ↦
      takes task (record { tasks = rest; running = d.running; should_stop = d.should_stop })
]

-- With the result of `malloc` for the copy of the address.
unfoldable pub resolve_task : (List ℕ → Option AddrInfo) → Bool → Task → DnsResult
resolve_task getaddrinfo allocated task = elim (getaddrinfo task.domain) [
  | none ↦ record {
    channel_id = task.channel_id;
    success = false;
    resolved_ipv4 = replicate 4 0;
    resolved_addr = none;
  }
  | some res ↦ record {
    channel_id = task.channel_id;
    success = true;
    resolved_ipv4 = if res.is_inet then take 4 res.addr else replicate 4 0;
    resolved_addr = if allocated then some res.addr else none;
  }
]

-- `bitun_osal_dns_deinit` before the join, and after it; `false` is the early return.
unfoldable pub deinit_stop : Dns → Bool × Dns
deinit_stop d =
    if d.running
    then (true, record { tasks = d.tasks; running = d.running; should_stop = true })
    else (false, d)

unfoldable pub deinit_clear : Dns → Dns
deinit_clear d = record { tasks = []; running = false; should_stop = d.should_stop }
