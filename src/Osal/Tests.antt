-- ===== src/Osal/Tests.antt =====
-- The queue and the resolver thread on small cases.
use bi_tun.Base.{
  ℕ, zero, suc, ◌+◌, ◌%◌, ◌<◌, ◌≡◌, refl, arith, true, false, Option, none, some, List, [], ◌∷◌,
  ◌++◌, replicate, get_elem?, ◌⊎◌,
}
use bi_tun.Tunnel.Local.{DnsResult}
use bi_tun.Osal.Queue.{Queue, queue_create, push_locked, drain}
use bi_tun.Osal.Queue.Slots.{Holds}
use bi_tun.Osal.Queue.Fifo.{
  Call, put, take_one, clear, fifo_run, queue_run, queue_refines, drain_all, created-Holds,
}
use bi_tun.Osal.Dns.{Task, AddrInfo, new_task, dns_init, dns_resolve_async, take_task, resolve_task}
use bi_tun.Osal.Dns.Steps
use bi_tun.Osal.Dns.Steps.{
  Worker, resting, signalling, ended, resolving, Receiver, polling, draining, System, Steps, here,
  after,
}
use bi_tun.Osal.Dns.Invariant.{Fresh, Kept}
use bi_tun.Osal.Dns.Delivery.{no_lost_wakeup, results_in_order}

abbrev two_slots : Queue ℕ
two_slots = record {
  event = 0;
  buffer = replicate 2 0;
  capacity = 2;
  head = 0;
  tail = 0;
  count = 0;
}

abbrev some_calls : List (Call ℕ)
some_calls = put 7 ∷ put 8 ∷ put 9 ∷ take_one ∷ put 9 ∷ clear ∷ take_one ∷ take_one ∷ take_one ∷ []

two_slots_made : queue_create true (λ n. some (replicate n 0)) true 2 ≡ some two_slots
unfolding queue_create
two_slots_made = refl

queue_refines_example : queue_run two_slots some_calls ≡ fifo_run 2 [] some_calls
queue_refines_example =
    queue_refines (λ n. some (replicate n 0)) true true 2 (replicate 2 0) two_slots some_calls refl
      refl (omega arith) two_slots_made

-- Two items that lie at the end of the buffer and at its start.
abbrev wrapped : Queue ℕ
wrapped = record { event = 2; buffer = 8 ∷ 7 ∷ []; capacity = 2; head = 1; tail = 1; count = 2 }

wrapped-Holds : Holds wrapped (7 ∷ 8 ∷ [])
wrapped-Holds = record {
  slots = refl;
  bounded = omega arith;
  start = omega arith;
  finish = refl;
  size = refl;
  entries = wrapped_entries;
}
  where
    wrapped_entries :
        (k : ℕ) → k < 2 → get_elem? {A = ℕ} (8 ∷ 7 ∷ []) ((1 + k) % 2) ≡ get_elem? (7 ∷ 8 ∷ []) k
    wrapped_entries zero h = refl
    wrapped_entries (suc zero) h = refl
    wrapped_entries (suc (suc k)) h = absurd (omega arith)

drain_all_example : ((drain 3 wrapped).0 ≡ (7 ∷ 8 ∷ [])) × Holds (drain 3 wrapped).1 []
drain_all_example = drain_all 3 wrapped (7 ∷ 8 ∷ []) wrapped-Holds (omega arith)

-- The resolver with one name, `a`.
abbrev no_result : DnsResult
no_result = record { channel_id = 0; success = false; resolved_ipv4 = []; resolved_addr = none }

abbrev lookup : List ℕ → Option AddrInfo
lookup name = some (record { is_inet = true; addr = 127 ∷ 0 ∷ 0 ∷ 1 ∷ [] })

abbrev results : Queue DnsResult
results = record {
  event = 0;
  buffer = replicate 2 no_result;
  capacity = 2;
  head = 0;
  tail = 0;
  count = 0;
}

abbrev at_start : System
at_start = record {
  dns = record { tasks = []; running = false; should_stop = false };
  worker = ended;
  queue = results;
  receiver = polling;
  asked = [];
  taken = [];
  accepted = [];
  handled = [];
}

at_start-Fresh : Fresh lookup at_start
at_start-Fresh = record {
  empty = created-Holds (replicate 2 no_result) 2 refl (omega arith);
  no_tasks = refl;
  not_started = refl;
  at_poll = refl;
  none_asked = refl;
  none_taken = refl;
  none_accepted = refl;
  none_handled = refl;
}

-- The name is asked for and resolved, and its result is in the queue before the eventfd is written.
abbrev name_task : Task
name_task = new_task (97 ∷ []) 5

abbrev answer : DnsResult
answer = record {
  channel_id = 5;
  success = true;
  resolved_ipv4 = 127 ∷ 0 ∷ 0 ∷ 1 ∷ [];
  resolved_addr = some (127 ∷ 0 ∷ 0 ∷ 1 ∷ []);
}

abbrev with_answer : Queue DnsResult
with_answer = record {
  event = 0;
  buffer = answer ∷ no_result ∷ [];
  capacity = 2;
  head = 0;
  tail = 1;
  count = 1;
}

abbrev after_put : System
after_put = record {
  dns = record { tasks = []; running = true; should_stop = false };
  worker = signalling;
  queue = with_answer;
  receiver = polling;
  asked = name_task ∷ [];
  taken = name_task ∷ [];
  accepted = answer ∷ [];
  handled = [];
}

one_name : Steps lookup at_start after_put
unfolding dns_init dns_resolve_async take_task resolve_task push_locked
one_name =
    after
      (Steps.init {d = record { tasks = []; running = true; should_stop = false }} refl refl refl)
      (after
        (Steps.request {d = record { tasks = name_task ∷ []; running = true; should_stop = false }}
          (97 ∷ []) 5 refl refl)
        (after
          (Steps.take_one {d = record { tasks = []; running = true; should_stop = false }} name_task
            refl refl)
          (after (Steps.put {q = with_answer} name_task true refl refl) here)))

no_lost_wakeup_example :
    (0 < after_put.queue.event) ⊎ (after_put.receiver ≡ draining) ⊎ (after_put.worker ≡ signalling)
no_lost_wakeup_example = no_lost_wakeup lookup at_start-Fresh one_name (omega arith)

results_in_order_example :
    (items : List DnsResult) × (served : List Task) × (later : List Task) × Holds with_answer items
    × Kept lookup served ([] ++ items)
    × ((name_task ∷ []) ≡ served ++ later)
results_in_order_example = results_in_order lookup at_start-Fresh one_name
