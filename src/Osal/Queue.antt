-- ===== src/Osal/Queue.antt =====
-- The queue between threads of src/linux/bitun_osal.c. The buffer is the list of its slots of
-- `item_size` bytes, and `event` the counter of the eventfd `ev_fd`, which a read sets back to 0.
-- What is done under the lock is one step; the write to the eventfd is another.
use bi_tun.Base.{
  ℕ, zero, suc, ◌+◌, ◌-◌, ◌%◌, Bool, true, false, Option, none, some, List, [], ◌∷◌, get_elem?, set,
  leb, ◌==◌, if◌then◌else◌,
}
pub mod Slots
pub mod Fifo

-- `struct bitun_osal_queue`
pub record Queue {ℓ} (A : Type ℓ) : Type ℓ where
  pub event : ℕ
  pub buffer : List A
  pub capacity : ℕ
  pub head : ℕ
  pub tail : ℕ
  pub count : ℕ

module _ {ℓ} {A : Type ℓ} where
  -- With the results of `eventfd`, of `malloc` for that many slots, and of `pthread_mutex_init`.
  unfoldable pub queue_create : Bool → (ℕ → Option (List A)) → Bool → ℕ → Option (Queue A)
  queue_create event_made malloc lock_made capacity =
      if event_made
      then elim (malloc capacity) [
        | none ↦ none
        | some buffer ↦
            if lock_made
            then some (record {
              event = 0;
              buffer = buffer;
              capacity = capacity;
              head = 0;
              tail = 0;
              count = 0;
            })
            else none
      ]
      else none

  -- `bitun_osal_queue_push` up to the unlock; `true` is a return of 0.
  unfoldable pub push_locked : Queue A → A → Bool × Queue A
  push_locked q item = if leb q.capacity q.count then (false, q) else (
    true,
    record {
      event = q.event;
      buffer = set q.buffer q.tail item;
      capacity = q.capacity;
      head = q.head;
      tail = (q.tail + 1) % q.capacity;
      count = q.count + 1;
    },
  )

  -- The write of 1 to the eventfd.
  unfoldable pub signal : Queue A → Queue A
  signal q = record {
    event = q.event + 1;
    buffer = q.buffer;
    capacity = q.capacity;
    head = q.head;
    tail = q.tail;
    count = q.count;
  }

  unfoldable pub push : Queue A → A → Bool × Queue A
  unfolding push_locked signal
  push q item = let (ok, q') = push_locked q item in if ok then (true, signal q') else (false, q')

  -- `none` is a return of -1, and what is read out of bounds.
  unfoldable pub pop : Queue A → Option A × Queue A
  pop q = if q.count == 0 then (none, q) else (
    get_elem? q.buffer q.head,
    record {
      event = q.event;
      buffer = q.buffer;
      capacity = q.capacity;
      head = (q.head + 1) % q.capacity;
      tail = q.tail;
      count = q.count - 1;
    },
  )

  unfoldable pub clear_wakeup : Queue A → Queue A
  clear_wakeup q = record {
    event = 0;
    buffer = q.buffer;
    capacity = q.capacity;
    head = q.head;
    tail = q.tail;
    count = q.count;
  }

  -- The loop `while (bitun_osal_queue_pop(q, &res) == 0)` of `tunnel_destroy`, with at most `fuel`
  -- rounds: the items that it took (of each the code frees the resolved address), and the queue left.
  unfoldable pub drain : ℕ → Queue A → List A × Queue A
  unfolding pop
  drain zero q = ([], q)
  drain (suc fuel) q =
      let (out, q') = pop q in
      let (rest, end) = drain fuel q' in
      elim out [ none ↦ ([], q') | some item ↦ (item ∷ rest, end) ]
