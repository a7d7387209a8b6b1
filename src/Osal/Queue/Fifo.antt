-- ===== src/Osal/Queue/Fifo.antt =====
-- What the queue of src/linux/bitun_osal.c promises: a list of items, oldest first, of bounded length.
use bi_tun.Base.{
  ℕ, zero, suc, ◌<◌, ◌≡◌, refl, sym, ap, ap₂, ◌∙◌, arith, Bool, true, false, Option, none, some,
  List, [], ◌∷◌, ◌++◌, length, ltb, if◌then◌else◌, Bool-cases, inl, inr, ltb→lt, ltb-false→le,
}
use native.Mathlib.Nat.{mod-eq_of_lt}
use bi_tun.Osal.Queue.{Queue, queue_create, push, pop, clear_wakeup, drain}
use bi_tun.Osal.Queue.Slots.{
  Holds, next, left, signal-Holds, next-Holds, push_locked_room, push_locked_full, left-Holds,
  pop-some, pop-none,
}

-- A call of the queue, and what the caller sees of it.
pub data Call {ℓ} (A : Type ℓ) : Type ℓ where
  put : A → Call A
  take_one : Call A
  clear : Call A

pub data Answer {ℓ} (A : Type ℓ) : Type ℓ where
  accepted : Bool → Answer A
  received : Option A → Answer A
  done : Answer A

module _ {ℓ} {A : Type ℓ} where
  unfoldable pub fifo_call : ℕ → List A → Call A → Answer A × List A
  fifo_call bound items (put x) =
      if ltb (length items) bound
      then (accepted true, items ++ (x ∷ []))
      else (accepted false, items)
  fifo_call bound [] take_one = (received none, [])
  fifo_call bound (x ∷ rest) take_one = (received (some x), rest)
  fifo_call bound items clear = (done, items)

  unfoldable pub fifo_run : ℕ → List A → List (Call A) → List (Answer A)
  unfolding fifo_call
  fifo_run bound items [] = []
  fifo_run bound items (c ∷ cs) =
      let (a, items') = fifo_call bound items c in a ∷ fifo_run bound items' cs

  -- The same calls on the code's queue.
  unfoldable pub queue_call : Queue A → Call A → Answer A × Queue A
  unfolding push pop clear_wakeup
  queue_call q (put x) = let (ok, q') = push q x in (accepted ok, q')
  queue_call q take_one = let (out, q') = pop q in (received out, q')
  queue_call q clear = (done, clear_wakeup q)

  unfoldable pub queue_run : Queue A → List (Call A) → List (Answer A)
  unfolding queue_call
  queue_run q [] = []
  queue_run q (c ∷ cs) = let (a, q') = queue_call q c in a ∷ queue_run q' cs

  -- A queue over a buffer, empty, as it is created.
  abbrev created : List A → ℕ → Queue A
  created buffer capacity = record {
    event = 0;
    buffer = buffer;
    capacity = capacity;
    head = 0;
    tail = 0;
    count = 0;
  }

  pub created-Holds :
      (buffer : List A) (capacity : ℕ)
      → length buffer ≡ capacity
      → 0 < capacity
      → Holds (created buffer capacity) []
  created-Holds buffer capacity size pos = record {
    slots = size;
    bounded = omega arith;
    start = pos;
    finish = sym (mod-eq_of_lt {n = 0} {m = capacity} pos);
    size = refl;
    entries = λ k p. absurd (omega arith);
  }

  create-some :
      (malloc : ℕ → Option (List A)) (e l : Bool) (capacity : ℕ) (buffer : List A) (q : Queue A)
      → malloc capacity ≡ some buffer
      → queue_create e malloc l capacity ≡ some q
      → created buffer capacity ≡ q
  unfolding queue_create
  create-some malloc true true capacity buffer q given made = ground (arith, given)
  create-some malloc true false capacity buffer q given made = absurd (ground (arith, given))
  create-some malloc false l capacity buffer q given made = absurd (ground (arith, given))

  pub call_refines :
      (q : Queue A) (items : List A) (c : Call A)
      → Holds q items
      → let (a, q') = queue_call q c in
        let (b, items') = fifo_call q.capacity items c in
        (a ≡ b) × Holds q' items' × (q'.capacity ≡ q.capacity)
  unfolding queue_call fifo_call push clear_wakeup
  call_refines q items (put x) h = elim (Bool-cases (ltb (length items) q.capacity)) [
    | inl low ↦
        let room = ltb→lt (length items) q.capacity low in
        let n = next-Holds q items h x room in
        rw (push_locked_room q items h x room, low)
          (refl, signal-Holds (next q items h x room) (items ++ (x ∷ [])) n, refl)
    | inr high ↦
        rw (push_locked_full q items h x (ltb-false→le (length items) q.capacity high), high)
          (refl, h, refl)
  ]
  call_refines q [] take_one h = rw (pop-none q [] h refl) (refl, h, refl)
  call_refines q (x ∷ rest) take_one h =
      rw (pop-some q (x ∷ rest) h x rest refl) (refl, left-Holds q (x ∷ rest) h x rest refl, refl)
  call_refines q items clear h = (
    refl,
    record {
      slots = h.slots;
      bounded = h.bounded;
      start = h.start;
      finish = h.finish;
      size = h.size;
      entries = h.entries;
    },
    refl,
  )

  pub run_refines :
      (calls : List (Call A)) (q : Queue A) (items : List A)
      → Holds q items
      → queue_run q calls ≡ fifo_run q.capacity items calls
  unfolding queue_run fifo_run
  run_refines [] q items h = refl
  run_refines (c ∷ cs) q items h =
      let step = call_refines q items c h in
      ap₂ ◌∷◌ step.0 (
        run_refines cs (queue_call q c).1 (fifo_call q.capacity items c).1 step.1
        ∙ ap (λ b. fifo_run b (fifo_call q.capacity items c).1 cs) step.2)

  -- Whatever calls are made on a queue that `bitun_osal_queue_create` returned for a capacity that is
  -- not 0, with `malloc` giving as many slots as asked for, their results are those of a list of at
  -- most `capacity` items, oldest first.
  pub queue_refines :
      (malloc : ℕ → Option (List A)) (event_made lock_made : Bool) (capacity : ℕ) (buffer : List A)
      (q : Queue A) (calls : List (Call A))
      → malloc capacity ≡ some buffer
      → length buffer ≡ capacity
      → 0 < capacity
      → queue_create event_made malloc lock_made capacity ≡ some q
      → queue_run q calls ≡ fifo_run capacity [] calls
  queue_refines malloc e l capacity buffer q calls given size pos made =
      let same = create-some malloc e l capacity buffer q given made in
      ap (λ p. queue_run p calls) (sym same)
      ∙ run_refines calls (created buffer capacity) [] (created-Holds buffer capacity size pos)

  drain-none : (fuel : ℕ) (q p : Queue A) → pop q ≡ (none, p) → drain (suc fuel) q ≡ ([], p)
  unfolding drain
  drain-none fuel q p e =
      ap
        (λ (r : Option A × Queue A). elim r.0 [
          | none ↦ ([], r.1)
          | some x ↦ (x ∷ (drain fuel r.1).0, (drain fuel r.1).1)
        ])
        e

  drain-some :
      (fuel : ℕ) (q p : Queue A) (x : A)
      → pop q ≡ (some x, p)
      → drain (suc fuel) q ≡ (x ∷ (drain fuel p).0, (drain fuel p).1)
  unfolding drain
  drain-some fuel q p x e =
      ap
        (λ (r : Option A × Queue A). elim r.0 [
          | none ↦ ([], r.1)
          | some x ↦ (x ∷ (drain fuel r.1).0, (drain fuel r.1).1)
        ])
        e

  -- The loop of the receiver takes every item in order and leaves the queue empty, given more rounds
  -- than there are items.
  pub drain_all :
      (fuel : ℕ) (q : Queue A) (items : List A)
      → Holds q items
      → length items < fuel
      → ((drain fuel q).0 ≡ items) × Holds (drain fuel q).1 []
  drain_all zero q items h enough = absurd (omega arith)
  drain_all (suc fuel) q [] h enough = rw (drain-none fuel q q (pop-none q [] h refl)) (refl, h)
  drain_all (suc fuel) q (x ∷ rest) h enough =
      let ih =
        drain_all fuel (left q (x ∷ rest) h x rest refl) rest
          (left-Holds q (x ∷ rest) h x rest refl) (omega arith) in
      rw
        (drain-some fuel q (left q (x ∷ rest) h x rest refl) x
          (pop-some q (x ∷ rest) h x rest refl))
        (ap (λ ys. x ∷ ys) ih.0, ih.1)
