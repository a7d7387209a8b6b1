-- ===== src/Osal/Queue/Slots.antt =====
-- Which items the slots of a queue hold, and what each operation makes of them.
use bi_tun.Base.{
  ℕ, suc, ◌+◌, ◌-◌, ◌%◌, ◌≤◌, ◌<◌, ◌≡◌, ◌≢◌, sym, ap, ◌∙◌, arith, true, false, none, some, List, [],
  ◌∷◌, ◌++◌, length, length-append, length-set, get_elem?, get_elem?-set_self, get_elem?-set_ne,
  get_elem?-append_left, get_elem?-last, set, ltb, if◌then◌else◌, dec_lt, ℕ_discrete,
}
use native.Mathlib.Nat.{mod-eq_of_lt, mod-eq-sub-mod}
use bi_tun.Osal.Queue.{Queue, push_locked, signal, pop}

-- One turn round the buffer at most.
abbrev place : ℕ → ℕ → ℕ → ℕ
place c h k = if ltb (h + k) c then h + k else h + k - c

mod-place : (c h k : ℕ) → h < c → k ≤ c → (h + k) % c ≡ place c h k
mod-place c h k hc kc = elim (dec_lt (h + k) c) [
  | yes p ↦ mod-eq_of_lt p ∙ ground arith
  | no p ↦
      mod-eq-sub-mod {n = h + k} {m = c} (omega arith)
      ∙ mod-eq_of_lt {n = h + k - c} {m = c} (omega arith)
      ∙ ground arith
]

-- The queue holds `items`, oldest first.
pub record Holds {ℓ} {A : Type ℓ} (q : Queue A) (items : List A) : Type ℓ where
  pub slots : length q.buffer ≡ q.capacity
  pub bounded : q.count ≤ q.capacity
  pub start : q.head < q.capacity
  pub finish : q.tail ≡ (q.head + q.count) % q.capacity
  pub size : length items ≡ q.count
  pub entries :
      (k : ℕ)
      → k < length items
      → get_elem? q.buffer ((q.head + k) % q.capacity) ≡ get_elem? items k

module _ {ℓ} {A : Type ℓ} (q : Queue A) (items : List A) (h : Holds q items) where
  open q use {buffer, capacity, head, tail, count, event}

  size : length items ≡ count
  size = h.size

  start : head < capacity
  start = h.start

  bounded : count ≤ capacity
  bounded = h.bounded

  at_tail : tail ≡ place capacity head count
  at_tail = h.finish ∙ mod-place capacity head count start bounded

  pub signal-Holds : Holds (signal q) items
  unfolding signal
  signal-Holds = record {
    slots = h.slots;
    bounded = h.bounded;
    start = h.start;
    finish = h.finish;
    size = h.size;
    entries = h.entries;
  }

  module _ (x : A) (room : length items < capacity) where
    abbrev pub next : Queue A
    next = record {
      event = event;
      buffer = set buffer tail x;
      capacity = capacity;
      head = head;
      tail = (tail + 1) % capacity;
      count = count + 1;
    }

    tail-lt : tail < capacity
    tail-lt = let e = at_tail in let b = bounded in let s = start in let t = size in ground arith

    other_slot : (k : ℕ) → k < count → tail ≢ (head + k) % capacity
    other_slot k lt =
        let m = mod-place capacity head k start (omega (arith, bounded)) in
        let e = at_tail in let b = bounded in let s = start in let t = size in ground arith

    next_tail : (tail + 1) % capacity ≡ (head + (count + 1)) % capacity
    next_tail =
        let e = at_tail in
        let b = bounded in
        let s = start in
        let t = size in
        let m = mod-place capacity head (count + 1) start (omega arith) in
        let n = mod-place capacity tail 1 tail-lt (omega arith) in ground arith

    next_entries :
        (k : ℕ)
        → k < length (items ++ (x ∷ []))
        → get_elem? (set buffer tail x) ((head + k) % capacity) ≡ get_elem? (items ++ (x ∷ [])) k
    next_entries k p = elim (ℕ_discrete k count) [
      | yes e ↦
          ap (λ i. get_elem? (set buffer tail x) ((head + i) % capacity)) e
          ∙ ap (get_elem? (set buffer tail x)) (sym h.finish)
          ∙ get_elem?-set_self buffer tail x (omega (arith, h.slots, tail-lt))
          ∙ sym (get_elem?-last items x k (e ∙ sym size))
      | no ne ↦
          let lt : k < count = omega (arith, length-append items (x ∷ []), size) in
          get_elem?-set_ne buffer tail ((head + k) % capacity) x (other_slot k lt)
          ∙ h.entries k (omega (arith, size))
          ∙ sym (get_elem?-append_left items (x ∷ []) k (omega (arith, size)))
    ]

    pub next-Holds : Holds next (items ++ (x ∷ []))
    next-Holds = record {
      slots = length-set buffer tail x ∙ h.slots;
      bounded = omega (arith, size);
      start = start;
      finish = next_tail;
      size = length-append items (x ∷ []) ∙ omega (arith, size);
      entries = next_entries;
    }

    pub push_locked_room : push_locked q x ≡ (true, next)
    unfolding push_locked
    push_locked_room = let s = size in ground arith

  pub push_locked_full : (x : A) → capacity ≤ length items → push_locked q x ≡ (false, q)
  unfolding push_locked
  push_locked_full x full = let s = size in ground arith

  -- What is left after the oldest item is taken.
  module _ (x : A) (rest : List A) (first : items ≡ x ∷ rest) where
    abbrev pub left : Queue A
    left = record {
      event = event;
      buffer = buffer;
      capacity = capacity;
      head = (head + 1) % capacity;
      tail = tail;
      count = count - 1;
    }

    some_count : count ≡ suc (length rest)
    some_count = sym size ∙ ap length first

    left_start : (head + 1) % capacity < capacity
    left_start =
        let e = some_count in
        let b = bounded in
        let s = start in let m = mod-place capacity head 1 start (omega arith) in ground arith

    left_turn :
        (k : ℕ) → suc k ≤ count → ((head + 1) % capacity + k) % capacity ≡ (head + suc k) % capacity
    left_turn k le =
        let b = bounded in
        let s = start in
        let m = mod-place capacity head 1 start (omega arith) in
        let n = mod-place capacity ((head + 1) % capacity) k left_start (omega arith) in
        let o = mod-place capacity head (suc k) start (omega arith) in ground arith

    pub left-Holds : Holds left rest
    left-Holds = record {
      slots = h.slots;
      bounded = omega (arith, bounded);
      start = left_start;
      finish =
          h.finish
          ∙ ap (λ k. (head + k) % capacity) some_count
          ∙ sym (left_turn (length rest) (omega (arith, some_count)))
          ∙ ap (λ k. ((head + 1) % capacity + k) % capacity) {x = length rest} {y = count - 1}
              (omega (arith, some_count));
      size = omega (arith, some_count);
      entries = λ k p.
          ap (get_elem? buffer) (left_turn k (omega (arith, some_count)))
          ∙ h.entries (suc k) (omega (arith, some_count, size))
          ∙ ap (λ ys. get_elem? ys (suc k)) first;
    }

    first_slot : get_elem? buffer head ≡ some x
    first_slot =
        ap (get_elem? buffer)
          (sym (mod-place capacity head 0 start (omega arith) ∙ (let s = start in ground arith)))
        ∙ h.entries 0 (omega (arith, some_count, size))
        ∙ ap (λ ys. get_elem? ys 0) first

    pub pop-some : pop q ≡ (some x, left)
    unfolding pop
    pop-some = let e = some_count in let f = first_slot in ground arith

  pub pop-none : items ≡ [] → pop q ≡ (none, q)
  unfolding pop
  pop-none e = let z : count ≡ 0 = sym size ∙ ap length e in ground arith
