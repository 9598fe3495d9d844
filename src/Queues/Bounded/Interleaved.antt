-- ===== src/Queues/Bounded/Interleaved.antt =====
-- The queue under any interleaving of its calls: each `push` is two moves, the permit and the item, and
-- each `drain_up_to` is two moves, the items and the permits.
use cvdbench.Base.{
  ℕ, ◌+◌, ◌≤◌, ◌≡◌, refl, sym, ap, ◌∙◌, Bool-cases, inl, inr, List, [], ◌∷◌, ◌++◌, length, min, max,
  arith, append_assoc, length-append, length-drop, take-append-drop, ltb, if◌then◌else◌,
}
use cvdbench.Queues.Bounded.{
  BoundedQueue, Pushed, waits, queue_closed, pushed, new, acquire, append, take_out, add_permits,
  drained, close,
}

-- `started` is the permit of a push and `stored` its item; `taken n` is the drain's part under the
-- lock and `returned n` its permits; `shut` closes the queue.
pub data Move {ℓ} (A : Type ℓ) : Type ℓ where
  started : Move A
  stored : A → Move A
  taken : ℕ → Move A
  returned : ℕ → Move A
  shut : Move A

-- The queue with what went in and what came out of it.
pub record Trace {ℓ} (A : Type ℓ) : Type ℓ where
  pub queue : BoundedQueue A
  pub put : List A
  pub got : List A

module _ {ℓ} {A : Type ℓ} where
  abbrev pub after_acquire : Pushed A → BoundedQueue A → BoundedQueue A
  after_acquire waits q = q
  after_acquire queue_closed q = q
  after_acquire (pushed q') q = q'

  -- A move that no call can make leaves all as it is: an item without a permit, or a return of more
  -- permits than are on their way.
  unfoldable pub move : Trace A → Move A → Trace A
  unfolding acquire append take_out add_permits drained close
  move t started = record t { queue = after_acquire (acquire t.queue) t.queue }
  move t (stored a) =
      if ltb 0 t.queue.pushing
      then record t { queue = append a t.queue; put = t.put ++ a ∷ [] }
      else t
  move t (taken n) = record t { queue = take_out n t.queue; got = t.got ++ drained n t.queue }
  move t (returned n) =
      if ltb t.queue.draining n then t else record t { queue = add_permits n t.queue }
  move t shut = record t { queue = close t.queue }

  unfoldable pub moves : Trace A → List (Move A) → Trace A
  unfolding move
  moves t [] = t
  moves t (m ∷ ms) = moves (move t m) ms

  abbrev pub started_empty : ℕ → Trace A
  started_empty n = record { queue = new n; put = []; got = [] }

  pub record IsBounded (t : Trace A) : Type ℓ where
    pub permits :
        t.queue.free_slots + t.queue.pushing + length t.queue.items + t.queue.draining
        ≡ t.queue.capacity
    pub in_order : t.got ++ t.queue.items ≡ t.put

  acquire-permits :
      (q : BoundedQueue A)
      → let q' = after_acquire (acquire q) q in
        (q'.free_slots + q'.pushing ≡ q.free_slots + q.pushing)
        × (q'.items ≡ q.items)
        × (q'.draining ≡ q.draining)
        × (q'.capacity ≡ q.capacity)
  unfolding acquire
  acquire-permits q = (ground arith, ground arith, ground arith, ground arith)

  move-IsBounded : (t : Trace A) (m : Move A) → IsBounded t → IsBounded (move t m)
  unfolding move
  move-IsBounded t started b =
      let (f, i, d, c) = acquire-permits t.queue in
      record {
        permits = grind (arith, f, i, d, c, b.permits);
        in_order = ap (λ xs. t.got ++ xs) i ∙ b.in_order;
      }
  move-IsBounded t (stored a) b = elim (Bool-cases (ltb 0 t.queue.pushing)) [
    | inr e ↦ rw (e, move) b
    | inl e ↦
        rw (e, move)
          (record {
            permits = ground (arith, length-append t.queue.items (a ∷ []), b.permits);
            in_order =
                sym (append_assoc t.got t.queue.items (a ∷ []))
                ∙ ap (λ xs. xs ++ a ∷ []) b.in_order;
          })
  ]
  move-IsBounded t (taken n) b = record {
    permits = omega (arith, length-drop (min n (length t.queue.items)) t.queue.items, b.permits);
    in_order =
        append_assoc t.got _ _
        ∙ ap (λ xs. t.got ++ xs) (take-append-drop _ t.queue.items)
        ∙ b.in_order;
  }
  move-IsBounded t (returned n) b = elim (Bool-cases (ltb t.queue.draining n)) [
    | inl e ↦ rw (e, move) b
    | inr e ↦ rw (e, move) (record { permits = ground (arith, b.permits); in_order = b.in_order })
  ]
  move-IsBounded t shut b = record { permits = b.permits; in_order = b.in_order }

  moves-IsBounded : (ms : List (Move A)) (t : Trace A) → IsBounded t → IsBounded (moves t ms)
  unfolding moves
  moves-IsBounded [] t b = b
  moves-IsBounded (m ∷ ms) t b = moves-IsBounded ms (move t m) (move-IsBounded t m b)

  move-capacity : (t : Trace A) (m : Move A) → (move t m).queue.capacity ≡ t.queue.capacity
  unfolding move
  move-capacity t started = (acquire-permits t.queue).3
  move-capacity t (stored a) = ground arith
  move-capacity t (taken n) = refl
  move-capacity t (returned n) = ground arith
  move-capacity t shut = refl

  moves-capacity :
      (ms : List (Move A)) (t : Trace A) → (moves t ms).queue.capacity ≡ t.queue.capacity
  unfolding moves
  moves-capacity [] t = refl
  moves-capacity (m ∷ ms) t = moves-capacity ms (move t m) ∙ move-capacity t m

  new-IsBounded : (n : ℕ) → IsBounded (started_empty n)
  unfolding new
  new-IsBounded n = record { permits = omega arith; in_order = refl }

  -- Whatever the interleaving of pushes, drains and closing on a new queue of capacity n, the buffer
  -- never holds more than max n 1 items, and what came out followed by what is in the buffer is what
  -- was put in, in that order.
  pub new-moves :
      (n : ℕ) (ms : List (Move A))
      → let t = moves (started_empty n) ms in
        (length t.queue.items ≤ max n 1) × (t.got ++ t.queue.items ≡ t.put)
  unfolding new
  new-moves n ms =
      let b = moves-IsBounded ms (started_empty n) (new-IsBounded n) in
      let c : (moves (started_empty n) ms).queue.capacity ≡ max n 1 =
        moves-capacity ms (started_empty n) in
      (omega (arith, b.permits, c), b.in_order)
