-- ===== src/Queues/Bounded.antt =====
-- `BoundedQueue` of crates/cvd-master/src/manifest/queue.rs. A `push` waits for a permit, takes it and
-- then locks the buffer; a `drain_up_to` empties the buffer under the lock and then returns the
-- permits. So the queue has calls that are half way: `pushing` permits are taken for items that are
-- not yet in the buffer, `draining` permits belong to items that have left it.
pub mod Interleaved
use cvdbench.Base.{
  ℕ, suc, ◌+◌, ◌-◌, ◌≤◌, Bool, true, false, List, [], ◌∷◌, ◌++◌, length, take, drop, min, max, ltb,
  if◌then◌else◌,
}

pub record BoundedQueue {ℓ} (A : Type ℓ) : Type ℓ where
  pub items : List A
  pub free_slots : ℕ
  pub capacity : ℕ
  pub closed : Bool
  pub pushing : ℕ
  pub draining : ℕ

-- What `push` comes to: it waits, it fails as the queue is closed, or it returns.
pub data Pushed {ℓ} (A : Type ℓ) : Type ℓ where
  waits : Pushed A
  queue_closed : Pushed A
  pushed : BoundedQueue A → Pushed A

module _ {ℓ} {A : Type ℓ} where
  unfoldable pub new : ℕ → BoundedQueue A
  new capacity =
      let cap = max capacity 1 in
      record {
        items = [];
        free_slots = cap;
        capacity = cap;
        closed = false;
        pushing = 0;
        draining = 0;
      }

  -- `free_slots.acquire()` and `forget`. A closed semaphore fails, also with permits left.
  unfoldable pub acquire : BoundedQueue A → Pushed A
  acquire q =
      if q.closed
      then queue_closed
      else if ltb 0 q.free_slots
      then pushed (record q { free_slots = q.free_slots - 1; pushing = q.pushing + 1 })
      else waits

  -- The buffer gets the item.
  unfoldable pub append : A → BoundedQueue A → BoundedQueue A
  append a q = record q { items = q.items ++ a ∷ []; pushing = q.pushing - 1 }

  unfoldable pub then_append : A → Pushed A → Pushed A
  unfolding append
  then_append a waits = waits
  then_append a queue_closed = queue_closed
  then_append a (pushed q) = pushed (append a q)

  unfoldable pub push : A → BoundedQueue A → Pushed A
  unfolding then_append acquire
  push a q = then_append a (acquire q)

  -- The items that `drain_up_to n` takes, and the queue before the permits are back.
  unfoldable pub take_out : ℕ → BoundedQueue A → BoundedQueue A
  take_out n q =
      let taken = min n (length q.items) in
      record q { items = drop taken q.items; draining = q.draining + taken }

  unfoldable pub add_permits : ℕ → BoundedQueue A → BoundedQueue A
  add_permits n q = record q { free_slots = q.free_slots + n; draining = q.draining - n }

  unfoldable pub drained : ℕ → BoundedQueue A → List A
  drained n q = take (min n (length q.items)) q.items

  unfoldable pub drain_up_to : ℕ → BoundedQueue A → BoundedQueue A
  unfolding take_out add_permits
  drain_up_to n q = add_permits (min n (length q.items)) (take_out n q)

  unfoldable pub is_empty : BoundedQueue A → Bool
  is_empty q = if ltb 0 (length q.items) then false else true

  unfoldable pub close : BoundedQueue A → BoundedQueue A
  close q = record q { closed = true }
