-- ===== src/Master/Scan/Moves.antt =====
-- The queue of directories of crates/cvd-master/src/manifest/dir_scan.rs under any interleaving of the
-- reader and the scanners. What waits on the queue is held by tokio's `Notify`, an interface here.
use cvdbench.Base.{
  ℕ, suc, ◌≤◌, ◌≡◌, Bool, List, [], ◌∷◌, ◌++◌, length, take, drop, if◌then◌else◌, ltb,
}
use cvdbench.Master.Scan.{
  DirWorkQueue, Wake, nobody, one_scanner, all_scanners, Popped, got, gone, waits, new, push, pop,
  finish_dir, mark_reader_done, close,
}

-- The scanners that wait: one more that waits, one that is woken, all that are woken.
pub record Notify {ℓ} (N : Type ℓ) : Type ℓ where
  pub idle : N
  pub waiting : N → ℕ
  pub wait_on : N → N
  pub notify_one : N → N
  pub notify_waiters : N → N
  pub none_at_first : waiting idle ≡ 0
  pub none_left : (n : N) → waiting (notify_waiters n) ≡ 0
  pub no_more : (n : N) → waiting (notify_one n) ≤ waiting n

-- `reads` is a directory of the list, `finds` one that a scanner at work comes to, `asks` a turn of
-- `pop`, `finishes n` the end of the work on the `n`-th directory at work.
pub data Move {ℓ} (D : Type ℓ) : Type ℓ where
  reads : D → Move D
  finds : D → Move D
  asks : Bool → Move D
  finishes : ℕ → Move D
  reader_ends : Move D
  shut : Move D

-- The queue, who waits for it, the directories at work, and all that went in and came out.
pub record Trace {ℓ κ} (D : Type ℓ) (N : Type κ) : Type (ℓ ⊔ κ) where
  pub queue : DirWorkQueue D
  pub notify : N
  pub at_work : List D
  pub pushed : List D
  pub handed : List D

abbrev pub woken {κ} : {N : Type κ} → Notify N → Wake → N → N
woken notify nobody n = n
woken notify one_scanner n = notify.notify_one n
woken notify all_scanners n = notify.notify_waiters n

module _ {ℓ κ} {D : Type ℓ} {N : Type κ} (notify : Notify N) where
  abbrev pub with_wake : Trace D N → DirWorkQueue D × Wake → Trace D N
  with_wake t (q, w) = record t { queue = q; notify = woken notify w t.notify }

  unfoldable pub push_move : D → Trace D N → Trace D N
  unfolding push
  push_move d t =
      let t' = with_wake t (push d t.queue) in
      record t' { pushed = if t.queue.closed then t.pushed else t.pushed ++ d ∷ [] }

  unfoldable pub after_pop : Trace D N → Popped D → Trace D N
  after_pop t (got d q) = record t {
    queue = q;
    at_work = t.at_work ++ d ∷ [];
    handed = t.handed ++ d ∷ [];
  }
  after_pop t gone = t
  after_pop t waits = record t { notify = notify.wait_on t.notify }

  -- A move that nobody can make leaves all as it is: the reader does nothing after its end, a
  -- directory is found and finished only by a scanner at work.
  unfoldable pub move : Trace D N → Move D → Trace D N
  unfolding push_move after_pop pop finish_dir mark_reader_done close
  move t (reads d) = if t.queue.reader_done then t else push_move d t
  move t (finds d) = if ltb 0 (length t.at_work) then push_move d t else t
  move t (asks cancelled) = after_pop t (pop cancelled t.queue)
  move t (finishes n) =
      let t' = with_wake t (finish_dir t.queue) in
      if ltb n (length t.at_work)
      then record t' { at_work = take n t.at_work ++ drop (suc n) t.at_work }
      else t
  move t reader_ends = with_wake t (mark_reader_done t.queue)
  move t shut = with_wake t (close t.queue)

  unfoldable pub moves : Trace D N → List (Move D) → Trace D N
  unfolding move
  moves t [] = t
  moves t (m ∷ ms) = moves (move t m) ms

  unfoldable pub started : Trace D N
  unfolding new
  started = record { queue = new; notify = notify.idle; at_work = []; pushed = []; handed = [] }
