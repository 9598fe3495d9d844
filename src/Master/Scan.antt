-- ===== src/Master/Scan.antt =====
-- `DirWorkQueue` of crates/cvd-master/src/manifest/dir_scan.rs: the directories that still have to be
-- scanned, shared by one reader of the list and the scanners, which find more of them. A call that
-- wakes waiting scanners says so (`Wake`).
pub mod Moves
pub mod Entries
pub mod Inside
pub mod Reader
pub mod Invariant
pub mod Waiting
use cvdbench.Base.{
  ℕ, ◌+◌, ◌-◌, Bool, true, false, ◌&&◌, ◌||◌, List, [], ◌∷◌, ◌++◌, length, if◌then◌else◌, ◌==◌,
}

pub record DirWorkQueue {ℓ} (D : Type ℓ) : Type ℓ where
  pub dirs : List D
  pub reader_done : Bool
  pub pending_dirs : ℕ
  pub closed : Bool

pub data Wake : Type 0 where
  nobody one_scanner all_scanners : Wake

-- What one turn of the loop of `pop` comes to.
pub data Popped {ℓ} (D : Type ℓ) : Type ℓ where
  got : D → DirWorkQueue D → Popped D
  gone : Popped D
  waits : Popped D

module _ {ℓ} {D : Type ℓ} where
  unfoldable pub new : DirWorkQueue D
  new = record { dirs = []; reader_done = false; pending_dirs = 0; closed = false }

  -- The queue and the wake-up; a closed queue takes nothing, and the call fails.
  unfoldable pub push : D → DirWorkQueue D → DirWorkQueue D × Wake
  push dir q =
      if q.closed
      then (q, nobody)
      else (record q { dirs = q.dirs ++ dir ∷ []; pending_dirs = q.pending_dirs + 1 }, one_scanner)

  unfoldable pub pop_front : DirWorkQueue D → List D → Popped D
  pop_front q (dir ∷ rest) = got dir (record q { dirs = rest })
  pop_front q [] = if q.reader_done && q.pending_dirs == 0 then gone else waits

  -- With the reading of the cancel flag at the head of the turn.
  unfoldable pub pop : Bool → DirWorkQueue D → Popped D
  unfolding pop_front
  pop cancelled q = if cancelled then gone else if q.closed then gone else pop_front q q.dirs

  unfoldable pub finish_dir : DirWorkQueue D → DirWorkQueue D × Wake
  finish_dir q =
      let pending = q.pending_dirs - 1 in
      (
        record q { pending_dirs = pending },
        if q.reader_done && pending == 0 then all_scanners else nobody,
      )

  unfoldable pub is_empty : List D → Bool
  is_empty [] = true
  is_empty (d ∷ ds) = false

  unfoldable pub mark_reader_done : DirWorkQueue D → DirWorkQueue D × Wake
  unfolding is_empty
  mark_reader_done q = (
    record q { reader_done = true },
    if q.pending_dirs == 0 || is_empty q.dirs then all_scanners else nobody,
  )

  unfoldable pub close : DirWorkQueue D → DirWorkQueue D × Wake
  close q = (record q { closed = true }, all_scanners)
