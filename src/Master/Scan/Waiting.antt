-- ===== src/Master/Scan/Waiting.antt =====
-- Who waits for the directories of crates/cvd-master/src/manifest/dir_scan.rs, and for how long.
use cvdbench.Base.{
  ◌≡◌, ◌≢◌, refl, ap, true, false, ◌⊎◌, inl, inr, List, [], ◌∷◌, length, arith, if◌then◌else◌,
  test_rule,
}
use cvdbench.Master.Scan.{DirWorkQueue, gone, waits, pop_front, pop}
use cvdbench.Master.Scan.Moves.{Notify, Move, Trace, moves, started}
use cvdbench.Master.Scan.Invariant.{IsScanning, moves-IsScanning, started-IsScanning}

module _ {ℓ κ} {D : Type ℓ} {N : Type κ} (notify : Notify N) where
  waiting_front :
      (q : DirWorkQueue D) (ds : List D)
      → pop_front q ds ≡ waits
      → (ds ≡ []) × ((q.reader_done ≡ false) ⊎ (q.pending_dirs ≢ 0))
  unfolding pop_front
  waiting_front q [] e = (refl, ground arith)
  waiting_front q (d ∷ rest) e = cc

  waiting_pop :
      (q : DirWorkQueue D) → pop false q ≡ waits → (q.closed ≡ false) × (pop_front q q.dirs ≡ waits)
  unfolding pop
  waiting_pop q e =
      test_rule
        (λ b.
          (if b then gone else pop_front q q.dirs) ≡ waits
          → (b ≡ false) × (pop_front q q.dirs ≡ waits))
        q.closed (λ h g. cc) (λ h g. (refl, g)) e

  ended_pop :
      (q : DirWorkQueue D)
      → q.dirs ≡ []
      → q.reader_done ≡ true
      → q.pending_dirs ≡ 0
      → pop false q ≡ gone
  unfolding pop pop_front
  ended_pop q e r p = rw e (ground arith)

  closed_pop : (q : DirWorkQueue D) → q.closed ≡ true → pop false q ≡ gone
  unfolding pop
  closed_pop q c = rw c refl

  someone_left :
      (t : Trace D N)
      → IsScanning notify t
      → t.queue.dirs ≡ []
      → (t.queue.reader_done ≡ false) ⊎ (t.queue.pending_dirs ≢ 0)
      → (t.queue.reader_done ≡ false) ⊎ (t.at_work ≢ [])
  someone_left t s e (inl r) = inl r
  someone_left t s e (inr p) = inr (λ w. p (omega (arith, s.counted, ap length e, ap length w)))

  -- A scanner that does not get a directory and is not told to stop waits only while the queue is open
  -- and empty, and the reader or another scanner is still at work.
  pub pop-progress :
      (ms : List (Move D))
      → let t = moves notify (started notify) ms in
        pop false t.queue ≡ waits
        → (t.queue.closed ≡ false)
          × (t.queue.dirs ≡ [])
          × ((t.queue.reader_done ≡ false) ⊎ (t.at_work ≢ []))
  unfolding pop
  pop-progress ms e =
      let t = moves notify (started notify) ms in
      let s = moves-IsScanning notify (started notify) ms (started-IsScanning notify) in
      let (c, f) = waiting_pop t.queue e in
      let (d, more) = waiting_front t.queue t.queue.dirs f in (c, d, someone_left t s d more)

  -- When the reader has ended and no directory is queued or at work, or the queue is closed, no scanner
  -- waits any more, and a scanner that asks is told to go.
  pub moves-none_waiting :
      (ms : List (Move D))
      → let t = moves notify (started notify) ms in
        ((t.queue.reader_done ≡ true) × (t.queue.dirs ≡ []) × (t.at_work ≡ []))
          ⊎ (t.queue.closed ≡ true)
        → (notify.waiting t.notify ≡ 0) × (pop false t.queue ≡ gone)
  moves-none_waiting ms (inl (r, e, f)) =
      let t = moves notify (started notify) ms in
      let s = moves-IsScanning notify (started notify) ms (started-IsScanning notify) in
      let none_pending : t.queue.pending_dirs ≡ 0 =
        omega (arith, s.counted, ap length e, ap length f) in
      (s.quiet r none_pending, ended_pop t.queue e r none_pending)
  moves-none_waiting ms (inr c) =
      let t = moves notify (started notify) ms in
      (
        (moves-IsScanning notify (started notify) ms (started-IsScanning notify)).quiet_closed c,
        closed_pop t.queue c,
      )
