-- ===== src/Master/Scan/Invariant.antt =====
-- What holds of the queue of directories of crates/cvd-master/src/manifest/dir_scan.rs after any moves.
use cvdbench.Base.{
  ℕ, suc, ◌+◌, ◌-◌, ◌<◌, ◌≡◌, refl, sym, ap, ◌∙◌, true, false, ◌&&◌, ◌||◌, List, [], ◌∷◌, ◌++◌,
  length, take, drop, arith, append_assoc, length-append, length-take, length-drop, if◌then◌else◌,
  ltb, ◌==◌, if_rule, test_rule, ltb→lt,
}
use cvdbench.Master.Scan.{
  DirWorkQueue, Wake, nobody, one_scanner, all_scanners, gone, waits, new, push, pop_front, pop,
  finish_dir, is_empty, mark_reader_done, close,
}
use cvdbench.Master.Scan.Moves.{
  Notify, Move, reads, finds, asks, finishes, reader_ends, shut, Trace, woken, with_wake, push_move,
  after_pop, move, moves, started,
}

module _ {ℓ κ} {D : Type ℓ} {N : Type κ} (notify : Notify N) where
  pub record IsScanning (t : Trace D N) : Type ℓ where
    pub counted : t.queue.pending_dirs ≡ length t.queue.dirs + length t.at_work
    pub in_order : t.handed ++ t.queue.dirs ≡ t.pushed
    pub quiet : t.queue.reader_done ≡ true → t.queue.pending_dirs ≡ 0 → notify.waiting t.notify ≡ 0
    pub quiet_closed : t.queue.closed ≡ true → notify.waiting t.notify ≡ 0

  -- The trace after a push and after the end of a scan.
  abbrev pushed_trace : Trace D N → DirWorkQueue D × Wake → List D → Trace D N
  pushed_trace t q ds = record (with_wake notify t q) { pushed = ds }

  abbrev finished : ℕ → Wake → Trace D N → Trace D N
  finished n w t = record t {
    queue = record t.queue { pending_dirs = t.queue.pending_dirs - 1 };
    notify = woken notify w t.notify;
    at_work = take n t.at_work ++ drop (suc n) t.at_work;
  }

  push-IsScanning :
      (d : D) (t : Trace D N)
      → IsScanning t
      → (t.queue.reader_done ≡ true → 0 < t.queue.pending_dirs)
      → IsScanning (push_move notify d t)
  unfolding push_move push
  push-IsScanning d t s busy =
      test_rule
        (λ c. IsScanning (
          pushed_trace t
            (if c then (t.queue, nobody) else (
              record t.queue {
                dirs = t.queue.dirs ++ d ∷ [];
                pending_dirs = t.queue.pending_dirs + 1;
              },
              one_scanner,
            ))
            (if c then t.pushed else t.pushed ++ d ∷ [])))
        t.queue.closed (λ e. s)
        (λ e. record {
          counted = omega (arith, length-append t.queue.dirs (d ∷ []), s.counted);
          in_order =
              sym (append_assoc t.handed t.queue.dirs (d ∷ []))
              ∙ ap (λ xs. xs ++ d ∷ []) s.in_order;
          quiet = λ r z. absurd (omega arith);
          quiet_closed = λ c. cc;
        })

  popped-IsScanning :
      (t : Trace D N) (dirs : List D)
      → t.queue.dirs ≡ dirs
      → t.queue.closed ≡ false
      → IsScanning t
      → IsScanning (after_pop notify t (pop_front t.queue dirs))
  unfolding pop_front after_pop
  popped-IsScanning t [] e open_still s =
      if_rule (λ p. IsScanning (after_pop notify t p))
        (t.queue.reader_done && t.queue.pending_dirs == 0) gone waits (λ h. s)
        (λ h. record {
          counted = s.counted;
          in_order = s.in_order;
          quiet = λ r z. absurd (ground arith);
          quiet_closed = λ c. cc;
        })
  popped-IsScanning t (d ∷ rest) e open_still s = record {
    counted = omega (arith, s.counted, ap length e, length-append t.at_work (d ∷ []));
    in_order =
        append_assoc t.handed (d ∷ []) rest ∙ (ap (λ xs. t.handed ++ xs) (sym e) ∙ s.in_order);
    quiet = s.quiet;
    quiet_closed = s.quiet_closed;
  }

  removed :
      (n : ℕ) (xs : List D) → n < length xs → length (take n xs ++ drop (suc n) xs) + 1 ≡ length xs
  removed n xs h =
      omega (
        arith,
        length-append (take n xs) (drop (suc n) xs),
        length-take n xs,
        length-drop (suc n) xs,
      )

  move-IsScanning : (t : Trace D N) (m : Move D) → IsScanning t → IsScanning (move notify t m)
  unfolding move pop finish_dir mark_reader_done close
  move-IsScanning t (reads d) s =
      if_rule IsScanning t.queue.reader_done t (push_move notify d t) (λ e. s)
        (λ e. push-IsScanning d t s (λ r. cc))
  move-IsScanning t (finds d) s =
      if_rule IsScanning (ltb 0 (length t.at_work)) (push_move notify d t) t
        (λ e. push-IsScanning d t s (λ r. ground (arith, s.counted))) (λ e. s)
  move-IsScanning t (asks cancelled) s =
      if_rule (λ p. IsScanning (after_pop notify t p)) cancelled gone
        (if t.queue.closed then gone else pop_front t.queue t.queue.dirs) (λ e. s)
        (λ e.
          if_rule (λ p. IsScanning (after_pop notify t p)) t.queue.closed gone
            (pop_front t.queue t.queue.dirs) (λ c. s)
            (λ c. popped-IsScanning t t.queue.dirs refl c s))
  move-IsScanning t (finishes n) s =
      if_rule IsScanning (ltb n (length t.at_work)) _ t
        (λ e.
          if_rule (λ w. IsScanning (finished n w t))
            (t.queue.reader_done && t.queue.pending_dirs - 1 == 0) all_scanners nobody
            (λ h. record {
              counted = omega (arith, s.counted, removed n t.at_work (ltb→lt _ _ e));
              in_order = s.in_order;
              quiet = λ r z. notify.none_left t.notify;
              quiet_closed = λ c. notify.none_left t.notify;
            })
            (λ h. record {
              counted = omega (arith, s.counted, removed n t.at_work (ltb→lt _ _ e));
              in_order = s.in_order;
              quiet = λ r z. absurd (ground arith);
              quiet_closed = s.quiet_closed;
            }))
        (λ e. s)
  move-IsScanning t reader_ends s =
      if_rule
        (λ w. IsScanning (record t {
          queue = record t.queue { reader_done = true };
          notify = woken notify w t.notify;
        }))
        (t.queue.pending_dirs == 0 || is_empty t.queue.dirs) all_scanners nobody
        (λ h. record {
          counted = s.counted;
          in_order = s.in_order;
          quiet = λ r z. notify.none_left t.notify;
          quiet_closed = λ c. notify.none_left t.notify;
        })
        (λ h. record {
          counted = s.counted;
          in_order = s.in_order;
          quiet = λ r z. absurd (ground arith);
          quiet_closed = s.quiet_closed;
        })
  move-IsScanning t shut s = record {
    counted = s.counted;
    in_order = s.in_order;
    quiet = λ r z. notify.none_left t.notify;
    quiet_closed = λ c. notify.none_left t.notify;
  }

  pub moves-IsScanning :
      (t : Trace D N) (ms : List (Move D)) → IsScanning t → IsScanning (moves notify t ms)
  unfolding moves
  moves-IsScanning t [] s = s
  moves-IsScanning t (m ∷ ms) s = moves-IsScanning (move notify t m) ms (move-IsScanning t m s)

  pub started-IsScanning : IsScanning (started notify)
  unfolding started new
  started-IsScanning = record {
    counted = refl;
    in_order = refl;
    quiet = λ r z. notify.none_at_first;
    quiet_closed = λ c. notify.none_at_first;
  }

  -- However the reader's and the scanners' calls mix: the directories were handed out once each, in the
  -- order in which they were pushed, and the others still stand in the queue; and `pending_dirs` counts
  -- those in the queue and those at work.
  pub moves-in_order :
      (ms : List (Move D))
      → let t = moves notify (started notify) ms in
        (t.handed ++ t.queue.dirs ≡ t.pushed)
        × (t.queue.pending_dirs ≡ length t.queue.dirs + length t.at_work)
  moves-in_order ms =
      let s = moves-IsScanning (started notify) ms started-IsScanning in (s.in_order, s.counted)
