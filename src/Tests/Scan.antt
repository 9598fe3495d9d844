-- ===== src/Tests/Scan.antt =====
-- The queue of directories at a concrete run.
use Prim.Native.String.{String}
use cvdbench.Base.{
  ℕ, suc, ◌+◌, ◌-◌, ◌≡◌, ◌≢◌, refl, true, false, List, [], ◌∷◌, ◌++◌, length, arith, inl, ◌⊎◌,
}
use cvdbench.Master.Scan.{pop, waits, gone}
use cvdbench.Base.{none, some, Text, codes, same, has_char, is_empty, starts_with_char, trim}
use cvdbench.Master.Scan.Entries.{
  OsText, invalid, os_text, to_string_lossy, os_text_eq, Turn, regular, symlink, directory,
  scan_one_dir,
}
use cvdbench.Master.Scan.Entries.{read_lines, reader_done}
use cvdbench.Master.Scan.Reader.{ReadAll, wanted, read_lines-ReadAll}
use cvdbench.Master.Scan.Inside.{Inside, scan_one_dir-Inside}
use cvdbench.Master.Scan.Moves.{
  Notify, Move, reads, finds, asks, finishes, reader_ends, moves, started,
}
use cvdbench.Master.Scan.Invariant.{moves-in_order}
use cvdbench.Master.Scan.Waiting.{pop-progress, moves-none_waiting}

abbrev name : String → OsText
name s = os_text (codes s)

-- A file, a link and a directory below /m.
abbrev three_turns : List Turn
three_turns =
    record {
      cancelled = false;
      entry = some (record {
        path = name "m" ∷ name "f" ∷ [];
        file_type = some regular;
        canonical = some (name "m" ∷ name "f" ∷ []);
      });
      queue_open = true;
    }
    ∷ record {
      cancelled = false;
      entry =
          some (record {
            path = name "m" ∷ name "l" ∷ [];
            file_type = some symlink;
            canonical = none;
          });
      queue_open = true;
    }
    ∷ record {
      cancelled = false;
      entry = some (record {
        path = name "m" ∷ name "d" ∷ [];
        file_type = some directory;
        canonical = none;
      });
      queue_open = true;
    }
    ∷ []

scan_one_dir-Inside_example :
    Inside (name "m" ∷ []) three_turns (scan_one_dir false true (name "m" ∷ []) three_turns)
scan_one_dir-Inside_example = scan_one_dir-Inside false true (name "m" ∷ []) three_turns

-- What the scan pushes.
three_turns-scanned :
    scan_one_dir false true (name "m" ∷ []) three_turns
    ≡ record { files = codes "f" ∷ []; dirs = (name "d" ∷ []) ∷ []; error = none }
unfolding scan_one_dir os_text_eq same has_char is_empty starts_with_char
three_turns-scanned = refl

-- The byte 0xff is not UTF-8.
name_not_utf8 :
    to_string_lossy (name "d" ∷ (invalid (0xff ∷ []) ∷ name "f") ∷ [])
    ≡ b'd' ∷ b'/' ∷ 0xfffd ∷ b'f' ∷ []
unfolding to_string_lossy
name_not_utf8 = refl

-- A list with a comment, an empty line and two directories.
abbrev listed : List Text
listed = codes "a " ∷ codes "# b" ∷ [] ∷ codes "c/d" ∷ []

listed-read : (read_lines (λ n. false) (λ n. true) 0 listed).1 ≡ reader_done
unfolding read_lines trim is_empty starts_with_char has_char same
listed-read = refl

read_lines-ReadAll_example : ReadAll (read_lines (λ n. false) (λ n. true) 0 listed) (wanted listed)
read_lines-ReadAll_example = read_lines-ReadAll (λ n. false) (λ n. true) 0 listed listed-read

-- The number of those that wait.
abbrev counter : Notify ℕ
counter = record {
  idle = 0;
  waiting = λ n. n;
  wait_on = λ n. suc n;
  notify_one = λ n. n - 1;
  notify_waiters = λ n. 0;
  none_at_first = refl;
  none_left = λ n. refl;
  no_more = λ n. omega arith;
}

-- Directory 1 is handed out, a second scanner waits, and directory 2 is found in the first.
abbrev at_work : List (Move ℕ)
at_work = reads 1 ∷ asks false ∷ reader_ends ∷ asks false ∷ []

abbrev complete : List (Move ℕ)
complete =
    reads 1
    ∷ asks false
    ∷ reader_ends
    ∷ asks false
    ∷ finds 2
    ∷ finishes 0
    ∷ asks false
    ∷ asks false
    ∷ finishes 0
    ∷ []

moves-in_order_example :
    let t = moves counter (started counter) complete in
    (t.handed ++ t.queue.dirs ≡ t.pushed)
    × (t.queue.pending_dirs ≡ length t.queue.dirs + length t.at_work)
moves-in_order_example = moves-in_order counter complete

second-waits : pop false (moves counter (started counter) at_work).queue ≡ waits
unfolding moves pop started
second-waits = refl

pop-progress_example :
    let t = moves counter (started counter) at_work in
    (t.queue.closed ≡ false)
    × (t.queue.dirs ≡ [])
    × ((t.queue.reader_done ≡ false) ⊎ (t.at_work ≢ []))
pop-progress_example = pop-progress counter at_work second-waits

all-done :
    let t = moves counter (started counter) complete in
    (t.queue.reader_done ≡ true) × (t.queue.dirs ≡ []) × (t.at_work ≡ [])
unfolding moves started
all-done = (refl, refl, refl)

moves-none_waiting_example :
    let t = moves counter (started counter) complete in
    (counter.waiting t.notify ≡ 0) × (pop false t.queue ≡ gone)
moves-none_waiting_example = moves-none_waiting counter complete (inl all-done)
