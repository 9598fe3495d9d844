-- ===== src/Worker/FsIo/Reads.antt =====
-- Sequential reads of crates/cvd-worker/src/fs_io.rs and direct ones of src/fs_io/direct_io.rs. A read
-- may give fewer bytes than it asks for: `limits` has, for each read of the loop in turn, the most that
-- the system gives. With none left the loop has not come to its end (`none`).
use cvdbench.Base.{
  ℕ, zero, suc, ◌+◌, ◌-◌, ◌*◌, ◌/◌, ◌%◌, ◌^◌, ◌≤◌, ◌<◌, ◌≡◌, refl, ap, ◌∙◌, Option, none, some,
  List, [], ◌∷◌, ◌++◌, length, map, min, max, ltb, if◌then◌else◌, ◌==◌, arith, All, Bool-cases, inl,
  inr, if_rule,
}
use cvdbench.Base.Results.{Result, ok, err}
use cvdbench.Worker.FsIo.{File, bytes_from, contents, default_alignment}

abbrev pub cons_chunk : List ℕ → Option (List (List ℕ)) → Option (List (List ℕ))
cons_chunk c none = none
cons_chunk c (some cs) = some (c ∷ cs)

-- The loop of `read_file_seq` and `stream_seq`: it ends with a read of no bytes.
unfoldable pub read_from : File → ℕ → ℕ → List ℕ → Option (List (List ℕ))
read_from f buf_size offset [] = none
read_from f buf_size offset (limit ∷ limits) =
    let n = min buf_size (min limit (f.size - offset)) in
    let rest = read_from f buf_size (offset + n) limits in
    if n == 0 then some [] else cons_chunk (bytes_from f.bytes offset n) rest

unfoldable pub read_file_seq : File → ℕ → List ℕ → Option (List (List ℕ))
unfolding read_from
read_file_seq f block_size limits = read_from f (max block_size 1) 0 limits

pub data ReadStreamEvent : Type 0 where
  opened : ReadStreamEvent
  chunk : List ℕ → ReadStreamEvent
  closed : ReadStreamEvent

-- What `stream_seq` sends while the receiver takes it.
unfoldable pub stream_seq : File → ℕ → List ℕ → Option (List ReadStreamEvent)
unfolding read_from
stream_seq f block_size limits = elim (read_from f (max block_size 1) 0 limits) [
  | none ↦ none
  | some cs ↦ some (opened ∷ (map chunk cs ++ closed ∷ []))
]

pub data AlignError : Type 0 where
  size_overflow : AlignError

-- `checked_next_multiple_of` of a usize of 64 bits.
unfoldable pub aligned_io_size : ℕ → Result AlignError ℕ
aligned_io_size size =
    let up = (size + (default_alignment - 1)) / default_alignment * default_alignment in
    if size == 0 then ok default_alignment else if ltb up (2 ^ 64) then ok up else err size_overflow

-- The loop of `read_file_blocking`: it ends at the length that the file had at the start.
unfoldable pub direct_read_from : File → ℕ → ℕ → List ℕ → Option (List (List ℕ))
direct_read_from f read_size offset [] = if ltb offset f.size then none else some []
direct_read_from f read_size offset (limit ∷ limits) =
    let n = min read_size (min limit (f.size - offset)) in
    let logical = min n (f.size - offset) in
    let rest = direct_read_from f read_size (offset + n) limits in
    if ltb offset f.size
    then (if n == 0 then some [] else cons_chunk (bytes_from f.bytes offset logical) rest)
    else some []

unfoldable pub read_file_blocking : File → ℕ → List ℕ → Result AlignError (Option (List (List ℕ)))
unfolding direct_read_from aligned_io_size
read_file_blocking f block_size limits = elim (aligned_io_size block_size) [
  | err e ↦ err e
  | ok read_size ↦ ok (direct_read_from f read_size 0 limits)
]

abbrev pub concat : List (List ℕ) → List ℕ
concat [] = []
concat (c ∷ cs) = c ++ concat cs

-- Chunks that give the rest of the file, none of them empty or larger than a read.
abbrev Reads : File → ℕ → ℕ → Option (List (List ℕ)) → Type 0
Reads f size offset r =
    (cs : List (List ℕ)) × (r ≡ some cs)
    × (concat cs ≡ bytes_from f.bytes offset (f.size - offset))
    × All (λ c. (0 < length c) × (length c ≤ size)) cs

same_length : (g : ℕ → ℕ) (i n m : ℕ) → n ≡ m → bytes_from g i n ≡ bytes_from g i m
same_length g i n m e = ap (λ x. bytes_from g i x) e

start_same : (i j : ℕ) → j ≡ i + 0 → j ≡ i
start_same i j e = omega arith

bytes_from-split :
    (g : ℕ → ℕ) (i n m j t : ℕ)
    → j ≡ i + n
    → t ≡ n + m
    → bytes_from g i n ++ bytes_from g j m ≡ bytes_from g i t
bytes_from-split g i zero m j t e h =
    ap (λ x. bytes_from g x m) (start_same i j e) ∙ (same_length g i m t (omega arith))
bytes_from-split g i (suc n) m j t e h =
    ap (λ l. g i ∷ l) (bytes_from-split g (suc i) n m j (n + m) (omega arith) refl)
    ∙ same_length g i (suc (n + m)) t (omega arith)

length-bytes_from : (g : ℕ → ℕ) (i n : ℕ) → length (bytes_from g i n) ≡ n
length-bytes_from g i zero = refl
length-bytes_from g i (suc n) = omega (arith, length-bytes_from g (suc i) n)

add_chunk :
    (f : File) (size offset n : ℕ) (r : Option (List (List ℕ)))
    → 0 < n
    → n ≤ size
    → n ≤ f.size - offset
    → Reads f size (offset + n) r
    → Reads f size offset (cons_chunk (bytes_from f.bytes offset n) r)
add_chunk f size offset n r h k l (cs, e, same, sizes) = (
  bytes_from f.bytes offset n ∷ cs,
  ap (cons_chunk (bytes_from f.bytes offset n)) e,
  ap (λ l. bytes_from f.bytes offset n ++ l) same
      ∙ bytes_from-split f.bytes offset n (f.size - (offset + n)) (offset + n) (f.size - offset)
          refl (omega arith),
  (
    (
      omega (arith, length-bytes_from f.bytes offset n),
      omega (arith, length-bytes_from f.bytes offset n),
    ),
    sizes,
  ),
)

-- Nothing is left from the end on.
same_min : (n m : ℕ) → n ≤ m → min n m ≡ n
same_min n m h = omega arith

no_chunks : (f : File) (size offset : ℕ) → f.size ≤ offset → Reads f size offset (some [])
no_chunks f size offset h =
    ([], refl, same_length f.bytes offset 0 (f.size - offset) (omega arith), tt)

read_from-Reads :
    (f : File) (size offset : ℕ) (limits : List ℕ)
    → 0 < size
    → All (λ l. 0 < l) limits
    → f.size - offset < length limits
    → Reads f size offset (read_from f size offset limits)
unfolding read_from
read_from-Reads f size offset [] s a h = absurd (omega arith)
read_from-Reads f size offset (limit ∷ limits) s a h =
    let n = min size (min limit (f.size - offset)) in
    if_rule (Reads f size offset) (n == 0) (some []) _
      (λ e. no_chunks f size offset (ground (arith, a.0)))
      (λ e.
        add_chunk f size offset n _ (ground arith) (omega arith) (omega arith)
          (read_from-Reads f size (offset + n) limits s a.1 (ground arith)))

direct_read_from-Reads :
    (f : File) (size offset : ℕ) (limits : List ℕ)
    → 0 < size
    → All (λ l. 0 < l) limits
    → f.size - offset ≤ length limits
    → Reads f size offset (direct_read_from f size offset limits)
unfolding direct_read_from
direct_read_from-Reads f size offset [] s a h =
    if_rule (Reads f size offset) (ltb offset f.size) none (some []) (λ e. absurd (ground arith))
      (λ e. no_chunks f size offset (ground arith))
direct_read_from-Reads f size offset (limit ∷ limits) s a h =
    let n = min size (min limit (f.size - offset)) in
    if_rule (Reads f size offset) (ltb offset f.size) _ (some [])
      (λ e.
        if_rule (Reads f size offset) (n == 0) (some []) _ (λ z. absurd (ground (arith, a.0)))
          (λ z. rw (same_min n (f.size - offset) (omega arith)) (
            add_chunk f size offset n _ (ground arith) (omega arith) (omega arith)
              (direct_read_from-Reads f size (offset + n) limits s a.1 (ground arith)))))
      (λ e. no_chunks f size offset (ground arith))

aligned_up :
    (size up : ℕ)
    → 0 < size
    → ◌≡◌ {A = Result AlignError ℕ}
        (if ltb ((size + 4_095) / 4_096 * 4_096) (2 ^ 64)
          then ok ((size + 4_095) / 4_096 * 4_096)
          else err size_overflow)
        (ok up)
    → (0 < up) × (up % 4_096 ≡ 0) × (size ≤ up) × (up < max size 1 + 4_096) × (up < 2 ^ 64)
aligned_up size up h e = ground arith

-- A size that is aligned is a positive multiple of 4096, not below the one asked for, and less than one
-- alignment above it unless that is zero; the rounding fails only where it would pass 64 bits.
pub aligned_io_size_lem :
    (size up : ℕ)
    → aligned_io_size size ≡ ok up
    → (0 < up) × (up % 4_096 ≡ 0) × (size ≤ up) × (up < max size 1 + 4_096) × (up < 2 ^ 64)
unfolding aligned_io_size
aligned_io_size_lem size up e = elim (Bool-cases (size == 0)) [
  | inl z ↦ ground arith
  | inr z ↦ aligned_up size up (ground arith) (ground arith)
]

events : Option (List (List ℕ)) → Option (List ReadStreamEvent)
events r = elim r [ none ↦ none | some cs ↦ some (opened ∷ (map chunk cs ++ closed ∷ [])) ]

whole : (f : File) → bytes_from f.bytes 0 (f.size - 0) ≡ contents f
whole f = same_length f.bytes 0 (f.size - 0) f.size (omega arith)

streamed :
    (size : ℕ) (f : File) (limits : List ℕ)
    → Reads f size 0 (read_from f size 0 limits)
    → (cs : List (List ℕ)) × (read_from f size 0 limits ≡ some cs)
      × (events (read_from f size 0 limits) ≡ some (opened ∷ (map chunk cs ++ closed ∷ [])))
      × (concat cs ≡ contents f)
      × All (λ c. (0 < length c) × (length c ≤ size)) cs
unfolding events
streamed size f limits (cs, e, same, sizes) = (cs, e, ap events e, same ∙ whole f, sizes)

in_ok :
    (f : File) (size : ℕ) (r : Option (List (List ℕ)))
    → Reads f size 0 r
    → (cs : List (List ℕ)) × ◌≡◌ {A = Result AlignError (Option (List (List ℕ)))}
        (ok r)
        (ok (some cs))
      × (concat cs ≡ contents f)
      × All (λ c. (0 < length c) × (length c ≤ size)) cs
in_ok f size r (cs, e, same, sizes) = (cs, ap ok e, same ∙ whole f, sizes)

-- A sequential read of a file of any size, with any block size: whatever the system gives at each read,
-- at least one byte while there are some, one read more than the file has bytes is enough, and the
-- chunks are not empty, not larger than a block, and together the file.
pub read_file_seq-contents :
    (f : File) (block_size : ℕ) (limits : List ℕ)
    → All (λ l. 0 < l) limits
    → f.size < length limits
    → (cs : List (List ℕ)) × (read_file_seq f block_size limits ≡ some cs)
      × (stream_seq f block_size limits ≡ some (opened ∷ (map chunk cs ++ closed ∷ [])))
      × (concat cs ≡ contents f)
      × All (λ c. (0 < length c) × (length c ≤ max block_size 1)) cs
unfolding read_file_seq stream_seq events
read_file_seq-contents f block_size limits a h =
    streamed (max block_size 1) f limits
      (read_from-Reads f (max block_size 1) 0 limits (omega arith) a (omega arith))

-- A direct read of a file whose block size can be aligned: as many reads as the file has bytes are
-- enough, and the chunks are not empty, not larger than the aligned block, and together the file.
pub read_file_blocking-contents :
    (f : File) (block_size up : ℕ) (limits : List ℕ)
    → aligned_io_size block_size ≡ ok up
    → All (λ l. 0 < l) limits
    → f.size ≤ length limits
    → (cs : List (List ℕ)) × (read_file_blocking f block_size limits ≡ ok (some cs))
      × (concat cs ≡ contents f)
      × All (λ c. (0 < length c) × (length c ≤ up)) cs
unfolding read_file_blocking
read_file_blocking-contents f block_size up limits e a h =
    rw (e, read_file_blocking)
      (in_ok f up (direct_read_from f up 0 limits) (
        direct_read_from-Reads f up 0 limits (aligned_io_size_lem block_size up e).0 a
          (omega arith)))
