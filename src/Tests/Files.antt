-- ===== src/Tests/Files.antt =====
-- The workers' files at concrete inputs.
use mathlib.Core.List.Permᴰ
use cvdbench.Base.{
  ℕ, ◌≤◌, ◌<◌, ◌≡◌, refl, false, List, [], ◌∷◌, some, length, max, All, arith, inl, inr, map, ◌++◌,
}
use cvdbench.Base.Results.{ok}
use cvdbench.Spec.{seq, rand}
use cvdbench.Worker.FsIo.{IoProfile, File, Range, byte_at, contents, write_file}
use cvdbench.Worker.FsIo.Writes.{write_file-contents}
use cvdbench.Worker.FsIo.Reads.{
  read_file_seq, stream_seq, opened, chunk, closed, concat, read_file_blocking, aligned_io_size,
  read_file_seq-contents, read_file_blocking-contents,
}
use cvdbench.Worker.FsIo.RoundTrip.{read_file_seq-write_file}

-- Three bytes in blocks of two.
abbrev payload : List ℕ
payload = 10 ∷ 20 ∷ 30 ∷ []

abbrev random_profile : IoProfile
random_profile = record { io_mode = rand; io_aligned = false; direct_io = false; block_size = 2 }

abbrev unaligned_profile : IoProfile
unaligned_profile = record { io_mode = seq; io_aligned = false; direct_io = false; block_size = 2 }

abbrev unshuffled : List Range → List Range
unshuffled rs = rs

write_file-contents_example :
    contents (write_file (λ n. 1) unshuffled payload random_profile) ≡ payload
write_file-contents_example =
    write_file-contents payload (λ n. 1) unshuffled random_profile (λ rs. Permᴰ.refl rs)
      (inr (inl refl))

-- The generator picks offset 1: the first byte is not written.
unaligned_first :
    contents (write_file (λ n. 1) unshuffled payload unaligned_profile) ≡ 0 ∷ 20 ∷ 30 ∷ []
unfolding write_file
unaligned_first = refl

abbrev small_file : File
small_file = record { size = 3; bytes = byte_at payload }

read_file_seq-contents_example :
    (cs : List (List ℕ)) × (read_file_seq small_file 2 (1 ∷ 5 ∷ 5 ∷ 5 ∷ []) ≡ some cs)
    × (stream_seq small_file 2 (1 ∷ 5 ∷ 5 ∷ 5 ∷ []) ≡ some (opened ∷ (map chunk cs ++ closed ∷ [])))
    × (concat cs ≡ contents small_file)
    × All (λ c. (0 < length c) × (length c ≤ max 2 1)) cs
read_file_seq-contents_example =
    read_file_seq-contents small_file 2 (1 ∷ 5 ∷ 5 ∷ 5 ∷ []) (omega arith) (omega arith)

block-aligned : aligned_io_size 512 ≡ ok 4_096
unfolding aligned_io_size
block-aligned = refl

read_file_blocking-contents_example :
    (cs : List (List ℕ)) × (read_file_blocking small_file 512 (4_096 ∷ 1 ∷ 1 ∷ []) ≡ ok (some cs))
    × (concat cs ≡ contents small_file)
    × All (λ c. (0 < length c) × (length c ≤ 4_096)) cs
read_file_blocking-contents_example =
    read_file_blocking-contents small_file 512 4_096 (4_096 ∷ 1 ∷ 1 ∷ []) block-aligned
      (omega arith) (omega arith)

written-size : (write_file (λ n. 1) unshuffled payload random_profile).size ≡ 3
unfolding write_file
written-size = refl

read_file_seq-write_file_example :
    (cs : List (List ℕ)) × (read_file_seq
        (write_file (λ n. 1) unshuffled payload random_profile)
        2
        (1 ∷ 5 ∷ 5 ∷ 5 ∷ [])
      ≡ some cs)
    × (concat cs ≡ payload)
read_file_seq-write_file_example =
    read_file_seq-write_file payload (λ n. 1) unshuffled random_profile 2 (1 ∷ 5 ∷ 5 ∷ 5 ∷ [])
      (λ rs. Permᴰ.refl rs) (inr (inl refl)) (omega arith) (omega (arith, written-size))
