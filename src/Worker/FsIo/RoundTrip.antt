-- ===== src/Worker/FsIo/RoundTrip.antt =====
-- A file of crates/cvd-worker/src/fs_io.rs that is written and then read.
use mathlib.Core.List.{Permᴰ}
use cvdbench.Base.{ℕ, ◌<◌, ◌≡◌, true, List, some, All, length, ◌⊎◌, ◌∙◌}
use cvdbench.Spec.{rand}
use cvdbench.Worker.FsIo.{IoProfile, Range, write_file}
use cvdbench.Worker.FsIo.Writes.{write_file-contents}
use cvdbench.Worker.FsIo.Reads.{read_file_seq, concat, read_file_seq-contents}

-- A payload that is written with direct, aligned or random I/O comes back from a sequential read, cut
-- into blocks of any size, if the system gives at least one byte at each of enough reads.
pub read_file_seq-write_file :
    (payload : List ℕ) (pick : ℕ → ℕ) (shuffle : List Range → List Range) (profile : IoProfile)
    (block_size : ℕ) (limits : List ℕ)
    → ((rs : List Range) → Permᴰ (shuffle rs) rs)
    → (profile.direct_io ≡ true) ⊎ (profile.io_mode ≡ rand) ⊎ (profile.io_aligned ≡ true)
    → All (λ l. 0 < l) limits
    → (write_file pick shuffle payload profile).size < length limits
    → (cs : List (List ℕ)) × (read_file_seq
          (write_file pick shuffle payload profile)
          block_size
          limits
        ≡ some cs)
      × (concat cs ≡ payload)
read_file_seq-write_file payload pick shuffle profile block_size limits mixed kind some_bytes
      enough =
    let (cs, e, events, whole, sizes) =
      read_file_seq-contents (write_file pick shuffle payload profile) block_size limits some_bytes
        enough in
    (cs, e, whole ∙ write_file-contents payload pick shuffle profile mixed kind)
