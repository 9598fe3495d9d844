-- ===== src/Worker/FsIo/Writes.antt =====
-- What `write_file` of crates/cvd-worker/src/fs_io.rs and `write_file_blocking` of src/fs_io/direct_io.rs
-- leave in the file.
mod Contents
mod Direct
use mathlib.Core.List.{Permᴰ}
use cvdbench.Base.{
  ℕ, zero, suc, ◌+◌, ◌-◌, ◌≤◌, ◌<◌, ◌≡◌, refl, sym, ap, ◌∙◌, Bool, true, false, ◌&&◌, ◌||◌, List,
  [], ◌∷◌, length, min, ltb, leb, if◌then◌else◌, arith, Bool-cases, inl, inr, ltb→lt, ◌⊎◌,
  test_rule,
}
use cvdbench.Spec.{IoMode, seq, rand}
use cvdbench.Worker.FsIo.{
  IoProfile, File, Range, byte_at, bytes_from, contents, within, created, write_bytes, set_len,
  chunk_ranges, unaligned_ranges, block_of, write_ranges, default_alignment, write_block,
  direct_from, write_file_blocking, write_buffered, write_file,
}
use cvdbench.Worker.FsIo.Ranges.{
  covered, end_of, perm-covered, perm-end_of, chunk_ranges-covered, chunk_ranges-end,
}
use cvdbench.Worker.FsIo.Writes.Contents.{holds}
use cvdbench.Worker.FsIo.Writes.Direct.{direct-contents}

write_ranges-bytes :
    (source : ℕ → ℕ) (rs : List Range) (f : File) (i : ℕ)
    → (write_ranges source rs f).bytes i ≡ (if covered rs i then source i else f.bytes i)
unfolding write_ranges write_bytes
write_ranges-bytes source [] f i = refl
write_ranges-bytes source (r ∷ rs) f i =
    write_ranges-bytes source rs (write_bytes r source f) i ∙ later (within r i) (covered rs i)
  where
    later :
        (b c : Bool)
        → (if c then source i else (if b then source i else f.bytes i))
          ≡ (if b || c then source i else f.bytes i)
    later true true = refl
    later true false = refl
    later false c = refl

write_ranges-size :
    (source : ℕ → ℕ) (rs : List Range) (f : File)
    → (write_ranges source rs f).size ≡ end_of f.size rs
unfolding write_ranges write_bytes
write_ranges-size source [] f = refl
write_ranges-size source (r ∷ rs) f = write_ranges-size source rs (write_bytes r source f)

module _ (payload : List ℕ) where
  ranges-contents :
      (rs : List Range)
      → ((i : ℕ) → covered rs i ≡ ltb i (length payload))
      → end_of 0 rs ≡ length payload
      → contents (write_ranges (byte_at payload) rs created) ≡ payload
  unfolding created
  ranges-contents rs all last =
      holds (write_ranges (byte_at payload) rs created) payload
        (write_ranges-size (byte_at payload) rs created ∙ last)
        (λ j k. write_ranges-bytes (byte_at payload) rs created j ∙ rw (all j) (ground arith))

  whole-contents : contents (write_bytes (0, length payload) (byte_at payload) created) ≡ payload
  unfolding write_bytes created
  whole-contents =
      holds (write_bytes (0, length payload) (byte_at payload) created) payload (ground arith)
        (λ j k. ground arith)

  seq-contents :
      (pick : ℕ → ℕ) (shuffle : List Range → List Range) (profile : IoProfile)
      → profile.io_aligned ≡ true
      → contents (write_buffered pick shuffle payload profile seq) ≡ payload
  unfolding write_buffered
  seq-contents pick shuffle profile a = rw a whole-contents

  rand-contents :
      (pick : ℕ → ℕ) (shuffle : List Range → List Range) (profile : IoProfile)
      → ((rs : List Range) → Permᴰ (shuffle rs) rs)
      → contents (write_buffered pick shuffle payload profile rand) ≡ payload
  unfolding write_buffered
  rand-contents pick shuffle profile mixed =
      let rs = chunk_ranges (length payload) (block_of profile) in
      ranges-contents (shuffle rs)
        (λ i.
          perm-covered (mixed rs) i ∙ chunk_ranges-covered (length payload) (block_of profile) i)
        (perm-end_of (mixed rs) 0 ∙ chunk_ranges-end (length payload) (block_of profile))

  mode-contents :
      (pick : ℕ → ℕ) (shuffle : List Range → List Range) (profile : IoProfile) (mode : IoMode)
      → ((rs : List Range) → Permᴰ (shuffle rs) rs)
      → (mode ≡ rand) ⊎ (profile.io_aligned ≡ true)
      → contents (write_buffered pick shuffle payload profile mode) ≡ payload
  mode-contents pick shuffle profile rand mixed kind = rand-contents pick shuffle profile mixed
  mode-contents pick shuffle profile seq mixed kind =
      seq-contents pick shuffle profile (ground arith)

  -- With direct I/O, with aligned sequential I/O and with random I/O, whatever the block size and the
  -- shuffle, the file that `write_file` leaves has the payload's bytes and no others.
  pub write_file-contents :
      (pick : ℕ → ℕ) (shuffle : List Range → List Range) (profile : IoProfile)
      → ((rs : List Range) → Permᴰ (shuffle rs) rs)
      → (profile.direct_io ≡ true) ⊎ (profile.io_mode ≡ rand) ⊎ (profile.io_aligned ≡ true)
      → contents (write_file pick shuffle payload profile) ≡ payload
  unfolding write_file
  write_file-contents pick shuffle profile mixed kind =
      test_rule
        (λ b.
          contents (
            if b
            then write_file_blocking payload
            else write_buffered pick shuffle payload profile profile.io_mode)
          ≡ payload)
        profile.direct_io (λ d. direct-contents payload)
        (λ d. mode-contents pick shuffle profile profile.io_mode mixed (ground arith))
