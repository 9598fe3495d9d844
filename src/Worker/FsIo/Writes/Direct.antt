-- ===== src/Worker/FsIo/Writes/Direct.antt =====
-- What `write_file_blocking` of crates/cvd-worker/src/fs_io/direct_io.rs leaves in the file.
use cvdbench.Base.{
  ℕ, zero, suc, ◌+◌, ◌-◌, ◌≤◌, ◌<◌, ◌≡◌, refl, List, length, min, ltb, if◌then◌else◌, arith,
  Bool-cases, inl, inr, ltb→lt, ◌⊎◌, test_rule,
}
use cvdbench.Worker.FsIo.{
  File, byte_at, contents, created, write_bytes, set_len, default_alignment, write_block,
  direct_from, write_file_blocking,
}
use cvdbench.Worker.FsIo.Writes.Contents.{holds}

module _ (payload : List ℕ) where
  -- A block of the padded loop has the payload's bytes.
  block-bytes :
      (offset written j : ℕ) (f : File)
      → offset ≡ written
      → j < length payload
      → (j < written → f.bytes j ≡ byte_at payload j)
      → j < written + min (length payload - written) default_alignment
      → (write_block offset written payload f).bytes j ≡ byte_at payload j
  unfolding write_block write_bytes
  block-bytes offset written j f o h before k = elim (Bool-cases (ltb j written)) [
    | inl e ↦ ground (arith, before (ltb→lt j written e))
    | inr e ↦ let back : written + (j - offset) ≡ j = ground arith in rw back (ground arith)
  ]

  direct_from-bytes :
      (fuel offset written j : ℕ) (f : File)
      → length payload - written ≤ fuel
      → (offset ≡ written) ⊎ (length payload ≤ written)
      → j < length payload
      → (j < written → f.bytes j ≡ byte_at payload j)
      → (direct_from fuel offset written payload f).bytes j ≡ byte_at payload j
  unfolding direct_from
  direct_from-bytes zero offset written j f h o k before = before (omega arith)
  direct_from-bytes (suc fuel) offset written j f h o k before =
      test_rule
        (λ b.
          (if b
              then direct_from fuel (offset + default_alignment) (written + logical) payload
                  (write_block offset written payload f)
              else f).bytes
            j
          ≡ byte_at payload j)
        (ltb written (length payload))
        (λ e.
          direct_from-bytes fuel (offset + default_alignment) (written + logical) j
            (write_block offset written payload f) (ground arith) (ground arith) k
            (block-bytes offset written j f (ground arith) k before))
        (λ e. before (ground arith))
    where
      logical : ℕ
      logical = min (length payload - written) default_alignment

  block-size :
      (offset written : ℕ) (f : File)
      → offset ≡ written
      → min (written + min (length payload - written) default_alignment) (length payload)
        ≤ (write_block offset written payload f).size
  unfolding write_block write_bytes
  block-size offset written f o = ground arith

  direct_from-size :
      (fuel offset written : ℕ) (f : File)
      → length payload - written ≤ fuel
      → (offset ≡ written) ⊎ (length payload ≤ written)
      → min written (length payload) ≤ f.size
      → length payload ≤ (direct_from fuel offset written payload f).size
  unfolding direct_from
  direct_from-size zero offset written f h o s = omega arith
  direct_from-size (suc fuel) offset written f h o s =
      test_rule
        (λ b.
          length payload
          ≤ (if b
              then direct_from fuel (offset + default_alignment) (written + logical) payload
                  (write_block offset written payload f)
              else f).size)
        (ltb written (length payload))
        (λ e.
          direct_from-size fuel (offset + default_alignment) (written + logical)
            (write_block offset written payload f) (ground arith) (ground arith)
            (block-size offset written f (ground arith)))
        (λ e. ground arith)
    where
      logical : ℕ
      logical = min (length payload - written) default_alignment

  pub direct-contents : contents (write_file_blocking payload) ≡ payload
  unfolding write_file_blocking set_len created
  direct-contents = holds (write_file_blocking payload) payload refl (λ j k. ground (
    arith,
    direct_from-bytes (length payload) 0 0 j created (omega arith) (inl refl) k
        (λ z. absurd (omega arith)),
    direct_from-size (length payload) 0 0 created (omega arith) (inl refl) (omega arith),
  ))
