-- ===== src/Worker/FsIo.antt =====
-- Files as the workers write them: crates/cvd-worker/src/fs_io.rs and the writing half of
-- src/fs_io/direct_io.rs. A file is its size and its bytes by their position, zero where nothing was
-- written. An I/O error ends a call, and is not in this model. `pick` stands for `gen_range(0..len)`
-- and `shuffle` for the shuffle of the generator that is seeded with the path and the length.
pub mod Ranges
pub mod Writes
pub mod Reads
pub mod RoundTrip
use cvdbench.Base.{
  ℕ, zero, suc, ◌+◌, ◌-◌, ◌*◌, ◌/◌, ◌%◌, ◌^◌, ◌≤◌, Bool, true, false, ◌&&◌, Option, none, some,
  List, [], ◌∷◌, length, map, min, max, ltb, leb, if◌then◌else◌, ◌==◌,
}
use cvdbench.Spec.{IoMode, seq, rand}

pub record IoProfile : Type 0 where
  pub io_mode : IoMode
  pub io_aligned : Bool
  pub direct_io : Bool
  pub block_size : ℕ

pub record File : Type 0 where
  pub size : ℕ
  pub bytes : ℕ → ℕ

-- An offset and a length.
abbrev pub Range : Type 0
Range = ℕ × ℕ

abbrev pub byte_at : List ℕ → ℕ → ℕ
byte_at [] i = 0
byte_at (b ∷ bs) zero = b
byte_at (b ∷ bs) (suc i) = byte_at bs i

-- `n` bytes from position `i` on.
abbrev pub bytes_from : (ℕ → ℕ) → ℕ → ℕ → List ℕ
bytes_from g i zero = []
bytes_from g i (suc n) = g i ∷ bytes_from g (suc i) n

abbrev pub contents : File → List ℕ
contents f = bytes_from f.bytes 0 f.size

abbrev pub within : Range → ℕ → Bool
within (offset, n) i = leb offset i && ltb i (offset + n)

-- `File::create`, `write_all` of a slice at its place, `set_len`.
unfoldable pub created : File
created = record { size = 0; bytes = λ i. 0 }

-- Nothing is written, and the file does not grow, where the slice is empty.
unfoldable pub write_bytes : Range → (ℕ → ℕ) → File → File
write_bytes (offset, n) source f = record {
  size = if n == 0 then f.size else max f.size (offset + n);
  bytes = λ i. if within (offset, n) i then source i else f.bytes i;
}

unfoldable pub set_len : ℕ → File → File
set_len n f = record {
  size = n;
  bytes = λ i. if ltb i n then (if ltb i f.size then f.bytes i else 0) else 0;
}

-- The loops of `chunk_ranges` and `unaligned_ranges`, from an offset on; each round goes on by one
-- byte at least, so the distance to the end is fuel enough.
unfoldable pub ranges_from : ℕ → ℕ → ℕ → ℕ → List Range
ranges_from zero offset len block_size = []
ranges_from (suc fuel) offset len block_size =
    let n = min (len - offset) (max block_size 1) in
    let rest = ranges_from fuel (offset + n) len block_size in
    if ltb offset len then (offset, n) ∷ rest else []

unfoldable pub chunk_ranges : ℕ → ℕ → List Range
unfolding ranges_from
chunk_ranges len block_size = ranges_from len 0 len block_size

unfoldable pub unaligned_ranges : (ℕ → ℕ) → ℕ → ℕ → List Range
unfolding ranges_from
unaligned_ranges pick len block_size =
    if len == 0 then [] else ranges_from len (pick len) len block_size

-- `usize::try_from(block_size.max(1)).unwrap_or(1 << 20)` where a usize has 64 bits.
abbrev pub block_of : IoProfile → ℕ
block_of p = max p.block_size 1

unfoldable pub write_ranges : (ℕ → ℕ) → List Range → File → File
unfolding write_bytes
write_ranges source [] f = f
write_ranges source (r ∷ rs) f = write_ranges source rs (write_bytes r source f)

abbrev pub default_alignment : ℕ
default_alignment = 4_096

-- The loop of `write_file_blocking`: whole blocks, the last one padded with zeros. `offset` and
-- `written_logical` are equal until the last block.
-- One round: the buffer with the next bytes, padded with zeros, is written as a whole.
unfoldable pub write_block : ℕ → ℕ → List ℕ → File → File
unfolding write_bytes
write_block offset written payload f =
    let logical = min (length payload - written) default_alignment in
    write_bytes (offset, default_alignment)
      (λ i. if ltb (i - offset) logical then byte_at payload (written + (i - offset)) else 0) f

unfoldable pub direct_from : ℕ → ℕ → ℕ → List ℕ → File → File
unfolding write_block
direct_from zero offset written payload f = f
direct_from (suc fuel) offset written payload f =
    let logical = min (length payload - written) default_alignment in
    let rest =
      direct_from fuel (offset + default_alignment) (written + logical) payload
        (write_block offset written payload f) in
    if ltb written (length payload) then rest else f

unfoldable pub write_file_blocking : List ℕ → File
unfolding direct_from set_len created
write_file_blocking payload =
    set_len (length payload) (direct_from (length payload) 0 0 payload created)

-- The branch without direct I/O.
unfoldable pub write_buffered :
    (ℕ → ℕ) → (List Range → List Range) → List ℕ → IoProfile → IoMode → File
unfolding write_ranges write_bytes chunk_ranges unaligned_ranges created
write_buffered pick shuffle payload profile seq =
    if profile.io_aligned
    then write_bytes (0, length payload) (byte_at payload) created
    else write_ranges (byte_at payload) (unaligned_ranges pick (length payload) (block_of profile))
        created
write_buffered pick shuffle payload profile rand =
    write_ranges (byte_at payload) (shuffle (chunk_ranges (length payload) (block_of profile)))
      created

unfoldable pub write_file : (ℕ → ℕ) → (List Range → List Range) → List ℕ → IoProfile → File
unfolding write_file_blocking write_buffered
write_file pick shuffle payload profile =
    if profile.direct_io
    then write_file_blocking payload
    else write_buffered pick shuffle payload profile profile.io_mode
