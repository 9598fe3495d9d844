-- ===== src/Worker/FsIo/Writes/Contents.antt =====
-- The contents of a file of crates/cvd-worker/src/fs_io.rs, byte by byte.
use cvdbench.Base.{
  ℕ, zero, suc, ◌+◌, ◌≤◌, ◌<◌, ◌≡◌, refl, sym, ap, ◌∙◌, List, [], ◌∷◌, length, arith,
}
use cvdbench.Worker.FsIo.{File, byte_at, bytes_from, contents}

-- Lists of bytes that agree at every position.
bytes_from-agree :
    (g h : ℕ → ℕ) (i n : ℕ)
    → ((j : ℕ) → i ≤ j → j < i + n → g j ≡ h j)
    → bytes_from g i n ≡ bytes_from h i n
bytes_from-agree g h i zero same = refl
bytes_from-agree g h i (suc n) same = rw (same i (omega arith) (omega arith)) (
    ap (λ l. h i ∷ l)
      (bytes_from-agree g h (suc i) n (λ j k l. same j (omega arith) (omega arith))))

bytes_from-shift : (g : ℕ → ℕ) (i n : ℕ) → bytes_from (λ j. g (suc j)) i n ≡ bytes_from g (suc i) n
bytes_from-shift g i zero = refl
bytes_from-shift g i (suc n) = ap (λ l. g (suc i) ∷ l) (bytes_from-shift g (suc i) n)

bytes_from-byte_at : (bs : List ℕ) → bytes_from (byte_at bs) 0 (length bs) ≡ bs
bytes_from-byte_at [] = refl
bytes_from-byte_at (b ∷ bs) =
    ap (λ l. b ∷ l)
      (sym (bytes_from-shift (byte_at (b ∷ bs)) 0 (length bs)) ∙ bytes_from-byte_at bs)

-- A file of the payload's size with the payload's bytes.
pub holds :
    (f : File) (payload : List ℕ)
    → f.size ≡ length payload
    → ((j : ℕ) → j < length payload → f.bytes j ≡ byte_at payload j)
    → contents f ≡ payload
holds f payload e same = rw e (
    bytes_from-agree f.bytes (byte_at payload) 0 (length payload) (λ j k l. same j (omega arith))
    ∙ bytes_from-byte_at payload)
