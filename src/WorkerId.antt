-- ===== src/WorkerId.antt =====
-- crates/cvd-common/src/id.rs: the worker identifiers and their character set.
pub mod Accepted
use cvdbench.Base.{
  ℕ, Bool, ◌||◌, [], ◌∷◌, ◌++◌, map, Text, codes, is_alphanumeric, byte_len, is_empty, ◌==◌, ltb,
  if◌then◌else◌, ◌≡◌, refl, ◌⊎◌, inl, inr,
}

abbrev pub max_len : ℕ
max_len = 128

pub data WorkerIdError : Type 0 where
  empty : WorkerIdError
  too_long : ℕ → WorkerIdError
  bad_char : ℕ → WorkerIdError

pub data Checked : Type 0 where
  valid : Checked
  invalid : WorkerIdError → Checked

abbrev pub is_allowed : ℕ → Bool
is_allowed c = is_alphanumeric c || (c == b'.') || (c == b'_') || (c == b'-')

-- The loop over the characters.
unfoldable pub check_chars : Text → Checked
check_chars [] = valid
check_chars (c ∷ s) =
    let rest = check_chars s in if is_allowed c then rest else invalid (bad_char c)

unfoldable pub validate : Text → Checked
unfolding check_chars byte_len
validate [] = invalid empty
validate (c ∷ s) =
    if ltb max_len (byte_len (c ∷ s))
    then invalid (too_long (byte_len (c ∷ s)))
    else check_chars (c ∷ s)

unfoldable pub sanitize_hostname : Text → Text
sanitize_hostname raw =
    let cleaned = map (λ c. if is_allowed c then c else b'_') raw in
    if is_empty cleaned then codes "unknown" else cleaned

-- `generate` from the host's name, the process number in decimal and eight digits of a UUID.
unfoldable pub generate : Text → Text → Text → Text
unfolding sanitize_hostname
generate host pid uuid8 = sanitize_hostname host ++ b'-' ∷ (pid ++ b'-' ∷ uuid8)

pub Checked-cases : (c : Checked) → (c ≡ valid) ⊎ ((e : WorkerIdError) × (c ≡ invalid e))
Checked-cases valid = inl refl
Checked-cases (invalid e) = inr (e, refl)
