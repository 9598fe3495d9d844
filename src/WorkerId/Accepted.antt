-- ===== src/WorkerId/Accepted.antt =====
-- Which worker ids the master accepts, and that workers make such ids.
use cvdbench.Base.{
  ℕ, ◌≤◌, ◌≡◌, ◌↔◌, refl, true, false, Bool-cases, inl, inr, [], ◌∷◌, ◌++◌, map, Text, max, length,
  length-append, length-map, len_utf8, All, All-append, byte_len, is_empty, arith, is_digit,
  if◌then◌else◌,
}
use cvdbench.WorkerId.{
  max_len, valid, is_allowed, check_chars, validate, sanitize_hostname, generate,
}

abbrev pub AllAllowed : Text → Type 0
AllAllowed s = All (λ c. is_allowed c ≡ true) s

check_chars-accepts : (s : Text) → AllAllowed s → check_chars s ≡ valid
unfolding check_chars
check_chars-accepts [] a = refl
check_chars-accepts (c ∷ s) a = rw (a.0) (check_chars-accepts s a.1)

check_chars-allowed : (s : Text) → check_chars s ≡ valid → AllAllowed s
unfolding check_chars
check_chars-allowed [] v = tt
check_chars-allowed (c ∷ s) v = elim (Bool-cases (is_allowed c)) [
  | inl e ↦ (e, check_chars-allowed s (ground arith))
  | inr e ↦ absurd (ground arith)
]

-- A worker id is accepted exactly if it is not empty, takes no more than 128 bytes in UTF-8 and has
-- only ASCII letters, digits, dots, underscores and dashes.
pub validate-valid :
    (s : Text)
    → (validate s ≡ valid) ↔ ((is_empty s ≡ false) × (byte_len s ≤ max_len) × AllAllowed s)
unfolding validate is_empty
validate-valid [] = (λ v. cc v, λ p. cc p.0)
validate-valid (c ∷ s) = (there, back)
  where
    there :
        validate (c ∷ s) ≡ valid
        → (is_empty (c ∷ s) ≡ false) × (byte_len (c ∷ s) ≤ max_len) × AllAllowed (c ∷ s)
    there v = (refl, ground arith, check_chars-allowed (c ∷ s) (ground arith))

    back :
        (is_empty (c ∷ s) ≡ false) × (byte_len (c ∷ s) ≤ max_len) × AllAllowed (c ∷ s)
        → validate (c ∷ s) ≡ valid
    back p = let ok = check_chars-accepts (c ∷ s) p.2 in let short = p.1 in ground arith

-- Every character that is allowed is ASCII.
is_allowed-ascii : (c : ℕ) → is_allowed c ≡ true → len_utf8 c ≡ 1
is_allowed-ascii c a = ground arith

byte_len-allowed : (s : Text) → AllAllowed s → byte_len s ≡ length s
unfolding byte_len
byte_len-allowed [] a = refl
byte_len-allowed (c ∷ s) a = omega (arith, is_allowed-ascii c a.0, byte_len-allowed s a.1)

replaced-allowed : (c : ℕ) → is_allowed (if is_allowed c then c else b'_') ≡ true
replaced-allowed c = elim (Bool-cases (is_allowed c)) [ inl e ↦ rw e e | inr e ↦ rw e refl ]

cleaned-allowed : (s : Text) → AllAllowed (map (λ c. if is_allowed c then c else b'_') s)
cleaned-allowed [] = tt
cleaned-allowed (c ∷ s) = (replaced-allowed c, cleaned-allowed s)

-- The host's part of an id: allowed, and no longer than the name or the word for no name.
sanitize_hostname-allowed :
    (raw : Text)
    → AllAllowed (sanitize_hostname raw) × (length (sanitize_hostname raw) ≤ max (length raw) 7)
unfolding sanitize_hostname is_empty
sanitize_hostname-allowed [] =
    ((refl, (refl, (refl, (refl, (refl, (refl, (refl, tt))))))), omega arith)
sanitize_hostname-allowed (c ∷ s) =
    (cleaned-allowed (c ∷ s), omega (arith, length-map (λ d. if is_allowed d then d else b'_') s))

digits-allowed : (s : Text) → All (λ c. is_digit c ≡ true) s → AllAllowed s
digits-allowed [] d = tt
digits-allowed (c ∷ s) d = (ground arith, digits-allowed s d.1)

is_empty-append : (s : Text) (c : ℕ) (t : Text) → is_empty (s ++ c ∷ t) ≡ false
unfolding is_empty
is_empty-append [] c t = refl
is_empty-append (d ∷ s) c t = refl

-- If the host's name has no more than 64 characters, the process number is written in at most 10
-- digits and the piece of the UUID has 8 allowed characters, the id that a worker makes for itself is
-- one that the master accepts, whatever characters the host's name has.
pub generate-valid :
    (host pid uuid8 : Text)
    → length host ≤ 64
    → All (λ c. is_digit c ≡ true) pid
    → length pid ≤ 10
    → AllAllowed uuid8
    → length uuid8 ≡ 8
    → validate (generate host pid uuid8) ≡ valid
unfolding generate
generate-valid host pid uuid8 lh dp lp au lu =
    let (ah, lc) = sanitize_hostname-allowed host in
    let tail : Text = pid ++ b'-' ∷ uuid8 in
    let at : AllAllowed tail = All-append _ pid (b'-' ∷ uuid8) (digits-allowed pid dp) (refl, au) in
    let all : AllAllowed (sanitize_hostname host ++ b'-' ∷ tail) =
      All-append _ (sanitize_hostname host) (b'-' ∷ tail) ah (refl, at) in
    (validate-valid _).1 (
      is_empty-append (sanitize_hostname host) b'-' tail,
      omega (
        arith,
        byte_len-allowed _ all,
        length-append (sanitize_hostname host) (b'-' ∷ tail),
        length-append pid (b'-' ∷ uuid8),
      ),
      all,
    )
