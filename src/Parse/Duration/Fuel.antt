-- ===== src/Parse/Duration/Fuel.antt =====
-- The loop over the segments of a duration never runs out of its fuel: each round takes a digit at
-- least, so the length of the text is enough.
use cvdbench.Base.{
  ℕ, zero, suc, ◌+◌, ◌≤◌, ◌<◌, ◌≡◌, refl, subst, false, Option-cases, inl, inr, [], ◌∷◌, some, Text,
  codes, length, is_empty, strip_prefix, arith,
}
use cvdbench.Base.Results.{ok, Result-cases}
use cvdbench.Parse.Number.{split_leading_digits}
use cvdbench.Parse.Duration.{single_letter_unit, split_leading_unit, add_segment, sum_segments}

length-split_leading_digits :
    (s : Text) → length (split_leading_digits s).0 + length (split_leading_digits s).1 ≡ length s
unfolding split_leading_digits
length-split_leading_digits [] = omega arith
length-split_leading_digits (c ∷ s) = ground (arith, length-split_leading_digits s)

length-strip_prefix : (p s rest : Text) → strip_prefix p s ≡ some rest → length rest ≤ length s
unfolding strip_prefix
length-strip_prefix [] s rest e = ground arith
length-strip_prefix (a ∷ p) [] rest e = cc e
length-strip_prefix (a ∷ p) (c ∷ s) rest e = ground (arith, length-strip_prefix p s rest)

length-split_leading_unit : (s : Text) → length (split_leading_unit s).1 ≤ length s
unfolding split_leading_unit
length-split_leading_unit s = elim (Option-cases (strip_prefix (codes "ms") s)) [
  | inr (rest, e) ↦ rw (e, split_leading_unit) (length-strip_prefix (codes "ms") s rest e)
  | inl e ↦ rw (e, split_leading_unit) (single s)
]
  where
    single : (t : Text) → length (single_letter_unit t).1 ≤ length t
    single [] = omega arith
    single (c ∷ t) = ground arith

nonempty-length : (s : Text) → is_empty s ≡ false → 1 ≤ length s
unfolding is_empty
nonempty-length [] e = cc e
nonempty-length (c ∷ s) e = omega arith

-- What a round leaves is what stands behind the unit, and there was a digit.
add_segment-rest :
    (input num after rest : Text) (total next : ℕ)
    → add_segment input total num after ≡ ok (next, rest)
    → (1 ≤ length num) × (length rest ≤ length after)
unfolding add_segment is_empty
add_segment-rest input [] after rest total next e = cc e
add_segment-rest input (c ∷ num) after rest total next e =
    let shorter = length-split_leading_unit after in
    (omega arith, subst (λ t. length t ≤ length after) (left_over e) shorter)
  where
    left_over :
        add_segment input total (c ∷ num) after ≡ ok (next, rest)
        → (split_leading_unit after).1 ≡ rest
    left_over h = ground arith

-- With the length of the text, or more, for its fuel, the loop comes to the same end: it never stops
-- for want of fuel.
pub sum_segments-enough :
    (input s : Text) (fuel fuel' total : ℕ)
    → length s ≤ fuel
    → length s ≤ fuel'
    → sum_segments input fuel total s ≡ sum_segments input fuel' total s
unfolding sum_segments
sum_segments-enough input [] zero zero total h h' = refl
sum_segments-enough input [] zero (suc fuel') total h h' = refl
sum_segments-enough input [] (suc fuel) zero total h h' = refl
sum_segments-enough input [] (suc fuel) (suc fuel') total h h' = refl
sum_segments-enough input (c ∷ s) zero fuel' total h h' = absurd (omega arith)
sum_segments-enough input (c ∷ s) (suc fuel) zero total h h' = absurd (omega arith)
sum_segments-enough input (c ∷ s) (suc fuel) (suc fuel') total h h' =
    let (num, after) = split_leading_digits (c ∷ s) in
    elim (Result-cases (add_segment input total num after)) [
      | inr (x, e) ↦ rw (e, sum_segments) refl
      | inl ((next, rest), e) ↦
          let (digit, left) = add_segment-rest input num after rest total next e in
          let shorter : length rest < length (c ∷ s) =
            omega (arith, length-split_leading_digits (c ∷ s)) in
          rw (e, sum_segments)
            (sum_segments-enough input rest fuel fuel' next (omega arith) (omega arith))
    ]
