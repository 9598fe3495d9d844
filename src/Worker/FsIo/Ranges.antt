-- ===== src/Worker/FsIo/Ranges.antt =====
-- What the ranges of crates/cvd-worker/src/fs_io.rs cover.
use mathlib.Core.Path.{ap₂}
use mathlib.Core.List.{Permᴰ}
use cvdbench.Base.{
  ℕ, zero, suc, ◌+◌, ◌-◌, ◌≤◌, ◌<◌, ◌≡◌, refl, ap, ◌∙◌, Bool, false, ◌&&◌, ◌||◌, List, [], ◌∷◌, min,
  max, ltb, leb, if◌then◌else◌, ◌==◌, arith, Bool-cases, inl, inr,
}
use cvdbench.Worker.FsIo.{Range, within, ranges_from, chunk_ranges}

-- One of the ranges has the position.
abbrev pub covered : List Range → ℕ → Bool
covered [] i = false
covered (r ∷ rs) i = within r i || covered rs i

-- The largest end of a range, or `n`.
abbrev pub end_of : ℕ → List Range → ℕ
end_of n [] = n
end_of n (r ∷ rs) = end_of (if r.1 == 0 then n else max n (r.0 + r.1)) rs

ranges_from-covered :
    (fuel offset len block i : ℕ)
    → len - offset ≤ fuel
    → covered (ranges_from fuel offset len block) i ≡ (leb offset i && ltb i len)
unfolding ranges_from
ranges_from-covered zero offset len block i h = ground arith
ranges_from-covered (suc fuel) offset len block i h = elim (Bool-cases (ltb offset len)) [
  | inl e ↦
      rw (e, ranges_from)
        (ground
          (arith, ranges_from-covered fuel (offset + min (len - offset) (max block 1)) len block i))
  | inr e ↦ rw (e, ranges_from) (ground arith)
]

grown :
    (n offset taken : ℕ)
    → n ≤ offset
    → 0 < taken
    → (if taken == 0 then n else max n (offset + taken)) ≡ offset + taken
grown n offset taken h k = ground arith

ranges_from-end :
    (fuel offset len block n : ℕ)
    → len - offset ≤ fuel
    → offset ≤ len
    → n ≤ offset
    → (offset ≡ len → n ≡ len)
    → end_of n (ranges_from fuel offset len block) ≡ len
unfolding ranges_from
ranges_from-end zero offset len block n h k g s = omega (arith, s (omega arith))
ranges_from-end (suc fuel) offset len block n h k g s = elim (Bool-cases (ltb offset len)) [
  | inl e ↦
      let taken = min (len - offset) (max block 1) in
      rw (e, ranges_from)
        (ap (λ m. end_of m (ranges_from fuel (offset + taken) len block))
            (grown n offset taken g (ground arith))
          ∙ ranges_from-end fuel (offset + taken) len block (offset + taken) (ground arith)
              (omega arith) (omega arith) (λ l. l))
  | inr e ↦ rw (e, ranges_from) (s (ground arith))
]

-- The order of the ranges does not matter.
pub perm-covered : {rs ss : List Range} → Permᴰ rs ss → (i : ℕ) → covered rs i ≡ covered ss i
perm-covered Permᴰ.nil i = refl
perm-covered (Permᴰ.cons e p) i = ap₂ (λ r c. within r i || c) e (perm-covered p i)
perm-covered (Permᴰ.swap {l = l} e f) i = rw (e, f) (ground arith)
perm-covered (Permᴰ.trans p q) i = perm-covered p i ∙ perm-covered q i

swapped_ends :
    (n : ℕ) (r s : Range)
    → (if s.1 == 0
        then (if r.1 == 0 then n else max n (r.0 + r.1))
        else max (if r.1 == 0 then n else max n (r.0 + r.1)) (s.0 + s.1))
      ≡ (if r.1 == 0
          then (if s.1 == 0 then n else max n (s.0 + s.1))
          else max (if s.1 == 0 then n else max n (s.0 + s.1)) (r.0 + r.1))
swapped_ends n (a, b) (c, d) = ground arith

pub perm-end_of : {rs ss : List Range} → Permᴰ rs ss → (n : ℕ) → end_of n rs ≡ end_of n ss
perm-end_of Permᴰ.nil n = refl
perm-end_of (Permᴰ.cons {b = b} {l₁ = l} e p) n =
    rw e (perm-end_of p (if b.1 == 0 then n else max n (b.0 + b.1)))
perm-end_of (Permᴰ.swap {a' = a} {b' = b} {l = l} e f) n =
    rw (e, f) (ap (λ m. end_of m l) (swapped_ends n b a))
perm-end_of (Permᴰ.trans p q) n = perm-end_of p n ∙ perm-end_of q n

module _ (len block : ℕ) where
  pub chunk_ranges-covered : (i : ℕ) → covered (chunk_ranges len block) i ≡ ltb i len
  unfolding chunk_ranges
  chunk_ranges-covered i = ground (arith, ranges_from-covered len 0 len block i)

  pub chunk_ranges-end : end_of 0 (chunk_ranges len block) ≡ len
  unfolding chunk_ranges
  chunk_ranges-end =
      ranges_from-end len 0 len block 0 (omega arith) (omega arith) (omega arith) (λ e. e)
