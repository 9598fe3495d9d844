-- ===== src/Base/Map.antt =====
-- `HashMap` and `BTreeMap` with text keys, as association lists. The order of the entries stands for
-- the order of iteration; no theorem depends on it.
use mathlib.Core.Option.{some-injective}
use cvdbench.Base.{
  sym, ◌∙◌, subst, suc, ◌≡◌, ◌≢◌, refl, ite, if_pos, if_neg, Bool, true, false, Option, none, some,
  List, [], ◌∷◌, map, arith, Text, text_eq, length, All,
}

abbrev pub Map {ℓ} : Type ℓ → Type ℓ
Map V = List (Text × V)

abbrev pub is_some {ℓ} : {A : Type ℓ} → Option A → Bool
is_some none = false
is_some (some a) = true

module _ {ℓ} {V : Type ℓ} where
  unfoldable pub lookup : Text → Map V → Option V
  lookup k [] = none
  lookup k ((j, v) ∷ m) = ite (text_eq j k) (some v) (lookup k m)

  unfoldable pub insert : Text → V → Map V → Map V
  insert k v [] = (k, v) ∷ []
  insert k v ((j, w) ∷ m) = ite (text_eq j k) ((j, v) ∷ m) ((j, w) ∷ insert k v m)

  unfoldable pub remove : Text → Map V → Map V
  remove k [] = []
  remove k ((j, w) ∷ m) = ite (text_eq j k) (remove k m) ((j, w) ∷ remove k m)

  abbrev pub contains_key : Text → Map V → Bool
  contains_key k m = is_some (lookup k m)

  abbrev pub keys : Map V → List Text
  keys = map (λ e. e.0)

  abbrev pub values : Map V → List V
  values = map (λ e. e.1)

  pub lookup-insert :
      (j k : Text) (v : V) (m : Map V)
      → lookup j (insert k v m) ≡ ite (text_eq k j) (some v) (lookup j m)
  unfolding lookup insert
  lookup-insert j k v [] = refl
  lookup-insert j k v ((i, w) ∷ m) = ground (arith, lookup-insert j k v m)

  pub lookup-remove :
      (j k : Text) (m : Map V) → lookup j (remove k m) ≡ ite (text_eq k j) none (lookup j m)
  unfolding lookup remove
  lookup-remove j k [] = ground arith
  lookup-remove j k ((i, w) ∷ m) = ground (arith, lookup-remove j k m)

  pub lookup-insert_self : (k : Text) (v : V) (m : Map V) → lookup k (insert k v m) ≡ some v
  lookup-insert_self k v m = ground (arith, lookup-insert k k v m)

  pub lookup-insert_ne :
      (j k : Text) (v : V) (m : Map V) → k ≢ j → lookup j (insert k v m) ≡ lookup j m
  lookup-insert_ne j k v m h = ground (arith, lookup-insert j k v m)

  -- An insertion at a key that is there replaces, and adds one entry otherwise.
  pub length-insert :
      (k : Text) (v : V) (m : Map V)
      → length (insert k v m) ≡ (elim (lookup k m) [ none ↦ suc (length m) | some w ↦ length m ])
  unfolding lookup insert
  length-insert k v [] = refl
  length-insert k v ((i, w) ∷ m) = ground (arith, length-insert k v m)

  -- What holds of every value survives an insertion of a value for which it holds.
  module _ {κ} (P : V → Type κ) where
    pub All-insert :
        (k : Text) (v : V) (m : Map V) → P v → All (λ e. P e.1) m → All (λ e. P e.1) (insert k v m)
    unfolding insert
    All-insert k v [] p h = (p, tt)
    All-insert k v ((i, w) ∷ m) p h = elim (text_eq i k) [
      | yes e ↦ rw (if_pos (text_eq i k) e) (p, h.1)
      | no e ↦ rw (if_neg (text_eq i k) e) (h.0, All-insert k v m p h.1)
    ]

    pub All-remove : (k : Text) (m : Map V) → All (λ e. P e.1) m → All (λ e. P e.1) (remove k m)
    unfolding remove
    All-remove k [] h = tt
    All-remove k ((i, w) ∷ m) h = elim (text_eq i k) [
      | yes e ↦ rw (if_pos (text_eq i k) e) (All-remove k m h.1)
      | no e ↦ rw (if_neg (text_eq i k) e) (h.0, All-remove k m h.1)
    ]

    pub All-lookup : (k : Text) (m : Map V) (v : V) → All (λ e. P e.1) m → lookup k m ≡ some v → P v
    unfolding lookup
    All-lookup k [] v h e = cc
    All-lookup k ((i, w) ∷ m) v h e = elim (text_eq i k) [
      | yes p ↦ subst P (some-injective _ _ (sym (if_pos (text_eq i k) p _ _) ∙ e)) h.0
      | no p ↦ All-lookup k m v h.1 (sym (if_neg (text_eq i k) p _ _) ∙ e)
    ]
