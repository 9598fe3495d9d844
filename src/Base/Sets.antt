-- ===== src/Base/Sets.antt =====
-- `HashSet<String>` as a list of texts, and finite sets given by the keys of a map.
use cvdbench.Base.{
  suc, ◌≤◌, ◌≡◌, refl, ite, if_pos, if_neg, Bool, true, false, List, [], ◌∷◌, arith, Text, text_eq,
  length, All,
}
use cvdbench.Base.Map.{Map, lookup, insert, keys, contains_key}

unfoldable pub contains : Text → List Text → Bool
contains k [] = false
contains k (j ∷ s) = ite (text_eq j k) true (contains k s)

-- `HashSet::insert`.
unfoldable pub add : Text → List Text → List Text
add k [] = k ∷ []
add k (j ∷ s) = ite (text_eq j k) (j ∷ s) (j ∷ add k s)

unfoldable pub delete : Text → List Text → List Text
delete k [] = []
delete k (j ∷ s) = ite (text_eq j k) s (j ∷ delete k s)

-- No text stands twice.
abbrev pub IsNodup : List Text → Type 0
IsNodup [] = Unit
IsNodup (k ∷ s) = (contains k s ≡ false) × IsNodup s

abbrev pub IsSubset : List Text → List Text → Type 0
IsSubset xs ys = (k : Text) → contains k xs ≡ true → contains k ys ≡ true

pub contains-add :
    (j k : Text) (s : List Text) → contains j (add k s) ≡ ite (text_eq k j) true (contains j s)
unfolding contains add
contains-add j k [] = refl
contains-add j k (i ∷ s) = ground (arith, contains-add j k s)

pub add-IsNodup : (k : Text) (s : List Text) → IsNodup s → IsNodup (add k s)
unfolding add contains
add-IsNodup k [] h = (refl, tt)
add-IsNodup k (i ∷ s) h = elim (text_eq i k) [
  | yes e ↦ rw (if_pos (text_eq i k) e) h
  | no e ↦ rw (if_neg (text_eq i k) e) (ground (arith, contains-add i k s), add-IsNodup k s h.1)
]

pub contains-keys {ℓ} : {V : Type ℓ} (k : Text) (m : Map V) → contains k (keys m) ≡ contains_key k m
unfolding contains lookup
contains-keys k [] = refl
contains-keys k ((i, v) ∷ m) = ground (arith, contains-keys k m)

pub keys-insert {ℓ} :
    {V : Type ℓ} (k : Text) (v : V) (m : Map V) → keys (insert k v m) ≡ add k (keys m)
unfolding insert add
keys-insert k v [] = refl
keys-insert k v ((i, w) ∷ m) = ground (arith, keys-insert k v m)

pub contains-delete :
    (j k : Text) (s : List Text)
    → IsNodup s
    → contains j (delete k s) ≡ ite (text_eq k j) false (contains j s)
unfolding contains delete
contains-delete j k [] h = ground arith
contains-delete j k (i ∷ s) h = ground (arith, contains-delete j k s h.1)

pub delete-IsNodup : (k : Text) (s : List Text) → IsNodup s → IsNodup (delete k s)
unfolding contains delete
delete-IsNodup k [] h = tt
delete-IsNodup k (i ∷ s) h = elim (text_eq i k) [
  | yes e ↦ rw (if_pos (text_eq i k) e) h.1
  | no e ↦
      rw (if_neg (text_eq i k) e)
        (ground (arith, contains-delete i k s h.1), delete-IsNodup k s h.1)
]

pub length-delete :
    (k : Text) (s : List Text) → contains k s ≡ true → length s ≡ suc (length (delete k s))
unfolding contains delete
length-delete k [] h = cc
length-delete k (i ∷ s) h = ground (arith, length-delete k s)

-- A part of a set that is as large as the set is the whole set.
pub IsSubset-full :
    (xs ys : List Text)
    → IsNodup xs
    → IsNodup ys
    → IsSubset xs ys
    → length ys ≤ length xs
    → IsSubset ys xs
unfolding contains
IsSubset-full [] [] nx ny sub h k e = e
IsSubset-full [] (y ∷ ys) nx ny sub h k e = absurd (omega arith)
IsSubset-full (x ∷ xs) ys nx ny sub h k e =
    let here : contains x ys ≡ true = sub x (ground arith) in
    let shorter = length-delete x ys here in
    let rest : IsSubset xs (delete x ys) =
      λ j p. ground (arith, contains-delete j x ys ny, sub j) in
    ground (
      arith,
      contains-delete k x ys ny,
      IsSubset-full xs (delete x ys) nx.1 (delete-IsNodup x ys ny) rest (omega arith) k,
    )

-- What holds of every member holds all along the list.
pub All-contains {ℓ} :
    (P : Text → Type ℓ) (s : List Text) → ((k : Text) → contains k s ≡ true → P k) → All P s
unfolding contains
All-contains P [] h = tt
All-contains P (k ∷ s) h =
    (h k (if_pos (text_eq k k) refl _ _), All-contains P s (λ j e. h j (ground (arith, e))))
