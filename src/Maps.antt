-- ===== src/Maps.antt =====
-- A `Map` with string keys: an association list in insertion order.
use local_cast.Base.{
  List, [], ◌∷◌, Option, none, some, Text, text_eq, text_eq_iff, text_eq_refl, if◌then◌else◌, ◌≡◌,
  ◌≢◌, ◌⊎◌, inl, inr, Bool-cases, refl, arith,
}

module _ {ℓ} {V : Type ℓ} where
  unfoldable pub get : Text → List (Text × V) → Option V
  get k [] = none
  get k ((j, v) ∷ m) = if text_eq j k then some v else get k m

  unfoldable pub set : Text → V → List (Text × V) → List (Text × V)
  set k v [] = (k, v) ∷ []
  set k v ((j, w) ∷ m) = if text_eq j k then (j, v) ∷ m else (j, w) ∷ set k v m

  unfoldable pub delete : Text → List (Text × V) → List (Text × V)
  delete k [] = []
  delete k ((j, v) ∷ m) = let rest = delete k m in if text_eq j k then rest else (j, v) ∷ rest

  pub get-set_self : (k : Text) (v : V) (m : List (Text × V)) → get k (set k v m) ≡ some v
  unfolding get set
  get-set_self k v [] = rw (text_eq_refl k)
  get-set_self k v ((j, w) ∷ m) = ground (arith, get-set_self k v m)

  pub get-set_ne : (k j : Text) (v : V) (m : List (Text × V)) → k ≢ j → get j (set k v m) ≡ get j m
  unfolding get set
  get-set_ne k j v [] h = ground (arith, text_eq_iff k j)
  get-set_ne k j v ((i, w) ∷ m) h =
      ground (arith, get-set_ne k j v m h, text_eq_iff i k, text_eq_iff i j, text_eq_iff k j)

  pub get-delete_ne : (k j : Text) (m : List (Text × V)) → k ≢ j → get j (delete k m) ≡ get j m
  unfolding get delete
  get-delete_ne k j [] h = refl
  get-delete_ne k j ((i, w) ∷ m) h =
      ground (arith, get-delete_ne k j m h, text_eq_iff i k, text_eq_iff i j, text_eq_iff k j)

  pub get-delete_self : (k : Text) (m : List (Text × V)) → get k (delete k m) ≡ none
  unfolding get delete
  get-delete_self k [] = refl
  get-delete_self k ((i, w) ∷ m) = ground (arith, get-delete_self k m, text_eq_iff i k)

pub Text-cases : (a b : Text) → (a ≡ b) ⊎ (a ≢ b)
Text-cases a b = elim (Bool-cases (text_eq a b)) [
  | inl e ↦ inl ((text_eq_iff a b).0 e)
  | inr e ↦ inr (λ h. ground (arith, (text_eq_iff a b).1 h))
]
