-- ===== src/Binding/Convert/Containers.antt =====
-- The references that the container casters of include/sciforge/binding/convert.hpp make and give up.
use sciforge.Base.{
  ℕ, suc, ◌≡◌, refl, ap, ◌∙◌, subst, List, [], ◌∷◌, map, none, some, inl, inr, All, length, ==_refl,
}
use sciforge.Cpp.{Result, ok, throw}
use sciforge.Binding.Python.{Ptr, World, Py, Python, MakesObject, release, set_item, and_then}
use sciforge.Binding.Convert.{fill, built, or_release, store, vector_to_python, tuple_to_python}

-- What a conversion to Python owes the ledger of references: it hands over one new reference, or it
-- fails (a null pointer, or an exception) and leaves no reference behind.
abbrev pub Balanced : List ℕ → Result Ptr × World → Type 0
Balanced owned (ok (some o), w) = w.owned ≡ o ∷ owned
Balanced owned (ok none, w) = w.owned ≡ owned
Balanced owned (throw e, w) = w.owned ≡ owned

abbrev pub IsBalanced : Py Ptr → Type 0
IsBalanced m = (w : World) → Balanced w.owned (m w)

-- What a step of filling a container owes: the ledger stays as it is, whatever happens.
abbrev Level : List ℕ → Result (Unit {0}) × World → Type 0
Level owned (ok u, w) = w.owned ≡ owned
Level owned (throw e, w) = w.owned ≡ owned

pub release-head : (o : ℕ) (owned : List ℕ) → release o (o ∷ owned) ≡ owned
unfolding release
release-head o owned = rw ==_refl

module _ (P : Python) where
  fill-step :
      (container i : ℕ) (rest : List (Py Ptr)) (owned : List ℕ) (r : Result Ptr) (w : World)
      → Balanced owned (r, w)
      → ((v : World) → v.owned ≡ owned → Level owned (fill P container (suc i) rest v))
      → Level owned (
          and_then r
            (λ element v.
              and_then
                (store P container i element v).0
                (λ _. fill P container (suc i) rest)
                (store P container i element v).1)
            w)
  fill-step container i rest owned (ok (some o)) w b k =
      k (set_item container i o w) (ap (release o) b ∙ release-head o owned)
  fill-step container i rest owned (ok none) w b k = b
  fill-step container i rest owned (throw e) w b k = b

  fill-Level :
      (container i : ℕ) (items : List (Py Ptr)) (w : World)
      → All IsBalanced items
      → Level w.owned (fill P container i items w)
  unfolding fill
  fill-Level container i [] w h = refl
  fill-Level container i (convert ∷ rest) w h =
      fill-step container i rest w.owned (convert w).0 (convert w).1 (h.0 w) λ v e.
        subst (λ owned. Level owned (fill P container (suc i) rest v)) e
          (fill-Level container (suc i) rest v h.1)

  or_release-Balanced :
      (container : ℕ) (owned : List ℕ) (r : Result (Unit {0})) (w : World)
      → Level (container ∷ owned) (r, w)
      → Balanced owned (or_release P container (r, w))
  or_release-Balanced container owned (ok u) w h = h
  or_release-Balanced container owned (throw e) w h =
      ap (release container) h ∙ release-head container owned

  built-Balanced :
      (items : List (Py Ptr)) (new : World → Ptr × World) (w : World)
      → MakesObject new
      → All IsBalanced items
      → Balanced w.owned (built P items (new w))
  built-Balanced items new w makes h = elim (makes w) [
    | inl (o, made) ↦ rw made (
        or_release-Balanced o w.owned _ _
          (fill-Level o 0 items (record w { owned = o ∷ w.owned }) h))
    | inr (e, failed) ↦ rw failed refl
  ]

  pub map-IsBalanced :
      {A : Type 0} (element : A → Py Ptr) (items : List A)
      → ((a : A) → IsBalanced (element a))
      → All IsBalanced (map element items)
  map-IsBalanced element [] h = tt
  map-IsBalanced element (a ∷ items) h = (h a, map-IsBalanced element items h)

  -- Where PyList_New gives a new list or sets an error, and the caster of the element type hands over
  -- one new reference or fails and leaves none behind, a vector is converted without a leak, whatever
  -- element fails and however (a null pointer or an exception): the result is one new reference, the
  -- list, or no reference is left behind. So this holds of vectors of vectors, to any depth.
  pub vector_to_python-Balanced :
      {A : Type 0} (element : A → Py Ptr) (items : List A) (w : World)
      → ((n : ℕ) → MakesObject (P.list_new n))
      → ((a : A) → IsBalanced (element a))
      → Balanced w.owned (vector_to_python P element items w)
  unfolding vector_to_python
  vector_to_python-Balanced element items w makes h =
      built-Balanced (map element items) (P.list_new (length items)) w (makes (length items))
        (map-IsBalanced element items h)

  -- Where PyTuple_New gives a new tuple or sets an error, and the caster of each element hands over
  -- one new reference or fails and leaves none behind, a tuple is converted without a leak, whatever
  -- element fails and however: the result is one new reference, the tuple, or no reference is left
  -- behind.
  pub tuple_to_python-Balanced :
      (items : List (Py Ptr)) (w : World)
      → ((n : ℕ) → MakesObject (P.tuple_new n))
      → All IsBalanced items
      → Balanced w.owned (tuple_to_python P items w)
  unfolding tuple_to_python
  tuple_to_python-Balanced items w makes h =
      built-Balanced items (P.tuple_new (length items)) w (makes (length items)) h
