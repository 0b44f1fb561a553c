-- ===== src/Binding/Convert/Refusals.antt =====
-- A result that Python cannot take, somewhere within its containers: what the casters of
-- include/sciforge/binding/convert.hpp make of it.
use sciforge.Base.{
  ℕ, suc, ◌≡◌, ◌≢◌, ◌⊎◌, refl, ◌∙◌, Bytes, List, [], ◌∷◌, map, none, some, inl, inr, length,
}
use sciforge.Cpp.{
  Exn, Result, ok, throw, cast_error, error_already_set, bad_alloc, std_exception, non_standard,
}
use sciforge.Binding.Python.{Ptr, World, PyError, Py, Python, set_error, and_then}
use sciforge.Binding.Convention.{settle, translate-sets_error, EndsHonestPtr}
use sciforge.Binding.Error.{translate}
use sciforge.Binding.Convert.{fill, built, store, or_release, vector_to_python, tuple_to_python}
use sciforge.Binding.Convert.Containers.{Balanced}
use sciforge.Binding.Convert.Casters.{
  Ret, vector, tuple, Rets, no_more, and_one, RetValue, RetValues, to_python, elements,
}
use sciforge.Binding.Convert.Results.{MakesResults, HasNoObject, to_python-Converts}

abbrev pub Any : {A : Type 0} → (A → Type 0) → List A → Type 0
Any Q [] = ⊥
Any Q (a ∷ as_) = Q a ⊎ Any Q as_

-- A conversion that never gives an object.
abbrev Fails : Py Ptr → Type 0
Fails m = (w : World) (o : ℕ) → (m w).0 ≢ ok (some o)

module _ (P : Python) where
  -- A text that Python refuses, whenever it is asked: one that is not UTF-8.
  abbrev pub IsRefused : Bytes → Type 0
  IsRefused t = (w : World) → (e : PyError) × (P.unicode_from_string t w ≡ (none, set_error e w))

  -- There is such a text in the value, at any depth.
  abbrev mutual
    pub HasRefused : (c : Ret) → RetValue c → Type 0
    HasRefused Ret.object value = ⊥
    HasRefused Ret.boolean value = ⊥
    HasRefused Ret.string value = IsRefused value
    HasRefused Ret.double value = ⊥
    HasRefused (Ret.integer T) value = ⊥
    HasRefused (vector c) items = Any (HasRefused c) items
    HasRefused (tuple cs) values = HaveRefused cs values

    pub HaveRefused : (cs : Rets) → RetValues cs → Type 0
    HaveRefused no_more values = ⊥
    HaveRefused (and_one c cs) (value, values) = HasRefused c value ⊎ HaveRefused cs values

  fill-step :
      (container i : ℕ) (rest : List (Py Ptr)) (r : Result Ptr) (w : World)
      → ((o : ℕ) → r ≢ ok (some o)) ⊎ ((v : World) → (fill P container (suc i) rest v).0 ≢ ok tt)
      → (and_then r
          (λ element v.
            and_then
              (store P container i element v).0
              (λ _. fill P container (suc i) rest)
              (store P container i element v).1)
          w).0
        ≢ ok tt
  fill-step container i rest (ok (some o)) w (inl h) = absurd (h o refl)
  fill-step container i rest (ok (some o)) w (inr k) = k _
  fill-step container i rest (ok none) w h = λ e. cc
  fill-step container i rest (throw e) w h = λ e'. cc

  fill-Fails :
      (container i : ℕ) (items : List (Py Ptr)) (w : World)
      → Any Fails items
      → (fill P container i items w).0 ≢ ok tt
  unfolding fill
  fill-Fails container i [] w h = absurd h
  fill-Fails container i (convert ∷ rest) w (inl here) =
      fill-step container i rest (convert w).0 (convert w).1 (inl (here w))
  fill-Fails container i (convert ∷ rest) w (inr later) =
      fill-step container i rest (convert w).0 (convert w).1
        (inr λ v. fill-Fails container (suc i) rest v later)

  or_release-Fails :
      (container : ℕ) (r : Result (Unit {0})) (w : World) (o : ℕ)
      → r ≢ ok tt
      → (or_release P container (r, w)).0 ≢ ok (some o)
  or_release-Fails container (ok u) w o h = absurd (h refl)
  or_release-Fails container (throw e) w o h = λ e'. cc

  built-Fails :
      (items : List (Py Ptr)) (new : Ptr × World) (o : ℕ)
      → Any Fails items
      → (built P items new).0 ≢ ok (some o)
  built-Fails items (none, w) o h = λ e. cc
  built-Fails items (some container, w) o h =
      or_release-Fails container (fill P container 0 items w).0 (fill P container 0 items w).1 o
        (fill-Fails container 0 items w h)

  map-Fails :
      {A : Type 0} (element : A → Py Ptr) (Q : A → Type 0) (items : List A)
      → ((a : A) → Q a → Fails (element a))
      → Any Q items
      → Any Fails (map element items)
  map-Fails element Q [] f h = absurd h
  map-Fails element Q (a ∷ items) f (inl here) = inl (f a here)
  map-Fails element Q (a ∷ items) f (inr later) = inr (map-Fails element Q items f later)

  mutual
    unfolding to_python vector_to_python tuple_to_python

    refused-Fails :
        (c : Ret) (value : RetValue c) → HasRefused c value → Fails (to_python P c value)
    refused-Fails Ret.object value h = absurd h
    refused-Fails Ret.boolean value h = absurd h
    refused-Fails Ret.string value h = λ w o. let (e, refused) = h w in rw refused λ e'. cc
    refused-Fails Ret.double value h = absurd h
    refused-Fails (Ret.integer T) value h = absurd h
    refused-Fails (vector c) items h = λ w o.
        built-Fails (map (to_python P c) items) (P.list_new (length items) w) o
          (map-Fails (to_python P c) (HasRefused c) items (refused-Fails c) h)
    refused-Fails (tuple cs) values h = λ w o.
        built-Fails (elements P cs values) (P.tuple_new (length (elements P cs values)) w) o
          (elements-Fails cs values h)

    elements-Fails :
        (cs : Rets) (values : RetValues cs)
        → HaveRefused cs values
        → Any Fails (elements P cs values)
    elements-Fails no_more values h = absurd h
    elements-Fails (and_one c cs) (value, values) (inl here) = inl (refused-Fails c value here)
    elements-Fails (and_one c cs) (value, values) (inr later) = inr (elements-Fails cs values later)

translate-owned :
    (error_type : Ptr) (e : Exn) (w : World) → (translate error_type e w).owned ≡ w.owned
unfolding translate
translate-owned t error_already_set w = refl
translate-owned t (cast_error what) w = refl
translate-owned t bad_alloc w = refl
translate-owned t (std_exception what) w = refl
translate-owned t non_standard w = refl

settled-refused :
    (error_type : Ptr) (owned : List ℕ) (r : Result Ptr) (w : World)
    → ((o : ℕ) → r ≢ ok (some o))
    → EndsHonestPtr (r, w)
    → Balanced owned (r, w)
    → let (p, w') = settle error_type (r, w) in (p ≡ none) × (w'.error ≢ none) × (w'.owned ≡ owned)
settled-refused t owned (ok (some o)) w h e b = absurd (h o refl)
settled-refused t owned (ok none) w h e b = (refl, e, b)
settled-refused t owned (throw x) w h e b =
    (refl, translate-sets_error t x w e, translate-owned t x w ∙ b)

module _ (P : Python) (makes : MakesResults P) where
  -- A result with a text somewhere in it that Python refuses, at any depth of vectors and tuples, gives
  -- a null pointer with an error set, and every reference made on the way is given up. The result has
  -- no PyObject* in it, no error is set before, and CPython's calls give a new reference or set an
  -- error.
  pub to_python-refused :
      (c : Ret) (value : RetValue c) (error_type : Ptr) (w : World)
      → HasNoObject c
      → HasRefused P c value
      → w.error ≡ none
      → let (r, w') = settle error_type (to_python P c value w) in
        (r ≡ none) × (w'.error ≢ none) × (w'.owned ≡ w.owned)
  to_python-refused c value error_type w pointerless refused clean =
      let (honest, balanced) = to_python-Converts P makes c value pointerless in
      settled-refused error_type w.owned (to_python P c value w).0 (to_python P c value w).1
        (refused-Fails P c value refused w) (honest w clean) (balanced w)
