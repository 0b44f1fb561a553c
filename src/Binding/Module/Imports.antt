-- ===== src/Binding/Module/Imports.antt =====
-- What PyInit of include/sciforge/binding/module.hpp gives back: a module, or a null pointer and an error.
use sciforge.Base.{
  ap, ℕ, false, ◌≡◌, ◌≢◌, ◌⊎◌, refl, Bytes, List, [], ◌∷◌, none, some, All, Option-cases, inl, inr,
}
use sciforge.Cpp.{
  Exn, Result, ok, throw, cast_error, error_already_set, bad_alloc, std_exception, non_standard,
}
use sciforge.Binding.Python.{Ptr, PyError, World, Python, set_error, decref}
use sciforge.Binding.Convention.{EndsHonest, KeepsConvention}
use sciforge.Binding.Convert.Containers.{release-head}
use sciforge.Binding.Class.Slots.{set_cpp_error-sets_error}
use sciforge.Binding.Module.{
  declare_no_gil, Importer, Statics, Session, Statement, def, def_kw, raw, wrap, throws,
  run_statement, run_body, go_on, py_init, body_ended, begin_import, end_table,
}
use sciforge.Binding.Module.Errors.{
  Declared, declare_no_gil-Declared, IsDocumented, register_error_cases,
}

-- A body may throw anything but error_already_set, which is for a Python call that has just failed.
abbrev pub IsPlain : Exn → Type 0
IsPlain error_already_set = ⊥
IsPlain (cast_error what) = Unit
IsPlain bad_alloc = Unit
IsPlain (std_exception what) = Unit
IsPlain non_standard = Unit

abbrev pub ThrowsPlain : Statement → Type 0
ThrowsPlain (def name) = Unit
ThrowsPlain (raw name flags) = Unit
ThrowsPlain (def_kw func name args) = Unit
ThrowsPlain (wrap wrapped name calls) = Unit
ThrowsPlain (throws e) = IsPlain e

abbrev EndsPlain : Result (Unit {0}) × Session → Type 0
EndsPlain (ok u, s) = Unit
EndsPlain (throw e, s) = IsPlain e

plain-EndsHonest : (e : Exn) (w : World) → IsPlain e → EndsHonest {A = ℕ} (throw e, w)
plain-EndsHonest error_already_set w h = absurd h
plain-EndsHonest (cast_error what) w h = tt
plain-EndsHonest bad_alloc w h = tt
plain-EndsHonest (std_exception what) w h = tt
plain-EndsHonest non_standard w h = tt

-- What PyInit hands to the interpreter.
abbrev pub handed_over : Ptr × Session → Ptr × World
handed_over (r, (st, w)) = (r, w)

module _ (I : Importer) (P : Python) where
  -- The body's start: the references to the module and to its error type are new.
  abbrev pub started : ℕ → ℕ → Statics → World → Session
  started m err st w = (begin_import I P err st, record w { owned = err ∷ m ∷ w.owned })

  go_on-EndsPlain :
      (one : Result (Unit {0}) × Session) (rest : Session → Result (Unit {0}) × Session)
      → EndsPlain one
      → ((s : Session) → EndsPlain (rest s))
      → EndsPlain (go_on I P one rest)
  go_on-EndsPlain (ok u, s) rest h k = k s
  go_on-EndsPlain (throw e, s) rest h k = h

  run_statement-EndsPlain :
      (mod_object : ℕ) (x : Statement) (s : Session)
      → ThrowsPlain x
      → EndsPlain (run_statement I P mod_object x s)
  unfolding run_statement
  run_statement-EndsPlain mod_object (def name) s h = tt
  run_statement-EndsPlain mod_object (raw name flags) s h = tt
  run_statement-EndsPlain mod_object (def_kw func name args) s h = tt
  run_statement-EndsPlain mod_object (wrap wrapped name calls) s h = tt
  run_statement-EndsPlain mod_object (throws e) s h = h

  run_body-EndsPlain :
      (mod_object : ℕ) (body : List Statement) (s : Session)
      → All ThrowsPlain body
      → EndsPlain (run_body I P mod_object body s)
  unfolding run_body
  run_body-EndsPlain mod_object [] s h = tt
  run_body-EndsPlain mod_object (x ∷ xs) s h =
      go_on-EndsPlain (run_statement I P mod_object x s) (run_body I P mod_object xs)
        (run_statement-EndsPlain mod_object x s h.0) λ s'. run_body-EndsPlain mod_object xs s' h.1

module _ (I : Importer) (documented : IsDocumented I) (P : Python) where
  -- How an import ends whose body has thrown nothing.
  pub body_ended_cases :
      (mod_object error_type : ℕ) (st : Statics) (w : World)
      → let end = body_ended I P mod_object error_type (ok tt, (st, w)) in
        ((w.error ≢ none) × (end ≡ (none, (st, decref mod_object w))))
        ⊎ ((w.error ≡ none)
            × (((e : PyError) × (end
                    ≡ (none, (end_table I P st, decref mod_object (set_error e w)))))
                ⊎ ((I.add_functions mod_object (end_table I P st).table w ≡ (false, w))
                    × (end ≡ (some mod_object, (end_table I P st, w))))))
  body_ended_cases mod_object error_type st w = elim (Option-cases w.error) [
    | inr (e, set) ↦ inl ((λ n. cc), simp set)
    | inl clean ↦ inr (
      clean,
      elim (documented.lists mod_object (end_table I P st).table w) [
        | inl fine ↦ inr (fine, simp (clean, fine))
        | inr (e, failed) ↦ inl (e, simp (clean, failed))
      ],
    )
  ]

  -- The declaration, made while the module is owned.
  gil-Declared :
      (m : ℕ) (w : World)
      → (v : World) × Declared w v
        × (declare_no_gil I P m (record w { owned = m ∷ w.owned })
            ≡ record v { owned = m ∷ v.owned })
  gil-Declared m w =
      elim (declare_no_gil-Declared I documented P m (record w { owned = m ∷ w.owned })) [
        | inl same ↦ (w, inl refl, same)
        | inr (e, set) ↦ (set_error e w, inr (e, refl), set)
      ]

  Declared-set_error : (e : PyError) (w v : World) → Declared w v → set_error e v ≡ set_error e w
  Declared-set_error e w v (inl same) = ap (set_error e) same
  Declared-set_error e w v (inr (e', set)) = ap (set_error e) set

  -- How an import ends: nothing is made, or no error type is, or the body runs.
  pub py_init_cases :
      (error_name : Bytes) (body : List Statement) (st : Statics) (w : World)
      → let end = py_init I P error_name body st w in
        ((e : PyError) × (end ≡ (none, (st, set_error e w))))
        ⊎ (((e : PyError) × (end ≡ (none, (record st { error_storage = none }, set_error e w))))
            ⊎ ((m : ℕ) × (err : ℕ) × (v : World) × Declared w v
                × (end ≡ body_ended I P m err (run_body I P m body (started I P m err st v)))))
  unfolding py_init
  py_init_cases error_name body st w = elim (documented.creates w) [
    | inr (e, failed) ↦ inl (e, rw failed refl)
    | inl (m, made) ↦
        let (v, declared, gil) = gil-Declared m w in
        elim (register_error_cases I documented m error_name none
          (record v { owned = m ∷ v.owned })) [
            | inl (err, registered) ↦
                inr (inr (m, err, v, declared, rw (made, gil, registered) refl))
            | inr (e, failed) ↦ inr (
                inl (
                  e,
                  rw (made, gil, failed, release-head m v.owned, Declared-set_error e w v declared)
                      refl,
                ))
          ]
  ]

  body_ended-KeepsConvention :
      (mod_object error_type : ℕ) (one : Result (Unit {0}) × Session)
      → EndsPlain one
      → KeepsConvention (handed_over (body_ended I P mod_object error_type one))
  body_ended-KeepsConvention mod_object error_type (throw e, (st, w)) h =
      (λ _. set_cpp_error-sets_error (some error_type) e w (plain-EndsHonest e w h), λ _. refl)
  body_ended-KeepsConvention mod_object error_type (ok u, (st, w)) h =
      elim (body_ended_cases mod_object error_type st w) [
        | inl (set, ends) ↦ rw ends (λ _. set, λ _. refl)
        | inr (clean, inl (e, ends)) ↦ rw ends (λ _ n. cc, λ _. refl)
        | inr (clean, inr (added, ends)) ↦ rw ends (λ n. cc, λ set. absurd (set clean))
      ]

  -- An import gives a module with no error set, or a null pointer with one, whatever fails on the way:
  -- making the module or its error type, a statement of the body, an exception that the body throws
  -- (none of them error_already_set), or adding the functions. It begins with no error set, and CPython's
  -- functions do what it documents of them.
  pub py_init-KeepsConvention :
      (error_name : Bytes) (body : List Statement) (st : Statics) (w : World)
      → All ThrowsPlain body
      → w.error ≡ none
      → KeepsConvention (handed_over (py_init I P error_name body st w))
  py_init-KeepsConvention error_name body st w h clean = elim (py_init_cases error_name body st w) [
    | inl (e, ends) ↦ rw ends (λ _ n. cc, λ _. refl)
    | inr (inl (e, ends)) ↦ rw ends (λ _ n. cc, λ _. refl)
    | inr (inr (m, err, v, declared, ends)) ↦
        let start = started I P m err st v in
        rw ends (
          body_ended-KeepsConvention m err (run_body I P m body start)
            (run_body-EndsPlain I P m body start h))
  ]
