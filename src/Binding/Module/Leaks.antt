-- ===== src/Binding/Module/Leaks.antt =====
-- The references that an import of include/sciforge/binding/module.hpp leaves, however it ends.
use sciforge.Base.{
  ap, ℕ, ◌+◌, ◌≤◌, ◌≡◌, ◌⊎◌, refl, Bytes, List, [], ◌∷◌, none, some, arith, All, inl, inr,
}
use sciforge.Cpp.{
  Exn, Result, ok, throw, cast_error, error_already_set, bad_alloc, std_exception, non_standard,
}
use sciforge.Binding.Python.{Ptr, World, Python, decref}
use sciforge.Binding.Error.{set_cpp_error}
use sciforge.Binding.Keywords.Claims.{MakesDefaults, count, count_ptrs, count-release}
use sciforge.Binding.Module.{Importer, Statics, Session, Statement, run_body, py_init, body_ended}
use sciforge.Binding.Module.Errors.{IsDocumented, Declared-owned}
use sciforge.Binding.Module.Imports.{started, body_ended_cases, py_init_cases}
use sciforge.Binding.Module.Ledger.{held_refs, Owns}
use sciforge.Binding.Module.References.{IsWithin, SessionOwns, run_body-Owns}

set_cpp_error-owned :
    (error_type : Ptr) (e : Exn) (w : World) → (set_cpp_error error_type e w).1.owned ≡ w.owned
unfolding set_cpp_error
set_cpp_error-owned error_type error_already_set w = refl
set_cpp_error-owned error_type bad_alloc w = refl
set_cpp_error-owned error_type (cast_error what) w = refl
set_cpp_error-owned error_type (std_exception what) w = refl
set_cpp_error-owned error_type non_standard w = refl

-- The references owned after an import that is left with `r` are `base`, those that the statics hold,
-- the one to the module, and the one that `lost` had.
abbrev pub EndsOwning : ℕ → ℕ → (ℕ → ℕ) → Ptr → Ptr × Session → Type 0
EndsOwning funcs wrappeds base lost (r, (st, w)) =
    Owns (λ o. base o + count_ptrs o (lost ∷ []))
      (λ o. held_refs funcs wrappeds st o + count_ptrs o (r ∷ [])) w

module _ (I : Importer) (documented : IsDocumented I) (P : Python) (makes : MakesDefaults P)
    (funcs wrappeds : ℕ) where
  -- The module is given up.
  abandoned-EndsOwning :
      (base : ℕ → ℕ) (m : ℕ) (st : Statics) (w : World)
      → SessionOwns funcs wrappeds (λ o. base o + count_ptrs o (some m ∷ [])) (st, w)
      → Owns base (held_refs funcs wrappeds st) (decref m w)
  unfolding count_ptrs
  abandoned-EndsOwning base m st w owns o =
      let mine : 1 ≤ count m w.owned = ground (arith, owns m) in
      omega (arith, owns o, count-release o m w.owned mine)

  body_ended-EndsOwning :
      (base : ℕ → ℕ) (m err : ℕ) (lost : Ptr) (one : Result (Unit {0}) × Session)
      → SessionOwns funcs wrappeds
          (λ o. (base o + count_ptrs o (lost ∷ [])) + count_ptrs o (some m ∷ []))
          one.1
      → EndsOwning funcs wrappeds base lost (body_ended I P m err one)
  unfolding count_ptrs
  body_ended-EndsOwning base m err lost (throw e, (st, w)) owns = λ o.
      let w' = (set_cpp_error (some err) e w).1 in
      omega (
        arith,
        abandoned-EndsOwning (λ p. base p + count_ptrs p (lost ∷ [])) m st w'
            (rw (set_cpp_error-owned (some err) e w) owns) o,
      )
  body_ended-EndsOwning base m err lost (ok u, (st, w)) owns =
      let abandoned = abandoned-EndsOwning (λ p. base p + count_ptrs p (lost ∷ [])) m st w owns in
      elim (body_ended_cases I documented P m err st w) [
        | inl (set, ends) ↦ rw ends λ o. omega (arith, abandoned o)
        | inr (clean, inl (e, ends)) ↦ rw ends λ o. omega (arith, abandoned o)
        | inr (clean, inr (added, ends)) ↦ rw ends λ o. omega (arith, owns o)
      ]

  -- The references owned over one import, however it ends, where CPython's functions do what it
  -- documents of them: if before it they are, for each object, a fixed number and those that the
  -- variables hold (the stored defaults of the functions, the types of the classes, the module's error
  -- type), they are so afterwards, with one more to the module where one is given back and at most one
  -- lost, that to the error type of an earlier import. Functions and classes are numbered below two
  -- bounds.
  pub py_init-EndsOwning :
      (error_name : Bytes) (body : List Statement) (st : Statics) (w : World) (base : ℕ → ℕ)
      → All (IsWithin funcs wrappeds) body
      → Owns base (held_refs funcs wrappeds st) w
      → (lost : Ptr) × ((lost ≡ none) ⊎ (lost ≡ st.error_storage))
        × EndsOwning funcs wrappeds base lost (py_init I P error_name body st w)
  unfolding count count_ptrs
  py_init-EndsOwning error_name body st w base h owns =
      elim (py_init_cases I documented P error_name body st w) [
        | inl (e, ends) ↦ (none, inl refl, rw ends λ o. omega (arith, owns o))
        | inr (inl (e, ends)) ↦ (st.error_storage, inr refl, rw ends λ o. omega (arith, owns o))
        | inr (inr (m, err, v, declared, ends)) ↦
            let start = started I P m err st v in
            let before = λ (o : ℕ).
              (base o + count_ptrs o (st.error_storage ∷ [])) + count_ptrs o (some m ∷ []) in
            let ran =
              run_body-Owns I documented P makes funcs wrappeds before m body start.0 start.1 h
                (λ o. omega (arith, owns o, ap (count o) (Declared-owned w v declared))) in
            (
              st.error_storage,
              inr refl,
              rw ends (
                  body_ended-EndsOwning base m err st.error_storage (run_body I P m body start)
                    ran),
            )
      ]
