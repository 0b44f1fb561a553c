-- ===== src/Binding/Module/Table.antt =====
-- The method table that an import of include/sciforge/binding/module.hpp leaves.
use sciforge.Base.{
  ℕ, suc, false, ◌≡◌, refl, sym, ap, subst, ◌∙◌, Bytes, List, [], ◌∷◌, ◌++◌, Option, none, some,
  append_assoc, append-nil, inl, inr,
}
use sciforge.Cpp.{Result, ok, throw}
use sciforge.Binding.Python.{World, Python}
use sciforge.Binding.Dispatch.{
  MethodFlags, var_args, var_args_keywords, EntryPoint, positional, keywords, own, MethodDef,
}
use sciforge.Binding.Module.{
  Importer, Statics, Session, Statement, def, def_kw, raw, wrap, throws, run_statement, run_body,
  py_init, body_ended, begin_import,
}
use sciforge.Binding.Module.Errors.{IsDocumented}
use sciforge.Binding.Module.Imports.{started, body_ended_cases, py_init_cases}

abbrev entry : Bytes → EntryPoint → MethodFlags → MethodDef
entry name meth flags = record { ml_name = name; ml_meth = meth; ml_flags = flags }

-- The entries that the statements of a body should give the table: a class makes none.
abbrev pub function_entries : List Statement → List (Option MethodDef)
function_entries [] = []
function_entries (def name ∷ xs) = some (entry name positional var_args) ∷ function_entries xs
function_entries (raw name flags ∷ xs) = some (entry name own flags) ∷ function_entries xs
function_entries (def_kw func name args ∷ xs) =
    some (entry name (keywords func) var_args_keywords) ∷ function_entries xs
function_entries (wrap wrapped name calls ∷ xs) = function_entries xs
function_entries (throws e ∷ xs) = function_entries xs

-- What a body that throws nothing adds to the table.
abbrev Adds : Statics → List (Option MethodDef) → Result (Unit {0}) × Session → Type 0
Adds st entries (throw e, s) = Unit
Adds st entries (ok u, (st', w)) = (st'.table ≡ st.table ++ entries) × (st'.epoch ≡ st.epoch)

module _ (I : Importer) (P : Python) where
  Adds-push :
      (st st' : Statics) (name : Option MethodDef) (entries : List (Option MethodDef))
      (r : Result (Unit {0}) × Session)
      → st'.table ≡ st.table ++ name ∷ []
      → st'.epoch ≡ st.epoch
      → Adds st' entries r
      → Adds st (name ∷ entries) r
  Adds-push st st' name entries (throw e, s) t p h = tt
  Adds-push st st' name entries (ok u, (st'', w)) t p h =
      (h.0 ∙ ap (λ table. table ++ entries) t ∙ append_assoc st.table (name ∷ []) entries, h.1 ∙ p)

  run_body-Adds :
      (mod_object : ℕ) (body : List Statement) (st : Statics) (w : World)
      → Adds st (function_entries body) (run_body I P mod_object body (st, w))
  unfolding run_body run_statement
  run_body-Adds mod_object [] st w = (sym (append-nil st.table), refl)
  run_body-Adds mod_object (def name ∷ xs) st w =
      let (st', w') = (run_statement I P mod_object (def name) (st, w)).1 in
      Adds-push st st' (some (entry name positional var_args)) (function_entries xs)
        (run_body I P mod_object xs (st', w')) refl refl (run_body-Adds mod_object xs st' w')
  run_body-Adds mod_object (raw name flags ∷ xs) st w =
      let (st', w') = (run_statement I P mod_object (raw name flags) (st, w)).1 in
      Adds-push st st' (some (entry name own flags)) (function_entries xs)
        (run_body I P mod_object xs (st', w')) refl refl (run_body-Adds mod_object xs st' w')
  run_body-Adds mod_object (def_kw func name args ∷ xs) st w =
      let (st', w') = (run_statement I P mod_object (def_kw func name args) (st, w)).1 in
      Adds-push st st' (some (entry name (keywords func) var_args_keywords)) (function_entries xs)
        (run_body I P mod_object xs (st', w')) refl refl (run_body-Adds mod_object xs st' w')
  run_body-Adds mod_object (wrap wrapped name calls ∷ xs) st w =
      let (st', w') = (run_statement I P mod_object (wrap wrapped name calls) (st, w)).1 in
      run_body-Adds mod_object xs st' w'
  run_body-Adds mod_object (throws e ∷ xs) st w = tt

module _ (I : Importer) (documented : IsDocumented I) (P : Python) where
  body_ended-table :
      (m err : ℕ) (body : List Statement) (st : Statics) (one : Result (Unit {0}) × Session)
      (m' : ℕ) (st' : Statics) (w' : World)
      → Adds (begin_import I P err st) (function_entries body) one
      → body_ended I P m err one ≡ (some m', (st', w'))
      → (m' ≡ m)
        × (st'.table ≡ function_entries body ++ none ∷ [])
        × (I.add_functions m st'.table w' ≡ (false, w'))
        × (st'.epoch ≡ suc st.epoch)
  body_ended-table m err body st (throw e, (st₁, w)) m' st' w' adds ends = cc
  body_ended-table m err body st (ok u, (st₁, w)) m' st' w' adds ends =
      elim (body_ended_cases I documented P m err st₁ w) [
        | inl (set, fails) ↦ cc
        | inr (clean, inl (e, fails)) ↦ cc
        | inr (clean, inr (added, succeeds)) ↦ (
          cc (sym succeeds ∙ ends),
          ap (λ r. r.1.0.table) (sym ends ∙ succeeds) ∙ ap (λ t. t ++ none ∷ []) adds.0,
          subst (λ r. I.add_functions m r.1.0.table r.1.1 ≡ (false, r.1.1)) (sym succeeds ∙ ends)
              added,
          ap (λ r. r.1.0.epoch) (sym ends ∙ succeeds) ∙ adds.1,
        )
      ]

  -- Where an import gives a module, the method table holds one entry for each def and raw of the body, in
  -- order and nothing of an earlier import, ended by one NULL; it is from this table, with its NULL, that
  -- PyModule_AddFunctions added to the module, without an error; and the count of imports has grown by
  -- one. Each entry has the statement's name and is called as its C
  -- function wants it: with a tuple for a positional function, with a tuple and keywords for one with
  -- keyword arguments, and as the statement says for a raw one.
  pub py_init-table :
      (error_name : Bytes) (body : List Statement) (st : Statics) (w : World) (m : ℕ)
      (st' : Statics) (w' : World)
      → py_init I P error_name body st w ≡ (some m, (st', w'))
      → (st'.table ≡ function_entries body ++ none ∷ [])
        × (I.add_functions m st'.table w' ≡ (false, w'))
        × (st'.epoch ≡ suc st.epoch)
  py_init-table error_name body st w m st' w' made =
      elim (py_init_cases I documented P error_name body st w) [
        | inl (e, ends) ↦ cc
        | inr (inl (e, ends)) ↦ cc
        | inr (inr (m₁, err, v, declared, ends)) ↦
            let start = started I P m₁ err st v in
            let (same, left, added, counted) =
              body_ended-table m₁ err body st (run_body I P m₁ body start) m st' w'
                (run_body-Adds I P m₁ body start.0 start.1) (sym ends ∙ made) in
            (
              left,
              subst (λ n. I.add_functions n st'.table w' ≡ (false, w')) (sym same) added,
              counted,
            )
      ]
