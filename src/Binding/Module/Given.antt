-- ===== src/Binding/Module/Given.antt =====
-- A module that an import of include/sciforge/binding/module.hpp gives back: all of its body has been
-- registered.
use sciforge.Base.{ℕ, ◌≡◌, sym, ap, subst, ◌∙◌, Bytes, List, [], ◌∷◌, some, inl, inr, All}
use sciforge.Cpp.{Result, ok, throw}
use sciforge.Binding.Python.{World, Python}
use sciforge.Binding.Keywords.Claims.{MakesDefaults}
use sciforge.Binding.Module.{
  Importer, Statics, Session, Statement, def, def_kw, raw, wrap, throws, run_body, py_init,
  body_ended, end_table,
}
use sciforge.Binding.Module.Errors.{IsDocumented}
use sciforge.Binding.Module.Complete.{IsRegistered, Completes, run_body-Completes}
use sciforge.Binding.Module.Imports.{started, body_ended_cases, py_init_cases}

module _ (I : Importer) (documented : IsDocumented I) (P : Python) where
  end_table-IsRegistered :
      (x : Statement) (st : Statics) → IsRegistered st x → IsRegistered (end_table I P st) x
  end_table-IsRegistered (def name) st h = tt
  end_table-IsRegistered (raw name flags) st h = tt
  end_table-IsRegistered (def_kw func name args) st h = h
  end_table-IsRegistered (wrap wrapped name calls) st h = h
  end_table-IsRegistered (throws e) st h = tt

  end_table-All :
      (body : List Statement) (st : Statics)
      → All (IsRegistered st) body
      → All (IsRegistered (end_table I P st)) body
  end_table-All [] st h = tt
  end_table-All (x ∷ xs) st h = (end_table-IsRegistered x st h.0, end_table-All xs st h.1)

  body_ended-IsRegistered :
      (m err : ℕ) (body : List Statement) (one : Result (Unit {0}) × Session) (m' : ℕ)
      (st' : Statics) (w' : World)
      → Completes body one
      → body_ended I P m err one ≡ (some m', (st', w'))
      → All (IsRegistered st') body
  body_ended-IsRegistered m err body (throw e, (st, w)) m' st' w' h ends = cc
  body_ended-IsRegistered m err body (ok u, (st, w)) m' st' w' h ends =
      elim (body_ended_cases I documented P m err st w) [
        | inl (set, fails) ↦ cc
        | inr (clean, inl (e, fails)) ↦ cc
        | inr (clean, inr (added, succeeds)) ↦
            subst (λ t. All (IsRegistered t) body) (ap (λ r. r.1.0) (sym succeeds ∙ ends))
              (end_table-All body st (h clean))
      ]

  -- Where an import gives a module, everything that its body asks for is there: each function with
  -- keyword arguments has its spec from this very import, and each wrapped class has its type object.
  -- The calls of CPython do what it documents of them.
  pub py_init-IsRegistered :
      (makes : MakesDefaults P) (error_name : Bytes) (body : List Statement) (st : Statics)
      (w : World) (m : ℕ) (st' : Statics) (w' : World)
      → py_init I P error_name body st w ≡ (some m, (st', w'))
      → All (IsRegistered st') body
  py_init-IsRegistered makes error_name body st w m st' w' made =
      elim (py_init_cases I documented P error_name body st w) [
        | inl (e, ends) ↦ cc
        | inr (inl (e, ends)) ↦ cc
        | inr (inr (m₁, err, v, declared, ends)) ↦
            let start = started I P m₁ err st v in
            body_ended-IsRegistered m₁ err body (run_body I P m₁ body start) m st' w'
              (run_body-Completes I documented P makes m₁ body start.0 start.1) (sym ends ∙ made)
      ]
