-- ===== src/Binding/Module/Conflicts.antt =====
-- A function that a module registers twice with keyword arguments (include/sciforge/binding/module.hpp
-- with claim_kw_spec of include/sciforge/binding/dispatch.hpp): the import fails.
use sciforge.Base.{ℕ, ◌≡◌, ◌≢◌, refl, sym, ◌∙◌, Bytes, List, [], ◌∷◌, ◌++◌, none, arith, inl, inr}
use sciforge.Cpp.{Result, ok, throw}
use sciforge.Binding.Python.{World, Python}
use sciforge.Binding.Keywords.{ArgSpec, register_func, register_spec}
use sciforge.Binding.Keywords.Claims.{MakesDefaults, claim_taken}
use sciforge.Binding.Module.{
  Importer, Statics, Session, Statement, def_kw, run_statement, run_body, go_on, py_init,
  body_ended,
}
use sciforge.Binding.Module.Errors.{IsDocumented, run_body-ErrorStays}
use sciforge.Binding.Module.Claimed.{
  IsClaimed, Behind, register_func-claims, run_statement-IsClaimed, run_statement-epoch,
}
use sciforge.Binding.Module.Imports.{handed_over, started, body_ended_cases, py_init_cases}

-- A body has failed when it has thrown, or left an error set.
abbrev Fails : Result (Unit {0}) × Session → Type 0
Fails (throw e, s) = Unit
Fails (ok u, (st, w)) = w.error ≢ none

module _ (I : Importer) (documented : IsDocumented I) (P : Python) (makes : MakesDefaults P) where
  poisoned-Fails :
      (mod_object : ℕ) (body : List Statement) (st : Statics) (w : World)
      → w.error ≢ none
      → Fails (run_body I P mod_object body (st, w))
  poisoned-Fails mod_object body st w h =
      fails (run_body I P mod_object body (st, w))
        (run_body-ErrorStays I documented P makes mod_object body st w h)
    where
      fails : (r : Result (Unit {0}) × Session) → r.1.1.error ≢ none → Fails r
      fails (ok u, (st', w')) set = set
      fails (throw e, s) set = tt

  -- Behind one statement that keeps `Q`, the rest fails if it does from every state with `Q`.
  go_on-Fails :
      (Q : Statics → Type 0) (one : Result (Unit {0}) × Session)
      (rest : Session → Result (Unit {0}) × Session)
      → Behind P I Q one
      → ((st : Statics) (w : World) → Q st → Fails (rest (st, w)))
      → Fails (go_on I P one rest)
  go_on-Fails Q (ok u, (st, w)) rest h k = k st w h
  go_on-Fails Q (throw e, s) rest h k = tt

  second-Fails :
      (mod_object f : ℕ) (name : Bytes) (args : List ArgSpec) (post : List Statement) (st : Statics)
      (w : World)
      → st.epoch ≢ 0
      → IsClaimed f st
      → Fails (run_body I P mod_object (def_kw f name args ∷ post) (st, w))
  unfolding run_body run_statement register_func register_spec
  second-Fails mod_object f name args post st w started claimed =
      rw (claim_taken st.epoch name (st.specs f) w claimed started)
        (poisoned-Fails mod_object post _ _ cc)

  claimed-Fails :
      (mod_object f : ℕ) (name : Bytes) (args : List ArgSpec) (mid post : List Statement)
      (st : Statics) (w : World)
      → st.epoch ≢ 0
      → IsClaimed f st
      → Fails (run_body I P mod_object (mid ++ def_kw f name args ∷ post) (st, w))
  unfolding run_body
  claimed-Fails mod_object f name args [] post st w started claimed =
      second-Fails mod_object f name args post st w started claimed
  claimed-Fails mod_object f name args (x ∷ mid) post st w started claimed =
      go_on-Fails (λ st'. IsClaimed f st' × (st'.epoch ≡ st.epoch))
        (run_statement I P mod_object x (st, w))
        (run_body I P mod_object (mid ++ def_kw f name args ∷ post))
        (run_statement-IsClaimed P I mod_object f x st w claimed)
        λ st' w' kept.
          claimed-Fails mod_object f name args mid post st' w' (λ e. started (sym kept.1 ∙ e))
            kept.0

  twice-Fails :
      (mod_object f : ℕ) (name other : Bytes) (args others : List ArgSpec)
      (pre mid post : List Statement) (st : Statics) (w : World)
      → st.epoch ≢ 0
      → Fails (
          run_body I P mod_object
            (pre ++ def_kw f name args ∷ (mid ++ def_kw f other others ∷ post))
            (st, w))
  unfolding run_body run_statement
  twice-Fails mod_object f name other args others [] mid post st w started =
      claimed-Fails mod_object f other others mid post _ _ started
        (register_func-claims P st.epoch f name args st.specs w)
  twice-Fails mod_object f name other args others (x ∷ pre) mid post st w started =
      go_on-Fails (λ st'. st'.epoch ≡ st.epoch) (run_statement I P mod_object x (st, w))
        (run_body I P mod_object
          (pre ++ def_kw f name args ∷ (mid ++ def_kw f other others ∷ post)))
        (run_statement-epoch P I mod_object x st w)
        λ st' w' same.
          twice-Fails mod_object f name other args others pre mid post st' w'
            (λ e. started (sym same ∙ e))

  body_ended-Fails :
      (mod_object error_type : ℕ) (one : Result (Unit {0}) × Session)
      → Fails one
      → (body_ended I P mod_object error_type one).0 ≡ none
  body_ended-Fails mod_object error_type (throw e, (st, w)) h = refl
  body_ended-Fails mod_object error_type (ok u, (st, w)) h =
      elim (body_ended_cases I documented P mod_object error_type st w) [
        | inl (set, ends) ↦ rw ends refl
        | inr (clean, rest) ↦ absurd (h clean)
      ]

  -- A module whose body registers one function twice with keyword arguments, under any names, with any
  -- defaults and anything before, between and behind the two, cannot be imported: PyInit gives a null
  -- pointer. CPython's functions do what it documents of them.
  pub py_init_twice :
      (error_name : Bytes) (f : ℕ) (name other : Bytes) (args others : List ArgSpec)
      (pre mid post : List Statement) (st : Statics) (w : World)
      → (handed_over (
          py_init I P error_name
            (pre ++ def_kw f name args ∷ (mid ++ def_kw f other others ∷ post))
            st
            w)).0
        ≡ none
  py_init_twice error_name f name other args others pre mid post st w =
      let body = pre ++ def_kw f name args ∷ (mid ++ def_kw f other others ∷ post) in
      elim (py_init_cases I documented P error_name body st w) [
        | inl (e, ends) ↦ rw ends refl
        | inr (inl (e, ends)) ↦ rw ends refl
        | inr (inr (m, err, v, declared, ends)) ↦ rw ends (
            body_ended-Fails m err (run_body I P m body (started I P m err st v)) (
              twice-Fails m f name other args others pre mid post (started I P m err st v).0
                (started I P m err st v).1 (λ e. omega (arith, e))))
      ]
