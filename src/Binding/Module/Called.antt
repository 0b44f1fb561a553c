-- ===== src/Binding/Module/Called.antt =====
-- A function with keyword arguments of a module that an import of include/sciforge/binding/module.hpp has
-- given: what its spec is (kw_spec_for of include/sciforge/binding/dispatch.hpp).
use sciforge.Base.{
  ℕ, ◌≡◌, ◌≢◌, refl, sym, ap, subst, ◌∙◌, Bytes, List, [], ◌∷◌, ◌++◌, none, some, inl, inr, arith,
  Option-cases, ==_refl,
}
use sciforge.Cpp.{Result, ok, throw}
use sciforge.Binding.Python.{World, Python}
use sciforge.Binding.Keywords.{ArgSpec, KwSpec, register_spec, register_func}
use sciforge.Binding.Keywords.Claims.{MakesDefaults, claim_taken}
use sciforge.Binding.Module.{
  Importer, Statics, Session, Statement, def_kw, run_statement, run_body, go_on, py_init,
  body_ended,
}
use sciforge.Binding.Module.Defaults.{ErrorStays}
use sciforge.Binding.Module.Errors.{IsDocumented, run_body-ErrorStays}
use sciforge.Binding.Module.Claimed.{Behind, register_spec-epoch, run_statement-epoch}
use sciforge.Binding.Module.Settled.{Settles, run_body-Settles}
use sciforge.Binding.Module.Imports.{started, body_ended_cases, py_init_cases}

module _ (I : Importer) (documented : IsDocumented I) (P : Python) (makes : MakesDefaults P) (f : ℕ)
    (name : Bytes) (args : List ArgSpec) where
  -- The spec of `f` is what a registration with `args` made in this import, with no error set: it was
  -- the first of `f` in it.
  abbrev pub HasSpec : Statics → Type 0
  HasSpec st =
      (before : KwSpec) × (w : World) × (before.epoch ≢ st.epoch)
      × ((register_spec P st.epoch name args before w).1.error ≡ none)
      × (st.specs f ≡ (register_spec P st.epoch name args before w).0)

  abbrev pub GivesSpec : Result (Unit {0}) × Session → Type 0
  GivesSpec (throw e, s) = Unit
  GivesSpec (ok u, (st, w)) = w.error ≡ none → HasSpec st

  -- An error set earlier would still be set.
  was_clean : (w w' : World) → (w.error ≢ none → w'.error ≢ none) → w'.error ≡ none → w.error ≡ none
  was_clean w w' stays clean = elim (Option-cases w.error) [
    | inl n ↦ n
    | inr (e, set) ↦ absurd (stays (λ n. cc) clean)
  ]

  taken-sets_error :
      (spec : KwSpec) (registration_epoch : ℕ) (w : World)
      → registration_epoch ≢ 0
      → spec.epoch ≡ registration_epoch
      → (register_spec P registration_epoch name args spec w).1.error ≢ none
  unfolding register_spec
  taken-sets_error spec registration_epoch w begun taken =
      rw (claim_taken registration_epoch name spec w taken begun) cc

  pub settled-GivesSpec :
      (mod_object registration_epoch : ℕ) (before : KwSpec) (w : World)
      (rest : Result (Unit {0}) × Session)
      → registration_epoch ≢ 0
      → ErrorStays (register_spec P registration_epoch name args before w).1 rest.1.1
      → Behind P I
          (Settles P f I mod_object
            (register_spec P registration_epoch name args before w).0
            registration_epoch)
          rest
      → GivesSpec rest
  settled-GivesSpec mod_object registration_epoch before w (throw e, s) begun stays settles = tt
  settled-GivesSpec mod_object registration_epoch before w (ok u, (st', w')) begun stays
        (settles, same) =
      λ clean.
        let made =
          was_clean (register_spec P registration_epoch name args before w).1 w' stays clean in
        (
          before,
          w,
          (λ taken. taken-sets_error before registration_epoch w begun (taken ∙ same) made),
          rw same made,
          rw same settles.0,
        )

  def_kw-GivesSpec :
      (mod_object : ℕ) (post : List Statement) (st : Statics) (w : World)
      → st.epoch ≢ 0
      → GivesSpec (run_body I P mod_object (def_kw f name args ∷ post) (st, w))
  unfolding run_body run_statement register_func
  def_kw-GivesSpec mod_object post st w begun =
      let (spec, v) = register_spec P st.epoch name args (st.specs f) w in
      let (st₁, v₁) = (run_statement I P mod_object (def_kw f name args) (st, w)).1 in
      settled-GivesSpec mod_object st.epoch (st.specs f) w (run_body I P mod_object post (st₁, v₁))
        begun (run_body-ErrorStays I documented P makes mod_object post st₁ v₁)
        (run_body-Settles P f I mod_object post spec st.epoch st₁ v₁ (
          ((rw ==_refl refl), register_spec-epoch P st.epoch name args (st.specs f) w, begun),
          refl,
        ))

  go_on-GivesSpec :
      (begun : ℕ) (one : Result (Unit {0}) × Session) (rest : Session → Result (Unit {0}) × Session)
      → Behind P I (λ st. st.epoch ≡ begun) one
      → ((st : Statics) (w : World) → st.epoch ≡ begun → GivesSpec (rest (st, w)))
      → GivesSpec (go_on I P one rest)
  go_on-GivesSpec begun (ok u, (st, w)) rest h k = k st w h
  go_on-GivesSpec begun (throw e, s) rest h k = tt

  run_body-GivesSpec :
      (mod_object : ℕ) (pre post : List Statement) (st : Statics) (w : World)
      → st.epoch ≢ 0
      → GivesSpec (run_body I P mod_object (pre ++ def_kw f name args ∷ post) (st, w))
  unfolding run_body
  run_body-GivesSpec mod_object [] post st w begun = def_kw-GivesSpec mod_object post st w begun
  run_body-GivesSpec mod_object (x ∷ pre) post st w begun =
      go_on-GivesSpec st.epoch (run_statement I P mod_object x (st, w))
        (run_body I P mod_object (pre ++ def_kw f name args ∷ post))
        (run_statement-epoch P I mod_object x st w)
        λ st' w' same. run_body-GivesSpec mod_object pre post st' w' (λ e. begun (sym same ∙ e))

  pub body_ended-HasSpec :
      (m err : ℕ) (one : Result (Unit {0}) × Session) (m' : ℕ) (st' : Statics) (w' : World)
      → GivesSpec one
      → body_ended I P m err one ≡ (some m', (st', w'))
      → HasSpec st'
  body_ended-HasSpec m err (throw e, (st, w)) m' st' w' h ends = cc
  body_ended-HasSpec m err (ok u, (st, w)) m' st' w' h ends =
      elim (body_ended_cases I documented P m err st w) [
        | inl (set, fails) ↦ cc
        | inr (clean, inl (e, fails)) ↦ cc
        | inr (clean, inr (added, succeeds)) ↦
            subst HasSpec (ap (λ r. r.1.0) (sym succeeds ∙ ends)) (h clean)
      ]

  pub py_init-HasSpec :
      (error_name : Bytes) (pre post : List Statement) (st : Statics) (w : World) (m : ℕ)
      (st' : Statics) (w' : World)
      → py_init I P error_name (pre ++ def_kw f name args ∷ post) st w ≡ (some m, (st', w'))
      → HasSpec st'
  py_init-HasSpec error_name pre post st w m st' w' given =
      let body = pre ++ def_kw f name args ∷ post in
      elim (py_init_cases I documented P error_name body st w) [
        | inl (e, ends) ↦ cc
        | inr (inl (e, ends)) ↦ cc
        | inr (inr (m₁, err, v, declared, ends)) ↦
            let start = started I P m₁ err st v in
            body_ended-HasSpec m₁ err (run_body I P m₁ body start) m st' w'
              (run_body-GivesSpec m₁ pre post start.0 start.1 (λ e. omega (arith, e)))
              (sym ends ∙ given)
      ]
