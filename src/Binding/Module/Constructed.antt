-- ===== src/Binding/Module/Constructed.antt =====
-- A class with a def_init of a module that an import of include/sciforge/binding/module.hpp has given: what
-- the spec of its factory is (def_init of include/sciforge/binding/class.hpp).
use sciforge.Base.{
  ℕ, ◌≡◌, ◌≢◌, refl, sym, subst, ◌∙◌, Bytes, List, [], ◌∷◌, ◌++◌, none, some, All, inl, inr, arith,
  ==_refl, ==_ne,
}
use sciforge.Cpp.{Result, ok, throw}
use sciforge.Binding.Python.{World, Python}
use sciforge.Binding.Keywords.{ArgSpec, KwSpec, register_spec, register_func}
use sciforge.Binding.Keywords.Claims.{MakesDefaults}
use sciforge.Binding.Class.Builder.{
  Registry, Building, BuilderCall, def_init, builder_call, builder_calls, collect_call, build_class,
  start_building, start_class,
}
use sciforge.Binding.Class.Builder.Registered.{unregistered, call_fresh, calls_collected}
use sciforge.Binding.Module.{
  Importer, Statics, Session, Statement, def, def_kw, raw, wrap, throws, run_statement, run_body,
  go_on, py_init,
}
use sciforge.Binding.Module.Defaults.{ErrorStays}
use sciforge.Binding.Module.Errors.{
  IsDocumented, run_body-ErrorStays, builder_calls-ErrorStays, finish_class-ErrorStays,
}
use sciforge.Binding.Module.Claimed.{Behind, register_spec-epoch}
use sciforge.Binding.Module.Settled.{run_body-Settles, builder_calls-IsSettled}
use sciforge.Binding.Module.Called.{HasSpec, GivesSpec, settled-GivesSpec, body_ended-HasSpec}
use sciforge.Binding.Module.Imports.{started, py_init_cases}

-- A statement that does not register the class `k`.
abbrev pub Leaves : ℕ → Statement → Type 0
Leaves k (def name) = Unit
Leaves k (raw name flags) = Unit
Leaves k (def_kw func name args) = Unit
Leaves k (wrap wrapped name calls) = k ≢ wrapped
Leaves k (throws e) = Unit

start_class_fresh :
    (name : Bytes) (r : Registry)
    → r.class_type ≡ none
    → ((start_class name r).class_type ≡ none) × ((start_class name r).class_name ≡ name)
unfolding start_class
start_class_fresh name r fresh = rw (start_class, unregistered r fresh) (fresh, refl)

builder_calls-append :
    (P : Python) (registration_epoch : ℕ) (xs ys : List BuilderCall) (b : Building)
    → builder_calls P registration_epoch (xs ++ ys) b
      ≡ builder_calls P registration_epoch ys (builder_calls P registration_epoch xs b)
unfolding builder_calls
builder_calls-append P registration_epoch [] ys b = refl
builder_calls-append P registration_epoch (x ∷ xs) ys b =
    builder_calls-append P registration_epoch xs ys (builder_call P registration_epoch x b)

module _ (I : Importer) (documented : IsDocumented I) (P : Python) (makes : MakesDefaults P) (f : ℕ)
    (args : List ArgSpec) (registration_epoch : ℕ) (begun : registration_epoch ≢ 0) where
  -- What a registration of the factory makes of the builder's spec.
  abbrev registered : Bytes → Building → KwSpec × World
  registered name b = register_spec P registration_epoch name args (b.specs f) b.world

  -- The builder's spec of the factory is that of the registration, and an error that it has set stays.
  abbrev Holds : KwSpec × World → Building → Type 0
  Holds made b = ErrorStays made.1 b.world × (b.specs f ≡ made.0)

  collected-Holds :
      (calls : List BuilderCall) (b : Building)
      → Holds (registered b.registry.class_name b) (
          builder_calls P registration_epoch calls
            (collect_call P registration_epoch (def_init f args) b))
  unfolding collect_call register_func
  collected-Holds calls b =
      let b₁ = collect_call P registration_epoch (def_init f args) b in
      (
        builder_calls-ErrorStays P makes registration_epoch calls b₁,
        builder_calls-IsSettled P f registration_epoch calls (registered b.registry.class_name b).0
            b₁
            (
              rw ==_refl refl,
              register_spec-epoch P registration_epoch b.registry.class_name args (b.specs f)
                  b.world,
              begun,
            ),
      )

  def_init-Holds :
      (calls : List BuilderCall) (b : Building)
      → b.registry.class_type ≡ none
      → Holds
          (registered b.registry.class_name b)
          (builder_calls P registration_epoch (def_init f args ∷ calls) b)
  unfolding builder_calls
  def_init-Holds calls b fresh =
      subst
        (λ b'.
          Holds (registered b.registry.class_name b) (builder_calls P registration_epoch calls b'))
        (sym (call_fresh P registration_epoch (def_init f args) b fresh)) (collected-Holds calls b)

  builder-Holds :
      (name : Bytes) (before behind : List BuilderCall) (start : Building)
      → start.registry.class_type ≡ none
      → start.registry.class_name ≡ name
      → Holds
          (registered name (builder_calls P registration_epoch before start))
          (builder_calls P registration_epoch (before ++ def_init f args ∷ behind) start)
  builder-Holds name before behind start fresh named =
      let b = builder_calls P registration_epoch before start in
      let added = calls_collected P registration_epoch before start fresh in
      subst (Holds (registered name b))
        (sym (builder_calls-append P registration_epoch before (def_init f args ∷ behind) start))
        (subst
          (λ n.
            Holds (registered n b)
              (builder_calls P registration_epoch (def_init f args ∷ behind) b))
          (added.3 ∙ named) (def_init-Holds behind b (added.0 ∙ fresh)))

module _ (I : Importer) (documented : IsDocumented I) (P : Python) (makes : MakesDefaults P) (f : ℕ)
    (name : Bytes) (args : List ArgSpec) (wrapped : ℕ) (before behind : List BuilderCall) where
  abbrev Gives : Result (Unit {0}) × Session → Type 0
  Gives = GivesSpec I documented P makes f name args

  abbrev registration : Statement
  registration = wrap wrapped name (before ++ def_init f args ∷ behind)

  wrap-GivesSpec :
      (mod_object : ℕ) (post : List Statement) (st : Statics) (w : World)
      → st.epoch ≢ 0
      → (st.types wrapped).class_type ≡ none
      → Gives (run_body I P mod_object (registration ∷ post) (st, w))
  unfolding run_body run_statement build_class
  wrap-GivesSpec mod_object post st w begun fresh =
      let start = start_building (start_class name (st.types wrapped)) st.specs w in
      let started_fresh = start_class_fresh name (st.types wrapped) fresh in
      let b = builder_calls P st.epoch before start in
      let end = builder_calls P st.epoch (before ++ def_init f args ∷ behind) start in
      let (stays, is) =
        builder-Holds I documented P makes f args st.epoch begun name before behind start
          started_fresh.0 started_fresh.1 in
      let (st₁, v₁) = (run_statement I P mod_object registration (st, w)).1 in
      settled-GivesSpec I documented P makes f name args mod_object st.epoch (b.specs f) b.world
        (run_body I P mod_object post (st₁, v₁)) begun
        (λ set.
          run_body-ErrorStays I documented P makes mod_object post st₁ v₁
            (finish_class-ErrorStays I documented P makes mod_object end (stays set)))
        (run_body-Settles P f I mod_object post
          (register_spec P st.epoch name args (b.specs f) b.world).0 st.epoch st₁ v₁
          ((is, register_spec-epoch P st.epoch name args (b.specs f) b.world, begun), refl))

  -- The class is not there yet, in the import with the number `begun`.
  abbrev Awaits : ℕ → Statics → Type 0
  Awaits begun st = (st.epoch ≡ begun) × ((st.types wrapped).class_type ≡ none)

  run_statement-Awaits :
      (mod_object : ℕ) (x : Statement) (st : Statics) (w : World)
      → Leaves wrapped x
      → (st.types wrapped).class_type ≡ none
      → Behind P I (Awaits st.epoch) (run_statement I P mod_object x (st, w))
  unfolding run_statement
  run_statement-Awaits mod_object (def title) st w leaves fresh = (refl, fresh)
  run_statement-Awaits mod_object (raw title flags) st w leaves fresh = (refl, fresh)
  run_statement-Awaits mod_object (def_kw func title specs) st w leaves fresh = (refl, fresh)
  run_statement-Awaits mod_object (throws e) st w leaves fresh = tt
  run_statement-Awaits mod_object (wrap other title calls) st w leaves fresh =
      (refl, rw (==_ne wrapped other leaves) fresh)

  go_on-Gives :
      (begun : ℕ) (one : Result (Unit {0}) × Session) (rest : Session → Result (Unit {0}) × Session)
      → Behind P I (Awaits begun) one
      → ((st : Statics) (w : World) → Awaits begun st → Gives (rest (st, w)))
      → Gives (go_on I P one rest)
  go_on-Gives begun (ok u, (st, w)) rest h k = k st w h
  go_on-Gives begun (throw e, s) rest h k = tt

  run_body-Gives :
      (mod_object : ℕ) (pre post : List Statement) (st : Statics) (w : World)
      → st.epoch ≢ 0
      → (st.types wrapped).class_type ≡ none
      → All (Leaves wrapped) pre
      → Gives (run_body I P mod_object (pre ++ registration ∷ post) (st, w))
  unfolding run_body
  run_body-Gives mod_object [] post st w begun fresh leave =
      wrap-GivesSpec mod_object post st w begun fresh
  run_body-Gives mod_object (x ∷ pre) post st w begun fresh leave =
      go_on-Gives st.epoch (run_statement I P mod_object x (st, w))
        (run_body I P mod_object (pre ++ registration ∷ post))
        (run_statement-Awaits mod_object x st w leave.0 fresh)
        λ st' w' awaits.
          run_body-Gives mod_object pre post st' w' (λ e. begun (sym awaits.0 ∙ e)) awaits.1 leave.1

  -- The spec of the factory behind an import that gives a module and registers the class anew.
  pub py_init-def_init :
      (error_name : Bytes) (pre post : List Statement) (st : Statics) (w : World) (m : ℕ)
      (st' : Statics) (w' : World)
      → (st.types wrapped).class_type ≡ none
      → All (Leaves wrapped) pre
      → py_init I P error_name (pre ++ registration ∷ post) st w ≡ (some m, (st', w'))
      → HasSpec I documented P makes f name args st'
  py_init-def_init error_name pre post st w m st' w' fresh leave given =
      elim (py_init_cases I documented P error_name (pre ++ registration ∷ post) st w) [
        | inl (e, ends) ↦ cc
        | inr (inl (e, ends)) ↦ cc
        | inr (inr (m₁, err, v, declared, ends)) ↦
            let start = started I P m₁ err st v in
            body_ended-HasSpec I documented P makes f name args m₁ err
              (run_body I P m₁ (pre ++ registration ∷ post) start) m st' w'
              (run_body-Gives m₁ pre post start.0 start.1 (λ e. omega (arith, e)) fresh leave)
              (sym ends ∙ given)
      ]
