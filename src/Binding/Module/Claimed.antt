-- ===== src/Binding/Module/Claimed.antt =====
-- The keyword functions that an import of include/sciforge/binding/module.hpp has registered so far.
use sciforge.Base.{
  ℕ, ◌≡◌, refl, Bytes, List, [], ◌∷◌, arith, Bool-cases, inl, inr, ◌==◌, ==_iff, ==_refl,
}
use sciforge.Cpp.{Result, ok, throw}
use sciforge.Binding.Python.{World, Python}
use sciforge.Binding.Keywords.{
  ArgSpec, KwSpec, empty_spec, SpecStore, register_func, register_spec, release_defaults,
}
use sciforge.Binding.Keywords.Specs.{add_args-epoch, claim_fresh}
use sciforge.Binding.Keywords.Claims.{claim_cases}
use sciforge.Binding.Class.Builder.{
  Building, BuilderCall, def_init, collect_call, builder_call, builder_calls, build_class,
  start_building, start_class,
}
use sciforge.Binding.Class.Builder.Registered.{builder_call_cases}
use sciforge.Binding.Module.{
  Importer, Statics, Session, Statement, def, def_kw, raw, wrap, throws, run_statement,
}

-- The function `f` has been registered in this import.
abbrev pub IsClaimed : ℕ → Statics → Type 0
IsClaimed f st = (st.specs f).epoch ≡ st.epoch

module _ (P : Python) where
  pub register_spec-epoch :
      (registration_epoch : ℕ) (name : Bytes) (args : List ArgSpec) (spec : KwSpec) (w : World)
      → (register_spec P registration_epoch name args spec w).0.epoch ≡ registration_epoch
  unfolding register_spec
  register_spec-epoch registration_epoch name args spec w =
      let start = record empty_spec { epoch = registration_epoch } in
      elim (Bool-cases (spec.epoch == registration_epoch)) [
        | inr fresh ↦
            rw (claim_fresh registration_epoch name spec w (λ e. ground arith))
              (add_args-epoch P args start (release_defaults spec.defaults w))
        | inl same ↦ elim (claim_cases registration_epoch name spec w) [
          | inl refused ↦ rw refused ((==_iff spec.epoch registration_epoch).0 same)
          | inr claimed ↦
              rw claimed (add_args-epoch P args start (release_defaults spec.defaults w))
        ]
      ]

  pub register_func-claims :
      (registration_epoch func : ℕ) (name : Bytes) (args : List ArgSpec) (specs : SpecStore)
      (w : World)
      → ((register_func P registration_epoch func name args specs w).0 func).epoch
        ≡ registration_epoch
  unfolding register_func
  register_func-claims registration_epoch func name args specs w =
      rw ==_refl (register_spec-epoch registration_epoch name args (specs func) w)

  register_func-keeps :
      (registration_epoch f func : ℕ) (name : Bytes) (args : List ArgSpec) (specs : SpecStore)
      (w : World)
      → (specs f).epoch ≡ registration_epoch
      → ((register_func P registration_epoch func name args specs w).0 f).epoch ≡ registration_epoch
  unfolding register_func
  register_func-keeps registration_epoch f func name args specs w h =
      elim (Bool-cases (f == func)) [
        | inl same ↦ rw same (register_spec-epoch registration_epoch name args (specs func) w)
        | inr other ↦ rw other h
      ]

  collect_call-keeps :
      (registration_epoch f : ℕ) (c : BuilderCall) (b : Building)
      → (b.specs f).epoch ≡ registration_epoch
      → ((collect_call P registration_epoch c b).specs f).epoch ≡ registration_epoch
  unfolding collect_call
  collect_call-keeps registration_epoch f (BuilderCall.def name) b h = h
  collect_call-keeps registration_epoch f (BuilderCall.raw name flags) b h = h
  collect_call-keeps registration_epoch f (BuilderCall.def_prop_ro name) b h = h
  collect_call-keeps registration_epoch f BuilderCall.def_repr b h = h
  collect_call-keeps registration_epoch f BuilderCall.def_richcompare b h = h
  collect_call-keeps registration_epoch f BuilderCall.def_hash b h = h
  collect_call-keeps registration_epoch f BuilderCall.init_once b h = h
  collect_call-keeps registration_epoch f (def_init factory args) b h =
      register_func-keeps registration_epoch f factory b.registry.class_name args b.specs b.world h

  builder_calls-keeps :
      (registration_epoch f : ℕ) (calls : List BuilderCall) (b : Building)
      → (b.specs f).epoch ≡ registration_epoch
      → ((builder_calls P registration_epoch calls b).specs f).epoch ≡ registration_epoch
  unfolding builder_calls
  builder_calls-keeps registration_epoch f [] b h = h
  builder_calls-keeps registration_epoch f (c ∷ cs) b h =
      builder_calls-keeps registration_epoch f cs (builder_call P registration_epoch c b)
        (elim (builder_call_cases P registration_epoch c b) [
          | inl inert ↦ rw inert h
          | inr (fresh, called) ↦ rw called (collect_call-keeps registration_epoch f c b h)
        ])

  module _ (I : Importer) where
    -- What holds of the state behind a statement that has not thrown.
    abbrev pub Behind : (Statics → Type 0) → Result (Unit {0}) × Session → Type 0
    Behind Q (throw e, s) = Unit
    Behind Q (ok u, (st, w)) = Q st

    pub run_statement-IsClaimed :
        (mod_object f : ℕ) (x : Statement) (st : Statics) (w : World)
        → IsClaimed f st
        → Behind
            (λ st'. IsClaimed f st' × (st'.epoch ≡ st.epoch))
            (run_statement I P mod_object x (st, w))
    unfolding run_statement build_class
    run_statement-IsClaimed mod_object f (def name) st w h = (h, refl)
    run_statement-IsClaimed mod_object f (raw name flags) st w h = (h, refl)
    run_statement-IsClaimed mod_object f (def_kw func name args) st w h =
        (register_func-keeps st.epoch f func name args st.specs w h, refl)
    run_statement-IsClaimed mod_object f (wrap wrapped name calls) st w h = (
      builder_calls-keeps st.epoch f calls
          (start_building (start_class name (st.types wrapped)) st.specs w) h,
      refl,
    )
    run_statement-IsClaimed mod_object f (throws e) st w h = tt

    pub run_statement-epoch :
        (mod_object : ℕ) (x : Statement) (st : Statics) (w : World)
        → Behind (λ st'. st'.epoch ≡ st.epoch) (run_statement I P mod_object x (st, w))
    unfolding run_statement
    run_statement-epoch mod_object (def name) st w = refl
    run_statement-epoch mod_object (raw name flags) st w = refl
    run_statement-epoch mod_object (def_kw func name args) st w = refl
    run_statement-epoch mod_object (wrap wrapped name calls) st w = refl
    run_statement-epoch mod_object (throws e) st w = tt
