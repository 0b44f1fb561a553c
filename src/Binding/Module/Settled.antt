-- ===== src/Binding/Module/Settled.antt =====
-- The keyword spec of a function in an import of include/sciforge/binding/module.hpp: once registered, it
-- stays as it is to the end of the import.
use sciforge.Base.{
  ℕ, ◌≡◌, ◌≢◌, refl, sym, ap, ◌∙◌, Bytes, List, [], ◌∷◌, Bool-cases, inl, inr, ◌==◌, ==_iff,
}
use sciforge.Cpp.{Result, ok, throw}
use sciforge.Binding.Python.{World, Python}
use sciforge.Binding.Keywords.{ArgSpec, KwSpec, SpecStore, register_func, register_spec}
use sciforge.Binding.Keywords.Claims.{claim_taken}
use sciforge.Binding.Class.Builder.{
  Building, BuilderCall, def_init, collect_call, builder_call, builder_calls, build_class,
  start_building, start_class,
}
use sciforge.Binding.Class.Builder.Registered.{builder_call_cases}
use sciforge.Binding.Module.{
  Importer, Statics, Session, Statement, def, def_kw, raw, wrap, throws, run_statement, run_body,
  go_on,
}
use sciforge.Binding.Module.Claimed.{Behind}

module _ (P : Python) (f : ℕ) where
  -- A spec of the import that runs.
  abbrev pub IsSettled : ℕ → KwSpec → SpecStore → Type 0
  IsSettled registration_epoch spec specs =
      (specs f ≡ spec) × (spec.epoch ≡ registration_epoch) × (registration_epoch ≢ 0)

  register_func-IsSettled :
      (registration_epoch func : ℕ) (name : Bytes) (args : List ArgSpec) (spec : KwSpec)
      (specs : SpecStore) (w : World)
      → IsSettled registration_epoch spec specs
      → (register_func P registration_epoch func name args specs w).0 f ≡ spec
  unfolding register_func register_spec
  register_func-IsSettled registration_epoch func name args spec specs w (is, of_import, started) =
      elim (Bool-cases (f == func)) [
        | inr other ↦ rw other is
        | inl same ↦
            let mine : specs func ≡ spec = ap specs (sym ((==_iff f func).0 same)) ∙ is in
            rw (same, mine, claim_taken registration_epoch name spec w of_import started) refl
      ]

  collect_call-IsSettled :
      (registration_epoch : ℕ) (c : BuilderCall) (spec : KwSpec) (b : Building)
      → IsSettled registration_epoch spec b.specs
      → (collect_call P registration_epoch c b).specs f ≡ spec
  unfolding collect_call
  collect_call-IsSettled registration_epoch (BuilderCall.def name) spec b h = h.0
  collect_call-IsSettled registration_epoch (BuilderCall.raw name flags) spec b h = h.0
  collect_call-IsSettled registration_epoch (BuilderCall.def_prop_ro name) spec b h = h.0
  collect_call-IsSettled registration_epoch BuilderCall.def_repr spec b h = h.0
  collect_call-IsSettled registration_epoch BuilderCall.def_richcompare spec b h = h.0
  collect_call-IsSettled registration_epoch BuilderCall.def_hash spec b h = h.0
  collect_call-IsSettled registration_epoch BuilderCall.init_once spec b h = h.0
  collect_call-IsSettled registration_epoch (def_init factory args) spec b h =
      register_func-IsSettled registration_epoch factory b.registry.class_name args spec b.specs
        b.world h

  pub builder_calls-IsSettled :
      (registration_epoch : ℕ) (calls : List BuilderCall) (spec : KwSpec) (b : Building)
      → IsSettled registration_epoch spec b.specs
      → (builder_calls P registration_epoch calls b).specs f ≡ spec
  unfolding builder_calls
  builder_calls-IsSettled registration_epoch [] spec b h = h.0
  builder_calls-IsSettled registration_epoch (c ∷ cs) spec b h =
      builder_calls-IsSettled registration_epoch cs spec (builder_call P registration_epoch c b) (
        (elim (builder_call_cases P registration_epoch c b) [
          | inl inert ↦ rw inert h.0
          | inr (fresh, called) ↦ rw called (collect_call-IsSettled registration_epoch c spec b h)
        ]),
        h.1,
        h.2,
      )

  module _ (I : Importer) (mod_object : ℕ) where
    abbrev pub Settles : KwSpec → ℕ → Statics → Type 0
    Settles spec registration_epoch st =
        IsSettled registration_epoch spec st.specs × (st.epoch ≡ registration_epoch)

    run_statement-Settles :
        (x : Statement) (spec : KwSpec) (registration_epoch : ℕ) (st : Statics) (w : World)
        → Settles spec registration_epoch st
        → Behind P I (Settles spec registration_epoch) (run_statement I P mod_object x (st, w))
    unfolding run_statement build_class
    run_statement-Settles (def name) spec registration_epoch st w h = h
    run_statement-Settles (raw name flags) spec registration_epoch st w h = h
    run_statement-Settles (throws e) spec registration_epoch st w h = tt
    run_statement-Settles (def_kw func name args) spec registration_epoch st w (h, same) = (
      (
        rw same (register_func-IsSettled registration_epoch func name args spec st.specs w h),
        h.1,
        h.2,
      ),
      same,
    )
    run_statement-Settles (wrap wrapped name calls) spec registration_epoch st w (h, same) =
        let start = start_building (start_class name (st.types wrapped)) st.specs w in
        ((rw same (builder_calls-IsSettled registration_epoch calls spec start h), h.1, h.2), same)

    go_on-Settles :
        (spec : KwSpec) (registration_epoch : ℕ) (one : Result (Unit {0}) × Session)
        (rest : Session → Result (Unit {0}) × Session)
        → Behind P I (Settles spec registration_epoch) one
        → ((st : Statics) (w : World)
            → Settles spec registration_epoch st
            → Behind P I (Settles spec registration_epoch) (rest (st, w)))
        → Behind P I (Settles spec registration_epoch) (go_on I P one rest)
    go_on-Settles spec registration_epoch (ok u, (st, w)) rest h k = k st w h
    go_on-Settles spec registration_epoch (throw e, s) rest h k = tt

    pub run_body-Settles :
        (body : List Statement) (spec : KwSpec) (registration_epoch : ℕ) (st : Statics) (w : World)
        → Settles spec registration_epoch st
        → Behind P I (Settles spec registration_epoch) (run_body I P mod_object body (st, w))
    unfolding run_body
    run_body-Settles [] spec registration_epoch st w h = h
    run_body-Settles (x ∷ xs) spec registration_epoch st w h =
        go_on-Settles spec registration_epoch (run_statement I P mod_object x (st, w))
          (run_body I P mod_object xs) (run_statement-Settles x spec registration_epoch st w h)
          λ st' v. run_body-Settles xs spec registration_epoch st' v
