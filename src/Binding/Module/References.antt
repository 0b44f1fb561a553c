-- ===== src/Binding/Module/References.antt =====
-- No reference leaks over an import of include/sciforge/binding/module.hpp, and none is given up twice.
use sciforge.Base.{ℕ, ◌+◌, ◌-◌, ◌<◌, ap, ◌∙◌, Bytes, List, [], ◌∷◌, arith, All}
use sciforge.Cpp.{Result, ok, throw}
use sciforge.Binding.Python.{World, Python}
use sciforge.Binding.Keywords.{SpecStore, register_func}
use sciforge.Binding.Keywords.Claims.{MakesDefaults, count_ptrs}
use sciforge.Binding.Class.Builder.{
  Registry, BuilderCall, builder_calls, build_class, start_building, start_class,
}
use sciforge.Binding.Module.{
  Importer, Statics, Session, Statement, def, def_kw, raw, wrap, throws, run_statement, run_body,
  go_on, build_type,
}
use sciforge.Binding.Module.Errors.{IsDocumented}
use sciforge.Binding.Module.Ledger.{
  spec_refs, type_refs, class_refs, held_refs, Owns, register_func-Owns, sum_below-replace,
  le-sum_below,
}
use sciforge.Binding.Module.Factories.{FactoryWithin, builder_calls-Owns}
use sciforge.Binding.Module.Types.{finish_class-MovesRefs, start_class-class_type}

-- The functions and classes of a statement are among the first `funcs` and `wrappeds`.
abbrev pub IsWithin : ℕ → ℕ → Statement → Type 0
IsWithin funcs wrappeds (def name) = Unit
IsWithin funcs wrappeds (raw name flags) = Unit
IsWithin funcs wrappeds (def_kw func name args) = func < funcs
IsWithin funcs wrappeds (wrap wrapped name calls) =
    (wrapped < wrappeds) × All (FactoryWithin funcs) calls
IsWithin funcs wrappeds (throws e) = Unit

-- The statics and the interpreter that a session is left in.
abbrev pub SessionOwns : ℕ → ℕ → (ℕ → ℕ) → Session → Type 0
SessionOwns funcs wrappeds base (st, w) = Owns base (held_refs funcs wrappeds st) w

module _ (I : Importer) (documented : IsDocumented I) (P : Python) (makes : MakesDefaults P)
    (funcs wrappeds : ℕ) where
  build_type-Owns :
      (base : ℕ → ℕ) (mod_object registration_epoch : ℕ) (name : Bytes) (calls : List BuilderCall)
      (r : Registry) (specs : SpecStore) (w : World)
      → All (FactoryWithin funcs) calls
      → Owns base (λ o. spec_refs funcs specs o + type_refs r o) w
      → let (r', specs', w') = build_type I P mod_object registration_epoch name calls r specs w in
        Owns base (λ o. spec_refs funcs specs' o + type_refs r' o) w'
  unfolding build_class
  build_type-Owns base mod_object registration_epoch name calls r specs w h owns o =
      let start = start_building (start_class name r) specs w in
      let b = builder_calls P registration_epoch calls start in
      let called =
        builder_calls-Owns P makes funcs registration_epoch (λ p. base p + type_refs r p) calls
          start h (λ p. omega (arith, owns p)) in
      let same = ap (λ t. count_ptrs o (t ∷ [])) (called.1 ∙ start_class-class_type name r) in
      omega (
        arith,
        called.0 o,
        same,
        finish_class-MovesRefs I documented mod_object b.slots b.registry b.world o,
      )

  run_statement-Owns :
      (base : ℕ → ℕ) (mod_object : ℕ) (x : Statement) (st : Statics) (w : World)
      → IsWithin funcs wrappeds x
      → SessionOwns funcs wrappeds base (st, w)
      → SessionOwns funcs wrappeds base (run_statement I P mod_object x (st, w)).1
  unfolding run_statement register_func
  run_statement-Owns base mod_object (def name) st w h owns = owns
  run_statement-Owns base mod_object (raw name flags) st w h owns = owns
  run_statement-Owns base mod_object (throws e) st w h owns = owns
  run_statement-Owns base mod_object (def_kw func name args) st w h owns = λ o.
      let rest = λ (p : ℕ). class_refs wrappeds st.types p + count_ptrs p (st.error_storage ∷ []) in
      omega (
        arith,
        register_func-Owns P makes funcs (λ p. base p + rest p) st.epoch func name args st.specs w h
            (λ p. omega (arith, owns p)) o,
      )
  run_statement-Owns base mod_object (wrap wrapped name calls) st w h owns = λ o.
      let r = st.types wrapped in
      let built = build_type I P mod_object st.epoch name calls r st.specs w in
      let member = λ (p : ℕ). le-sum_below wrappeds wrapped (λ i. type_refs (st.types i) p) h.0 in
      let rest = λ (p : ℕ).
        (class_refs wrappeds st.types p - type_refs r p) + count_ptrs p (st.error_storage ∷ []) in
      omega (
        arith,
        build_type-Owns (λ p. base p + rest p) mod_object st.epoch name calls r st.specs w h.1
            (λ p. omega (arith, owns p, member p)) o,
        member o,
        sum_below-replace (λ (t : Registry). type_refs t o) wrappeds wrapped built.0 st.types h.0,
      )

  go_on-Owns :
      (base : ℕ → ℕ) (one : Result (Unit {0}) × Session)
      (rest : Session → Result (Unit {0}) × Session)
      → SessionOwns funcs wrappeds base one.1
      → ((st : Statics) (v : World)
          → SessionOwns funcs wrappeds base (st, v)
          → SessionOwns funcs wrappeds base (rest (st, v)).1)
      → SessionOwns funcs wrappeds base (go_on I P one rest).1
  go_on-Owns base (ok u, (st, v)) rest k ks = ks st v k
  go_on-Owns base (throw e, (st, v)) rest k ks = k

  pub run_body-Owns :
      (base : ℕ → ℕ) (mod_object : ℕ) (body : List Statement) (st : Statics) (w : World)
      → All (IsWithin funcs wrappeds) body
      → SessionOwns funcs wrappeds base (st, w)
      → SessionOwns funcs wrappeds base (run_body I P mod_object body (st, w)).1
  unfolding run_body
  run_body-Owns base mod_object [] st w h owns = owns
  run_body-Owns base mod_object (x ∷ xs) st w h owns =
      go_on-Owns base (run_statement I P mod_object x (st, w)) (run_body I P mod_object xs)
        (run_statement-Owns base mod_object x st w h.0 owns)
        λ st' v. run_body-Owns base mod_object xs st' v h.1
