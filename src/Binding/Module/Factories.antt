-- ===== src/Binding/Module/Factories.antt =====
-- The references that the builder's calls of a module's body (include/sciforge/binding/module.hpp) take
-- and give up: the defaults of the factories.
use sciforge.Base.{ℕ, ◌<◌, ◌≡◌, refl, ◌∙◌, List, [], ◌∷◌, All, inl, inr}
use sciforge.Binding.Python.{Python}
use sciforge.Binding.Keywords.Claims.{MakesDefaults}
use sciforge.Binding.Class.Builder.{
  Building, BuilderCall, def_init, collect_call, builder_call, builder_calls,
}
use sciforge.Binding.Class.Builder.Registered.{builder_call_cases, call_collected}
use sciforge.Binding.Module.Ledger.{spec_refs, Owns, register_func-Owns}

-- The factory of a call is among the first `funcs` functions.
abbrev pub FactoryWithin : ℕ → BuilderCall → Type 0
FactoryWithin funcs (def_init factory args) = factory < funcs
FactoryWithin funcs (BuilderCall.def name) = Unit
FactoryWithin funcs (BuilderCall.raw name flags) = Unit
FactoryWithin funcs (BuilderCall.def_prop_ro name) = Unit
FactoryWithin funcs BuilderCall.def_repr = Unit
FactoryWithin funcs BuilderCall.def_richcompare = Unit
FactoryWithin funcs BuilderCall.def_hash = Unit
FactoryWithin funcs BuilderCall.init_once = Unit

module _ (P : Python) (makes : MakesDefaults P) (funcs : ℕ) (registration_epoch : ℕ) where
  collect_call-Owns :
      (base : ℕ → ℕ) (c : BuilderCall) (b : Building)
      → FactoryWithin funcs c
      → Owns base (spec_refs funcs b.specs) b.world
      → let b' = collect_call P registration_epoch c b in
        Owns base (spec_refs funcs b'.specs) b'.world
  unfolding collect_call
  collect_call-Owns base (BuilderCall.def name) b h owns = owns
  collect_call-Owns base (BuilderCall.raw name flags) b h owns = owns
  collect_call-Owns base (BuilderCall.def_prop_ro name) b h owns = owns
  collect_call-Owns base BuilderCall.def_repr b h owns = owns
  collect_call-Owns base BuilderCall.def_richcompare b h owns = owns
  collect_call-Owns base BuilderCall.def_hash b h owns = owns
  collect_call-Owns base BuilderCall.init_once b h owns = owns
  collect_call-Owns base (def_init factory args) b h owns =
      register_func-Owns P makes funcs base registration_epoch factory b.registry.class_name args
        b.specs b.world h owns

  -- The builder's calls keep what the specs own, and the type object.
  abbrev CallsKeep : (ℕ → ℕ) → Building → Building → Type 0
  CallsKeep base b b' =
      Owns base (spec_refs funcs b'.specs) b'.world
      × (b'.registry.class_type ≡ b.registry.class_type)

  builder_call-Owns :
      (base : ℕ → ℕ) (c : BuilderCall) (b : Building)
      → FactoryWithin funcs c
      → Owns base (spec_refs funcs b.specs) b.world
      → CallsKeep base b (builder_call P registration_epoch c b)
  builder_call-Owns base c b h owns = elim (builder_call_cases P registration_epoch c b) [
    | inl inert ↦ rw inert (owns, refl)
    | inr (fresh, called) ↦
        rw called (collect_call-Owns base c b h owns, (call_collected P registration_epoch c b).0)
  ]

  pub builder_calls-Owns :
      (base : ℕ → ℕ) (calls : List BuilderCall) (b : Building)
      → All (FactoryWithin funcs) calls
      → Owns base (spec_refs funcs b.specs) b.world
      → CallsKeep base b (builder_calls P registration_epoch calls b)
  unfolding builder_calls
  builder_calls-Owns base [] b h owns = (owns, refl)
  builder_calls-Owns base (c ∷ cs) b h owns =
      let one = builder_call-Owns base c b h.0 owns in
      let rest = builder_calls-Owns base cs (builder_call P registration_epoch c b) h.1 one.0 in
      (rest.0, rest.1 ∙ one.1)
