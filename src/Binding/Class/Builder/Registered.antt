-- ===== src/Binding/Class/Builder/Registered.antt =====
-- What the builder of include/sciforge/binding/class.hpp leaves of a type's tables.
use sciforge.Base.{
  ℕ, ◌≡◌, refl, sym, ap, subst, ◌∙◌, Bytes, Bool, true, false, List, [], ◌∷◌, ◌++◌, append_assoc,
  append-nil, Option, none, some, Bool-cases, Option-cases, ◌⊎◌, inl, inr,
}
use sciforge.Binding.Python.{Ptr, World, Python}
use sciforge.Binding.Error.{attribute_name}
use sciforge.Binding.Keywords.{SpecStore}
use sciforge.Binding.Dispatch.{var_args, method, own, MethodDef}
use sciforge.Binding.Class.Builder.{
  GetSetDef, Building, start_building, Registry, Slots, BuilderCall, def, def_prop_ro, def_repr,
  def_richcompare, def_hash, init_once, raw, def_init, Slot, no_slots, is_registered, start_class,
  collect_call, builder_call, builder_calls, slots_of, finish_class, build_class, add_type,
  end_tables,
}

-- The entries that the member functions called should give the two tables.
abbrev pub method_entry : BuilderCall → List (Option MethodDef)
method_entry (def name) =
    some (record { ml_name = name; ml_meth = method; ml_flags = var_args }) ∷ []
method_entry (raw name flags) =
    some (record { ml_name = name; ml_meth = own; ml_flags = flags }) ∷ []
method_entry (def_prop_ro name) = []
method_entry def_repr = []
method_entry def_richcompare = []
method_entry def_hash = []
method_entry init_once = []
method_entry (def_init factory args) = []

abbrev pub getset_entry : BuilderCall → List (Option GetSetDef)
getset_entry (def name) = []
getset_entry (raw name flags) = []
getset_entry (def_prop_ro name) = some (record { gs_name = name; settable = false }) ∷ []
getset_entry def_repr = []
getset_entry def_richcompare = []
getset_entry def_hash = []
getset_entry init_once = []
getset_entry (def_init factory args) = []

abbrev pub entries :
    {A : Type 0} → (BuilderCall → List (Option A)) → List BuilderCall → List (Option A)
entries entry [] = []
entries entry (c ∷ cs) = entry c ++ entries entry cs

registered_of : (r : Registry) (type : ℕ) → r.class_type ≡ some type → is_registered r ≡ true
registered_of r type h = rw h refl

pub unregistered : (r : Registry) → r.class_type ≡ none → is_registered r ≡ false
unregistered r h = rw h refl

-- What one member function, or more of them, add to an unregistered type.
abbrev pub Adds : List (Option MethodDef) → List (Option GetSetDef) → Registry → Registry → Type 0
Adds methods getsets r r' =
    (r'.class_type ≡ r.class_type)
    × (r'.methods ≡ r.methods ++ methods)
    × (r'.getsets ≡ r.getsets ++ getsets)
    × (r'.class_name ≡ r.class_name)

Adds-nothing : (r : Registry) → Adds [] [] r r
Adds-nothing r = (refl, sym (append-nil r.methods), sym (append-nil r.getsets), refl)

module _ (P : Python) (registration_epoch : ℕ) where
  pub call_collected :
      (c : BuilderCall) (b : Building)
      → Adds
          (method_entry c)
          (getset_entry c)
          b.registry
          (collect_call P registration_epoch c b).registry
  unfolding collect_call
  call_collected (def name) b = (refl, refl, sym (append-nil b.registry.getsets), refl)
  call_collected (raw name flags) b = (refl, refl, sym (append-nil b.registry.getsets), refl)
  call_collected (def_prop_ro name) b = (refl, sym (append-nil b.registry.methods), refl, refl)
  call_collected def_repr b = Adds-nothing b.registry
  call_collected def_richcompare b = Adds-nothing b.registry
  call_collected def_hash b = Adds-nothing b.registry
  call_collected init_once b = Adds-nothing b.registry
  call_collected (def_init factory args) b = Adds-nothing b.registry

  pub call_fresh :
      (c : BuilderCall) (b : Building)
      → b.registry.class_type ≡ none
      → builder_call P registration_epoch c b ≡ collect_call P registration_epoch c b
  unfolding builder_call
  call_fresh c b h = simp (builder_call, unregistered b.registry h)

  -- A member function does nothing, or what it does of an unregistered type.
  pub builder_call_cases :
      (c : BuilderCall) (b : Building)
      → (builder_call P registration_epoch c b ≡ b)
        ⊎ ((b.registry.class_type ≡ none)
            × (builder_call P registration_epoch c b ≡ collect_call P registration_epoch c b))
  unfolding builder_call
  builder_call_cases c b = elim (Option-cases b.registry.class_type) [
    | inl n ↦ inr (n, call_fresh c b n)
    | inr (type, s) ↦ inl (simp (builder_call, registered_of b.registry type s))
  ]

  pub calls_inert :
      (calls : List BuilderCall) (b : Building)
      → is_registered b.registry ≡ true
      → builder_calls P registration_epoch calls b ≡ b
  unfolding builder_calls builder_call
  calls_inert [] b h = refl
  calls_inert (c ∷ cs) b h = rw h (calls_inert cs b h)

  pub calls_collected :
      (calls : List BuilderCall) (b : Building)
      → b.registry.class_type ≡ none
      → Adds
          (entries method_entry calls)
          (entries getset_entry calls)
          b.registry
          (builder_calls P registration_epoch calls b).registry
  unfolding builder_calls builder_call
  calls_collected [] b h = Adds-nothing b.registry
  calls_collected (c ∷ cs) b h =
      let one = call_collected c b in
      let rest = calls_collected cs (collect_call P registration_epoch c b) (one.0 ∙ h) in
      subst
        (λ b'.
          Adds (entries method_entry (c ∷ cs)) (entries getset_entry (c ∷ cs)) b.registry
            (builder_calls P registration_epoch cs b').registry)
        (sym (call_fresh c b h))
        (
          rest.0 ∙ one.0,
          rest.1
              ∙ ap (λ t. t ++ entries method_entry cs) one.1
              ∙ append_assoc b.registry.methods (method_entry c) (entries method_entry cs),
          rest.2
              ∙ ap (λ t. t ++ entries getset_entry cs) one.2
              ∙ append_assoc b.registry.getsets (getset_entry c) (entries getset_entry cs),
          rest.3 ∙ one.3,
        )

module _ (type_from_spec : Bytes → Bool → List Slot → World → Ptr × World)
    (add_object_ref : Bytes → ℕ → World → Bool × World) (methods_fit getsets_fit : Bool) where
  finish_inert :
      (s : Slots) (r : Registry) (w : World) (type : ℕ)
      → r.class_type ≡ some type
      → (finish_class type_from_spec add_object_ref methods_fit getsets_fit s r w).0 ≡ r
  unfolding finish_class
  finish_inert s r w type h = simp (finish_class, h)

  -- Registering a type again, under any name and with any member functions called, changes nothing of
  -- what is registered: not the tables that the type points into, not its name or its type object, and
  -- not the keyword spec of any factory.
  pub build_class_again :
      (P : Python) (registration_epoch : ℕ) (qualified_name : Bytes) (calls : List BuilderCall)
      (r : Registry) (specs : SpecStore) (w : World) (type : ℕ)
      → r.class_type ≡ some type
      → let (r', specs', w') =
          build_class type_from_spec add_object_ref methods_fit getsets_fit P registration_epoch
            qualified_name calls r specs w in
        (r' ≡ r) × (specs' ≡ specs)
  unfolding build_class start_class
  build_class_again P registration_epoch qualified_name calls r specs w type h =
      let registered = registered_of r type h in
      let start = start_building r specs w in
      rw (registered, calls_inert P registration_epoch calls start registered)
        (finish_inert no_slots r w type h, refl)

  -- How registering a type that is not registered yet may end: with the type object that was made, or
  -- with none; the tables hold the entries in the order of the calls, and then the NULL that ends each.
  abbrev pub Built : Bytes → List BuilderCall → Registry → Type 0
  Built qualified_name calls r' =
      (r'.class_name ≡ qualified_name)
      × (r'.methods ≡ entries method_entry calls ++ none ∷ [])
      × (r'.getsets ≡ entries getset_entry calls ++ none ∷ [])

  abbrev KeepsTables : Registry → Registry → Type 0
  KeepsTables r r' =
      (r'.class_name ≡ r.class_name) × (r'.methods ≡ r.methods) × (r'.getsets ≡ r.getsets)

  add_type-KeepsTables :
      (r : Registry) (made : Ptr × World)
      → KeepsTables r (add_type type_from_spec add_object_ref methods_fit getsets_fit r made).0
  add_type-KeepsTables r (none, w) = (refl, refl, refl)
  add_type-KeepsTables r (some type, w) =
      elim (Bool-cases (add_object_ref (attribute_name r.class_name) type w).0) [
        | inl failed ↦ rw failed (refl, refl, refl)
        | inr added ↦ rw added (refl, refl, refl)
      ]

  finish_fresh :
      (s : Slots) (r : Registry) (w : World)
      → r.class_type ≡ none
      → methods_fit ≡ true
      → getsets_fit ≡ true
      → finish_class type_from_spec add_object_ref methods_fit getsets_fit s r w
        ≡ add_type type_from_spec add_object_ref methods_fit getsets_fit
            (end_tables type_from_spec add_object_ref methods_fit getsets_fit r)
            (type_from_spec r.class_name s.init (slots_of s) w)
  unfolding finish_class
  finish_fresh s r w h m g = simp (finish_class, h, m, g)

  start_fresh :
      (qualified_name : Bytes) (r : Registry)
      → r.class_type ≡ none
      → start_class qualified_name r
        ≡ record r { class_name = qualified_name; methods = []; getsets = [] }
  unfolding start_class
  start_fresh qualified_name r h = simp (start_class, unregistered r h)

  finish_built :
      (s : Slots) (r : Registry) (w : World)
      → r.class_type ≡ none
      → methods_fit ≡ true
      → getsets_fit ≡ true
      → KeepsTables
          (end_tables type_from_spec add_object_ref methods_fit getsets_fit r)
          (finish_class type_from_spec add_object_ref methods_fit getsets_fit s r w).0
  unfolding finish_class
  finish_built s r w h m g =
      subst
        (λ f. KeepsTables (end_tables type_from_spec add_object_ref methods_fit getsets_fit r) f.0)
        (sym (finish_fresh s r w h m g))
        (add_type-KeepsTables (end_tables type_from_spec add_object_ref methods_fit getsets_fit r)
          (type_from_spec r.class_name s.init (slots_of s) w))

  -- A type that is not registered yet gets the tables that its builder's calls ask for: every def and
  -- raw one entry of the method table, in order, every def_prop_ro one of the other, each table
  -- ended by its NULL, whether or not the type can then be made -- where memory for the two NULLs
  -- is there. A def is called with a tuple, a raw one as its flags say, and a property has no setter.
  pub build_class-Built :
      (P : Python) (registration_epoch : ℕ) (qualified_name : Bytes) (calls : List BuilderCall)
      (r : Registry) (specs : SpecStore) (w : World)
      → r.class_type ≡ none
      → methods_fit ≡ true
      → getsets_fit ≡ true
      → Built qualified_name calls
          (build_class type_from_spec add_object_ref methods_fit getsets_fit P registration_epoch
            qualified_name calls r specs w).0
  unfolding build_class start_class
  build_class-Built P registration_epoch qualified_name calls r specs w h m g =
      let fresh = record r { class_name = qualified_name; methods = []; getsets = [] } in
      let start = start_building fresh specs w in
      let b = builder_calls P registration_epoch calls start in
      let collected = calls_collected P registration_epoch calls start h in
      let built = finish_built b.slots b.registry b.world (collected.0 ∙ h) m g in
      rw (start_fresh qualified_name r h) (
        built.0 ∙ collected.3,
        built.1 ∙ ap (λ t. t ++ none ∷ []) collected.1,
        built.2 ∙ ap (λ t. t ++ none ∷ []) collected.2,
      )
