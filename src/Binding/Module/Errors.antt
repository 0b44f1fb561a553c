-- ===== src/Binding/Module/Errors.antt =====
-- What an import of include/sciforge/binding/module.hpp does with Python's error indicator.
use sciforge.Base.{
  ap, ℕ, ◌≡◌, ◌⊎◌, refl, Bytes, Bool, true, false, List, [], ◌∷◌, Option, none, some, Bool-cases,
  Option-cases, inl, inr,
}
use sciforge.Cpp.{Result, ok, throw}
use sciforge.Binding.Python.{Ptr, PyError, World, Python, MakesObject, set_error}
use sciforge.Binding.Error.{register_error, attribute_name}
use sciforge.Binding.Convert.Containers.{release-head}
use sciforge.Binding.Keywords.{SpecStore, register_func}
use sciforge.Binding.Keywords.Claims.{MakesDefaults}
use sciforge.Binding.Class.Builder.{
  Registry, Slots, Building, BuilderCall, def_init, Slot, collect_call, builder_call, builder_calls,
  finish_class, add_type, create_type, build_class, start_building, start_class, slots_of,
}
use sciforge.Binding.Class.Builder.Registered.{builder_call_cases}
use sciforge.Binding.Dispatch.{MethodDef}
use sciforge.Binding.Module.{
  declare_no_gil, Importer, Statics, Session, Statement, def, def_kw, raw, wrap, throws,
  run_statement, run_body, go_on, build_type,
}
use sciforge.Binding.Module.Defaults.{ErrorStays, register_spec-ErrorStays}

-- What CPython documents of a call that answers whether it failed: it changes nothing that the import
-- sees, or it sets an error.
abbrev pub AnswersFailure : (World → Bool × World) → Type 0
AnswersFailure f =
    (w : World) → (f w ≡ (false, w)) ⊎ ((e : PyError) × (f w ≡ (true, set_error e w)))

abbrev pub SetsGil : Option (ℕ → World → Bool × World) → Type 0
SetsGil none = Unit
SetsGil (some set) = (mod_object : ℕ) → AnswersFailure (set mod_object)

pub record IsDocumented (I : Importer) : Type 0 where
  pub creates : MakesObject I.module_create
  pub sets_gil : SetsGil I.set_gil
  pub excepts : (name : Bytes) (base : Ptr) → MakesObject (I.new_exception name base)
  pub adds :
      (mod_object : ℕ) (name : Bytes) (o : ℕ) → AnswersFailure (I.add_object_ref mod_object name o)
  pub types :
      (name : Bytes) (b : Bool) (slots : List Slot) → MakesObject (I.type_from_spec name b slots)
  pub lists :
      (mod_object : ℕ) (table : List (Option MethodDef))
      → AnswersFailure (I.add_functions mod_object table)

answers-ErrorStays :
    (f : World → Bool × World) (w : World) → AnswersFailure f → ErrorStays w (f w).1
answers-ErrorStays f w a h = elim (a w) [ inl fine ↦ rw fine h | inr (e, failed) ↦ rw failed cc ]

module _ (P : Python) (makes : MakesDefaults P) where
  collect_call-ErrorStays :
      (registration_epoch : ℕ) (c : BuilderCall) (b : Building)
      → ErrorStays b.world (collect_call P registration_epoch c b).world
  unfolding collect_call register_func
  collect_call-ErrorStays registration_epoch (BuilderCall.def name) b h = h
  collect_call-ErrorStays registration_epoch (BuilderCall.raw name flags) b h = h
  collect_call-ErrorStays registration_epoch (BuilderCall.def_prop_ro name) b h = h
  collect_call-ErrorStays registration_epoch BuilderCall.def_repr b h = h
  collect_call-ErrorStays registration_epoch BuilderCall.def_richcompare b h = h
  collect_call-ErrorStays registration_epoch BuilderCall.def_hash b h = h
  collect_call-ErrorStays registration_epoch BuilderCall.init_once b h = h
  collect_call-ErrorStays registration_epoch (def_init factory args) b h =
      register_spec-ErrorStays P makes registration_epoch b.registry.class_name args
        (b.specs factory) b.world h

  builder_call-ErrorStays :
      (registration_epoch : ℕ) (c : BuilderCall) (b : Building)
      → ErrorStays b.world (builder_call P registration_epoch c b).world
  builder_call-ErrorStays registration_epoch c b h =
      elim (builder_call_cases P registration_epoch c b) [
        | inl inert ↦ rw inert h
        | inr (fresh, called) ↦ rw called (collect_call-ErrorStays registration_epoch c b h)
      ]

  pub builder_calls-ErrorStays :
      (registration_epoch : ℕ) (calls : List BuilderCall) (b : Building)
      → ErrorStays b.world (builder_calls P registration_epoch calls b).world
  unfolding builder_calls
  builder_calls-ErrorStays registration_epoch [] b h = h
  builder_calls-ErrorStays registration_epoch (c ∷ cs) b h =
      builder_calls-ErrorStays registration_epoch cs (builder_call P registration_epoch c b)
        (builder_call-ErrorStays registration_epoch c b h)

module _ (I : Importer) (documented : IsDocumented I) (P : Python) (makes : MakesDefaults P) where
  abbrev finish_type : ℕ → Building → Registry × World
  finish_type mod_object b =
      finish_class I.type_from_spec (I.add_object_ref mod_object) I.methods_fit I.getsets_fit
        b.slots b.registry b.world

  add_type-ErrorStays :
      (mod_object : ℕ) (r : Registry) (made : Ptr × World) (w : World)
      → ErrorStays w made.1
      → ErrorStays w
          (add_type I.type_from_spec
            (I.add_object_ref mod_object)
            I.methods_fit
            I.getsets_fit
            r
            made).1
  add_type-ErrorStays mod_object r (none, v) w k h = k h
  add_type-ErrorStays mod_object r (some type, v) w k h =
      elim (documented.adds mod_object (attribute_name r.class_name) type v) [
        | inl fine ↦ rw fine (k h)
        | inr (e, failed) ↦ rw failed cc
      ]

  type_from_spec-ErrorStays :
      (name : Bytes) (b : Bool) (slots : List Slot) (w : World)
      → ErrorStays w (I.type_from_spec name b slots w).1
  type_from_spec-ErrorStays name b slots w h = elim (documented.types name b slots w) [
    | inl (o, made) ↦ rw made h
    | inr (e, failed) ↦ rw failed cc
  ]

  create_type-ErrorStays :
      (mod_object : ℕ) (s : Slots) (r : Registry) (w : World)
      → ErrorStays w
          (create_type I.type_from_spec
            (I.add_object_ref mod_object)
            I.methods_fit
            I.getsets_fit
            s
            r
            w).1
  create_type-ErrorStays mod_object s r w h = elim (Bool-cases I.methods_fit) [
    | inr small ↦ rw small cc
    | inl fits ↦ elim (Bool-cases I.getsets_fit) [
      | inr small ↦ rw (fits, small) cc
      | inl both ↦
          rw (fits, both)
            (add_type-ErrorStays mod_object _ (I.type_from_spec r.class_name s.init (slots_of s) w)
              w (type_from_spec-ErrorStays r.class_name s.init (slots_of s) w) h)
    ]
  ]

  pub finish_class-ErrorStays :
      (mod_object : ℕ) (b : Building) → ErrorStays b.world (finish_type mod_object b).1
  unfolding finish_class
  finish_class-ErrorStays mod_object b h = elim (Option-cases b.registry.class_type) [
    | inl n ↦ rw (finish_class, n) (create_type-ErrorStays mod_object b.slots b.registry b.world h)
    | inr (type, s) ↦
        rw (finish_class, s)
          (answers-ErrorStays
            (I.add_object_ref mod_object (attribute_name b.registry.class_name) type) b.world
            (documented.adds mod_object (attribute_name b.registry.class_name) type) h)
  ]

  build_type-ErrorStays :
      (mod_object registration_epoch : ℕ) (name : Bytes) (calls : List BuilderCall) (r : Registry)
      (specs : SpecStore) (w : World)
      → ErrorStays w (build_type I P mod_object registration_epoch name calls r specs w).2
  unfolding build_class
  build_type-ErrorStays mod_object registration_epoch name calls r specs w h =
      let start = start_building (start_class name r) specs w in
      finish_class-ErrorStays mod_object (builder_calls P registration_epoch calls start)
        (builder_calls-ErrorStays P makes registration_epoch calls start h)

  run_statement-ErrorStays :
      (mod_object : ℕ) (x : Statement) (st : Statics) (w : World)
      → ErrorStays w (run_statement I P mod_object x (st, w)).1.1
  unfolding run_statement register_func
  run_statement-ErrorStays mod_object (def name) st w h = h
  run_statement-ErrorStays mod_object (raw name flags) st w h = h
  run_statement-ErrorStays mod_object (def_kw func name args) st w h =
      register_spec-ErrorStays P makes st.epoch name args (st.specs func) w h
  run_statement-ErrorStays mod_object (wrap wrapped name calls) st w h =
      build_type-ErrorStays mod_object st.epoch name calls (st.types wrapped) st.specs w h
  run_statement-ErrorStays mod_object (throws e) st w h = h

  go_on-ErrorStays :
      (one : Result (Unit {0}) × Session) (rest : Session → Result (Unit {0}) × Session) (w : World)
      → ErrorStays w one.1.1
      → ((st : Statics) (v : World) → ErrorStays v (rest (st, v)).1.1)
      → ErrorStays w (go_on I P one rest).1.1
  go_on-ErrorStays (ok u, (st, v)) rest w k ks h = ks st v (k h)
  go_on-ErrorStays (throw e, (st, v)) rest w k ks h = k h

  -- An error that a statement sets stays, whatever the later ones do.
  pub run_body-ErrorStays :
      (mod_object : ℕ) (body : List Statement) (st : Statics) (w : World)
      → ErrorStays w (run_body I P mod_object body (st, w)).1.1
  unfolding run_body
  run_body-ErrorStays mod_object [] st w h = h
  run_body-ErrorStays mod_object (x ∷ xs) st w h =
      go_on-ErrorStays (run_statement I P mod_object x (st, w)) (run_body I P mod_object xs) w
        (run_statement-ErrorStays mod_object x st w) (run_body-ErrorStays mod_object xs) h

-- What the declaration of a module without the GIL leaves: nothing has changed, or an error is set.
abbrev pub Declared : World → World → Type 0
Declared w v = (v ≡ w) ⊎ ((e : PyError) × (v ≡ set_error e w))

pub Declared-owned : (w v : World) → Declared w v → v.owned ≡ w.owned
Declared-owned w v (inl same) = ap (λ u. u.owned) same
Declared-owned w v (inr (e, set)) = ap (λ u. u.owned) set

module _ (I : Importer) (documented : IsDocumented I) where
  -- How registering the module's error type may end.
  pub register_error_cases :
      (mod_object : ℕ) (name : Bytes) (base : Ptr) (w : World)
      → ((err : ℕ) × (register_error I.new_exception I.add_object_ref mod_object name base w
            ≡ (some err, record w { owned = err ∷ w.owned })))
        ⊎ ((e : PyError) × (register_error I.new_exception I.add_object_ref mod_object name base w
              ≡ (none, set_error e w)))
  unfolding register_error
  register_error_cases mod_object name base w = elim (documented.excepts name base w) [
    | inr (e, failed) ↦ inr (e, rw failed refl)
    | inl (err, made) ↦
        elim (documented.adds mod_object (attribute_name name) err
          (record w { owned = err ∷ w.owned })) [
            | inl fine ↦ inl (err, rw (made, fine) refl)
            | inr (e, refused) ↦ inr (e, rw (made, refused, release-head err w.owned) refl)
          ]
  ]

  pub declare_no_gil-Declared :
      (P : Python) (mod_object : ℕ) (w : World) → Declared w (declare_no_gil I P mod_object w)
  unfolding declare_no_gil
  declare_no_gil-Declared P mod_object w = declared I.set_gil documented.sets_gil
    where
      declared :
          (set : Option (ℕ → World → Bool × World))
          → SetsGil set
          → Declared w (elim set [ none ↦ w | some f ↦ (f mod_object w).1 ])
      declared none h = inl refl
      declared (some f) h = elim (h mod_object w) [
        | inl fine ↦ inl (ap (λ r. r.1) fine)
        | inr (e, failed) ↦ inr (e, ap (λ r. r.1) failed)
      ]
