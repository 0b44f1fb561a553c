-- ===== src/Binding/Module/Complete.antt =====
-- A module that an import of include/sciforge/binding/module.hpp gives back has all that its body asks for.
use sciforge.Base.{
  ℕ, ◌≡◌, ◌≢◌, refl, sym, ap, ◌∙◌, Bytes, List, [], ◌∷◌, none, some, All, Bool-cases, Option-cases,
  inl, inr, ◌==◌, ==_iff, ==_refl,
}
use sciforge.Cpp.{Result, ok, throw}
use sciforge.Binding.Python.{Ptr, World, Python}
use sciforge.Binding.Error.{attribute_name}
use sciforge.Binding.Keywords.Claims.{MakesDefaults}
use sciforge.Binding.Class.Builder.{
  BuilderCall, Registry, Slots, slots_of, build_class, finish_class, create_type, builder_calls,
  start_building, start_class,
}
use sciforge.Binding.Class.Builder.Registered.{build_class_again}
use sciforge.Binding.Module.{
  Importer, Statics, Session, Statement, def, def_kw, raw, wrap, throws, run_statement, run_body,
  go_on,
}
use sciforge.Binding.Module.Defaults.{ErrorStays}
use sciforge.Binding.Module.Errors.{IsDocumented, run_body-ErrorStays}
use sciforge.Binding.Module.Claimed.{
  IsClaimed, Behind, register_func-claims, run_statement-IsClaimed, run_statement-epoch,
}

-- What a statement asks for is there: a keyword function's spec is of this import, and a class has its
-- type object.
abbrev pub IsRegistered : Statics → Statement → Type 0
IsRegistered st (def name) = Unit
IsRegistered st (raw name flags) = Unit
IsRegistered st (def_kw func name args) = IsClaimed func st
IsRegistered st (wrap wrapped name calls) = (st.types wrapped).class_type ≢ none
IsRegistered st (throws e) = Unit

-- What holds behind a body that has neither thrown nor left an error set.
abbrev pub Completes : List Statement → Result (Unit {0}) × Session → Type 0
Completes body (throw e, s) = Unit
Completes body (ok u, (st, w)) = w.error ≡ none → All (IsRegistered st) body

module _ (I : Importer) (documented : IsDocumented I) where
  -- The type object is there, or an error is set.
  abbrev Makes : Registry × World → Type 0
  Makes (r, w) = w.error ≡ none → r.class_type ≢ none

  create_type-Makes :
      (mod_object : ℕ) (s : Slots) (r : Registry) (w : World)
      → Makes (
          create_type I.type_from_spec
            (I.add_object_ref mod_object)
            I.methods_fit
            I.getsets_fit
            s
            r
            w)
  create_type-Makes mod_object s r w = elim (Bool-cases I.methods_fit) [
    | inr small ↦ rw small λ e. cc
    | inl fits ↦ elim (Bool-cases I.getsets_fit) [
      | inr small ↦ rw (fits, small) λ e. cc
      | inl both ↦
          rw (fits, both)
            (elim (documented.types r.class_name s.init (slots_of s) w) [
              | inr (e, none_made) ↦ rw none_made λ n. cc
              | inl (type, made) ↦
                  rw made
                    (elim (documented.adds mod_object (attribute_name r.class_name) type
                      (record w { owned = type ∷ w.owned })) [
                        | inl fine ↦ rw fine λ e n. cc
                        | inr (e, failed) ↦ rw failed λ n. cc
                      ])
            ])
    ]
  ]

  finish_class-Makes :
      (mod_object : ℕ) (s : Slots) (r : Registry) (w : World)
      → Makes (
          finish_class I.type_from_spec
            (I.add_object_ref mod_object)
            I.methods_fit
            I.getsets_fit
            s
            r
            w)
  unfolding finish_class
  finish_class-Makes mod_object s r w = go r.class_type refl
    where
      go :
          (t : Ptr)
          → r.class_type ≡ t
          → Makes (
              finish_class I.type_from_spec
                (I.add_object_ref mod_object)
                I.methods_fit
                I.getsets_fit
                s
                r
                w)
      go none n = rw (finish_class, n) (create_type-Makes mod_object s r w)
      go (some type) h = rw (finish_class, h) λ e n. cc

module _ (I : Importer) (documented : IsDocumented I) (P : Python) (makes : MakesDefaults P)
    (mod_object : ℕ) where
  -- What a statement asks for is there behind it, where no error is set.
  abbrev Registers : Statement → Result (Unit {0}) × Session → Type 0
  Registers x (throw e, s) = Unit
  Registers x (ok u, (st, w)) = w.error ≡ none → IsRegistered st x

  run_statement-Registers :
      (x : Statement) (st : Statics) (w : World)
      → Registers x (run_statement I P mod_object x (st, w))
  unfolding run_statement build_class
  run_statement-Registers (def name) st w = λ e. tt
  run_statement-Registers (raw name flags) st w = λ e. tt
  run_statement-Registers (throws x) st w = tt
  run_statement-Registers (def_kw func name args) st w =
      λ e. register_func-claims P st.epoch func name args st.specs w
  run_statement-Registers (wrap wrapped name calls) st w =
      let b =
        builder_calls P st.epoch calls
          (start_building (start_class name (st.types wrapped)) st.specs w) in
      rw ==_refl (finish_class-Makes I documented mod_object b.slots b.registry b.world)

  types-keep :
      (k wrapped : ℕ) (name : Bytes) (calls : List BuilderCall) (st : Statics) (w : World)
      → (st.types k).class_type ≢ none
      → ((run_statement I P mod_object (wrap wrapped name calls) (st, w)).1.0.types k).class_type
        ≢ none
  unfolding run_statement
  types-keep k wrapped name calls st w h = elim (Bool-cases (k == wrapped)) [
    | inr other ↦ rw other h
    | inl same ↦ elim (Option-cases (st.types k).class_type) [
      | inl n ↦ absurd (h n)
      | inr (type, s) ↦
          let here : (st.types wrapped).class_type ≡ some type =
            ap (λ i. (st.types i).class_type) (sym ((==_iff k wrapped).0 same)) ∙ s in
          let again =
            build_class_again I.type_from_spec (I.add_object_ref mod_object) I.methods_fit
              I.getsets_fit P st.epoch name calls (st.types wrapped) st.specs w type here in
          rw (same, again.0, here) λ n. cc
    ]
  ]

  Behind-map :
      (Q R : Statics → Type 0) (one : Result (Unit {0}) × Session)
      → ((st : Statics) → Q st → R st)
      → Behind P I Q one
      → Behind P I R one
  Behind-map Q R (ok u, (st, w)) f h = f st h
  Behind-map Q R (throw e, s) f h = tt

  wrap-IsRegistered :
      (k : ℕ) (x : Statement) (st : Statics) (w : World)
      → (st.types k).class_type ≢ none
      → Behind P I (λ st'. (st'.types k).class_type ≢ none) (run_statement I P mod_object x (st, w))
  unfolding run_statement
  wrap-IsRegistered k (def name) st w h = h
  wrap-IsRegistered k (raw name flags) st w h = h
  wrap-IsRegistered k (def_kw func name args) st w h = h
  wrap-IsRegistered k (wrap wrapped name calls) st w h = types-keep k wrapped name calls st w h
  wrap-IsRegistered k (throws e) st w h = tt

  -- What a statement has asked for stays there, whatever the next one does.
  run_statement-IsRegistered :
      (y x : Statement) (st : Statics) (w : World)
      → IsRegistered st y
      → Behind P I (λ st'. IsRegistered st' y) (run_statement I P mod_object x (st, w))
  run_statement-IsRegistered (def_kw func name args) x st w h =
      Behind-map _ _ (run_statement I P mod_object x (st, w)) (λ st' kept. kept.0)
        (run_statement-IsClaimed P I mod_object func x st w h)
  run_statement-IsRegistered (wrap wrapped name calls) x st w h = wrap-IsRegistered wrapped x st w h
  run_statement-IsRegistered (def name) x st w h =
      Behind-map _ _ (run_statement I P mod_object x (st, w)) (λ st' same. tt)
        (run_statement-epoch P I mod_object x st w)
  run_statement-IsRegistered (raw name flags) x st w h =
      Behind-map _ _ (run_statement I P mod_object x (st, w)) (λ st' same. tt)
        (run_statement-epoch P I mod_object x st w)
  run_statement-IsRegistered (throws e) x st w h =
      Behind-map _ _ (run_statement I P mod_object x (st, w)) (λ st' same. tt)
        (run_statement-epoch P I mod_object x st w)

  pub go_on-Behind :
      (Q : Statics → Type 0) (one : Result (Unit {0}) × Session)
      (rest : Session → Result (Unit {0}) × Session)
      → Behind P I Q one
      → ((st : Statics) (w : World) → Q st → Behind P I Q (rest (st, w)))
      → Behind P I Q (go_on I P one rest)
  go_on-Behind Q (ok u, (st, w)) rest h k = k st w h
  go_on-Behind Q (throw e, s) rest h k = tt

  run_body-IsRegistered :
      (y : Statement) (body : List Statement) (st : Statics) (w : World)
      → IsRegistered st y
      → Behind P I (λ st'. IsRegistered st' y) (run_body I P mod_object body (st, w))
  unfolding run_body
  run_body-IsRegistered y [] st w h = h
  run_body-IsRegistered y (x ∷ xs) st w h =
      go_on-Behind (λ st'. IsRegistered st' y) (run_statement I P mod_object x (st, w))
        (run_body I P mod_object xs) (run_statement-IsRegistered y x st w h)
        λ st' v. run_body-IsRegistered y xs st' v

  -- A body that goes on behind a statement has its error indicator clear throughout.
  Completes-cons :
      (x : Statement) (xs : List Statement) (st : Statics) (w : World)
      (rest : Result (Unit {0}) × Session)
      → (w.error ≡ none → IsRegistered st x)
      → ErrorStays w rest.1.1
      → (IsRegistered st x → Behind P I (λ st'. IsRegistered st' x) rest)
      → Completes xs rest
      → Completes (x ∷ xs) rest
  Completes-cons x xs st w (throw e, s) now stays keeps h = tt
  Completes-cons x xs st w (ok u, (st', w')) now stays keeps h = λ clean. (
    keeps (
        now (elim (Option-cases w.error) [
          | inl n ↦ n
          | inr (e, set) ↦ absurd (stays (λ n. cc) clean)
        ])),
    h clean,
  )

  go_on-Completes :
      (x : Statement) (xs : List Statement) (one : Result (Unit {0}) × Session)
      → Registers x one
      → ((st : Statics) (w : World) → Completes xs (run_body I P mod_object xs (st, w)))
      → Completes (x ∷ xs) (go_on I P one (run_body I P mod_object xs))
  go_on-Completes x xs (throw e, s) now h = tt
  go_on-Completes x xs (ok u, (st, w)) now h =
      Completes-cons x xs st w (run_body I P mod_object xs (st, w)) now
        (run_body-ErrorStays I documented P makes mod_object xs st w)
        (run_body-IsRegistered x xs st w) (h st w)

  pub run_body-Completes :
      (body : List Statement) (st : Statics) (w : World)
      → Completes body (run_body I P mod_object body (st, w))
  unfolding run_body
  run_body-Completes [] st w = λ clean. tt
  run_body-Completes (x ∷ xs) st w =
      go_on-Completes x xs (run_statement I P mod_object x (st, w)) (run_statement-Registers x st w)
        (run_body-Completes xs)
