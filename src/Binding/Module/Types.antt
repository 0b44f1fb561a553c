-- ===== src/Binding/Module/Types.antt =====
-- The references to type objects that a module's body (include/sciforge/binding/module.hpp) takes and
-- gives up.
use sciforge.Base.{
  ℕ, ◌+◌, ◌≡◌, refl, Bytes, Bool, List, [], ◌∷◌, ◌++◌, none, arith, Bool-cases, Option-cases, inl,
  inr, subst,
}
use sciforge.Binding.Python.{World}
use sciforge.Binding.Error.{attribute_name}
use sciforge.Binding.Convert.Containers.{release-head}
use sciforge.Binding.Keywords.Claims.{count, count_ptrs}
use sciforge.Binding.Class.Builder.{
  Registry, Slots, Slot, finish_class, create_type, add_type, start_class, slots_of, is_registered,
}
use sciforge.Binding.Module.{Importer}
use sciforge.Binding.Module.Errors.{IsDocumented}
use sciforge.Binding.Module.Ledger.{type_refs}

module _ (I : Importer) (documented : IsDocumented I) where
  -- From the registry and the interpreter before to those after.
  abbrev MovesRefs : Registry → World → Registry × World → Type 0
  MovesRefs r w (r', w') =
      (o : ℕ) → count o w'.owned + type_refs r o ≡ count o w.owned + type_refs r' o

  -- The type object is made and added to the module.
  add_type-MovesRefs :
      (mod_object : ℕ) (r : Registry) (name : Bytes) (b : Bool) (slots : List Slot) (w : World)
      → r.class_type ≡ none
      → MovesRefs r w (
          add_type I.type_from_spec
            (I.add_object_ref mod_object)
            I.methods_fit
            I.getsets_fit
            r
            (I.type_from_spec name b slots w))
  unfolding count count_ptrs
  add_type-MovesRefs mod_object r name b slots w n = elim (documented.types name b slots w) [
    | inr (e, none_made) ↦ rw none_made λ o. refl
    | inl (type, made) ↦
        let w' = record w { owned = type ∷ w.owned } in
        rw made (elim (documented.adds mod_object (attribute_name r.class_name) type w') [
          | inl fine ↦ rw (fine, n) λ o. omega arith
          | inr (e, failed) ↦ rw (failed, n, release-head type w.owned) λ o. omega arith
        ])
  ]

  create_type-MovesRefs :
      (mod_object : ℕ) (s : Slots) (r : Registry) (w : World)
      → r.class_type ≡ none
      → MovesRefs r w (
          create_type I.type_from_spec
            (I.add_object_ref mod_object)
            I.methods_fit
            I.getsets_fit
            s
            r
            w)
  create_type-MovesRefs mod_object s r w n = elim (Bool-cases I.methods_fit) [
    | inr small ↦ rw small λ o. refl
    | inl fits ↦ elim (Bool-cases I.getsets_fit) [
      | inr small ↦ rw (fits, small) λ o. refl
      | inl both ↦
          rw (fits, both)
            (add_type-MovesRefs mod_object
              (record r { methods = r.methods ++ none ∷ []; getsets = r.getsets ++ none ∷ [] })
              r.class_name s.init (slots_of s) w n)
    ]
  ]

  finish_unregistered :
      (mod_object : ℕ) (s : Slots) (r : Registry) (w : World)
      → r.class_type ≡ none
      → create_type I.type_from_spec (I.add_object_ref mod_object) I.methods_fit I.getsets_fit s r w
        ≡ finish_class I.type_from_spec
            (I.add_object_ref mod_object)
            I.methods_fit
            I.getsets_fit
            s
            r
            w
  unfolding finish_class
  finish_unregistered mod_object s r w n = simp (finish_class, n)

  pub finish_class-MovesRefs :
      (mod_object : ℕ) (s : Slots) (r : Registry) (w : World)
      → MovesRefs r w (
          finish_class I.type_from_spec
            (I.add_object_ref mod_object)
            I.methods_fit
            I.getsets_fit
            s
            r
            w)
  unfolding finish_class
  finish_class-MovesRefs mod_object s r w = elim (Option-cases r.class_type) [
    | inl n ↦
        subst (MovesRefs r w) (finish_unregistered mod_object s r w n)
          (create_type-MovesRefs mod_object s r w n)
    | inr (type, h) ↦
        rw (finish_class, h)
          (elim (documented.adds mod_object (attribute_name r.class_name) type w) [
            | inl fine ↦ rw (fine, h) λ o. refl
            | inr (e, failed) ↦ rw (failed, h) λ o. refl
          ])
  ]

pub start_class-class_type :
    (name : Bytes) (r : Registry) → (start_class name r).class_type ≡ r.class_type
unfolding start_class
start_class-class_type name r = elim (Bool-cases (is_registered r)) [
  | inl registered ↦ rw registered refl
  | inr fresh ↦ rw fresh refl
]
