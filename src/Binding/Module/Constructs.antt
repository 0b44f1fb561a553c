-- ===== src/Binding/Module/Constructs.antt =====
-- Constructing an instance (class_init of include/sciforge/binding/class.hpp) of a class of a module that an
-- import of include/sciforge/binding/module.hpp has given.
use sciforge.Base.{ℕ, ◌≡◌, sym, subst, Bytes, Bool, true, List, ◌∷◌, ◌++◌, none, some, All, length}
use sciforge.Binding.Python.{Ptr, World, Python}
use sciforge.Binding.Keywords.{ArgSpec, Parser, register_spec, required_before_optional}
use sciforge.Binding.Keywords.Claims.{MakesDefaults}
use sciforge.Binding.Keywords.KeywordCalls.{ParsesArguments}
use sciforge.Binding.Class.{Instances, Factory, class_init}
use sciforge.Binding.Class.Init.{InitEnds, FactoryIsHonest, class_init-InitEnds}
use sciforge.Binding.Class.Builder.{BuilderCall, def_init}
use sciforge.Binding.Module.{Importer, Statics, Statement, wrap, py_init}
use sciforge.Binding.Module.Errors.{IsDocumented}
use sciforge.Binding.Module.Constructed.{Leaves, py_init-def_init}

module _ {V T Call : Type 0} (I : Importer) (documented : IsDocumented I) (P : Python)
    (makes : MakesDefaults P) (parse : Parser Call) (parses : ParsesArguments parse)
    (error_name : Bytes) (f : ℕ) (name : Bytes) (args : List ArgSpec) (wrapped : ℕ)
    (before behind : List BuilderCall) (pre post : List Statement) (st : Statics) (w : World)
    (m : ℕ) (st' : Statics) (w' : World) where
  -- Where an import gives a module whose body registers a class that was not registered before, with a
  -- def_init whose required parameters come first, a construction with the spec that the import has
  -- left, made with no error set and with a factory that keeps to Python's rules and has a parameter for
  -- each argument, ends in one of two ways. It gives 0 with no error set, and the instance, which held
  -- nothing at the start, holds a value; or it gives -1 with an error set. All else is as the
  -- constructions leave it that run within this one, in a caster or in the factory: every other instance
  -- after a 0, and every instance, this one too, after a -1; without any, they hold what they held
  -- before. CPython's calls and its argument parser do what it documents of them.
  pub py_init-InitEnds :
      (error_type : Ptr) (has_memory : Bool) (factory : Factory V T) (instances : Instances T)
      (self : ℕ) (call : Call) (v : World)
      → (st.types wrapped).class_type ≡ none
      → All (Leaves wrapped) pre
      → py_init I P error_name
          (pre ++ wrap wrapped name (before ++ def_init f args ∷ behind) ∷ post)
          st
          w
        ≡ (some m, (st', w'))
      → required_before_optional args ≡ true
      → FactoryIsHonest factory
      → length args ≡ length factory.casters
      → instances.class_name ≡ name
      → v.error ≡ none
      → InitEnds factory instances self
          (class_init error_type has_memory parse factory (st'.specs f) instances self call v)
  py_init-InitEnds error_type has_memory factory instances self call v fresh leave given ordered
        honest as_many named clean =
      let (old, u, unclaimed, made, is) =
        py_init-def_init I documented P makes f name args wrapped before behind error_name pre post
          st w m st' w' fresh leave given in
      subst
        (λ spec.
          InitEnds factory instances self
            (class_init error_type has_memory parse factory spec instances self call v))
        (sym is)
        (subst
          (λ n. InitEnds factory instances self (
            class_init error_type has_memory parse factory
              (register_spec P st'.epoch n args old u).0 instances self call v))
          named
          (class_init-InitEnds error_type has_memory P parse st'.epoch args old u factory instances
            self call v parses unclaimed ordered honest as_many clean))
