-- ===== src/Binding/Module/Sequences.antt =====
-- Any number of imports through include/sciforge/binding/module.hpp, one after another, in one process.
use sciforge.Base.{
  ℕ, suc, ◌+◌, ◌≤◌, ◌≡◌, ap, ◌∙◌, Bytes, List, [], ◌∷◌, none, some, arith, All, length,
}
use sciforge.Binding.Python.{Ptr, World, Python}
use sciforge.Binding.Keywords.Claims.{MakesDefaults, count, count_ptrs}
use sciforge.Binding.Module.{Importer, Statics, Session, Statement, py_init}
use sciforge.Binding.Module.Errors.{IsDocumented}
use sciforge.Binding.Module.Ledger.{held_refs, Owns}
use sciforge.Binding.Module.References.{IsWithin}
use sciforge.Binding.Module.Leaks.{py_init-EndsOwning}

count_ptrs-cons :
    (o : ℕ) (p : Ptr) (ps : List Ptr)
    → count_ptrs o (p ∷ ps) ≡ count_ptrs o (p ∷ []) + count_ptrs o ps
unfolding count_ptrs
count_ptrs-cons o none ps = omega arith
count_ptrs-cons o (some p) ps = omega arith

module _ (I : Importer) (P : Python) (funcs wrappeds : ℕ) where
  -- `Imports s₀ n given s`: from `s₀`, `n` imports have led to `s`, and have given back `given`. Between two of
  -- them Python may do what it likes, but leaves the references of the C++ code alone.
  pub data Imports (s₀ : Session) : (n : ℕ) → List Ptr → Session → Type 0 where
    begin : Imports s₀ 0 [] s₀
    import :
        (n : ℕ) (given : List Ptr) (error_name : Bytes) (body : List Statement) (st : Statics)
        (w : World)
        → All (IsWithin funcs wrappeds) body
        → Imports s₀ n given (st, w)
        → Imports s₀
            (suc n)
            ((py_init I P error_name body st w).0 ∷ given)
            (py_init I P error_name body st w).1
    between :
        (n : ℕ) (given : List Ptr) (st : Statics) (w v : World)
        → v.owned ≡ w.owned
        → Imports s₀ n given (st, w)
        → Imports s₀ n given (st, v)

  -- The references owned: `base`, those that the statics hold, and those given back or lost.
  abbrev pub Accounts : (ℕ → ℕ) → List Ptr → List Ptr → Session → Type 0
  Accounts base given lost (st, w) =
      Owns (λ o. base o + (count_ptrs o lost + count_ptrs o given)) (held_refs funcs wrappeds st) w

  module _ (documented : IsDocumented I) (makes : MakesDefaults P) where
    import-Accounts :
        (base : ℕ → ℕ) (given lost : List Ptr) (error_name : Bytes) (body : List Statement)
        (st : Statics) (w : World)
        → All (IsWithin funcs wrappeds) body
        → Accounts base given lost (st, w)
        → (p : Ptr) × Accounts base
            ((py_init I P error_name body st w).0 ∷ given)
            (p ∷ lost)
            (py_init I P error_name body st w).1
    import-Accounts base given lost error_name body st w h accounts =
        let before = λ (o : ℕ). base o + (count_ptrs o lost + count_ptrs o given) in
        let (p, one, ends) =
          py_init-EndsOwning I documented P makes funcs wrappeds error_name body st w before h
            accounts in
        let r = (py_init I P error_name body st w).0 in
        (p, λ o. omega (arith, ends o, count_ptrs-cons o p lost, count_ptrs-cons o r given))

    -- After any imports of any modules one after another, with Python at work between them, however each
    -- ends: if the references owned are at first, for each object, a fixed number and those that the
    -- variables hold (the stored defaults, the types of the classes, the module's error type), they are so
    -- afterwards, with one more for each module given back and at most one lost for each import. CPython's
    -- functions do what it documents of them, and functions and classes are numbered below two bounds.
    pub Imports-Accounts :
        (s₀ s : Session) (n : ℕ) (given : List Ptr) (base : ℕ → ℕ)
        → Accounts base [] [] s₀
        → Imports s₀ n given s
        → (lost : List Ptr) × (length lost ≤ n) × Accounts base given lost s
    Imports-Accounts s₀ s n given base owns begin = ([], omega arith, owns)
    Imports-Accounts s₀ s n given base owns (import n' given' error_name body st w h reached) =
        let (lost, few, accounts) = Imports-Accounts s₀ (st, w) n' given' base owns reached in
        let (p, after) = import-Accounts base given' lost error_name body st w h accounts in
        (p ∷ lost, omega (arith, few), after)
    Imports-Accounts s₀ s n given base owns (between n' given' st w v same reached) =
        let (lost, few, accounts) = Imports-Accounts s₀ (st, w) n' given' base owns reached in
        (lost, few, λ o. ap (count o) same ∙ accounts o)
