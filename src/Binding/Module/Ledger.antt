-- ===== src/Binding/Module/Ledger.antt =====
-- The references that an import of include/sciforge/binding/module.hpp takes and gives up.
use sciforge.Base.{
  ℕ, zero, suc, ◌+◌, ◌-◌, ◌≤◌, ◌<◌, ◌≡◌, refl, ap, Bytes, List, [], ◌∷◌, arith, Bool-cases, inl,
  inr, ◌==◌, ==_iff, ==_ne, if◌then◌else◌,
}
use sciforge.Binding.Python.{World, Python}
use sciforge.Binding.Keywords.{ArgSpec, KwSpec, SpecStore, register_func, register_spec}
use sciforge.Binding.Keywords.Claims.{MakesDefaults, count, count_ptrs, register_spec-Ledger}
use sciforge.Binding.Class.Builder.{Registry}
use sciforge.Binding.Module.{Statics}

-- The sum of `f` over the numbers below `n`.
unfoldable pub sum_below : ℕ → (ℕ → ℕ) → ℕ
sum_below zero f = 0
sum_below (suc n) f = sum_below n f + f n

module _ {A : Type 0} (weigh : A → ℕ) where
  sum_below-above :
      (n k : ℕ) (v : A) (f : ℕ → A)
      → n ≤ k
      → sum_below n (λ i. weigh (if i == k then v else f i)) ≡ sum_below n (λ i. weigh (f i))
  unfolding sum_below
  sum_below-above zero k v f h = refl
  sum_below-above (suc n) k v f h =
      rw (==_ne n k (λ e. omega (arith, h, e)))
        (ap (λ t. t + weigh (f n)) (sum_below-above n k v f (omega (arith, h))))

  -- One value is replaced.
  pub sum_below-replace :
      (n k : ℕ) (v : A) (f : ℕ → A)
      → k < n
      → sum_below n (λ i. weigh (if i == k then v else f i)) + weigh (f k)
        ≡ sum_below n (λ i. weigh (f i)) + weigh v
  unfolding sum_below
  sum_below-replace zero k v f h = absurd (omega (arith, h))
  sum_below-replace (suc n) k v f h = elim (Bool-cases (n == k)) [
    | inl last ↦
        let same : n ≡ k = (==_iff n k).0 last in
        rw last
          (omega (arith, sum_below-above n k v f (omega (arith, same)), ap (λ i. weigh (f i)) same))
    | inr below ↦
        let less : k < n = ground (arith, below, h) in
        rw below (omega (arith, sum_below-replace n k v f less))
  ]

pub le-sum_below : (n k : ℕ) (f : ℕ → ℕ) → k < n → f k ≤ sum_below n f
unfolding sum_below
le-sum_below zero k f h = absurd (omega (arith, h))
le-sum_below (suc n) k f h = ground (arith, le-sum_below n k f)

-- How many of the references owned are the stored defaults of the first `funcs` functions, how many
-- the type objects of the first `wrappeds` classes, and how many the module's error type.
abbrev pub spec_refs : ℕ → SpecStore → ℕ → ℕ
spec_refs funcs specs o = sum_below funcs λ i. count_ptrs o (specs i).defaults

abbrev pub type_refs : Registry → ℕ → ℕ
type_refs r o = count_ptrs o (r.class_type ∷ [])

abbrev pub class_refs : ℕ → (ℕ → Registry) → ℕ → ℕ
class_refs wrappeds types o = sum_below wrappeds λ i. type_refs (types i) o

abbrev pub held_refs : ℕ → ℕ → Statics → ℕ → ℕ
held_refs funcs wrappeds st o =
    spec_refs funcs st.specs o
    + class_refs wrappeds st.types o
    + count_ptrs o (st.error_storage ∷ [])

-- The references owned are `base` of each object and `held`.
abbrev pub Owns : (ℕ → ℕ) → (ℕ → ℕ) → World → Type 0
Owns base held w = (o : ℕ) → count o w.owned ≡ base o + held o

module _ (P : Python) (makes : MakesDefaults P) (funcs : ℕ) where
  pub register_func-Owns :
      (base : ℕ → ℕ) (registration_epoch func : ℕ) (name : Bytes) (args : List ArgSpec)
      (specs : SpecStore) (w : World)
      → func < funcs
      → Owns base (spec_refs funcs specs) w
      → let (specs', w') = register_func P registration_epoch func name args specs w in
        Owns base (spec_refs funcs specs') w'
  unfolding register_func
  register_func-Owns base registration_epoch func name args specs w below owns o =
      let own = λ (p : ℕ). count_ptrs p (specs func).defaults in
      let member =
        λ (p : ℕ). le-sum_below funcs func (λ i. count_ptrs p (specs i).defaults) below in
      let registered = register_spec P registration_epoch name args (specs func) w in
      let kept =
        register_spec-Ledger P makes (λ p. count p w.owned - own p) registration_epoch name args
          (specs func) w (λ p. omega (arith, owns p, member p)) in
      omega (
        arith,
        kept o,
        owns o,
        member o,
        sum_below-replace (λ (spec : KwSpec). count_ptrs o spec.defaults) funcs func registered.0
            specs below,
      )
