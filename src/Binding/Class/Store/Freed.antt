-- ===== src/Binding/Class/Store/Freed.antt =====
-- Freeing an object of include/sciforge/binding/class.hpp, and any steps of a program: every live cell
-- keeps exactly one owner.
use sciforge.Base.{ℕ, ◌≡◌, ◌≢◌, refl, sym, ap, ◌∙◌, subst, Option, none, some, inl, inr}
use sciforge.Binding.Python.{Ptr}
use sciforge.Binding.Class.Store.{
  Heap, set_at, class_dealloc, allocate, Step, allocates, inits, wraps, writes, frees, Reach, start,
  then_step, empty_heap,
}
use sciforge.Binding.Class.Store.Owned.{
  IsOwned, set_at-cases, set_at-here, allocate-IsOwned, hold_new-IsOwned, write_through-IsOwned,
}

module _ {T : Type 0} where
  -- An object without a cell goes.
  free_empty-IsOwned :
      (s : Heap T) (obj : ℕ)
      → s.objects obj ≡ some none
      → IsOwned s
      → IsOwned (record s { objects = set_at obj none s.objects })
  free_empty-IsOwned s obj empty h = record {
    points = λ o c e. h.points o c (old o c e);
    unique = λ o p c e f. h.unique o p c (old o c e) (old p c f);
    owner = λ c v e.
        let (o, has) = h.owner c v e in
        elim (set_at-cases obj none s.objects o) [
          | inl (same, now) ↦ let gone = ap s.objects same in cc
          | inr (other, now) ↦ (o, now ∙ has)
        ];
  }
    where
      old : (o c : ℕ) → set_at obj none s.objects o ≡ some (some c) → s.objects o ≡ some (some c)
      old o c e = elim (set_at-cases obj none s.objects o) [
        | inl (same, now) ↦ cc
        | inr (other, now) ↦ sym now ∙ e
      ]

  -- An object goes with its cell.
  free_full-IsOwned :
      (s : Heap T) (obj cell : ℕ)
      → s.objects obj ≡ some (some cell)
      → IsOwned s
      → IsOwned (record { objects = set_at obj none s.objects; cells = set_at cell none s.cells })
  free_full-IsOwned s obj cell full h = record {
    points = λ o c e.
        let (other, was) = old o c e in
        let (v, live) = h.points o c was in
        elim (set_at-cases cell none s.cells c) [
          | inl (here, now) ↦
              absurd (other (h.unique o obj c was (full ∙ ap (λ a. some (some a)) (sym here))))
          | inr (away, now) ↦ (v, now ∙ live)
        ];
    unique = λ o p c e f. h.unique o p c (old o c e).1 (old p c f).1;
    owner = λ c v e. elim (set_at-cases cell none s.cells c) [
      | inl (here, now) ↦ cc
      | inr (away, now) ↦
          let (o, has) = h.owner c v (sym now ∙ e) in
          elim (set_at-cases obj none s.objects o) [
            | inl (same, gone) ↦ let mine = ap s.objects same in absurd (away cc)
            | inr (other, kept) ↦ (o, kept ∙ has)
          ]
    ];
  }
    where
      old :
          (o c : ℕ)
          → set_at obj none s.objects o ≡ some (some c)
          → (o ≢ obj) × (s.objects o ≡ some (some c))
      old o c e = elim (set_at-cases obj none s.objects o) [
        | inl (same, now) ↦ cc
        | inr (other, now) ↦ (other, sym now ∙ e)
      ]

  -- class_dealloc of a live object deletes a live cell or none, and leaves the rest.
  pub class_dealloc-IsOwned :
      (s : Heap T) (obj : ℕ) (held : Ptr)
      → s.objects obj ≡ some held
      → IsOwned s
      → (s' : Heap T) × (class_dealloc obj held s ≡ some s') × IsOwned s'
  unfolding class_dealloc
  class_dealloc-IsOwned s obj none e h =
      (record s { objects = set_at obj none s.objects }, refl, free_empty-IsOwned s obj e h)
  class_dealloc-IsOwned s obj (some cell) e h =
      let (value, live) = h.points obj cell e in
      (
        record { objects = set_at obj none s.objects; cells = set_at cell none s.cells },
        rw live refl,
        free_full-IsOwned s obj cell e h,
      )

  pub step-IsOwned : {s s' : Heap T} → Step s s' → IsOwned s → IsOwned s'
  step-IsOwned (allocates s obj fresh) h = allocate-IsOwned s obj fresh h
  step-IsOwned (inits s obj (some cell) made full fresh) h = h
  step-IsOwned (inits s obj none none empty fresh) h = h
  step-IsOwned (inits s obj none (some (cell, value)) empty fresh) h =
      hold_new-IsOwned s obj cell value empty fresh h
  step-IsOwned (wraps s obj cell value free fresh) h =
      hold_new-IsOwned (allocate obj s) obj cell value (set_at-here obj (some none) s.objects) fresh
        (allocate-IsOwned s obj free h)
  step-IsOwned (writes s obj change) h = write_through-IsOwned s obj change h
  step-IsOwned (frees s s' obj held e freed) h =
      let (t, freed', owned) = class_dealloc-IsOwned s obj held e h in
      subst (λ (o : Option (Heap T)). IsOwned (elim o [ none ↦ s | some u ↦ u ]))
        (sym freed' ∙ freed) owned

  pub empty-IsOwned : IsOwned (empty_heap {T = T})
  empty-IsOwned = record {
    points = λ obj cell e. cc;
    unique = λ obj other cell e f. cc;
    owner = λ cell value e. cc;
  }

  pub reach-IsOwned : {s s' : Heap T} → Reach s s' → IsOwned s → IsOwned s'
  reach-IsOwned start h = h
  reach-IsOwned (then_step before one) h = step-IsOwned one (reach-IsOwned before h)
