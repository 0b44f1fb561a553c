-- ===== src/Binding/Class/Store/Owned.antt =====
-- Every live cell of include/sciforge/binding/class.hpp belongs to exactly one live object.
use sciforge.Base.{
  ℕ, ◌≡◌, ◌≢◌, refl, sym, ap, ◌⊎◌, arith, ◌∙◌, Bool-cases, Option, none, some, ◌==◌, ==_iff, inl,
  inr,
}
use sciforge.Binding.Python.{Ptr}
use sciforge.Binding.Class.Store.{
  Heap, set_at, allocate, hold_new, write_cell, write_held, write_through,
}

-- No pointer dangles, no two objects share a cell, and no cell is without an owner.
pub record IsOwned {T : Type 0} (s : Heap T) : Type 0 where
  pub points :
      (obj cell : ℕ) → s.objects obj ≡ some (some cell) → (value : T) × (s.cells cell ≡ some value)
  pub unique :
      (obj other cell : ℕ)
      → s.objects obj ≡ some (some cell)
      → s.objects other ≡ some (some cell)
      → obj ≡ other
  pub owner :
      (cell : ℕ) (value : T)
      → s.cells cell ≡ some value
      → (obj : ℕ) × (s.objects obj ≡ some (some cell))

pub set_at-cases :
    {A : Type 0} (k : ℕ) (v : A) (f : ℕ → A) (o : ℕ)
    → ((o ≡ k) × (set_at k v f o ≡ v)) ⊎ ((o ≢ k) × (set_at k v f o ≡ f o))
set_at-cases k v f o = elim (Bool-cases (o == k)) [
  | inl same ↦ inl ((==_iff o k).0 same, rw same refl)
  | inr other ↦ inr ((λ e. ground (arith, e, other)), rw other refl)
]

pub set_at-other : {A : Type 0} (k : ℕ) (v : A) (f : ℕ → A) (o : ℕ) → o ≢ k → set_at k v f o ≡ f o
set_at-other k v f o other = elim (set_at-cases k v f o) [
  | inl (same, now) ↦ absurd (other same)
  | inr (apart, now) ↦ now
]

pub set_at-here : {A : Type 0} (k : ℕ) (v : A) (f : ℕ → A) → set_at k v f k ≡ v
set_at-here k v f = elim (set_at-cases k v f k) [
  | inl (same, now) ↦ now
  | inr (apart, now) ↦ absurd (apart refl)
]

module _ {T : Type 0} where
  pub allocate-IsOwned :
      (s : Heap T) (obj : ℕ) → s.objects obj ≡ none → IsOwned s → IsOwned (allocate obj s)
  allocate-IsOwned s obj fresh h = record {
    points = λ o cell e. h.points o cell (old o cell e);
    unique = λ o p cell e f. h.unique o p cell (old o cell e) (old p cell f);
    owner = λ cell value e. let (o, has) = h.owner cell value e in (o, kept o cell has);
  }
    where
      old :
          (o cell : ℕ)
          → (allocate obj s).objects o ≡ some (some cell)
          → s.objects o ≡ some (some cell)
      old o cell e = elim (set_at-cases obj (some none) s.objects o) [
        | inl (same, now) ↦ cc
        | inr (other, now) ↦ cc
      ]

      kept :
          (o cell : ℕ)
          → s.objects o ≡ some (some cell)
          → (allocate obj s).objects o ≡ some (some cell)
      kept o cell e = elim (set_at-cases obj (some none) s.objects o) [
        | inl (same, now) ↦ let gone = ap s.objects same in cc
        | inr (other, now) ↦ cc
      ]

  -- The pointer and the cell that an object has just been given.
  pub hold_new-IsOwned :
      (s : Heap T) (obj cell : ℕ) (value : T)
      → s.objects obj ≡ some none
      → s.cells cell ≡ none
      → IsOwned s
      → IsOwned (hold_new obj cell value s)
  hold_new-IsOwned s obj cell value empty fresh h = record {
    points = λ o c e. elim (set_at-cases obj (some (some cell)) s.objects o) [
      | inl (same, now) ↦ elim (set_at-cases cell (some value) s.cells c) [
        | inl (here, live) ↦ (value, live)
        | inr (away, live) ↦ absurd (away cc)
      ]
      | inr (other, now) ↦
          let (v, was) = h.points o c (sym now ∙ e) in
          elim (set_at-cases cell (some value) s.cells c) [
            | inl (here, live) ↦ (value, live)
            | inr (away, live) ↦ (v, live ∙ was)
          ]
    ];
    unique = λ o p c e f. elim (set_at-cases obj (some (some cell)) s.objects o) [
      | inl (same, now) ↦ elim (set_at-cases obj (some (some cell)) s.objects p) [
        | inl (same', now') ↦ same ∙ sym same'
        | inr (other', now') ↦ absurd (taken p c (sym now' ∙ f) (cc))
      ]
      | inr (other, now) ↦ elim (set_at-cases obj (some (some cell)) s.objects p) [
        | inl (same', now') ↦ absurd (taken o c (sym now ∙ e) (cc))
        | inr (other', now') ↦ h.unique o p c (sym now ∙ e) (sym now' ∙ f)
      ]
    ];
    owner = λ c v e. elim (set_at-cases cell (some value) s.cells c) [
      | inl (here, live) ↦ elim (set_at-cases obj (some (some cell)) s.objects obj) [
        | inl (same, now) ↦ (obj, now ∙ ap (λ a. some (some a)) (sym here))
        | inr (other, now) ↦ absurd (other refl)
      ]
      | inr (away, live) ↦
          let (o, has) = h.owner c v (sym live ∙ e) in
          elim (set_at-cases obj (some (some cell)) s.objects o) [
            | inl (same, now) ↦ let gone = ap s.objects same in cc
            | inr (other, now) ↦ (o, now ∙ has)
          ]
    ];
  }
    where
      -- The new cell had no owner.
      taken : (p c : ℕ) → s.objects p ≡ some (some c) → c ≡ cell → ⊥
      taken p c has here = let (v, was) = h.points p c has in let gone = ap s.cells here in cc

  write_cell-IsOwned :
      (s : Heap T) (cell : ℕ) (change : T → T) (old : Option T)
      → s.cells cell ≡ old
      → IsOwned s
      → IsOwned (write_cell cell change old s)
  write_cell-IsOwned s cell change none e h = h
  write_cell-IsOwned s cell change (some value) e h = record {
    points = λ o c has.
        let (v, was) = h.points o c has in
        elim (set_at-cases cell (some (change value)) s.cells c) [
          | inl (here, now) ↦ (change value, now)
          | inr (away, now) ↦ (v, now ∙ was)
        ];
    unique = h.unique;
    owner = λ c v live. elim (set_at-cases cell (some (change value)) s.cells c) [
      | inl (here, now) ↦ h.owner c value (ap s.cells here ∙ e)
      | inr (away, now) ↦ h.owner c v (sym now ∙ live)
    ];
  }

  pub write_through-IsOwned :
      (s : Heap T) (obj : ℕ) (change : T → T) → IsOwned s → IsOwned (write_through obj change s)
  unfolding write_through
  write_through-IsOwned s obj change h = written (s.objects obj)
    where
      written : (p : Option Ptr) → IsOwned (write_held p change s)
      written none = h
      written (some none) = h
      written (some (some cell)) = write_cell-IsOwned s cell change (s.cells cell) refl h

  -- Storing a value in an object that holds one already breaks the ownership: its cell is lost. So
  -- class_init refuses an object whose pointer is not null.
  pub hold_new_held :
      (s : Heap T) (obj cell fresh_cell : ℕ) (value : T)
      → s.objects obj ≡ some (some cell)
      → s.cells fresh_cell ≡ none
      → IsOwned s
      → ¬ (IsOwned (hold_new obj fresh_cell value s))
  hold_new_held s obj cell fresh_cell value full fresh h owned =
      let (v, live) = h.points obj cell full in
      let apart : cell ≢ fresh_cell = λ same. let gone = ap s.cells same in cc in
      let (o, has) =
        owned.owner cell v (set_at-other fresh_cell (some value) s.cells cell apart ∙ live) in
      elim (set_at-cases obj (some (some fresh_cell)) s.objects o) [
        | inl (same, now) ↦ absurd (apart cc)
        | inr (other, now) ↦ absurd (other (h.unique o obj cell (sym now ∙ has) full))
      ]
