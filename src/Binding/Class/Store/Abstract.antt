-- ===== src/Binding/Class/Store/Abstract.antt =====
-- The memory of a wrapped type of include/sciforge/binding/class.hpp implements values held by value.
use sciforge.Base.{
  ℕ, ◌≡◌, ◌≢◌, refl, sym, ap, ◌∙◌, fun_ext, ◌==◌, Bool-cases, List, [], ◌∷◌, Option, none, some,
  inl, inr,
}
use sciforge.Binding.Python.{Ptr}
use sciforge.Binding.Class.Store.{
  Heap, set_at, allocate, init_held, wrap_held, IsFresh, hold_new, write_cell, write_held,
  write_through, class_dealloc, Step, allocates, inits, wraps, writes, frees, Reach, start,
  then_step,
}
use sciforge.Binding.Class.Store.Owned.{IsOwned, set_at-cases, set_at-other, set_at-here}

-- The abstract store: for each object nothing where there is none, and else the value that it holds,
-- if it holds one.
abbrev pub Values : Type 0 → Type 0
Values T = ℕ → Option (Option T)

module _ {T : Type 0} where
  abbrev pub read : (ℕ → Option T) → Option Ptr → Option (Option T)
  read cells none = none
  read cells (some none) = some none
  read cells (some (some cell)) = some (cells cell)

  abbrev pub view : Heap T → Values T
  view s obj = read s.cells (s.objects obj)

  abbrev pub changed : (T → T) → Option (Option T) → Option (Option T)
  changed change none = none
  changed change (some none) = some none
  changed change (some (some value)) = some (some (change value))

  -- A construction gives a value to what holds none, and only to that.
  abbrev pub constructed : Option T → Option (Option T) → Option (Option T)
  constructed made none = none
  constructed made (some none) = some made
  constructed made (some (some value)) = some (some value)

  abbrev pub made_value : Option (ℕ × T) → Option T
  made_value none = none
  made_value (some (cell, value)) = some value

set_at_twice : {A : Type 0} (k : ℕ) (u v : A) (f : ℕ → A) → set_at k v (set_at k u f) ≡ set_at k v f
set_at_twice k u v f =
    fun_ext λ o. elim (Bool-cases (o == k)) [ inl same ↦ rw same refl | inr other ↦ rw other refl ]

-- What may happen to the abstract store.
pub data Event (T : Type 0) : Type 0 where
  appears : (obj : ℕ) → Event T
  constructs : (obj : ℕ) → Option T → Event T
  comes : (obj : ℕ) → T → Event T
  changes : (obj : ℕ) → (T → T) → Event T
  goes : (obj : ℕ) → Event T

module _ {T : Type 0} where
  abbrev pub after : Event T → Values T → Values T
  after (appears obj) f = set_at obj (some none) f
  after (constructs obj made) f = set_at obj (constructed made (f obj)) f
  after (comes obj value) f = set_at obj (some (some value)) f
  after (changes obj change) f = set_at obj (changed change (f obj)) f
  after (goes obj) f = set_at obj none f

  -- The latest event comes first.
  abbrev pub after_all : List (Event T) → Values T → Values T
  after_all [] f = f
  after_all (e ∷ es) f = after e (after_all es f)

  abbrev pub event_of : {s s' : Heap T} → Step s s' → Event T
  event_of (allocates s obj fresh) = appears obj
  event_of (inits s obj held made e fresh) = constructs obj (made_value made)
  event_of (wraps s obj cell value free fresh) = comes obj value
  event_of (writes s obj change) = changes obj change
  event_of (frees s s' obj held e freed) = goes obj

  abbrev pub events_of : {s s' : Heap T} → Reach s s' → List (Event T)
  events_of start = []
  events_of (then_step before one) = event_of one ∷ events_of before

  read-same :
      (cells cells' : ℕ → Option T) (p : Option Ptr)
      → ((c : ℕ) → p ≡ some (some c) → cells' c ≡ cells c)
      → read cells' p ≡ read cells p
  read-same cells cells' none h = refl
  read-same cells cells' (some none) h = refl
  read-same cells cells' (some (some c)) h = ap some (h c refl)

  -- A change of one object and of cells that no other object points to is one of the abstract store.
  update-view :
      (s s' : Heap T) (obj : ℕ) (v : Option (Option T))
      → view s' obj ≡ v
      → ((o : ℕ) → o ≢ obj → s'.objects o ≡ s.objects o)
      → ((o c : ℕ) → o ≢ obj → s.objects o ≡ some (some c) → s'.cells c ≡ s.cells c)
      → view s' ≡ set_at obj v (view s)
  update-view s s' obj v here objects cells = fun_ext λ o. elim (set_at-cases obj v (view s) o) [
    | inl (same, now) ↦ ap (view s') same ∙ here ∙ sym now
    | inr (other, now) ↦
        ap (read s'.cells) (objects o other)
        ∙ read-same s.cells s'.cells (s.objects o) (λ c e. cells o c other e)
        ∙ sym now
  ]

  hold_new-view :
      (s : Heap T) (obj cell : ℕ) (value : T)
      → s.cells cell ≡ none
      → IsOwned s
      → view (hold_new obj cell value s) ≡ set_at obj (some (some value)) (view s)
  hold_new-view s obj cell value fresh h =
      update-view s (hold_new obj cell value s) obj (some (some value))
        (ap (read (set_at cell (some value) s.cells)) (set_at-here obj (some (some cell)) s.objects)
          ∙ ap some (set_at-here cell (some value) s.cells))
        (λ o other. set_at-other obj (some (some cell)) s.objects o other)
        λ o c other e.
          let (v, live) = h.points o c e in
          set_at-other cell (some value) s.cells c (λ same. let gone = ap s.cells same in cc)

  write_cell-view :
      (s : Heap T) (obj cell : ℕ) (change : T → T) (old : Option T)
      → s.objects obj ≡ some (some cell)
      → s.cells cell ≡ old
      → IsOwned s
      → view (write_cell cell change old s) ≡ set_at obj (changed change (some old)) (view s)
  write_cell-view s obj cell change none full e h = let (v, live) = h.points obj cell full in cc
  write_cell-view s obj cell change (some value) full e h =
      update-view s (write_cell cell change (some value) s) obj (some (some (change value)))
        (ap (read (set_at cell (some (change value)) s.cells)) full
          ∙ ap some (set_at-here cell (some (change value)) s.cells))
        (λ o other. refl)
        λ o c other e'.
          set_at-other cell (some (change value)) s.cells c
            (λ same. other (h.unique o obj c e' (full ∙ ap (λ a. some (some a)) (sym same))))

  unchanged-view :
      (s : Heap T) (obj : ℕ) (v : Option (Option T))
      → view s obj ≡ v
      → view s ≡ set_at obj v (view s)
  unchanged-view s obj v here = update-view s s obj v here (λ o other. refl) λ o c other e. refl

  pub write_through-view :
      (s : Heap T) (obj : ℕ) (change : T → T)
      → IsOwned s
      → view (write_through obj change s) ≡ set_at obj (changed change (view s obj)) (view s)
  unfolding write_through
  write_through-view s obj change h = written (s.objects obj) refl
    where
      written :
          (p : Option Ptr)
          → s.objects obj ≡ p
          → view (write_held p change s) ≡ set_at obj (changed change (read s.cells p)) (view s)
      written none e = unchanged-view s obj none (ap (read s.cells) e)
      written (some none) e = unchanged-view s obj (some none) (ap (read s.cells) e)
      written (some (some cell)) e = write_cell-view s obj cell change (s.cells cell) e refl h

  pub class_dealloc-view :
      (s s' : Heap T) (obj : ℕ) (held : Ptr)
      → s.objects obj ≡ some held
      → class_dealloc obj held s ≡ some s'
      → IsOwned s
      → view s' ≡ set_at obj none (view s)
  unfolding class_dealloc
  class_dealloc-view s s' obj none e freed h =
      ap view_of (sym freed)
      ∙ update-view s (record s { objects = set_at obj none s.objects }) obj none
          (ap (read s.cells) (set_at-here obj none s.objects))
          (λ o other. set_at-other obj none s.objects o other) (λ o c other e'. refl)
    where
      view_of : Option (Heap T) → Values T
      view_of none = view s
      view_of (some t) = view t
  class_dealloc-view s s' obj (some cell) e freed h =
      let (value, live) = h.points obj cell e in
      let cells = set_at cell none s.cells in
      let freed' : some (record { objects = set_at obj none s.objects; cells = cells }) ≡ some s' =
        (rw live at freed) in
      ap view_of (sym freed')
      ∙ update-view s (record { objects = set_at obj none s.objects; cells = cells }) obj none
          (ap (read cells) (set_at-here obj none s.objects))
          (λ o other. set_at-other obj none s.objects o other)
          (λ o c other e'.
            set_at-other cell none s.cells c
              (λ same. other (h.unique o obj c e' (e ∙ ap (λ a. some (some a)) (sym same)))))
    where
      view_of : Option (Heap T) → Values T
      view_of none = view s
      view_of (some t) = view t

  pub allocate-view :
      (s : Heap T) (obj : ℕ) → view (allocate obj s) ≡ set_at obj (some none) (view s)
  allocate-view s obj =
      update-view s (allocate obj s) obj (some none)
        (ap (read s.cells) (set_at-here obj (some none) s.objects))
        (λ o other. set_at-other obj (some none) s.objects o other) λ o c other e. refl

  -- An object that holds a value is refused, one that holds none gets what has been made.
  pub init_held-view :
      (s : Heap T) (obj : ℕ) (held : Ptr) (made : Option (ℕ × T))
      → s.objects obj ≡ some held
      → IsFresh made s
      → IsOwned s
      → view (init_held obj held made s)
        ≡ set_at obj (constructed (made_value made) (view s obj)) (view s)
  init_held-view s obj (some cell) made e fresh h =
      let (value, live) = h.points obj cell e in
      unchanged-view s obj (constructed (made_value made) (view s obj)) (rw (e, live) refl)
  init_held-view s obj none none e fresh h =
      unchanged-view s obj (constructed none (view s obj)) (rw e refl)
  init_held-view s obj none (some (cell, value)) e fresh h =
      hold_new-view s obj cell value fresh h ∙ ap (λ v. set_at obj v (view s)) (rw e refl)

  pub wrap_held-view :
      (s : Heap T) (obj cell : ℕ) (value : T)
      → s.cells cell ≡ none
      → IsOwned (allocate obj s)
      → view (wrap_held obj cell value s) ≡ set_at obj (some (some value)) (view s)
  wrap_held-view s obj cell value fresh h =
      hold_new-view (allocate obj s) obj cell value fresh h
      ∙ ap (set_at obj (some (some value))) (allocate-view s obj)
      ∙ set_at_twice obj (some none) (some (some value)) (view s)
