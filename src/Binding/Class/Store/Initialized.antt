-- ===== src/Binding/Class/Store/Initialized.antt =====
-- class_init of include/sciforge/binding/class.hpp on the values that objects hold does what its test and
-- its store do in memory.
use sciforge.Base.{ℕ, ◌≡◌, ◌⊎◌, Option, none, some}
use sciforge.Base.Int.{ℤ, pos, negsuc}
use sciforge.Binding.Python.{Ptr, World}
use sciforge.Binding.Class.{Instances}
use sciforge.Binding.Class.Store.{Heap, init_held}
use sciforge.Binding.Class.Store.Abstract.{view}

module _ {T : Type 0} where
  -- What is held at an address, where there may be no object.
  abbrev pub joined : Option (Option T) → Option T
  joined none = none
  joined (some value) = value

  abbrev pub Represents : Heap T → Instances T → Type 0
  Represents s I = (o : ℕ) → I.held o ≡ joined (view s o)

  -- A 0 comes with a value made and stored in a cell, a -1 with none made.
  abbrev pub Initializes : Heap T → ℕ → Ptr → ℕ → ℤ × Instances T × World → Type 0
  Initializes s self held cell (code, I', w) =
      (made : Option (ℕ × T)) × Represents (init_held self held made s) I'
      × (((code ≡ pos 0) × ((value : T) × (made ≡ some (cell, value))))
          ⊎ ((code ≡ negsuc 0) × (made ≡ none)))
