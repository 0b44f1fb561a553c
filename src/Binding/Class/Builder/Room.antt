-- ===== src/Binding/Class/Builder/Room.antt =====
-- The slots array of finish in include/sciforge/binding/class.hpp has room for what is put into it.
use sciforge.Base.{◌≤◌, ◌≡◌, List, [], ◌∷◌, ◌++◌, append_assoc, arith, length, if◌then◌else◌}
use sciforge.Binding.Class.Builder.{
  Slots, Slot, slots_end, tp_dealloc, tp_methods, tp_getset, tp_repr, tp_richcompare, tp_hash,
  tp_new, tp_init, slot_if, slots_of,
}

-- The slots array of finish has room for nine: whatever members are set, the slots fit, and the last
-- one is the terminator.
pub length-slots_of :
    (s : Slots)
    → (length (slots_of s) ≤ 9) × ((front : List Slot) × (slots_of s ≡ front ++ slots_end ∷ []))
unfolding slots_of
length-slots_of s = (
  ground arith,
  (
    tp_dealloc
        ∷ tp_methods
        ∷ tp_getset
        ∷ (slot_if s.repr tp_repr
            ++ (slot_if s.richcompare tp_richcompare
                ++ (slot_if s.hash tp_hash ++ (if s.init then tp_new ∷ tp_init ∷ [] else [])))),
    simp append_assoc,
  ),
)
