-- ===== src/Example/Handle.antt =====
-- examples/binding_consumer/bindingdemo/_demo.cpp: `handle`, a C++ object that Python holds in a capsule:
-- make_handle, handle_value with its caster, and handle_destructor. `G` is what CPython keeps of the
-- capsules.
pub mod Lifetime
mod Tests
use sciforge.Base.{
  ℕ, suc, ◌-◌, ◌%◌, ◌^◌, ◌==◌, Bool, true, false, Bytes, codes, Option, none, some, ltb,
  if◌then◌else◌,
}
use sciforge.Base.Int.{ℤ, pos, negsuc}
use sciforge.Cpp.{Result, ok, throw, cast_error, bad_alloc}
use sciforge.Binding.Python.{Ptr, World, clear_error}

-- `static_cast<int>` of a long long: its lowest 32 bits, in two's complement.
abbrev pub low_word : ℤ → ℕ
low_word (pos n) = n % 2 ^ 32
low_word (negsuc n) = 2 ^ 32 - 1 - n % 2 ^ 32

unfoldable pub to_int : ℤ → ℤ
to_int v = let u = low_word v in if ltb u (2 ^ 31) then pos u else negsuc (2 ^ 32 - 1 - u)

abbrev pub capsule_name : Bytes
capsule_name = codes "bindingdemo.handle"

-- The memory: the value of the handle at each address, `none` where there is none, and the address
-- that the next `new` gives.
pub record Handles : Type 0 where
  pub next : ℕ
  pub cell : ℕ → Option ℤ

pub record Capsules (G : Type 0) : Type 0 where
  pub capsule_new : (pointer : ℕ) → Bytes → G × World → Ptr × (G × World)
  pub get_pointer : (capsule : ℕ) → Bytes → G × World → Ptr × (G × World)

abbrev pub write_handle : ℕ → Option ℤ → Handles → Handles
write_handle address value H = record H { cell = λ a. if a == address then value else H.cell a }

-- `new handle{value}`; `has_memory` is whether it finds memory, else it throws.
abbrev pub new_handle : Bool → ℤ → Handles → Result ℕ × Handles
new_handle true value H =
    (ok H.next, record (write_handle H.next (some value) H) { next = suc H.next })
new_handle false value H = (throw bad_alloc, H)

-- make_handle returns a pointer, or a C++ exception leaves it: nothing in it catches one.
module _ {G : Type 0} (C : Capsules G) where
  abbrev pub in_capsule : Result ℕ × Handles → G × World → Result Ptr × Handles × (G × World)
  in_capsule (throw e, H) s = (throw e, H, s)
  in_capsule (ok h, H) s = let (capsule, s') = C.capsule_new h capsule_name s in (ok capsule, H, s')

  abbrev pub handle_parsed :
      Bool → Handles → Option ℤ × (G × World) → Result Ptr × Handles × (G × World)
  handle_parsed has_memory H (none, s) = (ok none, H, s)
  handle_parsed has_memory H (some value, s) = in_capsule (new_handle has_memory (to_int value) H) s

  unfoldable pub make_handle :
      {Args : Type 0}
      → Bool
      → (Args → G × World → Option ℤ × (G × World))
      → Args
      → Handles × (G × World)
      → Result Ptr × Handles × (G × World)
  unfolding to_int
  make_handle has_memory parse args (H, s) = handle_parsed has_memory H (parse args s)

  abbrev cleared : Ptr × (G × World) → Result ℕ × (G × World)
  cleared (none, (g, w)) =
      (throw (cast_error (codes "expected a bindingdemo.handle capsule")), (g, clear_error w))
  cleared (some pointer, s) = (ok pointer, s)

  -- caster<handle*>::from_python.
  unfoldable pub handle_from_python : ℕ → G × World → Result ℕ × (G × World)
  handle_from_python obj s = cleared (C.get_pointer obj capsule_name s)

  -- `delete` of a null pointer does nothing.
  abbrev freed : Handles → Ptr × (G × World) → Handles × (G × World)
  freed H (none, s) = (H, s)
  freed H (some pointer, s) = (write_handle pointer none H, s)

  unfoldable pub handle_destructor : ℕ → Handles × (G × World) → Handles × (G × World)
  handle_destructor capsule (H, s) = freed H (C.get_pointer capsule capsule_name s)

-- A read of memory where no handle is has no meaning in C++.
abbrev pub handle_value : Handles → ℕ → Option ℤ
handle_value H h = H.cell h
