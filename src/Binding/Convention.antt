-- ===== src/Binding/Convention.antt =====
-- CPython's calling convention: a C function gives a null pointer exactly when it has set an error.
-- A computation is honest if it keeps to what that needs.
use sciforge.Base.{ℕ, ◌≡◌, ◌≢◌, ◌↔◌, refl, none, some}
use sciforge.Cpp.{
  Exn, Result, ok, throw, cast_error, error_already_set, bad_alloc, std_exception, non_standard,
}
use sciforge.Binding.Python.{Ptr, World, Py, ◌>>=◌, and_then}
use sciforge.Binding.Error.{translate}

-- How a computation may end when it began with no error set: with a value and none set, or with an
-- exception; `error_already_set` only where an error is.
abbrev pub EndsHonest : {A : Type 0} → Result A × World → Type 0
EndsHonest (ok a, w) = w.error ≡ none
EndsHonest (throw error_already_set, w) = w.error ≢ none
EndsHonest (throw (cast_error what), w) = Unit
EndsHonest (throw bad_alloc, w) = Unit
EndsHonest (throw (std_exception what), w) = Unit
EndsHonest (throw non_standard, w) = Unit

abbrev pub IsHonest : {A : Type 0} → Py A → Type 0
IsHonest m = (w : World) → w.error ≡ none → EndsHonest (m w)

pub and_then-IsHonest :
    {A B : Type 0} (r : Result A) (f : A → Py B) (w : World)
    → EndsHonest (r, w)
    → ((a : A) → IsHonest (f a))
    → EndsHonest (and_then r f w)
and_then-IsHonest (ok a) f w h k = k a w h
and_then-IsHonest (throw error_already_set) f w h k = h
and_then-IsHonest (throw (cast_error what)) f w h k = tt
and_then-IsHonest (throw bad_alloc) f w h k = tt
and_then-IsHonest (throw (std_exception what)) f w h k = tt
and_then-IsHonest (throw non_standard) f w h k = tt

pub >>=-IsHonest :
    {A B : Type 0} (m : Py A) (f : A → Py B)
    → IsHonest m
    → ((a : A) → IsHonest (f a))
    → IsHonest (m >>= f)
>>=-IsHonest m f h k w e = and_then-IsHonest (m w).0 f (m w).1 (h w e) k

-- The convention for what an entry point gives back.
abbrev pub KeepsConvention : Ptr × World → Type 0
KeepsConvention (r, w) = (r ≡ none) ↔ (w.error ≢ none)

-- The same for a conversion to Python, which may also fail by a null pointer.
abbrev pub EndsHonestPtr : Result Ptr × World → Type 0
EndsHonestPtr (ok (some o), w) = w.error ≡ none
EndsHonestPtr (ok none, w) = w.error ≢ none
EndsHonestPtr (throw e, w) = EndsHonest {A = ℕ} (throw e, w)

abbrev pub IsHonestPtr : Py Ptr → Type 0
IsHonestPtr m = (w : World) → w.error ≡ none → EndsHonestPtr (m w)

pub and_then-IsHonestPtr :
    {A : Type 0} (r : Result A) (f : A → Py Ptr) (w : World)
    → EndsHonest (r, w)
    → ((a : A) → IsHonestPtr (f a))
    → EndsHonestPtr (and_then r f w)
and_then-IsHonestPtr (ok a) f w h k = k a w h
and_then-IsHonestPtr (throw error_already_set) f w h k = h
and_then-IsHonestPtr (throw (cast_error what)) f w h k = tt
and_then-IsHonestPtr (throw bad_alloc) f w h k = tt
and_then-IsHonestPtr (throw (std_exception what)) f w h k = tt
and_then-IsHonestPtr (throw non_standard) f w h k = tt

pub >>=-IsHonestPtr :
    {A : Type 0} (m : Py A) (f : A → Py Ptr)
    → IsHonest m
    → ((a : A) → IsHonestPtr (f a))
    → IsHonestPtr (m >>= f)
>>=-IsHonestPtr m f h k w e = and_then-IsHonestPtr (m w).0 f (m w).1 (h w e) k

-- The end of an entry point: what the `try` gave, or the exception translated.
abbrev pub settle : Ptr → Result Ptr × World → Ptr × World
settle error_type (ok p, w) = (p, w)
settle error_type (throw e, w) = (none, translate error_type e w)

pub translate-sets_error :
    (error_type : Ptr) (e : Exn) (w : World)
    → EndsHonest {A = ℕ} (throw e, w)
    → (translate error_type e w).error ≢ none
unfolding translate
translate-sets_error t error_already_set w h = h
translate-sets_error t (cast_error what) w h = cc
translate-sets_error t bad_alloc w h = cc
translate-sets_error t (std_exception what) w h = cc
translate-sets_error t non_standard w h = cc

pub settle-KeepsConvention :
    (error_type : Ptr) (r : Result Ptr) (w : World)
    → EndsHonestPtr (r, w)
    → KeepsConvention (settle error_type (r, w))
settle-KeepsConvention t (ok (some o)) w h = (λ e. cc, λ ne. absurd (ne h))
settle-KeepsConvention t (ok none) w h = (λ _. h, λ _. refl)
settle-KeepsConvention t (throw e) w h = (λ _. translate-sets_error t e w h, λ _. refl)
