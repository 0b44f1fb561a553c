-- ===== src/Cpp.antt =====
-- What the C++ of this repository throws, and a computation that may throw.
use sciforge.Base.{Bytes, List, [], ◌∷◌}

-- The exceptions that the code tells apart. `cast_error` (binding/convert.hpp) and
-- `error_already_set` (binding/error.hpp) are classes derived from std::exception.
pub data Exn : Type 0 where
  cast_error : Bytes → Exn
  error_already_set : Exn
  bad_alloc : Exn
  std_exception : Bytes → Exn
  non_standard : Exn

pub data Result {ℓ} (A : Type ℓ) : Type ℓ where
  ok : A → Result A
  throw : Exn → Result A

infixl 5 ◌>>=◌
abbrev pub ◌>>=◌ {ℓ κ} : {A : Type ℓ} {B : Type κ} → Result A → (A → Result B) → Result B
ok a >>= f = f a
throw e >>= f = throw e

-- The calls of a loop in order, up to the first that throws.
abbrev pub collect_all {ℓ κ} : {A : Type ℓ} {B : Type κ} → (A → Result B) → List A → Result (List B)
collect_all f [] = ok []
collect_all f (x ∷ xs) = do y ← f x; ys ← collect_all f xs; ok (y ∷ ys)
