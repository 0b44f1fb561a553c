-- ===== src/Binding/Fixtures.antt =====
-- A small interpreter, a parser and a function: what the tests of include/sciforge/binding run on.
pub mod Documented
use sciforge.Base.{
  ℕ, zero, suc, ◌+◌, ◌≡◌, refl, Bytes, codes, Bool, true, false, List, [], ◌∷◌, ◌++◌, Option, none,
  some, arith, inl, inr, leb, replicate, ◌==◌, ==_ne, if◌then◌else◌, Bool-cases, ◌-◌, ◌&&◌,
}
use sciforge.Base.Int.{ℤ, pos, negsuc, pos_part, leb_ℤ}
use sciforge.Cpp.{ok, throw, std_exception}
use sciforge.Binding.Python.{
  Ptr, type_error, python_error, World, Py, pure, Python, MakesObject, set_error,
}
use sciforge.Binding.Convention.{IsHonest}
use sciforge.Binding.Convert.{minus_one_double, IntType, i64, u64, max_of, min_of, max_unsigned}
use sciforge.Binding.Convert.Integers.{InRange, ReadsLongs}
use sciforge.Binding.Dispatch.{CppFunction}
use sciforge.Binding.Dispatch.Calls.{FunctionIsHonest}
use sciforge.Binding.Keywords.{ArgSpec, required, defaulted, signed, KwSpec, empty_spec, Parser}
use sciforge.Binding.Keywords.Specs.{optional_part}
use sciforge.Binding.Keywords.Claims.{MakesDefaults}
use sciforge.Binding.Keywords.KeywordCalls.{ParsesArguments, Parsed, ParseEnds}

-- The int object at address `o` has the value `o - 1000`.
abbrev pub value_at : ℕ → ℤ
value_at o = if leb 1000 o then pos (o - 1000) else negsuc (999 - o)

abbrev pub fits_in : IntType → ℤ → Bool
fits_in T v = leb_ℤ (min_of T) v && leb_ℤ v (pos (max_of T))

abbrev pub new_object : ℕ → World → Ptr × World
new_object o w = (some o, record w { owned = o ∷ w.owned })

abbrev pub read_long : ℕ → World → ℤ × World
read_long o w =
    if fits_in i64 (value_at o) then (value_at o, w) else (negsuc 0, set_error (python_error 1) w)

abbrev pub read_unsigned : ℕ → World → ℕ × World
read_unsigned o w =
    if fits_in u64 (value_at o)
    then (pos_part (value_at o), w)
    else (max_unsigned, set_error (python_error 1) w)

-- None is at address 1, and there are no strings.
abbrev pub interpreter : Python
interpreter = record {
  none_object = 1;
  object_type = λ o. new_object 2;
  name_attribute = λ o. new_object 3;
  is_long = λ o. true;
  is_unicode = λ o. false;
  is_bytes = λ o. false;
  is_true = λ o w. (pos 1, w);
  as_long_long = read_long;
  as_unsigned_long_long = read_unsigned;
  as_double = λ o w. if o == 8 then (minus_one_double, set_error (python_error 2) w) else (o, w);
  as_utf8_and_size = λ o w. (some (codes "int"), w);
  bytes_as_string = λ o w. (none, w);
  bool_from_long = λ n. new_object n;
  long_from_long_long = λ n. new_object (pos_part n + 1000);
  long_from_unsigned = λ n. new_object (n + 1000);
  float_from_double = λ d. new_object 11;
  unicode_from_string = λ t. new_object 4;
  list_new = λ n. new_object 5;
  tuple_new = λ n. new_object 6;
}

abbrev pub idle : World
idle = record { error = none; owned = 9 ∷ []; stored = [] }

pub long_fits : (v : ℤ) → InRange i64 v → fits_in i64 v ≡ true
long_fits v h = ground arith

pub long_fits_not : (v : ℤ) → ¬ (InRange i64 v) → fits_in i64 v ≡ false
long_fits_not v h = ground arith

pub unsigned_fits : (v : ℤ) → InRange u64 v → fits_in u64 v ≡ true
unsigned_fits v h = ground arith

pub unsigned_fits_not : (v : ℤ) → ¬ (InRange u64 v) → fits_in u64 v ≡ false
unsigned_fits_not v h = ground arith

pub interpreter-ReadsLongs : ReadsLongs interpreter value_at
interpreter-ReadsLongs = record {
  long_long = λ o w h. rw (long_fits (value_at o) h) refl;
  long_long_overflow = λ o w h. (python_error 1, rw (long_fits_not (value_at o) h) refl);
  unsigned = λ o w h. rw (unsigned_fits (value_at o) h) refl;
  unsigned_overflow = λ o w h. (python_error 1, rw (unsigned_fits_not (value_at o) h) refl);
}

pub new_object-MakesObject : (o : ℕ) → MakesObject (new_object o)
new_object-MakesObject o w = inl (o, refl)

pub interpreter-MakesDefaults : MakesDefaults interpreter
interpreter-MakesDefaults = record {
  unicode = λ t. new_object-MakesObject 4;
  long = λ n. new_object-MakesObject (pos_part n + 1000);
  unsigned_long = λ n. new_object-MakesObject (n + 1000);
  float = λ d. new_object-MakesObject 11;
}

-- A function of two objects that throws where the first is None and gives back its first one else.
abbrev pub first_of : List ℕ → Py ℕ
first_of [] w = (throw (std_exception (codes "empty")), w)
first_of (o ∷ os) w = if o == 1 then (throw (std_exception (codes "None")), w) else (ok o, w)

abbrev pub first : CppFunction ℕ
first = record {
  casters = (λ o. pure o) ∷ (λ o. pure o) ∷ [];
  body = first_of;
  to_python = some λ o w. (ok (some o), record w { owned = o ∷ w.owned });
}

pub first_of-IsHonest : (vs : List ℕ) → IsHonest (first_of vs)
first_of-IsHonest [] w e = tt
first_of-IsHonest (o ∷ os) w e = elim (Bool-cases (o == 1)) [
  | inl is_none ↦ rw is_none tt
  | inr other ↦ rw other e
]

pub first-FunctionIsHonest : FunctionIsHonest first
first-FunctionIsHonest = ((λ o w e. e, (λ o w e. e, tt)), first_of-IsHonest, λ v w e. e)

-- f(x, y = 5).
abbrev pub parameters : List ArgSpec
parameters = required (codes "x") ∷ defaulted (codes "y") (signed (pos 5)) ∷ []

-- The spec of an earlier import, which owns one default.
abbrev pub old_spec : KwSpec
old_spec = record empty_spec { defaults = none ∷ some 9 ∷ []; epoch = 1 }

-- A parser of positional arguments: an object for each letter in front of the bar, an object or
-- nothing for each letter behind it.
abbrev pub scan_end : List ℕ → Option (List Ptr)
scan_end [] = some []
scan_end (a ∷ args) = none

abbrev pub with_object : Ptr → Option (List Ptr) → Option (List Ptr)
with_object o none = none
with_object o (some objs) = some (o ∷ objs)

abbrev pub scan_optional : Bytes → List ℕ → Option (List Ptr)
scan_optional [] args = scan_end args
scan_optional (c ∷ format) [] =
    if c == b'O' then with_object none (scan_optional format []) else some []
scan_optional (c ∷ format) (a ∷ args) =
    if c == b'O' then with_object (some a) (scan_optional format args) else none

abbrev pub scan : Bytes → List ℕ → Option (List Ptr)
scan [] args = scan_end args
scan (c ∷ format) [] =
    if c == b'O' then none else if c == b'|' then scan_optional format [] else some []
scan (c ∷ format) (a ∷ args) =
    if c == b'O'
    then with_object (some a) (scan format args)
    else if c == b'|'
    then scan_optional format (a ∷ args)
    else none

abbrev pub scanned : Option (List Ptr) → World → Option (List Ptr) × World
scanned none w = (none, set_error (type_error (codes "arguments")) w)
scanned (some objs) w = (some objs, w)

abbrev pub parser : Parser (List ℕ)
parser format kwlist args w = scanned (scan format args) w

abbrev pub Fills : ℕ → ℕ → Option (List Ptr) → Type 0
Fills r k none = Unit
Fills r k (some objs) = Parsed r k objs

pub with_object-optional :
    (k : ℕ) (o : Ptr) (r : Option (List Ptr)) → Fills 0 k r → Fills 0 (suc k) (with_object o r)
with_object-optional k o none h = tt
with_object-optional k o (some objs) h = h

pub with_object-required :
    (r k : ℕ) (o : ℕ) (t : Option (List Ptr))
    → Fills r k t
    → Fills (suc r) k (with_object (some o) t)
with_object-required r k o none h = tt
with_object-required r k o (some objs) h = h

pub scan_optional-Fills :
    (k : ℕ) (name : Bytes) (args : List ℕ)
    → Fills 0 k (scan_optional (replicate k b'O' ++ b':' ∷ name) args)
scan_optional-Fills zero name [] = tt
scan_optional-Fills zero name (a ∷ args) = tt
scan_optional-Fills (suc k) name [] =
    with_object-optional k none (scan_optional (replicate k b'O' ++ b':' ∷ name) [])
      (scan_optional-Fills k name [])
scan_optional-Fills (suc k) name (a ∷ args) =
    with_object-optional k (some a) (scan_optional (replicate k b'O' ++ b':' ∷ name) args)
      (scan_optional-Fills k name args)

pub scan-Fills :
    (r k : ℕ) (name : Bytes) (args : List ℕ)
    → Fills r k (scan (replicate r b'O' ++ (optional_part k ++ b':' ∷ name)) args)
scan-Fills zero zero name [] = tt
scan-Fills zero zero name (a ∷ args) = tt
scan-Fills zero (suc k) name [] =
    rw (==_ne (suc k) 0 (λ e. omega (arith, e))) (scan_optional-Fills (suc k) name [])
scan-Fills zero (suc k) name (a ∷ args) =
    rw (==_ne (suc k) 0 (λ e. omega (arith, e))) (scan_optional-Fills (suc k) name (a ∷ args))
scan-Fills (suc r) k name [] = tt
scan-Fills (suc r) k name (a ∷ args) =
    with_object-required r k a (scan (replicate r b'O' ++ (optional_part k ++ b':' ∷ name)) args)
      (scan-Fills r k name args)

pub scanned-ParseEnds :
    (r k : ℕ) (t : Option (List Ptr)) (w : World)
    → Fills r k t
    → w.error ≡ none
    → ParseEnds r k (scanned t w)
scanned-ParseEnds r k none w h e = cc
scanned-ParseEnds r k (some objs) w h e = (e, h)

pub parser-ParsesArguments : ParsesArguments parser
parser-ParsesArguments r k name kwlist args w e =
    scanned-ParseEnds r k (scan (replicate r b'O' ++ (optional_part k ++ b':' ∷ name)) args) w
      (scan-Fills r k name args) e
