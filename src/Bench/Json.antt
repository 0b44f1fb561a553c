-- ===== src/Bench/Json.antt =====
-- The JSON emitter of include/sciforge/bench.hpp (json_string to emit_run). A `double` and the text
-- that snprintf gives for it are parameters.
pub mod Strings
pub mod Reader
pub mod RoundTrip
pub mod Documents
pub mod Cases
mod Tests
use sciforge.Base.{
  ℕ, suc, ◌+◌, ◌/◌, ◌%◌, Bytes, codes, Bool, true, false, ◌||◌, List, [], ◌∷◌, ◌++◌, map, Option,
  none, some, ltb, leb, ◌==◌, if◌then◌else◌, length, get_or,
}
use sciforge.Base.Int.{ℤ}
use sciforge.Base.Decimal.{print_int}
use sciforge.Cpp.{Result, ok, throw, Exn, std_exception, ◌>>=◌, collect_all}

-- `constexpr std::string_view hex`.
abbrev pub hex_digit : ℕ → ℕ
hex_digit d = get_or (codes "0123456789abcdef") d 0

-- What one round of the loop of json_string appends for the character `c`.
pub escape : ℕ → Bytes
escape c =
    if (c == b'"') || (c == b'\\')
    then b'\\' ∷ c ∷ []
    else if c == 10
    then codes "\\n"
    else if c == 9
    then codes "\\t"
    else if c == 13
    then codes "\\r"
    else if ltb c 0x20
    then codes "\\u00" ++ hex_digit (c / 16) ∷ hex_digit (c % 16) ∷ []
    else c ∷ []

escape_loop : Bytes → Bytes → Bytes
escape_loop [] out = out
escape_loop (c ∷ s) out = escape_loop s (out ++ escape c)

pub json_string : Bytes → Bytes
unfolding escape_loop escape
json_string value = escape_loop value (b'"' ∷ []) ++ b'"' ∷ []

-- A `double`: what the emitter asks of one. `print_g` is the text that `%.6g` makes of a finite
-- value, and `none` where snprintf reports an error.
pub record Double : Type 1 where
  pub F : Type 0
  pub is_nan : F → Bool
  pub is_inf : F → Bool
  pub is_positive : F → Bool
  pub print_g : F → Option Bytes

-- What json_number does with what snprintf made: `char buffer[64]` holds 63 characters.
abbrev pub from_buffer : Option Bytes → Result Bytes
from_buffer none = throw (std_exception (codes "json_number: snprintf failed"))
from_buffer (some text) =
    if leb 64 (length text)
    then throw (std_exception (codes "json_number: snprintf failed"))
    else ok text

pub json_integer : ℤ → Bytes
json_integer value = print_int value

-- `for (i = 0; i < items.size(); ++i)`.
join_loop : ℕ → List Bytes → Bytes → Bytes
join_loop i [] out = out
join_loop i (item ∷ items) out =
    join_loop (suc i) items ((if i == 0 then out else out ++ b',' ∷ []) ++ item)

pub json_join : List Bytes → Bytes
unfolding join_loop
json_join items = join_loop 0 items []

abbrev pub member : Bytes × Bytes → Bytes
member (key, value) = json_string key ++ b':' ∷ value

pub json_object : List (Bytes × Bytes) → Bytes
json_object fields = b'{' ∷ json_join (map member fields) ++ b'}' ∷ []

-- `"[" + json_join(items) + "]"`, as in json_array and in emit_run.
abbrev pub bracketed : List Bytes → Bytes
bracketed items = b'[' ∷ json_join items ++ b']' ∷ []

pub emit_run : Bytes → List Bytes → Bytes
emit_run meta_json cases =
    json_object ((codes "meta", meta_json) ∷ (codes "cases", bracketed cases) ∷ [])

-- The `result` field is left out when its text is empty.
abbrev pub result_field : Bytes → List (Bytes × Bytes)
result_field [] = []
result_field (c ∷ s) = (codes "result", c ∷ s) ∷ []

module _ (D : Double) where
  open D use {F, is_nan, is_inf, is_positive, print_g}

  pub json_number : F → Result Bytes
  json_number value =
      if is_nan value
      then ok (codes "NaN")
      else if is_inf value
      then ok (if is_positive value then codes "Infinity" else codes "-Infinity")
      else from_buffer (print_g value)

  pub json_array : List F → Result Bytes
  unfolding json_number
  json_array values = do items ← collect_all json_number values; ok (bracketed items)

  pub emit_case : Bytes → Bytes → List F → List (Bytes × Bytes) → Bytes → Result Bytes
  unfolding json_array
  emit_case name unit samples domain result_json = do
    array ← json_array samples
    ok (
        json_object (
          (codes "name", json_string name)
          ∷ (codes "unit", json_string unit)
          ∷ (codes "samples", array)
          ∷ (result_field result_json ++ domain)))
