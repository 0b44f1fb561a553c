-- ===== src/Bench/Json/Tests.antt =====
-- The emitter of include/sciforge/bench.hpp at concrete documents.
use sciforge.Base.{
  ◌≡◌, refl, Bytes, codes, Bool, true, false, List, [], ◌∷◌, ◌++◌, Option, some, arith,
}
use sciforge.Cpp.{ok, collect_all}
use sciforge.Bench.Json.{
  Double, json_string, json_number, emit_case, emit_run, json_object, json_join,
}
use sciforge.Bench.Json.Strings.{read_string, read_string-json_string}
use sciforge.Bench.Json.Reader.{
  Value, Fields, str, token, arr, obj, nil, cons, end, field, is_token_char,
}
use sciforge.Bench.Json.RoundTrip.{render, render_items, render_fields, IsToken, HasTokens}
use sciforge.Bench.Json.Documents.{
  read_document, read_document-render, read_document-emit_run, run_value,
}
use sciforge.Bench.Json.Cases.{PrintsNumbers, read_document-emit_case, case_value, result_text}

-- Four values of a `double`, with what `%.6g` prints of the finite ones.
data Sample : Type 0 where
  half two_million not_a_number below_all : Sample

abbrev sample_is_nan : Sample → Bool
sample_is_nan half = false
sample_is_nan two_million = false
sample_is_nan not_a_number = true
sample_is_nan below_all = false

abbrev sample_is_inf : Sample → Bool
sample_is_inf half = false
sample_is_inf two_million = false
sample_is_inf not_a_number = false
sample_is_inf below_all = true

abbrev sample_is_positive : Sample → Bool
sample_is_positive half = true
sample_is_positive two_million = true
sample_is_positive not_a_number = false
sample_is_positive below_all = false

abbrev sample_print : Sample → Option Bytes
sample_print half = some (codes "0.5")
sample_print two_million = some (codes "2e+06")
sample_print not_a_number = some (codes "nan")
sample_print below_all = some (codes "-inf")

abbrev samples : Double
samples = record {
  F = Sample;
  is_nan = sample_is_nan;
  is_inf = sample_is_inf;
  is_positive = sample_is_positive;
  print_g = sample_print;
}

half-IsToken : IsToken (codes "0.5")
unfolding is_token_char
half-IsToken = ground arith

two_million-IsToken : IsToken (codes "2e+06")
unfolding is_token_char
two_million-IsToken = ground arith

samples-PrintsNumbers : PrintsNumbers samples
samples-PrintsNumbers half n i = (codes "0.5", refl, half-IsToken, ground arith)
samples-PrintsNumbers two_million n i = (codes "2e+06", refl, two_million-IsToken, ground arith)
samples-PrintsNumbers not_a_number n i = cc
samples-PrintsNumbers below_all n i = cc

-- A host named `a"b` on line 1 and a control byte, with one nested array.
abbrev meta_value : Value
meta_value = obj (
    field (codes "host") (str (b'a' ∷ b'"' ∷ 10 ∷ 1 ∷ []))
      (field (codes "runs") (arr (cons (token (codes "0.5")) (cons (arr nil) nil))) end))

meta_value-HasTokens : HasTokens meta_value
meta_value-HasTokens = (tt, ((half-IsToken, (tt, tt)), tt))

abbrev domain_fields : Fields
domain_fields = field (codes "size") (token (codes "2e+06")) end

read_string-json_string_example :
    read_string (json_string (b'"' ∷ 92 ∷ 31 ∷ 200 ∷ []) ++ codes ",")
    ≡ some (b'"' ∷ 92 ∷ 31 ∷ 200 ∷ [], codes ",")
read_string-json_string_example = read_string-json_string (b'"' ∷ 92 ∷ 31 ∷ 200 ∷ []) (codes ",")

read_document-render_test : read_document (render meta_value) ≡ some meta_value
read_document-render_test = read_document-render meta_value meta_value-HasTokens

read_document-emit_run_example :
    read_document (emit_run (render meta_value) (render_items (cons meta_value nil)))
    ≡ some (run_value meta_value (cons meta_value nil))
read_document-emit_run_example =
    read_document-emit_run meta_value (cons meta_value nil) meta_value-HasTokens
      (meta_value-HasTokens, tt)

abbrev three_samples : List Sample
three_samples = half ∷ not_a_number ∷ below_all ∷ []

read_document-emit_case_example :
    (out : Bytes) × (texts : List Bytes) × (emit_case samples
        (codes "sort")
        (codes "s")
        three_samples
        (render_fields domain_fields)
        (result_text (some meta_value))
      ≡ ok out)
    × (collect_all (json_number samples) three_samples ≡ ok texts)
    × (read_document out
        ≡ some (case_value (codes "sort") (codes "s") texts (some meta_value) domain_fields))
read_document-emit_case_example =
    read_document-emit_case samples samples-PrintsNumbers (codes "sort") (codes "s") three_samples
      domain_fields (some meta_value) (two_million-IsToken, tt) meta_value-HasTokens

-- What the emitter writes of the three values, and of an empty result.
three_samples_test :
    collect_all (json_number samples) three_samples
    ≡ ok (codes "0.5" ∷ codes "NaN" ∷ codes "-Infinity" ∷ [])
unfolding json_number
three_samples_test = refl

emit_run_test :
    emit_run (codes "{}") (codes "1" ∷ codes "2" ∷ []) ≡ codes "{\"meta\":{},\"cases\":[1,2]}"
unfolding emit_run json_object json_string json_join
emit_run_test = refl
