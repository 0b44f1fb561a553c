-- ===== src/Bench/Json/Documents.antt =====
-- Whole documents: what emit_case and emit_run of include/sciforge/bench.hpp write, read back.
use sciforge.Base.{
  ◌+◌, ◌≤◌, ◌≡◌, refl, sym, ap, ◌∙◌, Bytes, codes, [], ◌∷◌, Option, none, some, arith, append-nil,
  length, length-append,
}
use sciforge.Bench.Json.{emit_run, json_object, json_string}
use sciforge.Bench.Json.Strings.{json_string-quoted, flat_escapes}
use sciforge.Bench.Json.Reader.{
  Value, Items, Fields, str, token, arr, obj, nil, cons, end, field, read_value,
}
use sciforge.Bench.Json.RoundTrip.{
  render, render_items, size, size_items, size_fields, HasTokens, HaveTokens, FieldsHaveTokens,
  read-render, items_text, fields_text, json_join-commas, commas,
}

-- Nothing may stand behind the document.
abbrev whole : Option (Value × Bytes) → Option Value
whole none = none
whole (some (v, [])) = some v
whole (some (v, c ∷ s)) = none

-- A document has no more nodes than bytes, so its length is fuel enough.
pub read_document : Bytes → Option Value
read_document s = whole (read_value (length s) s)

json_string-length : (s : Bytes) → 2 ≤ length (json_string s)
json_string-length s =
    rw json_string-quoted (omega (arith, length-append (flat_escapes s) (b'"' ∷ [])))

mutual
  unfolding render json_object items_text fields_text commas

  size-le-length : (v : Value) → HasTokens v → size v ≤ length (render v)
  size-le-length (str s) h = omega (arith, json_string-length s)
  size-le-length (token []) h = absurd (h.0 refl)
  size-le-length (token (c ∷ t)) h = omega arith
  size-le-length (arr nil) h = omega arith
  size-le-length (arr (cons v vs)) h = rw json_join-commas (
      omega (
        arith,
        length-append (items_text (cons v vs)) (b']' ∷ []),
        size_items-le-length (cons v vs) h,
      ))
  size-le-length (obj end) h = omega arith
  size-le-length (obj (field k v fs)) h = rw json_join-commas (
      omega (
        arith,
        length-append (fields_text (field k v fs)) (b'}' ∷ []),
        size_fields-le-length (field k v fs) h,
      ))

  size_items-le-length : (vs : Items) → HaveTokens vs → size_items vs ≤ length (items_text vs) + 1
  size_items-le-length nil h = omega arith
  size_items-le-length (cons v nil) h = omega (arith, length-append {0}, size-le-length v h.0)
  size_items-le-length (cons v (cons w vs)) h =
      omega (arith, length-append {0}, size-le-length v h.0, size_items-le-length (cons w vs) h.1)

  size_fields-le-length :
      (fs : Fields) → FieldsHaveTokens fs → size_fields fs ≤ length (fields_text fs) + 1
  size_fields-le-length end h = omega arith
  size_fields-le-length (field k v end) h = omega (arith, length-append {0}, size-le-length v h.0)
  size_fields-le-length (field k v (field j w fs)) h =
      omega
        (arith, length-append {0}, size-le-length v h.0, size_fields-le-length (field j w fs) h.1)

-- A JSON value in which every number or literal is a text of token characters (letters, digits, signs
-- and points, at least one), written by the emitter's functions, is read back as itself, with nothing
-- left behind it.
pub read_document-render : (v : Value) → HasTokens v → read_document (render v) ≡ some v
unfolding read_document
read_document-render v h = ap whole (
    ap (read_value (length (render v))) (sym (append-nil (render v)))
    ∙ read-render v (length (render v)) [] (size-le-length v h) h tt)

-- The document of a run.
abbrev pub run_value : Value → Items → Value
run_value meta cases = obj (field (codes "meta") meta (field (codes "cases") (arr cases) end))

-- What emit_run writes of rendered parts is one JSON object with the two members of a run.
pub emit_run-render :
    (meta : Value) (cases : Items)
    → emit_run (render meta) (render_items cases) ≡ render (run_value meta cases)
unfolding emit_run render
emit_run-render meta cases = refl

-- A run whose metadata and cases are JSON values in which every number or literal is a text of token
-- characters, written by the emitter, is one document, and read back as the object of its two
-- members, with every case in order.
pub read_document-emit_run :
    (meta : Value) (cases : Items)
    → HasTokens meta
    → HaveTokens cases
    → read_document (emit_run (render meta) (render_items cases)) ≡ some (run_value meta cases)
read_document-emit_run meta cases hm hc =
    rw emit_run-render (read_document-render (run_value meta cases) (hm, (hc, tt)))
