-- ===== src/Bench/Json/Cases.antt =====
-- One case of a run: what emit_case of include/sciforge/bench.hpp writes, read back.
use sciforge.Base.{
  ◌<◌, ◌≡◌, ◌≢◌, refl, ap, Bytes, codes, false, List, [], ◌∷◌, ◌++◌, Option, none, some, arith, All,
  length, Bool-cases, inl, inr,
}
use sciforge.Cpp.{ok, collect_all}
use sciforge.Bench.Json.{
  Double, json_number, json_array, emit_case, json_object, result_field, from_buffer,
}
use sciforge.Bench.Json.Strings.{json_string-quoted}
use sciforge.Bench.Json.Reader.{
  Value, Items, Fields, str, token, arr, obj, nil, cons, field, is_token_char,
}
use sciforge.Bench.Json.RoundTrip.{
  render, render_items, render_fields, IsToken, HasTokens, HaveTokens, FieldsHaveTokens,
}
use sciforge.Bench.Json.Documents.{read_document, read_document-render}

-- The numbers of a case as a JSON array.
abbrev pub token_items : List Bytes → Items
token_items [] = nil
token_items (t ∷ ts) = cons (token t) (token_items ts)

-- The `result` member, where there is one, in front of the domain members.
abbrev pub with_result : Option Value → Fields → Fields
with_result none domain = domain
with_result (some v) domain = field (codes "result") v domain

abbrev pub result_text : Option Value → Bytes
result_text none = []
result_text (some v) = render v

abbrev pub ResultHasTokens : Option Value → Type 0
ResultHasTokens none = Unit
ResultHasTokens (some v) = HasTokens v

-- The document of a case.
abbrev pub case_value : Bytes → Bytes → List Bytes → Option Value → Fields → Value
case_value name unit texts result domain = obj (
    field (codes "name") (str name) (
      field (codes "unit") (str unit)
        (field (codes "samples") (arr (token_items texts)) (with_result result domain))))

-- What `%.6g` is documented to make of a finite value: a short text of digits, a sign, a point and
-- an exponent.
abbrev pub PrintsNumbers : Double → Type 0
PrintsNumbers D =
    (v : Double.F D)
    → Double.is_nan D v ≡ false
    → Double.is_inf D v ≡ false
    → (t : Bytes) × (Double.print_g D v ≡ some t) × IsToken t × (length t < 64)

token_items-HaveTokens : (ts : List Bytes) → All IsToken ts → HaveTokens (token_items ts)
token_items-HaveTokens [] h = tt
token_items-HaveTokens (t ∷ ts) h = (h.0, token_items-HaveTokens ts h.1)

render-token_items : (ts : List Bytes) → render_items (token_items ts) ≡ ts
unfolding render
render-token_items [] = refl
render-token_items (t ∷ ts) = ap (λ us. t ∷ us) (render-token_items ts)

special_tokens : IsToken (codes "NaN") × IsToken (codes "Infinity") × IsToken (codes "-Infinity")
unfolding is_token_char
special_tokens = (ground arith, ground arith, ground arith)

small_text : (t : Bytes) → length t < 64 → from_buffer (some t) ≡ ok t
small_text t h = ground arith

render-ne-nil : (v : Value) → HasTokens v → render v ≢ []
unfolding render json_object
render-ne-nil (str s) h = rw json_string-quoted cc
render-ne-nil (token t) h = h.0
render-ne-nil (arr vs) h = cc
render-ne-nil (obj fs) h = cc

result_field-some : (t : Bytes) → t ≢ [] → result_field t ≡ (codes "result", t) ∷ []
result_field-some [] h = absurd (h refl)
result_field-some (c ∷ t) h = refl

result_field-append :
    (result : Option Value) (domain : Fields)
    → ResultHasTokens result
    → result_field (result_text result) ++ render_fields domain
      ≡ render_fields (with_result result domain)
unfolding render
result_field-append none domain h = refl
result_field-append (some v) domain h =
    ap (λ fs. fs ++ render_fields domain) (result_field-some (render v) (render-ne-nil v h))

with_result-HaveTokens :
    (result : Option Value) (domain : Fields)
    → ResultHasTokens result
    → FieldsHaveTokens domain
    → FieldsHaveTokens (with_result result domain)
with_result-HaveTokens none domain hr hd = hd
with_result-HaveTokens (some v) domain hr hd = (hr, hd)

module _ (D : Double) (prints : PrintsNumbers D) where
  open D use {F, is_nan, is_inf, is_positive}

  json_number-IsToken : (v : F) → (t : Bytes) × (json_number D v ≡ ok t) × IsToken t
  unfolding json_number
  json_number-IsToken v = elim (Bool-cases (is_nan v)) [
    | inl nan ↦ (codes "NaN", rw nan, special_tokens.0)
    | inr number ↦ elim (Bool-cases (is_inf v)) [
      | inl infinite ↦ elim (Bool-cases (is_positive v)) [
        | inl positive ↦ (codes "Infinity", rw (number, infinite, positive), special_tokens.1)
        | inr negative ↦ (codes "-Infinity", rw (number, infinite, negative), special_tokens.2)
      ]
      | inr finite ↦
          let (t, printed, is_token, short) = prints v number finite in
          (t, rw (number, finite, printed) (small_text t short), is_token)
    ]
  ]

  numbers-IsToken :
      (vs : List F) → (ts : List Bytes) × (collect_all (json_number D) vs ≡ ok ts) × All IsToken ts
  numbers-IsToken [] = ([], refl, tt)
  numbers-IsToken (v ∷ vs) =
      let (t, e, h) = json_number-IsToken v in
      let (ts, es, hs) = numbers-IsToken vs in (t ∷ ts, rw (e, es), (h, hs))

  json_array-render :
      (vs : List F) {ts : List Bytes}
      → collect_all (json_number D) vs ≡ ok ts
      → json_array D vs ≡ ok (render (arr (token_items ts)))
  unfolding json_array render
  json_array-render vs {ts} e = rw (e, render-token_items ts)

  -- Where snprintf prints numbers as documented, emit_case throws nothing, and what it writes is read
  -- back as one object: the name, the unit, the samples in order as json_number writes each, the
  -- result if one is given, and then the domain members.
  pub read_document-emit_case :
      (name unit : Bytes) (samples : List F) (domain : Fields) (result : Option Value)
      → FieldsHaveTokens domain
      → ResultHasTokens result
      → (out : Bytes) × (texts : List Bytes) × (emit_case D name unit samples
            (render_fields domain)
            (result_text result)
          ≡ ok out)
        × (collect_all (json_number D) samples ≡ ok texts)
        × (read_document out ≡ some (case_value name unit texts result domain))
  unfolding emit_case
  read_document-emit_case name unit samples domain result hd hr =
      let (texts, e, hs) = numbers-IsToken samples in
      (
        render (case_value name unit texts result domain),
        texts,
        rw (json_array-render samples e, result_field-append result domain hr)
            (unfold render in refl),
        e,
        read_document-render (case_value name unit texts result domain) (
          tt,
          (tt, (token_items-HaveTokens texts hs, with_result-HaveTokens result domain hr hd)),
        ),
      )
