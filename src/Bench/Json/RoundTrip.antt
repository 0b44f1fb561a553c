-- ===== src/Bench/Json/RoundTrip.antt =====
-- What the emitter of include/sciforge/bench.hpp writes is read back by a JSON reader.
use sciforge.Base.{
  ℕ, zero, suc, ◌+◌, ◌≤◌, ◌≡◌, ◌≢◌, refl, Bytes, true, false, ◌==◌, List, [], ◌∷◌, ◌++◌, map, none,
  some, arith, append_assoc, append-nil, All,
}
use sciforge.Bench.Json.{json_string, json_join, join_loop, json_object, bracketed, member}
use sciforge.Bench.Json.Strings.{json_string-quoted, read_literal-flat_escapes}
use sciforge.Bench.Json.Reader.{
  Value, Items, Fields, str, token, arr, obj, nil, cons, end, field, is_token_char, span_token,
  read_value, read_items, read_fields, expect, Head, head,
}

-- A document as the emitter's functions write it.
unfoldable mutual
  pub render : Value → Bytes
  render (str s) = json_string s
  render (token t) = t
  render (arr vs) = bracketed (render_items vs)
  render (obj fs) = json_object (render_fields fs)

  pub render_items : Items → List Bytes
  render_items nil = []
  render_items (cons v vs) = render v ∷ render_items vs

  pub render_fields : Fields → List (Bytes × Bytes)
  render_fields end = []
  render_fields (field k v fs) = (k, render v) ∷ render_fields fs

-- The nodes of a document: the fuel that reading it takes.
abbrev mutual
  pub size : Value → ℕ
  size (str s) = 1
  size (token t) = 1
  size (arr vs) = suc (size_items vs)
  size (obj fs) = suc (size_fields fs)

  pub size_items : Items → ℕ
  size_items nil = 0
  size_items (cons v vs) = suc (size v + size_items vs)

  pub size_fields : Fields → ℕ
  size_fields end = 0
  size_fields (field k v fs) = suc (size v + size_fields fs)

abbrev pub IsToken : Bytes → Type 0
IsToken t = (t ≢ []) × All (λ c. is_token_char c ≡ true) t

-- Every token of the document is one.
abbrev mutual
  pub HasTokens : Value → Type 0
  HasTokens (str s) = Unit
  HasTokens (token t) = IsToken t
  HasTokens (arr vs) = HaveTokens vs
  HasTokens (obj fs) = FieldsHaveTokens fs

  pub HaveTokens : Items → Type 0
  HaveTokens nil = Unit
  HaveTokens (cons v vs) = HasTokens v × HaveTokens vs

  pub FieldsHaveTokens : Fields → Type 0
  FieldsHaveTokens end = Unit
  FieldsHaveTokens (field k v fs) = HasTokens v × FieldsHaveTokens fs

-- No token goes on in `rest`.
abbrev pub Ends : Bytes → Type 0
Ends [] = Unit
Ends (c ∷ s) = is_token_char c ≡ false

-- Every item behind a comma.
unfoldable pub commas : List Bytes → Bytes
commas [] = []
commas (x ∷ xs) = b',' ∷ (x ++ commas xs)

suc-eq-zero : (i : ℕ) → (suc i == 0) ≡ false
suc-eq-zero i = ground arith

join_loop-commas :
    (i : ℕ) (xs : List Bytes) (out : Bytes) → join_loop (suc i) xs out ≡ out ++ commas xs
unfolding join_loop commas
join_loop-commas i [] out = rw append-nil
join_loop-commas i (x ∷ xs) out = simp (suc-eq-zero i, join_loop-commas (suc i) xs, append_assoc)

pub json_join-commas : (x : Bytes) (xs : List Bytes) → json_join (x ∷ xs) ≡ x ++ commas xs
unfolding json_join
json_join-commas x xs = join_loop-commas 0 xs x

span_token-append :
    (t rest : Bytes)
    → All (λ c. is_token_char c ≡ true) t
    → Ends rest
    → span_token (t ++ rest) ≡ (t, rest)
unfolding span_token
span_token-append [] [] h e = refl
span_token-append [] (c ∷ rest) h e = rw e
span_token-append (c ∷ t) rest h e = rw (h.0, span_token-append t rest h.1 e)

-- A document does not begin with a closing bracket.
expect-render : (v : Value) (rest : Bytes) → HasTokens v → expect b']' (render v ++ rest) ≡ none
unfolding render json_object
expect-render (str s) rest h = rw json_string-quoted
expect-render (token []) rest h = absurd (h.0 refl)
expect-render (token (c ∷ t)) rest h = unfold is_token_char in ground arith
expect-render (arr vs) rest h = refl
expect-render (obj fs) rest h = refl

-- A key's literal begins with a quote.
expect-json_string :
    (b : ℕ) (k rest : Bytes) → (b'"' == b) ≡ false → expect b (json_string k ++ rest) ≡ none
expect-json_string b k rest h = rw (json_string-quoted, h)

head-word : (c : ℕ) → is_token_char c ≡ true → head c ≡ Head.word
unfolding is_token_char
head-word c h = ground arith

-- One step of the reader for each form of a document, over the reads of its parts.
module _ (f : ℕ) where
  read_token :
      (c : ℕ) (t rest : Bytes)
      → IsToken (c ∷ t)
      → Ends rest
      → read_value (suc f) (c ∷ (t ++ rest)) ≡ some (token (c ∷ t), rest)
  unfolding read_value
  read_token c t rest h e =
      rw (head-word c h.1.0, span_token-append (c ∷ t) rest h.1 e, read_value) refl

  read_str : (s rest : Bytes) → read_value (suc f) (json_string s ++ rest) ≡ some (str s, rest)
  unfolding read_value
  read_str s rest =
      simp (json_string-quoted, append_assoc)
        (rw (read_literal-flat_escapes s rest [], read_value) refl)

  read_empty_arr : (rest : Bytes) → read_value (suc f) (b'[' ∷ b']' ∷ rest) ≡ some (arr nil, rest)
  unfolding read_value
  read_empty_arr rest = refl

  read_empty_obj : (rest : Bytes) → read_value (suc f) (b'{' ∷ b'}' ∷ rest) ≡ some (obj end, rest)
  unfolding read_value
  read_empty_obj rest = refl

  read_arr :
      (s : Bytes) {r : Bytes} {vs : Items}
      → expect b']' s ≡ none
      → read_items f s ≡ some (vs, r)
      → read_value (suc f) (b'[' ∷ s) ≡ some (arr vs, r)
  unfolding read_value
  read_arr s e h = rw (e, h, read_value)

  read_obj :
      (s : Bytes) {r : Bytes} {fs : Fields}
      → expect b'}' s ≡ none
      → read_fields f s ≡ some (fs, r)
      → read_value (suc f) (b'{' ∷ s) ≡ some (obj fs, r)
  unfolding read_value
  read_obj s e h = rw (e, h, read_value)

  read_last_item :
      (s : Bytes) {r : Bytes} {v : Value}
      → read_value f s ≡ some (v, b']' ∷ r)
      → read_items (suc f) s ≡ some (cons v nil, r)
  unfolding read_items
  read_last_item s h = rw (h, read_items)

  read_item :
      (s r : Bytes) {q : Bytes} {v : Value} {vs : Items}
      → read_value f s ≡ some (v, b',' ∷ r)
      → read_items f r ≡ some (vs, q)
      → read_items (suc f) s ≡ some (cons v vs, q)
  unfolding read_items
  read_item s r h t = rw (h, t, read_items)

  read_last_field :
      (k s : Bytes) {r : Bytes} {v : Value}
      → read_value f s ≡ some (v, b'}' ∷ r)
      → read_fields (suc f) (json_string k ++ b':' ∷ s) ≡ some (field k v end, r)
  unfolding read_fields
  read_last_field k s h =
      simp (json_string-quoted, append_assoc)
        (rw (read_literal-flat_escapes k (b':' ∷ s) [], h, read_fields) refl)

  read_field :
      (k s r : Bytes) {q : Bytes} {v : Value} {fs : Fields}
      → read_value f s ≡ some (v, b',' ∷ r)
      → read_fields f r ≡ some (fs, q)
      → read_fields (suc f) (json_string k ++ b':' ∷ s) ≡ some (field k v fs, q)
  unfolding read_fields
  read_field k s r h t =
      simp (json_string-quoted, append_assoc)
        (rw (read_literal-flat_escapes k (b':' ∷ s) [], h, t, read_fields) refl)

-- The text between the brackets, and between the braces.
unfoldable pub items_text : Items → Bytes
items_text nil = []
items_text (cons v vs) = render v ++ commas (render_items vs)

unfoldable pub fields_text : Fields → Bytes
fields_text end = []
fields_text (field k v fs) = member (k, render v) ++ commas (map member (render_fields fs))

separators_end :
    (is_token_char b',' ≡ false) × (is_token_char b']' ≡ false) × (is_token_char b'}' ≡ false)
unfolding is_token_char
separators_end = (refl, refl, refl)

json_join-nil : json_join [] ≡ []
unfolding json_join
json_join-nil = refl

mutual
  unfolding render items_text fields_text json_object commas

  pub read-render :
      (v : Value) (f : ℕ) (rest : Bytes)
      → size v ≤ f
      → HasTokens v
      → Ends rest
      → read_value f (render v ++ rest) ≡ some (v, rest)
  read-render (str s) zero rest le h e = absurd (omega arith)
  read-render (str s) (suc f) rest le h e = read_str f s rest
  read-render (token t) zero rest le h e = absurd (omega arith)
  read-render (token []) (suc f) rest le h e = absurd (h.0 refl)
  read-render (token (c ∷ t)) (suc f) rest le h e = read_token f c t rest h e
  read-render (arr vs) zero rest le h e = absurd (omega arith)
  read-render (arr nil) (suc f) rest le h e = rw json_join-nil (read_empty_arr f rest)
  read-render (arr (cons v vs)) (suc f) rest le h e =
      rw (json_join-commas, append_assoc)
        (read_arr f _ (rw append_assoc (expect-render v _ h.0))
          (read-render_items (cons v vs) f rest (omega arith) h (cc)))
  read-render (obj fs) zero rest le h e = absurd (omega arith)
  read-render (obj end) (suc f) rest le h e = rw json_join-nil (read_empty_obj f rest)
  read-render (obj (field k v fs)) (suc f) rest le h e =
      rw (json_join-commas, append_assoc)
        (read_obj f _ (simp append_assoc (expect-json_string b'}' k _ refl))
          (read-render_fields (field k v fs) f rest (omega arith) h cc))

  read-render_items :
      (vs : Items) (f : ℕ) (rest : Bytes)
      → size_items vs ≤ f
      → HaveTokens vs
      → vs ≢ nil
      → read_items f (items_text vs ++ b']' ∷ rest) ≡ some (vs, rest)
  read-render_items nil f rest le h ne = absurd (ne refl)
  read-render_items (cons v vs) zero rest le h ne = absurd (omega arith)
  read-render_items (cons v nil) (suc f) rest le h ne =
      rw append-nil
        (read_last_item f _ (read-render v f (b']' ∷ rest) (omega arith) h.0 separators_end.1))
  read-render_items (cons v (cons w vs)) (suc f) rest le h ne = rw append_assoc (
      read_item f _ _ (read-render v f _ (omega arith) h.0 separators_end.0)
        (read-render_items (cons w vs) f rest (omega arith) h.1 cc))

  read-render_fields :
      (fs : Fields) (f : ℕ) (rest : Bytes)
      → size_fields fs ≤ f
      → FieldsHaveTokens fs
      → fs ≢ end
      → read_fields f (fields_text fs ++ b'}' ∷ rest) ≡ some (fs, rest)
  read-render_fields end f rest le h ne = absurd (ne refl)
  read-render_fields (field k v fs) zero rest le h ne = absurd (omega arith)
  read-render_fields (field k v end) (suc f) rest le h ne =
      simp (append-nil, append_assoc)
        (read_last_field f k _ (read-render v f _ (omega arith) h.0 separators_end.2))
  read-render_fields (field k v (field j w fs)) (suc f) rest le h ne = simp append_assoc (
      read_field f k _ _ (read-render v f _ (omega arith) h.0 separators_end.0)
        (simp append_assoc at (read-render_fields (field j w fs) f rest (omega arith) h.1 cc)))
