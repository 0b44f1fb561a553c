-- ===== src/Bench/Json/Reader.antt =====
-- JSON documents and a reader of compact ones, written from the grammar of RFC 8259. A number or a
-- word such as `true` or `NaN` is a token: a run of letters, digits, `+`, `-` and `.`.
use sciforge.Base.{
  ℕ, zero, suc, Bytes, Bool, ◌&&◌, ◌||◌, [], ◌∷◌, Option, none, some, leb, ◌==◌, if◌then◌else◌,
}
use sciforge.Bench.Json.Strings.{read_literal, plain}

mutual
  pub data Value : Type 0 where
    str : Bytes → Value
    token : Bytes → Value
    arr : Items → Value
    obj : Fields → Value

  pub data Items : Type 0 where
    nil : Items
    cons : Value → Items → Items

  pub data Fields : Type 0 where
    end : Fields
    field : Bytes → Value → Fields → Fields

unfoldable pub is_token_char : ℕ → Bool
is_token_char c =
    (leb b'0' c && leb c b'9')
    || (leb b'a' c && leb c b'z')
    || (leb b'A' c && leb c b'Z')
    || (c == b'+')
    || (c == b'-')
    || (c == b'.')

-- The run of token characters at the front, and the rest.
unfoldable pub span_token : Bytes → Bytes × Bytes
unfolding is_token_char
span_token [] = ([], [])
span_token (c ∷ s) =
    let (t, r) = span_token s in if is_token_char c then (c ∷ t, r) else ([], c ∷ s)

infixl 5 ◌>>=◌
abbrev pub ◌>>=◌ {ℓ κ} : {A : Type ℓ} {B : Type κ} → Option A → (A → Option B) → Option B
none >>= f = none
some a >>= f = f a

-- What a value begins with.
pub data Head : Type 0 where
  quote bracket brace word : Head

abbrev pub head : ℕ → Head
head c =
    if c == b'"'
    then Head.quote
    else if c == b'['
    then bracket
    else if c == b'{'
    then brace
    else word

-- What stands behind an element: a comma, the closing byte, or neither; then the rest.
pub data Next : Type 0 where
  more close : Bytes → Next
  bad : Next

abbrev pub next : ℕ → Bytes → Next
next closing [] = bad
next closing (c ∷ s) = if c == b',' then more s else if c == closing then close s else bad

abbrev pub expect : ℕ → Bytes → Option Bytes
expect byte [] = none
expect byte (c ∷ s) = if c == byte then some s else none

-- A token has at least one character.
abbrev pub as_token : Bytes × Bytes → Option (Value × Bytes)
as_token ([], r) = none
as_token (c ∷ t, r) = some (token (c ∷ t), r)

-- Each function reads at the front and gives the bytes behind; `none` is a syntax error, or the end
-- of the fuel, which counts the nodes still allowed.
unfoldable mutual
  unfolding span_token

  pub read_value : ℕ → Bytes → Option (Value × Bytes)
  read_value zero s = none
  read_value (suc f) [] = none
  read_value (suc f) (c ∷ s) = elim (head c) [
    | Head.quote ↦ do (t, r) ← read_literal s plain []; some (str t, r)
    | bracket ↦ elim (expect b']' s) [
      | some r ↦ some (arr nil, r)
      | none ↦ do (vs, r) ← read_items f s; some (arr vs, r)
    ]
    | brace ↦ elim (expect b'}' s) [
      | some r ↦ some (obj end, r)
      | none ↦ do (vs, r) ← read_fields f s; some (obj vs, r)
    ]
    | word ↦ as_token (span_token (c ∷ s))
  ]

  pub read_items : ℕ → Bytes → Option (Items × Bytes)
  read_items zero s = none
  read_items (suc f) s = do
    (v, r) ← read_value f s
    elim (next b']' r) [
      | more r' ↦ do (vs, r'') ← read_items f r'; some (cons v vs, r'')
      | close r' ↦ some (cons v nil, r')
      | bad ↦ none
    ]

  pub read_fields : ℕ → Bytes → Option (Fields × Bytes)
  read_fields zero s = none
  read_fields (suc f) s = do
    q ← expect b'"' s
    (k, r) ← read_literal q plain []
    r' ← expect b':' r
    (v, r'') ← read_value f r'
    elim (next b'}' r'') [
      | more q' ↦ do (fs, q'') ← read_fields f q'; some (field k v fs, q'')
      | close q' ↦ some (field k v end, q')
      | bad ↦ none
    ]
