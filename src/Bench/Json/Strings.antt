-- ===== src/Bench/Json/Strings.antt =====
-- The inverse of json_string: a reader of JSON string literals, written from RFC 8259, and the proof
-- that it undoes the emitter's escapes.
use sciforge.Base.{
  ℕ, zero, suc, ◌+◌, ◌-◌, ◌*◌, ◌/◌, ◌%◌, ◌<◌, ◌≡◌, refl, ap, Bytes, codes, Bool, true, false, ◌&&◌,
  ◌||◌, [], ◌∷◌, ◌++◌, Option, none, some, arith, ltb, leb, ◌==◌, if◌then◌else◌, append_assoc,
  append-nil, holds_under, holds_at, ==_iff,
}
use sciforge.Bench.Json.{hex_digit, escape, escape_loop, json_string}

-- Inside a literal: between characters, behind a backslash, or within `\u` with digits to come.
pub data Mode : Type 0 where
  plain escaped : Mode
  unicode : (digits_left : ℕ) → (value : ℕ) → Mode

-- What one byte does: it ends the literal, is refused, or appends bytes and goes on in a mode.
pub data Step : Type 0 where
  stop fail : Step
  go : Mode → Bytes → Step

hex_value : ℕ → Option ℕ
hex_value c =
    if leb b'0' c && leb c b'9'
    then some (c - b'0')
    else if leb b'a' c && leb c b'f'
    then some (c - b'a' + 10)
    else if leb b'A' c && leb c b'F'
    then some (c - b'A' + 10)
    else none

-- The UTF-8 bytes of a code point of the basic plane.
utf8 : ℕ → Bytes
utf8 v =
    if ltb v 0x80
    then v ∷ []
    else if ltb v 0x800
    then (0xc0 + v / 64) ∷ (0x80 + v % 64) ∷ []
    else (0xe0 + v / 4096) ∷ (0x80 + v / 64 % 64) ∷ (0x80 + v % 64) ∷ []

plain_step : ℕ → Step
plain_step c =
    if c == b'"'
    then stop
    else if c == b'\\'
    then go escaped []
    else if ltb c 0x20
    then fail
    else go plain (c ∷ [])

escaped_step : ℕ → Step
escaped_step c =
    if (c == b'"') || (c == b'\\') || (c == b'/')
    then go plain (c ∷ [])
    else if c == b'b'
    then go plain (8 ∷ [])
    else if c == b'f'
    then go plain (12 ∷ [])
    else if c == b'n'
    then go plain (10 ∷ [])
    else if c == b'r'
    then go plain (13 ∷ [])
    else if c == b't'
    then go plain (9 ∷ [])
    else if c == b'u'
    then go (unicode 4 0) []
    else fail

unicode_step : ℕ → ℕ → Option ℕ → Step
unicode_step k v none = fail
unicode_step zero v (some d) = fail
unicode_step (suc zero) v (some d) = go plain (utf8 (v * 16 + d))
unicode_step (suc (suc k)) v (some d) = go (unicode (suc k) (v * 16 + d)) []

step : Mode → ℕ → Step
unfolding plain_step escaped_step unicode_step
step plain c = plain_step c
step escaped c = escaped_step c
step (unicode k v) c = unicode_step k v (hex_value c)

-- Reads up to the closing quote: the text, and the bytes behind the quote.
pub read_literal : Bytes → Mode → Bytes → Option (Bytes × Bytes)
unfolding step
read_literal [] m out = none
read_literal (c ∷ s) m out = elim (step m c) [
  | stop ↦ some (out, s)
  | fail ↦ none
  | go m' bytes ↦ read_literal s m' (out ++ bytes)
]

decodes : ℕ → Bool
decodes d = elim (hex_value (hex_digit d)) [ none ↦ false | some e ↦ e == d ]

decodes_table : holds_under 16 decodes ≡ true
unfolding holds_under decodes hex_value
decodes_table = refl

hex_value-hex_digit : (d : ℕ) → d < 16 → hex_value (hex_digit d) ≡ some d
hex_value-hex_digit d h =
    decodes_eq (hex_value (hex_digit d)) (unfold decodes in holds_at decodes 16 d h decodes_table)
  where
    decodes_eq :
        (o : Option ℕ)
        → elim o as (λ _. Bool) [ none ↦ false | some e ↦ e == d ] ≡ true
        → o ≡ some d
    decodes_eq none e = cc
    decodes_eq (some e) p = ap some ((==_iff e d).0 p)

read_go :
    (c : ℕ) (s : Bytes) (m m' : Mode) (out b : Bytes)
    → step m c ≡ go m' b
    → read_literal (c ∷ s) m out ≡ read_literal s m' (out ++ b)
unfolding read_literal
read_go c s m m' out b e = rw (e, read_literal)

step_digit :
    (k v d : ℕ)
    → d < 16
    → step (unicode (suc (suc k)) v) (hex_digit d) ≡ go (unicode (suc k) (v * 16 + d)) []
unfolding step
step_digit k v d h = ap (unicode_step (suc (suc k)) v) (hex_value-hex_digit d h)

step_last_digit :
    (v d : ℕ) → d < 16 → step (unicode 1 v) (hex_digit d) ≡ go plain (utf8 (v * 16 + d))
unfolding step
step_last_digit v d h = ap (unicode_step 1 v) (hex_value-hex_digit d h)

utf8_nibbles : (c : ℕ) → c < 32 → utf8 ((0 * 16 + c / 16) * 16 + c % 16) ≡ c ∷ []
unfolding utf8
utf8_nibbles c h = ground arith

-- The six bytes that stand for a control character are read as that character.
read_control :
    (c : ℕ) (rest out : Bytes)
    → c < 32
    → read_literal (codes "\\u00" ++ hex_digit (c / 16) ∷ hex_digit (c % 16) ∷ rest) plain out
      ≡ read_literal rest plain (out ++ c ∷ [])
read_control c rest out h =
    rw
      (
        read_go b'\\' _ plain escaped out [] (unfold step in refl),
        read_go b'u' _ escaped (unicode 4 0) _ [] (unfold step in refl),
        read_go b'0' _ (unicode 4 0) (unicode 3 0) _ [] (step_digit 2 0 0 (omega arith)),
        read_go b'0' _ (unicode 3 0) (unicode 2 0) _ [] (step_digit 1 0 0 (omega arith)),
        read_go _ _ (unicode 2 0) (unicode 1 _) _ [] (step_digit 0 0 (c / 16) (omega arith)),
        read_go _ rest (unicode 1 _) plain _ _ (step_last_digit _ (c % 16) (omega arith)),
        utf8_nibbles c h,
      )
      (simp append-nil)

read_literal-escape :
    (c : ℕ) (rest out : Bytes)
    → read_literal (escape c ++ rest) plain out ≡ read_literal rest plain (out ++ c ∷ [])
unfolding read_literal escape
read_literal-escape c rest out = ground (arith, read_control c rest out, append-nil out)

-- `out` with the escapes of a text behind it.
pub flat_escapes : Bytes → Bytes
flat_escapes [] = []
flat_escapes (c ∷ s) = escape c ++ flat_escapes s

escape_loop-flat_escapes : (s out : Bytes) → escape_loop s out ≡ out ++ flat_escapes s
unfolding escape_loop flat_escapes
escape_loop-flat_escapes [] out = rw append-nil
escape_loop-flat_escapes (c ∷ s) out = simp (escape_loop-flat_escapes s, append_assoc)

pub read_literal-flat_escapes :
    (s rest out : Bytes)
    → read_literal (flat_escapes s ++ b'"' ∷ rest) plain out ≡ some (out ++ s, rest)
unfolding flat_escapes
read_literal-flat_escapes [] rest out = unfold read_literal in rw append-nil
read_literal-flat_escapes (c ∷ s) rest out =
    simp (append_assoc, read_literal-escape, read_literal-flat_escapes s)

-- A whole string literal.
pub read_string : Bytes → Option (Bytes × Bytes)
read_string [] = none
read_string (c ∷ s) = if c == b'"' then read_literal s plain [] else none

pub json_string-quoted : (s : Bytes) → json_string s ≡ b'"' ∷ (flat_escapes s ++ b'"' ∷ [])
unfolding json_string
json_string-quoted s = rw escape_loop-flat_escapes

-- A conforming reader of string literals reads what json_string writes of a text, whatever bytes
-- the text holds, back as that text, and stops exactly behind it.
pub read_string-json_string :
    (s rest : Bytes) → read_string (json_string s ++ rest) ≡ some (s, rest)
unfolding read_string
read_string-json_string s rest =
    simp (json_string-quoted, append_assoc) (read_literal-flat_escapes s rest [])
