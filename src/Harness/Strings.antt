-- ===== src/Harness/Strings.antt =====
-- include/sciforge/test/strings.hpp: the two helpers that build texts for tests.
use sciforge.Base.{
  ℕ, ◌-◌, ◌%◌, ◌≡◌, refl, ap, sym, ◌∙◌, Bytes, IsByte, List, [], ◌∷◌, ◌++◌, map, All, append_assoc,
  append-nil, arith,
}
use sciforge.Base.Int.{ℤ, pos, negsuc}

-- The loop of cat, over the text so far.
unfoldable pub cat_loop : Bytes → List Bytes → Bytes
cat_loop result [] = result
cat_loop result (part ∷ parts) = cat_loop (result ++ part) parts

unfoldable pub cat : List Bytes → Bytes
unfolding cat_loop
cat parts = cat_loop [] parts

-- `static_cast<char>` of an int, as the byte that it leaves.
abbrev pub to_char : ℤ → ℕ
to_char (pos n) = n % 256
to_char (negsuc n) = 255 - n % 256

unfoldable pub bytes_loop : Bytes → List ℤ → Bytes
bytes_loop result [] = result
bytes_loop result (value ∷ values) = bytes_loop (result ++ to_char value ∷ []) values

unfoldable pub bytes : List ℤ → Bytes
unfolding bytes_loop
bytes values = bytes_loop [] values

bytes_loop-append :
    (result : Bytes) (values : List ℤ) → bytes_loop result values ≡ result ++ map to_char values
unfolding bytes_loop
bytes_loop-append result [] = sym (append-nil result)
bytes_loop-append result (value ∷ values) =
    bytes_loop-append (result ++ to_char value ∷ []) values
    ∙ append_assoc result (to_char value ∷ []) (map to_char values)

bytes-map : (values : List ℤ) → bytes values ≡ map to_char values
unfolding bytes
bytes-map values = bytes_loop-append [] values

to_char-IsByte : (value : ℤ) → IsByte (to_char value)
to_char-IsByte (pos n) = omega arith
to_char-IsByte (negsuc n) = omega arith

map-IsByte : (values : List ℤ) → All IsByte (map to_char values)
map-IsByte [] = tt
map-IsByte (value ∷ values) = (to_char-IsByte value, map-IsByte values)

-- bytes gives a text of bytes, whatever the ints.
pub bytes-IsByte : (values : List ℤ) → All IsByte (bytes values)
bytes-IsByte values = rw (bytes-map values) (map-IsByte values)

abbrev pub join : List (List ℤ) → List ℤ
join [] = []
join (xs ∷ xss) = xs ++ join xss

map-append : (xs ys : List ℤ) → map to_char (xs ++ ys) ≡ map to_char xs ++ map to_char ys
map-append [] ys = refl
map-append (x ∷ xs) ys = ap (λ t. to_char x ∷ t) (map-append xs ys)

cat_loop-bytes :
    (result : Bytes) (parts : List (List ℤ))
    → cat_loop result (map bytes parts) ≡ result ++ bytes (join parts)
unfolding cat_loop
cat_loop-bytes result [] = sym (append-nil result) ∙ ap (λ t. result ++ t) (sym (bytes-map []))
cat_loop-bytes result (part ∷ parts) =
    cat_loop-bytes (result ++ bytes part) parts
    ∙ append_assoc result (bytes part) (bytes (join parts))
    ∙ ap (λ t. result ++ t)
        (rw (bytes-map part, bytes-map (join parts), bytes-map (part ++ join parts))
          (sym (map-append part (join parts))))

-- cat of texts that bytes has made is the text that bytes makes of all their values in order.
pub cat-bytes : (parts : List (List ℤ)) → cat (map bytes parts) ≡ bytes (join parts)
unfolding cat
cat-bytes parts = cat_loop-bytes [] parts
