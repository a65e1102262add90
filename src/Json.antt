-- ===== src/Json.antt =====
-- encoding/json, as far as the program's packets use it: strings with the HTML-safe escapes,
-- integers, arrays, and objects whose empty fields are left out.
use pancakes_harness.Prelude.{
  ℕ, zero, suc, ◌+◌, ◌-◌, Bool, false, ◌&&◌, ◌||◌, List, [], ◌∷◌, ◌++◌, ltb, leb, nat_eq,
  if◌then◌else◌,
}
use Prim.Native.Nat.{◌/◌, ◌%◌}
use pancakes_harness.Prelude.Int.{ℤ, pos, negsuc}
use pancakes_harness.Bytes.{Str, codes}

is_tail : ℕ → Bool
is_tail b = leb 0x80 b && leb b 0xbf

-- The bytes of the UTF-8 sequence that begins with these, 0 where that is none.
rune_width : ℕ → Str → ℕ
unfolding is_tail
rune_width a (b ∷ c ∷ d ∷ s) =
    if leb 0xc2 a && leb a 0xdf && is_tail b
    then 2
    else if ((nat_eq a 0xe0 && leb 0xa0 b)
          || (leb 0xe1 a && leb a 0xec)
          || (nat_eq a 0xed && leb b 0x9f)
          || (leb 0xee a && leb a 0xef))
        && is_tail b
        && is_tail c
    then 3
    else if ((nat_eq a 0xf0 && leb 0x90 b)
          || (leb 0xf1 a && leb a 0xf3)
          || (nat_eq a 0xf4 && leb b 0x8f))
        && is_tail b
        && is_tail c
        && is_tail d
    then 4
    else 0
rune_width a (b ∷ c ∷ []) =
    if leb 0xc2 a && leb a 0xdf && is_tail b
    then 2
    else if ((nat_eq a 0xe0 && leb 0xa0 b)
          || (leb 0xe1 a && leb a 0xec)
          || (nat_eq a 0xed && leb b 0x9f)
          || (leb 0xee a && leb a 0xef))
        && is_tail b
        && is_tail c
    then 3
    else 0
rune_width a (b ∷ []) = if leb 0xc2 a && leb a 0xdf && is_tail b then 2 else 0
rune_width a [] = 0

hex_digit : ℕ → ℕ
hex_digit n = if ltb n 10 then 48 + n else 87 + n

-- a byte below 0x80
escape_ascii : ℕ → Str
unfolding hex_digit
escape_ascii a =
    if nat_eq a b'"' || nat_eq a 92
    then 92 ∷ a ∷ []
    else if nat_eq a 8
    then codes "\\b"
    else if nat_eq a 12
    then codes "\\f"
    else if nat_eq a 10
    then codes "\\n"
    else if nat_eq a 13
    then codes "\\r"
    else if nat_eq a 9
    then codes "\\t"
    else if ltb a 32 || nat_eq a b'<' || nat_eq a b'>' || nat_eq a b'&'
    then codes "\\u00" ++ hex_digit (a / 16) ∷ hex_digit (a % 16) ∷ []
    else a ∷ []

-- U+2028 and U+2029
is_separator : ℕ → Str → Bool
is_separator a (b ∷ c ∷ s) = nat_eq a 0xe2 && nat_eq b 0x80 && (nat_eq c 0xa8 || nat_eq c 0xa9)
is_separator a _ = false

separator_digit : Str → ℕ
separator_digit (b ∷ c ∷ s) = if nat_eq c 0xa8 then b'8' else b'9'
separator_digit _ = b'8'

-- what the rune that begins here is written as, as far as its first byte
first_bytes : ℕ → Str → Str
unfolding escape_ascii rune_width is_separator separator_digit
first_bytes a s =
    if ltb a 0x80
    then escape_ascii a
    else if is_separator a s
    then codes "\\u202" ++ separator_digit s ∷ []
    else if nat_eq (rune_width a s) 0
    then codes "\\ufffd"
    else a ∷ []

-- how many bytes after it are copied, and how many are left out
to_copy : ℕ → Str → ℕ
unfolding rune_width is_separator
to_copy a s = if ltb a 0x80 || is_separator a s then 0 else rune_width a s - 1

to_skip : ℕ → Str → ℕ
unfolding is_separator
to_skip a s = if ltb a 0x80 then 0 else if is_separator a s then 2 else 0

escape : ℕ → ℕ → Str → Str
unfolding first_bytes to_copy to_skip
escape copied skipped [] = []
escape (suc copied) skipped (a ∷ s) = a ∷ escape copied skipped s
escape zero (suc skipped) (a ∷ s) = escape zero skipped s
escape zero zero (a ∷ s) = first_bytes a s ++ escape (to_copy a s) (to_skip a s) s

unfoldable pub quote : Str → Str
unfolding escape
quote s = b'"' ∷ (escape 0 0 s ++ b'"' ∷ [])

decimal_from : ℕ → ℕ → Str → Str
decimal_from zero n digits = digits
decimal_from (suc fuel) n digits =
    let rest = decimal_from fuel (n / 10) ((48 + n % 10) ∷ digits) in
    if ltb n 10 then (48 + n) ∷ digits else rest

-- A number has no more digits than its successor.
decimal : ℕ → Str
unfolding decimal_from
decimal n = decimal_from (suc n) n []

unfoldable pub of_int : ℤ → Str
unfolding decimal
of_int (pos n) = decimal n
of_int (negsuc n) = b'-' ∷ decimal (n + 1)

-- the elements of an array, with their commas
unfoldable pub joined : List Str → Str
joined [] = []
joined (x ∷ []) = x
joined (x ∷ y ∷ xs) = x ++ (b',' ∷ joined (y ∷ xs))

unfoldable pub array : List Str → Str
unfolding joined
array xs = b'[' ∷ (joined xs ++ b']' ∷ [])

unfoldable pub object : List Str → Str
unfolding joined
object fields = b'{' ∷ (joined fields ++ b'}' ∷ [])

-- one field, its name being plain ASCII
abbrev pub member : Str → Str → Str
member name value = b'"' ∷ (name ++ (b'"' ∷ b':' ∷ value))
