-- ===== src/Bytes.antt =====
-- Go strings as lists of bytes: equality, order, prefixes, search, trimming and lower case.
use Prim.Native.Char.{code}
use Prim.Native.String.{String}
use mathlib.Core.List.{reverse}
use pancakes_harness.Prelude.{
  ℕ, zero, suc, ◌+◌, ◌-◌, ◌≡◌, ◌≢◌, refl, ◌↔◌, Bool, true, false, ◌&&◌, ◌||◌, List, [], ◌∷◌, arith,
  ltb, leb, nat_eq, if◌then◌else◌, length, drop,
}

abbrev pub Str : Type 0
Str = List ℕ

-- The bytes of an ASCII literal.
abbrev pub codes : String → Str
codes String.[] = []
codes (String.◌∷◌ c s) = code c ∷ codes s

infix 50 ◌==◌
unfoldable pub ◌==◌ : Str → Str → Bool
◌==◌ [] [] = true
◌==◌ (a ∷ s) (b ∷ t) = nat_eq a b && (s == t)
◌==◌ _ _ = false

eq→≡ : (s t : Str) → (s == t) ≡ true → s ≡ t
unfolding ◌==◌
eq→≡ [] [] h = refl
eq→≡ [] (b ∷ t) h = ground arith
eq→≡ (a ∷ s) [] h = ground arith
eq→≡ (a ∷ s) (b ∷ t) h = ground (arith, eq→≡ s t)

pub eq_self : (s : Str) → (s == s) ≡ true
unfolding ◌==◌
eq_self [] = refl
eq_self (a ∷ s) = ground (arith, eq_self s)

≡→eq : (s t : Str) → s ≡ t → (s == t) ≡ true
≡→eq s t h = rw (← h) (eq_self s)

pub eq_iff : (s t : Str) → ((s == t) ≡ true) ↔ (s ≡ t)
eq_iff s t = (eq→≡ s t, ≡→eq s t)

pub eq_apart : (s t : Str) → (s == t) ≡ false → s ≢ t
eq_apart s t h e = let k = ≡→eq s t e in ground arith

-- `s < t`, by bytes
unfoldable pub lt_str : Str → Str → Bool
lt_str [] [] = false
lt_str [] (b ∷ t) = true
lt_str (a ∷ s) [] = false
lt_str (a ∷ s) (b ∷ t) = ltb a b || (nat_eq a b && lt_str s t)

-- strings.HasPrefix
unfoldable pub has_prefix : Str → Str → Bool
has_prefix s [] = true
has_prefix [] (p ∷ ps) = false
has_prefix (a ∷ s) (p ∷ ps) = nat_eq a p && has_prefix s ps

-- strings.Contains
unfoldable pub contains : Str → Str → Bool
unfolding has_prefix
contains [] p = has_prefix [] p
contains (a ∷ s) p = has_prefix (a ∷ s) p || contains s p

-- unicode.IsSpace on the runes of one, two and three bytes
ascii_space : ℕ → Bool
ascii_space a = (leb 9 a && leb a 13) || nat_eq a 32

space_two : ℕ → ℕ → Bool
space_two a b = nat_eq a 0xc2 && (nat_eq b 0x85 || nat_eq b 0xa0)

space_three : ℕ → ℕ → ℕ → Bool
space_three a b c =
    (nat_eq a 0xe1 && nat_eq b 0x9a && nat_eq c 0x80)
    || (nat_eq a 0xe2
        && nat_eq b 0x80
        && ((leb 0x80 c && leb c 0x8a) || nat_eq c 0xa8 || nat_eq c 0xa9 || nat_eq c 0xaf))
    || (nat_eq a 0xe2 && nat_eq b 0x81 && nat_eq c 0x9f)
    || (nat_eq a 0xe3 && nat_eq b 0x80 && nat_eq c 0x80)

-- The bytes of the space that a string begins with, 0 if it begins with none.
front_space : Str → ℕ
unfolding ascii_space space_two space_three
front_space [] = 0
front_space (a ∷ []) = if ascii_space a then 1 else 0
front_space (a ∷ b ∷ []) = if ascii_space a then 1 else if space_two a b then 2 else 0
front_space (a ∷ b ∷ c ∷ s) =
    if ascii_space a then 1 else if space_two a b then 2 else if space_three a b c then 3 else 0

-- The same for the end of a string, which is given in reverse.
back_space : Str → ℕ
unfolding ascii_space space_two space_three
back_space [] = 0
back_space (a ∷ []) = if ascii_space a then 1 else 0
back_space (b ∷ a ∷ []) = if ascii_space b then 1 else if space_two a b then 2 else 0
back_space (c ∷ b ∷ a ∷ s) =
    if ascii_space c then 1 else if space_two b c then 2 else if space_three a b c then 3 else 0

-- Drops spaces while there is one; each round drops a byte at least.
strip : (Str → ℕ) → ℕ → Str → Str
strip width zero s = s
strip width (suc fuel) s =
    let rest = strip width fuel (drop (width s) s) in if nat_eq (width s) 0 then s else rest

-- strings.TrimSpace
unfoldable pub trim_space : Str → Str
unfolding strip front_space back_space drop
trim_space s =
    let t = strip front_space (length s) s in reverse (strip back_space (length t) (reverse t))

-- strings.ToLower as far as an ASCII byte comes out: the letters A to Z, and the two runes beyond
-- ASCII (U+0130, U+212A) that are lowered to `i` and `k`. Other runes stay beyond ASCII.
lower_byte : ℕ → ℕ
lower_byte a = if leb b'A' a && leb a b'Z' then a + 32 else a

unfoldable pub to_lower : Str → Str
unfolding lower_byte
to_lower [] = []
to_lower (a ∷ []) = lower_byte a ∷ []
to_lower (a ∷ b ∷ []) =
    if nat_eq a 0xc4 && nat_eq b 0xb0 then b'i' ∷ [] else lower_byte a ∷ lower_byte b ∷ []
to_lower (a ∷ b ∷ c ∷ s) =
    let dotted = b'i' ∷ to_lower (c ∷ s) in
    let kelvin = b'k' ∷ to_lower s in
    let rest = lower_byte a ∷ to_lower (b ∷ c ∷ s) in
    if nat_eq a 0xc4 && nat_eq b 0xb0
    then dotted
    else if nat_eq a 0xe2 && nat_eq b 0x84 && nat_eq c 0xaa
    then kelvin
    else rest

-- len(strings.Fields(s)): the words that begin after the start or after a space. A space in the
-- middle of its bytes is skipped.
count_words : ℕ → Bool → Str → ℕ
unfolding front_space
count_words skipped inside [] = 0
count_words (suc skipped) inside (a ∷ s) = count_words skipped inside s
count_words zero inside (a ∷ s) =
    let after_space = count_words (front_space (a ∷ s) - 1) false s in
    let after_letter = count_words 0 true s in
    if ltb 0 (front_space (a ∷ s))
    then after_space
    else if inside
    then after_letter
    else suc after_letter

unfoldable pub count_fields : Str → ℕ
unfolding count_words
count_fields s = count_words 0 false s

-- strings.Fields: the word that is being read is kept in reverse.
with_word : Str → List Str → List Str
with_word [] ws = ws
with_word (a ∷ w) ws = reverse (a ∷ w) ∷ ws

words : ℕ → Str → Str → List Str
unfolding front_space with_word
words skipped word [] = with_word word []
words (suc skipped) word (a ∷ s) = words skipped word s
words zero word (a ∷ s) =
    let after_space = words (front_space (a ∷ s) - 1) [] s in
    let after_letter = words 0 (a ∷ word) s in
    if ltb 0 (front_space (a ∷ s)) then with_word word after_space else after_letter

unfoldable pub fields : Str → List Str
unfolding words
fields s = words 0 [] s
