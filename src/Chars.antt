-- ===== src/Chars.antt =====
-- The operations of the standard library on `char` and `str` that the modelled code calls. A string
-- is the list of its Unicode scalar values.
pub mod Trim
use zincha_sdk.Base.{
  ℕ, ◌+◌, Bool, true, false, ◌&&◌, ◌||◌, List, [], ◌∷◌, map, ltb, leb, if◌then◌else◌, sum_of, ◌==◌,
  nat_eq, list_eq, option_eq,
}

abbrev pub Chars : Type 0
Chars = List ℕ

abbrev between : ℕ → ℕ → ℕ → Bool
between low high ch = leb low ch && leb ch high

-- char::len_utf8
abbrev pub len_utf8 : ℕ → ℕ
len_utf8 ch = if ltb ch 128 then 1 else if ltb ch 2048 then 2 else if ltb ch 65536 then 3 else 4

-- str::len
abbrev pub str_len : Chars → ℕ
str_len s = sum_of len_utf8 s

-- char::is_whitespace: the property White_Space of Unicode
abbrev pub is_whitespace : ℕ → Bool
is_whitespace ch =
    between 9 13 ch
    || ch == 32
    || ch == 133
    || ch == 160
    || ch == 5760
    || between 8192 8202 ch
    || ch == 8232
    || ch == 8233
    || ch == 8239
    || ch == 8287
    || ch == 12288

-- char::is_control: the general category Cc
abbrev pub is_control : ℕ → Bool
is_control ch = ltb ch 32 || between 127 159 ch

abbrev pub is_ascii_uppercase : ℕ → Bool
is_ascii_uppercase ch = between 65 90 ch

abbrev pub is_ascii_lowercase : ℕ → Bool
is_ascii_lowercase ch = between 97 122 ch

abbrev pub is_ascii_digit : ℕ → Bool
is_ascii_digit ch = between 48 57 ch

-- `.chars().all(..)`
abbrev pub all_chars : (ℕ → Bool) → Chars → Bool
all_chars p [] = true
all_chars p (ch ∷ s) = p ch && all_chars p s

-- `.chars().any(..)`
abbrev pub any_char : (ℕ → Bool) → Chars → Bool
any_char p [] = false
any_char p (ch ∷ s) = p ch || any_char p s

-- str::to_ascii_lowercase
abbrev pub to_ascii_lowercase : Chars → Chars
to_ascii_lowercase s = map (λ ch. if is_ascii_uppercase ch then ch + 32 else ch) s

-- str::trim_start
unfoldable pub trim_start : Chars → Chars
trim_start [] = []
trim_start (ch ∷ s) = let rest = trim_start s in if is_whitespace ch then rest else ch ∷ s

abbrev pub push_trimmed : ℕ → Chars → Chars
push_trimmed ch [] = if is_whitespace ch then [] else ch ∷ []
push_trimmed ch (x ∷ s) = ch ∷ x ∷ s

-- str::trim_end
unfoldable pub trim_end : Chars → Chars
trim_end [] = []
trim_end (ch ∷ s) = push_trimmed ch (trim_end s)

-- str::trim
unfoldable pub trim : Chars → Chars
unfolding trim_start trim_end
trim s = trim_end (trim_start s)

-- str::starts_with, of a character
abbrev pub starts_with : ℕ → Chars → Bool
starts_with ch [] = false
starts_with ch (x ∷ s) = x == ch

-- str::ends_with, of a character
abbrev pub ends_with : ℕ → Chars → Bool
ends_with ch [] = false
ends_with ch (x ∷ []) = x == ch
ends_with ch (x ∷ y ∷ s) = ends_with ch (y ∷ s)

abbrev in_first : ℕ → List Chars → List Chars
in_first x [] = (x ∷ []) ∷ []
in_first x (segment ∷ segments) = (x ∷ segment) ∷ segments

-- str::split, at a character
unfoldable pub split : ℕ → Chars → List Chars
split ch [] = [] ∷ []
split ch (x ∷ s) = let rest = split ch s in if x == ch then [] ∷ rest else in_first x rest
