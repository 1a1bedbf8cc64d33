-- ===== src/Base/Chars.antt =====
-- Rust's `str` methods that work on characters. A text is the list of its code points.
use Prim.Native.String.{char_at, [] as empty_text, ◌∷◌ as cons_text}
use Prim.Native.Char.{Char, code}
use polymarket_watch_rust.Base.Lists.{all}
use polymarket_watch_rust.Base.Tests.{
  Bool, String, [], false, if◌then◌else◌, leb, map, true, ℕ, ◌&&◌, ◌+◌, ◌-◌, ◌==◌, ◌∷◌,
}
use polymarket_watch_rust.Fixed.Text.{Text, is_whitespace}

-- `chars()`
unfoldable pub chars : String → Text
chars empty_text = []
chars (cons_text c s) = code c ∷ chars s

-- `trim().is_empty()`
unfoldable pub is_blank_text : String → Bool
unfolding chars
is_blank_text s = all is_whitespace (chars s)

-- `u8::to_ascii_lowercase`
abbrev pub ascii_lower : ℕ → ℕ
ascii_lower c = if leb 65 c && leb c 90 then c + 32 else c

abbrev pub same_text : Text → Text → Bool
same_text [] [] = true
same_text (c ∷ s) (d ∷ t) = c == d && same_text s t
same_text _ _ = false

-- `to_ascii_lowercase() == t`, for a text `t` in lower case
unfoldable pub is_lowercase_of : String → String → Bool
unfolding chars
is_lowercase_of s t = same_text (map ascii_lower (chars s)) (chars t)

-- `eq_ignore_ascii_case`
unfoldable pub eq_ignore_ascii_case : String → String → Bool
unfolding chars
eq_ignore_ascii_case s t = same_text (map ascii_lower (chars s)) (map ascii_lower (chars t))

-- `trim`
unfoldable pub trim_start : String → String
trim_start empty_text = empty_text
trim_start (cons_text c s) =
    let rest = trim_start s in if is_whitespace (code c) then rest else cons_text c s

abbrev pub keep_before : Char → String → String
keep_before c empty_text = if is_whitespace (code c) then empty_text else cons_text c empty_text
keep_before c (cons_text d s) = cons_text c (cons_text d s)

unfoldable pub trim_end : String → String
trim_end empty_text = empty_text
trim_end (cons_text c s) = keep_before c (trim_end s)

abbrev pub trim_text : String → String
trim_text s = trim_end (trim_start s)

-- `u8::to_ascii_uppercase`: the letter at the same place in the alphabet.
abbrev pub ascii_upper : Char → Char
ascii_upper c =
    if leb 97 (code c) && leb (code c) 122
    then char_at "ABCDEFGHIJKLMNOPQRSTUVWXYZ" (code c - 97)
    else c

unfoldable pub to_ascii_uppercase : String → String
to_ascii_uppercase empty_text = empty_text
to_ascii_uppercase (cons_text c s) = cons_text (ascii_upper c) (to_ascii_uppercase s)

-- `str::to_ascii_lowercase`
abbrev pub ascii_lower_char : Char → Char
ascii_lower_char c =
    if leb 65 (code c) && leb (code c) 90
    then char_at "abcdefghijklmnopqrstuvwxyz" (code c - 65)
    else c

unfoldable pub to_ascii_lowercase : String → String
to_ascii_lowercase empty_text = empty_text
to_ascii_lowercase (cons_text c s) = cons_text (ascii_lower_char c) (to_ascii_lowercase s)
