-- ===== src/Strings.antt =====
-- The functions of Go's package strings that the OAuth2 handlers use, over whole texts.
use Prim.Native.Char.{code}
use Prim.Native.String.{◌++◌ as ◌+ˢ◌}
use auth.Base.{
  Bool, List, Option, String, [], false, if◌then◌else◌, leb, none, some, str_eq, true, ℕ, ◌&&◌, ◌+◌,
  ◌==◌, ◌∷◌,
}
use auth.Text.{drop_blank, is_space}

-- `s + t`
abbrev pub append : String → String → String
append s t = s +ˢ t

abbrev pub same_char : ℕ → ℕ → Bool
same_char a b = a == b

-- What follows the prefix, if the text begins with it, by the given comparison of characters.
unfoldable pub strip_by : (ℕ → ℕ → Bool) → String → String → Option String
strip_by same String.[] s = some s
strip_by same (String.◌∷◌ p prefix) String.[] = none
strip_by same (String.◌∷◌ p prefix) (String.◌∷◌ c s) =
    let rest = strip_by same prefix s in if same (code p) (code c) then rest else none

-- `strings.HasPrefix(s, prefix)` and `strings.TrimPrefix(s, prefix)`
unfoldable pub strip_prefix : String → String → Option String
unfolding strip_by
strip_prefix prefix s = strip_by same_char prefix s

ascii_lower : ℕ → ℕ
ascii_lower c = if leb b'A' c && leb c b'Z' then c + 32 else c

-- The same with `ascii.EqualFold` on the prefix.
unfoldable pub strip_prefix_fold : String → String → Option String
unfolding strip_by ascii_lower
strip_prefix_fold prefix s = strip_by (λ a b. ascii_lower a == ascii_lower b) prefix s

abbrev cons_before : (String → String) → Option (String × String) → Option (String × String)
cons_before c none = none
cons_before c (some (before, after)) = some (c before, after)

-- `strings.SplitN(s, sep, 2)` where there is a separator.
unfoldable pub split_first : ℕ → String → Option (String × String)
split_first sep String.[] = none
split_first sep (String.◌∷◌ c s) =
    let rest = split_first sep s in
    if code c == sep then some ("", s) else cons_before (λ t. String.◌∷◌ c t) rest

-- `strings.TrimRight(s, "/")`
unfoldable pub trim_slashes : List ℕ → List ℕ
unfolding drop_blank
trim_slashes [] = []
trim_slashes (c ∷ s) = drop_blank (c == b'/') c (trim_slashes s)

abbrev pub same_codes : List ℕ → List ℕ → Bool
same_codes [] [] = true
same_codes (a ∷ s) (b ∷ t) = a == b && same_codes s t
same_codes s t = false

abbrev pub push_word : String → List String → List String
push_word word words = if str_eq word "" then words else word ∷ words

-- The word that the text begins with, and the words after it.
words_of : String → String × List String
words_of String.[] = ("", [])
words_of (String.◌∷◌ c s) =
    let (word, words) = words_of s in
    if is_space (code c) then ("", push_word word words) else (String.◌∷◌ c word, words)

-- `strings.Fields(s)`
unfoldable pub fields : String → List String
unfolding words_of is_space
fields s = let (word, words) = words_of s in push_word word words

abbrev pub or_empty : Option String → String
or_empty none = ""
or_empty (some s) = s
