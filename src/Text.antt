-- ===== src/Text.antt =====
-- The functions of Go's packages strings and strconv that the program uses, over code points.
use auth.Base.{
  Bool, Bool-cases, List, Option, [], all, arith, false, if◌then◌else◌, inl, inr, leb, length, none,
  not, some, true, ℕ, ◌&&◌, ◌*◌, ◌+◌, ◌-◌, ◌<◌, ◌==◌, ◌^◌, ◌||◌, ◌∷◌, ◌≡◌,
}

abbrev within : ℕ → ℕ → ℕ → Bool
within lo hi c = leb lo c && leb c hi

-- unicode.IsSpace
unfoldable pub is_space : ℕ → Bool
is_space c =
    within 9 13 c
    || c == 32
    || c == 0x85
    || c == 0xa0
    || c == 0x1680
    || within 0x2000 0x200a c
    || within 0x2028 0x2029 c
    || c == 0x202f
    || c == 0x205f
    || c == 0x3000

unfoldable pub trim_left : List ℕ → List ℕ
trim_left [] = []
trim_left (c ∷ s) = let rest = trim_left s in if is_space c then rest else c ∷ s

-- A blank is kept unless nothing follows it.
unfoldable pub drop_blank : Bool → ℕ → List ℕ → List ℕ
drop_blank false c rest = c ∷ rest
drop_blank true c [] = []
drop_blank true c (d ∷ rest) = c ∷ d ∷ rest

unfoldable pub trim_right : List ℕ → List ℕ
unfolding drop_blank
trim_right [] = []
trim_right (c ∷ s) = drop_blank (is_space c) c (trim_right s)

unfoldable pub trim_space : List ℕ → List ℕ
unfolding trim_left trim_right is_space
trim_space s = trim_right (trim_left s)

cons_first : ℕ → Option (List ℕ × List ℕ) → Option (List ℕ × List ℕ)
cons_first c none = none
cons_first c (some (before, after)) = some (c ∷ before, after)

-- `strings.SplitN(s, sep, 2)`: the parts before and after the first separator, if there is one.
unfoldable pub split_at : ℕ → List ℕ → Option (List ℕ × List ℕ)
unfolding cons_first
split_at sep [] = none
split_at sep (c ∷ s) = if c == sep then some ([], s) else cons_first c (split_at sep s)

digit? : ℕ → Option ℕ
digit? c = if within b'0' b'9' c then some (c - b'0') else none

-- The digits read so far and those to come; `none` on a character that is no digit.
unfoldable pub digits_from : ℕ → List ℕ → Option ℕ
unfolding digit?
digits_from acc [] = some acc
digits_from acc (c ∷ s) = elim (digit? c) [ none ↦ none | some d ↦ digits_from (acc * 10 + d) s ]

-- An `int` of 64 bits as its sign (`true` below zero) and size.
pub record Signed : Type 0 where
  pub negative : Bool
  pub size : ℕ

bounded : Bool → Option ℕ → Option Signed
bounded sign none = none
bounded sign (some n) =
    if leb n (if sign then 2 ^ 63 else 2 ^ 63 - 1)
    then some (record { negative = sign && not (n == 0); size = n })
    else none

-- At least one digit.
unsigned : Bool → List ℕ → Option Signed
unfolding bounded digits_from
unsigned sign [] = none
unsigned sign (c ∷ s) = bounded sign (digits_from 0 (c ∷ s))

-- `strconv.Atoi`: an optional sign, then digits; `none` is an error.
unfoldable pub atoi : List ℕ → Option Signed
unfolding unsigned
atoi [] = none
atoi (c ∷ s) =
    if c == b'-'
    then unsigned true s
    else if c == b'+'
    then unsigned false s
    else unsigned false (c ∷ s)

-- `unicode.ToUpper` where the result is ASCII; the texts are only compared with ASCII texts, and
-- every other character's upper case lies outside of ASCII, as the character does.
unfoldable pub to_upper : ℕ → ℕ
to_upper c =
    if within b'a' b'z' c
    then c - 32
    else if c == 0x131
    then b'I'
    else if c == 0x17f
    then b'S'
    else c

-- `unicode.ToLower`, in the same way.
unfoldable pub to_lower : ℕ → ℕ
to_lower c =
    if within b'A' b'Z' c
    then c + 32
    else if c == 0x130
    then b'i'
    else if c == 0x212a
    then b'k'
    else c

abbrev pub begins : List ℕ → List ℕ → Bool
begins [] s = true
begins (c ∷ t) [] = false
begins (c ∷ t) (d ∷ s) = c == d && begins t s

-- `strings.Contains(s, t)`
abbrev pub contains : List ℕ → List ℕ → Bool
contains [] t = begins t []
contains (c ∷ s) t = begins t (c ∷ s) || contains s t

-- `s[i]`, and 0 beyond the end, where the program would stop.
unfoldable pub char_at : List ℕ → ℕ → ℕ
char_at [] i = 0
char_at (c ∷ s) i = let rest = char_at s (i - 1) in if i == 0 then c else rest

pub all-char_at :
    (p : ℕ → Bool) (s : List ℕ) (i : ℕ) → all p s ≡ true → i < length s → p (char_at s i) ≡ true
unfolding char_at
all-char_at p [] i h less = absurd (omega (arith, less))
all-char_at p (c ∷ s) i h less = elim (Bool-cases (i == 0)) [
  | inl e ↦ rw e (ground arith)
  | inr e ↦ rw e (all-char_at p s (i - 1) (ground arith) (ground arith))
]
