-- ===== src/Password/Generator.antt =====
-- The generator of temporary passwords (internal/service/password/generator.go).
use auth.Base.{
  List, Option, [], codes, if◌then◌else◌, length, none, some, suc, zero, ℕ, ◌++◌, ◌+◌, ◌-◌, ◌==◌,
  ◌∷◌,
}
use auth.Text.{char_at}

-- The draws of `rand.Int`: the one with the given number, below the given bound; `none` is an error.
abbrev pub Draws : Type 0
Draws = ℕ → ℕ → Option ℕ

unfoldable pub gen_lower : List ℕ
gen_lower = codes "abcdefghijkmnopqrstuvwxyz"

unfoldable pub gen_upper : List ℕ
gen_upper = codes "ABCDEFGHJKLMNPQRSTUVWXYZ"

unfoldable pub gen_digit : List ℕ
gen_digit = codes "23456789"

unfoldable pub gen_symbol : List ℕ
gen_symbol = codes "!@#$%^&*-_"

unfoldable pub drawn_char : List ℕ → Option ℕ → ℕ
drawn_char s none = char_at s 0
drawn_char s (some n) = char_at s n

-- `pick(s)`, as the draw with the given number.
unfoldable pub pick : Draws → ℕ → List ℕ → ℕ
unfolding drawn_char
pick draws i s = drawn_char s (draws i (length s))

-- `b[i] = c`
unfoldable pub set_at : List ℕ → ℕ → ℕ → List ℕ
set_at [] i c = []
set_at (d ∷ b) i c = let rest = set_at b (i - 1) c in if i == 0 then c ∷ b else d ∷ rest

-- `b[i], b[k] = b[k], b[i]`
unfoldable pub swap : ℕ → ℕ → List ℕ → List ℕ
unfolding set_at
swap i k b = set_at (set_at b i (char_at b k)) k (char_at b i)

unfoldable pub swap_drawn : ℕ → Option ℕ → List ℕ → List ℕ
unfolding swap
swap_drawn i none b = b
swap_drawn i (some k) b = swap i k b

-- The loop of `shuffle`, from position `i` down to 1; `n` numbers its first draw.
unfoldable pub shuffle : Draws → ℕ → ℕ → List ℕ → List ℕ
unfolding swap_drawn
shuffle draws n zero b = b
shuffle draws n (suc i) b = shuffle draws (suc n) i (swap_drawn (suc i) (draws n (suc i + 1)) b)

unfoldable pub pick_each : Draws → List ℕ → ℕ → ℕ → List ℕ
unfolding pick
pick_each draws all_chars i zero = []
pick_each draws all_chars i (suc n) = pick draws i all_chars ∷ pick_each draws all_chars (suc i) n

unfoldable pub generate : Draws → List ℕ
unfolding gen_lower gen_upper gen_digit gen_symbol pick pick_each shuffle
generate draws =
    let all_chars = gen_lower ++ gen_upper ++ gen_digit ++ gen_symbol in
    shuffle draws 16 15 (
      pick draws 0 gen_lower
      ∷ pick draws 1 gen_upper
      ∷ pick draws 2 gen_digit
      ∷ pick draws 3 gen_symbol
      ∷ pick_each draws all_chars 4 12)
