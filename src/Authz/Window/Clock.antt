-- ===== src/Authz/Window/Clock.antt =====
-- `parseHHMM` of internal/service/authz/timewindow.go after the format "%02d:%02d" that it prints.
use auth.Base.{
  ==_iff, Bool, Bool-cases, List, Option, [], ap, arith, false, inl, inr, none, refl, some, suc,
  true, zero, ℕ, ◌%◌, ◌&&◌, ◌*◌, ◌+◌, ◌/◌, ◌<◌, ◌==◌, ◌∷◌, ◌≡◌,
}
use auth.Text.{atoi, split_at, trim_space}
use auth.Authz.Window.{in_range, parse_hhmm}

abbrev pub digit : ℕ → ℕ
digit n = b'0' + n

-- `fmt.Sprintf("%02d:%02d", h, m)` for numbers below 100.
unfoldable pub format_hhmm : ℕ → ℕ → List ℕ
format_hhmm h m = digit (h / 10) ∷ digit (h % 10) ∷ b':' ∷ digit (m / 10) ∷ digit (m % 10) ∷ []

-- The test holds of every number below a bound.
every : (ℕ → Bool) → ℕ → Bool
every test zero = true
every test (suc k) = every test k && test k

every-at : (test : ℕ → Bool) (bound n : ℕ) → every test bound ≡ true → n < bound → test n ≡ true
unfolding every
every-at test zero n h below = elim below [ ]
every-at test (suc k) n h below = elim (Bool-cases (n == k)) [
  | inl last ↦ rw ((==_iff n k).0 last) (ground arith)
  | inr before ↦ every-at test k n (ground arith) (ground arith)
]

is_some_of : Option ℕ → ℕ → Bool
is_some_of none n = false
is_some_of (some v) n = v == n

is_some_of-eq : (o : Option ℕ) (n : ℕ) → is_some_of o n ≡ true → o ≡ some n
unfolding is_some_of
is_some_of-eq none n h = cc
is_some_of-eq (some v) n h = ap some ((==_iff v n).0 h)

reads_back : ℕ → ℕ → Bool
reads_back h m = is_some_of (parse_hhmm (format_hhmm h m)) (h * 60 + m)

table : every (λ h. every (reads_back h) 60) 24 ≡ true
unfolding every reads_back is_some_of parse_hhmm format_hhmm in_range atoi trim_space split_at
table = refl

-- Every time of the day is read back from its printed form.
parse_hhmm-format_hhmm :
    (h m : ℕ) → h < 24 → m < 60 → parse_hhmm (format_hhmm h m) ≡ some (h * 60 + m)
unfolding reads_back
parse_hhmm-format_hhmm h m ph pm =
    let row : every (reads_back h) 60 ≡ true =
      every-at (λ x. every (reads_back x) 60) 24 h table ph in
    is_some_of-eq _ (h * 60 + m) (every-at (reads_back h) 60 m row pm)
