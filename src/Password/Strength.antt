-- ===== src/Password/Strength.antt =====
-- A generated password meets the default policy (internal/service/password/generator.go).
use auth.Base.{
  Bool, List, Option-cases, [], all, any, ap, arith, false, inl, inr, length, ltb, refl, suc, true,
  zero, ℕ, ◌++◌, ◌+◌, ◌<◌, ◌||◌, ◌∙◌, ◌∷◌, ◌≡◌, ◌≤◌,
}
use auth.Text.{all-char_at}
use auth.Password.Policy.{
  validate, default_password_policy, fault_if, contains_string, contains_username, contains_email,
  is_uppercase, is_lowercase, is_number, byte_length,
}
use auth.Password.Generator.{
  Draws, generate, pick, drawn_char, pick_each, gen_lower, gen_upper, gen_digit, gen_symbol,
}
use auth.Password.Swap.{IsBounded, length-shuffle, any-shuffle}

-- A character that is picked from a pool is of its class.
pick-all :
    (p : ℕ → Bool) (draws : Draws) (i : ℕ) (s : List ℕ)
    → IsBounded draws
    → 0 < length s
    → all p s ≡ true
    → p (pick draws i s) ≡ true
unfolding pick drawn_char
pick-all p draws i s bounded some_chars h = elim (Option-cases (draws i (length s))) [
  | inl e ↦ rw e (all-char_at p s 0 h some_chars)
  | inr (k, e) ↦ rw e (all-char_at p s k h (bounded i (length s) k e))
]

length-pick_each : (draws : Draws) (s : List ℕ) (i n : ℕ) → length (pick_each draws s i n) ≡ n
unfolding pick_each
length-pick_each draws s i zero = refl
length-pick_each draws s i (suc n) = ap suc (length-pick_each draws s (suc i) n)

length-byte_length : (s : List ℕ) → length s ≤ byte_length s
length-byte_length [] = omega arith
length-byte_length (c ∷ s) = ground (arith, length-byte_length s)

abbrev pool : List ℕ
pool = gen_lower ++ gen_upper ++ gen_digit ++ gen_symbol

module _ (draws : Draws) (bounded : IsBounded draws) where
  generate-length : length (generate draws) ≡ 16
  unfolding generate
  generate-length =
      length-shuffle draws 16 15 _ ∙ ap (λ n. 4 + n) (length-pick_each draws pool 4 12)

  generate-any :
      (p : ℕ → Bool)
      → ((p (pick draws 0 gen_lower) || p (pick draws 1 gen_upper) || p (pick draws 2 gen_digit))
          ≡ true)
      → any p (generate draws) ≡ true
  unfolding generate
  generate-any p found =
      any-shuffle p draws 16 15 _ bounded (omega (arith, length-pick_each draws pool 4 12))
        (ground (arith, found))

  has_uppercase : any is_uppercase (generate draws) ≡ true
  unfolding is_uppercase gen_upper
  has_uppercase =
      generate-any is_uppercase
        (ground (arith, pick-all is_uppercase draws 1 gen_upper bounded (omega arith) refl))

  has_lowercase : any is_lowercase (generate draws) ≡ true
  unfolding is_lowercase gen_lower
  has_lowercase =
      generate-any is_lowercase
        (ground (arith, pick-all is_lowercase draws 0 gen_lower bounded (omega arith) refl))

  has_number : any is_number (generate draws) ≡ true
  unfolding is_number gen_digit
  has_number =
      generate-any is_number
        (ground (arith, pick-all is_number draws 2 gen_digit bounded (omega arith) refl))

  -- Whatever is drawn below its bound, and wherever a draw fails, a generated password meets the default
  -- policy, but for the chance that it contains the user's name or e-mail address.
  pub validate-generate :
      (username email : List ℕ)
      → validate default_password_policy (generate draws) username email
        ≡ fault_if (contains_string (generate draws) username) contains_username
          ++ fault_if (contains_string (generate draws) email) contains_email
  unfolding validate default_password_policy fault_if
  validate-generate username email =
      let long : ltb (byte_length (generate draws)) 8 ≡ false =
        ground (arith, generate-length, length-byte_length (generate draws)) in
      rw (long, has_uppercase, has_lowercase, has_number) refl
