-- ===== src/Mfa/Alphabet.antt =====
-- The codes that `Generate` hands out are the ones that `Verify` accepts (internal/service/mfa/backup.go).
use auth.Base.{
  All, Any, Bool, Bool-cases, List, Option, Option-cases, Result-cases, String, [], all, any, ap,
  arith, false, inl, inr, length, map, not, ok, ok_injective, refl, some, subst, suc, sym, true,
  zero, ℕ, ◌%◌, ◌&&◌, ◌<◌, ◌==◌, ◌∙◌, ◌∷◌, ◌≡◌,
}
use auth.Text.{
  all-char_at, char_at, drop_blank, is_space, to_upper, trim_left, trim_right, trim_space,
}
use auth.Mfa.Backup.{Bcrypt, chars, generate_code, hashed, new_codes, normalise, take_match}

-- Kept by `strings.TrimSpace` and by `strings.ToUpper`.
plain : ℕ → Bool
unfolding is_space to_upper
plain c = not (is_space c) && to_upper c == c

chars-plain : all plain chars ≡ true
unfolding chars plain
chars-plain = refl

in_range : (x : ℕ) → x % length chars < length chars
unfolding chars
in_range x = omega arith

drawn-plain :
    (bytes : List ℕ) → all plain (map (λ b. char_at chars (b % length chars)) bytes) ≡ true
drawn-plain [] = refl
drawn-plain (x ∷ bytes) =
    let here : plain (char_at chars (x % length chars)) ≡ true =
      all-char_at plain chars (x % length chars) chars-plain (in_range x) in
    rw here (drawn-plain bytes)

trim_right-plain : (s : List ℕ) → all plain s ≡ true → trim_right s ≡ s
unfolding trim_right drop_blank plain
trim_right-plain [] h = refl
trim_right-plain (c ∷ s) h =
    let kept : is_space c ≡ false = ground arith in
    rw kept (ap (λ t. c ∷ t) (trim_right-plain s (ground arith)))

trim_left-plain : (s : List ℕ) → all plain s ≡ true → trim_left s ≡ s
unfolding trim_left plain
trim_left-plain [] h = refl
trim_left-plain (c ∷ s) h = let kept : is_space c ≡ false = ground arith in rw kept refl

upper-plain : (s : List ℕ) → all plain s ≡ true → map to_upper s ≡ s
unfolding plain
upper-plain [] h = refl
upper-plain (c ∷ s) h =
    let same : to_upper c ≡ c = ground arith in rw (same, upper-plain s (ground arith)) refl

normalise-plain : (s : List ℕ) → all plain s ≡ true → normalise s ≡ s
unfolding normalise trim_space
normalise-plain s h = rw (trim_left-plain s h, trim_right-plain s h) (upper-plain s h)

-- What is true of each code that is drawn.
abbrev pub Accepted : Bcrypt → List ℕ × String → Type 0
Accepted b d = (b.compare_hash_and_password d.1 d.0 ≡ true) × (normalise d.0 ≡ d.0)

abbrev pub Verifies : Bcrypt → Type 0
Verifies b =
    (i : ℕ) (code : List ℕ) (h : String)
    → b.generate_from_password i code ≡ some h
    → b.compare_hash_and_password h code ≡ true

pub new_codes-Accepted :
    (b : Bcrypt) (random : ℕ → Option (List ℕ)) (n i : ℕ) {drawn : List (List ℕ × String)}
    → Verifies b
    → new_codes b random n i ≡ ok drawn
    → All (Accepted b) drawn
unfolding new_codes generate_code hashed
new_codes-Accepted b random zero i verifies done = subst (All (Accepted b)) (ok_injective done) tt
new_codes-Accepted b random (suc n) i {drawn} verifies done = elim (Option-cases (random i)) [
  | inl e ↦ absurd (ground (arith, e))
  | inr (bytes, e) ↦
      let code = map (λ x. char_at chars (x % length chars)) bytes in
      elim (Option-cases (b.generate_from_password i code)) [
        | inl e' ↦ absurd (ground (arith, e, e'))
        | inr (h, e') ↦ elim (Result-cases (new_codes b random n (suc i))) [
          | inr (x, e'') ↦ absurd (ground (arith, e, e', e''))
          | inl (more, e'') ↦
              let all_of : new_codes b random (suc n) i ≡ ok ((code, h) ∷ more) =
                rw e (rw e' (rw e'' refl)) in
              subst (All (Accepted b)) (ok_injective (sym all_of ∙ done)) (
                (verifies i code h e', normalise-plain code (drawn-plain bytes)),
                new_codes-Accepted b random n (suc i) verifies e'',
              )
        ]
      ]
]

pub take_match-some :
    (p : String → Bool) (hs : List String)
    → any p hs ≡ true
    → (rest : List String) × (take_match p hs ≡ some rest)
unfolding take_match
take_match-some p [] h = absurd (ground arith)
take_match-some p (x ∷ hs) h = elim (Bool-cases (p x)) [
  | inl e ↦ (hs, rw e refl)
  | inr e ↦
      let (rest, found) = take_match-some p hs (ground arith) in (x ∷ rest, rw e (rw found refl))
]

-- A code that was drawn matches one of the hashes.
pub any-drawn :
    (b : Bcrypt) (drawn : List (List ℕ × String)) (code : List ℕ)
    → All (Accepted b) drawn
    → Any (λ c. c ≡ code) (map (λ d. d.0) drawn)
    → (normalise code ≡ code)
      × (any (λ h. b.compare_hash_and_password h code) (map (λ d. d.1) drawn) ≡ true)
any-drawn b [] code accepted none_listed = elim none_listed [ ]
any-drawn b ((c, h) ∷ drawn) code ((matches, clean), accepted) (inl same) = (
  subst (λ x. normalise x ≡ x) same clean,
  rw (subst (λ x. b.compare_hash_and_password h x ≡ true) same matches) refl,
)
any-drawn b ((c, h) ∷ drawn) code (here, accepted) (inr later) =
    let (clean, found) = any-drawn b drawn code accepted later in (clean, ground (arith, found))
