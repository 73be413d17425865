-- ===== src/Password/Swap.antt =====
-- What the shuffle of internal/service/password/generator.go keeps.
use auth.Base.{
  ==_iff, Bool, Bool-cases, List, Option-cases, [], any, ap, arith, if◌then◌else◌, inl, inr, length,
  refl, some, suc, sym, true, zero, ℕ, ◌+◌, ◌-◌, ◌<◌, ◌==◌, ◌∙◌, ◌∷◌, ◌≡◌,
}
use auth.Text.{char_at}
use auth.Password.Generator.{Draws, set_at, swap, swap_drawn, shuffle}

pub length-set_at : (b : List ℕ) (i c : ℕ) → length (set_at b i c) ≡ length b
unfolding set_at
length-set_at [] i c = refl
length-set_at (d ∷ b) i c = ground (arith, length-set_at b (i - 1) c)

char_at-set_at :
    (b : List ℕ) (i j c : ℕ)
    → i < length b
    → char_at (set_at b i c) j ≡ (if i == j then c else char_at b j)
unfolding set_at char_at
char_at-set_at [] i j c less = absurd (omega (arith, less))
char_at-set_at (d ∷ b) i j c less = elim (Bool-cases (i == 0)) [
  | inl e ↦ ground arith
  | inr e ↦ ground (arith, char_at-set_at b (i - 1) (j - 1) c (ground arith))
]

char_at-suc : (c : ℕ) (b : List ℕ) (j : ℕ) → char_at (c ∷ b) (suc j) ≡ char_at b j
unfolding char_at
char_at-suc c b j = ground arith

-- Some position holds a character that satisfies the test.
pub any-position :
    (p : ℕ → Bool) (b : List ℕ)
    → any p b ≡ true
    → (j : ℕ) × (j < length b) × (p (char_at b j) ≡ true)
unfolding char_at
any-position p [] h = absurd (ground arith)
any-position p (c ∷ b) h = elim (Bool-cases (p c)) [
  | inl e ↦ (0, omega arith, e)
  | inr e ↦
      let (j, less, holds) = any-position p b (ground arith) in
      (suc j, omega (arith, less), rw (char_at-suc c b j) holds)
]

position-any :
    (p : ℕ → Bool) (b : List ℕ) (j : ℕ) → j < length b → p (char_at b j) ≡ true → any p b ≡ true
unfolding char_at
position-any p [] j less holds = absurd (omega (arith, less))
position-any p (c ∷ b) j less holds = elim (Bool-cases (j == 0)) [
  | inl e ↦ ground (arith, e)
  | inr e ↦ ground (arith, e, position-any p b (j - 1) (ground arith))
]

length-swap : (b : List ℕ) (i k : ℕ) → length (swap i k b) ≡ length b
unfolding swap
length-swap b i k =
    length-set_at (set_at b i (char_at b k)) k (char_at b i) ∙ length-set_at b i (char_at b k)

char_at-swap :
    (b : List ℕ) (i k j : ℕ)
    → i < length b
    → k < length b
    → char_at (swap i k b) j
      ≡ (if k == j then char_at b i else if i == j then char_at b k else char_at b j)
unfolding swap
char_at-swap b i k j less_i less_k = ground (
  arith,
  char_at-set_at (set_at b i (char_at b k)) k j (char_at b i),
  char_at-set_at b i j (char_at b k),
  length-set_at b i (char_at b k),
)

-- A swap keeps the length and every character.
swap-keeps :
    (p : ℕ → Bool) (b : List ℕ) (i k : ℕ)
    → i < length b
    → k < length b
    → any p b ≡ true
    → any p (swap i k b) ≡ true
swap-keeps p b i k less_i less_k h =
    let (j, less, holds) = any-position p b h in
    let there : (n : ℕ)
        → n < length b
        → p (char_at (swap i k b) n) ≡ true
        → any p (swap i k b) ≡ true =
      λ n less_n found.
        position-any p (swap i k b) n (omega (arith, length-swap b i k, less_n)) found in
    elim (Bool-cases (k == j)) [
      | inl at_k ↦ there i less_i (
          rw (char_at-swap b i k i less_i less_k) (elim (Bool-cases (k == i)) [
            | inl e ↦
                rw (e, ap (λ x. char_at b x) (sym ((==_iff k i).0 e) ∙ (==_iff k j).0 at_k)) holds
            | inr e ↦ rw (e, (==_iff i i).1 refl, ap (λ x. char_at b x) ((==_iff k j).0 at_k)) holds
          ]))
      | inr not_k ↦ elim (Bool-cases (i == j)) [
        | inl at_i ↦ there k less_k (
            rw (char_at-swap b i k k less_i less_k)
              (rw ((==_iff k k).1 refl, ap (λ x. char_at b x) ((==_iff i j).0 at_i)) holds))
        | inr not_i ↦
            there j less (rw (char_at-swap b i k j less_i less_k) (rw (not_k, not_i) holds))
      ]
    ]

-- A draw is below its bound.
abbrev pub IsBounded : Draws → Type 0
IsBounded draws = (n bound k : ℕ) → draws n bound ≡ some k → k < bound

pub length-shuffle :
    (draws : Draws) (n i : ℕ) (b : List ℕ) → length (shuffle draws n i b) ≡ length b
unfolding shuffle swap_drawn
length-shuffle draws n zero b = refl
length-shuffle draws n (suc i) b = elim (Option-cases (draws n (suc i + 1))) [
  | inl e ↦ rw e (length-shuffle draws (suc n) i b)
  | inr (k, e) ↦ rw e (length-shuffle draws (suc n) i (swap (suc i) k b) ∙ length-swap b (suc i) k)
]

-- The shuffle loses no character.
pub any-shuffle :
    (p : ℕ → Bool) (draws : Draws) (n i : ℕ) (b : List ℕ)
    → IsBounded draws
    → i < length b
    → any p b ≡ true
    → any p (shuffle draws n i b) ≡ true
unfolding shuffle swap_drawn
any-shuffle p draws n zero b bounded less h = h
any-shuffle p draws n (suc i) b bounded less h = elim (Option-cases (draws n (suc i + 1))) [
  | inl e ↦ rw e (any-shuffle p draws (suc n) i b bounded (omega (arith, less)) h)
  | inr (k, e) ↦
      let below : k < suc i + 1 = bounded n (suc i + 1) k e in
      rw e (
        any-shuffle p draws (suc n) i (swap (suc i) k b) bounded
          (omega (arith, less, length-swap b (suc i) k))
          (swap-keeps p b (suc i) k less (omega (arith, below, less)) h))
]
