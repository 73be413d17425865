-- ===== src/Middleware/AdminRate.antt =====
-- How many requests the rate limiter of internal/api/middleware/admin.go grants.
use auth.Base.{
  Bool, Bool-cases, List, String, [], ap, arith, eq_refl, false, filter, if◌then◌else◌, inl, inr,
  leb, length, length-filter-le, ltb, refl, sym, ℕ, ◌++◌, ◌+◌, ◌∙◌, ◌∷◌, ◌≡◌, ◌≤◌,
}
use auth.Middleware.Admin.{AdminRateLimiter, is_recent, put, allow}
use auth.Middleware.AdminLaws.{IsWithin, allow-IsWithin}

module _ (key : String) (r : AdminRateLimiter) where
  -- The limiter after calls by one key, the last call first.
  abbrev pub after : List ℕ → AdminRateLimiter
  after [] = r
  after (t ∷ ts) = (allow t key (after ts)).1

  -- The times of the calls that were granted, in their order.
  abbrev pub granted : List ℕ → List ℕ
  granted [] = []
  granted (t ∷ ts) =
      let rest = granted ts in if (allow t key (after ts)).0 then rest ++ t ∷ [] else rest

-- Nothing was called later than this time, and the calls stand in order.
abbrev pub UpTo : ℕ → List ℕ → Type 0
UpTo now [] = Unit
UpTo now (t ∷ ts) = (t ≤ now) × UpTo t ts

filter-append : (p : ℕ → Bool) (xs ys : List ℕ) → filter p (xs ++ ys) ≡ filter p xs ++ filter p ys
filter-append p [] ys = refl
filter-append p (x ∷ xs) ys = elim (Bool-cases (p x)) [
  | inl e ↦ rw e (ap (λ l. x ∷ l) (filter-append p xs ys))
  | inr e ↦ rw e (filter-append p xs ys)
]

-- What is recent later was recent before.
filter-is_recent :
    (window t now : ℕ) (xs : List ℕ)
    → t ≤ now
    → filter (is_recent window now) (filter (is_recent window t) xs)
      ≡ filter (is_recent window now) xs
unfolding is_recent
filter-is_recent window t now [] order = refl
filter-is_recent window t now (x ∷ xs) order = elim (Bool-cases (ltb t (x + window))) [
  | inl e ↦ rw e (elim (Bool-cases (ltb now (x + window))) [
    | inl f ↦ rw f (ap (λ l. x ∷ l) (filter-is_recent window t now xs order))
    | inr f ↦ rw f (filter-is_recent window t now xs order)
  ])
  | inr e ↦
      let f : ltb now (x + window) ≡ false = ground arith in
      rw (e, f) (filter-is_recent window t now xs order)
]

allow-limits :
    (now : ℕ) (key : String) (r : AdminRateLimiter)
    → ((allow now key r).1.window ≡ r.window) × ((allow now key r).1.burst ≡ r.burst)
unfolding allow
allow-limits now key r =
    elim (Bool-cases (leb r.burst (length (filter (is_recent r.window now) (r.tokens key))))) [
      | inl e ↦ rw e (refl, refl)
      | inr e ↦ rw e (refl, refl)
    ]

-- The list of the key after a call.
tokens-allow :
    (now : ℕ) (key : String) (r : AdminRateLimiter)
    → let valid = filter (is_recent r.window now) (r.tokens key) in
      (allow now key r).1.tokens key ≡ (if (allow now key r).0 then valid ++ now ∷ [] else valid)
unfolding allow put
tokens-allow now key r =
    elim (Bool-cases (leb r.burst (length (filter (is_recent r.window now) (r.tokens key))))) [
      | inl e ↦ rw (e, eq_refl key) refl
      | inr e ↦ rw (e, eq_refl key) refl
    ]

UpTo-later : (t now : ℕ) (ts : List ℕ) → t ≤ now → UpTo t ts → UpTo now ts
UpTo-later t now [] order past = tt
UpTo-later t now (u ∷ us) order (before, past) = (omega (arith, order, before), past)

module _ (key : String) (r : AdminRateLimiter) where
  after-limits :
      (ts : List ℕ) → ((after key r ts).window ≡ r.window) × ((after key r ts).burst ≡ r.burst)
  after-limits [] = (refl, refl)
  after-limits (t ∷ ts) =
      let (w, b) = after-limits ts in
      let (w', b') = allow-limits t key (after key r ts) in (w' ∙ w, b' ∙ b)

  after-IsWithin : (ts : List ℕ) → IsWithin r → IsWithin (after key r ts)
  after-IsWithin [] within = within
  after-IsWithin (t ∷ ts) within = allow-IsWithin t key (after key r ts) (after-IsWithin ts within)

  filter-granted :
      (ts : List ℕ) (now : ℕ)
      → r.tokens key ≡ []
      → UpTo now ts
      → filter (is_recent r.window now) (granted key r ts)
        ≡ filter (is_recent r.window now) ((after key r ts).tokens key)
  filter-granted [] now empty order = rw empty refl
  filter-granted (t ∷ ts) now empty (less, order) =
      let (w, b) = after-limits ts in
      let recent = is_recent r.window now in
      let held = (after key r ts).tokens key in
      let before : filter recent (granted key r ts)
          ≡ filter recent (filter (is_recent r.window t) held) =
        filter-granted ts now empty (UpTo-later t now ts less order)
        ∙ sym (filter-is_recent r.window t now held less) in
      let limits : AdminRateLimiter = after key r ts in
      rw (tokens-allow t key limits, w)
        (elim (Bool-cases (allow t key limits).0) [
          | inl e ↦ rw e (
              filter-append recent (granted key r ts) (t ∷ [])
              ∙ ap (λ l. l ++ filter recent (t ∷ [])) before
              ∙ sym (filter-append recent (filter (is_recent r.window t) held) (t ∷ [])))
          | inr e ↦ rw e before
        ])

  -- However requests of one key arrive in time, starting with an empty limiter, no more of them are
  -- granted within a window's length than the burst.
  pub granted-burst :
      (ts : List ℕ) (now : ℕ)
      → ((k : String) → r.tokens k ≡ [])
      → UpTo now ts
      → length (filter (is_recent r.window now) (granted key r ts)) ≤ r.burst
  granted-burst ts now empty order =
      let start : IsWithin r = λ k. rw (empty k) (omega arith) in
      let (w, b) = after-limits ts in
      omega (
        arith,
        ap length (filter-granted ts now (empty key) order),
        length-filter-le (is_recent r.window now) ((after key r ts).tokens key),
        after-IsWithin ts start key,
        b,
      )
