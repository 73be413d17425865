-- ===== src/OpaCache.antt =====
-- internal/service/opacache/cache.go: the TTL cache of policy parameters. The mutex makes each
-- operation atomic, so an operation is one function; `now` is the reading of `time.Now()` in it.
-- The map `entries` is an association list in which a key stands once (`IsMap`).
pub mod Laws
pub mod Expiry
use text.Mathlib.Text.{starts_with}
use auth.Base.{
  All, Bool, List, Option, String, [], if◌then◌else◌, length, ltb, none, some, str_eq, ℕ, ◌+◌, ◌∷◌,
  ◌≢◌,
}

pub record Entry {ℓ} (V : Type ℓ) : Type ℓ where
  pub value : V
  pub expires_at : ℕ

pub record Cache {ℓ} (V : Type ℓ) : Type ℓ where
  pub entries : List (String × Entry V)
  pub ttl : ℕ

-- What `fetch` returns.
pub data Fetched {ℓ} (V : Type ℓ) : Type ℓ where
  value : V → Fetched V
  failure : String → Fetched V

module _ {ℓ} {V : Type ℓ} where
  -- `c.entries[key]`
  unfoldable pub entry_at : String → List (String × Entry V) → Option (Entry V)
  entry_at key [] = none
  entry_at key ((k, e) ∷ rest) = if str_eq k key then some e else entry_at key rest

  -- `c.entries[key] = e`
  unfoldable pub put_entry : String → Entry V → List (String × Entry V) → List (String × Entry V)
  put_entry key e [] = (key, e) ∷ []
  put_entry key e ((k, old) ∷ rest) =
      if str_eq k key then (k, e) ∷ rest else (k, old) ∷ put_entry key e rest

  -- `for key, entry := range c.entries { if p(key, entry) { delete(c.entries, key) } }`
  unfoldable pub delete_where :
      (String → Entry V → Bool) → List (String × Entry V) → List (String × Entry V)
  delete_where p [] = []
  delete_where p ((k, e) ∷ rest) =
      let kept = delete_where p rest in if p k e then kept else (k, e) ∷ kept

  -- `now.After(entry.expiresAt)`
  unfoldable pub is_expired : ℕ → Entry V → Bool
  is_expired now e = ltb e.expires_at now

  unfoldable pub live_value : ℕ → Option (Entry V) → Option V
  unfolding is_expired
  live_value now none = none
  live_value now (some e) = if is_expired now e then none else some e.value

  unfoldable pub get : ℕ → String → Cache V → Option V
  unfolding live_value
  get now key c = live_value now (entry_at key c.entries)

  unfoldable pub set : ℕ → String → V → Cache V → Cache V
  set now key v c = record c {
    entries = put_entry key (record { value = v; expires_at = now + c.ttl }) c.entries;
  }

  -- The result, and the cache afterwards. `fetch` is called on a miss alone, and its own clock
  -- reading for the write is `later`.
  unfoldable pub get_or_fetch :
      ℕ → ℕ → String → (Unit {0} → Fetched V) → Cache V → Fetched V × Cache V
  get_or_fetch now later key fetch c = elim (get now key c) [
    | some v ↦ (Fetched.value v, c)
    | none ↦ elim (fetch tt) [
      | value v ↦ (Fetched.value v, set later key v c)
      | failure e ↦ (Fetched.failure e, c)
    ]
  ]

  unfoldable pub invalidate : String → Cache V → Cache V
  invalidate key c = record c { entries = delete_where (λ k _. str_eq k key) c.entries }

  unfoldable pub invalidate_by_prefix : String → Cache V → Cache V
  invalidate_by_prefix prefix c = record c {
    entries = delete_where (λ k _. starts_with k prefix) c.entries;
  }

  unfoldable pub cleanup : ℕ → Cache V → Cache V
  unfolding is_expired
  cleanup now c = record c { entries = delete_where (λ _ e. is_expired now e) c.entries }

  unfoldable pub len : Cache V → ℕ
  len c = length c.entries

-- A Go map holds a key once.
abbrev pub IsMap {ℓ} : {V : Type ℓ} → List (String × Entry V) → Type 0
IsMap [] = Unit
IsMap {V} ((k, _) ∷ rest) = All {A = String × Entry V} (λ b. b.0 ≢ k) rest × IsMap rest
