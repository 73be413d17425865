-- ===== src/OpaCache/Laws.antt =====
-- What `Get` answers after each operation of the cache (internal/service/opacache/cache.go).
use text.Mathlib.Text.{starts_with}
use auth.Base.{
  Bool, List, String, [], arith, eq_iff, eq_refl, if◌then◌else◌, ltb, none, refl, some, str_eq, ℕ,
  ◌+◌, ◌∷◌, ◌≡◌, ◌≤◌,
}
use auth.OpaCache.{
  Entry, Cache, Fetched, entry_at, put_entry, delete_where, get, set, get_or_fetch, invalidate,
  invalidate_by_prefix,
}

module _ {ℓ} {V : Type ℓ} where
  pub entry_at-put_entry :
      (k j : String) (e : Entry V) (l : List (String × Entry V))
      → entry_at j (put_entry k e l) ≡ (if str_eq k j then some e else entry_at j l)
  unfolding entry_at put_entry
  entry_at-put_entry k j e [] = refl
  entry_at-put_entry k j e ((i, w) ∷ l) =
      ground (arith, eq_iff k j, eq_iff i k, eq_iff i j, entry_at-put_entry k j e l)

  pub entry_at-delete_where :
      (p : String → Bool) (j : String) (l : List (String × Entry V))
      → entry_at j (delete_where (λ k _. p k) l) ≡ (if p j then none else entry_at j l)
  unfolding entry_at delete_where
  entry_at-delete_where p j [] = ground arith
  entry_at-delete_where p j ((i, w) ∷ l) = ground (arith, eq_iff i j, entry_at-delete_where p j l)

  -- After a write at `now` the key reads the new value until it expires, and every other key reads
  -- what it read before.
  pub get-set :
      (now t : ℕ) (k j : String) (v : V) (c : Cache V)
      → get t j (set now k v c)
        ≡ (if str_eq k j then (if ltb (now + c.ttl) t then none else some v) else get t j c)
  unfolding get set
  get-set now t k j v c = rw (entry_at-put_entry k j _ c.entries) (ground arith)

  -- After an invalidation no key with the prefix has a value, at any time, and every other key
  -- reads what it read before.
  get-invalidate_by_prefix :
      (t : ℕ) (prefix j : String) (c : Cache V)
      → get t j (invalidate_by_prefix prefix c) ≡ (if starts_with j prefix then none else get t j c)
  unfolding get invalidate_by_prefix
  get-invalidate_by_prefix t prefix j c =
      rw (entry_at-delete_where (λ k. starts_with k prefix) j c.entries) (ground arith)

  pub get-invalidate :
      (t : ℕ) (key j : String) (c : Cache V)
      → get t j (invalidate key c) ≡ (if str_eq j key then none else get t j c)
  unfolding get invalidate
  get-invalidate t key j c =
      rw (entry_at-delete_where (λ k. str_eq k key) j c.entries) (ground arith)

  get-set_self :
      (now t : ℕ) (k : String) (v : V) (c : Cache V)
      → t ≤ now + c.ttl
      → get t k (set now k v c) ≡ some v
  get-set_self now t k v c fresh = rw (get-set now t k k v c, eq_refl k) (ground arith)

  get_or_fetch_miss :
      (now later : ℕ) (key : String) (v : V) (fetch : Unit {0} → Fetched V) (c : Cache V)
      → get now key c ≡ none
      → fetch tt ≡ Fetched.value v
      → (get_or_fetch now later key fetch c).1 ≡ set later key v c
  unfolding get_or_fetch
  get_or_fetch_miss now later key v fetch c miss fetched = ground arith

  get_or_fetch_hit :
      (now later : ℕ) (key : String) (v : V) (fetch : Unit {0} → Fetched V) (c : Cache V)
      → get now key c ≡ some v
      → get_or_fetch now later key fetch c ≡ (Fetched.value v, c)
  unfolding get_or_fetch
  get_or_fetch_hit now later key v fetch c hit = ground arith

  -- A fetched value is served from the cache: a second call at or before the write's expiry returns it
  -- and leaves the cache alone, whatever its own fetch would return.
  get_or_fetch_twice :
      (now later t later' : ℕ) (key : String) (v : V) (fetch again : Unit {0} → Fetched V)
      (c : Cache V)
      → get now key c ≡ none
      → fetch tt ≡ Fetched.value v
      → t ≤ later + c.ttl
      → let c' = (get_or_fetch now later key fetch c).1 in
        get_or_fetch t later' key again c' ≡ (Fetched.value v, c')
  get_or_fetch_twice now later t later' key v fetch again c miss fetched fresh =
      rw (get_or_fetch_miss now later key v fetch c miss fetched)
        (get_or_fetch_hit t later' key v again _ (get-set_self later t key v c fresh))

  -- A failed fetch is reported and caches nothing.
  pub get_or_fetch_failure :
      (now later : ℕ) (key e : String) (fetch : Unit {0} → Fetched V) (c : Cache V)
      → get now key c ≡ none
      → fetch tt ≡ Fetched.failure e
      → get_or_fetch now later key fetch c ≡ (Fetched.failure e, c)
  unfolding get_or_fetch
  get_or_fetch_failure now later key e fetch c miss failed = ground arith
