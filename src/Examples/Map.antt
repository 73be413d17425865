-- ===== src/Examples/Map.antt =====
-- A Redis that keeps one map in memory, for any keys that can be compared.
use auth.Base.{
  All, Any, Bool, Bool-cases, List, String, [], ap, arith, if◌then◌else◌, inl, inr, refl, some,
  true, ◌↔◌, ◌∙◌, ◌∷◌, ◌≡◌, ◌≢◌,
}
use auth.Redis.{Available, Redis, Reply, hit, is_hit, nil}

-- Vs and sets, newest first; a deletion drops every entry of the key. No time passes.
pub record Store (K V : Type 0) : Type 0 where
  pub values : List (K × V)
  pub sets : List (K × String)

module _ {K : Type 0} (same_key : K → K → Bool) where
  unfoldable pub members : K → List (K × String) → List String
  members k [] = []
  members k ((j, m) ∷ l) = let rest = members k l in if same_key j k then m ∷ rest else rest

module _ {K V : Type 0} (same_key : K → K → Bool) where
  unfoldable pub lookup : K → List (K × V) → Reply V
  lookup k [] = nil
  lookup k ((j, v) ∷ l) = let rest = lookup k l in if same_key j k then hit v else rest

  unfoldable pub without : K → List (K × V) → List (K × V)
  without k [] = []
  without k ((j, v) ∷ l) = let rest = without k l in if same_key j k then rest else (j, v) ∷ rest

  unfoldable pub keys_of : (K → Bool) → List (K × V) → List K
  keys_of p [] = []
  keys_of p ((j, v) ∷ l) = let rest = keys_of p l in if p j then j ∷ rest else rest

  abbrev pub map_redis : Redis K V
  map_redis = record {
    State = Store K V;
    get = λ k s. lookup k s.values;
    set = λ k v t s. (record s { values = (k, v) ∷ s.values }, true);
    del = λ k s. (record s { values = without k s.values }, true);
    sadd = λ k m s. (record s { sets = (k, m) ∷ s.sets }, true);
    expire = λ k t s. (s, true);
    smembers = λ k s. some (members same_key k s.sets);
    exists = λ k s. some (is_hit (lookup k s.values));
    scan = λ p s. (keys_of p s.values, true);
  }

module _ {K V : Type 0} (same_key : K → K → Bool)
    (same_key_iff : (j k : K) → (same_key j k ≡ true) ↔ (j ≡ k)) where
  lookup-first : (k : K) (v : V) (l : List (K × V)) → lookup same_key k ((k, v) ∷ l) ≡ hit v
  unfolding lookup
  lookup-first k v l = rw ((same_key_iff k k).1 refl) refl

  lookup-other :
      (j k : K) (v : V) (l : List (K × V))
      → j ≢ k
      → lookup same_key j ((k, v) ∷ l) ≡ lookup same_key j l
  unfolding lookup
  lookup-other j k v l other = ground (arith, same_key_iff k j)

  lookup-without : (k : K) (l : List (K × V)) → lookup same_key k (without same_key k l) ≡ nil
  unfolding lookup without
  lookup-without k [] = refl
  lookup-without k ((j, v) ∷ l) = ground (arith, lookup-without k l)

  lookup-without_ne :
      (j k : K) (l : List (K × V))
      → j ≢ k
      → lookup same_key j (without same_key k l) ≡ lookup same_key j l
  unfolding lookup without
  lookup-without_ne j k [] other = refl
  lookup-without_ne j k ((i, v) ∷ l) other =
      ground (arith, same_key_iff i j, same_key_iff i k, lookup-without_ne j k l other)

  keys_of-Any :
      (p : K → Bool) (k : K) (l : List (K × V))
      → p k ≡ true
      → is_hit (lookup same_key k l) ≡ true
      → Any (λ j. j ≡ k) (keys_of same_key p l)
  unfolding keys_of lookup
  keys_of-Any p k [] holds found = absurd (ground arith)
  keys_of-Any p k ((j, v) ∷ l) holds found = elim (Bool-cases (same_key j k)) [
    | inl same ↦
        let kept : p j ≡ true = ap p ((same_key_iff j k).0 same) ∙ holds in
        rw kept (inl ((same_key_iff j k).0 same))
    | inr other ↦
        let below : is_hit (lookup same_key k l) ≡ true = ground arith in
        elim (Bool-cases (p j)) [
          | inl e ↦ rw e (inr (keys_of-Any p k l holds below))
          | inr e ↦ rw e (keys_of-Any p k l holds below)
        ]
  ]

  keys_of-All : (p : K → Bool) (l : List (K × V)) → All (λ k. p k ≡ true) (keys_of same_key p l)
  unfolding keys_of
  keys_of-All p [] = tt
  keys_of-All p ((j, v) ∷ l) = elim (Bool-cases (p j)) [
    | inl e ↦ rw e (e, keys_of-All p l)
    | inr e ↦ rw e (keys_of-All p l)
  ]

  pub map_redis-Available : Available {V = V} (map_redis same_key)
  map_redis-Available = record {
    set_ok = λ k v t s. refl;
    get-set_self = λ k v n s h. lookup-first k v s.values;
    get-set_ne = λ j k v t s h. lookup-other j k v s.values h;
    del_ok = λ k s. refl;
    get-del_self = λ k s. lookup-without k s.values;
    get-del_ne = λ j k s h. lookup-without_ne j k s.values h;
    sadd_ok = λ k m s. refl;
    get-sadd_ne = λ j k m s h. refl;
    expire_ok = λ k t s. refl;
    get-expire_ne = λ j k t s h. refl;
    exists-get = λ k s. refl;
    scan_ok = λ p s. refl;
    scan-Any = λ p k s h f. keys_of-Any p k s.values h f;
    scan-All = λ p s. keys_of-All p s.values;
  }
