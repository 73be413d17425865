-- ===== src/Redis.antt =====
-- The Redis commands that the program sends. The server is not under src/: its state is abstract, and
-- `Available` is what its documentation says of a server that answers every command.
use auth.Base.{All, Any, Bool, List, Option, String, false, pos, some, true, ℕ, ℤ, ◌<◌, ◌≡◌, ◌≢◌}

-- The reply to GET: `redis.Nil` is `nil`, any other error `down`.
pub data Reply (V : Type 0) : Type 0 where
  hit : V → Reply V
  nil : Reply V
  down : Reply V

-- A write returns the new state and whether the reply was no error. A time to live is in seconds;
-- `scan` lists the keys that its iterator yields, before its end or an error.
pub record Redis (K V : Type 0) : Type 1 where
  pub State : Type 0
  pub get : K → State → Reply V
  pub set : K → V → ℤ → State → State × Bool
  pub del : K → State → State × Bool
  pub sadd : K → String → State → State × Bool
  pub expire : K → ℤ → State → State × Bool
  pub smembers : K → State → Option (List String)
  pub exists : K → State → Option Bool
  pub scan : (K → Bool) → State → List K × Bool

abbrev pub is_hit : {V : Type 0} → Reply V → Bool
is_hit (hit v) = true
is_hit nil = false
is_hit down = false

pub record Available {K V : Type 0} (r : Redis K V) : Type 0 where
  pub set_ok : (k : K) (v : V) (t : ℤ) (s : r.State) → (r.set k v t s).1 ≡ true
  pub get-set_self :
      (k : K) (v : V) (n : ℕ) (s : r.State) → 0 < n → r.get k (r.set k v (pos n) s).0 ≡ hit v
  pub get-set_ne :
      (j k : K) (v : V) (t : ℤ) (s : r.State) → j ≢ k → r.get j (r.set k v t s).0 ≡ r.get j s
  pub del_ok : (k : K) (s : r.State) → (r.del k s).1 ≡ true
  pub get-del_self : (k : K) (s : r.State) → r.get k (r.del k s).0 ≡ nil
  pub get-del_ne : (j k : K) (s : r.State) → j ≢ k → r.get j (r.del k s).0 ≡ r.get j s
  pub sadd_ok : (k : K) (m : String) (s : r.State) → (r.sadd k m s).1 ≡ true
  pub get-sadd_ne :
      (j k : K) (m : String) (s : r.State) → j ≢ k → r.get j (r.sadd k m s).0 ≡ r.get j s
  pub expire_ok : (k : K) (t : ℤ) (s : r.State) → (r.expire k t s).1 ≡ true
  pub get-expire_ne :
      (j k : K) (t : ℤ) (s : r.State) → j ≢ k → r.get j (r.expire k t s).0 ≡ r.get j s
  pub exists-get : (k : K) (s : r.State) → r.exists k s ≡ some (is_hit (r.get k s))
  pub scan_ok : (p : K → Bool) (s : r.State) → (r.scan p s).1 ≡ true
  pub scan-Any :
      (p : K → Bool) (k : K) (s : r.State)
      → p k ≡ true
      → is_hit (r.get k s) ≡ true
      → Any (λ j. j ≡ k) (r.scan p s).0
  pub scan-All : (p : K → Bool) (s : r.State) → All (λ k. p k ≡ true) (r.scan p s).0
