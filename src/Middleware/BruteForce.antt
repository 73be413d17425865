-- ===== src/Middleware/BruteForce.antt =====
-- The counters of failed logins (internal/api/middleware/bruteforce.go). `redis.Get` of a missing key is the
-- empty text; a counter is what INCR has made of it. Times are in seconds.
use auth.Base.{
  Bool, List, Option, String, [], false, if◌then◌else◌, leb, ltb, negsuc, none, pos, some, str_eq,
  suc, true, ℕ, ℤ, ◌∷◌,
}

pub record Threshold : Type 0 where
  pub failures : ℕ
  pub cooldown : ℕ
  pub lockout : Bool

unfoldable pub thresholds : List Threshold
thresholds =
    record { failures = 4; cooldown = 60; lockout = false }
    ∷ record { failures = 6; cooldown = 300; lockout = false }
    ∷ record { failures = 10; cooldown = 0; lockout = true }
    ∷ []

-- The prefixes "bruteforce:user:", "bruteforce:ip:" and "bruteforce:cooldown:".
pub data CounterKey : Type 0 where
  user ip cooldown_of : String → CounterKey

-- What Redis holds of each key: the count, if there is one, and the time to live that TTL answers, which
-- is negative for a missing key and for one that does not expire.
pub record Counters : Type 0 where
  pub count : CounterKey → Option ℕ
  pub ttl : CounterKey → ℤ

unfoldable pub same_counter : CounterKey → CounterKey → Bool
same_counter (user a) (user b) = str_eq a b
same_counter (ip a) (ip b) = str_eq a b
same_counter (cooldown_of a) (cooldown_of b) = str_eq a b
same_counter j k = false

unfoldable pub count_of : Option ℕ → ℕ
count_of none = 0
count_of (some n) = n

-- INCR and EXPIRE
unfoldable pub bump : CounterKey → ℕ → Counters → Counters
unfolding same_counter count_of
bump k lifetime c = record {
  count = λ j. if same_counter j k then some (suc (count_of (c.count k))) else c.count j;
  ttl = λ j. if same_counter j k then pos lifetime else c.ttl j;
}

unfoldable pub clear : CounterKey → Counters → Counters
unfolding same_counter
clear k c = record {
  count = λ j. if same_counter j k then none else c.count j;
  ttl = λ j. if same_counter j k then negsuc 1 else c.ttl j;
}

unfoldable pub record_failure : String → String → Counters → Counters
unfolding bump
record_failure username address c = bump (ip address) 86400 (bump (user username) 3600 c)

unfoldable pub record_success : String → String → Counters → Counters
unfolding clear
record_success username address c = clear (ip address) (clear (user username) c)

unfoldable pub record_login_result : String → String → Bool → Counters → Counters
record_login_result username address success c =
    if success then record_success username address c else record_failure username address c

abbrev pub is_after_zero : ℤ → Bool
is_after_zero (pos n) = ltb 0 n
is_after_zero (negsuc n) = false

-- The loop over the thresholds, whose first hit returns.
unfoldable pub first_hit : String → ℕ → Counters → List Threshold → Bool × ℤ
first_hit username max_count c [] = (false, pos 0)
first_hit username max_count c (t ∷ ts) =
    let rest = first_hit username max_count c ts in
    if leb t.failures max_count
    then (if t.lockout
        then (true, c.ttl (user username))
        else if is_after_zero (c.ttl (cooldown_of username))
        then (true, c.ttl (cooldown_of username))
        else (true, c.ttl (user username)))
    else rest

unfoldable pub max_count : String → String → Counters → ℕ
unfolding count_of
max_count username address c =
    let user_count = count_of (c.count (user username)) in
    let ip_count = count_of (c.count (ip address)) in
    if ltb user_count ip_count then ip_count else user_count

unfoldable pub is_locked : String → String → Counters → Bool × ℤ
unfolding first_hit thresholds max_count
is_locked username address c = first_hit username (max_count username address c) c thresholds
