-- ===== src/Middleware/BruteForceLaws.antt =====
-- When a login is locked, and for how long (internal/api/middleware/bruteforce.go).
use auth.Base.{
  Bool-cases, String, ap, arith, eq_refl, false, if◌then◌else◌, inl, inr, leb, pos, refl, suc, true,
  zero, ℕ, ◌+◌, ◌<◌, ◌∙◌, ◌≡◌,
}
use auth.Middleware.BruteForce.{
  thresholds, user, ip, cooldown_of, Counters, same_counter, count_of, is_after_zero, bump, clear,
  record_failure, record_success, record_login_result, first_hit, max_count, is_locked,
}

-- The failures of a run, by the same name from the same address.
abbrev pub fail_times : ℕ → String → String → Counters → Counters
fail_times zero username address c = c
fail_times (suc n) username address c =
    record_login_result username address false (fail_times n username address c)

counts-fail_times :
    (n : ℕ) (username address : String) (c : Counters)
    → (count_of ((fail_times n username address c).count (user username))
        ≡ n + count_of (c.count (user username)))
      × (count_of ((fail_times n username address c).count (ip address))
          ≡ n + count_of (c.count (ip address)))
unfolding record_login_result record_failure bump same_counter count_of
counts-fail_times zero username address c = (omega arith, omega arith)
counts-fail_times (suc n) username address c =
    let (u, i) = counts-fail_times n username address c in
    rw (eq_refl username, eq_refl address) (omega (arith, u), omega (arith, i))

ttl-fail_times :
    (n : ℕ) (username address : String) (c : Counters)
    → 0 < n
    → (fail_times n username address c).ttl (user username) ≡ pos 3600
unfolding record_login_result record_failure bump same_counter
ttl-fail_times zero username address c some_time = absurd (omega (arith, some_time))
ttl-fail_times (suc n) username address c some_time = rw (eq_refl username) refl

cooldown-fail_times :
    (n : ℕ) (username address : String) (c : Counters)
    → (fail_times n username address c).ttl (cooldown_of username) ≡ c.ttl (cooldown_of username)
unfolding record_login_result record_failure bump same_counter
cooldown-fail_times zero username address c = refl
cooldown-fail_times (suc n) username address c = cooldown-fail_times n username address c

-- The first threshold decides, whatever the others say: from four failures on the login is locked, for
-- the rest of a cooldown if there is one and else for the life of the name's counter.
first_threshold :
    (username address : String) (c : Counters)
    → is_locked username address c ≡ (
        if leb 4 (max_count username address c)
        then (
          true,
          (if is_after_zero (c.ttl (cooldown_of username))
              then c.ttl (cooldown_of username)
              else c.ttl (user username)),
        )
        else (false, pos 0))
unfolding is_locked first_hit thresholds
first_threshold username address c = ground arith

after_success :
    (username address : String) (c : Counters)
    → let c' = record_login_result username address true c in
      (count_of (c'.count (user username)) ≡ 0)
      × (count_of (c'.count (ip address)) ≡ 0)
      × (c'.ttl (cooldown_of username) ≡ c.ttl (cooldown_of username))
unfolding record_login_result record_success clear same_counter count_of
after_success username address c = rw (eq_refl username, eq_refl address) (refl, refl, refl)

-- From a success on, while no counter expires and no cooldown is stored, a login by that name from that
-- address is locked exactly from the fourth failure on, and then for the hour of the name's counter,
-- however many failures there are.
pub is_locked-fail_times :
    (n : ℕ) (username address : String) (c : Counters)
    → is_after_zero (c.ttl (cooldown_of username)) ≡ false
    → is_locked username address
        (fail_times n username address (record_login_result username address true c))
      ≡ (if leb 4 n then (true, pos 3600) else (false, pos 0))
unfolding max_count
is_locked-fail_times n username address c idle =
    let reset : Counters = record_login_result username address true c in
    let last : Counters = fail_times n username address reset in
    let (u, i) = counts-fail_times n username address reset in
    let (u', i', kept) = after_success username address c in
    let total : max_count username address last ≡ n = ground (arith, u, i, u', i') in
    let no_cooldown : is_after_zero (last.ttl (cooldown_of username)) ≡ false =
      ap is_after_zero (cooldown-fail_times n username address reset ∙ kept) ∙ idle in
    rw (first_threshold username address last, total, no_cooldown)
      (elim (Bool-cases (leb 4 n)) [
        | inl locked ↦ rw (locked, ttl-fail_times n username address reset (ground arith)) refl
        | inr free ↦ rw free refl
      ])
