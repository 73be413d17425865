-- ===== src/Authz/Window/Policy.antt =====
-- `resolveLocation`, `Evaluate` and `onError` of internal/service/authz/timewindow.go.
use Prim.Native.String.{◌++◌}
use auth.Base.{
  Bool, List, Option, Option-cases, String, Uuid, [], arith, codes, false, if◌then◌else◌, inl, inr,
  map, none, refl, some, str_eq, sym, true, ℕ, ◌&&◌, ◌==◌, ◌∙◌, ◌∷◌, ◌≡◌,
}
use auth.Text.{to_upper, trim_space}
use auth.OpaCache.{Cache, Fetched, value, failure, get_or_fetch}
use auth.Authz.Domain.{AuthContext}
use auth.Authz.Decision.{AuthorizationResult, DecisionReason, time_allowed, time_denied, verdict}
use auth.Authz.Window.{LocalTime, OperationalHours, Reason, is_open_at}

-- What the code takes from elsewhere: the policy7 client with its JSON decoder, the printed form of
-- a UUID, and the time zone database.
pub record Env : Type 1 where
  pub Location : Type 0
  pub fetch_operational_hours : String → String → String → Fetched OperationalHours
  pub uuid_string : Uuid → String
  pub load_location : String → Option Location
  pub in_location : Location → ℕ → LocalTime

pub record Settings : Type 0 where
  pub default_tz : String
  pub fail_open : Bool

eq_codes : List ℕ → List ℕ → Bool
eq_codes [] [] = true
eq_codes (c ∷ s) (d ∷ t) = c == d && eq_codes s t
eq_codes _ _ = false

-- The `switch` on `strings.ToUpper(strings.TrimSpace(tz))`.
unfoldable pub zone_name : String → String
unfolding eq_codes
zone_name tz =
    let name = map to_upper (trim_space (codes tz)) in
    if eq_codes name (codes "WIB")
    then "Asia/Jakarta"
    else if eq_codes name (codes "WITA")
    then "Asia/Makassar"
    else if eq_codes name (codes "WIT")
    then "Asia/Jayapura"
    else tz

-- The key of an org and branch scope; an empty branch is "global".
unfoldable pub cache_key : String → String → String
cache_key org branch =
    "opa:" ++ (org ++ (":operational_hours:" ++ (if str_eq branch "" then "global" else branch)))

first_role : List String → String
first_role [] = ""
first_role (r ∷ rs) = r

unfoldable pub on_error : Settings → AuthorizationResult
unfolding verdict
on_error settings =
    if settings.fail_open
    then verdict true DecisionReason.fail_open
    else verdict false DecisionReason.fail_closed

unfoldable pub decide_open : Bool × Reason → AuthorizationResult
unfolding verdict
decide_open (false, reason) = verdict false (time_denied reason)
decide_open (true, reason) = verdict true (time_allowed reason)

decide_open-allowed : (r : Bool × Reason) → (decide_open r).allowed ≡ r.0
unfolding decide_open
decide_open-allowed (true, reason) = refl
decide_open-allowed (false, reason) = refl

module _ (env : Env) (settings : Settings) where
  open env use {Location, fetch_operational_hours, uuid_string, load_location, in_location}

  unfoldable pub resolve_location : String → Option Location
  resolve_location tz = load_location (zone_name (if str_eq tz "" then settings.default_tz else tz))

  -- The parsed hours, through the cache, whose clock readings are `now` and `later`.
  unfoldable pub operational_hours :
      ℕ
      → ℕ
      → AuthContext
      → Cache OperationalHours
      → Fetched OperationalHours × Cache OperationalHours
  unfolding first_role
  operational_hours now later ctx cache =
      let org = uuid_string ctx.org_id in
      let branch = uuid_string ctx.branch_id in
      get_or_fetch now later (cache_key org branch)
        (λ _. fetch_operational_hours org (first_role ctx.roles) branch) cache

  unfoldable pub decide : ℕ → Fetched OperationalHours → AuthorizationResult
  unfolding on_error
  decide clock (failure e) = on_error settings
  decide clock (value oh) = elim (resolve_location oh.timezone) [
    | none ↦ on_error settings
    | some loc ↦ decide_open (is_open_at oh (in_location loc clock))
  ]

  -- `clock` is the evaluator's own `now()`.
  unfoldable pub evaluate :
      ℕ
      → ℕ
      → ℕ
      → AuthContext
      → Cache OperationalHours
      → AuthorizationResult × Cache OperationalHours
  evaluate now later clock ctx cache =
      let (hours, cache') = operational_hours now later ctx cache in (decide clock hours, cache')

  decide_fail_closed :
      (clock : ℕ) (h : Fetched OperationalHours)
      → settings.fail_open ≡ false
      → (decide clock h).allowed ≡ true
      → (oh : OperationalHours) × (loc : Location) × (h ≡ value oh)
        × (resolve_location oh.timezone ≡ some loc)
        × ((is_open_at oh (in_location loc clock)).0 ≡ true)
  unfolding decide
  decide_fail_closed clock (failure e) closed allowed = ground arith
  decide_fail_closed clock (value oh) closed allowed =
      elim (Option-cases (resolve_location oh.timezone)) [
        | inl missing ↦ absurd (ground arith)
        | inr (loc, found) ↦
            (oh, loc, refl, found, sym (decide_open-allowed _) ∙ (rw (found, decide) at allowed))
      ]

  -- An access that the gate allows, with fail-open off, has operational hours, a time zone, and a
  -- local time within those hours.
  evaluate_fail_closed :
      (now later clock : ℕ) (ctx : AuthContext) (cache : Cache OperationalHours)
      → settings.fail_open ≡ false
      → (evaluate now later clock ctx cache).0.allowed ≡ true
      → (oh : OperationalHours) × (loc : Location) × ((operational_hours now later ctx cache).0
          ≡ value oh)
        × (resolve_location oh.timezone ≡ some loc)
        × ((is_open_at oh (in_location loc clock)).0 ≡ true)
  unfolding evaluate
  evaluate_fail_closed now later clock ctx cache closed allowed =
      decide_fail_closed clock (operational_hours now later ctx cache).0 closed allowed
