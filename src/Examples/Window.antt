-- ===== src/Examples/Window.antt =====
-- Operational hours of a weekday, and one window over midnight.
use auth.Base.{
  [], arith, false, if◌then◌else◌, none, refl, some, str_eq, true, ◌%◌, ◌+◌, ◌-◌, ◌<◌, ◌==◌, ◌↔◌,
  ◌∷◌, ◌≡◌,
}
use auth.Text.{atoi, split_at, to_upper, trim_space}
use auth.Authz.Decision.{verdict}
use auth.OpaCache.{Cache, value, get_or_fetch, get, entry_at, live_value, set}
use auth.Authz.Domain.{AuthContext, branch_scope_assigned}
use auth.Authz.Window.{
  DayWindow, LocalTime, OperationalHours, friday, in_range, is_open_at, parse_hhmm, window_for_day,
  within_window,
}
use auth.Authz.Window.Hours.{Parses, minute_of_day, is_open_at-circular}
use auth.Authz.Window.Policy.{
  Env, Settings, evaluate, operational_hours, resolve_location, decide, decide_open, zone_name,
}

abbrev night : DayWindow
night = record { open_time = "22:00"; close_time = " 2:00" }

abbrev hours : OperationalHours
hours = record {
  timezone = "wib";
  weekday = some night;
  saturday_window = none;
  sunday_window = none;
  is_open = none;
  open_time = "";
  close_time = "";
}

abbrev late : LocalTime
late = record { day = friday; hour = 23; minute = 30 }

night-Parses : Parses night 1320 120
unfolding parse_hhmm split_at trim_space atoi in_range
night-Parses = record { opens = refl; closes = refl }

is_open_at-circular_example :
    ((is_open_at hours late).0 ≡ true)
    ↔ ((minute_of_day late + 1440 - 1320) % 1440 < (120 + 1440 - 1320) % 1440)
unfolding window_for_day
is_open_at-circular_example =
    is_open_at-circular hours late night 1320 120 refl night-Parses (omega arith) (omega arith)

late_is_open : (is_open_at hours late).0 ≡ true
late_is_open = is_open_at-circular_example.1 (omega arith)

-- Flat hours: the parsing above is of the weekday shape, this of the other.
abbrev flat_hours : OperationalHours
flat_hours = record hours { weekday = none; open_time = "08:00"; close_time = "15:00" }

flat_is_closed : (is_open_at flat_hours late).0 ≡ false
unfolding is_open_at window_for_day within_window parse_hhmm split_at trim_space atoi in_range
flat_is_closed = refl

-- A policy service that answers, one time zone, and a clock that stands.
abbrev env : Env
env = record {
  Location = Unit {0};
  fetch_operational_hours = λ org role branch. value hours;
  uuid_string = λ u. if u == 0 then "0" else "1";
  load_location = λ z. if str_eq z "Asia/Jakarta" then some tt else none;
  in_location = λ loc t. late;
}

abbrev strict : Settings
strict = record { default_tz = "Asia/Jakarta"; fail_open = false }

abbrev pub caller : AuthContext
caller = record {
  user_id = 1;
  org_id = 1;
  branch_id = 1;
  roles = [];
  permissions = "account:read" ∷ [];
  branch_scope = branch_scope_assigned;
  field_masks = [];
  attributes = none;
}

abbrev empty : Cache OperationalHours
empty = record { entries = []; ttl = 300 }

caller_is_allowed : (evaluate env strict 0 0 5 caller empty).0.allowed ≡ true
unfolding evaluate operational_hours get_or_fetch get live_value entry_at set decide decide_open
    resolve_location zone_name to_upper is_open_at window_for_day within_window parse_hhmm split_at
    trim_space atoi in_range verdict
caller_is_allowed = refl
