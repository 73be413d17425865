-- ===== src/Authz/Window.antt =====
-- internal/service/authz/timewindow.go: the operational-hours gate. JSON decoding, the HTTP client and
-- `time.LoadLocation` are not under src/ and are parameters of `evaluate`.
pub mod Hours
pub mod Clock
pub mod Policy
use auth.Base.{
  Bool, List, Option, String, codes, false, if◌then◌else◌, leb, ltb, none, not, some, str_eq, true,
  ℕ, ◌&&◌, ◌*◌, ◌+◌, ◌==◌, ◌||◌,
}
use auth.Text.{Signed, atoi, split_at, trim_space}

pub data Weekday : Type 0 where
  sunday monday tuesday wednesday thursday friday saturday : Weekday

pub record DayWindow : Type 0 where
  pub open_time : String
  pub close_time : String

pub record OperationalHours : Type 0 where
  pub timezone : String
  pub weekday : Option DayWindow
  pub saturday_window : Option DayWindow
  pub sunday_window : Option DayWindow
  pub is_open : Option Bool
  pub open_time : String
  pub close_time : String

-- The flat fallback: it applies when either of its texts is given, unless it says closed.
unfoldable pub flat_window : OperationalHours → Option DayWindow
flat_window oh =
    if not (str_eq oh.open_time "") || not (str_eq oh.close_time "")
    then (elim oh.is_open [
      | some false ↦ none
      | _ ↦ some (record { open_time = oh.open_time; close_time = oh.close_time })
    ])
    else none

or_else : Option DayWindow → Option DayWindow → Option DayWindow
or_else (some w) other = some w
or_else none other = other

unfoldable pub window_for_day : Weekday → OperationalHours → Option DayWindow
unfolding or_else flat_window
window_for_day saturday oh = or_else oh.saturday_window (flat_window oh)
window_for_day sunday oh = or_else oh.sunday_window (flat_window oh)
window_for_day _ oh = or_else oh.weekday (flat_window oh)

-- `err != nil || v < 0 || v > max` of the two halves of a clock time.
unfoldable pub in_range : ℕ → Option Signed → Option ℕ
in_range max none = none
in_range max (some i) = if i.negative || ltb max i.size then none else some i.size

-- `parseHHMM` of the code points of a text: minutes since midnight.
minutes_of : Option ℕ → Option ℕ → Option ℕ
minutes_of none m = none
minutes_of (some h) none = none
minutes_of (some h) (some m) = some (h * 60 + m)

parse_parts : Option (List ℕ × List ℕ) → Option ℕ
unfolding minutes_of in_range
parse_parts none = none
parse_parts (some (hours, minutes)) =
    minutes_of (in_range 23 (atoi hours)) (in_range 59 (atoi minutes))

unfoldable pub parse_hhmm : List ℕ → Option ℕ
unfolding parse_parts
parse_hhmm s = parse_parts (split_at b':' (trim_space s))

-- The reason texts, by their format strings.
pub data Reason : Type 0 where
  closed_on : Weekday → Reason
  closed_window : Weekday → DayWindow → Reason
  within_hours : Weekday → DayWindow → Reason
  outside_hours : Weekday → DayWindow → ℕ → Reason

-- The test on the minute of the day; a window that closes before it opens runs over midnight.
unfoldable pub within_window : ℕ → ℕ → ℕ → Bool
within_window open_min close_min now_min =
    if ltb open_min close_min
    then leb open_min now_min && ltb now_min close_min
    else leb open_min now_min || ltb now_min close_min

-- The local time that `t.In(loc)` shows.
pub record LocalTime : Type 0 where
  pub day : Weekday
  pub hour : ℕ
  pub minute : ℕ

is_open_window : DayWindow → LocalTime → Option ℕ → Option ℕ → Bool × Reason
is_open_window w t none c = (false, closed_window t.day w)
is_open_window w t (some o) none = (false, closed_window t.day w)
is_open_window w t (some o) (some c) =
    let now_min = t.hour * 60 + t.minute in
    if o == c
    then (false, closed_window t.day w)
    else if within_window o c now_min
    then (true, within_hours t.day w)
    else (false, outside_hours t.day w now_min)

is_open_on : Option DayWindow → LocalTime → Bool × Reason
unfolding is_open_window
is_open_on none t = (false, closed_on t.day)
is_open_on (some w) t =
    is_open_window w t (parse_hhmm (codes w.open_time)) (parse_hhmm (codes w.close_time))

unfoldable pub is_open_at : OperationalHours → LocalTime → Bool × Reason
unfolding is_open_on
is_open_at oh t = is_open_on (window_for_day t.day oh) t
