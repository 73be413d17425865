-- ===== src/Authz/Window/Hours.antt =====
-- `IsOpenAt` of internal/service/authz/timewindow.go against intervals of the day.
use auth.Base.{
  List, Option, arith, codes, none, refl, some, true, ℕ, ◌%◌, ◌*◌, ◌+◌, ◌-◌, ◌<◌, ◌↔◌, ◌≡◌, ◌≢◌,
  ◌≤◌,
}
use auth.Text.{Signed, atoi, split_at, trim_space}
use auth.Authz.Window.{
  minutes_of, parse_parts, is_open_on, is_open_window, DayWindow, LocalTime, OperationalHours,
  in_range, is_open_at, parse_hhmm, window_for_day, within_window,
}

-- A window as the source gives it, with the minutes that its texts stand for.
pub record Parses (w : DayWindow) (o c : ℕ) : Type 0 where
  pub opens : parse_hhmm (codes w.open_time) ≡ some o
  pub closes : parse_hhmm (codes w.close_time) ≡ some c

abbrev pub minute_of_day : LocalTime → ℕ
minute_of_day t = t.hour * 60 + t.minute

in_range-le : (max : ℕ) (i : Option Signed) (v : ℕ) → in_range max i ≡ some v → v ≤ max
unfolding in_range
in_range-le max none v h = cc
in_range-le max (some i) v h = ground arith

minutes_of-lt :
    (h m : Option ℕ) (v : ℕ)
    → ((x : ℕ) → h ≡ some x → x ≤ 23)
    → ((x : ℕ) → m ≡ some x → x ≤ 59)
    → minutes_of h m ≡ some v
    → v < 1440
unfolding minutes_of
minutes_of-lt none m v ph pm e = cc
minutes_of-lt (some h) none v ph pm e = cc
minutes_of-lt (some h) (some m) v ph pm e = ground (arith, ph h refl, pm m refl)

parse_parts-lt : (p : Option (List ℕ × List ℕ)) (v : ℕ) → parse_parts p ≡ some v → v < 1440
unfolding parse_parts
parse_parts-lt none v h = cc
parse_parts-lt (some (a, b)) v h =
    minutes_of-lt (in_range 23 (atoi a)) (in_range 59 (atoi b)) v (in_range-le 23 (atoi a))
      (in_range-le 59 (atoi b)) h

-- What `parseHHMM` accepts is a minute of the day.
pub parse_hhmm-lt : (s : List ℕ) (v : ℕ) → parse_hhmm s ≡ some v → v < 1440
unfolding parse_hhmm
parse_hhmm-lt s v h = parse_parts-lt (split_at b':' (trim_space s)) v h

within_window-circular :
    (o c n : ℕ)
    → o < 1440
    → c < 1440
    → n < 1440
    → o ≢ c
    → (within_window o c n ≡ true) ↔ ((n + 1440 - o) % 1440 < (c + 1440 - o) % 1440)
unfolding within_window
within_window-circular o c n ho hc hn ne = ground arith

is_open_at-within_window :
    (oh : OperationalHours) (t : LocalTime) (w : DayWindow) (o c : ℕ)
    → window_for_day t.day oh ≡ some w
    → Parses w o c
    → o ≢ c
    → (is_open_at oh t).0 ≡ within_window o c (minute_of_day t)
unfolding is_open_at
is_open_at-within_window oh t w o c day p ne =
    rw (day, is_open_on)
      (rw (p.opens, is_open_window) (rw (p.closes, is_open_window) (ground arith)))

-- With a window whose texts parse, to different minutes, the day is open exactly on the circular
-- interval from `o` up to `c` of the 1440 minutes.
pub is_open_at-circular :
    (oh : OperationalHours) (t : LocalTime) (w : DayWindow) (o c : ℕ)
    → window_for_day t.day oh ≡ some w
    → Parses w o c
    → o ≢ c
    → minute_of_day t < 1440
    → ((is_open_at oh t).0 ≡ true) ↔ ((minute_of_day t + 1440 - o) % 1440 < (c + 1440 - o) % 1440)
is_open_at-circular oh t w o c day p ne lt = rw (is_open_at-within_window oh t w o c day p ne) (
    within_window-circular o c (minute_of_day t) (parse_hhmm-lt _ o p.opens)
      (parse_hhmm-lt _ c p.closes) lt ne)
