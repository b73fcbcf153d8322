-- ===== src/Clock.antt =====
-- Go's time.Time and time.Duration, as the program uses them. An instant is its nanoseconds since
-- January 1 of year 1; beside it a value carries its zone and, fresh from the clock, a monotonic
-- reading, which comparisons do not look at.
use Prim.Native.String.{◌++◌}
use headless_csms.Text.{digit}
use headless_csms.Prelude.{
  ℕ, ◌+◌, ◌-◌, ◌*◌, ◌/◌, ◌%◌, String, ◌≡◌, refl, Bool, false, if◌then◌else◌, ltb, leb, eqb, ℤ, pos,
  negsuc, max_int,
}

pub record Time : Type 0 where
  pub nanos : ℕ
  -- The zone's offset from UTC, in seconds.
  pub zone : ℤ
  pub monotonic : Bool

abbrev pub zero_time : Time
zero_time = record { nanos = 0; zone = pos 0; monotonic = false }

abbrev pub is_zero : Time → Bool
is_zero t = eqb t.nanos 0

-- `t.After(u)` and `t.Equal(u)`.
abbrev pub is_after : Time → Time → Bool
is_after t u = ltb u.nanos t.nanos

abbrev pub is_same_instant : Time → Time → Bool
is_same_instant t u = eqb t.nanos u.nanos

-- `t.UTC()`.
abbrev pub utc : Time → Time
utc t = record { nanos = t.nanos; zone = pos 0; monotonic = false }

-- `t.Sub(u)`, a Duration in nanoseconds, which stops at the ends of an int64.
unfoldable pub time_sub : Time → Time → ℤ
time_sub t u =
    if leb u.nanos t.nanos
    then (let d = t.nanos - u.nanos in if leb d max_int then pos d else pos max_int)
    else (let d = u.nanos - t.nanos - 1 in if leb d max_int then negsuc d else negsuc max_int)

-- `t.Add(d)`; an instant before year 1 is not represented and stands as year 1.
unfoldable pub time_add : Time → ℤ → Time
time_add t (pos d) = record t { nanos = t.nanos + d }
time_add t (negsuc d) = record t { nanos = t.nanos - (d + 1) }

-- The civil date of a day, counted from January 1 of year 1, in years that begin in March.
abbrev year_of_era : ℕ → ℕ
year_of_era doe = (doe - doe / 1460 + doe / 36524 - doe / 146096) / 365

abbrev day_of_year : ℕ → ℕ
day_of_year doe = let yoe = year_of_era doe in doe - (365 * yoe + yoe / 4 - yoe / 100)

abbrev civil : ℕ → ℕ × ℕ × ℕ
civil days =
    let z = days + 306 in
    let doe = z % 146097 in
    let doy = day_of_year doe in
    let mp = (5 * doy + 2) / 153 in
    let m = if ltb mp 10 then mp + 3 else mp - 9 in
    let y = year_of_era doe + 400 * (z / 146097) in
    (if leb m 2 then y + 1 else y, m, doy - (153 * mp + 2) / 5 + 1)

two_digits : ℕ → String
two_digits n = digit (n / 10) ++ digit (n % 10)

four_digits : ℕ → String
unfolding two_digits
four_digits n = two_digits (n / 100) ++ two_digits (n % 100)

-- `t.UTC().Format(time.RFC3339)`, for the years up to 9999.
unfoldable pub rfc3339 : Time → String
unfolding four_digits two_digits
rfc3339 t =
    let secs = t.nanos / 1000000000 in
    let (y, m, d) = civil (secs / 86400) in
    let clock = secs % 86400 in
    (four_digits y ++ ("-" ++ (two_digits m ++ ("-" ++ two_digits d))))
    ++ ("T"
        ++ (two_digits (clock / 3600)
            ++ (":"
                ++ (two_digits (clock / 60 % 60) ++ (":" ++ (two_digits (clock % 60) ++ "Z"))))))

rfc3339_run : rfc3339 (record zero_time { nanos = 63860712210500000000 }) ≡ "2024-08-31T14:43:30Z"
unfolding rfc3339
rfc3339_run = refl
