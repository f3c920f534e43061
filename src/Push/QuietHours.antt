-- ===== src/Push/QuietHours.antt =====
-- The quiet hours of server/src/push/pushQuietHours.ts. The minute of the day in a timezone is the
-- platform's (`Intl`), and is none where it throws.
use hyper_solid.Prelude.{
  ℕ, String, Bool, true, false, not, ◌&&◌, ◌||◌, ◌≡◌, Option, none, some, ltb, leb, nat_eqb, arith,
  if◌then◌else◌,
}

pub record QuietHours : Type 0 where
  pub enabled : Bool
  pub start : ℕ
  pub stop : ℕ
  pub tz : String

-- Whether a minute of the day is in the window.
abbrev pub in_window : ℕ → ℕ → ℕ → Bool
in_window start stop m =
    if ltb start stop then leb start m && ltb m stop else leb start m || ltb m stop

unfoldable pub is_within_quiet_hours : (ℕ → String → Option ℕ) → QuietHours → ℕ → Bool
is_within_quiet_hours minute_of_day qh now_ms =
    if not qh.enabled || nat_eqb qh.start qh.stop
    then false
    else elim (minute_of_day now_ms qh.tz) [ none ↦ false | some m ↦ in_window qh.start qh.stop m ]

-- A window that is enabled and not empty, in a timezone that is known, and the window with the ends
-- swapped split the day, also where one of them runs over midnight: every time is in exactly one.
pub quiet_split :
    (minute_of_day : ℕ → String → Option ℕ) (qh : QuietHours) (now_ms m : ℕ)
    → qh.enabled ≡ true
    → nat_eqb qh.start qh.stop ≡ false
    → minute_of_day now_ms qh.tz ≡ some m
    → is_within_quiet_hours minute_of_day qh now_ms
      ≡ not (
          is_within_quiet_hours minute_of_day
            (record qh { start = qh.stop; stop = qh.start })
            now_ms)
unfolding is_within_quiet_hours
quiet_split minute_of_day qh now_ms m enabled wide known = ground arith
