-- ===== src/Clock.antt =====
-- src/clock.rs: UTC times from Unix seconds.
use sorseal.Base.{
  ℕ, zero, suc, ◌+◌, ◌-◌, ◌*◌, ◌/◌, ◌%◌, ltb, leb, if◌then◌else◌, [], ◌∷◌, ◌++◌, replicate, length,
  Text,
}

-- The decimal digits of a number, at most `fuel` of them: 20 are enough for a u64.
unfoldable pub digits : ℕ → ℕ → Text
digits zero n = []
digits (suc fuel) n =
    let higher = digits fuel (n / 10) in
    if ltb n 10 then (n + b'0') ∷ [] else higher ++ (n % 10 + b'0') ∷ []

-- `{n:0width}`.
unfoldable pub padded : ℕ → ℕ → Text
padded width n = let s = digits 20 n in replicate (width - length s) b'0' ++ s

pub record Date : Type 0 where
  pub year : ℕ
  pub month : ℕ
  pub day : ℕ

-- For days from 1970-01-01 on: there `div_euclid` and `rem_euclid` are `/` and `%` on ℕ, and no `-` goes below 0.
unfoldable pub civil_from_days : ℕ → Date
civil_from_days days =
    let z = days + 719468 in
    let era = z / 146097 in
    let doe = z % 146097 in
    let yoe = (doe - doe / 1460 + doe / 36524 - doe / 146096) / 365 in
    let y = yoe + era * 400 in
    let doy = doe - (365 * yoe + yoe / 4 - yoe / 100) in
    let mp = (5 * doy + 2) / 153 in
    let d = doy - (153 * mp + 2) / 5 + 1 in
    let m = if ltb mp 10 then mp + 3 else mp - 9 in
    record { year = if leb m 2 then y + 1 else y; month = m; day = d }

unfoldable pub utc_rfc3339 : ℕ → Text
unfolding civil_from_days padded
utc_rfc3339 secs =
    let date = civil_from_days (secs / 86400) in
    let secs_of_day = secs % 86400 in
    padded 4 date.year
    ++ (b'-'
        ∷ (padded 2 date.month
            ++ (b'-'
                ∷ (padded 2 date.day
                    ++ (b'T'
                        ∷ (padded 2 (secs_of_day / 3600)
                            ++ (b':'
                                ∷ (padded 2 (secs_of_day / 60 % 60)
                                    ++ (b':' ∷ (padded 2 (secs_of_day % 60) ++ (b'Z' ∷ [])))))))))))
