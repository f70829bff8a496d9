-- ===== src/Timestamp/Calendar.antt =====
-- The civil fields that iso8601_utc prints, against the calendar read the other way.
use sdv_edge_gateway.Common.{
  ℕ, ◌+◌, ◌-◌, ◌*◌, ◌/◌, ◌%◌, ◌≤◌, ◌<◌, ◌≡◌, refl, arith, leb, ltb, not, Bool, true, false,
  if◌then◌else◌, inl, inr, Bool-cases,
}
use sdv_edge_gateway.Timestamp.{Tm, gmtime}

-- The specification: the days since 0000-03-01 of a civil date, by years that begin in March, with a
-- leap day every 4 years, but for those of 100 years that are none of 400.
abbrev pub days_of : Tm → ℕ
days_of tm =
    let y = if leb tm.month 2 then tm.year - 1 else tm.year in
    let m = (tm.month + 9) % 12 in
    365 * y + y / 4 - y / 100 + y / 400 + (153 * m + 2) / 5 + tm.day - 1

abbrev pub seconds_of : Tm → ℕ
seconds_of tm = (days_of tm - 719468) * 86400 + tm.hour * 3600 + tm.minute * 60 + tm.second

-- The ranges of the fields.
pub record IsCivil (tm : Tm) : Type 0 where
  pub month : (1 ≤ tm.month) × (tm.month ≤ 12)
  pub day : (1 ≤ tm.day) × (tm.day ≤ 31)
  pub hour : tm.hour < 24
  pub minute : tm.minute < 60
  pub second : tm.second < 60

-- The year of an era that a day belongs to.
abbrev year_of : ℕ → ℕ
year_of doe = (doe + doe / 36524 - doe / 1460 - doe / 146096) / 365

year_of_lem :
    (doe : ℕ)
    → doe < 146097
    → (year_of doe < 400)
      × (365 * year_of doe + year_of doe / 4 ≤ doe + year_of doe / 100)
      × (doe + year_of doe / 100 - (365 * year_of doe + year_of doe / 4) ≤ 365)
year_of_lem doe h = (omega (arith, h), omega (arith, h), omega (arith, h))

-- The month by its number from March on.
abbrev month_of : ℕ → ℕ
month_of m = if ltb m 10 then m + 3 else m - 9

month_of_lem :
    (m : ℕ)
    → m ≤ 11
    → (1 ≤ month_of m)
      × (month_of m ≤ 12)
      × ((month_of m + 9) % 12 ≡ m)
      × (leb (month_of m) 2 ≡ not (ltb m 10))
month_of_lem m h = elim (Bool-cases (ltb m 10)) [
  | inl e ↦
      rw e (ground (arith, e), ground (arith, e, h), ground (arith, e, h), ground (arith, e, h))
  | inr e ↦
      rw e (ground (arith, e), ground (arith, e, h), ground (arith, e, h), ground (arith, e, h))
]

march_lem :
    (doy : ℕ)
    → doy ≤ 365
    → ((5 * doy + 2) / 153 ≤ 11)
      × ((153 * ((5 * doy + 2) / 153) + 2) / 5 ≤ doy)
      × (doy ≤ (153 * ((5 * doy + 2) / 153) + 2) / 5 + 30)
march_lem doy h = (omega (arith, h), omega (arith, h), omega (arith, h))

-- The year of a date, from the year that begins in March.
march_year :
    (m year : ℕ) (b : Bool)
    → ltb m 10 ≡ b
    → m ≤ 11
    → (if leb (month_of m) 2
        then (if leb (month_of m) 2 then year + 1 else year) - 1
        else (if leb (month_of m) 2 then year + 1 else year))
      ≡ year
march_year m year true e h = rw ((month_of_lem m h).3, e) refl
march_year m year false e h = rw ((month_of_lem m h).3, e) (omega arith)

eras :
    (era y : ℕ)
    → y < 400
    → 365 * (y + 400 * era) + (y + 400 * era) / 4 - (y + 400 * era) / 100 + (y + 400 * era) / 400
      ≡ 146097 * era + (365 * y + y / 4 - y / 100)
eras era y h = omega (arith, h)

date_lem :
    (era y doy m hour minute second : ℕ)
    → y < 400
    → m ≤ 11
    → (153 * m + 2) / 5 ≤ doy
    → days_of (record {
      year = if leb (month_of m) 2 then y + 400 * era + 1 else y + 400 * era;
      month = month_of m;
      day = doy - (153 * m + 2) / 5 + 1;
      hour = hour;
      minute = minute;
      second = second;
    })
      ≡ 146097 * era + (365 * y + y / 4 - y / 100) + doy
date_lem era y doy m hour minute second hy hm hd =
    rw (march_year m (y + 400 * era) (ltb m 10) refl hm, (month_of_lem m hm).2, eras era y hy)
      (omega (arith, hd))

-- The civil fields of a number of seconds since 1970 are in their ranges, and they stand for exactly
-- that number of seconds in the Gregorian calendar.
pub gmtime-IsCivil : (t : ℕ) → IsCivil (gmtime t) × (seconds_of (gmtime t) ≡ t)
unfolding gmtime
gmtime-IsCivil t =
    let doe = (t / 86400 + 719468) % 146097 in
    let era = (t / 86400 + 719468) / 146097 in
    let y = year_of doe in
    let doy = doe + y / 100 - (365 * y + y / 4) in
    let (early, low, high) = year_of_lem doe (omega arith) in
    let (m, d, d') = march_lem doy high in
    let (month, month', m_of, m_leb) = month_of_lem ((5 * doy + 2) / 153) m in
    (
      record {
        month = (month, month');
        day = (omega (arith, d), omega (arith, d'));
        hour = omega arith;
        minute = omega arith;
        second = omega arith;
      },
      rw
          (date_lem era y doy ((5 * doy + 2) / 153) (t % 86400 / 3600) (t % 3600 / 60) (t % 60)
            early m d)
          (omega (arith, low, high)),
    )
