-- ===== src/Domain/Calendar.antt =====
-- Dates and points in time, and app/application/common.py on them. Every aware value of the
-- program is in UTC (`datetime.now(UTC)`, and what the database hands back), so a point in time is
-- its microseconds since the epoch on the UTC clock, with a mark that tells aware from naive.
use ioka.Prelude.{
  ℕ, ◌+◌, ◌*◌, ◌-◌, ◌/◌, ◌%◌, Bool, true, not, ◌&&◌, ◌||◌, if◌then◌else◌, leb, eqb, none, some, [],
  ◌∷◌,
}
use ioka.Prelude.Lists.{get_elem?}

pub record Date : Type 0 where
  pub year : ℕ
  pub month : ℕ
  pub day : ℕ

pub record Datetime : Type 0 where
  pub micros : ℕ
  pub tzinfo : Bool

-- `timedelta(seconds=n)` added to a point in time
abbrev pub add_seconds : ℕ → Datetime → Datetime
add_seconds n t = record t { micros = t.micros + n * 1000000 }

-- `value if value.tzinfo else value.replace(tzinfo=UTC)`
unfoldable pub ensure_aware : Datetime → Datetime
ensure_aware value = if value.tzinfo then value else record value { tzinfo = true }

-- `ensure_aware(expires_at) <= utcnow()`
unfoldable pub has_passed : Datetime → Datetime → Bool
unfolding ensure_aware
has_passed expires_at now = leb (ensure_aware expires_at).micros now.micros

abbrev pub is_leap : ℕ → Bool
is_leap year = eqb (year % 4) 0 && (not (eqb (year % 100) 0) || eqb (year % 400) 0)

abbrev pub days_before_year : ℕ → ℕ
days_before_year year = let y = year - 1 in y * 365 + y / 4 - y / 100 + y / 400

-- The days of the months before one, in a year that is no leap year.
abbrev pub days_of_months : ℕ → ℕ
days_of_months month =
    elim (get_elem? {A = ℕ} (0 ∷ 31 ∷ 59 ∷ 90 ∷ 120 ∷ 151 ∷ 181 ∷ 212 ∷ 243 ∷ 273 ∷ 304 ∷ 334 ∷ [])
      (month - 1)) [ none ↦ 0 | some days ↦ days ]

-- `date.toordinal()`
unfoldable pub ordinal : Date → ℕ
ordinal d =
    days_before_year d.year
    + days_of_months d.month
    + (if leb 3 d.month && is_leap d.year then 1 else 0)
    + d.day

-- `datetime.combine(d, time(hour, minute), tzinfo=UTC)`, for a day from 1970-01-01 on
unfoldable pub combine : Date → ℕ → ℕ → Datetime
unfolding ordinal
combine d hour minute = record {
  micros = ((ordinal d - 719163) * 86400 + hour * 3600 + minute * 60) * 1000000;
  tzinfo = true;
}
