-- ===== src/Zip/Dos.antt =====
-- dateToDosDateTime of lib/tdf3/src/utils/zip-writer.ts
use web_sdk.Base.{ℕ, ◌+◌, ◌-◌, ◌*◌, ◌/◌, ◌%◌, ◌≤◌, ◌<◌, ◌≡◌, arith}

-- What the methods of a `Date` return: months count from 0.
pub record Date : Type 0 where
  pub date : ℕ
  pub month : ℕ
  pub full_year : ℕ
  pub hours : ℕ
  pub minutes : ℕ
  pub seconds : ℕ

pub record DosDateTime : Type 0 where
  pub date : ℕ
  pub time : ℕ

-- The masked fields do not overlap, so `|=` adds them. `getFullYear() - 1980` may be negative, and
-- `& 0x7f` takes it modulo 128: 1980 is 60 modulo 128.
unfoldable pub date_to_dos_date_time : Date → DosDateTime
date_to_dos_date_time js_date = record {
  date =
      js_date.date % 32
      + (js_date.month + 1) % 16 * 32
      + (js_date.full_year + 128 - 60) % 128 * 512;
  time = js_date.seconds / 2 + js_date.minutes % 64 * 32 + js_date.hours % 32 * 2048;
}

-- The ranges of a `Date`'s fields.
pub record IsDate (d : Date) : Type 0 where
  pub date_range : (1 ≤ d.date) × (d.date ≤ 31)
  pub month_range : d.month < 12
  pub hours_range : d.hours < 24
  pub minutes_range : d.minutes < 60
  pub seconds_range : d.seconds < 60

-- The year of an MS-DOS date, which counts from 1980.
abbrev pub dos_year : ℕ → ℕ
dos_year date = date / 512 + 1980

-- Of a date from 1980 up to the end of 2107 the two words are 16 bits wide and hold every field, the
-- seconds halved.
pub date_to_dos_date_time_fields :
    (d : Date)
    → IsDate d
    → 1980 ≤ d.full_year
    → d.full_year < 2108
    → ((date_to_dos_date_time d).date < 65536)
      × ((date_to_dos_date_time d).time < 65536)
      × ((date_to_dos_date_time d).date % 32 ≡ d.date)
      × ((date_to_dos_date_time d).date / 32 % 16 ≡ d.month + 1)
      × (dos_year (date_to_dos_date_time d).date ≡ d.full_year)
      × ((date_to_dos_date_time d).time % 32 ≡ d.seconds / 2)
      × ((date_to_dos_date_time d).time / 32 % 64 ≡ d.minutes)
      × ((date_to_dos_date_time d).time / 2048 ≡ d.hours)
unfolding date_to_dos_date_time
date_to_dos_date_time_fields d v lo hi = omega arith

-- Whatever the year, the two words are 16 bits wide.
pub date_to_dos_date_time_words :
    (d : Date)
    → IsDate d
    → ((date_to_dos_date_time d).date < 65536) × ((date_to_dos_date_time d).time < 65536)
unfolding date_to_dos_date_time
date_to_dos_date_time_words d v = omega arith
