-- ===== src/PruneOlder/Tests.antt =====
-- A run of `classify_saves`, and the theorems on it. A save is its time, the day counts ten of it,
-- the month a hundred and the year a thousand.
use bup.Base.{ℕ, ◌≡◌, ◌/◌, ◌%◌, true, false, List, [], ◌∷◌, arith}
use bup.PruneOlder.{LocalTime, PeriodStart, at, never, is_in, is_since, classify_saves}
use bup.PruneOlder.Kept.{decide, is_kept, is_kept_in, is_newest, outside, classify_saves-decide}
use bup.PruneOlder.Order.{saves_of, saves_of-classify_saves}

abbrev itself : ℕ → ℕ
itself utc = utc

abbrev localtime : LocalTime
localtime = record {
  tm_yday = λ utc. utc % 1000 / 10;
  tm_mon = λ utc. utc % 1000 / 100;
  tm_year = λ utc. utc / 1000;
}

abbrev period_start : PeriodStart
period_start = record { all = at 2990; dailies = at 1900; monthlies = never; yearlies = at 500 }

-- The second is of the first one's day but in the period of dailies; the fourth is a year before the
-- third, to the day.
abbrev saves : List ℕ
saves = 2995 ∷ 2989 ∷ 2983 ∷ 1985 ∷ 1100 ∷ 700 ∷ 400 ∷ []

classify_saves-decide_example :
    classify_saves itself localtime period_start saves
    ≡ (true, 2995)
      ∷ (true, 2989)
      ∷ (false, 2983)
      ∷ (false, 1985)
      ∷ (true, 1100)
      ∷ (true, 700)
      ∷ (false, 400)
      ∷ []
unfolding decide is_kept is_kept_in is_newest outside is_in is_since
classify_saves-decide_example = classify_saves-decide itself localtime period_start 3000 saves (
  omega arith,
  (omega arith, (omega arith, (omega arith, (omega arith, (omega arith, (omega arith, tt)))))),
)

saves_of-classify_saves_example :
    saves_of (classify_saves itself localtime period_start saves) ≡ saves
saves_of-classify_saves_example = saves_of-classify_saves itself localtime period_start saves
