-- ===== src/PruneOlder.antt =====
-- lib/bup/cmd/prune_older.py: which saves of a branch are kept, with `partition` and
-- `period_as_secs` of lib/bup/helpers.py. `localtime` is the platform's: its fields are parameters.
-- Times are seconds from the epoch on, which no save is before.
pub mod Kept
pub mod Order
mod Tests
use bup.Base.{ℕ, Bool, true, false, List, [], ◌∷◌, ◌++◌, leb, ◌==◌, if◌then◌else◌}

-- Where a period starts: -inf, a number, or inf for a period that was not given.
pub data Start : Type 0 where
  forever never : Start
  at : ℕ → Start

-- utc >= period_start
pub is_since : Start → ℕ → Bool
is_since forever utc = true
is_since never utc = false
is_since (at start) utc = leb start utc

-- What is used of `localtime`.
pub record LocalTime : Type 0 where
  pub tm_yday : ℕ → ℕ
  pub tm_mon : ℕ → ℕ
  pub tm_year : ℕ → ℕ

pub record PeriodStart : Type 0 where
  pub all : Start
  pub dailies : Start
  pub monthlies : Start
  pub yearlies : Start

-- A period after `all`, with its time region id.
abbrev pub Range : Type 0
Range = Start × (ℕ → ℕ)

abbrev pub tm_ranges : LocalTime → PeriodStart → List Range
tm_ranges localtime period_start =
    (period_start.dailies, localtime.tm_yday)
    ∷ (period_start.monthlies, localtime.tm_mon)
    ∷ (period_start.yearlies, localtime.tm_year)
    ∷ []

module _ {A : Type 0} (predicate : A → Bool) where
  -- leading_matches and rest, the first exhausted before the second is read
  pub leading_matches : List A → List A
  leading_matches [] = []
  leading_matches (x ∷ stream) =
      let more = leading_matches stream in if predicate x then x ∷ more else []

  pub rest : List A → List A
  rest [] = []
  rest (x ∷ stream) = let more = rest stream in if predicate x then more else x ∷ stream

module _ {S : Type 0} (utc : S → ℕ) where
  -- itertools.groupby: what follows a save in its group, and the groups after that.
  pub group_rest : (ℕ → ℕ) → S → List S → List S × List (List S)
  group_rest region_id save [] = ([], [])
  group_rest region_id save (next ∷ saves) =
      let (region, regions) = group_rest region_id next saves in
      if region_id (utc save) == region_id (utc next)
      then (next ∷ region, regions)
      else ([], (next ∷ region) ∷ regions)

  pub groupby : (ℕ → ℕ) → List S → List (List S)
  groupby region_id [] = []
  groupby region_id (save ∷ saves) =
      let (region, regions) = group_rest region_id save saves in (save ∷ region) ∷ regions

  pub yield_all : Bool → List S → List (Bool × S)
  yield_all keep [] = []
  yield_all keep (save ∷ saves) = (keep, save) ∷ yield_all keep saves

  pub retain_newest_in_region : List S → List (Bool × S)
  retain_newest_in_region [] = []
  retain_newest_in_region (save ∷ region) = (true, save) ∷ yield_all false region

  pub retain_newest : List (List S) → List (Bool × S)
  retain_newest [] = []
  retain_newest (region ∷ regions) = retain_newest_in_region region ++ retain_newest regions

  pub is_in : Start → S → Bool
  is_in start save = is_since start (utc save)

  -- The loop over `tm_ranges`, and the saves that are older than all of them.
  pub classify_ranges : List Range → List S → List (Bool × S)
  classify_ranges [] saves = yield_all false saves
  classify_ranges ((pstart, region_id) ∷ ranges) saves =
      retain_newest (groupby region_id (leading_matches (is_in pstart) saves))
      ++ classify_ranges ranges (rest (is_in pstart) saves)

  pub classify_saves : LocalTime → PeriodStart → List S → List (Bool × S)
  classify_saves localtime period_start saves =
      yield_all true (leading_matches (is_in period_start.all) saves)
      ++ classify_ranges (tm_ranges localtime period_start) (rest (is_in period_start.all) saves)
