-- ===== src/PruneOlder/Order.antt =====
-- `classify_saves` neither loses, repeats nor moves a save.
use bup.Base.{ℕ, ◌≡◌, refl, ap, Bool, true, false, List, [], ◌∷◌, ◌++◌, ◌==◌, Bool-cases, inl, inr}
use bup.PruneOlder.{
  LocalTime, PeriodStart, Range, tm_ranges, leading_matches, rest, group_rest, groupby, yield_all,
  retain_newest_in_region, retain_newest, is_in, classify_ranges, classify_saves,
}

module _ {S : Type 0} where
  pub saves_of : List (Bool × S) → List S
  saves_of [] = []
  saves_of ((keep, save) ∷ classified) = save ∷ saves_of classified

  saves_of-append : (xs ys : List (Bool × S)) → saves_of (xs ++ ys) ≡ saves_of xs ++ saves_of ys
  unfolding saves_of
  saves_of-append [] ys = refl
  saves_of-append ((keep, save) ∷ xs) ys = ap (λ t. save ∷ t) (saves_of-append xs ys)

  leading_matches-rest :
      (predicate : S → Bool) (saves : List S)
      → leading_matches predicate saves ++ rest predicate saves ≡ saves
  unfolding leading_matches rest
  leading_matches-rest predicate [] = refl
  leading_matches-rest predicate (save ∷ saves) = elim (Bool-cases (predicate save)) [
    | inl matches ↦ rw matches (ap (λ t. save ∷ t) (leading_matches-rest predicate saves))
    | inr other ↦ rw other
  ]

module _ {S : Type 0} (utc : S → ℕ) where
  saves_of-yield_all : (keep : Bool) (saves : List S) → saves_of (yield_all utc keep saves) ≡ saves
  unfolding saves_of yield_all
  saves_of-yield_all keep [] = refl
  saves_of-yield_all keep (save ∷ saves) = ap (λ t. save ∷ t) (saves_of-yield_all keep saves)

  saves_of-group_rest :
      (region_id : ℕ → ℕ) (save : S) (saves : List S)
      → saves_of (
          yield_all utc false (group_rest utc region_id save saves).0
          ++ retain_newest utc (group_rest utc region_id save saves).1)
        ≡ saves
  unfolding saves_of group_rest yield_all retain_newest retain_newest_in_region
  saves_of-group_rest region_id save [] = refl
  saves_of-group_rest region_id save (next ∷ saves) =
      elim (Bool-cases (region_id (utc save) == region_id (utc next))) [
        | inl same ↦ rw same (ap (λ t. next ∷ t) (saves_of-group_rest region_id next saves))
        | inr new ↦ rw new (ap (λ t. next ∷ t) (saves_of-group_rest region_id next saves))
      ]

  saves_of-groupby :
      (region_id : ℕ → ℕ) (saves : List S)
      → saves_of (retain_newest utc (groupby utc region_id saves)) ≡ saves
  unfolding groupby retain_newest retain_newest_in_region saves_of
  saves_of-groupby region_id [] = refl
  saves_of-groupby region_id (save ∷ saves) =
      ap (λ t. save ∷ t) (saves_of-group_rest region_id save saves)

  saves_of-classify_ranges :
      (ranges : List Range) (saves : List S) → saves_of (classify_ranges utc ranges saves) ≡ saves
  unfolding classify_ranges
  saves_of-classify_ranges [] saves = saves_of-yield_all false saves
  saves_of-classify_ranges ((start, region_id) ∷ ranges) saves =
      rw
        (
          saves_of-append
              (retain_newest utc (groupby utc region_id (leading_matches (is_in utc start) saves)))
              (classify_ranges utc ranges (rest (is_in utc start) saves)),
          saves_of-groupby region_id (leading_matches (is_in utc start) saves),
          saves_of-classify_ranges ranges (rest (is_in utc start) saves),
        )
        (leading_matches-rest (is_in utc start) saves)

  -- Every save is classified exactly once and in its place, in whatever order the saves come.
  pub saves_of-classify_saves :
      (localtime : LocalTime) (period_start : PeriodStart) (saves : List S)
      → saves_of (classify_saves utc localtime period_start saves) ≡ saves
  unfolding classify_saves
  saves_of-classify_saves localtime period_start saves =
      let m = leading_matches (is_in utc period_start.all) saves in
      let r = rest (is_in utc period_start.all) saves in
      rw
        (
          saves_of-append (yield_all utc true m)
              (classify_ranges utc (tm_ranges localtime period_start) r),
          saves_of-yield_all true m,
          saves_of-classify_ranges (tm_ranges localtime period_start) r,
        )
        (leading_matches-rest (is_in utc period_start.all) saves)
