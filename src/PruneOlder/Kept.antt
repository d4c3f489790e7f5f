-- ===== src/PruneOlder/Kept.antt =====
-- `classify_saves` against a decision that looks at one save and the one before it.
use bup.Base.{
  ℕ, ◌≤◌, ◌≡◌, refl, sym, ap, arith, Bool, true, false, not, Option, none, some, List, [], ◌∷◌,
  ◌++◌, ◌==◌, if◌then◌else◌, Bool-cases, inl, inr,
}
use bup.PruneOlder.{
  Start, forever, never, at, is_since, LocalTime, PeriodStart, Range, tm_ranges, leading_matches,
  rest, group_rest, groupby, yield_all, retain_newest_in_region, retain_newest, is_in,
  classify_ranges, classify_saves,
}

is_since_mono :
    (start : Start) (early late : ℕ)
    → early ≤ late
    → is_since start early ≡ true
    → is_since start late ≡ true
unfolding is_since
is_since_mono forever early late h e = refl
is_since_mono never early late h e = e
is_since_mono (at s) early late h e = ground arith

is_since_anti :
    (start : Start) (early late : ℕ)
    → early ≤ late
    → is_since start late ≡ false
    → is_since start early ≡ false
is_since_anti start early late h e = elim (Bool-cases (is_since start early)) [
  | inr before ↦ before
  | inl since ↦ ground (arith, is_since_mono start early late h since)
]

module _ {S : Type 0} (utc : S → ℕ) where
  -- The saves from the newest on, none of them newer than a bound.
  abbrev pub Descends : ℕ → List S → Type 0
  Descends bound [] = Unit
  Descends bound (save ∷ saves) = (utc save ≤ bound) × Descends (utc save) saves

  -- The newest of its region is the one that follows no save of its range, or one of another region.
  unfoldable pub is_newest : (ℕ → ℕ) → Option S → S → Bool
  is_newest region_id none save = true
  is_newest region_id (some before) save = not (region_id (utc before) == region_id (utc save))

  -- The save before, unless it is in a range that starts at `start`.
  unfoldable pub outside : Start → Option S → Option S
  outside start none = none
  outside start (some before) = if is_in utc start before then none else some before

  -- A save is kept if it is the newest of its region in the first range that it is in.
  unfoldable pub is_kept_in : List Range → Option S → S → Bool
  is_kept_in [] before save = false
  is_kept_in ((start, region_id) ∷ ranges) before save =
      if is_in utc start save
      then is_newest region_id before save
      else is_kept_in ranges (outside start before) save

  unfoldable pub is_kept : LocalTime → PeriodStart → Option S → S → Bool
  is_kept localtime period_start before save =
      if is_in utc period_start.all save
      then true
      else is_kept_in (tm_ranges localtime period_start) (outside period_start.all before) save

  -- Every save with its decision, which depends on the save before it.
  unfoldable pub decide : (Option S → S → Bool) → Option S → List S → List (Bool × S)
  decide kept before [] = []
  decide kept before (save ∷ saves) = (kept before save, save) ∷ decide kept (some save) saves

  retain-group_rest :
      (region_id : ℕ → ℕ) (save : S) (saves : List S)
      → yield_all utc false (group_rest utc region_id save saves).0
          ++ retain_newest utc (group_rest utc region_id save saves).1
        ≡ decide (is_newest region_id) (some save) saves
  unfolding group_rest yield_all retain_newest retain_newest_in_region decide is_newest
  retain-group_rest region_id save [] = refl
  retain-group_rest region_id save (next ∷ saves) =
      elim (Bool-cases (region_id (utc save) == region_id (utc next))) [
        | inl same ↦ rw same (ap (λ t. (false, next) ∷ t) (retain-group_rest region_id next saves))
        | inr new ↦ rw new (ap (λ t. (true, next) ∷ t) (retain-group_rest region_id next saves))
      ]

  retain-groupby :
      (region_id : ℕ → ℕ) (saves : List S)
      → retain_newest utc (groupby utc region_id saves) ≡ decide (is_newest region_id) none saves
  unfolding groupby retain_newest retain_newest_in_region decide is_newest
  retain-groupby region_id [] = refl
  retain-groupby region_id (save ∷ saves) =
      ap (λ t. (true, save) ∷ t) (retain-group_rest region_id save saves)

  -- A decision that is `here` within a period and `later` before it.
  module _ (start : Start) (kept here later : Option S → S → Bool)
      (inside : (before : Option S) (save : S)
        → is_in utc start save ≡ true
        → kept before save ≡ here before save)
      (beyond : (before : Option S) (save : S)
        → is_in utc start save ≡ false
        → kept before save ≡ later (outside start before) save) where
    decide_later :
        (save : S) (saves : List S)
        → is_in utc start save ≡ false
        → Descends (utc save) saves
        → decide kept (some save) saves ≡ decide later (some save) saves
    unfolding decide outside
    decide_later save [] out down = refl
    decide_later save (next ∷ saves) out (h, down) =
        let next_out : is_in utc start next ≡ false =
          unfold is_in in is_since_anti start (utc next) (utc save) h (unfold is_in in out) in
        rw (beyond (some save) next next_out, out, decide_later next saves next_out down)

    decide_split :
        (before : Option S) (bound : ℕ) (saves : List S)
        → outside start before ≡ none
        → Descends bound saves
        → decide kept before saves
          ≡ decide here before (leading_matches (is_in utc start) saves)
            ++ decide later none (rest (is_in utc start) saves)
    unfolding decide outside leading_matches rest
    decide_split before bound [] none_out down = refl
    decide_split before bound (save ∷ saves) none_out (h, down) =
        elim (Bool-cases (is_in utc start save)) [
          | inl in_period ↦
              rw (in_period, inside before save in_period)
                (ap (λ t. (here before save, save) ∷ t)
                  (decide_split (some save) (utc save) saves (rw in_period) down))
          | inr out ↦ rw (out, beyond before save out, none_out, decide_later save saves out down)
        ]

  decide-false :
      (before : Option S) (saves : List S)
      → decide (is_kept_in []) before saves ≡ yield_all utc false saves
  unfolding decide is_kept_in yield_all
  decide-false before [] = refl
  decide-false before (save ∷ saves) = ap (λ t. (false, save) ∷ t) (decide-false (some save) saves)

  decide-true :
      (before : Option S) (saves : List S)
      → decide (λ b s. true) before saves ≡ yield_all utc true saves
  unfolding decide yield_all
  decide-true before [] = refl
  decide-true before (save ∷ saves) = ap (λ t. (true, save) ∷ t) (decide-true (some save) saves)

  rest-Descends :
      (start : Start) (bound : ℕ) (saves : List S)
      → Descends bound saves
      → Descends bound (rest (is_in utc start) saves)
  unfolding rest
  rest-Descends start bound [] down = tt
  rest-Descends start bound (save ∷ saves) (h, down) = elim (Bool-cases (is_in utc start save)) [
    | inl in_period ↦
        rw in_period
          (weaken (rest (is_in utc start) saves) (rest-Descends start (utc save) saves down) h)
    | inr out ↦ rw out (h, down)
  ]
    where
      weaken : {low : ℕ} (saves : List S) → Descends low saves → low ≤ bound → Descends bound saves
      weaken [] down h = tt
      weaken (save ∷ saves) (g, down) h = (omega arith, down)

  classify_ranges-decide :
      (ranges : List Range) (bound : ℕ) (saves : List S)
      → Descends bound saves
      → classify_ranges utc ranges saves ≡ decide (is_kept_in ranges) none saves
  unfolding classify_ranges is_kept_in outside
  classify_ranges-decide [] bound saves down = sym (decide-false none saves)
  classify_ranges-decide ((start, region_id) ∷ ranges) bound saves down =
      rw
        (
          retain-groupby region_id (leading_matches (is_in utc start) saves),
          classify_ranges-decide ranges bound (rest (is_in utc start) saves)
              (rest-Descends start bound saves down),
        )
        (sym (
          decide_split start (is_kept_in ((start, region_id) ∷ ranges)) (is_newest region_id)
            (is_kept_in ranges) (λ b s e. rw e) (λ b s e. rw e) none bound saves refl down))

  -- On saves from the newest on, each is classified in turn: it is kept if it is in the period of
  -- all; otherwise by the first of dailies, monthlies and yearlies that it is in, if the save
  -- before it is not in that range too or has another day of the year, month or year; and it is
  -- removed if it is in none of them.
  pub classify_saves-decide :
      (localtime : LocalTime) (period_start : PeriodStart) (bound : ℕ) (saves : List S)
      → Descends bound saves
      → classify_saves utc localtime period_start saves
        ≡ decide (is_kept localtime period_start) none saves
  unfolding classify_saves is_kept outside
  classify_saves-decide localtime period_start bound saves down =
      rw
        (
          ← decide-true none (leading_matches (is_in utc period_start.all) saves),
          classify_ranges-decide (tm_ranges localtime period_start) bound
              (rest (is_in utc period_start.all) saves)
              (rest-Descends period_start.all bound saves down),
        )
        (sym (
          decide_split period_start.all (is_kept localtime period_start) (λ b s. true)
            (is_kept_in (tm_ranges localtime period_start)) (λ b s e. rw e) (λ b s e. rw e) none
            bound saves refl down))
