-- ===== src/Rm/History.antt =====
-- What the history of a filtered branch is.
use bup.Base.{
  ◌≡◌, refl, sym, ap, ◌∙◌, inl, inr, arith, Bool, true, false, ◌||◌, Option, none, some, List, [],
  ◌∷◌, ◌++◌, if◌then◌else◌, append_assoc, append-nil, Bool-cases, ◌⊎◌,
}
use bup.Base.Dict.{Key}
use bup.Base.Error.{Result, ok, err, undefined, exception}
use bup.Rm.{
  from_exclusion, append_commit, filter_loop, filter_from, filter_commits, reversed, filter_branch,
}

module _ {Info : Type 0} (commit_items : Key → Result Info) (new_commit : Info → Option Key → Key)
    (items : Key → Info) (history : Option Key → List Info) (no_history : history none ≡ [])
    (extended : (ci : Info) (parent : Option Key)
      → history (some (new_commit ci parent)) ≡ history parent ++ ci ∷ []) where
  -- Commits, the oldest first, of which each can be read and has the one before it for its parent.
  abbrev pub IsLinear : Option Key → List Key → Type 0
  IsLinear parent [] = Unit
  IsLinear parent (c ∷ commits) =
      (commit_items c ≡ ok (items c))
      × (history (some c) ≡ history parent ++ items c ∷ [])
      × IsLinear (some c) commits

  pub kept : (Key → Bool) → List Key → List Info
  kept exclude [] = []
  kept exclude (c ∷ commits) =
      let rest = kept exclude commits in if exclude c then rest else items c ∷ rest

  pub any_excluded : (Key → Bool) → List Key → Bool
  any_excluded exclude [] = false
  any_excluded exclude (c ∷ commits) = exclude c || any_excluded exclude commits

  abbrev pub IsFiltered : (Key → Bool) → List Key → Result (Option Key) → Type 0
  IsFiltered exclude commits (ok tip) =
      (history tip ≡ kept exclude commits) × (any_excluded exclude commits ≡ true)
  IsFiltered exclude commits (err e) = (e ≡ exception) × (any_excluded exclude commits ≡ false)
  IsFiltered exclude commits undefined = ⊥

  module _ (exclude : Key → Bool) where
    filter_loop_lem :
        (commits : List Key) (parent last_c : Option Key)
        → IsLinear parent commits
        → (tip : Option Key) × (filter_loop commit_items new_commit exclude commits last_c ≡ ok tip)
          × (history tip ≡ history last_c ++ kept exclude commits)
    unfolding filter_loop append_commit kept
    filter_loop_lem [] parent last_c h = (last_c, refl, sym (append-nil (history last_c)))
    filter_loop_lem (c ∷ commits) parent last_c (read, h, l) = elim (Bool-cases (exclude c)) [
      | inl out ↦
          let (tip, e, t) = filter_loop_lem commits (some c) last_c l in (tip, rw out e, rw out t)
      | inr stays ↦
          let (tip, e, t) =
            filter_loop_lem commits (some c) (some (new_commit (items c) last_c)) l in
          (
            tip,
            rw (stays, read) e,
            rw stays (
                t
                ∙ (ap (λ x. x ++ kept exclude commits) (extended (items c) last_c)
                    ∙ append_assoc (history last_c) (items c ∷ []) (kept exclude commits))),
          )
    ]

    -- Nothing that comes before the first exclusion changes.
    filter_from-IsFiltered :
        (commits : List Key) (parent : Option Key)
        → IsLinear parent commits
        → (((tip : Option Key) × (filter_from commit_items new_commit exclude
                  (from_exclusion exclude parent commits)
                ≡ ok tip)
              × (history tip ≡ history parent ++ kept exclude commits))
            × (any_excluded exclude commits ≡ true))
          ⊎ ((filter_from commit_items new_commit exclude (from_exclusion exclude parent commits)
                ≡ err exception)
              × (any_excluded exclude commits ≡ false))
    unfolding filter_from from_exclusion kept any_excluded
    filter_from-IsFiltered [] parent h = inr (refl, refl)
    filter_from-IsFiltered (c ∷ commits) parent (read, h, l) = elim (Bool-cases (exclude c)) [
      | inl out ↦
          let (tip, e, t) = filter_loop_lem (c ∷ commits) parent parent (read, h, l) in
          inl ((tip, rw out e, t), rw out)
      | inr stays ↦ elim (filter_from-IsFiltered commits (some c) l) [
        | inl ((tip, e, t), a) ↦ inl (
          (
            tip,
            rw stays e,
            rw stays (
                t
                ∙ (ap (λ x. x ++ kept exclude commits) h
                    ∙ append_assoc (history parent) (items c ∷ []) (kept exclude commits))),
          ),
          ground (arith, stays, a),
        )
        | inr (e, a) ↦ inr (rw stays e, ground (arith, stays, a))
      ]
    ]

    filter_commits-IsFiltered :
        (commits : List Key)
        → IsLinear none commits
        → IsFiltered exclude commits (filter_commits commit_items new_commit exclude commits)
    unfolding filter_commits
    filter_commits-IsFiltered commits l = elim (filter_from-IsFiltered commits none l) [
      | inl ((tip, e, t), a) ↦ rw e (t ∙ ap (λ x. x ++ kept exclude commits) no_history, a)
      | inr (e, a) ↦ rw e (refl, a)
    ]

    -- On the commits of a branch that can be read and have each the one before for its parent,
    -- where a new commit extends the history of its parent, filter_branch returns a tip whose
    -- history is that of the branch without the excluded commits, in the same order, or none if all
    -- are; it raises StopIteration exactly when no commit is excluded.
    pub filter_branch-IsFiltered :
        (rev_list : List Key)
        → IsLinear none (reversed rev_list)
        → IsFiltered exclude
            (reversed rev_list)
            (filter_branch commit_items new_commit rev_list exclude)
    unfolding filter_branch
    filter_branch-IsFiltered rev_list l = filter_commits-IsFiltered (reversed rev_list) l
