-- ===== src/Rm.antt =====
-- `append_commit`, `filter_branch` and `rm_saves` of lib/bup/rm.py. `commit_items` is
-- get_commit_items, and `new_commit` what the writer returns for a commit and its parent. `rev_list`
-- gives the commits of a branch, the newest first.
pub mod History
mod Tests
use bup.Base.{
  Bool, true, false, ◌||◌, ◌&&◌, not, length, ◌==◌, Option, none, some, List, [], ◌∷◌, ◌++◌,
  if◌then◌else◌, bytes_eq,
}
use bup.Base.Dict.{Key, contains}
use bup.Base.Error.{Result, ok, err, assertion_error, exception, ◌>>=◌}

pub reversed : List Key → List Key
reversed [] = []
reversed (c ∷ commits) = reversed commits ++ c ∷ []

-- From the first commit that is excluded on, with the one before it.
unfoldable pub from_exclusion :
    (Key → Bool) → Option Key → List Key → Option (Option Key × List Key)
from_exclusion exclude last_c [] = none
from_exclusion exclude last_c (c ∷ commits) =
    let further = from_exclusion exclude (some c) commits in
    if exclude c then some (last_c, c ∷ commits) else further

pub on_branch : Key → List (Key × Key) → Bool
on_branch first_branch_item [] = true
on_branch first_branch_item ((save, branch) ∷ saves) =
    bytes_eq branch first_branch_item && on_branch first_branch_item saves

pub save_oids : List (Key × Key) → List Key
save_oids [] = []
save_oids ((save, branch) ∷ saves) = save ∷ save_oids saves

module _ {Info : Type 0} (commit_items : Key → Result Info)
    (new_commit : Info → Option Key → Key) where
  unfoldable pub append_commit : Key → Option Key → Result Key
  append_commit hash parent = do ci ← commit_items hash; ok (new_commit ci parent)

  unfoldable pub filter_loop : (Key → Bool) → List Key → Option Key → Result (Option Key)
  filter_loop exclude [] last_c = ok last_c
  filter_loop exclude (c ∷ commits) last_c =
      let skipped = filter_loop exclude commits last_c in
      if exclude c
      then skipped
      else do new ← append_commit c last_c; filter_loop exclude commits (some new)

  -- `next` raises StopIteration if nothing is excluded.
  unfoldable pub filter_from : (Key → Bool) → Option (Option Key × List Key) → Result (Option Key)
  filter_from exclude none = err exception
  filter_from exclude (some (last_c, commits)) = filter_loop exclude commits last_c

  unfoldable pub filter_commits : (Key → Bool) → List Key → Result (Option Key)
  filter_commits exclude commits = filter_from exclude (from_exclusion exclude none commits)

  pub filter_branch : List Key → (Key → Bool) → Result (Option Key)
  filter_branch rev_list exclude = filter_commits exclude (reversed rev_list)

  pub is_tip : Key → Option Key → Bool
  is_tip orig_tip none = false
  is_tip orig_tip (some c) = bytes_eq c orig_tip

  -- A save with its branch, each as its commit_oid; `rev_list` is git's for a tip.
  pub rm_saves : List (Key × Key) → (Key → List Key) → Result (Key × Option Key)
  rm_saves [] rev_list = err assertion_error
  rm_saves ((save, orig_tip) ∷ saves) rev_list =
      if not (on_branch orig_tip saves) then err assertion_error else do
        new_tip ← filter_branch (rev_list orig_tip) (λ x. contains x (save ∷ save_oids saves))
        if length orig_tip == 0 || is_tip orig_tip new_tip
            then err assertion_error
            else ok (orig_tip, new_tip)
