-- ===== src/Rm/Tests.antt =====
-- A branch whose commits are their histories, and the theorem on it.
use bup.Base.{ℕ, refl, Bool, Option, none, some, List, [], ◌∷◌, ◌++◌, bytes_eq}
use bup.Base.Dict.{Key}
use bup.Base.Error.{ok}
use bup.Rm.{reversed, filter_branch}
use bup.Rm.History.{IsFiltered, filter_branch-IsFiltered}

abbrev history_of : Option Key → List ℕ
history_of none = []
history_of (some commit) = commit

abbrev with_commit : ℕ → Option Key → Key
with_commit ci parent = history_of parent ++ ci ∷ []

abbrev last_info : Key → ℕ
last_info [] = 0
last_info (ci ∷ []) = ci
last_info (ci ∷ next ∷ commit) = last_info (next ∷ commit)

-- The newest first.
abbrev branch : List Key
branch = (1 ∷ 2 ∷ 3 ∷ []) ∷ (1 ∷ 2 ∷ []) ∷ (1 ∷ []) ∷ []

abbrev is_second : Key → Bool
is_second commit = bytes_eq commit (1 ∷ 2 ∷ [])

filter_branch-IsFiltered_example :
    IsFiltered
      (λ c. ok (last_info c))
      with_commit
      last_info
      history_of
      refl
      (λ ci parent. refl)
      is_second
      (reversed branch)
      (filter_branch (λ c. ok (last_info c)) with_commit branch is_second)
unfolding reversed
filter_branch-IsFiltered_example =
    filter_branch-IsFiltered (λ c. ok (last_info c)) with_commit last_info history_of refl
      (λ ci parent. refl) is_second branch (refl, refl, (refl, refl, (refl, refl, tt)))
