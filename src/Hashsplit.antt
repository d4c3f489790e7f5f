-- ===== src/Hashsplit.antt =====
-- lib/bup/hashsplit.py: from the blobs of a splitter to a tree of git objects. The splitter is the
-- list of its blobs with their levels, and `makeblob` and `maketree` are the repository's, which
-- return the id of what they write.
pub mod Content
pub mod Rounds
pub mod Order
mod Tests
use mathlib.Core.List.{map}
use bup.Base.{
  ℕ, zero, suc, ◌+◌, ◌-◌, Bool, true, false, ◌||◌, List, [], ◌∷◌, ◌++◌, ltb, leb, ◌==◌,
  if◌then◌else◌, length,
}
use bup.Base.Hex.{hex, hex_padded}

abbrev pub max_per_tree : ℕ
max_per_tree = 256

abbrev pub git_mode_file : ℕ
git_mode_file = 0o100644

abbrev pub git_mode_tree : ℕ
git_mode_tree = 0o40000

-- An entry of a stack: (mode, sha, size).
pub record Entry (Sha : Type 0) : Type 0 where
  pub mode : ℕ
  pub sha : Sha
  pub size : ℕ

-- An entry of a tree: (mode, name, sha).
pub record TreeEntry (Sha : Type 0) : Type 0 where
  pub mode : ℕ
  pub name : List ℕ
  pub sha : Sha

module _ {Sha : Type 0} where
  unfoldable pub total_size : List (Entry Sha) → ℕ
  total_size [] = 0
  total_size (e ∷ l) = e.size + total_size l

  -- The loop of `_make_shalist`: the entries named by their offsets.
  unfoldable pub shalist_from : ℕ → ℕ → List (Entry Sha) → List (TreeEntry Sha)
  shalist_from vlen ofs [] = []
  shalist_from vlen ofs (e ∷ l) =
      record { mode = e.mode; name = hex_padded vlen ofs; sha = e.sha }
      ∷ shalist_from vlen (ofs + e.size) l

  -- `assert(ofs == total)` compares the sum of the sizes with itself.
  unfoldable pub make_shalist : List (Entry Sha) → List (TreeEntry Sha) × ℕ
  make_shalist l = let total = total_size l in (shalist_from (length (hex total)) 0 l, total)

module _ {Sha : Type 0} (maketree : List (TreeEntry Sha) → Sha) where
  -- What a level of the stacks hands to the next one.
  unfoldable pub carried : List (Entry Sha) → List (Entry Sha)
  carried [] = []
  carried (e ∷ []) = e ∷ []
  carried (e ∷ f ∷ l) =
      let (shalist, size) = make_shalist (e ∷ f ∷ l) in
      record { mode = git_mode_tree; sha = maketree shalist; size = size } ∷ []

  -- The `while` of `_squish` from a level on: `stack` is stacks[i], `above` the stacks behind it, and
  -- `n` what is left of n. `stacks.append([])` is the case that nothing is above.
  unfoldable pub squish_loop :
      ℕ → ℕ → List (Entry Sha) → List (List (Entry Sha)) → List (List (Entry Sha))
  squish_loop zero n stack above = stack ∷ above
  squish_loop (suc fuel) n stack [] =
      let rest = squish_loop fuel (n - 1) (carried stack) [] in
      if ltb 0 n || leb max_per_tree (length stack) then [] ∷ rest else stack ∷ []
  squish_loop (suc fuel) n stack (next ∷ above) =
      let rest = squish_loop fuel (n - 1) (next ++ carried stack) above in
      if ltb 0 n || leb max_per_tree (length stack) then [] ∷ rest else stack ∷ next ∷ above

  -- Rounds enough: each passes a stack or takes one from `n`, and a stack that was just made is not
  -- full.
  abbrev pub rounds : ℕ → List (List (Entry Sha)) → ℕ
  rounds n above = n + length above + 2

  unfoldable pub squish : List (List (Entry Sha)) → ℕ → List (List (Entry Sha))
  squish [] n = []
  squish (stack ∷ above) n = squish_loop (rounds n above) n stack above

  -- stacks[0].append(entry)
  pub append_first : Entry Sha → List (List (Entry Sha)) → List (List (Entry Sha))
  append_first e [] = []
  append_first e (stack ∷ above) = (stack ++ e ∷ []) ∷ above

  -- stacks[-1]
  pub last_stack : List (List (Entry Sha)) → List (Entry Sha)
  last_stack [] = []
  last_stack (stack ∷ []) = stack
  last_stack (stack ∷ next ∷ above) = last_stack (next ∷ above)

  module _ {Blob : Type 0} (makeblob : Blob → Sha) (size_of : Blob → ℕ) where
    -- The loop over `split_to_blobs(makeblob, splitter)`.
    unfoldable pub stack_loop : List (Blob × ℕ) → List (List (Entry Sha)) → List (List (Entry Sha))
    stack_loop [] stacks = stacks
    stack_loop ((blob, level) ∷ splitter) stacks =
        let e : Entry Sha = record {
          mode = git_mode_file;
          sha = makeblob blob;
          size = size_of blob;
        } in
        stack_loop splitter (squish (append_first e stacks) level)

    unfoldable pub split_to_shalist : List (Blob × ℕ) → List (TreeEntry Sha)
    split_to_shalist splitter =
        let stacks = stack_loop splitter ([] ∷ []) in
        (make_shalist (last_stack (squish stacks (length stacks - 1)))).0

    -- (mode, sha) of a file: one blob, or a tree. `empty` is b''.
    unfoldable pub blob_or_tree : Blob → List (TreeEntry Sha) → ℕ × Sha
    blob_or_tree empty [] = (git_mode_file, makeblob empty)
    blob_or_tree empty (e ∷ []) = (e.mode, e.sha)
    blob_or_tree empty (e ∷ f ∷ shalist) = (git_mode_tree, maketree (e ∷ f ∷ shalist))

    unfoldable pub split_to_blob_or_tree : Blob → List (Blob × ℕ) → ℕ × Sha
    split_to_blob_or_tree empty splitter = blob_or_tree empty (split_to_shalist splitter)
