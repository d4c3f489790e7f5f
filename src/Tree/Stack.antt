-- ===== src/Tree/Stack.antt =====
-- `Stack` of lib/bup/tree.py: the directories that are open, the innermost first here.
pub mod Written
use bup.Base.{
  ℕ, zero, suc, ◌+◌, Bool, true, false, ◌||◌, Option, none, some, List, [], ◌∷◌, ◌++◌,
  if◌then◌else◌, length,
}
use bup.Base.Dict.{Key}
use bup.Base.Error.{Result, ok, err, undefined, index_error, ◌>>=◌}
use bup.Hashsplit.{TreeEntry, git_mode_tree}
use bup.Tree.{Meta, no_meta, Item, StackDir, clean, sorted_by_name}
use bup.Tree.Bupm.{tree_item, write_tree}
use bup.Tree.Split.{write_split_tree}

module _ {Sha : Type 0} where
  unfoldable pub push : Key → Meta → List (StackDir Sha) → List (StackDir Sha)
  push name meta stack = record { name = name; meta = meta; items = [] } ∷ stack

  module _ (empty_metadata : List ℕ) where
    unfoldable pub append_to_current :
        Key → ℕ → ℕ → Sha → Meta → List (StackDir Sha) → Result (List (StackDir Sha))
    append_to_current name mode gitmode oid meta [] = err index_error
    append_to_current name mode gitmode oid meta (dir ∷ stack) = ok (
        record dir { items = dir.items ++ tree_item empty_metadata name mode gitmode oid meta ∷ [] }
        ∷ stack)

    -- `if len(self): self.append_to_current(...)`
    unfoldable pub append_tree : Key → Sha → List (StackDir Sha) → Result (List (StackDir Sha))
    append_tree name tree_oid [] = ok []
    append_tree name tree_oid (dir ∷ stack) =
        append_to_current name git_mode_tree git_mode_tree tree_oid no_meta (dir ∷ stack)

    module _ (repair : Bool) (repo_write_tree : List (TreeEntry Sha) → Sha)
        (repo_write_bupm : List ℕ → Sha) (splitter : List ℕ → List (List ℕ × ℕ)) {Splitter : Type 0}
        (new_splitter : Splitter) (feed : Key → Splitter → Bool × Splitter)
        (split_trees : Bool) where
      unfoldable pub write : StackDir Sha → Result Sha
      write tree =
          let items = clean [] tree.items in
          if split_trees
          then write_split_tree empty_metadata repair repo_write_tree repo_write_bupm splitter
              new_splitter feed tree.meta (sorted_by_name items) 0
          else write_tree empty_metadata repair repo_write_tree repo_write_bupm splitter tree.meta
              items true

      unfoldable pub meta_of : Option Meta → Meta → Meta
      meta_of none meta = meta
      meta_of (some override_meta) meta = override_meta

      unfoldable pub tree_of : Option Sha → StackDir Sha → Result Sha
      tree_of none tree = write tree
      tree_of (some override_tree) tree = ok override_tree

      unfoldable pub pop :
          Option Sha → Option Meta → List (StackDir Sha) → Result (Sha × List (StackDir Sha))
      pop override_tree override_meta [] = err index_error
      pop override_tree override_meta (tree ∷ stack) = do
        tree_oid ← tree_of override_tree (record tree { meta = meta_of override_meta tree.meta })
        stack' ← append_tree tree.name tree_oid stack
        ok (tree_oid, stack')
