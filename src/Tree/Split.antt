-- ===== src/Tree/Split.antt =====
-- `_write_split_tree` of lib/bup/tree.py: a directory split by its names into a tree of git trees.
pub mod Rounds
pub mod Items
pub mod Total
pub mod Content
pub mod Reach
use mathlib.Core.List.{map}
use bup.Base.{
  ℕ, zero, suc, ◌+◌, ◌*◌, ◌≤◌, ◌<◌, Bool, true, false, ◌||◌, ◌&&◌, not, Option, none, some, List,
  [], ◌∷◌, ◌++◌, ltb, leb, ◌==◌, if◌then◌else◌, length,
}
use bup.Base.Bytes.{ascii}
use bup.Base.Dict.{Key, contains}
use bup.Base.Error.{
  Result, ok, err, index_error, attribute_error, assertion_error, exception, ◌>>=◌,
}
use bup.Base.Lex.{bytes_lt}
use bup.Git.Names.{s_isdir, mangle_name}
use bup.Git.Trees.{shalist_item_sort_key}
use bup.Hashsplit.{TreeEntry, split_to_blob_or_tree, git_mode_tree}
use bup.Tree.{Meta, no_meta, Item, abbreviate_item_names, first_of, last_of}
use bup.Tree.Bupm.{split_tree_item, write_tree}

module _ {Sha : Type 0} (empty_metadata : List ℕ) (repair : Bool)
    (repo_write_tree : List (TreeEntry Sha) → Sha) (repo_write_bupm : List ℕ → Sha)
    (splitter : List ℕ → List (List ℕ × ℕ)) where
  abbrev pub writing : Meta → List (Item Sha) → Bool → Result Sha
  writing = write_tree empty_metadata repair repo_write_tree repo_write_bupm splitter

  module _ {Splitter : Type 0} (new_splitter : Splitter)
      (feed : Key → Splitter → Bool × Splitter) where
    unfoldable pub is_last : List (Item Sha) → Bool
    is_last [] = true
    is_last (item ∷ items) = false

    -- The loop that splits the items; `pending_split` is non-empty at the end of no run.
    unfoldable pub split_loop :
        Splitter → List (Item Sha) → List (Item Sha) → List (List (Item Sha))
    split_loop h pending_split [] = []
    split_loop h pending_split (item ∷ items) =
        let pending = pending_split ++ item ∷ [] in
        let (split, h') = feed item.name h in
        let emptied = split_loop h' [] items in
        let continued = split_loop h' pending items in
        if split && ltb 1 (length pending) || is_last items then pending ∷ emptied else continued

    unfoldable pub split_items : List (Item Sha) → List (List (Item Sha))
    split_items items = split_loop new_splitter [] items

    -- items[0] and items[-1]
    unfoldable pub first_item : List (Item Sha) → Result (Item Sha)
    first_item [] = err index_error
    first_item (item ∷ items) = ok item

    unfoldable pub last_item : List (Item Sha) → Result (Item Sha)
    last_item [] = err index_error
    last_item (item ∷ []) = ok item
    last_item (item ∷ next ∷ items) = last_item (next ∷ items)

    -- The subtree of a leaf.
    unfoldable pub leaf_item : List (Item Sha) → Result (Item Sha)
    leaf_item items = do
      first ← first_item items
      oid ← writing no_meta items true
      last ← last_item items
      ok (split_tree_item empty_metadata first.name oid first.name last.name)

    -- An inner subtree; its own items are abbreviated.
    unfoldable pub inner_item : ℕ → List (Item Sha) → Result (Item Sha)
    inner_item level items = do
      abbreviated ← abbreviate_item_names items level
      first ← first_item abbreviated
      oid ← writing no_meta abbreviated false
      first_name ← first_of first.full_names
      last ← last_item abbreviated
      last_name ← last_of last.full_names
      ok (split_tree_item empty_metadata first.name oid first_name last_name)

    unfoldable pub new_item : ℕ → List (Item Sha) → Result (Item Sha)
    new_item level items = if level == 0 then leaf_item items else inner_item level items

    unfoldable pub new_tree : ℕ → List (List (Item Sha)) → Result (List (Item Sha))
    new_tree level [] = ok []
    new_tree level (items ∷ splits) = do
      item ← new_item level items
      newtree ← new_tree level splits
      ok (item ∷ newtree)

    -- A tree that is not split further.
    unfoldable pub write_top : ℕ → Meta → List (Item Sha) → Result Sha
    write_top level dir_meta items =
        if ltb 0 level
        then (do abbreviated ← abbreviate_item_names items level; writing dir_meta abbreviated true)
        else writing dir_meta items true

    unfoldable pub write_split_loop : ℕ → Meta → List (Item Sha) → ℕ → Result Sha
    write_split_loop zero dir_meta items level = err exception
    write_split_loop (suc fuel) dir_meta items level =
        if length items == 0
        then writing dir_meta items true
        else if length (split_items items) == 1
        then write_top level dir_meta items
        else new_tree level (split_items items) >>= λ newtree.
            write_split_loop fuel dir_meta newtree (level + 1)

    -- The items get fewer from level to level.
    unfoldable pub write_split_tree : Meta → List (Item Sha) → ℕ → Result Sha
    write_split_tree dir_meta items level =
        write_split_loop (suc (length items)) dir_meta items level
