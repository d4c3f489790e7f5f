-- ===== src/Tree.antt =====
-- lib/bup/tree.py: the directories of a save become git trees, large ones split into subtrees. A
-- `Sha` is what the repository returns for what it writes. The splitter of names is C, and enters as
-- its state with `feed`; `splitter` gives the blobs and levels of a .bupm.
pub mod Names
pub mod Bupm
pub mod Split
pub mod Stack
mod Tests
use mathlib.Core.List.{map}
use bup.Base.{
  ℕ, zero, suc, ◌+◌, ◌*◌, ◌≤◌, ◌<◌, Bool, true, false, ◌||◌, ◌&&◌, not, Option, none, some, List,
  [], ◌∷◌, ◌++◌, ltb, leb, ◌==◌, if◌then◌else◌, length,
}
use bup.Base.Bytes.{ascii}
use bup.Base.Dict.{Key, contains}
use bup.Base.Error.{
  Result, ok, err, index_error, attribute_error, assertion_error, exception, ◌>>=◌,
}
use bup.Base.Lex.{bytes_lt}
use bup.Git.Names.{s_isdir, mangle_name}
use bup.Git.Trees.{shalist_item_sort_key}
use bup.Hashsplit.{TreeEntry, split_to_blob_or_tree, git_mode_tree}
use bup.HlinkDb.{decimal}
use bup.Tree.Names.{abbreviate_tree_names}

-- Metadata by its class; a Metadata is what its `encode` gives.
pub data Meta : Type 0 where
  no_meta lost_meta : Meta
  int_meta : ℕ → Meta
  real_meta : List ℕ → Meta

-- A TreeItem; a RawTreeItem is its own mangled name, and a SplitTreeItem has the full names of its
-- first and last entries.
pub record Item (Sha : Type 0) : Type 0 where
  pub name : Key
  pub mode : ℕ
  pub gitmode : ℕ
  pub oid : Sha
  pub meta : Meta
  pub is_raw : Bool
  pub full_names : Option (Key × Key)

pub record StackDir (Sha : Type 0) : Type 0 where
  pub name : Key
  pub meta : Meta
  pub items : List (Item Sha)

pub first_of : Option (Key × Key) → Result Key
first_of none = err attribute_error
first_of (some names) = ok names.0

pub last_of : Option (Key × Key) → Result Key
last_of none = err attribute_error
last_of (some names) = ok names.1

module _ {Sha : Type 0} where
  pub mangled_name : Item Sha → Result Key
  mangled_name item =
      if item.is_raw then ok item.name else mangle_name item.name item.mode item.gitmode

  pub first_full_names : List (Item Sha) → Result (List Key)
  first_full_names [] = ok []
  first_full_names (item ∷ items) = do
    first ← first_of item.full_names
    names ← first_full_names items
    ok (first ∷ names)

  -- of items[:-1]
  pub last_full_names : List (Item Sha) → Result (List Key)
  last_full_names [] = ok []
  last_full_names (item ∷ []) = ok []
  last_full_names (item ∷ next ∷ items) = do
    last ← last_of item.full_names
    names ← last_full_names (next ∷ items)
    ok (last ∷ names)

  -- The `zip`, and b'..%d.bupd' % level.
  pub rename : ℕ → List Key → List (Item Sha) → List (Item Sha)
  rename level (abbrev_name ∷ names) (item ∷ items) =
      record item { name = abbrev_name ++ ascii ".." ++ decimal level ++ ascii ".bupd" }
      ∷ rename level names items
  rename level [] items = items
  rename level (abbrev_name ∷ names) [] = []

  pub abbreviate_item_names : List (Item Sha) → ℕ → Result (List (Item Sha))
  abbreviate_item_names items level = do
    firsts ← first_full_names items
    lasts ← last_full_names items
    abbrevnames ← abbreviate_tree_names (firsts ++ lasts)
    ok (rename level abbrevnames items)

  -- Without a repeated name, of which the first stays.
  pub clean : List Key → List (Item Sha) → List (Item Sha)
  clean names_seen [] = []
  clean names_seen (item ∷ items) =
      let skipped = clean names_seen items in
      let taken = clean (item.name ∷ names_seen) items in
      if contains item.name names_seen then skipped else item ∷ taken

  -- items.sort(key=lambda x: x.name)
  pub insert_by_name : Item Sha → List (Item Sha) → List (Item Sha)
  insert_by_name item [] = item ∷ []
  insert_by_name item (next ∷ items) =
      let further = insert_by_name item items in
      if bytes_lt next.name item.name then next ∷ further else item ∷ next ∷ items

  pub sorted_by_name : List (Item Sha) → List (Item Sha)
  sorted_by_name [] = []
  sorted_by_name (item ∷ items) = insert_by_name item (sorted_by_name items)

  pub as_entries : List (Item Sha) → Result (List (TreeEntry Sha))
  as_entries [] = ok []
  as_entries (item ∷ items) = do
    name ← mangled_name item
    entries ← as_entries items
    ok (record { mode = item.gitmode; name = name; sha = item.oid } ∷ entries)
