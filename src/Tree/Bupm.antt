-- ===== src/Tree/Bupm.antt =====
-- `_dir_metadata` and `_write_tree` of lib/bup/tree.py: a directory as one git tree, with its .bupm.
pub mod Entries
pub mod Total
use mathlib.Core.List.{map}
use bup.Base.{
  ℕ, zero, suc, ◌+◌, ◌*◌, ◌≤◌, ◌<◌, Bool, true, false, ◌||◌, ◌&&◌, not, Option, none, some, List,
  [], ◌∷◌, ◌++◌, ltb, leb, ◌==◌, if◌then◌else◌, length,
}
use bup.Base.Bytes.{ascii}
use bup.Base.Dict.{Key, contains}
use bup.Base.Error.{
  Result, ok, err, index_error, attribute_error, assertion_error, exception, ◌>>=◌,
}
use bup.Base.Lex.{bytes_lt}
use bup.Git.Names.{s_isdir, mangle_name}
use bup.Git.Trees.{shalist_item_sort_key}
use bup.Hashsplit.{TreeEntry, split_to_blob_or_tree, git_mode_tree}
use bup.Tree.{Meta, no_meta, lost_meta, int_meta, real_meta, Item, as_entries}

-- What one object adds to the .bupm, and whether it is real.
unfoldable pub meta_record : List ℕ → Bool → Meta → Result (Bool × List ℕ)
meta_record empty_metadata repair no_meta = ok (false, empty_metadata)
meta_record empty_metadata repair (int_meta n) = ok (false, empty_metadata)
meta_record empty_metadata repair lost_meta =
    if repair then ok (false, empty_metadata) else err exception
meta_record empty_metadata repair (real_meta encoded) = ok (true, encoded)

-- `meta or empty_metadata`
unfoldable pub meta_or_empty : List ℕ → Meta → Meta
meta_or_empty empty_metadata no_meta = real_meta empty_metadata
meta_or_empty empty_metadata (int_meta n) = if n == 0 then real_meta empty_metadata else int_meta n
meta_or_empty empty_metadata lost_meta = lost_meta
meta_or_empty empty_metadata (real_meta encoded) = real_meta encoded

-- metalist.sort(key=lambda x: x[0])
unfoldable pub insert_meta : Key × List ℕ → List (Key × List ℕ) → List (Key × List ℕ)
insert_meta ent [] = ent ∷ []
insert_meta ent (next ∷ metalist) =
    let further = insert_meta ent metalist in
    if bytes_lt next.0 ent.0 then next ∷ further else ent ∷ next ∷ metalist

unfoldable pub sorted_metas : List (Key × List ℕ) → List (Key × List ℕ)
sorted_metas [] = []
sorted_metas (ent ∷ metalist) = insert_meta ent (sorted_metas metalist)

unfoldable pub joined : List (Key × List ℕ) → List ℕ
joined [] = []
joined (ent ∷ metalist) = ent.1 ++ joined metalist

module _ {Sha : Type 0} (empty_metadata : List ℕ) where
  unfoldable pub tree_item : Key → ℕ → ℕ → Sha → Meta → Item Sha
  tree_item name mode gitmode oid meta = record {
    name = name;
    mode = mode;
    gitmode = gitmode;
    oid = oid;
    meta = meta_or_empty empty_metadata meta;
    is_raw = false;
    full_names = none;
  }

  unfoldable pub split_tree_item : Key → Sha → Key → Key → Item Sha
  split_tree_item name treeid first last = record {
    name = name;
    mode = git_mode_tree;
    gitmode = git_mode_tree;
    oid = treeid;
    meta = meta_or_empty empty_metadata no_meta;
    is_raw = true;
    full_names = some (first, last);
  }

  module _ (repair : Bool) where
    -- The loop of `_dir_metadata`: whether any metadata is real, and the entries.
    unfoldable pub item_metas : List (Item Sha) → Result (Bool × List (Key × List ℕ))
    item_metas [] = ok (false, [])
    item_metas (item ∷ items) =
        let rest = item_metas items in
        if s_isdir item.mode then rest else do
          (real, encoded) ← meta_record empty_metadata repair item.meta
          (any_real, meta_ents) ← rest
          ok (
            real || any_real,
            (
              shalist_item_sort_key (record { mode = item.mode; name = item.name; oid = [] }),
              encoded,
            )
                ∷ meta_ents,
          )

    unfoldable pub dir_metadata : Meta → List (Item Sha) → Result (Option (List (Key × List ℕ)))
    dir_metadata dir_meta items = do
      (real, encoded) ← meta_record empty_metadata repair dir_meta
      (any_real, meta_ents) ← item_metas items
      ok (if real || any_real then some (([], encoded) ∷ meta_ents) else none)

    module _ (repo_write_tree : List (TreeEntry Sha) → Sha) (repo_write_bupm : List ℕ → Sha)
        (splitter : List ℕ → List (List ℕ × ℕ)) where
      -- What stands before the entries: the .bupm if there is a metalist.
      unfoldable pub bupm_entries : Option (List (Key × List ℕ)) → List (TreeEntry Sha)
      bupm_entries none = []
      bupm_entries (some metalist) =
          let (mode, oid) =
            split_to_blob_or_tree repo_write_tree repo_write_bupm length []
              (splitter (joined (sorted_metas metalist))) in
          record { mode = mode; name = ascii ".bupm"; sha = oid } ∷ []

      unfoldable pub write_tree : Meta → List (Item Sha) → Bool → Result Sha
      write_tree dir_meta items add_meta =
          if not add_meta then (do entries ← as_entries items; ok (repo_write_tree entries)) else do
            metalist ← dir_metadata dir_meta items
            entries ← as_entries items
            ok (repo_write_tree (bupm_entries metalist ++ entries))
