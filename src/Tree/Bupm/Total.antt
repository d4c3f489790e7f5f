-- ===== src/Tree/Bupm/Total.antt =====
-- `_write_tree` of lib/bup/tree.py returns where names can be mangled and no metadata is lost.
use bup.Base.{
  ℕ, ◌≡◌, refl, Bool, true, false, ◌||◌, Option, none, some, List, [], ◌∷◌, ◌++◌, if◌then◌else◌,
  Bool-cases, All, inl, inr,
}
use bup.Base.Dict.{Key}
use bup.Base.Error.{ok, Returns, Returns-bind}
use bup.Git.Names.{s_isdir}
use bup.Hashsplit.{TreeEntry}
use bup.Tree.{Meta, no_meta, lost_meta, int_meta, real_meta, Item, mangled_name, as_entries}
use bup.Tree.Bupm.{meta_record, item_metas, dir_metadata, bupm_entries, write_tree}

-- Lost metadata is written only by a repair.
abbrev pub IsKept : Bool → Meta → Type 0
IsKept repair lost_meta = repair ≡ true
IsKept repair no_meta = Unit
IsKept repair (int_meta n) = Unit
IsKept repair (real_meta encoded) = Unit

-- An item whose name can be mangled, and whose metadata is not lost.
abbrev pub IsWritable : {Sha : Type 0} → Bool → Item Sha → Type 0
IsWritable repair item = ((name : Key) × (mangled_name item ≡ ok name)) × IsKept repair item.meta

module _ (empty_metadata : List ℕ) (repair : Bool) where
  meta_record-Returns :
      (meta : Meta)
      → IsKept repair meta
      → Returns (λ r. Unit {0}) (meta_record empty_metadata repair meta)
  unfolding meta_record
  meta_record-Returns no_meta h = (_, refl, tt)
  meta_record-Returns lost_meta h = ((false, empty_metadata), rw h refl, tt)
  meta_record-Returns (int_meta n) h = (_, refl, tt)
  meta_record-Returns (real_meta encoded) h = (_, refl, tt)

  module _ {Sha : Type 0} where
    item_metas-Returns :
        (items : List (Item Sha))
        → All (IsWritable repair) items
        → Returns (λ r. Unit {0}) (item_metas empty_metadata repair items)
    unfolding item_metas
    item_metas-Returns [] h = (_, refl, tt)
    item_metas-Returns (item ∷ items) (h, hs) = elim (Bool-cases (s_isdir item.mode)) [
      | inl directory ↦ rw directory (item_metas-Returns items hs)
      | inr other ↦ rw other (
          Returns-bind (λ r. Unit {0}) (λ r. Unit {0}) (meta_record empty_metadata repair item.meta)
            _ (meta_record-Returns item.meta h.1)
            (λ (real, encoded) u.
              Returns-bind (λ r. Unit {0}) (λ r. Unit {0}) (item_metas empty_metadata repair items)
                _ (item_metas-Returns items hs) (λ (any_real, meta_ents) v. (_, refl, tt))))
    ]

    as_entries-Returns :
        (items : List (Item Sha))
        → All (IsWritable repair) items
        → Returns (λ r. Unit {0}) (as_entries items)
    unfolding as_entries
    as_entries-Returns [] h = ([], refl, tt)
    as_entries-Returns (item ∷ items) (((name, k), h), hs) =
        let (entries, e, u) = as_entries-Returns items hs in
        (record { mode = item.gitmode; name = name; sha = item.oid } ∷ entries, rw (k, e) refl, tt)

    pub write_tree-Returns :
        (repo_write_tree : List (TreeEntry Sha) → Sha) (repo_write_bupm : List ℕ → Sha)
        (splitter : List ℕ → List (List ℕ × ℕ)) (dir_meta : Meta) (items : List (Item Sha))
        (add_meta : Bool)
        → IsKept repair dir_meta
        → All (IsWritable repair) items
        → (oid : Sha) × (write_tree empty_metadata repair repo_write_tree repo_write_bupm splitter
              dir_meta items add_meta
            ≡ ok oid)
    unfolding write_tree dir_metadata
    write_tree-Returns repo_write_tree repo_write_bupm splitter dir_meta items false h hs =
        let (entries, e, u) = as_entries-Returns items hs in (repo_write_tree entries, rw e refl)
    write_tree-Returns repo_write_tree repo_write_bupm splitter dir_meta items true h hs =
        let ((real, encoded), k, v) = meta_record-Returns dir_meta h in
        let ((any_real, meta_ents), m, w) = item_metas-Returns items hs in
        let (entries, e, u) = as_entries-Returns items hs in
        let metalist : Option (List (Key × List ℕ)) =
          if real || any_real then some (([], encoded) ∷ meta_ents) else none in
        (
          repo_write_tree (
              bupm_entries empty_metadata repair repo_write_tree repo_write_bupm splitter metalist
              ++ entries),
          rw (k, m, e) refl,
        )
