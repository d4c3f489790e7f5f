-- ===== src/Tree/Split/Total.antt =====
-- `_write_split_tree` of lib/bup/tree.py returns where each item can be written.
use bup.Base.{
  ℕ, zero, suc, ◌+◌, ◌<◌, ◌≡◌, refl, arith, Bool, true, false, List, [], ◌∷◌, ltb, ◌==◌, length,
  Bool-cases, All, inl, inr,
}
use bup.Base.Dict.{Key}
use bup.Base.Error.{Result, ok, Returns}
use bup.Hashsplit.{TreeEntry}
use bup.Tree.{Meta, no_meta, Item, first_of, last_of}
use bup.Tree.Bupm.{split_tree_item, meta_or_empty, write_tree}
use bup.Tree.Bupm.Total.{IsKept, IsWritable, write_tree-Returns}
use bup.Tree.Split.{
  split_items, leaf_item, inner_item, new_item, new_tree, write_top, write_split_loop,
  write_split_tree,
}
use bup.Tree.Split.Items.{
  IsNamed, IsSubtree, IsItemOf, IsSplit, abbreviate_item_names-Returns, IsSubtree-IsWritable,
  IsNamed-IsWritable, split_loop-IsSplit, first_item-Returns, last_item-Returns,
}
use bup.Tree.Split.Rounds.{new_tree-shrinks}

module _ {Sha : Type 0} (empty_metadata : List ℕ) (repair : Bool)
    (repo_write_tree : List (TreeEntry Sha) → Sha) (repo_write_bupm : List ℕ → Sha)
    (splitter : List ℕ → List (List ℕ × ℕ)) {Splitter : Type 0} (new_splitter : Splitter)
    (feed : Key → Splitter → Bool × Splitter) where
  abbrev writes : Meta → List (Item Sha) → Bool → Result Sha
  writes = write_tree empty_metadata repair repo_write_tree repo_write_bupm splitter

  abbrev written :
      (dir_meta : Meta) (items : List (Item Sha)) (add_meta : Bool)
      → IsKept repair dir_meta
      → All (IsWritable repair) items
      → (oid : Sha) × (writes dir_meta items add_meta ≡ ok oid)
  written = write_tree-Returns empty_metadata repair repo_write_tree repo_write_bupm splitter

  abbrev HasItems : (Item Sha → Type 0) → List (Item Sha) → Type 0
  HasItems =
      IsSplit empty_metadata repair repo_write_tree repo_write_bupm splitter new_splitter feed

  leaf_item-Returns :
      (items : List (Item Sha))
      → HasItems (IsNamed repair) items
      → Returns (IsSubtree repair) (
          leaf_item empty_metadata repair repo_write_tree repo_write_bupm splitter new_splitter feed
            items)
  unfolding leaf_item split_tree_item IsSplit meta_or_empty
  leaf_item-Returns items h =
      let (first, e, f) =
        first_item-Returns empty_metadata repair repo_write_tree repo_write_bupm splitter
          new_splitter feed (IsNamed repair) items h in
      let (oid, w) = written no_meta items true tt (IsNamed-IsWritable repair items h.1) in
      let (last, k, l) =
        last_item-Returns empty_metadata repair repo_write_tree repo_write_bupm splitter
          new_splitter feed (IsNamed repair) items h in
      (
        split_tree_item empty_metadata first.name oid first.name last.name,
        rw (e, w, k) refl,
        (refl, tt, (first.name, last.name, refl, f.1, l.1)),
      )

  inner_item-Returns :
      (level : ℕ) (items : List (Item Sha))
      → HasItems (IsSubtree repair) items
      → Returns (IsSubtree repair) (
          inner_item empty_metadata repair repo_write_tree repo_write_bupm splitter new_splitter
            feed level items)
  unfolding inner_item split_tree_item IsSplit meta_or_empty first_of last_of
  inner_item-Returns level items h =
      let (abbreviated, a, (subtrees, same)) =
        abbreviate_item_names-Returns repair items level h.1 in
      let some_items : HasItems (IsSubtree repair) abbreviated = (omega (arith, h.0), subtrees) in
      let (first, e, (fr, fm, (ff, fl, fe, f, f'))) =
        first_item-Returns empty_metadata repair repo_write_tree repo_write_bupm splitter
          new_splitter feed (IsSubtree repair) abbreviated some_items in
      let (oid, w) =
        written no_meta abbreviated false tt (IsSubtree-IsWritable repair abbreviated subtrees) in
      let (last, k, (lr, lm, (lf, ll, le, l', l))) =
        last_item-Returns empty_metadata repair repo_write_tree repo_write_bupm splitter
          new_splitter feed (IsSubtree repair) abbreviated some_items in
      (
        split_tree_item empty_metadata first.name oid ff ll,
        rw (a, e, w, fe, k, le) refl,
        (refl, tt, (ff, ll, refl, f, l)),
      )

  abbrev making : ℕ → List (List (Item Sha)) → Result (List (Item Sha))
  making = new_tree empty_metadata repair repo_write_tree repo_write_bupm splitter new_splitter feed

  new_item-Returns :
      (level : ℕ) (items : List (Item Sha))
      → HasItems (IsItemOf (level == 0) repair) items
      → Returns (IsSubtree repair) (
          new_item empty_metadata repair repo_write_tree repo_write_bupm splitter new_splitter feed
            level items)
  unfolding new_item IsItemOf
  new_item-Returns level items h = elim (Bool-cases (level == 0)) [
    | inl leaf ↦ rw leaf (leaf_item-Returns items (rw leaf at h))
    | inr inner ↦ rw inner (inner_item-Returns level items (rw inner at h))
  ]

  new_tree-Returns :
      (level : ℕ) (splits : List (List (Item Sha)))
      → All (HasItems (IsItemOf (level == 0) repair)) splits
      → Returns (All (IsSubtree repair)) (making level splits)
  unfolding new_tree
  new_tree-Returns level [] h = ([], refl, tt)
  new_tree-Returns level (items ∷ splits) (h, hs) =
      let (item, e, good) = new_item-Returns level items h in
      let (newtree, k, all) = new_tree-Returns level splits hs in
      (item ∷ newtree, rw (e, k) refl, (good, all))

  write_top-Returns :
      (level : ℕ) (dir_meta : Meta) (items : List (Item Sha))
      → IsKept repair dir_meta
      → All (IsItemOf (level == 0) repair) items
      → (oid : Sha) × (write_top empty_metadata repair repo_write_tree repo_write_bupm splitter
            new_splitter feed level dir_meta items
          ≡ ok oid)
  unfolding write_top IsItemOf
  write_top-Returns zero dir_meta items d h =
      written dir_meta items true d (IsNamed-IsWritable repair items h)
  write_top-Returns (suc level) dir_meta items d h =
      let below : (suc level == 0) ≡ false = ground arith in
      let inner : ltb 0 (suc level) ≡ true = ground arith in
      let subtrees : All (IsSubtree repair) items = rw below at h in
      let (abbreviated, a, (renamed, same)) =
        abbreviate_item_names-Returns repair items (suc level) subtrees in
      let (oid, w) =
        written dir_meta abbreviated true d (IsSubtree-IsWritable repair abbreviated renamed) in
      (oid, rw (inner, a) w)

  write_split_loop-Returns :
      (fuel : ℕ) (dir_meta : Meta) (items : List (Item Sha)) (level : ℕ)
      → length items < fuel
      → IsKept repair dir_meta
      → All (IsItemOf (level == 0) repair) items
      → (oid : Sha) × (write_split_loop empty_metadata repair repo_write_tree repo_write_bupm
            splitter new_splitter feed fuel dir_meta items level
          ≡ ok oid)
  unfolding write_split_loop split_items IsItemOf
  write_split_loop-Returns zero dir_meta items level k d h = absurd (omega arith)
  write_split_loop-Returns (suc fuel) dir_meta [] level k d h = written dir_meta [] true d tt
  write_split_loop-Returns (suc fuel) dir_meta (item ∷ rest) level k d h =
      let items = item ∷ rest in
      let splits =
        split_items empty_metadata repair repo_write_tree repo_write_bupm splitter new_splitter feed
          items in
      let some_items : (length items == 0) ≡ false = ground arith in
      let split =
        split_loop-IsSplit empty_metadata repair repo_write_tree repo_write_bupm splitter
          new_splitter feed (IsItemOf (level == 0) repair) new_splitter [] items tt h in
      elim (Bool-cases (length splits == 1)) [
        | inl top ↦ rw (some_items, top) (write_top-Returns level dir_meta items d h)
        | inr many ↦
            let (newtree, e, all) = new_tree-Returns level splits split in
            let fewer : length newtree < length items =
              new_tree-shrinks empty_metadata repair repo_write_tree repo_write_bupm splitter
                new_splitter feed level items newtree some_items many e in
            let next : (level + 1 == 0) ≡ false = ground arith in
            let (oid, w) =
              write_split_loop-Returns fuel dir_meta newtree (level + 1) (omega arith) d
                (rw next all) in
            (oid, rw (some_items, many, e) w)
      ]

  pub write_split_tree-Returns :
      (dir_meta : Meta) (items : List (Item Sha))
      → IsKept repair dir_meta
      → All (IsNamed repair) items
      → (oid : Sha) × (write_split_tree empty_metadata repair repo_write_tree repo_write_bupm
            splitter new_splitter feed dir_meta items 0
          ≡ ok oid)
  unfolding write_split_tree IsItemOf
  write_split_tree-Returns dir_meta items d h =
      write_split_loop-Returns (suc (length items)) dir_meta items 0 (omega arith) d h
