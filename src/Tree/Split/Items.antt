-- ===== src/Tree/Split/Items.antt =====
-- The items of a level of `_write_split_tree` of lib/bup/tree.py, its splits, and their abbreviated
-- names.
use bup.Base.{
  ℕ, ◌<◌, ◌≡◌, refl, arith, Bool, true, false, ◌||◌, ◌&&◌, some, List, [], ◌∷◌, ◌++◌, ltb, length,
  length-append, Bool-cases, All, inl, inr,
}
use bup.Base.Dict.{Key}
use bup.Base.Error.{Returns}
use bup.Hashsplit.{TreeEntry}
use bup.Tree.{
  Item, first_of, last_of, mangled_name, first_full_names, last_full_names, rename,
  abbreviate_item_names,
}
use bup.Tree.Names.Total.{abbreviate_tree_names-Returns}
use bup.Tree.Bupm.Total.{IsKept, IsWritable}
use bup.Tree.Split.{is_last, split_loop, first_item, last_item}

All-snoc :
    {A : Type 0} (P : A → Type 0) (xs : List A) (x : A) → All P xs → P x → All P (xs ++ x ∷ [])
All-snoc P [] x h k = (k, tt)
All-snoc P (y ∷ xs) x (h, hs) k = (h, All-snoc P xs x hs k)

All-both : (P : Key → Type 0) (xs ys : List Key) → All P xs → All P ys → All P (xs ++ ys)
All-both P [] ys h k = k
All-both P (x ∷ xs) ys (h, hs) k = (h, All-both P xs ys hs k)

module _ {Sha : Type 0} where
  -- An item of a directory, with a name.
  abbrev pub IsNamed : Bool → Item Sha → Type 0
  IsNamed repair item = IsWritable repair item × (0 < length item.name)

  -- A subtree, with the full names of its first and its last entry.
  abbrev pub IsSubtree : Bool → Item Sha → Type 0
  IsSubtree repair item =
      (item.is_raw ≡ true)
      × IsKept repair item.meta
      × ((first : Key) × (last : Key) × (item.full_names ≡ some (first, last))
          × (0 < length first)
          × (0 < length last))

  -- What the items of a level are.
  unfoldable pub IsItemOf : Bool → Bool → Item Sha → Type 0
  IsItemOf true repair item = IsNamed repair item
  IsItemOf false repair item = IsSubtree repair item

  first_full_names-Returns :
      (repair : Bool) (items : List (Item Sha))
      → All (IsSubtree repair) items
      → Returns (All (λ n. 0 < length n)) (first_full_names items)
  unfolding first_full_names first_of
  first_full_names-Returns repair [] h = ([], refl, tt)
  first_full_names-Returns repair (item ∷ items) ((r, m, (first, last, e, f, l)), hs) =
      let (names, k, ns) = first_full_names-Returns repair items hs in
      (first ∷ names, rw (e, k) refl, (f, ns))

  last_full_names-Returns :
      (repair : Bool) (items : List (Item Sha))
      → All (IsSubtree repair) items
      → Returns (All (λ n. 0 < length n)) (last_full_names items)
  unfolding last_full_names last_of
  last_full_names-Returns repair [] h = ([], refl, tt)
  last_full_names-Returns repair (item ∷ []) h = ([], refl, tt)
  last_full_names-Returns repair (item ∷ next ∷ items) ((r, m, (first, last, e, f, l)), hs) =
      let (names, k, ns) = last_full_names-Returns repair (next ∷ items) hs in
      (last ∷ names, rw (e, k) refl, (l, ns))

  -- Subtrees stay such under another name.
  rename-IsSubtree :
      (repair : Bool) (level : ℕ) (names : List Key) (items : List (Item Sha))
      → All (IsSubtree repair) items
      → All (IsSubtree repair) (rename level names items)
        × (length (rename level names items) ≡ length items)
  unfolding rename
  rename-IsSubtree repair level [] items h = (h, refl)
  rename-IsSubtree repair level (name ∷ names) [] h = (tt, refl)
  rename-IsSubtree repair level (name ∷ names) (item ∷ items) ((r, m, full), hs) =
      let (rest, same) = rename-IsSubtree repair level names items hs in
      (((r, m, full), rest), omega (arith, same))

  pub abbreviate_item_names-Returns :
      (repair : Bool) (items : List (Item Sha)) (level : ℕ)
      → All (IsSubtree repair) items
      → Returns
          (λ out. All (IsSubtree repair) out × (length out ≡ length items))
          (abbreviate_item_names items level)
  unfolding abbreviate_item_names
  abbreviate_item_names-Returns repair items level h =
      let (firsts, e, fs) = first_full_names-Returns repair items h in
      let (lasts, k, ls) = last_full_names-Returns repair items h in
      let (names, a, same) =
        abbreviate_tree_names-Returns (firsts ++ lasts) (All-both _ firsts lasts fs ls) in
      (rename level names items, rw (e, k, a) refl, rename-IsSubtree repair level names items h)

  pub IsSubtree-IsWritable :
      (repair : Bool) (items : List (Item Sha))
      → All (IsSubtree repair) items
      → All (IsWritable repair) items
  unfolding mangled_name
  IsSubtree-IsWritable repair [] h = tt
  IsSubtree-IsWritable repair (item ∷ items) ((r, m, full), hs) =
      (((item.name, rw r refl), m), IsSubtree-IsWritable repair items hs)

  pub IsNamed-IsWritable :
      (repair : Bool) (items : List (Item Sha))
      → All (IsNamed repair) items
      → All (IsWritable repair) items
  IsNamed-IsWritable repair [] h = tt
  IsNamed-IsWritable repair (item ∷ items) (h, hs) = (h.0, IsNamed-IsWritable repair items hs)

  module _ (empty_metadata : List ℕ) (repair : Bool) (repo_write_tree : List (TreeEntry Sha) → Sha)
      (repo_write_bupm : List ℕ → Sha) (splitter : List ℕ → List (List ℕ × ℕ)) {Splitter : Type 0}
      (new_splitter : Splitter) (feed : Key → Splitter → Bool × Splitter) where
    -- A split has items, all of which were given.
    unfoldable pub IsSplit : (Item Sha → Type 0) → List (Item Sha) → Type 0
    IsSplit P items = (0 < length items) × All P items

    pub split_loop-IsSplit :
        (P : Item Sha → Type 0) (h : Splitter) (pending items : List (Item Sha))
        → All P pending
        → All P items
        → All (IsSplit P) (
            split_loop empty_metadata repair repo_write_tree repo_write_bupm splitter new_splitter
              feed h pending items)
    unfolding split_loop IsSplit
    split_loop-IsSplit P h pending [] a b = tt
    split_loop-IsSplit P h pending (item ∷ items) a (b, bs) =
        let all = All-snoc P pending item a b in
        let (split, h') = feed item.name h in
        let filled : 0 < length (pending ++ item ∷ []) =
          omega (arith, length-append pending (item ∷ [])) in
        elim (Bool-cases (
          split && ltb 1 (length (pending ++ item ∷ []))
          || is_last empty_metadata repair repo_write_tree repo_write_bupm splitter new_splitter
              feed items)) [
                | inl ended ↦ rw ended ((filled, all), split_loop-IsSplit P h' [] items tt bs)
                | inr further ↦
                    rw further (split_loop-IsSplit P h' (pending ++ item ∷ []) items all bs)
              ]

    pub first_item-Returns :
        (P : Item Sha → Type 0) (items : List (Item Sha))
        → IsSplit P items
        → Returns P (
            first_item empty_metadata repair repo_write_tree repo_write_bupm splitter new_splitter
              feed items)
    unfolding first_item IsSplit
    first_item-Returns P [] (k, h) = absurd (omega arith)
    first_item-Returns P (item ∷ items) (k, h) = (item, refl, h.0)

    pub last_item-Returns :
        (P : Item Sha → Type 0) (items : List (Item Sha))
        → IsSplit P items
        → Returns P (
            last_item empty_metadata repair repo_write_tree repo_write_bupm splitter new_splitter
              feed items)
    unfolding last_item IsSplit
    last_item-Returns P [] (k, h) = absurd (omega arith)
    last_item-Returns P (item ∷ []) (k, h) = (item, refl, h.0)
    last_item-Returns P (item ∷ next ∷ items) (k, (h, hs)) =
        last_item-Returns P (next ∷ items) (omega arith, hs)
