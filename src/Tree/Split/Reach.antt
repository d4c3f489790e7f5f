-- ===== src/Tree/Split/Reach.antt =====
-- All items of a directory are found below the tree that `_write_split_tree` writes.
use bup.Base.{
  ℕ, zero, suc, ◌+◌, ◌≡◌, ◌⊎◌, inl, inr, refl, sym, ap, ◌∙◌, arith, Bool, true, false, ◌||◌, ◌&&◌,
  List, [], ◌∷◌, ◌++◌, ltb, ◌==◌, length, Bool-cases, IsIn,
}
use bup.Base.Dict.{Key}
use bup.Base.Error.{Result, ok}
use bup.Hashsplit.{TreeEntry, git_mode_tree}
use bup.Tree.{Meta, Item, mangled_name, abbreviate_item_names}
use bup.Tree.Bupm.{write_tree}
use bup.Tree.Bupm.Entries.{bind-ok, IsIn-append, entry}
use bup.Tree.Split.{
  is_last, split_loop, split_items, new_item, new_tree, write_top, write_split_loop,
  write_split_tree,
}
use bup.Tree.Split.Content.{
  Reaches, here, Reaches-trans, HasItem, IsListed-HasItem, renamed_HasItem, listed,
  leaf_item-IsListed, new_item-HasItem,
}

IsIn-front : {A : Type 0} (a : A) (xs ys : List A) → IsIn a xs → IsIn a (xs ++ ys)
IsIn-front a [] ys i = absurd i
IsIn-front a (x ∷ xs) ys (inl at) = inl at
IsIn-front a (x ∷ xs) ys (inr i) = inr (IsIn-front a xs ys i)

module _ {Sha : Type 0} (read_tree : Sha → List (TreeEntry Sha)) (empty_metadata : List ℕ)
    (repair : Bool) (repo_write_tree : List (TreeEntry Sha) → Sha) (repo_write_bupm : List ℕ → Sha)
    (splitter : List ℕ → List (List ℕ × ℕ)) {Splitter : Type 0} (new_splitter : Splitter)
    (feed : Key → Splitter → Bool × Splitter)
    (reads : (entries : List (TreeEntry Sha)) (e : TreeEntry Sha)
      → IsIn e entries
      → IsIn e (read_tree (repo_write_tree entries))) where
  abbrev splitting : Splitter → List (Item Sha) → List (Item Sha) → List (List (Item Sha))
  splitting =
      split_loop empty_metadata repair repo_write_tree repo_write_bupm splitter new_splitter feed

  abbrev items_split : List (Item Sha) → List (List (Item Sha))
  items_split =
      split_items empty_metadata repair repo_write_tree repo_write_bupm splitter new_splitter feed

  abbrev making : ℕ → List (List (Item Sha)) → Result (List (Item Sha))
  making = new_tree empty_metadata repair repo_write_tree repo_write_bupm splitter new_splitter feed

  abbrev item_of : ℕ → List (Item Sha) → Result (Item Sha)
  item_of =
      new_item empty_metadata repair repo_write_tree repo_write_bupm splitter new_splitter feed

  abbrev writing_loop : ℕ → Meta → List (Item Sha) → ℕ → Result Sha
  writing_loop =
      write_split_loop empty_metadata repair repo_write_tree repo_write_bupm splitter new_splitter
        feed

  -- The item is in one of the splits.
  abbrev IsInSplit : Item Sha → List (List (Item Sha)) → Type 0
  IsInSplit item splits = (split : List (Item Sha)) × IsIn split splits × IsIn item split

  one_split_more :
      (item : Item Sha) (split : List (Item Sha)) (splits : List (List (Item Sha)))
      → IsInSplit item splits
      → IsInSplit item (split ∷ splits)
  one_split_more item split splits (s, i, j) = (s, inr i, j)

  taken :
      (item next : Item Sha) (pending : List (Item Sha))
      → IsIn item pending ⊎ (next ≡ item)
      → IsIn item (pending ++ next ∷ [])
  taken item next pending (inl i) = IsIn-front item pending (next ∷ []) i
  taken item next pending (inr at) = IsIn-append item pending (next ∷ []) (inl at)

  abbrev is_flushed : Splitter → List (Item Sha) → Item Sha → List (Item Sha) → Bool
  is_flushed h pending next items =
      (feed next.name h).0 && ltb 1 (length (pending ++ next ∷ []))
      || is_last empty_metadata repair repo_write_tree repo_write_bupm splitter new_splitter feed
          items

  split_loop-IsInSplit :
      (items : List (Item Sha)) (next item : Item Sha) (h : Splitter) (pending : List (Item Sha))
      → IsIn item pending ⊎ IsIn item (next ∷ items)
      → IsInSplit item (splitting h pending (next ∷ items))
  unfolding split_loop is_last
  split_loop-IsInSplit [] next item h pending i = elim (Bool-cases (is_flushed h pending next [])) [
    | inl flushed ↦ rw flushed (pending ++ next ∷ [], inl refl, taken item next pending (only i))
    | inr kept ↦ absurd (ground (arith, kept))
  ]
    where
      only : IsIn item pending ⊎ IsIn item (next ∷ []) → IsIn item pending ⊎ (next ≡ item)
      only (inl i) = inl i
      only (inr (inl at)) = inr at
      only (inr (inr i)) = absurd i
  split_loop-IsInSplit (after ∷ items) next item h pending i =
      elim (Bool-cases (is_flushed h pending next (after ∷ items))) [
        | inl flushed ↦ rw flushed (
            at_flush i (λ j. split_loop-IsInSplit items after item (feed next.name h).1 [] (inr j)))
        | inr kept ↦ rw kept (
            split_loop-IsInSplit items after item (feed next.name h).1 (pending ++ next ∷ [])
              (go_on i))
      ]
    where
      at_flush :
          IsIn item pending ⊎ IsIn item (next ∷ after ∷ items)
          → (IsIn item (after ∷ items)
              → IsInSplit item (splitting (feed next.name h).1 [] (after ∷ items)))
          → IsInSplit item
              ((pending ++ next ∷ []) ∷ splitting (feed next.name h).1 [] (after ∷ items))
      at_flush (inl j) rest = (pending ++ next ∷ [], inl refl, taken item next pending (inl j))
      at_flush (inr (inl at)) rest =
          (pending ++ next ∷ [], inl refl, taken item next pending (inr at))
      at_flush (inr (inr j)) rest = one_split_more item _ _ (rest j)

      go_on :
          IsIn item pending ⊎ IsIn item (next ∷ after ∷ items)
          → IsIn item (pending ++ next ∷ []) ⊎ IsIn item (after ∷ items)
      go_on (inl j) = inl (taken item next pending (inl j))
      go_on (inr (inl at)) = inl (taken item next pending (inr at))
      go_on (inr (inr j)) = inr j

  split_items-IsInSplit :
      (items : List (Item Sha)) (item : Item Sha)
      → IsIn item items
      → IsInSplit item (items_split items)
  unfolding split_items
  split_items-IsInSplit [] item i = absurd i
  split_items-IsInSplit (next ∷ items) item i =
      split_loop-IsInSplit items next item new_splitter [] (inr i)

  -- Every split has its subtree.
  new_tree-IsIn :
      (level : ℕ) (splits : List (List (Item Sha))) (newtree split : List (Item Sha))
      → making level splits ≡ ok newtree
      → IsIn split splits
      → (sub : Item Sha) × IsIn sub newtree × (item_of level split ≡ ok sub)
  unfolding new_tree
  new_tree-IsIn level [] newtree split e i = absurd i
  new_tree-IsIn level (first ∷ splits) newtree split e i =
      let (sub, s, e1) = bind-ok (item_of level first) _ newtree e in
      let (rest, r, e2) = bind-ok (making level splits) _ newtree e1 in
      let all : sub ∷ rest ≡ newtree = cc in
      rw (← all) (found sub s rest (new_tree-IsIn level splits rest split r) i)
    where
      found :
          (sub : Item Sha)
          → item_of level first ≡ ok sub
          → (rest : List (Item Sha))
          → (IsIn split splits → (s : Item Sha) × IsIn s rest × (item_of level split ≡ ok s))
          → IsIn split (first ∷ splits)
          → (s : Item Sha) × IsIn s (sub ∷ rest) × (item_of level split ≡ ok s)
      found sub s rest ih (inl at) = (sub, inl refl, ap (item_of level) (sym at) ∙ s)
      found sub s rest ih (inr j) = let (other, k, o) = ih j in (other, inr k, o)

  abbrev plain : Meta → List (Item Sha) → Result Sha
  plain dir_meta items =
      write_tree empty_metadata repair repo_write_tree repo_write_bupm splitter dir_meta items true

  write_top-HasItem :
      (level : ℕ) (dir_meta : Meta) (items : List (Item Sha)) (oid : Sha) (item : Item Sha)
      → write_top empty_metadata repair repo_write_tree repo_write_bupm splitter new_splitter feed
          level dir_meta items
        ≡ ok oid
      → IsIn item items
      → HasItem read_tree oid item
  unfolding write_top
  write_top-HasItem level dir_meta items oid item e i = elim (Bool-cases (ltb 0 level)) [
    | inl upper ↦
        let (abbreviated, a, w) =
          bind-ok (abbreviate_item_names items level) (λ b. plain dir_meta b) oid
            (sym (rw upper) ∙ e) in
        renamed_HasItem read_tree empty_metadata repair repo_write_tree repo_write_bupm splitter
          new_splitter feed reads dir_meta items abbreviated true level oid item a w i
    | inr whole ↦
        IsListed-HasItem read_tree empty_metadata repair repo_write_tree repo_write_bupm splitter
          new_splitter feed reads oid item
          (listed read_tree empty_metadata repair repo_write_tree repo_write_bupm splitter
            new_splitter feed reads dir_meta items true oid item (sym (rw whole) ∙ e) i)
  ]

  -- An entry below the subtree of an item is below the tree that has the item.
  HasItem-trans :
      (root : Sha) (sub : Item Sha) (e : TreeEntry Sha)
      → HasItem read_tree root sub
      → sub.gitmode ≡ git_mode_tree
      → Reaches read_tree sub.oid e
      → Reaches read_tree root e
  HasItem-trans root sub e (x, r, m, o) dir s =
      Reaches-trans read_tree root x e r (m ∙ dir) (rw o s)

  not_empty : (next : Item Sha) (items : List (Item Sha)) → length (next ∷ items) == 0 ≡ false
  not_empty next items = ground arith

  write_split_loop-HasItem :
      (fuel : ℕ) (dir_meta : Meta) (items : List (Item Sha)) (level : ℕ) (oid : Sha)
      (item : Item Sha)
      → writing_loop fuel dir_meta items level ≡ ok oid
      → IsIn item items
      → HasItem read_tree oid item
  unfolding write_split_loop
  write_split_loop-HasItem zero dir_meta items level oid item e i = cc
  write_split_loop-HasItem (suc fuel) dir_meta [] level oid item e i = absurd i
  write_split_loop-HasItem (suc fuel) dir_meta (next ∷ items) level oid item e i =
      elim (Bool-cases (length (items_split (next ∷ items)) == 1)) [
        | inl top ↦
            write_top-HasItem level dir_meta (next ∷ items) oid item
              (sym (rw (not_empty next items, top)) ∙ e) i
        | inr many ↦
            let (newtree, t, w) =
              bind-ok (making level (items_split (next ∷ items)))
                (λ l. writing_loop fuel dir_meta l (level + 1)) oid
                (sym (rw (not_empty next items, many)) ∙ e) in
            let (split, s, j) = split_items-IsInSplit (next ∷ items) item i in
            let (sub, k, n) = new_tree-IsIn level (items_split (next ∷ items)) newtree split t s in
            let (dir, (x, r, m, o)) =
              new_item-HasItem read_tree empty_metadata repair repo_write_tree repo_write_bupm
                splitter new_splitter feed reads level split sub item n j in
            (
              x,
              HasItem-trans oid sub x
                  (write_split_loop-HasItem fuel dir_meta newtree (level + 1) oid sub w k) dir r,
              m,
              o,
            )
      ]

  -- When the tree of a directory is written, every item is found below it by its mangled name.
  pub write_split_tree-Reaches :
      (dir_meta : Meta) (items : List (Item Sha)) (oid : Sha) (item : Item Sha)
      → write_split_tree empty_metadata repair repo_write_tree repo_write_bupm splitter new_splitter
          feed dir_meta items 0
        ≡ ok oid
      → IsIn item items
      → (name : Key) × (mangled_name item ≡ ok name) × Reaches read_tree oid (entry item name)
  unfolding write_split_tree write_split_loop write_top new_item
  write_split_tree-Reaches dir_meta [] oid item e i = absurd i
  write_split_tree-Reaches dir_meta (next ∷ items) oid item e i =
      elim (Bool-cases (length (items_split (next ∷ items)) == 1)) [
        | inl top ↦
            let (name, m, j) =
              listed read_tree empty_metadata repair repo_write_tree repo_write_bupm splitter
                new_splitter feed reads dir_meta (next ∷ items) true oid item
                (sym (rw (not_empty next items, top)) ∙ e) i in
            (name, m, here oid (entry item name) j)
        | inr many ↦
            let (newtree, t, w) =
              bind-ok (making 0 (items_split (next ∷ items)))
                (λ l. writing_loop (length (next ∷ items)) dir_meta l 1) oid
                (sym (rw (not_empty next items, many)) ∙ e) in
            let (split, s, j) = split_items-IsInSplit (next ∷ items) item i in
            let (sub, k, n) = new_tree-IsIn 0 (items_split (next ∷ items)) newtree split t s in
            let (dir, (name, m, l)) =
              leaf_item-IsListed read_tree empty_metadata repair repo_write_tree repo_write_bupm
                splitter new_splitter feed reads split sub item n j in
            (
              name,
              m,
              HasItem-trans oid sub (entry item name)
                  (write_split_loop-HasItem (length (next ∷ items)) dir_meta newtree 1 oid sub w k)
                  dir (here sub.oid (entry item name) l),
            )
      ]
