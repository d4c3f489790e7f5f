-- ===== src/Tree/Split/Content.antt =====
-- The trees and subtrees that `_write_split_tree` writes have their items.
use bup.Base.{
  ℕ, ◌≡◌, inl, inr, refl, sym, ap, ◌∙◌, Bool, true, false, List, [], ◌∷◌, ◌++◌, ◌==◌, Bool-cases,
  IsIn,
}
use bup.Base.Dict.{Key}
use bup.Base.Error.{ok}
use bup.Hashsplit.{TreeEntry, git_mode_tree}
use bup.Tree.{
  Meta, no_meta, Item, rename, abbreviate_item_names, first_full_names, last_full_names, first_of,
  last_of,
}
use bup.Tree.Names.{abbreviate_tree_names}
use bup.Tree.Bupm.{split_tree_item, write_tree}
use bup.Tree.Bupm.Entries.{bind-ok, entry, IsListed, write_tree-IsListed}
use bup.Tree.Split.{first_item, last_item, leaf_item, inner_item, new_item}

module _ {Sha : Type 0} (read_tree : Sha → List (TreeEntry Sha)) where
  -- An entry of the tree, or of a subtree of it.
  pub data Reaches : Sha → TreeEntry Sha → Type 0 where
    here : (root : Sha) (e : TreeEntry Sha) → IsIn e (read_tree root) → Reaches root e
    below :
        (root : Sha) (sub e : TreeEntry Sha)
        → IsIn sub (read_tree root)
        → sub.mode ≡ git_mode_tree
        → Reaches sub.sha e
        → Reaches root e

  pub Reaches-trans :
      (root : Sha) (sub e : TreeEntry Sha)
      → Reaches root sub
      → sub.mode ≡ git_mode_tree
      → Reaches sub.sha e
      → Reaches root e
  Reaches-trans root sub e (here _ _ i) m r = below root sub e i m r
  Reaches-trans root sub e (below _ mid _ i n s) m r =
      below root mid e i n (Reaches-trans mid.sha sub e s m r)

  -- An entry for the item, whatever its name is.
  abbrev pub HasItem : Sha → Item Sha → Type 0
  HasItem root item =
      (e : TreeEntry Sha) × Reaches root e × (e.mode ≡ item.gitmode) × (e.sha ≡ item.oid)

  -- An item of the same object.
  abbrev IsRenamed : Item Sha → List (Item Sha) → Type 0
  IsRenamed item items =
      (other : Item Sha) × IsIn other items
      × (other.gitmode ≡ item.gitmode)
      × (other.oid ≡ item.oid)

  rename-IsRenamed :
      (level : ℕ) (names : List Key) (items : List (Item Sha)) (item : Item Sha)
      → IsIn item items
      → IsRenamed item (rename level names items)
  unfolding rename
  rename-IsRenamed level [] items item i = (item, i, refl, refl)
  rename-IsRenamed level (n ∷ names) [] item i = absurd i
  rename-IsRenamed level (n ∷ names) (next ∷ items) item (inl at) =
      (_, inl refl, ap (λ x. x.gitmode) at, ap (λ x. x.oid) at)
  rename-IsRenamed level (n ∷ names) (next ∷ items) item (inr i) =
      let (other, j, m, o) = rename-IsRenamed level names items item i in (other, inr j, m, o)

  abbreviate-IsRenamed :
      (items abbreviated : List (Item Sha)) (level : ℕ) (item : Item Sha)
      → abbreviate_item_names items level ≡ ok abbreviated
      → IsIn item items
      → IsRenamed item abbreviated
  unfolding abbreviate_item_names
  abbreviate-IsRenamed items abbreviated level item e i =
      let (firsts, _, e1) = bind-ok (first_full_names items) _ abbreviated e in
      let (lasts, _, e2) = bind-ok (last_full_names items) _ abbreviated e1 in
      let (names, _, e3) = bind-ok (abbreviate_tree_names (firsts ++ lasts)) _ abbreviated e2 in
      let all : rename level names items ≡ abbreviated = cc in
      rw (← all) (rename-IsRenamed level names items item i)

  module _ (empty_metadata : List ℕ) (repair : Bool) (repo_write_tree : List (TreeEntry Sha) → Sha)
      (repo_write_bupm : List ℕ → Sha) (splitter : List ℕ → List (List ℕ × ℕ)) {Splitter : Type 0}
      (new_splitter : Splitter) (feed : Key → Splitter → Bool × Splitter)
      (reads : (entries : List (TreeEntry Sha)) (e : TreeEntry Sha)
        → IsIn e entries
        → IsIn e (read_tree (repo_write_tree entries))) where
    pub listed :
        (dir_meta : Meta) (items : List (Item Sha)) (add_meta : Bool) (oid : Sha) (item : Item Sha)
        → write_tree empty_metadata repair repo_write_tree repo_write_bupm splitter dir_meta items
            add_meta
          ≡ ok oid
        → IsIn item items
        → IsListed item (read_tree oid)
    listed =
        write_tree-IsListed empty_metadata repair repo_write_tree repo_write_bupm splitter read_tree
          reads

    pub IsListed-HasItem :
        (oid : Sha) (item : Item Sha) → IsListed item (read_tree oid) → HasItem oid item
    unfolding entry
    IsListed-HasItem oid item (name, m, i) = (_, here oid _ i, refl, refl)

    pub renamed_HasItem :
        (dir_meta : Meta) (items abbreviated : List (Item Sha)) (add_meta : Bool) (level : ℕ)
        (oid : Sha) (item : Item Sha)
        → abbreviate_item_names items level ≡ ok abbreviated
        → write_tree empty_metadata repair repo_write_tree repo_write_bupm splitter dir_meta
            abbreviated add_meta
          ≡ ok oid
        → IsIn item items
        → HasItem oid item
    renamed_HasItem dir_meta items abbreviated add_meta level oid item a w i =
        let (other, j, m, o) = abbreviate-IsRenamed items abbreviated level item a i in
        let (x, r, m', o') =
          IsListed-HasItem oid other (listed dir_meta abbreviated add_meta oid other w j) in
        (x, r, m' ∙ m, o' ∙ o)

    -- A leaf has its items by name.
    pub leaf_item-IsListed :
        (items : List (Item Sha)) (sub item : Item Sha)
        → leaf_item empty_metadata repair repo_write_tree repo_write_bupm splitter new_splitter feed
            items
          ≡ ok sub
        → IsIn item items
        → (sub.gitmode ≡ git_mode_tree) × IsListed item (read_tree sub.oid)
    unfolding leaf_item split_tree_item
    leaf_item-IsListed items sub item e i =
        let (first, _, e1) =
          bind-ok
            (first_item empty_metadata repair repo_write_tree repo_write_bupm splitter new_splitter
              feed items)
            _ sub e in
        let (oid, w, e2) =
          bind-ok
            (write_tree empty_metadata repair repo_write_tree repo_write_bupm splitter no_meta items
              true)
            _ sub e1 in
        let (last, _, e3) =
          bind-ok
            (last_item empty_metadata repair repo_write_tree repo_write_bupm splitter new_splitter
              feed items)
            _ sub e2 in
        let it : split_tree_item empty_metadata first.name oid first.name last.name ≡ sub = cc in
        (
          sym (ap (λ x. x.gitmode) it),
          rw (← ap (λ x. x.oid) it) (listed no_meta items true oid item w i),
        )

    inner_item-HasItem :
        (level : ℕ) (items : List (Item Sha)) (sub item : Item Sha)
        → inner_item empty_metadata repair repo_write_tree repo_write_bupm splitter new_splitter
            feed level items
          ≡ ok sub
        → IsIn item items
        → (sub.gitmode ≡ git_mode_tree) × HasItem sub.oid item
    unfolding inner_item split_tree_item
    inner_item-HasItem level items sub item e i =
        let (abbreviated, a, e0) = bind-ok (abbreviate_item_names items level) _ sub e in
        let (first, _, e1) =
          bind-ok
            (first_item empty_metadata repair repo_write_tree repo_write_bupm splitter new_splitter
              feed abbreviated)
            _ sub e0 in
        let (oid, w, e2) =
          bind-ok
            (write_tree empty_metadata repair repo_write_tree repo_write_bupm splitter no_meta
              abbreviated false)
            _ sub e1 in
        let (first_name, _, e3) = bind-ok (first_of first.full_names) _ sub e2 in
        let (last, _, e4) =
          bind-ok
            (last_item empty_metadata repair repo_write_tree repo_write_bupm splitter new_splitter
              feed abbreviated)
            _ sub e3 in
        let (last_name, _, e5) = bind-ok (last_of last.full_names) _ sub e4 in
        let it : split_tree_item empty_metadata first.name oid first_name last_name ≡ sub = cc in
        (
          sym (ap (λ x. x.gitmode) it),
          rw (← ap (λ x. x.oid) it)
              (renamed_HasItem no_meta items abbreviated false level oid item a w i),
        )

    pub new_item-HasItem :
        (level : ℕ) (items : List (Item Sha)) (sub item : Item Sha)
        → new_item empty_metadata repair repo_write_tree repo_write_bupm splitter new_splitter feed
            level items
          ≡ ok sub
        → IsIn item items
        → (sub.gitmode ≡ git_mode_tree) × HasItem sub.oid item
    unfolding new_item
    new_item-HasItem level items sub item e i = elim (Bool-cases (level == 0)) [
      | inl leaf ↦
          let (m, l) = leaf_item-IsListed items sub item (sym (rw leaf) ∙ e) i in
          (m, IsListed-HasItem sub.oid item l)
      | inr inner ↦ inner_item-HasItem level items sub item (sym (rw inner) ∙ e) i
    ]
