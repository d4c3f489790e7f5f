-- ===== src/Tree/Stack/Written.antt =====
-- What a directory on the stack becomes: a tree below which there is an item for each of its names.
use bup.Base.{
  ℕ, ◌≡◌, ◌⊎◌, inl, inr, refl, sym, ap, ◌∙◌, arith, Bool, true, ◌||◌, List, [], ◌∷◌, Bool-cases,
  IsIn, All, bytes_eq, bytes_eq→eq,
}
use bup.Base.Dict.{Key, contains}
use bup.Base.Lex.{bytes_lt}
use bup.Base.Error.{ok}
use bup.Hashsplit.{TreeEntry}
use bup.Tree.{Item, StackDir, clean, insert_by_name, sorted_by_name, mangled_name}
use bup.Tree.Bupm.Entries.{entry, write_tree-IsListed}
use bup.Tree.Split.Content.{Reaches, here}
use bup.Tree.Split.Reach.{write_split_tree-Reaches}
use bup.Tree.Bupm.Total.{IsKept, write_tree-Returns}
use bup.Tree.Split.Items.{IsNamed, IsNamed-IsWritable}
use bup.Tree.Split.Total.{write_split_tree-Returns}
use bup.Tree.Stack.{write}

module _ {Sha : Type 0} where
  -- An item of the same name.
  abbrev pub HasName : Key → List (Item Sha) → Type 0
  HasName name items = (item : Item Sha) × IsIn item items × (item.name ≡ name)

  clean-HasName :
      (names_seen : List Key) (items : List (Item Sha)) (item : Item Sha)
      → IsIn item items
      → (contains item.name names_seen ≡ true) ⊎ HasName item.name (clean names_seen items)
  unfolding clean contains
  clean-HasName names_seen [] item i = absurd i
  clean-HasName names_seen (next ∷ items) item i =
      elim (Bool-cases (contains next.name names_seen)) [
        | inl seen ↦ rw seen (seen_before seen i (λ j. clean-HasName names_seen items item j))
        | inr new ↦ rw new (taken i (λ j. clean-HasName (next.name ∷ names_seen) items item j))
      ]
    where
      seen_before :
          contains next.name names_seen ≡ true
          → IsIn item (next ∷ items)
          → (IsIn item items
              → (contains item.name names_seen ≡ true) ⊎ HasName item.name (clean names_seen items))
          → (contains item.name names_seen ≡ true) ⊎ HasName item.name (clean names_seen items)
      seen_before seen (inl at) rest = inl (ap (λ x. contains x.name names_seen) (sym at) ∙ seen)
      seen_before seen (inr j) rest = rest j

      behind :
          (bytes_eq next.name item.name || contains item.name names_seen ≡ true)
            ⊎ HasName item.name (clean (next.name ∷ names_seen) items)
          → (contains item.name names_seen ≡ true)
            ⊎ HasName item.name (next ∷ clean (next.name ∷ names_seen) items)
      behind (inr (kept, j, n)) = inr (kept, inr j, n)
      behind (inl seen) = elim (Bool-cases (bytes_eq next.name item.name)) [
        | inl same ↦ inr (next, inl refl, bytes_eq→eq next.name item.name same)
        | inr other ↦ inl (ground (arith, seen, other))
      ]

      taken :
          IsIn item (next ∷ items)
          → (IsIn item items
              → (contains item.name (next.name ∷ names_seen) ≡ true)
                ⊎ HasName item.name (clean (next.name ∷ names_seen) items))
          → (contains item.name names_seen ≡ true)
            ⊎ HasName item.name (next ∷ clean (next.name ∷ names_seen) items)
      taken (inl at) rest = inr (next, inl refl, ap (λ x. x.name) at)
      taken (inr j) rest = behind (rest j)

  -- Nothing was seen before the first item.
  clean_all :
      (items : List (Item Sha)) (item : Item Sha)
      → IsIn item items
      → HasName item.name (clean [] items)
  unfolding contains
  clean_all items item i = elim (clean-HasName [] items item i) [
    | inl seen ↦ cc
    | inr found ↦ found
  ]

  clean-subset :
      (names_seen : List Key) (items : List (Item Sha)) (item : Item Sha)
      → IsIn item (clean names_seen items)
      → IsIn item items
  unfolding clean
  clean-subset names_seen [] item i = i
  clean-subset names_seen (next ∷ items) item i =
      elim (Bool-cases (contains next.name names_seen)) [
        | inl seen ↦ inr (clean-subset names_seen items item (rw seen at i))
        | inr new ↦ taken (rw new at i) (λ j. clean-subset (next.name ∷ names_seen) items item j)
      ]
    where
      taken :
          IsIn item (next ∷ clean (next.name ∷ names_seen) items)
          → (IsIn item (clean (next.name ∷ names_seen) items) → IsIn item items)
          → IsIn item (next ∷ items)
      taken (inl at) rest = inl at
      taken (inr j) rest = inr (rest j)

  All-clean :
      (P : Item Sha → Type 0) (names_seen : List Key) (items : List (Item Sha))
      → All P items
      → All P (clean names_seen items)
  unfolding clean
  All-clean P names_seen [] h = tt
  All-clean P names_seen (next ∷ items) (h, hs) =
      elim (Bool-cases (contains next.name names_seen)) [
        | inl seen ↦ rw seen (All-clean P names_seen items hs)
        | inr new ↦ rw new (h, All-clean P (next.name ∷ names_seen) items hs)
      ]

  All-insert_by_name :
      (P : Item Sha → Type 0) (x : Item Sha) (items : List (Item Sha))
      → P x
      → All P items
      → All P (insert_by_name x items)
  unfolding insert_by_name
  All-insert_by_name P x [] k h = (k, tt)
  All-insert_by_name P x (next ∷ items) k (h, hs) = elim (Bool-cases (bytes_lt next.name x.name)) [
    | inl behind ↦ rw behind (h, All-insert_by_name P x items k hs)
    | inr before ↦ rw before (k, (h, hs))
  ]

  All-sorted_by_name :
      (P : Item Sha → Type 0) (items : List (Item Sha)) → All P items → All P (sorted_by_name items)
  unfolding sorted_by_name
  All-sorted_by_name P [] h = tt
  All-sorted_by_name P (x ∷ items) (h, hs) =
      All-insert_by_name P x (sorted_by_name items) h (All-sorted_by_name P items hs)

  insert_by_name-IsIn :
      (x item : Item Sha) (items : List (Item Sha))
      → (x ≡ item) ⊎ IsIn item items
      → IsIn item (insert_by_name x items)
  unfolding insert_by_name
  insert_by_name-IsIn x item [] (inl at) = inl at
  insert_by_name-IsIn x item [] (inr i) = absurd i
  insert_by_name-IsIn x item (next ∷ items) i = elim (Bool-cases (bytes_lt next.name x.name)) [
    | inl behind ↦ rw behind (further i (λ j. insert_by_name-IsIn x item items j))
    | inr before ↦ rw before i
  ]
    where
      further :
          (x ≡ item) ⊎ IsIn item (next ∷ items)
          → ((x ≡ item) ⊎ IsIn item items → IsIn item (insert_by_name x items))
          → IsIn item (next ∷ insert_by_name x items)
      further (inl at) rest = inr (rest (inl at))
      further (inr (inl at)) rest = inl at
      further (inr (inr j)) rest = inr (rest (inr j))

  sorted_by_name-IsIn :
      (items : List (Item Sha)) (item : Item Sha)
      → IsIn item items
      → IsIn item (sorted_by_name items)
  unfolding sorted_by_name
  sorted_by_name-IsIn [] item i = absurd i
  sorted_by_name-IsIn (x ∷ items) item (inl at) =
      insert_by_name-IsIn x item (sorted_by_name items) (inl at)
  sorted_by_name-IsIn (x ∷ items) item (inr i) =
      insert_by_name-IsIn x item (sorted_by_name items) (inr (sorted_by_name-IsIn items item i))

  module _ (read_tree : Sha → List (TreeEntry Sha)) (empty_metadata : List ℕ) (repair : Bool)
      (repo_write_tree : List (TreeEntry Sha) → Sha) (repo_write_bupm : List ℕ → Sha)
      (splitter : List ℕ → List (List ℕ × ℕ)) {Splitter : Type 0} (new_splitter : Splitter)
      (feed : Key → Splitter → Bool × Splitter) (split_trees : Bool)
      (reads : (entries : List (TreeEntry Sha)) (e : TreeEntry Sha)
        → IsIn e entries
        → IsIn e (read_tree (repo_write_tree entries))) where
    -- An item of the directory with that name is found below the tree by its mangled name.
    abbrev pub IsWritten : List (Item Sha) → Sha → Key → Type 0
    IsWritten items oid item_name =
        (item : Item Sha) × IsIn item items
        × (item.name ≡ item_name)
        × (name : Key) × (mangled_name item ≡ ok name)
        × Reaches read_tree oid (entry item name)

    -- If the repository reads back the entries of the trees it writes, and the items of a directory
    -- have names that are not empty and can be mangled, and no metadata is lost unless it is
    -- repaired, then the tree of the directory is written, split or not, whatever the splitter of
    -- names does, and for every item of the directory an item of the directory with the same name
    -- is found by its mangled name, mode and oid in the tree or in a tree of subtrees below it.
    pub write-IsWritten :
        (tree : StackDir Sha)
        → IsKept repair tree.meta
        → All (IsNamed repair) tree.items
        → (oid : Sha) × (write empty_metadata repair repo_write_tree repo_write_bupm splitter
              new_splitter feed split_trees tree
            ≡ ok oid)
          × ((item : Item Sha) → IsIn item tree.items → IsWritten tree.items oid item.name)
    unfolding write
    write-IsWritten tree d h =
        let kept_all = All-clean (IsNamed repair) [] tree.items h in
        elim (Bool-cases split_trees) [
          | inl split ↦
              let (oid, e) =
                write_split_tree-Returns empty_metadata repair repo_write_tree repo_write_bupm
                  splitter new_splitter feed tree.meta (sorted_by_name (clean [] tree.items)) d
                  (All-sorted_by_name (IsNamed repair) (clean [] tree.items) kept_all) in
              (
                oid,
                rw split e,
                λ item i.
                    let (kept, j, same) = clean_all tree.items item i in
                    let (name, m, r) =
                      write_split_tree-Reaches read_tree empty_metadata repair repo_write_tree
                        repo_write_bupm splitter new_splitter feed reads tree.meta
                        (sorted_by_name (clean [] tree.items)) oid kept e
                        (sorted_by_name-IsIn (clean [] tree.items) kept j) in
                    (kept, clean-subset [] tree.items kept j, same, name, m, r),
              )
          | inr whole ↦
              let (oid, e) =
                write_tree-Returns empty_metadata repair repo_write_tree repo_write_bupm splitter
                  tree.meta (clean [] tree.items) true d
                  (IsNamed-IsWritable repair (clean [] tree.items) kept_all) in
              (
                oid,
                rw whole e,
                λ item i.
                    let (kept, j, same) = clean_all tree.items item i in
                    let (name, m, l) =
                      write_tree-IsListed empty_metadata repair repo_write_tree repo_write_bupm
                        splitter read_tree reads tree.meta (clean [] tree.items) true oid kept e
                        j in
                    (
                      kept,
                      clean-subset [] tree.items kept j,
                      same,
                      name,
                      m,
                      here oid (entry kept name) l,
                    ),
              )
        ]
