-- ===== src/Tree/Split/Rounds.antt =====
-- The recursion of `_write_split_tree` ends: each level has fewer items than the one below.
use bup.Base.{
  ℕ, zero, suc, ◌+◌, ◌*◌, ◌≤◌, ◌<◌, ◌≡◌, refl, ap, inl, inr, arith, Bool, true, false, List, [],
  ◌∷◌, ◌++◌, ◌==◌, if◌then◌else◌, length, length-append, Bool-cases,
}
use bup.Base.Dict.{Key}
use bup.Base.Error.{Result, ok, err, undefined, ◌>>=◌}
use bup.Hashsplit.{TreeEntry}
use bup.Tree.{Meta, Item}
use bup.Tree.Bupm.{write_tree}
use bup.Tree.Split.{
  is_last, split_loop, split_items, new_item, new_tree, write_top, write_split_loop,
  write_split_tree,
}

module _ {Sha : Type 0} (empty_metadata : List ℕ) (repair : Bool)
    (repo_write_tree : List (TreeEntry Sha) → Sha) (repo_write_bupm : List ℕ → Sha)
    (splitter : List ℕ → List (List ℕ × ℕ)) {Splitter : Type 0} (new_splitter : Splitter)
    (feed : Key → Splitter → Bool × Splitter) where
  abbrev splitting : Splitter → List (Item Sha) → List (Item Sha) → List (List (Item Sha))
  splitting =
      split_loop empty_metadata repair repo_write_tree repo_write_bupm splitter new_splitter feed

  -- Every split but the last has two items.
  split_loop-length :
      (items : List (Item Sha)) (h : Splitter) (pending : List (Item Sha))
      → 2 * length (splitting h pending items) ≤ length pending + length items + 1
  unfolding split_loop is_last
  split_loop-length [] h pending = omega arith
  split_loop-length (item ∷ []) h pending = ground (arith)
  split_loop-length (item ∷ next ∷ items) h pending =
      let (split, h') = feed item.name h in
      ground (
        arith,
        split_loop-length (next ∷ items) h' [],
        split_loop-length (next ∷ items) h' (pending ++ item ∷ []),
        length-append pending (item ∷ []),
      )

  abbrev making : ℕ → List (List (Item Sha)) → Result (List (Item Sha))
  making = new_tree empty_metadata repair repo_write_tree repo_write_bupm splitter new_splitter feed

  abbrev item_of : ℕ → List (Item Sha) → Result (Item Sha)
  item_of =
      new_item empty_metadata repair repo_write_tree repo_write_bupm splitter new_splitter feed

  new_tree-length :
      (level : ℕ) (splits : List (List (Item Sha))) (newtree : List (Item Sha))
      → making level splits ≡ ok newtree
      → length newtree ≡ length splits
  unfolding new_tree
  new_tree-length level [] newtree e = let nothing : newtree ≡ [] = cc in rw nothing
  new_tree-length level (items ∷ splits) newtree e =
      one_more (item_of level items) (making level splits) (new_tree-length level splits) e
    where
      one_more :
          (first : Result (Item Sha)) (rest : Result (List (Item Sha)))
          → ((newtree' : List (Item Sha)) → rest ≡ ok newtree' → length newtree' ≡ length splits)
          → (do item ← first; newtree' ← rest; ok (item ∷ newtree')) ≡ ok newtree
          → length newtree ≡ suc (length splits)
      one_more (ok item) (ok newtree') ih h =
          let all : item ∷ newtree' ≡ newtree = cc in rw (← all) (ap suc (ih newtree' refl))
      one_more (ok item) (err x) ih h = cc
      one_more (ok item) undefined ih h = cc
      one_more (err x) rest ih h = cc
      one_more undefined rest ih h = cc

  abbrev writing_loop : ℕ → Meta → List (Item Sha) → ℕ → Result Sha
  writing_loop =
      write_split_loop empty_metadata repair repo_write_tree repo_write_bupm splitter new_splitter
        feed

  abbrev items_split : List (Item Sha) → List (List (Item Sha))
  items_split =
      split_items empty_metadata repair repo_write_tree repo_write_bupm splitter new_splitter feed

  pub new_tree-shrinks :
      (level : ℕ) (items newtree : List (Item Sha))
      → length items == 0 ≡ false
      → length (items_split items) == 1 ≡ false
      → making level (items_split items) ≡ ok newtree
      → length newtree < length items
  unfolding split_items
  new_tree-shrinks level items newtree some_items many e = ground (
    arith,
    split_loop-length items new_splitter [],
    new_tree-length level (items_split items) newtree e,
    some_items,
    many,
  )

  bind-cong :
      (r : Result (List (Item Sha))) (f k : List (Item Sha) → Result Sha)
      → ((newtree : List (Item Sha)) → r ≡ ok newtree → f newtree ≡ k newtree)
      → (r >>= f) ≡ (r >>= k)
  bind-cong (ok newtree) f k h = h newtree refl
  bind-cong (err x) f k h = refl
  bind-cong undefined f k h = refl

  -- More fuel than items makes no difference.
  write_split_loop-fuel :
      (fuel other : ℕ) (dir_meta : Meta) (items : List (Item Sha)) (level : ℕ)
      → length items < fuel
      → length items < other
      → writing_loop fuel dir_meta items level ≡ writing_loop other dir_meta items level
  unfolding write_split_loop
  write_split_loop-fuel zero other dir_meta items level h k = absurd (omega arith)
  write_split_loop-fuel (suc fuel) zero dir_meta items level h k = absurd (omega arith)
  write_split_loop-fuel (suc fuel) (suc other) dir_meta items level h k =
      elim (Bool-cases (length items == 0)) [
        | inl empty ↦ rw empty
        | inr some_items ↦ elim (Bool-cases (length (items_split items) == 1)) [
          | inl top ↦ rw (some_items, top)
          | inr many ↦
              rw (some_items, many)
                (bind-cong (making level (items_split items)) _ _ (λ newtree e.
                  let less : length newtree < length items =
                    new_tree-shrinks level items newtree some_items many e in
                  write_split_loop-fuel fuel other dir_meta newtree (level + 1) (omega arith)
                    (omega arith)))
        ]
      ]

  abbrev writing_tree : Meta → List (Item Sha) → ℕ → Result Sha
  writing_tree =
      write_split_tree empty_metadata repair repo_write_tree repo_write_bupm splitter new_splitter
        feed

  -- The recursion of _write_split_tree ends: whatever the splitter does, write_split_tree satisfies
  -- the equation of the source, by which it writes a tree that is not split and else calls itself,
  -- without a bound, on the list of the subtrees one level up.
  pub write_split_tree-calls :
      (dir_meta : Meta) (items : List (Item Sha)) (level : ℕ)
      → writing_tree dir_meta items level ≡ (
          if length items == 0
          then write_tree empty_metadata repair repo_write_tree repo_write_bupm splitter dir_meta
              items true
          else if length (items_split items) == 1
          then write_top empty_metadata repair repo_write_tree repo_write_bupm splitter new_splitter
              feed level dir_meta items
          else making level (items_split items) >>= λ (newtree : List (Item Sha)).
              writing_tree dir_meta newtree (level + 1))
  unfolding write_split_tree write_split_loop
  write_split_tree-calls dir_meta items level = elim (Bool-cases (length items == 0)) [
    | inl empty ↦ rw empty
    | inr some_items ↦ elim (Bool-cases (length (items_split items) == 1)) [
      | inl top ↦ rw (some_items, top)
      | inr many ↦
          rw (some_items, many)
            (bind-cong (making level (items_split items)) _ _ (λ newtree e.
              write_split_loop-fuel (length items) (suc (length newtree)) dir_meta newtree
                (level + 1) (new_tree-shrinks level items newtree some_items many e) (omega arith)))
    ]
  ]
