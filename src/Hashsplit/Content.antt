-- ===== src/Hashsplit/Content.antt =====
-- What is split is there again, in its order, when the tree is read.
use bup.Base.{
  ℕ, zero, suc, ◌+◌, ◌-◌, ◌≤◌, ◌≡◌, ◌≢◌, refl, sym, ap, ◌∙◌, arith, true, List, [], ◌∷◌, ◌++◌,
  append_assoc, append-nil, length, All, ◌<◌, Bool-cases, inl, inr,
}
use bup.Base.Hex.{hex}
use bup.Hashsplit.Order.{
  sorted_entries, IsPositive, sorted_entries-make_shalist, IsPositive-append, carried-IsPositive,
  squish-IsPositive, append_first-IsPositive, last_stack-IsPositive,
}
use bup.Hashsplit.Rounds.{goes_on, squish_loop-stop, squish_loop-new, squish_loop-next}
use bup.Hashsplit.{
  git_mode_file, Entry, TreeEntry, total_size, shalist_from, make_shalist, carried, squish_loop,
  rounds, squish, append_first, last_stack, stack_loop, split_to_shalist, blob_or_tree,
  split_to_blob_or_tree,
}

-- What reading an object by its id gives: a blob's bytes, and for a tree those of its entries in
-- git's order, which tree_encode writes.
module _ {Sha C : Type 0} (content : Sha → List C) where
  abbrev pub tree_content : List (TreeEntry Sha) → List C
  tree_content [] = []
  tree_content (e ∷ l) = content e.sha ++ tree_content l

  entries_content : List (Entry Sha) → List C
  entries_content [] = []
  entries_content (e ∷ l) = content e.sha ++ entries_content l

  -- The lower stacks hold what was split last.
  stacks_content : List (List (Entry Sha)) → List C
  stacks_content [] = []
  stacks_content (stack ∷ above) = stacks_content above ++ entries_content stack

  entries_content-append :
      (l r : List (Entry Sha)) → entries_content (l ++ r) ≡ entries_content l ++ entries_content r
  unfolding entries_content
  entries_content-append [] r = refl
  entries_content-append (e ∷ l) r =
      ap (λ (t : List C). content e.sha ++ t) (entries_content-append l r)
      ∙ sym (append_assoc (content e.sha) (entries_content l) (entries_content r))

  one_entry : (e : Entry Sha) → entries_content (e ∷ []) ≡ content e.sha
  unfolding entries_content
  one_entry e = append-nil _

  tree_content-shalist_from :
      (vlen ofs : ℕ) (l : List (Entry Sha))
      → tree_content (shalist_from vlen ofs l) ≡ entries_content l
  unfolding entries_content shalist_from
  tree_content-shalist_from vlen ofs [] = refl
  tree_content-shalist_from vlen ofs (e ∷ l) =
      ap (λ (t : List C). content e.sha ++ t) (tree_content-shalist_from vlen (ofs + e.size) l)

  tree_content-make_shalist :
      (l : List (Entry Sha)) → tree_content (make_shalist l).0 ≡ entries_content l
  unfolding make_shalist
  tree_content-make_shalist l = tree_content-shalist_from (length (hex (total_size l))) 0 l

  module _ (maketree : List (TreeEntry Sha) → Sha)
      (reads_tree : (l : List (TreeEntry Sha))
        → content (maketree l) ≡ tree_content (sorted_entries l)) where
    reads_shalist :
        (l : List (Entry Sha))
        → IsPositive l
        → content (maketree (make_shalist l).0) ≡ entries_content l
    reads_shalist l h =
        reads_tree (make_shalist l).0
        ∙ (ap tree_content (sorted_entries-make_shalist l h) ∙ tree_content-make_shalist l)

    entries_content-carried :
        (stack : List (Entry Sha))
        → IsPositive stack
        → entries_content (carried maketree stack) ≡ entries_content stack
    unfolding carried entries_content
    entries_content-carried [] h = refl
    entries_content-carried (e ∷ []) h = refl
    entries_content-carried (e ∷ f ∷ l) h = append-nil _ ∙ reads_shalist (e ∷ f ∷ l) h

    emptied : (rest : List (List (Entry Sha))) → stacks_content ([] ∷ rest) ≡ stacks_content rest
    unfolding stacks_content entries_content
    emptied rest = append-nil _

    one_stack :
        (stack : List (Entry Sha))
        → IsPositive stack
        → stacks_content (carried maketree stack ∷ []) ≡ stacks_content (stack ∷ [])
    unfolding stacks_content
    one_stack stack h = entries_content-carried stack h

    handed_on :
        (stack next : List (Entry Sha)) (above : List (List (Entry Sha)))
        → IsPositive stack
        → stacks_content ((next ++ carried maketree stack) ∷ above)
          ≡ stacks_content (stack ∷ next ∷ above)
    unfolding stacks_content
    handed_on stack next above h =
        rw (entries_content-append next (carried maketree stack), entries_content-carried stack h)
          (sym (append_assoc (stacks_content above) (entries_content next) (entries_content stack)))

    stacks_content-squish_loop :
        (fuel n : ℕ) (stack : List (Entry Sha)) (above : List (List (Entry Sha)))
        → IsPositive stack
        → All IsPositive above
        → stacks_content (squish_loop maketree fuel n stack above) ≡ stacks_content (stack ∷ above)
    stacks_content-squish_loop zero n stack above h hs = unfold squish_loop in refl
    stacks_content-squish_loop (suc fuel) n stack [] h hs =
        elim (Bool-cases (goes_on maketree n stack)) [
          | inr stop ↦ rw (squish_loop-stop maketree fuel n stack [] stop)
          | inl go ↦ rw (squish_loop-new maketree fuel n stack go) (
              emptied _
              ∙ (stacks_content-squish_loop fuel (n - 1) (carried maketree stack) []
                    (carried-IsPositive maketree stack h) tt
                  ∙ one_stack stack h))
        ]
    stacks_content-squish_loop (suc fuel) n stack (next ∷ above) h (k, hs) =
        elim (Bool-cases (goes_on maketree n stack)) [
          | inr stop ↦ rw (squish_loop-stop maketree fuel n stack (next ∷ above) stop)
          | inl go ↦ rw (squish_loop-next maketree fuel n stack next above go) (
              emptied _
              ∙ (stacks_content-squish_loop fuel (n - 1) (next ++ carried maketree stack) above
                    (IsPositive-append next (carried maketree stack) k
                      (carried-IsPositive maketree stack h))
                    hs
                  ∙ handed_on stack next above h))
        ]

    stacks_content-squish :
        (stacks : List (List (Entry Sha))) (n : ℕ)
        → All IsPositive stacks
        → stacks_content (squish maketree stacks n) ≡ stacks_content stacks
    unfolding squish
    stacks_content-squish [] n h = refl
    stacks_content-squish (stack ∷ above) n (h, hs) =
        stacks_content-squish_loop (rounds maketree n above) n stack above h hs

    -- The loop leaves a stack at least.
    squish_loop-ne-nil :
        (fuel n : ℕ) (stack : List (Entry Sha)) (above : List (List (Entry Sha)))
        → squish_loop maketree fuel n stack above ≢ []
    unfolding squish_loop
    squish_loop-ne-nil zero n stack above e = cc
    squish_loop-ne-nil (suc fuel) n stack [] e = ground arith
    squish_loop-ne-nil (suc fuel) n stack (next ∷ above) e = ground arith

    last_stack-emptied :
        (rest : List (List (Entry Sha)))
        → rest ≢ []
        → last_stack maketree ([] ∷ rest) ≡ last_stack maketree rest
    unfolding last_stack
    last_stack-emptied [] h = absurd (h refl)
    last_stack-emptied (stack ∷ rest) h = refl

    -- Passing every stack but the last gathers all in the last.
    content_in_last :
        (fuel n : ℕ) (stack : List (Entry Sha)) (above : List (List (Entry Sha)))
        → length above ≤ n
        → length above ≤ fuel
        → entries_content (last_stack maketree (squish_loop maketree fuel n stack above))
          ≡ stacks_content (squish_loop maketree fuel n stack above)
    content_in_last zero n stack [] h hf = unfold squish_loop last_stack stacks_content in refl
    content_in_last zero n stack (next ∷ above) h hf = absurd (omega arith)
    content_in_last (suc fuel) n stack [] h hf = elim (Bool-cases (goes_on maketree n stack)) [
      | inr stop ↦
          rw (squish_loop-stop maketree fuel n stack [] stop)
            (unfold last_stack stacks_content in refl)
      | inl go ↦
          rw
            (
              squish_loop-new maketree fuel n stack go,
              last_stack-emptied _ (squish_loop-ne-nil fuel (n - 1) (carried maketree stack) []),
              emptied (squish_loop maketree fuel (n - 1) (carried maketree stack) []),
            )
            (content_in_last fuel (n - 1) (carried maketree stack) [] (omega arith) (omega arith))
    ]
    content_in_last (suc fuel) n stack (next ∷ above) h hf =
        let go : goes_on maketree n stack ≡ true = ground arith in
        rw
          (
            squish_loop-next maketree fuel n stack next above go,
            last_stack-emptied _
                (squish_loop-ne-nil fuel (n - 1) (next ++ carried maketree stack) above),
            emptied (squish_loop maketree fuel (n - 1) (next ++ carried maketree stack) above),
          )
          (content_in_last fuel (n - 1) (next ++ carried maketree stack) above (omega arith)
            (omega arith))

    content_in_last_stack :
        (stacks : List (List (Entry Sha)))
        → All IsPositive stacks
        → entries_content (last_stack maketree (squish maketree stacks (length stacks - 1)))
          ≡ stacks_content stacks
    unfolding squish
    content_in_last_stack [] h = unfold last_stack entries_content stacks_content in refl
    content_in_last_stack (stack ∷ above) (h, hs) =
        content_in_last (rounds maketree (suc (length above) - 1) above) (suc (length above) - 1)
          stack above (omega arith) (omega arith)
        ∙ stacks_content-squish_loop (rounds maketree (suc (length above) - 1) above)
            (suc (length above) - 1) stack above h hs

    module _ {Blob : Type 0} (makeblob : Blob → Sha) (size_of : Blob → ℕ) (bytes_of : Blob → List C)
        (reads_blob : (b : Blob) → content (makeblob b) ≡ bytes_of b) where
      -- The bytes that the splitter delivers.
      abbrev pub input : List (Blob × ℕ) → List C
      input [] = []
      input ((blob, level) ∷ splitter) = bytes_of blob ++ input splitter

      -- The splitter delivers blobs that have bytes.
      abbrev pub HasBytes : List (Blob × ℕ) → Type 0
      HasBytes = All (λ x. 0 < size_of x.0)

      stacks_content-append_first :
          (e : Entry Sha) (stacks : List (List (Entry Sha)))
          → stacks ≢ []
          → stacks_content (append_first maketree e stacks) ≡ stacks_content stacks ++ content e.sha
      unfolding append_first stacks_content
      stacks_content-append_first e [] h = absurd (h refl)
      stacks_content-append_first e (stack ∷ above) h =
          rw (entries_content-append stack (e ∷ []), one_entry e)
            (sym (append_assoc (stacks_content above) (entries_content stack) (content e.sha)))

      squished-ne-nil :
          (e : Entry Sha) (stacks : List (List (Entry Sha))) (n : ℕ)
          → stacks ≢ []
          → squish maketree (append_first maketree e stacks) n ≢ []
      unfolding squish append_first
      squished-ne-nil e [] n h = absurd (h refl)
      squished-ne-nil e (stack ∷ above) n h =
          squish_loop-ne-nil (rounds maketree n above) n (stack ++ e ∷ []) above

      stack_loop-IsPositive :
          (splitter : List (Blob × ℕ)) (stacks : List (List (Entry Sha)))
          → HasBytes splitter
          → All IsPositive stacks
          → All IsPositive (stack_loop maketree makeblob size_of splitter stacks)
      unfolding stack_loop
      stack_loop-IsPositive [] stacks k h = h
      stack_loop-IsPositive ((blob, level) ∷ splitter) stacks (k, ks) h =
          let e : Entry Sha = record {
            mode = git_mode_file;
            sha = makeblob blob;
            size = size_of blob;
          } in
          stack_loop-IsPositive splitter (squish maketree (append_first maketree e stacks) level) ks
            (squish-IsPositive maketree (append_first maketree e stacks) level
              (append_first-IsPositive maketree e stacks k h))

      stacks_content-stack_loop :
          (splitter : List (Blob × ℕ)) (stacks : List (List (Entry Sha)))
          → stacks ≢ []
          → HasBytes splitter
          → All IsPositive stacks
          → stacks_content (stack_loop maketree makeblob size_of splitter stacks)
            ≡ stacks_content stacks ++ input splitter
      unfolding stack_loop
      stacks_content-stack_loop [] stacks h k p = sym (append-nil _)
      stacks_content-stack_loop ((blob, level) ∷ splitter) stacks h (k, ks) p =
          let e : Entry Sha = record {
            mode = git_mode_file;
            sha = makeblob blob;
            size = size_of blob;
          } in
          let positive = append_first-IsPositive maketree e stacks k p in
          stacks_content-stack_loop splitter
            (squish maketree (append_first maketree e stacks) level)
            (squished-ne-nil e stacks level h) ks
            (squish-IsPositive maketree (append_first maketree e stacks) level positive)
          ∙ rw
              (
                stacks_content-squish (append_first maketree e stacks) level positive,
                stacks_content-append_first e stacks h,
                reads_blob blob,
              )
              (append_assoc (stacks_content stacks) (bytes_of blob) (input splitter))

      -- The entries behind the tree of a file have bytes.
      top : List (Blob × ℕ) → List (Entry Sha)
      top splitter =
          let stacks = stack_loop maketree makeblob size_of splitter ([] ∷ []) in
          last_stack maketree (squish maketree stacks (length stacks - 1))

      top-IsPositive : (splitter : List (Blob × ℕ)) → HasBytes splitter → IsPositive (top splitter)
      unfolding top
      top-IsPositive splitter k =
          let stacks = stack_loop maketree makeblob size_of splitter ([] ∷ []) in
          last_stack-IsPositive maketree (squish maketree stacks (length stacks - 1)) (
            squish-IsPositive maketree stacks (length stacks - 1)
              (stack_loop-IsPositive splitter ([] ∷ []) k (tt, tt)))

      -- Reading the entries of the tree that a file was split into gives the bytes of its blobs, in
      -- their order.
      tree_content-split_to_shalist :
          (splitter : List (Blob × ℕ))
          → HasBytes splitter
          → tree_content (split_to_shalist maketree makeblob size_of splitter) ≡ input splitter
      unfolding split_to_shalist
      tree_content-split_to_shalist splitter k =
          let stacks : List (List (Entry Sha)) =
            stack_loop maketree makeblob size_of splitter ([] ∷ []) in
          tree_content-make_shalist _
          ∙ (content_in_last_stack stacks (stack_loop-IsPositive splitter ([] ∷ []) k (tt, tt))
              ∙ (stacks_content-stack_loop splitter ([] ∷ []) (λ e. cc) k (tt, tt)
                  ∙ unfold stacks_content entries_content in refl))

      read_blob_or_tree :
          (empty : Blob) (shalist : List (TreeEntry Sha))
          → bytes_of empty ≡ []
          → sorted_entries shalist ≡ shalist
          → content (blob_or_tree maketree makeblob size_of empty shalist).1 ≡ tree_content shalist
      unfolding blob_or_tree
      read_blob_or_tree empty [] h s = reads_blob empty ∙ h
      read_blob_or_tree empty (e ∷ []) h s = sym (append-nil _)
      read_blob_or_tree empty (e ∷ f ∷ shalist) h s =
          reads_tree (e ∷ f ∷ shalist) ∙ ap tree_content s

      -- If a blob's id reads as its bytes, a tree's as those of its entries in git's order, which
      -- is that of the names with a slash behind a directory's, the empty blob has no bytes, and
      -- every blob of the splitter has one at least, then the object that a file was split into, a
      -- blob or a tree of trees, reads as the bytes of the splitter's blobs in their order,
      -- whatever their levels.
      pub content-split_to_blob_or_tree :
          (empty : Blob) (splitter : List (Blob × ℕ))
          → bytes_of empty ≡ []
          → HasBytes splitter
          → content (split_to_blob_or_tree maketree makeblob size_of empty splitter).1
            ≡ input splitter
      unfolding split_to_blob_or_tree split_to_shalist top
      content-split_to_blob_or_tree empty splitter h k =
          read_blob_or_tree empty (split_to_shalist maketree makeblob size_of splitter) h
            (sorted_entries-make_shalist (top splitter) (top-IsPositive splitter k))
          ∙ tree_content-split_to_shalist splitter k
