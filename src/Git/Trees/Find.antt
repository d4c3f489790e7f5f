-- ===== src/Git/Trees/Find.antt =====
-- `find_tree_entry` finds what a search through all entries finds.
use bup.Base.{
  ℕ, zero, suc, ◌+◌, ◌≤◌, ◌≡◌, refl, sym, ap, ◌∙◌, arith, true, false, ◌||◌, Option, none, some,
  List, [], ◌∷◌, ◌++◌, ltb, length, if◌then◌else◌, All, Bool-cases, inl, inr, append_assoc,
  length-append, bytes_eq, bytes_eq→eq,
}
use bup.Base.Bytes.{ends_with, ends_with-append}
use bup.Base.Lex.{bytes_lt, bytes_lt_irrefl, bytes_lt_trans, bytes_lt_connex}
use bup.Base.Error.{Result, ok, err, assertion_error, ◌>>=◌}
use bup.Git.Names.{s_isdir}
use bup.Git.Trees.{
  TreeEntry, shalist_item_sort_key, insert_sorted, sorted, octal, tree_encode, find_from,
  read_entry, name_before, found_entry, find_after, find_loop, find_tree_entry,
}
use bup.Git.Trees.Parts.{int_8-octal, find_nul, find_blank, mode_part, name_part, oid_part}
use bup.Git.Trees.RoundTrip.{
  IsEntry, entry_bytes, all_bytes, encode_entries_lem, some_bytes, length-all_bytes, sorted-All,
  blank_free, nul_free, whole, nul_at, whole-eq, length-entry_bytes,
}
use bup.Git.Trees.Order.{Precedes, IsSorted, sorted-IsSorted}

-- The first entry of that name.
pub entry_named : List ℕ → List TreeEntry → Option TreeEntry
entry_named named [] = none
entry_named named (ent ∷ l) =
    let rest = entry_named named l in if bytes_eq ent.name named then some ent else rest

-- The search of the code, on entries.
search : List ℕ → List TreeEntry → Option TreeEntry
search named [] = none
search named (ent ∷ l) =
    let rest = search named l in
    if bytes_eq ent.name named || bytes_eq ent.name (named ++ b'/' ∷ [])
    then some ent
    else if bytes_lt (named ++ b'/' ∷ []) ent.name
    then none
    else rest

module _ (front back : List ℕ) (ent : TreeEntry) (good : IsEntry ent) where
  find_after-whole :
      (named : List ℕ) (more : ℕ → Result (Option TreeEntry))
      → find_after named
          (whole front back ent good)
          (length front)
          (find_from 0 (whole front back ent good) (length front))
          more
        ≡ (if bytes_eq ent.name named || bytes_eq ent.name (named ++ b'/' ∷ [])
            then ok (some ent)
            else if bytes_lt (named ++ b'/' ∷ []) ent.name
            then ok none
            else more (nul_at front back ent good + 21))
  unfolding find_after name_before found_entry read_entry whole nul_at
  find_after-whole named more =
      let later : ltb (length front)
            (length front + (length (octal ent.mode) + 1 + length ent.name))
          ≡ true =
        ground arith in
      let blank = blank_free front back ent good in
      let nul = nul_free front back ent good in
      rw (
        find_nul front (octal ent.mode) ent.name ent.oid back good.oid_length blank nul,
        later,
        find_blank front (octal ent.mode) ent.name ent.oid back good.oid_length blank nul,
        mode_part front (octal ent.mode) ent.name ent.oid back good.oid_length blank nul,
        name_part front (octal ent.mode) ent.name ent.oid back good.oid_length blank nul,
        oid_part front (octal ent.mode) ent.name ent.oid back good.oid_length blank nul,
        int_8-octal ent.mode,
      )

find_loop_lem :
    (fuel : ℕ) (front : List ℕ) (l : List TreeEntry) (named : List ℕ)
    → All IsEntry l
    → length l ≤ fuel
    → find_loop fuel named (front ++ all_bytes l) (length front) ≡ ok (search named l)
unfolding find_loop all_bytes search
find_loop_lem zero front [] named h k = refl
find_loop_lem (suc fuel) front [] named h k =
    let done : ltb (length front) (length (front ++ [])) ≡ false =
      ground (arith, length-append front []) in
    rw done
find_loop_lem zero front (ent ∷ l) named h k = absurd (omega arith)
find_loop_lem (suc fuel) front (ent ∷ l) named (good, h) k =
    let more : ltb (length front) (length (front ++ (entry_bytes ent ++ all_bytes l))) ≡ true =
      ground (
        arith,
        length-append front (entry_bytes ent ++ all_bytes l),
        length-append (entry_bytes ent) (all_bytes l),
        some_bytes ent,
      ) in
    rw
      (
        more,
        ← whole-eq front (all_bytes l) ent good,
        find_after-whole front (all_bytes l) ent good named
            (find_loop fuel named (whole front (all_bytes l) ent good)),
        whole-eq front (all_bytes l) ent good,
        ← length-entry_bytes front (all_bytes l) ent good,
        ← length-append front (entry_bytes ent),
        ← append_assoc front (entry_bytes ent) (all_bytes l),
        find_loop_lem fuel (front ++ entry_bytes ent) l named h (omega arith),
      )
      (ground arith)

-- Bytes behind the greater of two keep it greater.
bytes_lt-append : (a b c : List ℕ) → bytes_lt a b ≡ true → bytes_lt a (b ++ c) ≡ true
unfolding bytes_lt
bytes_lt-append [] [] c h = absurd (ground (arith, h))
bytes_lt-append [] (y ∷ b) c h = refl
bytes_lt-append (x ∷ a) [] c h = absurd (ground (arith, h))
bytes_lt-append (x ∷ a) (y ∷ b) c h = ground (arith, bytes_lt-append a b c, h)

bytes_lt-prefix : (a b : List ℕ) → bytes_lt (a ++ b) a ≡ false
unfolding bytes_lt
bytes_lt-prefix [] [] = refl
bytes_lt-prefix [] (y ∷ b) = refl
bytes_lt-prefix (x ∷ a) b = ground (arith, bytes_lt-prefix a b)

module _ (named : List ℕ) where
  dirname : List ℕ
  dirname = named ++ b'/' ∷ []

  -- Behind both names of the entry.
  abbrev IsBeyond : TreeEntry → Type 0
  IsBeyond ent = bytes_lt dirname (shalist_item_sort_key ent) ≡ true

  IsBeyond-name : (ent : TreeEntry) → bytes_lt dirname ent.name ≡ true → IsBeyond ent
  unfolding shalist_item_sort_key
  IsBeyond-name ent h = elim (Bool-cases (s_isdir ent.mode)) [
    | inl dir ↦ rw dir (bytes_lt-append dirname ent.name (b'/' ∷ []) h)
    | inr other ↦ rw other h
  ]

  IsBeyond-Precedes :
      (ent next : TreeEntry) (l : List TreeEntry)
      → IsBeyond ent
      → Precedes ent (next ∷ l)
      → IsBeyond next
  IsBeyond-Precedes ent next l h p =
      elim (Bool-cases (bytes_lt dirname (shalist_item_sort_key next))) [
        | inl beyond ↦ beyond
        | inr not_beyond ↦ elim (Bool-cases (bytes_lt (shalist_item_sort_key next) dirname)) [
          | inl less ↦ ground (
            arith,
            p,
            bytes_lt_trans (shalist_item_sort_key next) dirname (shalist_item_sort_key ent) less h,
          )
          | inr not_less ↦
              let same : dirname ≡ shalist_item_sort_key next =
                bytes_lt_connex dirname (shalist_item_sort_key next) not_beyond not_less in
              ground (arith, p, h, ap (λ t. bytes_lt t (shalist_item_sort_key ent)) same)
        ]
      ]

  IsBeyond-other : (ent : TreeEntry) → IsBeyond ent → bytes_eq ent.name named ≡ false
  unfolding shalist_item_sort_key dirname
  IsBeyond-other ent h = elim (Bool-cases (bytes_eq ent.name named)) [
    | inr other ↦ other
    | inl same ↦
        let at_name = bytes_eq→eq ent.name named same in
        elim (Bool-cases (s_isdir ent.mode)) [
          | inl dir ↦
              let key : bytes_lt (named ++ b'/' ∷ []) (named ++ b'/' ∷ []) ≡ true =
                sym (rw (dir, at_name)) ∙ h in
              absurd (ground (arith, key, bytes_lt_irrefl (named ++ b'/' ∷ [])))
          | inr file ↦
              let key : bytes_lt (named ++ b'/' ∷ []) named ≡ true = sym (rw (file, at_name)) ∙ h in
              absurd (ground (arith, key, bytes_lt-prefix named (b'/' ∷ [])))
        ]
  ]

  entry_named-beyond :
      (ent : TreeEntry) (l : List TreeEntry)
      → IsBeyond ent
      → IsSorted (ent ∷ l)
      → entry_named named (ent ∷ l) ≡ none
  unfolding entry_named
  entry_named-beyond ent [] h s = rw (IsBeyond-other ent h)
  entry_named-beyond ent (next ∷ l) h (p, s) =
      rw (IsBeyond-other ent h) (entry_named-beyond next l (IsBeyond-Precedes ent next l h p) s)

  abbrev NoSlash : TreeEntry → Type 0
  NoSlash ent = ends_with ent.name (b'/' ∷ []) ≡ false

  not_dirname : (ent : TreeEntry) → NoSlash ent → bytes_eq ent.name dirname ≡ false
  unfolding dirname
  not_dirname ent h = elim (Bool-cases (bytes_eq ent.name dirname)) [
    | inr other ↦ other
    | inl same ↦ absurd (
        ground (
          arith,
          h,
          ends_with-append named (b'/' ∷ []),
          ap (λ t. ends_with t (b'/' ∷ [])) (bytes_eq→eq ent.name dirname same),
        ))
  ]

  search-entry_named :
      (l : List TreeEntry) → All NoSlash l → IsSorted l → search named l ≡ entry_named named l
  unfolding search entry_named dirname
  search-entry_named [] h s = refl
  search-entry_named (ent ∷ l) (n, h) (p, s) = elim (Bool-cases (bytes_eq ent.name named)) [
    | inl same ↦ rw same
    | inr other ↦ elim (Bool-cases (bytes_lt dirname ent.name)) [
      | inl beyond ↦
          rw (other, not_dirname ent n, beyond)
            (sym (sym (rw other) ∙ entry_named-beyond ent l (IsBeyond-name ent beyond) (p, s)))
      | inr before ↦ rw (other, not_dirname ent n, before) (search-entry_named l h s)
    ]
  ]

insert_sorted_keeps :
    (P : TreeEntry → Type 0) (ent : TreeEntry) (l : List TreeEntry)
    → P ent
    → All P l
    → All P (insert_sorted ent l)
unfolding insert_sorted
insert_sorted_keeps P ent [] p h = (p, tt)
insert_sorted_keeps P ent (next ∷ l) p (n, h) =
    elim (Bool-cases (bytes_lt (shalist_item_sort_key next) (shalist_item_sort_key ent))) [
      | inl further ↦ rw further (n, insert_sorted_keeps P ent l p h)
      | inr here ↦ rw here (p, (n, h))
    ]

sorted_keeps : (P : TreeEntry → Type 0) (l : List TreeEntry) → All P l → All P (sorted l)
unfolding sorted
sorted_keeps P [] h = tt
sorted_keeps P (ent ∷ l) (p, h) = insert_sorted_keeps P ent (sorted l) p (sorted_keeps P l h)

-- For entries that git can hold, whose names do not end in a slash, find_tree_entry on the bytes of
-- their tree returns the first entry of the sorted tree that has the name, or None if none has it,
-- although it stops at a greater name; it raises nothing, except an AssertionError for a name that
-- ends in a slash.
pub find_tree_entry-tree_encode :
    (named : List ℕ) (shalist : List TreeEntry)
    → All IsEntry shalist
    → All (λ ent. ends_with ent.name (b'/' ∷ []) ≡ false) shalist
    → (do tree_data ← tree_encode shalist; find_tree_entry named tree_data) ≡ (
        if ends_with named (b'/' ∷ [])
        then err assertion_error
        else ok (entry_named named (sorted shalist)))
unfolding tree_encode find_tree_entry
find_tree_entry-tree_encode named shalist h n =
    rw (encode_entries_lem (sorted shalist) (sorted-All shalist h))
      (elim (Bool-cases (ends_with named (b'/' ∷ []))) [
        | inl slash ↦ rw slash
        | inr plain ↦ rw plain (
            find_loop_lem (length (all_bytes (sorted shalist))) [] (sorted shalist) named
              (sorted-All shalist h) (length-all_bytes (sorted shalist))
            ∙ ap ok (
                search-entry_named named (sorted shalist)
                  (sorted_keeps (λ ent. ends_with ent.name (b'/' ∷ []) ≡ false) shalist n)
                  (sorted-IsSorted shalist)))
      ])
