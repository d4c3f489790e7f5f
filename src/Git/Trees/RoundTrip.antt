-- ===== src/Git/Trees/RoundTrip.antt =====
-- `tree_entries` reads what `tree_encode` writes.
use bup.Base.{
  ℕ, zero, suc, ◌+◌, ◌≤◌, ◌<◌, ◌≡◌, ◌≢◌, refl, arith, true, false, List, [], ◌∷◌, ◌++◌, ltb, length,
  All, Bool-cases, inl, inr, append_assoc, length-append,
}
use bup.Base.Lex.{bytes_lt}
use bup.Base.Error.{Result, ok, ◌>>=◌}
use bup.Git.Trees.{
  TreeEntry, shalist_item_sort_key, insert_sorted, sorted, octal, encode_entry, encode_entries,
  tree_encode, find_from, read_entry, entries_after, entries_loop, tree_entries,
}
use bup.Git.Trees.Parts.{
  All-append, All-not_nul, octal-other, int_8-octal, tree_data, find_nul, find_blank, mode_part,
  name_part, oid_part,
}

-- An entry that git can hold.
pub record IsEntry (ent : TreeEntry) : Type 0 where
  pub some_mode : 0 < ent.mode
  pub some_name : 0 < length ent.name
  pub no_nul : All (λ c. 0 < c) ent.name
  pub oid_length : length ent.oid ≡ 20

unfoldable pub entry_bytes : TreeEntry → List ℕ
entry_bytes ent = octal ent.mode ++ (b' ' ∷ (ent.name ++ (0 ∷ ent.oid)))

unfoldable pub all_bytes : List TreeEntry → List ℕ
all_bytes [] = []
all_bytes (ent ∷ l) = entry_bytes ent ++ all_bytes l

encode_entry_lem : (ent : TreeEntry) → IsEntry ent → encode_entry ent ≡ ok (entry_bytes ent)
unfolding encode_entry entry_bytes
encode_entry_lem ent good = ground (arith, good.some_mode, good.some_name, good.oid_length)

pub encode_entries_lem : (l : List TreeEntry) → All IsEntry l → encode_entries l ≡ ok (all_bytes l)
unfolding encode_entries all_bytes
encode_entries_lem [] h = refl
encode_entries_lem (ent ∷ l) (h, hs) = rw (encode_entry_lem ent h, encode_entries_lem l hs)

module _ (front back : List ℕ) (ent : TreeEntry) (good : IsEntry ent) where
  pub blank_free : All (λ b. b ≢ b' ') (octal ent.mode)
  blank_free = octal-other b' ' ent.mode (omega arith)

  pub nul_free : All (λ b. b ≢ 0) (octal ent.mode ++ (b' ' ∷ ent.name))
  nul_free =
      All-append (λ b. b ≢ 0) (octal ent.mode) (b' ' ∷ ent.name)
        (octal-other 0 ent.mode (omega arith))
        ((λ e. omega arith), All-not_nul ent.name good.no_nul)

  unfoldable pub whole : List ℕ
  whole = tree_data front (octal ent.mode) ent.name ent.oid back good.oid_length blank_free nul_free

  unfoldable pub nul_at : ℕ
  nul_at = length front + (length (octal ent.mode) + 1 + length ent.name)

  entries_after-whole :
      (more : ℕ → Result (List TreeEntry))
      → entries_after whole (length front) (find_from 0 whole (length front)) more
        ≡ (do result ← more (nul_at + 21); ok (ent ∷ result))
  unfolding entries_after read_entry whole nul_at
  entries_after-whole more =
      let later : ltb (length front)
            (length front + (length (octal ent.mode) + 1 + length ent.name))
          ≡ true =
        ground arith in
      rw (
        find_nul front (octal ent.mode) ent.name ent.oid back good.oid_length blank_free nul_free,
        later,
        find_blank front (octal ent.mode) ent.name ent.oid back good.oid_length blank_free nul_free,
        mode_part front (octal ent.mode) ent.name ent.oid back good.oid_length blank_free nul_free,
        name_part front (octal ent.mode) ent.name ent.oid back good.oid_length blank_free nul_free,
        oid_part front (octal ent.mode) ent.name ent.oid back good.oid_length blank_free nul_free,
        int_8-octal ent.mode,
      )

  pub whole-eq : whole ≡ front ++ (entry_bytes ent ++ back)
  unfolding whole tree_data entry_bytes
  whole-eq = simp append_assoc

  pub length-entry_bytes : length front + length (entry_bytes ent) ≡ nul_at + 21
  unfolding entry_bytes nul_at
  length-entry_bytes = omega (
    arith,
    length-append (octal ent.mode) (b' ' ∷ (ent.name ++ (0 ∷ ent.oid))),
    length-append ent.name (0 ∷ ent.oid),
    good.oid_length,
  )

pub some_bytes : (ent : TreeEntry) → 0 < length (entry_bytes ent)
unfolding entry_bytes
some_bytes ent = omega (arith, length-append (octal ent.mode) (b' ' ∷ (ent.name ++ (0 ∷ ent.oid))))

entries_loop_lem :
    (fuel : ℕ) (front : List ℕ) (l : List TreeEntry)
    → All IsEntry l
    → length l ≤ fuel
    → entries_loop fuel (front ++ all_bytes l) (length front) ≡ ok l
unfolding entries_loop all_bytes
entries_loop_lem zero front [] h k = refl
entries_loop_lem (suc fuel) front [] h k =
    let done : ltb (length front) (length (front ++ [])) ≡ false =
      ground (arith, length-append front []) in
    rw done
entries_loop_lem zero front (ent ∷ l) h k = absurd (omega arith)
entries_loop_lem (suc fuel) front (ent ∷ l) (good, h) k =
    let more : ltb (length front) (length (front ++ (entry_bytes ent ++ all_bytes l))) ≡ true =
      ground (
        arith,
        length-append front (entry_bytes ent ++ all_bytes l),
        length-append (entry_bytes ent) (all_bytes l),
        some_bytes ent,
      ) in
    rw (
      more,
      ← whole-eq front (all_bytes l) ent good,
      entries_after-whole front (all_bytes l) ent good
          (entries_loop fuel (whole front (all_bytes l) ent good)),
      whole-eq front (all_bytes l) ent good,
      ← length-entry_bytes front (all_bytes l) ent good,
      ← length-append front (entry_bytes ent),
      ← append_assoc front (entry_bytes ent) (all_bytes l),
      entries_loop_lem fuel (front ++ entry_bytes ent) l h (omega arith),
    )

pub length-all_bytes : (l : List TreeEntry) → length l ≤ length (all_bytes l)
unfolding all_bytes
length-all_bytes [] = omega arith
length-all_bytes (ent ∷ l) =
    omega (arith, length-append (entry_bytes ent) (all_bytes l), some_bytes ent, length-all_bytes l)

insert_sorted-All :
    (ent : TreeEntry) (l : List TreeEntry)
    → IsEntry ent
    → All IsEntry l
    → All IsEntry (insert_sorted ent l)
unfolding insert_sorted
insert_sorted-All ent [] good h = (good, tt)
insert_sorted-All ent (next ∷ l) good (g, h) =
    elim (Bool-cases (bytes_lt (shalist_item_sort_key next) (shalist_item_sort_key ent))) [
      | inl further ↦ rw further (g, insert_sorted-All ent l good h)
      | inr here ↦ rw here (good, (g, h))
    ]

pub sorted-All : (l : List TreeEntry) → All IsEntry l → All IsEntry (sorted l)
unfolding sorted
sorted-All [] h = tt
sorted-All (ent ∷ l) (good, h) = insert_sorted-All ent (sorted l) good (sorted-All l h)

-- tree_entries returns what tree_encode encoded, in the order of its sort, for entries with a mode,
-- a name that is not empty and has no NUL, and an oid of 20 bytes.
pub tree_entries-tree_encode :
    (shalist : List TreeEntry)
    → All IsEntry shalist
    → (do tree_data ← tree_encode shalist; tree_entries tree_data) ≡ ok (sorted shalist)
unfolding tree_encode tree_entries
tree_entries-tree_encode shalist h =
    rw (encode_entries_lem (sorted shalist) (sorted-All shalist h)) (
      entries_loop_lem (length (all_bytes (sorted shalist))) [] (sorted shalist)
        (sorted-All shalist h) (length-all_bytes (sorted shalist)))
