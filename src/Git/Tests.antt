-- ===== src/Git/Tests.antt =====
-- Names and a small pack index, and the theorems on them.
use mathlib.Core.Path.{◌≡◌, refl}
use bup.Base.{
  if◌then◌else◌, ℕ, zero, suc, ◌+◌, ◌*◌, ◌↔◌, ◌<◌, ◌≤◌, true, some, List, [], ◌∷◌, get_elem?, arith,
}
use bup.Base.Bytes.{ascii}
use bup.Base.Error.{ok, ◌>>=◌}
use bup.Base.Lex.{bytes_lt, IsRising}
use bup.Git.Names.{mangle_name, demangle_name, bup_chunked, demangle-mangle}
use bup.Git.PackIdx.{PackIdx, fanout_at, fanout_before, or_index_error, exists}
use bup.Git.PackIdx.Search.{IsIndexOf, first_byte, Locates, exists-Locates}
use bup.Base.{All, Bool, ltb, ◌&&◌}
use bup.Base.Int.{pos}
use bup.Git.PackIdxList.{PackIdxList, idx}
use bup.Git.PackIdxList
use bup.Git.PackIdxList.Says.{Contents}
use bup.Git.PackIdxList.Found.{IsAnswer, exists-Found}
use mathlib.Core.List.{Perm}
use bup.Git.PackObj.{is_level, type_bits, encode_packobj, decode_packobj}
use bup.Git.PackObj.RoundTrip.{decode_packobj-encode_packobj}
use bup.Base.Error.{err, value_error}
use bup.Git.Trees.{TreeEntry, tree_encode, tree_entries, sorted}
use bup.Base.Bytes.{ends_with}
use bup.Base.Error.{assertion_error}
use bup.Git.Trees.{find_tree_entry}
use bup.Git.Trees.Find.{entry_named, find_tree_entry-tree_encode}
use bup.Git.Trees.RoundTrip.{IsEntry, tree_entries-tree_encode}
use bup.Git.Trees.Order.{IsInGitOrder, sorted-IsInGitOrder}

-- A regular file that was split.
demangle-mangle_example :
    (do mangled ← mangle_name (ascii "big.bup") 0o100644 0o040000; demangle_name mangled 0o040000)
    ≡ ok (ascii "big.bup", bup_chunked)
demangle-mangle_example = demangle-mangle (ascii "big.bup") 0o100644 0o040000 0o040000 (λ e. refl)

-- Oids of 20 bytes that differ in the first.
abbrev oid_at : ℕ → List ℕ
oid_at zero = 0 ∷ 7 ∷ 7 ∷ 7 ∷ 7 ∷ 7 ∷ 7 ∷ 7 ∷ 7 ∷ 7 ∷ 7 ∷ 7 ∷ 7 ∷ 7 ∷ 7 ∷ 7 ∷ 7 ∷ 7 ∷ 7 ∷ 7 ∷ []
oid_at (suc i) = 1 ∷ 7 ∷ 7 ∷ 7 ∷ 7 ∷ 7 ∷ 7 ∷ 7 ∷ 7 ∷ 7 ∷ 7 ∷ 7 ∷ 7 ∷ 7 ∷ 7 ∷ 7 ∷ 7 ∷ 7 ∷ 7 ∷ 7 ∷ []

abbrev filled : ℕ → List ℕ
filled zero = 0 ∷ []
filled (suc n) = 2 ∷ filled n

abbrev two_oids : PackIdx
two_oids = record {
  name = ascii "objects/pack/pack-1.idx";
  fanout = 1 ∷ filled 255;
  ofs_from_idx = λ i. ok (12 + i * 5);
  idx_to_hash = λ i. ok (oid_at i);
}

get_elem?-filled : (n i : ℕ) → i < n → get_elem? (filled n) i ≡ some 2
get_elem?-filled zero i h = absurd (omega arith)
get_elem?-filled (suc n) zero h = refl
get_elem?-filled (suc n) (suc i) h = get_elem?-filled n i (omega arith)

two_oids-IsRising : IsRising oid_at 2
unfolding bytes_lt
two_oids-IsRising zero zero h k = absurd (omega arith)
two_oids-IsRising zero (suc j) h k = refl
two_oids-IsRising (suc i) j h k = absurd (omega arith)

two_oids-counts :
    (b : ℕ)
    → b < 256
    → (c : ℕ) × (fanout_at two_oids.fanout b ≡ ok c)
      × (c ≤ 2)
      × ((i : ℕ) → i < 2 → (i < c) ↔ (first_byte (oid_at i) ≤ b))
unfolding fanout_at or_index_error
two_oids-counts zero h = (1, refl, omega arith, λ i hi. first i)
  where
    first : (i : ℕ) → (i < 1) ↔ (first_byte (oid_at i) ≤ 0)
    first zero = (λ e. omega arith, λ e. omega arith)
    first (suc i) = (λ e. omega arith, λ e. omega arith)
two_oids-counts (suc b) h =
    (2, rw (get_elem?-filled 255 b (omega arith)), omega arith, λ i hi. (λ e. both i, λ e. hi))
  where
    both : (i : ℕ) → first_byte (oid_at i) ≤ suc b
    both zero = omega arith
    both (suc i) = omega arith

two_oids-IsIndexOf : IsIndexOf two_oids oid_at 2
unfolding fanout_before or_index_error
two_oids-IsIndexOf = record {
  rising = two_oids-IsRising;
  reads = λ i h. refl;
  counts = two_oids-counts;
  before_first = refl;
}

exists-Locates_example :
    Locates two_oids oid_at
      (λ i. 12 + i * 5)
      2
      (oid_at 1)
      true
      true
      (exists two_oids (oid_at 1) true true)
exists-Locates_example =
    exists-Locates two_oids oid_at (λ i. 12 + i * 5) 2 two_oids-IsIndexOf (λ i h. refl) (oid_at 1)
      true true refl (omega arith)

-- The index under two names, with a bloom filter that accepts all.
abbrev repository : PackIdxList (Unit {0})
repository = record {
  packs = idx two_oids ∷ idx (record two_oids { name = ascii "objects/pack/pack-2.idx" }) ∷ [];
  do_bloom = true;
  bloom = some tt;
}

abbrev contents : Contents
contents = record {
  oid_at = λ p i. oid_at i;
  count = λ p. 2;
  ofs_at = λ p i. 12 + i * 5;
  index_at = λ m i. two_oids;
  name_at = λ m i. ascii "pack-1.idx";
}

are_small : List ℕ → Bool
are_small [] = true
are_small (b ∷ oid) = ltb b 256 && are_small oid

oid_bytes : (oid : List ℕ) → are_small oid ≡ true → All (λ b. b < 256) oid
unfolding are_small
oid_bytes [] h = tt
oid_bytes (b ∷ oid) h = (ground arith, oid_bytes oid (ground arith))

exists-Found_example :
    IsAnswer {Bloom = Unit {0}}
      (λ b. 2)
      (λ b hash. true)
      (λ name. ok two_oids)
      contents
      (oid_at 1)
      true
      true
      repository.packs
      ((PackIdxList.exists
        (λ b. 2)
        (λ b hash. true)
        (λ name. ok two_oids)
        (oid_at 1)
        true
        true
        repository).0)
    × Perm repository.packs (
        (PackIdxList.exists
          (λ b. 2)
          (λ b hash. true)
          (λ name. ok two_oids)
          (oid_at 1)
          true
          true
          repository).1.packs)
unfolding are_small
exists-Found_example =
    exists-Found (λ b. 2) (λ b hash. true) (λ name. ok two_oids) contents (oid_at 1) true true
      repository (refl, oid_bytes (oid_at 1) refl)
      (
        (two_oids-IsIndexOf, λ i h. refl),
        (
          (
            record {
              rising = two_oids-IsRising;
              reads = λ i h. refl;
              counts = two_oids-counts;
              before_first = two_oids-IsIndexOf.before_first;
            },
            λ i h. refl,
          ),
          tt,
        ),
      )
      (λ b e r. cc)

-- The directory `a` comes behind the file `a.c`, because its key is `a/`.
abbrev two_entries : List TreeEntry
two_entries =
    record { mode = 0o40000; name = ascii "a"; oid = oid_at 0 }
    ∷ record { mode = 0o100644; name = ascii "a.c"; oid = oid_at 1 }
    ∷ []

two_entries-IsEntry : All IsEntry two_entries
two_entries-IsEntry = (
  record {
    some_mode = omega arith;
    some_name = omega arith;
    no_nul = (omega arith, tt);
    oid_length = refl;
  },
  (
    record {
      some_mode = omega arith;
      some_name = omega arith;
      no_nul = (omega arith, (omega arith, (omega arith, tt)));
      oid_length = refl;
    },
    tt,
  ),
)

tree_entries-tree_encode_example :
    (do tree_data ← tree_encode two_entries; tree_entries tree_data) ≡ ok (sorted two_entries)
tree_entries-tree_encode_example = tree_entries-tree_encode two_entries two_entries-IsEntry

sorted-IsInGitOrder_example :
    Perm two_entries (sorted two_entries) × IsInGitOrder (sorted two_entries)
sorted-IsInGitOrder_example = sorted-IsInGitOrder two_entries (
  ((omega arith, λ e. cc), tt),
  (((omega arith, λ e. cc), ((omega arith, λ e. cc), ((omega arith, λ e. cc), tt))), tt),
)

abbrev drop_mark : List ℕ → List ℕ
drop_mark [] = []
drop_mark (x ∷ xs) = xs

-- A compressor that marks its output.
decode_packobj-encode_packobj_example :
    (do
      buf ←
          encode_packobj
            (λ level content. 1 ∷ content)
            (λ bytes. ok (drop_mark bytes))
            (ascii "tree")
            (filled 40)
            (pos 1)
      decode_packobj (λ level content. 1 ∷ content) (λ bytes. ok (drop_mark bytes)) buf)
    ≡ (if is_level (pos 1)
        then (do bits ← type_bits (ascii "tree"); ok (ascii "tree", filled 40))
        else err value_error)
decode_packobj-encode_packobj_example =
    decode_packobj-encode_packobj (λ level content. 1 ∷ content) (λ bytes. ok (drop_mark bytes))
      (pos 1) (filled 40) refl (ascii "tree")

find_tree_entry-tree_encode_example :
    (do tree_data ← tree_encode two_entries; find_tree_entry (ascii "a.c") tree_data) ≡ (
      if ends_with (ascii "a.c") (b'/' ∷ [])
      then err assertion_error
      else ok (entry_named (ascii "a.c") (sorted two_entries)))
find_tree_entry-tree_encode_example =
    find_tree_entry-tree_encode (ascii "a.c") two_entries two_entries-IsEntry (refl, (refl, tt))
