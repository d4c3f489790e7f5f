-- ===== src/Index/MetaStore.antt =====
-- `MetaStoreWriter.store` and `MetaStoreReader.metadata_at` of lib/bup/index.py. The file is its
-- bytes; what `__init__` reads back of an old file is the state that store begins with.
use mathlib.Core.Path.{subst}
use bup.Base.{
  ℕ, zero, suc, ◌≡◌, refl, false, Option, none, some, List, [], ◌∷◌, ◌++◌, length, drop,
  append_assoc, append-nil, drop-length_append, bytes_eq, bytes_eq→eq, Bool-cases, All, inl, inr,
}
use bup.Base.Dict.{Key, Dict, lookup, insert}
use bup.Base.Error.{Result, ok, ◌>>=◌}
use bup.Metadata.{Metadata, encode, records}
use bup.Metadata.Records.{read}
use bup.Metadata.Stored.{Common, with_common}
use bup.Metadata.RoundTrip.{IsStorable, HasSmallRecords, encode_lem}

pub record Store : Type 0 where
  pub offsets : Dict ℕ
  pub file : List ℕ

-- What is written at the end, with its offset kept.
unfoldable pub append_metadata : Key → Store → ℕ × Store
append_metadata encoded s = (
  length s.file,
  record { offsets = insert encoded (length s.file) s.offsets; file = s.file ++ encoded },
)

-- `if ofs: return ofs`: an offset of 0 is as none.
unfoldable pub store_encoded : Key → Option ℕ → Store → ℕ × Store
store_encoded encoded (some (suc ofs)) s = (suc ofs, s)
store_encoded encoded (some zero) s = append_metadata encoded s
store_encoded encoded none s = append_metadata encoded s

unfoldable pub store : Metadata → Store → Result (ℕ × Store)
store meta s = do
  encoded ← encode false meta
  ok (store_encoded encoded (lookup encoded s.offsets) s)

unfoldable pub metadata_at : List ℕ → ℕ → Result (Option Metadata)
metadata_at file ofs = do (meta, rest) ← read (drop ofs file); ok meta

-- The encoded metadata stands in the file at its offset.
abbrev pub IsAt : List ℕ → Key × ℕ → Type 0
IsAt file (encoded, ofs) =
    (front : List ℕ) × (rest : List ℕ) × (file ≡ front ++ (encoded ++ rest)) × (ofs ≡ length front)

abbrev pub IsStore : Store → Type 0
IsStore s = All (IsAt s.file) s.offsets

IsAt-append : (file more : List ℕ) (x : Key × ℕ) → IsAt file x → IsAt (file ++ more) x
IsAt-append file more (encoded, ofs) (front, rest, e, o) =
    (front, rest ++ more, rw e (simp append_assoc), o)

All-IsAt : (file more : List ℕ) (d : Dict ℕ) → All (IsAt file) d → All (IsAt (file ++ more)) d
All-IsAt file more [] h = tt
All-IsAt file more (x ∷ d) (h, hs) = (IsAt-append file more x h, All-IsAt file more d hs)

IsFound : List ℕ → Key → Option ℕ → Type 0
IsFound file k none = Unit
IsFound file k (some ofs) = IsAt file (k, ofs)

lookup-IsFound :
    (file : List ℕ) (d : Dict ℕ) (k : Key) → All (IsAt file) d → IsFound file k (lookup k d)
unfolding lookup IsFound
lookup-IsFound file [] k h = tt
lookup-IsFound file ((j, o) ∷ d) k (h, hs) = elim (Bool-cases (bytes_eq j k)) [
  | inr other ↦ rw other (lookup-IsFound file d k hs)
  | inl same ↦ rw same (subst (λ (n : Key). IsAt file (n, o)) (bytes_eq→eq j k same) h)
]

insert-IsStore :
    (file : List ℕ) (d : Dict ℕ) (k : Key) (ofs : ℕ)
    → All (IsAt file) d
    → IsAt file (k, ofs)
    → All (IsAt file) (insert k ofs d)
unfolding insert
insert-IsStore file [] k ofs h x = (x, tt)
insert-IsStore file ((j, o) ∷ d) k ofs (h, hs) x = elim (Bool-cases (bytes_eq j k)) [
  | inl same ↦ rw same (x, hs)
  | inr other ↦ rw other (h, insert-IsStore file d k ofs hs x)
]

-- A result of the store: the metadata stands at the offset, and the store is consistent.
IsStored : Key → ℕ × Store → Type 0
IsStored encoded (ofs, s) = IsAt s.file (encoded, ofs) × IsStore s

append_lem : (encoded : Key) (s : Store) → IsStore s → IsStored encoded (append_metadata encoded s)
unfolding IsStored append_metadata
append_lem encoded s h =
    let here : IsAt (s.file ++ encoded) (encoded, length s.file) =
      (s.file, [], rw (append-nil encoded) refl, refl) in
    (
      here,
      insert-IsStore (s.file ++ encoded) s.offsets encoded (length s.file)
          (All-IsAt s.file encoded s.offsets h) here,
    )

store_encoded_lem :
    (encoded : Key) (found : Option ℕ) (s : Store)
    → IsStore s
    → IsFound s.file encoded found
    → IsStored encoded (store_encoded encoded found s)
unfolding store_encoded IsStored IsFound
store_encoded_lem encoded none s h f = append_lem encoded s h
store_encoded_lem encoded (some zero) s h f = append_lem encoded s h
store_encoded_lem encoded (some (suc ofs)) s h f = (f, h)

read_at :
    (file more encoded : List ℕ) (ofs : ℕ) (m : Metadata)
    → IsAt file (encoded, ofs)
    → ((rest : List ℕ) → read (encoded ++ rest) ≡ ok (some m, rest))
    → metadata_at (file ++ more) ofs ≡ ok (some m)
unfolding metadata_at
read_at file more encoded ofs m (front, rest, e, o) r =
    let here : drop ofs (file ++ more) ≡ encoded ++ (rest ++ more) =
      rw (e, o, append_assoc front (encoded ++ rest) more, append_assoc encoded rest more)
        (drop-length_append front (encoded ++ (rest ++ more))) in
    rw (here, r (rest ++ more)) refl

-- Storing metadata that can be stored succeeds, in a store whose offsets are those of their
-- records; the offset it returns is one at which metadata_at reads the metadata without its path,
-- whatever is appended to the file later, and the offsets of the store are still those of their
-- records.
pub metadata_at-store :
    (c : Common) (m : Metadata) (s : Store)
    → IsStorable c m
    → HasSmallRecords (records false (with_common c m))
    → IsStore s
    → (ofs : ℕ) × (s' : Store) × (store (with_common c m) s ≡ ok (ofs, s'))
      × IsStore s'
      × ((more : List ℕ)
          → metadata_at (s'.file ++ more) ofs
            ≡ ok (some (with_common c (record m { path = none }))))
unfolding store IsStored
metadata_at-store c m s good small h =
    let (encoded, e, back) = encode_lem false c m good small in
    let found = lookup encoded s.offsets in
    let (at, kept) =
      store_encoded_lem encoded found s h (lookup-IsFound s.file s.offsets encoded h) in
    let (ofs, s') = store_encoded encoded found s in
    (
      ofs,
      s',
      rw e refl,
      kept,
      λ more. read_at s'.file more encoded ofs (with_common c (record m { path = none })) at back,
    )
