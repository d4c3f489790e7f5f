-- ===== src/Gc/Tests.antt =====
-- A pack of two blobs, one of them live, and the theorems on it.
use bup.Base.{
  ℕ, suc, ◌*◌, ◌≡◌, ◌<◌, refl, sym, ◌∙◌, arith, Bool, true, false, none, List, [], ◌∷◌, ltb,
  bytes_eq, bytes_eq_refl, bytes_eq→eq, Bool-cases, inl, inr,
}
use bup.Base.Dict.{Key, lookup, insert, delete, contains}
use bup.Base.Bytes.{ascii}
use mathlib.Core.Option.{some-injective}
use bup.Base.Error.{Result, ok}
use bup.Git.PackWriter.{
  PackFile, insert_entry, write_idx, opened, bytes_in, store_write, dropped, renamed, finish_file,
  finish_pack, store_close, reset_counts, breakpoint, then_sha, counted, is_full, write_encoded,
  remember, write, just_write, closing, close,
}
use bup.Gc.{
  WalkItem, blob, find_live_objects, is_live, oids, Writer, sweep, remove_stems, is_stem,
  remove_stale_packs, noted, scan_idx, copy, rewrite, is_kept, sweep_scanned, sweep_found,
  sweep_pack, sweep_loop, next, stale_pack, remove_rest, sweep_end,
}
use bup.Gc.Disk.{OnDisk}
use bup.Gc.Keep.{Collection, ArePacks, object_ids}
use bup.Gc.Safety.{sweep-OnDisk}
use bup.Gc.Mark.{Walked, find_live_objects-Walked}

-- A name that says what is in the pack.
abbrev with_blob : List ℕ → Key → Key
with_blob [] rest = 0 ∷ rest
with_blob (x ∷ xs) rest = suc x ∷ with_blob xs rest

abbrev name_of : List (List ℕ) → Key
name_of [] = []
name_of (b ∷ bs) = with_blob b (name_of bs)

with_blob_unique : (b c r s : List ℕ) → with_blob b r ≡ with_blob c s → (b ≡ c) × (r ≡ s)
with_blob_unique [] [] r s e = (refl, cc)
with_blob_unique [] (y ∷ ys) r s e = cc
with_blob_unique (x ∷ xs) [] r s e = cc
with_blob_unique (x ∷ xs) (y ∷ ys) r s e =
    let tails : with_blob xs r ≡ with_blob ys s = cc in
    let (b, t) = with_blob_unique xs ys r s tails in (cc, t)

name_of_unique : (bs cs : List (List ℕ)) → name_of bs ≡ name_of cs → bs ≡ cs
name_of_unique [] [] e = refl
name_of_unique [] ([] ∷ cs) e = cc
name_of_unique [] ((y ∷ ys) ∷ cs) e = cc
name_of_unique ([] ∷ bs) [] e = cc
name_of_unique ((x ∷ xs) ∷ bs) [] e = cc
name_of_unique (b ∷ bs) (c ∷ cs) e =
    let (head, rest) = with_blob_unique b c (name_of bs) (name_of cs) e in
    let tail = name_of_unique bs cs rest in cc

lucky_identified :
    (sha type : Key) (content encoded : List ℕ)
    → ◌≡◌ {A = Result (Key × List ℕ)} (ok (blob, sha)) (ok (type, content))
    → ◌≡◌ {A = Result (List ℕ)} (ok content) (ok encoded)
    → encoded ≡ sha
lucky_identified sha type content encoded e h = cc

abbrev lucky : Collection
lucky = record {
  cat = λ sha. ok (blob, sha);
  live_objects = λ sha. bytes_eq sha (7 ∷ []);
  live_trees = [];
  encode = λ type content. ok content;
  crc32 = λ bytes. 0;
  pack_id = name_of;
  object_id = λ bytes. bytes;
  unique = name_of_unique;
  identified = lucky_identified;
}

abbrev old_blobs : List (List ℕ)
old_blobs = (5 ∷ []) ∷ (7 ∷ []) ∷ []

abbrev old_pack : PackFile
old_pack = record {
  blobs = old_blobs;
  idx =
      (record { oid = 5 ∷ []; crc = 0; offs = 12 })
      ∷ (record { oid = 7 ∷ []; crc = 0; offs = 13 })
      ∷ [];
}

-- A writer whose packs hold `max_objects` objects.
abbrev writer_of : ℕ → Writer
writer_of max_objects = record {
  store = record {
    closed = false;
    file = none;
    idx = [];
    obj_count = 0;
    disk = (name_of old_blobs, old_pack) ∷ [];
    user = [];
  };
  byte_count = 0;
  obj_count = 0;
  pending_oids = [];
  max_pack_size = 1000;
  max_pack_objects = max_objects;
}

old_pack-ArePacks : (n : ℕ) → ArePacks lucky (writer_of n).store.disk
unfolding lookup object_ids contains oids
old_pack-ArePacks n stem pack e = elim (Bool-cases (bytes_eq (name_of old_blobs) stem)) [
  | inl same ↦
      let at_pack : old_pack ≡ pack = some-injective old_pack pack (sym (rw same) ∙ e) in
      rw (← at_pack)
        (record { named = sym (bytes_eq→eq (name_of old_blobs) stem same); indexed = λ sha. refl })
  | inr other ↦ absurd (ground (arith, e, other))
]

-- `--threshold 10`
abbrev nine_tenths : ℕ → ℕ → Bool
nine_tenths live all = ltb (9 * all) (10 * live)

nine_tenths_full : (n : ℕ) → 0 < n → nine_tenths n n ≡ true
nine_tenths_full n h = ground arith

sweep-OnDisk_example :
    OnDisk
      (sweep lucky.cat lucky.live_objects lucky.live_trees nine_tenths lucky.encode lucky.crc32
        lucky.pack_id
        (name_of old_blobs ∷ [])
        (writer_of 100)).1.store.disk
      (7 ∷ [])
unfolding lookup contains oids is_live
sweep-OnDisk_example =
    sweep-OnDisk lucky nine_tenths (7 ∷ []) (name_of old_blobs ∷ []) (writer_of 100)
      nine_tenths_full (old_pack-ArePacks 100) refl refl refl (blob, 7 ∷ [], refl, refl)
      (record { stem = name_of old_blobs; pack = old_pack; found = refl; has = refl; apart = refl })

-- `--threshold 0` rewrites a pack of live objects. When its last object fills the new pack, that has
-- the name of the old one, which counts as stale only then: the sweep deletes the new pack.
threshold_zero_loses :
    (sweep lucky.cat
      (λ sha. true)
      []
      (λ live all. false)
      lucky.encode
      lucky.crc32
      lucky.pack_id
      (name_of old_blobs ∷ [])
      (writer_of 2)).1.store.disk
    ≡ []
unfolding lookup insert delete contains oids is_live sweep remove_stems is_stem remove_stale_packs
    noted scan_idx copy rewrite is_kept sweep_scanned sweep_found sweep_pack sweep_loop next
    stale_pack remove_rest sweep_end insert_entry write_idx opened bytes_in store_write dropped
    renamed finish_file finish_pack store_close reset_counts breakpoint then_sha counted is_full
    write_encoded remember write just_write closing close
threshold_zero_loses = refl

-- A set of blobs that gives no false answers, as a list.
abbrev with_oid : Key → List Key → List Key
with_oid oid blobs = oid ∷ blobs

contains-added : (oid : Key) (blobs : List Key) → contains oid (with_oid oid blobs) ≡ true
unfolding contains
contains-added oid blobs = ground (arith, bytes_eq_refl oid)

contains-kept :
    (oid other : Key) (blobs : List Key)
    → contains oid blobs ≡ true
    → contains oid (with_oid other blobs) ≡ true
unfolding contains
contains-kept oid other blobs h = ground (arith, h)

abbrev walk : List WalkItem
walk =
    (record { oid = 5 ∷ []; type = ascii "tree"; is_missing = false })
    ∷ (record { oid = 7 ∷ []; type = blob; is_missing = true })
    ∷ []

find_live_objects-Walked_example :
    Walked with_oid contains contains-added contains-kept lucky.cat true walk
      (find_live_objects with_oid true walk ([], []))
find_live_objects-Walked_example =
    find_live_objects-Walked with_oid contains contains-added contains-kept lucky.cat true walk
      ([], [])
