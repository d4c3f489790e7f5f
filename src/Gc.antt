-- ===== src/Gc.antt =====
-- lib/bup/gc.py: the mark and the sweep of the garbage collector, over the pack writer. `cat` is what
-- git cat-file gives for an oid, its type and content. The walk over the refs and the glob over the
-- packs are the lists of what they deliver, in any order.
pub mod Disk
pub mod Keep
pub mod Copy
pub mod Sweep
pub mod Loop
pub mod Safety
pub mod Mark
mod Tests
use bup.Base.{
  ℕ, ◌+◌, Bool, true, false, ◌||◌, ◌&&◌, not, Option, none, some, List, [], ◌∷◌, ◌++◌, ◌==◌,
  if◌then◌else◌, length, bytes_eq,
}
use bup.Base.Bytes.{ascii}
use bup.Base.Dict.{Key, Dict, lookup, delete, contains}
use bup.Base.Error.{Result, ok, err, undefined, exception, ◌>>=◌}
use bup.Git.PackWriter
use bup.Git.PackWriter.{IdxEntry, PackFile, PackStore, PackWriter, Outcome}

-- The writer of a sweep; what its callback keeps is `stale_packs`.
abbrev pub Writer : Type 0
Writer = PackWriter (List Key)

-- An item of the walk: `data is False` says that the object is missing.
pub record WalkItem : Type 0 where
  pub oid : Key
  pub type : Key
  pub is_missing : Bool

abbrev pub blob : Key
blob = ascii "blob"

module _ {Bloom : Type 0} (add : Key → Bloom → Bloom) where
  -- live_blobs and live_trees
  mark : WalkItem → Bloom × List Key → Bloom × List Key
  mark item (blobs, trees) =
      if not (bytes_eq item.type blob)
      then (blobs, item.oid ∷ trees)
      else (add item.oid blobs, trees)

  -- The loop over the items of all refs; `ignore_missing` says that `for_item` is given, which
  -- handles what is missing. MissingObject ends the collection.
  pub find_live_objects : Bool → List WalkItem → Bloom × List Key → Result (Bloom × List Key)
  find_live_objects ignore_missing [] live = ok live
  find_live_objects ignore_missing (item ∷ items) live =
      let rest = find_live_objects ignore_missing items (mark item live) in
      if not ignore_missing && item.is_missing then err exception else rest

pub is_stem : Option Key → Key → Bool
is_stem none stem = false
is_stem (some new_pack_prefix) stem = bytes_eq stem new_pack_prefix

pub remove_stems : Option Key → List Key → Dict PackFile → Dict PackFile
remove_stems new_pack_prefix [] disk = disk
remove_stems new_pack_prefix (stem ∷ stale_packs) disk =
    remove_stems new_pack_prefix stale_packs
      (if is_stem new_pack_prefix stem then disk else delete stem disk)

pub remove_stale_packs : Option Key → Dict PackFile → List Key → Dict PackFile × List Key
remove_stale_packs new_pack_prefix disk stale_packs =
    (remove_stems new_pack_prefix stale_packs disk, [])

-- What a pack's index says of its objects.
pub record Scan : Type 0 where
  pub idx_live_count : ℕ
  pub must_rewrite : Bool
  pub live_in_this_pack : List Key

pub oids : List IdxEntry → List Key
oids [] = []
oids (e ∷ idx) = e.oid ∷ oids idx

pub next : {A B : Type 0} → Outcome Writer A → (Writer → Outcome Writer B) → Outcome Writer B
next (ok a, w) more = more w
next (err e, w) more = (err e, w)
next (undefined, w) more = (undefined, w)

pub stale_pack : Key → Writer → Writer
stale_pack stem w = record w { store = record w.store { user = w.store.user ++ stem ∷ [] } }

module _ (cat : Key → Result (Key × List ℕ)) (live_objects : Key → Bool)
    (live_trees : List Key) where
  pub is_live : Key → Key → Bool
  is_live type sha = if not (bytes_eq type blob) then contains sha live_trees else live_objects sha

  pub noted : Key → Key → Scan → Scan
  noted type sha scan =
      if is_live type sha
      then record scan {
        idx_live_count = scan.idx_live_count + 1;
        live_in_this_pack = sha ∷ scan.live_in_this_pack;
      }
      else record scan { must_rewrite = not (bytes_eq type blob) || scan.must_rewrite }

  pub scan_idx : List Key → Result Scan
  scan_idx [] = ok (record { idx_live_count = 0; must_rewrite = false; live_in_this_pack = [] })
  scan_idx (sha ∷ idx) = do (type, content) ← cat sha; rest ← scan_idx idx; ok (noted type sha rest)

  -- `mostly_live` is the comparison live_frac > (100 - threshold) / 100.0 in floats.
  module _ (mostly_live : ℕ → ℕ → Bool) (encode : Key → List ℕ → Result (List ℕ))
      (crc32 : List ℕ → ℕ) (pack_id : List (List ℕ) → Key) where
    abbrev pub on_pack_finish : Key → Dict PackFile → List Key → Dict PackFile × List Key
    on_pack_finish new_pack_prefix = remove_stale_packs (some new_pack_prefix)

    pub copy : Key → Result (Key × List ℕ) → Writer → Outcome Writer Key
    copy sha (ok (type, content)) w =
        PackWriter.just_write crc32 pack_id on_pack_finish encode sha type content w
    copy sha (err e) w = (err e, w)
    copy sha undefined w = (undefined, w)

    -- The second loop over the index, which writes what is live.
    pub rewrite : List Key → List Key → Writer → Outcome Writer (Unit {0})
    rewrite live_in_this_pack [] w = (ok tt, w)
    rewrite live_in_this_pack (sha ∷ idx) w =
        let rest = rewrite live_in_this_pack idx in
        if contains sha live_in_this_pack then next (copy sha (cat sha) w) rest else rest w

    pub is_kept : Scan → ℕ → Bool
    is_kept scan n = not scan.must_rewrite && mostly_live scan.idx_live_count n

    sweep_scanned : Key → List IdxEntry → Result Scan → Writer → Outcome Writer (Unit {0})
    sweep_scanned stem idx (ok scan) w =
        if scan.idx_live_count == 0
        then (ok tt, stale_pack stem w)
        else if is_kept scan (length idx)
        then (ok tt, w)
        else next (rewrite scan.live_in_this_pack (oids idx) w) (λ w'. (ok tt, stale_pack stem w'))
    sweep_scanned stem idx (err e) w = (err e, w)
    sweep_scanned stem idx undefined w = (undefined, w)

    -- open_idx raises if the file is gone
    sweep_found : Key → Option PackFile → Writer → Outcome Writer (Unit {0})
    sweep_found stem none w = (err exception, w)
    sweep_found stem (some pack) w = sweep_scanned stem pack.idx (scan_idx (oids pack.idx)) w

    pub sweep_pack : Key → Writer → Outcome Writer (Unit {0})
    sweep_pack stem w = sweep_found stem (lookup stem w.store.disk) w

    pub sweep_loop : List Key → Writer → Outcome Writer (Unit {0})
    sweep_loop [] w = (ok tt, w)
    sweep_loop (stem ∷ stems) w = next (sweep_pack stem w) (sweep_loop stems)

    -- remove_stale_packs(None), after the writer is closed
    remove_rest : Writer → Outcome Writer (Unit {0})
    remove_rest w =
        let (disk, stale) = remove_stale_packs none w.store.disk w.store.user in
        (ok tt, record w { store = record w.store { disk = disk; user = stale } })

    raised : Result (Unit {0}) → Outcome Writer (Option Key) → Outcome Writer (Unit {0})
    raised e (ok result, w) = (e, w)
    raised e (err e', w) = (err e', w)
    raised e (undefined, w) = (undefined, w)

    abort_close : Result (Unit {0}) → Writer → Outcome Writer (Unit {0})
    abort_close e w = raised e (
        PackWriter.close crc32 pack_id on_pack_finish
          (PackWriter.abort crc32 pack_id on_pack_finish w))

    -- except, finally and what follows
    sweep_end : Outcome Writer (Unit {0}) → Outcome Writer (Unit {0})
    sweep_end (ok _, w) = next (PackWriter.close crc32 pack_id on_pack_finish w) remove_rest
    sweep_end (err e, w) = abort_close (err e) w
    sweep_end (undefined, w) = abort_close undefined w

    pub sweep : List Key → Writer → Outcome Writer (Unit {0})
    sweep stems w = sweep_end (sweep_loop stems w)
