-- ===== src/Gc/Safety.antt =====
-- The sweep over all packs, and how it ends: what is live stays on the disk.
use bup.Base.{
  ℕ, ◌<◌, ◌≡◌, inl, inr, refl, ◌∙◌, arith, Bool, true, false, Option, none, some, List, [], ◌∷◌,
  length, ◌==◌, leb, ◌^◌, Bool-cases,
}
use bup.Base.Dict.{Key, Dict, lookup, contains}
use bup.Base.Error.{Result, ok, err, undefined}
use bup.Git.PackWriter
use bup.Git.PackWriter.{
  IdxEntry, PackFile, PackStore, PackWriter, Outcome, opened, dropped, renamed, finish_file,
  finish_pack, store_close, store_abort, closing,
}
use bup.Gc.{
  oids, Writer, Scan, scan_idx, next, remove_stale_packs, rewrite, is_kept, sweep_scanned,
  sweep_found, sweep_pack, sweep_loop, remove_rest, raised, abort_close, sweep_end, sweep,
}
use bup.Gc.Disk.{OnDiskBut, OnDisk, lookup-remove_stems}
use bup.Gc.Keep.{Collection, Live, ArePacks, Held, Safe, After, object_ids, finished-Safe}
use bup.Gc.Sweep.{Scanned, scan_idx-Scanned}
use bup.Gc.Loop.{
  oids-length, next-After, none_bad, dead-Fresh, here_or_Held, stale_pack-Safe, rewrite-After,
}

module _ (g : Collection) (mostly_live : ℕ → ℕ → Bool) (kept : Key) (kept_live : Live g kept)
    (full : (n : ℕ) → 0 < n → mostly_live n n ≡ true) where
  module _ (stem : Key) (pack : PackFile) (w : Writer)
      (found : lookup stem w.store.disk ≡ some pack) (safe : Safe g [] kept w.store) where
    -- A pack is not rewritten when all its objects are live.
    rewritten-dead :
        (scan : Scan)
        → Scanned g (oids pack.idx) scan
        → scan.idx_live_count == 0 ≡ false
        → is_kept g.cat g.live_objects g.live_trees mostly_live g.encode g.crc32 g.pack_id scan
            (length pack.idx)
          ≡ false
        → (d : Key) × (contains d (oids pack.idx) ≡ true) × ¬ (Live g d)
    unfolding is_kept
    rewritten-dead scan h some_live lost = elim h.all_or_dead [
      | inl (n, m) ↦
          let count : scan.idx_live_count ≡ length pack.idx = n ∙ oids-length pack.idx in
          let all : mostly_live scan.idx_live_count (length pack.idx) ≡ true =
            rw count (full (length pack.idx) (ground (arith, some_live, count))) in
          absurd (ground (arith, lost, m, all))
      | inr d ↦ d
    ]

    sweep_scanned-After :
        (r : Result Scan)
        → scan_idx g.cat g.live_objects g.live_trees (oids pack.idx) ≡ r
        → After g [] kept (
            sweep_scanned g.cat g.live_objects g.live_trees mostly_live g.encode g.crc32 g.pack_id
              stem pack.idx r w)
    unfolding sweep_scanned
    sweep_scanned-After (err e) h = safe.on_disk
    sweep_scanned-After undefined h = safe.on_disk
    sweep_scanned-After (ok scan) h =
        let s = scan_idx-Scanned g (oids pack.idx) scan h in
        elim (Bool-cases (scan.idx_live_count == 0)) [
          | inl unused ↦
              rw unused
                (stale_pack-Safe g kept stem w safe.good safe.on_disk (unused_Held unused s))
          | inr used ↦
              elim (Bool-cases (
                is_kept g.cat g.live_objects g.live_trees mostly_live g.encode g.crc32 g.pack_id
                  scan (length pack.idx))) [
                    | inl enough ↦ rw (used, enough) safe
                    | inr lost ↦
                        rw (used, lost)
                          (next-After g kept (stem ∷ []) []
                            (rewrite g.cat g.live_objects g.live_trees mostly_live g.encode g.crc32
                              g.pack_id scan.live_in_this_pack (oids pack.idx) w)
                            _ (rewritten s (rewritten-dead scan s used lost))
                            (λ w' a. stale_pack-Safe g kept stem w' a.good a.on_disk a.held))
                  ]
        ]
      where
        unused_Held :
            scan.idx_live_count == 0 ≡ true
            → Scanned g (oids pack.idx) scan
            → Held (stem ∷ []) w.store kept
        unused_Held unused s = elim (here_or_Held g kept stem pack w.store found safe.held) [
          | inl held ↦ held
          | inr i ↦ let (l, n) = s.every_live kept kept_live i in absurd (ground (arith, n, unused))
        ]

        rewritten :
            Scanned g (oids pack.idx) scan
            → (d : Key) × (contains d (oids pack.idx) ≡ true) × ¬ (Live g d)
            → After g (stem ∷ []) kept (
                rewrite g.cat g.live_objects g.live_trees mostly_live g.encode g.crc32 g.pack_id
                  scan.live_in_this_pack
                  (oids pack.idx)
                  w)
        rewritten s (d, i, dead) =
            rewrite-After g kept mostly_live (stem ∷ [])
              (dead-Fresh g kept stem pack d (safe.good.packs stem pack found) i dead)
              scan.live_in_this_pack s.only_live (oids pack.idx) w safe
              (elim (here_or_Held g kept stem pack w.store found safe.held) [
                | inl held ↦ inl held
                | inr here ↦ inr (here, (s.every_live kept kept_live here).0)
              ])

  sweep_found-After :
      (stem : Key) (found : Option PackFile) (w : Writer)
      → lookup stem w.store.disk ≡ found
      → Safe g [] kept w.store
      → After g [] kept (
          sweep_found g.cat g.live_objects g.live_trees mostly_live g.encode g.crc32 g.pack_id stem
            found w)
  unfolding sweep_found
  sweep_found-After stem none w e safe = safe.on_disk
  sweep_found-After stem (some pack) w e safe = sweep_scanned-After stem pack w e safe _ refl

  sweep_loop-After :
      (stems : List Key) (w : Writer)
      → Safe g [] kept w.store
      → After g [] kept (
          sweep_loop g.cat g.live_objects g.live_trees mostly_live g.encode g.crc32 g.pack_id stems
            w)
  unfolding sweep_loop sweep_pack
  sweep_loop-After [] w safe = safe
  sweep_loop-After (stem ∷ stems) w safe =
      next-After g kept [] []
        (sweep_pack g.cat g.live_objects g.live_trees mostly_live g.encode g.crc32 g.pack_id stem w)
        (sweep_loop g.cat g.live_objects g.live_trees mostly_live g.encode g.crc32 g.pack_id stems)
        (sweep_found-After stem (lookup stem w.store.disk) w refl safe) (sweep_loop-After stems)

  -- After the writer is closed nothing is open, so the object is in a pack on the disk.
  abbrev Closed : {A : Type 0} → Outcome Writer A → Type 0
  Closed (ok a, w) = OnDiskBut w.store.user w.store.disk kept
  Closed (err e, w) = OnDisk w.store.disk kept
  Closed (undefined, w) = OnDisk w.store.disk kept

  abbrev finishing : Key → Dict PackFile → List Key → Dict PackFile × List Key
  finishing new_pack_prefix = remove_stale_packs (some new_pack_prefix)

  nothing_open :
      (s : PackStore (List Key))
      → ((sha : Key) → contains sha (oids s.idx) ≡ false)
      → Held [] s kept
      → OnDiskBut s.user s.disk kept
  nothing_open s unwritten (inl d) = d
  nothing_open s unwritten (inr h) = absurd (ground (arith, unwritten kept, h))

  finish_file-Closed :
      (s : PackStore (List Key)) (file : Option (List (List ℕ))) (w : Writer)
      → s.file ≡ file
      → Safe g [] kept s
      → Closed
          (closing g.crc32 g.pack_id finishing (finish_file g.crc32 g.pack_id finishing file s) w)
  unfolding finish_file closing dropped renamed opened object_ids contains oids
  finish_file-Closed s none w e safe =
      nothing_open s (λ sha. ground (arith, safe.good.open_indexed sha, e)) safe.held
  finish_file-Closed s (some blobs) w e safe = elim (Bool-cases (leb (2 ^ 31) s.obj_count)) [
    | inl many ↦ rw many (safe.on_disk)
    | inr few ↦ rw few (
        nothing_open
          (dropped g.crc32 g.pack_id finishing (renamed g.crc32 g.pack_id finishing blobs s))
          (λ sha. refl)
          (finished-Safe g [] kept s blobs e safe.good (none_bad g kept) safe.held).held)
  ]

  remove_rest-OnDisk :
      (o : Outcome Writer (Option Key))
      → Closed o
      → OnDisk
          (next o (
            remove_rest g.cat g.live_objects g.live_trees mostly_live g.encode g.crc32
              g.pack_id)).1.store.disk
          kept
  unfolding next remove_rest remove_stale_packs
  remove_rest-OnDisk (ok a, w) d = record {
    stem = d.stem;
    pack = d.pack;
    found = lookup-remove_stems none w.store.user w.store.disk d.stem d.pack d.found (inl d.apart);
    has = d.has;
    apart = unfold contains in refl;
  }
  remove_rest-OnDisk (err e, w) d = d
  remove_rest-OnDisk (undefined, w) d = d

  sweep_end-OnDisk :
      (o : Outcome Writer (Unit {0}))
      → After g [] kept o
      → OnDisk
          (sweep_end g.cat g.live_objects g.live_trees mostly_live g.encode g.crc32 g.pack_id
            o).1.store.disk
          kept
  unfolding sweep_end abort_close raised PackWriter.close PackWriter.abort store_abort store_close
      finish_pack finish_file closing dropped
  sweep_end-OnDisk (ok a, w) safe = remove_rest-OnDisk _ (
      finish_file-Closed (record w.store { closed = true }) w.store.file w refl
        (record {
          good = record {
            packs = safe.good.packs;
            open_indexed = safe.good.open_indexed;
            open_live = safe.good.open_live;
          };
          on_disk = safe.on_disk;
          held = safe.held;
        }))
  sweep_end-OnDisk (err e, w) on_disk = on_disk
  sweep_end-OnDisk (undefined, w) on_disk = on_disk

-- For a collection in which packs with different objects have different names, encoded objects have
-- the oids they are found under, and a pack of live objects only counts as mostly live (a threshold
-- above 0): if the packs on the disk have their names and indexes, the writer is fresh, and an
-- object that git has and the filter passes is in some pack, then after a sweep over any list of
-- packs, whatever it raises and whichever new packs it fills, the object still is in a pack on the
-- disk.
pub sweep-OnDisk :
    (g : Collection) (mostly_live : ℕ → ℕ → Bool) (kept : Key) (stems : List Key) (w : Writer)
    → ((n : ℕ) → 0 < n → mostly_live n n ≡ true)
    → ArePacks g w.store.disk
    → w.store.file ≡ none
    → w.store.idx ≡ []
    → w.store.user ≡ []
    → Live g kept
    → OnDisk w.store.disk kept
    → OnDisk
        (sweep g.cat g.live_objects g.live_trees mostly_live g.encode g.crc32 g.pack_id stems
          w).1.store.disk
        kept
unfolding sweep opened object_ids oids contains
sweep-OnDisk g mostly_live kept stems w full packs no_file no_idx no_stale live d =
    sweep_end-OnDisk g mostly_live kept live full _ (
      sweep_loop-After g mostly_live kept live full stems w (record {
        good = record {
          packs = packs;
          open_indexed = λ sha. rw (no_file, no_idx) refl;
          open_live = λ sha h. ground (arith, h, no_idx);
        };
        on_disk = d;
        held = inl (record {
          stem = d.stem;
          pack = d.pack;
          found = d.found;
          has = d.has;
          apart = rw no_stale refl;
        });
      }))
