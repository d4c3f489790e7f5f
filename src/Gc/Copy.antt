-- ===== src/Gc/Copy.antt =====
-- A live object that a sweep writes, whether its pack is finished by it or not.
use bup.Base.{
  ℕ, ◌≡◌, ◌⊎◌, inl, inr, refl, Bool, some, List, [], ◌∷◌, ◌++◌, length, ◌==◌, leb, Bool-cases, ◌^◌,
}
use bup.Base.Dict.{Key, Dict}
use bup.Base.Error.{Result, ok, err, undefined}
use bup.Git.PackWriter.{
  PackFile, Outcome, opened, store_write, dropped, renamed, finish_pack, finish_file, breakpoint,
  reset_counts, then_sha, counted, is_full, write_encoded, remember, write, just_write,
}
use bup.Gc.{remove_stale_packs, Writer, copy}
use bup.Gc.Disk.{OnDisk}
use bup.Gc.Keep.{
  Collection, Live, IsGood, Fresh, Held, Safe, After, written-IsGood, written-Held, finished-Safe,
}

module _ (g : Collection) (bad : List Key) (kept : Key) (fresh : Fresh g bad) where
  abbrev finishing : Key → Dict PackFile → List Key → Dict PackFile × List Key
  finishing new_pack_prefix = remove_stale_packs (some new_pack_prefix)

  breakpoint-After :
      (blobs : List (List ℕ)) (w : Writer) (sha : Key)
      → w.store.file ≡ some blobs
      → Safe g bad kept w.store
      → After g bad kept
          (then_sha g.crc32 g.pack_id finishing sha (breakpoint g.crc32 g.pack_id finishing w))
  unfolding breakpoint finish_pack finish_file reset_counts then_sha renamed dropped
  breakpoint-After blobs w sha e safe = elim (Bool-cases (leb (2 ^ 31) w.store.obj_count)) [
    | inl many ↦ rw (e, many) (unfold dropped in safe.on_disk)
    | inr few ↦ rw (e, few) (finished-Safe g bad kept w.store blobs e safe.good fresh safe.held)
  ]

  module _ (w : Writer) (good : IsGood g w.store) (on_disk : OnDisk w.store.disk kept) (sha : Key)
      (live : Live g sha) (held : Held bad w.store kept ⊎ (sha ≡ kept)) where
    counted-Safe :
        (encoded : List ℕ)
        → g.object_id encoded ≡ sha
        → Safe g bad kept (counted g.crc32 g.pack_id finishing encoded sha w).store
    unfolding counted
    counted-Safe encoded same = record {
      good = written-IsGood g bad kept w.store encoded sha good live same;
      on_disk = unfold store_write in on_disk;
      held = written-Held g bad kept w.store encoded sha held;
    }

    remember-After :
        (o : Outcome Writer Key)
        → After g bad kept o
        → After g bad kept (remember g.crc32 g.pack_id finishing o)
    unfolding remember
    remember-After (ok s, w') h = record { good = h.good; on_disk = h.on_disk; held = h.held }
    remember-After (err e, w') h = h
    remember-After (undefined, w') h = h

    write_encoded-After :
        (encoded : Result (List ℕ))
        → ((bytes : List ℕ) → encoded ≡ ok bytes → g.object_id bytes ≡ sha)
        → After g bad kept (write_encoded g.crc32 g.pack_id finishing sha encoded w)
    unfolding write_encoded counted store_write
    write_encoded-After (ok encoded) same =
        let w' = counted g.crc32 g.pack_id finishing encoded sha w in
        let safe = counted-Safe encoded (same encoded refl) in
        elim (Bool-cases (is_full g.crc32 g.pack_id finishing w')) [
          | inl full ↦
              rw full (breakpoint-After (opened w.store.file ++ encoded ∷ []) w' sha refl safe)
          | inr room ↦ rw room safe
        ]
    write_encoded-After (err e) same = on_disk
    write_encoded-After undefined same = on_disk

    copy_found :
        (mostly_live : ℕ → ℕ → Bool) (found : Result (Key × List ℕ))
        → g.cat sha ≡ found
        → After g bad kept (
            copy g.cat g.live_objects g.live_trees mostly_live g.encode g.crc32 g.pack_id sha found
              w)
    unfolding copy just_write write
    copy_found mostly_live (ok (type, content)) e =
        remember-After _ (elim (Bool-cases (length sha == 0)) [
          | inl unnamed ↦ rw unnamed on_disk
          | inr named ↦ rw named (
              write_encoded-After (g.encode type content)
                (λ bytes h. g.identified sha type content bytes e h))
        ])
    copy_found mostly_live (err x) e = on_disk
    copy_found mostly_live undefined e = on_disk

    pub copy-After :
        (mostly_live : ℕ → ℕ → Bool)
        → After g bad kept (
            copy g.cat g.live_objects g.live_trees mostly_live g.encode g.crc32 g.pack_id sha
              (g.cat sha)
              w)
    copy-After mostly_live = copy_found mostly_live (g.cat sha) refl
