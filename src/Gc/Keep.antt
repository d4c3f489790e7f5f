-- ===== src/Gc/Keep.antt =====
-- The writer of a sweep keeps a live object: on the disk, and apart from the stale packs.
use mathlib.Core.Option.{some-injective}
use bup.Base.{
  ℕ, ◌≡◌, ◌⊎◌, inl, inr, refl, sym, ap, ◌∙◌, arith, Bool, true, false, ◌||◌, some, List, [], ◌∷◌,
  ◌++◌, append-nil, bytes_eq, bytes_eq_refl, bytes_eq→eq, Bool-cases,
}
use bup.Base.Dict.{Key, Dict, lookup, insert, contains, lookup-insert, contains-append}
use bup.Base.Error.{Result, ok, err, undefined}
use bup.Git.PackWriter.{
  PackFile, PackStore, Outcome, opened, store_write, dropped, renamed, write_idx,
}
use bup.Gc.{oids, is_live, is_stem, remove_stems, remove_stale_packs, Writer}
use bup.Gc.Disk.{
  OnDiskBut, OnDisk, OnDiskBut-weaken, lookup-remove_stems, lookup_before-remove_stems, oids-append,
  contains-write_idx,
}

-- What a collection relies on: git's objects and zlib, sha1, and the liveness filter. `object_id` is
-- the oid of the object that some packed bytes hold.
pub record Collection : Type 0 where
  pub cat : Key → Result (Key × List ℕ)
  pub live_objects : Key → Bool
  pub live_trees : List Key
  pub encode : Key → List ℕ → Result (List ℕ)
  pub crc32 : List ℕ → ℕ
  pub pack_id : List (List ℕ) → Key
  pub object_id : List ℕ → Key
  -- sha1 does not collide on packs
  pub unique : (bs cs : List (List ℕ)) → pack_id bs ≡ pack_id cs → bs ≡ cs
  -- git gives the object that has the oid
  pub identified :
      (sha type : Key) (content encoded : List ℕ)
      → cat sha ≡ ok (type, content)
      → encode type content ≡ ok encoded
      → object_id encoded ≡ sha

-- git has the object, and the filter passes it.
abbrev pub Live : Collection → Key → Type 0
Live g sha =
    (type : Key) × (content : List ℕ) × (g.cat sha ≡ ok (type, content))
    × (is_live g.cat g.live_objects g.live_trees type sha ≡ true)

unfoldable pub object_ids : Collection → List (List ℕ) → List Key
object_ids g [] = []
object_ids g (encoded ∷ blobs) = g.object_id encoded ∷ object_ids g blobs

-- A pack on the disk has its name by its objects, and its index lists them.
pub record IsPack (g : Collection) (stem : Key) (pack : PackFile) : Type 0 where
  pub named : stem ≡ g.pack_id pack.blobs
  pub indexed : (sha : Key) → contains sha (oids pack.idx) ≡ contains sha (object_ids g pack.blobs)

abbrev pub ArePacks : Collection → Dict PackFile → Type 0
ArePacks g disk = (stem : Key) (pack : PackFile) → lookup stem disk ≡ some pack → IsPack g stem pack

pub record IsGood (g : Collection) (s : PackStore (List Key)) : Type 0 where
  pub packs : ArePacks g s.disk
  pub open_indexed :
      (sha : Key) → contains sha (oids s.idx) ≡ contains sha (object_ids g (opened s.file))
  pub open_live : (sha : Key) → contains sha (oids s.idx) ≡ true → Live g sha

-- Packs that hold live objects only do not have one of the names.
abbrev pub Fresh : Collection → List Key → Type 0
Fresh g bad =
    (bs : List (List ℕ))
    → ((sha : Key) → contains sha (object_ids g bs) ≡ true → Live g sha)
    → contains (g.pack_id bs) bad ≡ false

-- The object is in a pack that is neither stale nor in a list, or in the pack that is written.
abbrev pub Held : List Key → PackStore (List Key) → Key → Type 0
Held bad s sha = OnDiskBut (bad ++ s.user) s.disk sha ⊎ (contains sha (oids s.idx) ≡ true)

pub record Safe (g : Collection) (bad : List Key) (sha : Key) (s : PackStore (List Key))
    : Type 0 where
  pub good : IsGood g s
  pub on_disk : OnDisk s.disk sha
  pub held : Held bad s sha

-- After an operation: the object is safe, or after an exception it is on the disk at least.
abbrev pub After : Collection → List Key → Key → {A : Type 0} → Outcome Writer A → Type 0
After g bad sha (ok a, w) = Safe g bad sha w.store
After g bad sha (err e, w) = OnDisk w.store.disk sha
After g bad sha (undefined, w) = OnDisk w.store.disk sha

pub object_ids-append :
    (g : Collection) (xs ys : List (List ℕ))
    → object_ids g (xs ++ ys) ≡ object_ids g xs ++ object_ids g ys
unfolding object_ids
object_ids-append g [] ys = refl
object_ids-append g (x ∷ xs) ys = ap (λ t. g.object_id x ∷ t) (object_ids-append g xs ys)

module _ (g : Collection) (bad : List Key) (kept : Key) where
  abbrev finishing : Key → Dict PackFile → List Key → Dict PackFile × List Key
  finishing new_pack_prefix = remove_stale_packs (some new_pack_prefix)

  module _ (s : PackStore (List Key)) (encoded : List ℕ) (sha : Key) where
    abbrev written : PackStore (List Key)
    written = store_write g.crc32 g.pack_id finishing encoded sha s

    has-written :
        (x : Key) → contains x (oids written.idx) ≡ contains x (oids s.idx) || bytes_eq sha x
    unfolding store_write oids contains
    has-written x =
        rw (oids-append s.idx _, contains-append x (oids s.idx) (sha ∷ [])) (ground arith)

    has-written_blobs :
        (x : Key)
        → contains x (object_ids g (opened written.file))
          ≡ contains x (object_ids g (opened s.file)) || bytes_eq (g.object_id encoded) x
    unfolding store_write opened object_ids contains
    has-written_blobs x =
        rw
          (
            object_ids-append g (opened s.file) (encoded ∷ []),
            contains-append x (object_ids g (opened s.file)) (g.object_id encoded ∷ []),
          )
          (ground arith)

    pub written-IsGood : IsGood g s → Live g sha → g.object_id encoded ≡ sha → IsGood g written
    unfolding store_write
    written-IsGood good live same = record {
      packs = good.packs;
      open_indexed =
          λ x. has-written x ∙ (rw (good.open_indexed x, ← same) (sym (has-written_blobs x)));
      open_live = λ x h. elim (Bool-cases (bytes_eq sha x)) [
        | inl here ↦ rw (← bytes_eq→eq sha x here) live
        | inr other ↦ good.open_live x (ground (arith, has-written x))
      ];
    }

    pub written-Held : Held bad s kept ⊎ (sha ≡ kept) → Held bad written kept
    unfolding store_write
    written-Held (inl (inl d)) = inl d
    written-Held (inl (inr h)) = inr (ground (arith, has-written kept))
    written-Held (inr e) =
        inr (ground (arith, has-written kept, bytes_eq_refl sha, ap (bytes_eq sha) e))

  module _ (s : PackStore (List Key)) (blobs : List (List ℕ)) (file : s.file ≡ some blobs)
      (good : IsGood g s) (fresh : Fresh g bad) where
    abbrev finished : PackStore (List Key)
    finished = dropped g.crc32 g.pack_id finishing (renamed g.crc32 g.pack_id finishing blobs s)

    new_pack : PackFile
    new_pack = record { blobs = blobs; idx = write_idx s.idx }

    new_stem : Key
    new_stem = g.pack_id blobs

    new_disk : Dict PackFile
    new_disk = insert new_stem new_pack s.disk

    indexed : (x : Key) → contains x (oids s.idx) ≡ contains x (object_ids g blobs)
    unfolding opened
    indexed x = good.open_indexed x ∙ rw file

    new-IsPack : IsPack g new_stem new_pack
    unfolding new_pack new_stem
    new-IsPack = record { named = refl; indexed = λ x. contains-write_idx x s.idx ∙ indexed x }

    new_disk-ArePacks : ArePacks g new_disk
    unfolding new_disk
    new_disk-ArePacks stem pack e = elim (Bool-cases (bytes_eq new_stem stem)) [
      | inl here ↦
          let at_pack : new_pack ≡ pack =
            some-injective new_pack pack
              (sym (lookup-insert new_stem stem new_pack s.disk ∙ rw here) ∙ e) in
          rw (← bytes_eq→eq new_stem stem here, ← at_pack) new-IsPack
      | inr other ↦
          good.packs stem pack (sym (lookup-insert new_stem stem new_pack s.disk ∙ rw other) ∙ e)
    ]

    -- The new pack is on the new disk, whatever is removed.
    at_new_stem : lookup new_stem (remove_stems (some new_stem) s.user new_disk) ≡ some new_pack
    unfolding new_disk is_stem
    at_new_stem =
        lookup-remove_stems (some new_stem) s.user new_disk new_stem new_pack
          (lookup-insert new_stem new_stem new_pack s.disk ∙ rw (bytes_eq_refl new_stem))
          (inr (bytes_eq_refl new_stem))

    in_new_pack :
        contains kept (object_ids g blobs) ≡ true
        → OnDiskBut bad (remove_stems (some new_stem) s.user new_disk) kept
    unfolding new_pack new_stem
    in_new_pack h = record {
      stem = new_stem;
      pack = new_pack;
      found = at_new_stem;
      has = contains-write_idx kept s.idx ∙ (indexed kept ∙ h);
      apart = fresh blobs (λ x c. good.open_live x (indexed x ∙ c));
    }

    in_old_pack :
        OnDiskBut (bad ++ s.user) s.disk kept
        → OnDiskBut bad (remove_stems (some new_stem) s.user new_disk) kept
    in_old_pack d = elim (Bool-cases (bytes_eq new_stem d.stem)) [
      | inl replaced ↦
          let old = good.packs d.stem d.pack d.found in
          let same : d.pack.blobs ≡ blobs = g.unique d.pack.blobs blobs (
            sym old.named ∙ sym (bytes_eq→eq new_stem d.stem replaced) ∙ unfold new_stem in refl) in
          in_new_pack
            (ap (λ t. contains kept (object_ids g t)) (sym same) ∙ (sym (old.indexed kept) ∙ d.has))
      | inr other ↦ record {
        stem = d.stem;
        pack = d.pack;
        found =
            lookup-remove_stems (some new_stem) s.user new_disk d.stem d.pack
              (unfold new_disk in
                (lookup-insert new_stem d.stem new_pack s.disk ∙ rw other d.found))
              (inl (ground (arith, contains-append d.stem bad s.user, d.apart)));
        has = d.has;
        apart = ground (arith, contains-append d.stem bad s.user, d.apart);
      }
    ]

    now_on_disk :
        Held bad s kept → OnDiskBut bad (remove_stems (some new_stem) s.user new_disk) kept
    now_on_disk (inl d) = in_old_pack d
    now_on_disk (inr h) = in_new_pack (sym (indexed kept) ∙ h)

    pub finished-Safe : Held bad s kept → Safe g bad kept finished
    unfolding dropped renamed remove_stale_packs opened oids contains object_ids
    finished-Safe held =
        let d : OnDiskBut bad finished.disk kept =
          unfold new_disk new_pack new_stem in now_on_disk held in
        record {
          good = record {
            packs = λ stem pack e.
                unfold new_disk new_pack new_stem in
                new_disk-ArePacks stem pack
                  (lookup_before-remove_stems (some new_stem) s.user new_disk stem pack e);
            open_indexed = λ x. refl;
            open_live = λ x h. ground (arith, h);
          };
          on_disk = OnDiskBut-weaken bad finished.disk kept d;
          held = inl (rw (append-nil bad) d);
        }
