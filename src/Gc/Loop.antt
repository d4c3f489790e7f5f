-- ===== src/Gc/Loop.antt =====
-- The loop of a sweep over the packs: an object that is live stays safe.
use mathlib.Core.Option.{some-injective}
use bup.Base.{
  ℕ, suc, ◌≡◌, ◌⊎◌, inl, inr, refl, sym, ap, ◌∙◌, arith, Bool, true, false, some, List, [], ◌∷◌,
  length, bytes_eq, bytes_eq→eq, Bool-cases,
}
use bup.Base.Dict.{Key, lookup, contains, contains-append}
use bup.Base.Error.{ok, err, undefined}
use bup.Git.PackWriter.{IdxEntry, PackFile, PackStore, Outcome}
use bup.Gc.{oids, Writer, next, stale_pack, copy, rewrite}
use bup.Gc.Disk.{OnDisk}
use bup.Gc.Keep.{Collection, Live, IsGood, IsPack, Fresh, Held, Safe, After, object_ids}
use bup.Gc.Copy.{copy-After}

pub oids-length : (idx : List IdxEntry) → length (oids idx) ≡ length idx
unfolding oids
oids-length [] = refl
oids-length (e ∷ idx) = ap suc (oids-length idx)

module _ (g : Collection) (kept : Key) where
  pub next-After :
      {A B : Type 0} (before after : List Key) (o : Outcome Writer A)
      (more : Writer → Outcome Writer B)
      → After g before kept o
      → ((w : Writer) → Safe g before kept w.store → After g after kept (more w))
      → After g after kept (next o more)
  unfolding next
  next-After before after (ok a, w) more h k = k w h
  next-After before after (err e, w) more h k = h
  next-After before after (undefined, w) more h k = h

  pub none_bad : Fresh g []
  unfolding contains
  none_bad bs h = refl

  -- A pack with an object that is not live has another name than what a sweep writes.
  pub dead-Fresh :
      (stem : Key) (pack : PackFile) (d : Key)
      → IsPack g stem pack
      → contains d (oids pack.idx) ≡ true
      → ¬ (Live g d)
      → Fresh g (stem ∷ [])
  unfolding contains
  dead-Fresh stem pack d p i dead bs live = elim (Bool-cases (bytes_eq stem (g.pack_id bs))) [
    | inl same ↦
        let blobs : bs ≡ pack.blobs =
          g.unique bs pack.blobs (sym (bytes_eq→eq stem (g.pack_id bs) same) ∙ p.named) in
        absurd
          (dead (live d (ap (λ t. contains d (object_ids g t)) blobs ∙ (sym (p.indexed d) ∙ i))))
    | inr other ↦ rw other refl
  ]

  module _ (stem : Key) (pack : PackFile) (s : PackStore (List Key))
      (found : lookup stem s.disk ≡ some pack) where
    -- The object is in the pack, or held apart from it.
    pub here_or_Held :
        Held [] s kept → Held (stem ∷ []) s kept ⊎ (contains kept (oids pack.idx) ≡ true)
    unfolding contains
    here_or_Held (inr writing) = inl (inr writing)
    here_or_Held (inl d) = elim (Bool-cases (bytes_eq stem d.stem)) [
      | inl same ↦
          let at_pack : pack ≡ d.pack =
            some-injective pack d.pack
              (sym found ∙ (ap (λ t. lookup t s.disk) (bytes_eq→eq stem d.stem same) ∙ d.found)) in
          inr (ap (λ p. contains kept (oids p.idx)) at_pack ∙ d.has)
      | inr other ↦ inl (
          inl (record {
            stem = d.stem;
            pack = d.pack;
            found = d.found;
            has = d.has;
            apart = ground (arith, other, d.apart);
          }))
    ]

  pub stale_pack-Safe :
      (stem : Key) (w : Writer)
      → IsGood g w.store
      → OnDisk w.store.disk kept
      → Held (stem ∷ []) w.store kept
      → Safe g [] kept (stale_pack stem w).store
  unfolding stale_pack contains
  stale_pack-Safe stem w good on_disk held = record {
    good = record {
      packs = good.packs;
      open_indexed = good.open_indexed;
      open_live = good.open_live;
    };
    on_disk = on_disk;
    held = moved held;
  }
    where
      moved : Held (stem ∷ []) w.store kept → Held [] (stale_pack stem w).store kept
      moved (inr writing) = inr writing
      moved (inl d) = inl (record {
        stem = d.stem;
        pack = d.pack;
        found = d.found;
        has = d.has;
        apart = rw (contains-append d.stem w.store.user (stem ∷ [])) (ground (arith, d.apart));
      })

  module _ (mostly_live : ℕ → ℕ → Bool) where
    abbrev rewriting : List Key → List Key → Writer → Outcome Writer (Unit {0})
    rewriting = rewrite g.cat g.live_objects g.live_trees mostly_live g.encode g.crc32 g.pack_id

    -- Still to be written.
    abbrev ToWrite : List Key → List Key → Type 0
    ToWrite live shas = (contains kept shas ≡ true) × (contains kept live ≡ true)

    both-After :
        (bad : List Key) (o : Outcome Writer Key) (more : Writer → Outcome Writer (Unit {0}))
        (T : Type 0)
        → After g [] kept o
        → After g bad kept o ⊎ T
        → ((w : Writer)
            → Safe g [] kept w.store
            → Held bad w.store kept ⊎ T
            → After g bad kept (more w))
        → After g bad kept (next o more)
    unfolding next
    both-After bad (ok a, w) more T h (inl s) k = k w h (inl s.held)
    both-After bad (ok a, w) more T h (inr t) k = k w h (inr t)
    both-After bad (err e, w) more T h t k = h
    both-After bad (undefined, w) more T h t k = h

    module _ (bad : List Key) (fresh : Fresh g bad) (live : List Key)
        (only_live : (sha : Key) → contains sha live ≡ true → Live g sha) where
      pub rewrite-After :
          (shas : List Key) (w : Writer)
          → Safe g [] kept w.store
          → Held bad w.store kept ⊎ ToWrite live shas
          → After g bad kept (rewriting live shas w)
      unfolding rewrite contains
      rewrite-After [] w safe (inl held) = record {
        good = safe.good;
        on_disk = safe.on_disk;
        held = held;
      }
      rewrite-After [] w safe (inr (i, l)) = absurd (ground (arith, i))
      rewrite-After (sha ∷ shas) w safe h = elim (Bool-cases (contains sha live)) [
        | inl copied ↦ rw copied (
            both-After bad
              (copy g.cat g.live_objects g.live_trees mostly_live g.encode g.crc32 g.pack_id sha
                (g.cat sha) w)
              (rewriting live shas) (ToWrite live shas)
              (copy-After g [] kept none_bad w safe.good safe.on_disk sha (only_live sha copied)
                (inl safe.held) mostly_live)
              (written copied h) (rewrite-After shas))
        | inr dead ↦ rw dead (rewrite-After shas w safe (skipped dead h))
      ]
        where
          skipped :
              contains sha live ≡ false
              → Held bad w.store kept ⊎ ToWrite live (sha ∷ shas)
              → Held bad w.store kept ⊎ ToWrite live shas
          skipped dead (inl held) = inl held
          skipped dead (inr (i, l)) = elim (Bool-cases (bytes_eq sha kept)) [
            | inl same ↦
                absurd
                  (ground (arith, dead, l, ap (λ x. contains x live) (bytes_eq→eq sha kept same)))
            | inr other ↦ inr (ground (arith, i, other), l)
          ]

          written :
              contains sha live ≡ true
              → Held bad w.store kept ⊎ ToWrite live (sha ∷ shas)
              → After g bad kept (
                  copy g.cat g.live_objects g.live_trees mostly_live g.encode g.crc32 g.pack_id sha
                    (g.cat sha)
                    w)
                ⊎ ToWrite live shas
          written copied (inl held) = inl (
              copy-After g bad kept fresh w safe.good safe.on_disk sha (only_live sha copied)
                (inl held) mostly_live)
          written copied (inr (i, l)) = elim (Bool-cases (bytes_eq sha kept)) [
            | inl same ↦ inl (
                copy-After g bad kept fresh w safe.good safe.on_disk sha (only_live sha copied)
                  (inr (bytes_eq→eq sha kept same)) mostly_live)
            | inr other ↦ inr (ground (arith, i, other), l)
          ]
