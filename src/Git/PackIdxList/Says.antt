-- ===== src/Git/PackIdxList/Says.antt =====
-- What one index of a `PackIdxList` says of an oid, an index of a pack or a midx.
use bup.Base.{
  ℕ, ◌<◌, ◌≡◌, refl, arith, Bool, true, false, if◌then◌else◌, Option, none, some, List, [], ◌∷◌,
  length,
}
use mathlib.Core.Path.{subst}
use bup.Base.Bytes.{basename}
use bup.Base.Error.{Result, ok, err, undefined, ◌>>=◌}
use bup.Git.PackIdx.{PackIdx, ObjectLocation}
use bup.Git.PackIdx.Search.{IsIndexOf, Locates, exists-Locates, first_byte}
use bup.Midx.{PackMidx, get_idxname}
use bup.Midx.Words.{IsOid}
use bup.Midx.Search.{IsMidxOf, LocatesName, exists-LocatesName}
use bup.Git.PackIdxList.{
  Pack, idx, midx, is_midx, pack_exists, has_offset, asserted, open_pack, with_offset, ask,
}

-- What the indexes of a repository have.
pub record Contents : Type 0 where
  pub oid_at : Pack → ℕ → List ℕ
  pub count : Pack → ℕ
  pub ofs_at : PackIdx → ℕ → ℕ
  pub index_at : PackMidx → ℕ → PackIdx
  pub name_at : PackMidx → ℕ → List ℕ

module _ {Bloom : Type 0} (bloom_len : Bloom → ℕ) (bloom_exists : Bloom → List ℕ → Bool)
    (open_idx : List ℕ → Result PackIdx) (c : Contents) where
  -- The pack has the oid.
  abbrev pub Lists : Pack → List ℕ → Type 0
  Lists p hash = (i : ℕ) × (i < c.count p) × (c.oid_at p i ≡ hash)

  -- An index whose offsets can be read.
  abbrev pub IsIdx : PackIdx → Type 0
  IsIdx p =
      IsIndexOf p (c.oid_at (idx p)) (c.count (idx p))
      × ((i : ℕ) → i < c.count (idx p) → p.ofs_from_idx i ≡ ok (c.ofs_at p i))

  -- A midx, too, of which each oid is in an index of the name that it gives.
  abbrev pub IsPack : Pack → Type 0
  IsPack (idx p) = IsIdx p
  IsPack (midx m) =
      IsMidxOf m (c.oid_at (midx m)) (c.count (midx m))
      × ((i : ℕ) → i < c.count (midx m) → get_idxname m i ≡ ok (c.name_at m i))
      × ((i : ℕ)
          → i < c.count (midx m)
          → (open_idx (c.name_at m i) ≡ ok (c.index_at m i))
            × IsIdx (c.index_at m i)
            × Lists (idx (c.index_at m i)) (c.oid_at (midx m) i))

  -- The location of an oid in an index, with its source and its offset as they are wanted.
  abbrev pub IsInIdx : PackIdx → List ℕ → Bool → Bool → ObjectLocation → Type 0
  IsInIdx p hash want_source want_offset loc =
      (i : ℕ) × (i < c.count (idx p))
      × (c.oid_at (idx p) i ≡ hash)
      × (loc.pack ≡ (if want_source then some (basename p.name) else none))
      × (loc.offset ≡ (if want_offset then some (c.ofs_at p i) else none))

  -- In a midx, the offset is that in the index which the midx names.
  abbrev pub IsInPack : Pack → List ℕ → Bool → Bool → ObjectLocation → Type 0
  IsInPack (idx p) hash want_source want_offset loc = IsInIdx p hash want_source want_offset loc
  IsInPack (midx m) hash want_source true loc =
      (i : ℕ) × (i < c.count (midx m))
      × (c.oid_at (midx m) i ≡ hash)
      × IsInIdx (c.index_at m i) hash want_source true loc
  IsInPack (midx m) hash want_source false loc =
      (i : ℕ) × (i < c.count (midx m))
      × (c.oid_at (midx m) i ≡ hash)
      × (loc.pack ≡ (if want_source then some (c.name_at m i) else none))
      × (loc.offset ≡ none)

  -- What a pack says: where the oid is, once the offset has been looked up, or that it lacks it.
  unfoldable pub Says : List ℕ → Bool → Bool → Pack → Result (Option ObjectLocation) → Type 0
  Says hash want_source want_offset p (ok (some ret)) =
      (loc : ObjectLocation) × (with_offset bloom_len bloom_exists open_idx hash want_source
          want_offset ret
        ≡ ok (some loc))
      × IsInPack p hash want_source want_offset loc
  Says hash want_source want_offset p (ok none) = ¬ Lists p hash
  Says hash want_source want_offset p (err e) = ⊥
  Says hash want_source want_offset p undefined = ⊥

  idx-Says :
      (hash : List ℕ) (s o : Bool) (p : PackIdx) (r : Result (Option ObjectLocation))
      → Locates p (c.oid_at (idx p)) (c.ofs_at p) (c.count (idx p)) hash s o r
      → Says hash s o (idx p) r
  unfolding Says with_offset has_offset
  idx-Says hash s true p (ok (some ret)) h =
      let offset : has_offset ret ≡ true = rw h.4 refl in (ret, rw offset refl, h)
  idx-Says hash s false p (ok (some ret)) h = (ret, refl, h)
  idx-Says hash s o p (ok none) h = λ (i, less, same). h i less same
  idx-Says hash s o p (err e) h = h
  idx-Says hash s o p undefined h = h

  -- An index that has the oid gives its place.
  found_in :
      (p : PackIdx) (hash : List ℕ) (s : Bool) (r : Result (Option ObjectLocation))
      → Lists (idx p) hash
      → Locates p (c.oid_at (idx p)) (c.ofs_at p) (c.count (idx p)) hash s true r
      → (loc : ObjectLocation) × ((r >>= asserted) ≡ ok (some loc)) × IsInIdx p hash s true loc
  unfolding asserted
  found_in p hash s (ok (some loc)) l h = (loc, refl, h)
  found_in p hash s (ok none) (i, less, same) h = absurd (h i less same)
  found_in p hash s (err e) l h = absurd h
  found_in p hash s undefined l h = absurd h

  midx-Says :
      (hash : List ℕ) (s : Bool) (m : PackMidx) (r : Result (Option ObjectLocation))
      → length hash ≡ 20
      → first_byte hash < 256
      → IsPack (midx m)
      → LocatesName (c.oid_at (midx m)) (c.name_at m) (c.count (midx m)) hash true r
      → Says hash s true (midx m) r
  unfolding Says with_offset open_pack has_offset
  midx-Says hash s m (ok (some ret)) long byte (table, named, opens) (i, less, same, pack, offset) =
      let np = c.index_at m i in
      let (opened, index, there) = opens i less in
      let (loc, e, here) = found_in np hash s _ (subst (Lists (idx np)) same there) (
        exists-Locates np (c.oid_at (idx np)) (c.ofs_at np) (c.count (idx np)) index.0 index.1 hash
          s true long byte) in
      let lacks : has_offset ret ≡ false = rw offset refl in
      (loc, rw (lacks, pack, opened) e, (i, less, same, here))
  midx-Says hash s m (ok none) long byte good h = λ (i, less, same). h i less same
  midx-Says hash s m (err e) long byte good h = h
  midx-Says hash s m undefined long byte good h = h

  named-Says :
      (hash : List ℕ) (s : Bool) (m : PackMidx) (r : Result (Option ObjectLocation))
      → LocatesName (c.oid_at (midx m)) (c.name_at m) (c.count (midx m)) hash s r
      → Says hash s false (midx m) r
  unfolding Says with_offset
  named-Says hash s m (ok (some ret)) h = (ret, refl, h)
  named-Says hash s m (ok none) h = λ (i, less, same). h i less same
  named-Says hash s m (err e) h = h
  named-Says hash s m undefined h = h

  IsOid-first_byte : (hash : List ℕ) → IsOid hash → first_byte hash < 256
  IsOid-first_byte [] h = omega arith
  IsOid-first_byte (b ∷ hash) (l, bytes) = bytes.0

  pub ask-Says :
      (hash : List ℕ) (s o : Bool) (p : Pack)
      → IsOid hash
      → IsPack p
      → Says hash s o p (ask bloom_len bloom_exists open_idx hash s o p)
  unfolding ask is_midx pack_exists
  ask-Says hash s true (idx p) oid (index, offsets) = idx-Says hash s true p _ (
      exists-Locates p (c.oid_at (idx p)) (c.ofs_at p) (c.count (idx p)) index offsets hash s true
        oid.0 (IsOid-first_byte hash oid))
  ask-Says hash s false (idx p) oid (index, offsets) = idx-Says hash s false p _ (
      exists-Locates p (c.oid_at (idx p)) (c.ofs_at p) (c.count (idx p)) index offsets hash s false
        oid.0 (IsOid-first_byte hash oid))
  ask-Says hash s true (midx m) oid (table, named, opens) =
      midx-Says hash s m _ oid.0 (IsOid-first_byte hash oid) (table, named, opens)
        (exists-LocatesName m (c.oid_at (midx m)) (c.name_at m) (c.count (midx m)) table named hash
          true oid)
  ask-Says hash s false (midx m) oid (table, named, opens) = named-Says hash s m _ (
      exists-LocatesName m (c.oid_at (midx m)) (c.name_at m) (c.count (midx m)) table named hash s
        oid)
