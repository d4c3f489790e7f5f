-- ===== src/Git/PackIdxList.antt =====
-- `PackIdxList` of lib/bup/git.py: the indexes of the packs of a repository, in the order in which
-- they are searched. The bloom filter is C, and enters as its test and its number of entries, as
-- does open_idx on the directory of the packs. The count of searches is left out.
pub mod Says
pub mod Found
use bup.Base.{
  ℕ, Bool, true, false, ◌&&◌, not, Option, none, some, List, [], ◌∷◌, ◌++◌, ◌==◌, if◌then◌else◌,
}
use bup.Base.Error.{Result, ok, err, undefined, type_error, assertion_error, ◌>>=◌}
use bup.Git.PackIdx.{PackIdx, ObjectLocation}
use bup.Git.PackIdx
use bup.Midx.{PackMidx}
use bup.Midx

pub data Pack : Type 0 where
  idx : PackIdx → Pack
  midx : PackMidx → Pack

unfoldable pub is_midx : Pack → Bool
is_midx (idx p) = false
is_midx (midx p) = true

-- p.exists(…)
unfoldable pub pack_exists : Pack → List ℕ → Bool → Bool → Result (Option ObjectLocation)
pack_exists (idx p) hash want_source want_offset = PackIdx.exists p hash want_source want_offset
pack_exists (midx p) hash want_source want_offset = Midx.exists p hash want_source want_offset

pub record PackIdxList (Bloom : Type 0) : Type 0 where
  pub packs : List Pack
  pub do_bloom : Bool
  pub bloom : Option Bloom

unfoldable pub has_offset : ObjectLocation → Bool
has_offset loc = elim loc.offset [ none ↦ false | some ofs ↦ true ]

-- `assert ret`
unfoldable pub asserted : Option ObjectLocation → Result (Option ObjectLocation)
asserted none = err assertion_error
asserted (some loc) = ok (some loc)

module _ {Bloom : Type 0} (bloom_len : Bloom → ℕ) (bloom_exists : Bloom → List ℕ → Bool)
    (open_idx : List ℕ → Result PackIdx) where
  -- open_idx(os.path.join(self.dir, ret.pack))
  unfoldable pub open_pack : Option (List ℕ) → Result PackIdx
  open_pack none = err type_error
  open_pack (some name) = open_idx name

  -- The offset, which a midx does not have, is looked up in the index that the midx names.
  unfoldable pub with_offset :
      List ℕ → Bool → Bool → ObjectLocation → Result (Option ObjectLocation)
  with_offset hash want_source want_offset ret =
      if want_offset && not (has_offset ret)
      then (do
        np ← open_pack ret.pack
        found ← PackIdx.exists np hash want_source true
        asserted found)
      else ok (some ret)

  unfoldable pub ask : List ℕ → Bool → Bool → Pack → Result (Option ObjectLocation)
  ask hash want_source want_offset p =
      if want_offset && is_midx p
      then pack_exists p hash true false
      else pack_exists p hash want_source want_offset

  -- The loop over the packs, of which those in `before` do not have the object.
  unfoldable pub search_packs :
      List ℕ
      → Bool
      → Bool
      → PackIdxList Bloom
      → List Pack
      → List Pack
      → Result (Option ObjectLocation) × PackIdxList Bloom
  search_packs hash want_source want_offset s before [] = (ok none, record s { do_bloom = true })
  search_packs hash want_source want_offset s before (p ∷ after) =
      let further = search_packs hash want_source want_offset s (before ++ p ∷ []) after in
      elim (ask hash want_source want_offset p) [
        | ok none ↦ further
        | ok (some ret) ↦
            (with_offset hash want_source want_offset ret, record s { packs = p ∷ before ++ after })
        | err e ↦ (err e, s)
        | undefined ↦ (undefined, s)
      ]

  -- The bloom filter, if it is to be asked and is not empty.
  unfoldable pub bloom_rejects : List ℕ → Bool → Option Bloom → Bool
  bloom_rejects hash do_bloom none = false
  bloom_rejects hash do_bloom (some bloom) =
      do_bloom && not (bloom_len bloom == 0) && not (bloom_exists bloom hash)

  unfoldable pub bloom_accepts : List ℕ → Bool → Option Bloom → Bool
  bloom_accepts hash do_bloom none = false
  bloom_accepts hash do_bloom (some bloom) =
      do_bloom && not (bloom_len bloom == 0) && bloom_exists bloom hash

  pub exists :
      List ℕ → Bool → Bool → PackIdxList Bloom → Result (Option ObjectLocation) × PackIdxList Bloom
  exists hash want_source want_offset s =
      if bloom_rejects hash s.do_bloom s.bloom
      then (ok none, s)
      else search_packs hash want_source want_offset
          (record s { do_bloom = s.do_bloom && not (bloom_accepts hash s.do_bloom s.bloom) }) []
          s.packs
