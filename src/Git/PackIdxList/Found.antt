-- ===== src/Git/PackIdxList/Found.antt =====
-- The lookup of `PackIdxList` finds what one of its indexes has, and keeps its indexes.
use bup.Base.{
  ℕ, ◌≡◌, refl, sym, arith, Bool, true, false, Option, none, some, List, [], ◌∷◌, ◌++◌,
  append_assoc, append-nil, Any, ◌∙◌, Bool-cases, inl, inr, All,
}
use mathlib.Core.List.{Perm, perm_middle}
use mathlib.Core.List.Perm
use bup.Base.Error.{Result, ok, err, undefined}
use bup.Git.PackIdx.{PackIdx, ObjectLocation}
use bup.Midx.Words.{IsOid}
use bup.Git.PackIdxList.Says.{Contents, Lists, IsPack, IsInPack, Says, ask-Says}
use bup.Git.PackIdxList.{Pack, PackIdxList, with_offset, ask, search_packs, bloom_rejects, exists}

module _ {Bloom : Type 0} (bloom_len : Bloom → ℕ) (bloom_exists : Bloom → List ℕ → Bool)
    (open_idx : List ℕ → Result PackIdx) (c : Contents) where
  abbrev Has : Pack → List ℕ → Type 0
  Has = Lists bloom_len bloom_exists open_idx c

  -- What the list says: where one of its packs has the oid, or that none of them has it.
  abbrev pub IsAnswer : List ℕ → Bool → Bool → List Pack → Result (Option ObjectLocation) → Type 0
  IsAnswer hash want_source want_offset packs (ok (some loc)) =
      Any (λ p. IsInPack bloom_len bloom_exists open_idx c p hash want_source want_offset loc) packs
  IsAnswer hash want_source want_offset packs (ok none) = All (λ p. ¬ Has p hash) packs
  IsAnswer hash want_source want_offset packs (err e) = ⊥
  IsAnswer hash want_source want_offset packs undefined = ⊥

  -- The bloom filter accepts what a pack has.
  abbrev pub NoFalseNegative : List ℕ → PackIdxList Bloom → Type 0
  NoFalseNegative hash s =
      (bloom : Bloom)
      → s.bloom ≡ some bloom
      → bloom_exists bloom hash ≡ false
      → All (λ p. ¬ Has p hash) s.packs

  Found :
      List ℕ → Bool → Bool → List Pack → Result (Option ObjectLocation) × PackIdxList Bloom → Type 0
  Found hash want_source want_offset packs x =
      IsAnswer hash want_source want_offset packs x.0 × Perm packs x.1.packs

  Any-inside :
      (P : Pack → Type 0) (before : List Pack) (p : Pack) (after : List Pack)
      → P p
      → Any P (before ++ p ∷ after)
  Any-inside P [] p after h = inl h
  Any-inside P (q ∷ before) p after h = inr (Any-inside P before p after h)

  All-append :
      (P : Pack → Type 0) (before : List Pack) (p : Pack)
      → All P before
      → P p
      → All P (before ++ p ∷ [])
  All-append P [] p h k = (k, tt)
  All-append P (q ∷ before) p (h, hs) k = (h, All-append P before p hs k)

  search_packs-Found :
      (hash : List ℕ) (want_source want_offset : Bool) (s : PackIdxList Bloom)
      (before after : List Pack)
      → IsOid hash
      → s.packs ≡ before ++ after
      → All (IsPack bloom_len bloom_exists open_idx c) after
      → All (λ p. ¬ Has p hash) before
      → Found hash want_source want_offset
          (before ++ after)
          (search_packs bloom_len bloom_exists open_idx hash want_source want_offset s before after)
  unfolding search_packs Found Says
  search_packs-Found hash ws wo s before [] oid e good none_before =
      (rw (append-nil before) none_before, rw e (Perm.refl (before ++ [])))
  search_packs-Found hash ws wo s before (p ∷ after) oid e (good, goods) none_before =
      said (ask bloom_len bloom_exists open_idx hash ws wo p)
        (ask-Says bloom_len bloom_exists open_idx c hash ws wo p oid good)
        (λ lacks. rw (← append_assoc before (p ∷ []) after) (
          search_packs-Found hash ws wo s (before ++ p ∷ []) after oid
            (e ∙ sym (append_assoc before (p ∷ []) after)) goods
            (All-append _ before p none_before lacks)))
    where
      said :
          (r : Result (Option ObjectLocation))
          → Says bloom_len bloom_exists open_idx c hash ws wo p r
          → ((¬ Has p hash)
              → Found hash ws wo (before ++ p ∷ after) (
                  search_packs bloom_len bloom_exists open_idx hash ws wo s
                    (before ++ p ∷ [])
                    after))
          → Found hash ws wo (before ++ p ∷ after) (elim r [
            | ok none ↦
                search_packs bloom_len bloom_exists open_idx hash ws wo s (before ++ p ∷ []) after
            | ok (some ret) ↦ (
              with_offset bloom_len bloom_exists open_idx hash ws wo ret,
              record s { packs = p ∷ before ++ after },
            )
            | err e ↦ (err e, s)
            | undefined ↦ (undefined, s)
          ])
      said (ok none) lacks rest = rest lacks
      said (ok (some ret)) (loc, e', there) rest = rw e' (
        Any-inside (λ q. IsInPack bloom_len bloom_exists open_idx c q hash ws wo loc) before p after
            there,
        perm_middle before after,
      )
      said (err x) h rest = absurd h
      said undefined h rest = absurd h

  rejected-none :
      (hash : List ℕ) (s : PackIdxList Bloom)
      → NoFalseNegative hash s
      → bloom_rejects bloom_len bloom_exists open_idx hash s.do_bloom s.bloom ≡ true
      → All (λ p. ¬ Has p hash) s.packs
  unfolding bloom_rejects
  rejected-none hash s right h = by_bloom s.bloom refl h
    where
      by_bloom :
          (bloom : Option Bloom)
          → s.bloom ≡ bloom
          → bloom_rejects bloom_len bloom_exists open_idx hash s.do_bloom bloom ≡ true
          → All (λ p. ¬ Has p hash) s.packs
      by_bloom none e h = absurd (cc)
      by_bloom (some bloom) e h = right bloom e (ground arith)

  -- On a list of pack indexes and of midxes with 1 to 30 fanout bits, all of which can be read,
  -- where each oid of a midx is in an index of the name that it gives, for an oid of 20 bytes, and
  -- a bloom filter, if there is one, that accepts what a pack has: exists raises nothing. If one of
  -- the packs has the oid, it returns a location that is right for one of these packs: the source,
  -- if that is wanted, is the name of the index, and the offset, if that is wanted, is the one at
  -- which the index has the oid, through a midx the index that it names. If none has the oid, it
  -- returns None; and the packs of the list are the same after it, in some order.
  pub exists-Found :
      (hash : List ℕ) (want_source want_offset : Bool) (s : PackIdxList Bloom)
      → IsOid hash
      → All (IsPack bloom_len bloom_exists open_idx c) s.packs
      → NoFalseNegative hash s
      → IsAnswer hash want_source want_offset s.packs
          ((exists bloom_len bloom_exists open_idx hash want_source want_offset s).0)
        × Perm s.packs
            ((exists bloom_len bloom_exists open_idx hash want_source want_offset s).1.packs)
  unfolding exists Found
  exists-Found hash ws wo s oid good bloom =
      elim (Bool-cases (bloom_rejects bloom_len bloom_exists open_idx hash s.do_bloom s.bloom)) [
        | inl rejected ↦ rw rejected (rejected-none hash s bloom rejected, Perm.refl s.packs)
        | inr asked ↦ rw asked (search_packs-Found hash ws wo _ [] s.packs oid refl good tt)
      ]
