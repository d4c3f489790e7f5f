-- ===== src/Midx/Tests.antt =====
-- A midx file of two oids over one index, and the theorems on it.
use mathlib.Core.Path.{◌≡◌, refl}
use bup.Base.{
  ℕ, zero, suc, ◌↔◌, ◌<◌, ◌≤◌, Bool, true, false, List, [], ◌∷◌, ◌++◌, arith, All, ltb, ◌&&◌,
}
use bup.Base.Bytes.{ascii, unpack_from}
use bup.Base.Error.{ok}
use bup.Base.Lex.{bytes_lt, IsRising}
use bup.Midx.{PackMidx, firstword, fanget, get, get_idxname, get_idx_i, or_index_error, exists}
use bup.Midx.Words.{IsByte, IsOid, slot, word}
use bup.Midx.Search.{IsMidxOf, LocatesName, exists-LocatesName}

abbrev sevens : List ℕ
sevens = 7 ∷ 7 ∷ 7 ∷ 7 ∷ 7 ∷ 7 ∷ 7 ∷ 7 ∷ 7 ∷ 7 ∷ 7 ∷ 7 ∷ 7 ∷ 7 ∷ 7 ∷ 7 ∷ 7 ∷ 7 ∷ 7 ∷ []

abbrev oid_at : ℕ → List ℕ
oid_at zero = 1 ∷ sevens
oid_at (suc i) = 200 ∷ sevens

abbrev be32 : ℕ → List ℕ
be32 n = 0 ∷ 0 ∷ 0 ∷ n ∷ []

-- One fanout bit; the first oid is in slot 0, the second in slot 1.
abbrev two_oids : PackMidx
two_oids = record {
  name = ascii "m.midx";
  map =
      ascii "MIDX"
      ++ be32 4
      ++ be32 1
      ++ be32 1
      ++ be32 2
      ++ oid_at 0
      ++ oid_at 1
      ++ be32 0
      ++ be32 0
      ++ ascii "p.idx";
  bits = 1;
  nsha = 2;
  idxnames = ascii "p.idx" ∷ [];
}

two_oids-reads : (i : ℕ) → i < 2 → get two_oids i ≡ ok (oid_at i)
unfolding get
two_oids-reads zero h = refl
two_oids-reads (suc zero) h = refl
two_oids-reads (suc (suc i)) h = absurd (omega arith)

are_bytes : List ℕ → Bool
are_bytes [] = true
are_bytes (b ∷ oid) = ltb b 256 && are_bytes oid

are_bytes→All : (oid : List ℕ) → are_bytes oid ≡ true → All IsByte oid
unfolding are_bytes
are_bytes→All [] h = tt
are_bytes→All (b ∷ oid) h = (ground arith, are_bytes→All oid (ground arith))

two_oids-IsOid : (i : ℕ) → IsOid (oid_at i)
unfolding are_bytes
two_oids-IsOid zero = (refl, are_bytes→All (oid_at 0) refl)
two_oids-IsOid (suc i) = (refl, are_bytes→All (oid_at 1) refl)

two_oids-IsRising : IsRising oid_at 2
unfolding bytes_lt
two_oids-IsRising zero zero h k = absurd (omega arith)
two_oids-IsRising zero (suc j) h k = refl
two_oids-IsRising (suc i) j h k = absurd (omega arith)

two_oids-counts :
    (el : ℕ)
    → el < 2
    → (c : ℕ) × (fanget two_oids el ≡ ok c)
      × (c ≤ 2)
      × ((i : ℕ) → i < 2 → (i < c) ↔ (slot (oid_at i) 1 ≤ el))
unfolding fanget firstword slot word
two_oids-counts zero h = (1, refl, omega arith, λ i hi. first i)
  where
    first : (i : ℕ) → (i < 1) ↔ (slot (oid_at i) 1 ≤ 0)
    first zero = (λ e. omega arith, λ e. omega arith)
    first (suc i) = (λ e. omega arith, λ e. omega arith)
two_oids-counts (suc zero) h = (2, refl, omega arith, λ i hi. (λ e. both i, λ e. hi))
  where
    both : (i : ℕ) → slot (oid_at i) 1 ≤ 1
    both zero = omega arith
    both (suc i) = omega arith
two_oids-counts (suc (suc el)) h = absurd (omega arith)

two_oids-IsMidxOf : IsMidxOf two_oids oid_at 2
two_oids-IsMidxOf = record {
  rising = two_oids-IsRising;
  reads = two_oids-reads;
  oids = λ i h. two_oids-IsOid i;
  some_bits = omega arith;
  few_bits = omega arith;
  counts = two_oids-counts;
}

idxnames : (i : ℕ) → i < 2 → get_idxname two_oids i ≡ ok (ascii "p.idx")
unfolding get_idxname get_idx_i or_index_error unpack_from
idxnames zero h = refl
idxnames (suc zero) h = refl
idxnames (suc (suc i)) h = absurd (omega arith)

exists-LocatesName_example :
    LocatesName oid_at
      (λ i. ascii "p.idx")
      2
      (oid_at 1)
      true
      (exists two_oids (oid_at 1) true false)
exists-LocatesName_example =
    exists-LocatesName two_oids oid_at (λ i. ascii "p.idx") 2 two_oids-IsMidxOf idxnames (oid_at 1)
      true (two_oids-IsOid 1)
