-- ===== src/Midx/Search.antt =====
-- The interpolating lookup of `PackMidx` finds exactly the oids of the index, and never divides by
-- zero.
use native.Mathlib.Nat.{div-le_of_le-mul, mul-div_right, zero-mul, zero-div}
use bup.Base.{
  ℕ, zero, suc, ◌+◌, ◌-◌, ◌*◌, ◌/◌, ◌^◌, ◌≤◌, ◌<◌, ◌≡◌, ◌≢◌, ◌↔◌, refl, ap, ◌∙◌, arith, Bool, true,
  false, Option, none, some, List, ltb, ◌==◌, if◌then◌else◌, Bool-cases, inl, inr,
}
use bup.Base.Lex.{
  bytes_lt, bytes_lt_connex, IsRising, Answers, Within, Within-above, Within-below, Within-empty,
  Answers-cases,
}
use bup.Base.Error.{Result, ok, err, undefined}
use bup.Git.PackIdx.{ObjectLocation}
use bup.Midx.{
  get_idxname, PackMidx, firstword, get, fanget, fanget_before, exists_loop, find, location_of,
  exists,
}
use bup.Midx.Words.{
  IsOid, word, firstword-eq-word, word_mono, slot, slot_bound, slot_range, extract_bits-eq-slot,
}

-- The place that is looked at.
abbrev middle : ℕ → ℕ → ℕ → ℕ → ℕ → ℕ
middle hashv start startv end endv = start + (hashv - startv) * (end - start - 1) / (endv - startv)

record IsMiddle (hashv start startv end endv mid : ℕ) : Type 0 where
  from_start : start ≤ mid
  before_end : mid < end
  at_end : hashv ≡ endv → mid + 1 ≡ end
  at_start : hashv ≡ startv → mid ≡ start

part_of : (a d k : ℕ) → 0 < d → a ≤ d → a * k / d ≤ k
part_of a d k hd h = div-le_of_le-mul d (grind arith)

middle-IsMiddle :
    (hashv start startv end endv : ℕ)
    → start < end
    → startv < endv
    → startv ≤ hashv
    → hashv ≤ endv
    → IsMiddle hashv start startv end endv (middle hashv start startv end endv)
middle-IsMiddle hashv start startv end endv hr hv lo hi = record {
  from_start = omega arith;
  before_end = omega (
    arith,
    part_of (hashv - startv) (endv - startv) (end - start - 1) (omega arith) (omega arith),
  );
  at_end =
      λ e. rw e (omega (arith, mul-div_right (end - start - 1) {m = endv - startv} (omega arith)));
  at_start = λ e.
      let none_above : startv - startv ≡ 0 = omega arith in
      rw (e, none_above, zero-mul, zero-div) (omega arith);
}

module _ (get : ℕ → Result (List ℕ)) (oid_at : ℕ → List ℕ) (n : ℕ) (want : List ℕ)
    (rising : IsRising oid_at n) (reads : (i : ℕ) → i < n → get i ≡ ok (oid_at i))
    (oids : (i : ℕ) → i < n → IsOid (oid_at i)) (oid : IsOid want) where
  -- What holds at each round of the loop.
  record Holds (start startv end endv : ℕ) : Type 0 where
    in_table : end ≤ n
    low : startv ≤ word want
    high : word want ≤ endv
    apart : start < end → startv < endv
    within : Within oid_at n want start end

  Holds-above :
      (start startv end endv mid : ℕ)
      → Holds start startv end endv
      → IsMiddle (word want) start startv end endv mid
      → bytes_lt (oid_at mid) want ≡ true
      → Holds (mid + 1) (word (oid_at mid)) end endv
  Holds-above start startv end endv mid h m less =
      let in_range : mid < n = omega (arith, h.in_table, m.before_end) in
      let below_want : word (oid_at mid) ≤ word want =
        word_mono (oid_at mid) want (oids mid in_range) oid less in
      record {
        in_table = h.in_table;
        low = below_want;
        high = h.high;
        apart = λ more. grind (arith, m.at_end);
        within = Within-above oid_at n want rising start end mid in_range less h.within;
      }

  Holds-below :
      (start startv end endv mid : ℕ)
      → Holds start startv end endv
      → IsMiddle (word want) start startv end endv mid
      → bytes_lt want (oid_at mid) ≡ true
      → Holds start startv mid (word (oid_at mid))
  Holds-below start startv end endv mid h m more =
      let in_range : mid < n = omega (arith, h.in_table, m.before_end) in
      let above_want : word want ≤ word (oid_at mid) =
        word_mono want (oid_at mid) oid (oids mid in_range) more in
      record {
        in_table = omega (arith, h.in_table, m.before_end);
        low = h.low;
        high = above_want;
        apart = λ some_left. grind (arith, m.at_start);
        within = Within-below oid_at n want rising start end mid in_range more h.within;
      }

  exists_loop-Answers :
      (fuel start startv end endv : ℕ)
      → end - start ≤ fuel
      → Holds start startv end endv
      → Answers oid_at n want (exists_loop get want (word want) fuel start startv end endv)
  unfolding exists_loop
  exists_loop-Answers zero start startv end endv hf h =
      Within-empty oid_at n want rising start end (omega arith) h.within
  exists_loop-Answers (suc fuel) start startv end endv hf h = elim (Bool-cases (ltb start end)) [
    | inr done ↦ rw done (Within-empty oid_at n want rising start end (ground arith) h.within)
    | inl more ↦
        let apart : startv < endv = h.apart (ground arith) in
        let differ : (endv - startv == 0) ≡ false = ground arith in
        let mid : ℕ = middle (word want) start startv end endv in
        let m : IsMiddle (word want) start startv end endv mid =
          middle-IsMiddle (word want) start startv end endv (ground arith) apart h.low h.high in
        let in_range : mid < n = omega (arith, h.in_table, m.before_end) in
        let read_word : firstword (oid_at mid) ≡ ok (word (oid_at mid)) =
          firstword-eq-word (oid_at mid) (oids mid in_range) in
        elim (Bool-cases (bytes_lt (oid_at mid) want)) [
          | inl less ↦
              rw (more, differ, reads mid in_range, less, read_word)
                (exists_loop-Answers fuel (mid + 1) (word (oid_at mid)) end endv
                  (omega (arith, m.from_start)) (Holds-above start startv end endv mid h m less))
          | inr not_less ↦ elim (Bool-cases (bytes_lt want (oid_at mid))) [
            | inl greater ↦
                rw (more, differ, reads mid in_range, not_less, greater, read_word)
                  (exists_loop-Answers fuel start startv mid (word (oid_at mid))
                    (omega (arith, m.before_end, m.from_start))
                    (Holds-below start startv end endv mid h m greater))
            | inr not_greater ↦
                rw (more, differ, reads mid in_range, not_less, not_greater)
                  (in_range, bytes_lt_connex (oid_at mid) want not_less not_greater)
          ]
        ]
  ]

-- What makes a file a midx of `n` oids: it has 1 to 30 fanout bits, the oids rise, `_get` reads them, and the fanout entry of a slot
-- counts the oids whose slot is at most that.
pub record IsMidxOf (m : PackMidx) (oid_at : ℕ → List ℕ) (n : ℕ) : Type 0 where
  pub rising : IsRising oid_at n
  pub reads : (i : ℕ) → i < n → get m i ≡ ok (oid_at i)
  pub oids : (i : ℕ) → i < n → IsOid (oid_at i)
  pub some_bits : 1 ≤ m.bits
  pub few_bits : m.bits ≤ 30
  pub counts :
      (el : ℕ)
      → el < 2 ^ m.bits
      → (c : ℕ) × (fanget m el ≡ ok c)
        × (c ≤ n)
        × ((i : ℕ) → i < n → (i < c) ↔ (slot (oid_at i) m.bits ≤ el))

module _ (m : PackMidx) (oid_at : ℕ → List ℕ) (n : ℕ) (midx : IsMidxOf m oid_at n) where
  fanget_before-Within :
      (want : List ℕ) (el : ℕ)
      → slot want m.bits ≡ el
      → el < 2 ^ m.bits
      → (start : ℕ) × (fanget_before m el ≡ ok start)
        × ((i : ℕ) → i < n → oid_at i ≡ want → start ≤ i)
  unfolding fanget_before
  fanget_before-Within want zero e h = (0, refl, λ i hi same. omega arith)
  fanget_before-Within want (suc el) e h =
      let (c, f, hn, count) = midx.counts el (omega arith) in
      (
        c,
        f,
        λ i hi same.
            above c i (ap (λ (t : List ℕ). slot t m.bits) same ∙ e) (λ lt. (count i hi).0 lt),
      )
    where
      above :
          (c i : ℕ)
          → slot (oid_at i) m.bits ≡ suc el
          → (i < c → slot (oid_at i) m.bits ≤ el)
          → c ≤ i
      above c i big low = elim (Bool-cases (ltb i c)) [
        | inl lt ↦
            let small : slot (oid_at i) m.bits ≤ el = low (ground arith) in absurd (omega arith)
        | inr ge ↦ ground arith
      ]

  -- On a midx of n oids the lookup of an oid gives its place if the midx has it, and else None; it
  -- raises nothing, so that the interpolation never divides by zero.
  pub find-Answers : (want : List ℕ) → IsOid want → Answers oid_at n want (find m want)
  unfolding find
  find-Answers want oid =
      let el : ℕ = slot want m.bits in
      let bound : el < 2 ^ m.bits = slot_bound want m.bits oid (omega (arith, midx.few_bits)) in
      let (start, e₀, lo) = fanget_before-Within want el refl bound in
      let (end, e₁, hn, count) = midx.counts el bound in
      let range = slot_range want m.bits in
      rw
        (
          extract_bits-eq-slot want m.bits oid midx.some_bits midx.few_bits,
          e₀,
          e₁,
          firstword-eq-word want oid,
        )
        (exists_loop-Answers (get m) oid_at n want midx.rising midx.reads midx.oids oid
          (end - start) start (el * 2 ^ (32 - m.bits)) end ((el + 1) * 2 ^ (32 - m.bits))
          (omega arith)
          (record {
            in_table = hn;
            low = range.0;
            high = omega (arith, range.1);
            apart = λ more. omega (arith, range.0, range.1);
            within = λ i hi same. (lo i hi same, (count i hi).1 (rw same (omega arith)));
          }))

-- What `exists` says of an oid, as `PackIdx.exists` does but for the offset.
abbrev pub LocatesName :
    (ℕ → List ℕ) → (ℕ → List ℕ) → ℕ → List ℕ → Bool → Result (Option ObjectLocation) → Type 0
LocatesName oid_at idxname_at n want want_source (ok (some loc)) =
    (i : ℕ) × (i < n)
    × (oid_at i ≡ want)
    × (loc.pack ≡ (if want_source then some (idxname_at i) else none))
    × (loc.offset ≡ none)
LocatesName oid_at idxname_at n want want_source (ok none) = (i : ℕ) → i < n → oid_at i ≢ want
LocatesName oid_at idxname_at n want want_source (err e) = ⊥
LocatesName oid_at idxname_at n want want_source undefined = ⊥

module _ (m : PackMidx) (oid_at : ℕ → List ℕ) (idxname_at : ℕ → List ℕ) (n : ℕ)
    (midx : IsMidxOf m oid_at n)
    (idxnames : (i : ℕ) → i < n → get_idxname m i ≡ ok (idxname_at i)) where
  location_of-LocatesName :
      (want : List ℕ) (want_source : Bool) (i : ℕ)
      → i < n
      → oid_at i ≡ want
      → LocatesName oid_at idxname_at n want want_source (location_of m want_source (some i))
  unfolding location_of
  location_of-LocatesName want true i hi e = rw (idxnames i hi) (i, hi, e, refl, refl)
  location_of-LocatesName want false i hi e = (i, hi, e, refl, refl)

  -- On a midx of n oids with 1 to 30 fanout bits, whose oids, fanout table and index names can be
  -- read, exists without an offset returns a location for an oid of 20 bytes that the midx has,
  -- without an offset and with the name of its index if that was asked for, and None for every
  -- other; it raises nothing, so that the interpolation never divides by zero. A midx with 0 bits,
  -- which lib/bup/cmd/midx.py writes for few objects, is not covered: the shift in C is not defined
  -- for it.
  pub exists-LocatesName :
      (want : List ℕ) (want_source : Bool)
      → IsOid want
      → LocatesName oid_at idxname_at n want want_source (exists m want want_source false)
  unfolding exists location_of
  exists-LocatesName want s oid =
      elim (Answers-cases oid_at n want _ (find-Answers m oid_at n midx want oid)) [
        | inl (i, r, hi, same) ↦ rw r (location_of-LocatesName want s i hi same)
        | inr (r, nowhere) ↦ rw r nowhere
      ]
