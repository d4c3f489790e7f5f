-- ===== src/Git/PackIdx/Search.antt =====
-- The lookups of `PackIdx` find exactly the oids of the index.
use bup.Base.{
  ℕ, zero, suc, ◌+◌, ◌-◌, ◌/◌, ◌≤◌, ◌<◌, ◌≡◌, ◌≢◌, ◌↔◌, refl, ap, arith, Bool, true, false, Option,
  none, some, List, [], ◌∷◌, ltb, ◌==◌, if◌then◌else◌, length, Bool-cases, inl, inr,
}
use bup.Base.Lex.{
  bytes_lt, bytes_lt_connex, IsRising, Answers, Within, Within-above, Within-below, Within-empty,
  Answers-cases,
}
use bup.Base.Bytes.{basename}
use bup.Base.Error.{Result, ok, err, undefined}
use bup.Git.PackIdx.{
  PackIdx, ObjectLocation, location_of, offset_of, exists, idx_loop, idx_from_hash, fanout_before,
  fanout_at, first_of_hash,
}

-- The first byte of an oid.
abbrev pub first_byte : List ℕ → ℕ
first_byte [] = 0
first_byte (b ∷ oid) = b

-- What makes a file an index of `n` oids: they rise, the methods read them, and the fanout entry of
-- a byte counts the oids whose first byte is at most that.
pub record IsIndexOf (p : PackIdx) (oid_at : ℕ → List ℕ) (n : ℕ) : Type 0 where
  pub rising : IsRising oid_at n
  pub reads : (i : ℕ) → i < n → p.idx_to_hash i ≡ ok (oid_at i)
  pub counts :
      (b : ℕ)
      → b < 256
      → (c : ℕ) × (fanout_at p.fanout b ≡ ok c)
        × (c ≤ n)
        × ((i : ℕ) → i < n → (i < c) ↔ (first_byte (oid_at i) ≤ b))
  pub before_first : fanout_before p.fanout 0 ≡ ok 0

module _ (idx_to_hash : ℕ → Result (List ℕ)) (oid_at : ℕ → List ℕ) (n : ℕ) (want : List ℕ)
    (rising : IsRising oid_at n) (reads : (i : ℕ) → i < n → idx_to_hash i ≡ ok (oid_at i)) where
  idx_loop-Answers :
      (fuel start end : ℕ)
      → end - start ≤ fuel
      → end ≤ n
      → Within oid_at n want start end
      → Answers oid_at n want (idx_loop idx_to_hash want fuel start end)
  unfolding idx_loop
  idx_loop-Answers zero start end hf hn w =
      Within-empty oid_at n want rising start end (omega arith) w
  idx_loop-Answers (suc fuel) start end hf hn w = elim (Bool-cases (ltb start end)) [
    | inr done ↦ rw done (Within-empty oid_at n want rising start end (ground arith) w)
    | inl more ↦
        let mid : ℕ = start + (end - start) / 2 in
        let in_range : mid < end = ground arith in
        elim (Bool-cases (bytes_lt (oid_at mid) want)) [
          | inl less ↦
              rw (more, reads mid (omega arith), less)
                (idx_loop-Answers fuel (mid + 1) end (omega arith) hn
                  (Within-above oid_at n want rising start end mid (omega arith) less w))
          | inr not_less ↦ elim (Bool-cases (bytes_lt want (oid_at mid))) [
            | inl greater ↦
                rw (more, reads mid (omega arith), not_less, greater)
                  (idx_loop-Answers fuel start mid (omega arith) (omega arith)
                    (Within-below oid_at n want rising start end mid (omega arith) greater w))
            | inr not_greater ↦
                rw (more, reads mid (omega arith), not_less, not_greater)
                  (omega arith, bytes_lt_connex (oid_at mid) want not_less not_greater)
          ]
        ]
  ]

module _ (p : PackIdx) (oid_at : ℕ → List ℕ) (n : ℕ) (index : IsIndexOf p oid_at n) where
  -- The fanout entries on both sides of a first byte bound the places of its oids.
  fanout_before-Within :
      (want : List ℕ)
      → first_byte want < 256
      → (start : ℕ) × (fanout_before p.fanout (first_byte want) ≡ ok start)
        × ((i : ℕ) → i < n → oid_at i ≡ want → start ≤ i)
  fanout_before-Within [] h = (0, index.before_first, λ i hi e. omega arith)
  fanout_before-Within (zero ∷ want) h = (0, index.before_first, λ i hi e. omega arith)
  fanout_before-Within (suc b ∷ want) h =
      let (c, e, hn, count) = index.counts b (omega arith) in
      (
        c,
        unfold fanout_before fanout_at in e,
        λ i hi same. above c i same (λ lt. (count i hi).0 lt),
      )
    where
      above : (c i : ℕ) → oid_at i ≡ suc b ∷ want → (i < c → first_byte (oid_at i) ≤ b) → c ≤ i
      above c i same low = elim (Bool-cases (ltb i c)) [
        | inl lt ↦
            let small : first_byte (oid_at i) ≤ b = low (ground arith) in
            let big : first_byte (oid_at i) ≡ suc b = ap first_byte same in absurd (omega arith)
        | inr ge ↦ ground arith
      ]

  fanout_at-Within :
      (want : List ℕ)
      → first_byte want < 256
      → (end : ℕ) × (fanout_at p.fanout (first_byte want) ≡ ok end)
        × (end ≤ n)
        × ((i : ℕ) → i < n → oid_at i ≡ want → i < end)
  fanout_at-Within want h =
      let (c, e, hn, count) = index.counts (first_byte want) h in
      (c, e, hn, λ i hi same. (count i hi).1 (rw same (omega arith)))

  first_of_hash_lem : (want : List ℕ) → length want ≡ 20 → first_of_hash want ≡ ok (first_byte want)
  unfolding first_of_hash
  first_of_hash_lem [] e = absurd (omega arith)
  first_of_hash_lem (b ∷ want) e = refl

  -- On an index of n oids _idx_from_hash gives the place of 20 bytes, of which the first is below
  -- 256, if the index has them, and else None; it raises nothing.
  pub idx_from_hash-Answers :
      (want : List ℕ)
      → length want ≡ 20
      → first_byte want < 256
      → Answers oid_at n want (idx_from_hash p want)
  unfolding idx_from_hash
  idx_from_hash-Answers want e h =
      let (start, e₀, lo) = fanout_before-Within want h in
      let (end, e₁, hn, hi) = fanout_at-Within want h in
      let long : (length want == 20) ≡ true = ground arith in
      rw (long, first_of_hash_lem want e, e₀, e₁)
        (idx_loop-Answers p.idx_to_hash oid_at n want index.rising index.reads (end - start) start
          end (omega arith) hn (λ i h same. (lo i h same, hi i h same)))

-- What `exists` says of an oid: where it is, with the parts that were asked for, or that it is
-- nowhere.
abbrev pub Locates :
    PackIdx
    → (ℕ → List ℕ)
    → (ℕ → ℕ)
    → ℕ
    → List ℕ
    → Bool
    → Bool
    → Result (Option ObjectLocation)
    → Type 0
Locates p oid_at ofs_at n want want_source want_offset (ok (some loc)) =
    (i : ℕ) × (i < n)
    × (oid_at i ≡ want)
    × (loc.pack ≡ (if want_source then some (basename p.name) else none))
    × (loc.offset ≡ (if want_offset then some (ofs_at i) else none))
Locates p oid_at ofs_at n want want_source want_offset (ok none) = (i : ℕ) → i < n → oid_at i ≢ want
Locates p oid_at ofs_at n want want_source want_offset (err e) = ⊥
Locates p oid_at ofs_at n want want_source want_offset undefined = ⊥

module _ (p : PackIdx) (oid_at : ℕ → List ℕ) (ofs_at : ℕ → ℕ) (n : ℕ) (index : IsIndexOf p oid_at n)
    (offsets : (i : ℕ) → i < n → p.ofs_from_idx i ≡ ok (ofs_at i)) where
  location_of-Locates :
      (want : List ℕ) (want_source want_offset : Bool) (i : ℕ)
      → i < n
      → oid_at i ≡ want
      → Locates p oid_at ofs_at n want want_source want_offset
          (location_of p want_source want_offset (some i))
  unfolding location_of offset_of
  location_of-Locates want true true i hi e = rw (offsets i hi) (i, hi, e, refl, refl)
  location_of-Locates want true false i hi e = (i, hi, e, refl, refl)
  location_of-Locates want false true i hi e = rw (offsets i hi) (i, hi, e, refl, refl)
  location_of-Locates want false false i hi e = (i, hi, e, refl, refl)

  -- On an index of n oids whose offsets can be read, exists raises nothing for 20 bytes of which
  -- the first is below 256: it returns a location, with its source and its offset as they were
  -- asked for, if the index has the oid, and else None.
  pub exists-Locates :
      (want : List ℕ) (want_source want_offset : Bool)
      → length want ≡ 20
      → first_byte want < 256
      → Locates p oid_at ofs_at n want want_source want_offset
          (exists p want want_source want_offset)
  unfolding exists location_of
  exists-Locates [] s o e h = absurd (omega arith)
  exists-Locates (b ∷ want) s o e h =
      elim (Answers-cases oid_at n (b ∷ want) _
        (idx_from_hash-Answers p oid_at n index (b ∷ want) e h)) [
          | inl (i, r, hi, same) ↦ rw r (location_of-Locates (b ∷ want) s o i hi same)
          | inr (r, nowhere) ↦ rw r nowhere
        ]
