-- ===== src/Base/Lex.antt =====
-- Python's order on `bytes`, and what a lookup in a sorted table has to answer.
use Prim.Native.Nat.{ℕ, ◌+◌, ◌≤◌, ◌<◌}
use mathlib.Core.Path.{◌≡◌, refl}
use mathlib.Core.Logic.{◌≢◌, ◌⊎◌, inl, inr}
use mathlib.Core.Bool.{Bool, true, false}
use mathlib.Core.List.{List, [], ◌∷◌, ◌++◌}
use mathlib.Core.Option.{Option, none, some}
use native.Mathlib.Omega.{arith}
use bup.Base.Lists.{length}
use bup.Base.Tests.{ltb, ◌==◌, ==_refl, if◌then◌else◌, Bool-cases}
use bup.Base.Error.{Result, ok, err, undefined}

-- a < b
unfoldable pub bytes_lt : List ℕ → List ℕ → Bool
bytes_lt [] [] = false
bytes_lt [] (y ∷ ys) = true
bytes_lt (x ∷ xs) [] = false
bytes_lt (x ∷ xs) (y ∷ ys) = if x == y then bytes_lt xs ys else ltb x y

pub bytes_lt_irrefl : (a : List ℕ) → bytes_lt a a ≡ false
unfolding bytes_lt
bytes_lt_irrefl [] = refl
bytes_lt_irrefl (x ∷ a) = ground (arith, bytes_lt_irrefl a)

pub bytes_lt_trans :
    (a b c : List ℕ) → bytes_lt a b ≡ true → bytes_lt b c ≡ true → bytes_lt a c ≡ true
unfolding bytes_lt
bytes_lt_trans [] [] c p q = cc
bytes_lt_trans [] (y ∷ b) [] p q = cc
bytes_lt_trans [] (y ∷ b) (z ∷ c) p q = refl
bytes_lt_trans (x ∷ a) [] c p q = cc
bytes_lt_trans (x ∷ a) (y ∷ b) [] p q = cc
bytes_lt_trans (x ∷ a) (y ∷ b) (z ∷ c) p q = ground (arith, bytes_lt_trans a b c)

-- What follows bytes of one length that differ, and what follows the same bytes.
pub bytes_lt-append :
    (a b xs ys : List ℕ)
    → length a ≡ length b
    → bytes_lt a b ≡ true
    → bytes_lt (a ++ xs) (b ++ ys) ≡ true
unfolding bytes_lt
bytes_lt-append [] [] xs ys l h = cc
bytes_lt-append [] (y ∷ b) xs ys l h = absurd (omega (arith, l))
bytes_lt-append (x ∷ a) [] xs ys l h = absurd (omega (arith, l))
bytes_lt-append (x ∷ a) (y ∷ b) xs ys l h = elim (Bool-cases (x == y)) [
  | inl same ↦ rw same (bytes_lt-append a b xs ys (omega (arith, l)) (rw same at h))
  | inr apart ↦ rw apart (rw apart at h)
]

pub bytes_lt-prefix : (a xs ys : List ℕ) → bytes_lt (a ++ xs) (a ++ ys) ≡ bytes_lt xs ys
unfolding bytes_lt
bytes_lt-prefix [] xs ys = refl
bytes_lt-prefix (x ∷ a) xs ys = rw (==_refl x) (bytes_lt-prefix a xs ys)

pub bytes_lt_asymm : (a b : List ℕ) → bytes_lt a b ≡ true → bytes_lt b a ≡ false
bytes_lt_asymm a b h = elim (Bool-cases (bytes_lt b a)) [
  | inr other ↦ other
  | inl back ↦ ground (arith, bytes_lt_trans a b a h back, bytes_lt_irrefl a)
]

-- Bytes that compare neither way are the same.
pub bytes_lt_connex : (a b : List ℕ) → bytes_lt a b ≡ false → bytes_lt b a ≡ false → a ≡ b
unfolding bytes_lt
bytes_lt_connex [] [] p q = refl
bytes_lt_connex [] (y ∷ b) p q = cc
bytes_lt_connex (x ∷ a) [] p q = cc
bytes_lt_connex (x ∷ a) (y ∷ b) p q = ground (arith, bytes_lt_connex a b)

-- A table of `n` oids in strictly rising order.
abbrev pub IsRising : (ℕ → List ℕ) → ℕ → Type 0
IsRising oid_at n = (i j : ℕ) → i < j → j < n → bytes_lt (oid_at i) (oid_at j) ≡ true

-- An answer to a lookup of `want`: its place, or none if it has no place. An error is no answer.
abbrev pub Answers : (ℕ → List ℕ) → ℕ → List ℕ → Result (Option ℕ) → Type 0
Answers oid_at n want (ok (some i)) = (i < n) × (oid_at i ≡ want)
Answers oid_at n want (ok none) = (i : ℕ) → i < n → oid_at i ≢ want
Answers oid_at n want (err e) = ⊥
Answers oid_at n want undefined = ⊥

-- If `want` has a place in the table then it lies in the range from `start` to `end`.
abbrev pub Within : (ℕ → List ℕ) → ℕ → List ℕ → ℕ → ℕ → Type 0
Within oid_at n want start end = (i : ℕ) → i < n → oid_at i ≡ want → (start ≤ i) × (i < end)

module _ (oid_at : ℕ → List ℕ) (n : ℕ) (want : List ℕ) (rising : IsRising oid_at n) where
  -- A place whose oid is less has its place before `want`.
  lt-of_lt : (i j : ℕ) → i < n → j < n → bytes_lt (oid_at i) (oid_at j) ≡ true → i < j
  lt-of_lt i j hi hj h = elim (Bool-cases (ltb i j)) [
    | inl less ↦ ground arith
    | inr not_less ↦ elim (Bool-cases (i == j)) [
      | inl same ↦ let e : i ≡ j = ground arith in absurd (cc (bytes_lt_irrefl (oid_at i)))
      | inr other ↦
          let back : bytes_lt (oid_at j) (oid_at i) ≡ true = rising j i (ground arith) hi in
          absurd (
            cc (bytes_lt_irrefl (oid_at i), bytes_lt_trans (oid_at i) (oid_at j) (oid_at i) h back))
    ]
  ]

  pub Within-above :
      (start end mid : ℕ)
      → mid < n
      → bytes_lt (oid_at mid) want ≡ true
      → Within oid_at n want start end
      → Within oid_at n want (mid + 1) end
  Within-above start end mid hm less w i hi e =
      let after : mid < i = lt-of_lt mid i hm hi (rw e less) in (omega arith, (w i hi e).1)

  pub Within-below :
      (start end mid : ℕ)
      → mid < n
      → bytes_lt want (oid_at mid) ≡ true
      → Within oid_at n want start end
      → Within oid_at n want start mid
  Within-below start end mid hm more w i hi e =
      let before : i < mid = lt-of_lt i mid hi hm (rw e more) in ((w i hi e).0, before)

  -- An empty range holds no place.
  pub Within-empty :
      (start end : ℕ)
      → end ≤ start
      → Within oid_at n want start end
      → Answers oid_at n want (ok none)
  Within-empty start end h w i hi e = absurd (omega (arith, (w i hi e).0, (w i hi e).1))

-- The two ways in which a lookup answers.
pub Answers-cases :
    (oid_at : ℕ → List ℕ) (n : ℕ) (want : List ℕ) (r : Result (Option ℕ))
    → Answers oid_at n want r
    → ((i : ℕ) × (r ≡ ok (some i)) × (i < n) × (oid_at i ≡ want))
      ⊎ ((r ≡ ok none) × ((i : ℕ) → i < n → oid_at i ≢ want))
Answers-cases oid_at n want (ok (some i)) h = inl (i, refl, h.0, h.1)
Answers-cases oid_at n want (ok none) h = inr (refl, h)
Answers-cases oid_at n want (err e) h = elim h [ ]
Answers-cases oid_at n want undefined h = elim h [ ]
