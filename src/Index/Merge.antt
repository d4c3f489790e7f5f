-- ===== src/Index/Merge.antt =====
-- `merge_iter` of lib/bup/helpers.py, by which lib/bup/index.py merges its readers. The heap is the
-- list of its items, an entry with what its iterator has left; heapq is a parameter that arranges
-- the items with a least one first.
mod Tests
use bup.Base.{
  ◌≡◌, ℕ, zero, suc, ◌+◌, ◌≤◌, refl, ap, arith, Bool, true, false, Option, none, some, List, [],
  ◌∷◌, if◌then◌else◌, length, Bool-cases, All, Any, IsIn, ◌⊎◌, inl, inr,
}

never : false ≡ true → ⊥
never e = cc

module _ {A : Type 0} (less : A → A → Bool) (same_key : A → A → Bool)
    (heapify : List (A × List A) → List (A × List A)) where
  -- `samekey(e, pe)`, where the first pe is None
  unfoldable pub is_same : A → Option A → Bool
  is_same e none = false
  is_same e (some pe) = same_key e pe

  -- The next entry of an iterator, or its end.
  unfoldable pub push : List A → List (A × List A) → List (A × List A)
  push [] heap = heap
  push (e ∷ it) heap = (e, it) ∷ heap

  -- What is not None, by `if e` in the source: an entry of an index always counts as true.
  unfoldable pub started : List (List A) → List (A × List A)
  started [] = []
  started (it ∷ iters) = push it (started iters)

  unfoldable pub merge_loop : ℕ → List (A × List A) → Option A → List A
  merge_loop zero heap pe = []
  merge_loop (suc total) [] pe = []
  merge_loop (suc total) ((e, it) ∷ heap) pe =
      let after = heapify (push it heap) in
      let skipped = merge_loop total after pe in
      let taken = merge_loop total after (some e) in if is_same e pe then skipped else e ∷ taken

  unfoldable pub total_of : List (A × List A) → ℕ
  total_of [] = 0
  total_of ((e, it) ∷ heap) = suc (length it) + total_of heap

  pub merge_iter : List (List A) → List A
  merge_iter iters = merge_loop (total_of (started iters)) (heapify (started iters)) none

  -- A least entry is first.
  abbrev pub IsLeast : List (A × List A) → Type 0
  IsLeast [] = Unit
  IsLeast ((e, it) ∷ heap) = All (λ x. less x.0 e ≡ false) heap

  -- What heapq does with the items of a heap: it keeps them, and puts a least one first.
  pub record IsHeapify : Type 1 where
    pub keeps_all :
        (P : A × List A → Type 0) (heap : List (A × List A)) → All P heap → All P (heapify heap)
    pub keeps_any :
        (P : A × List A → Type 0) (heap : List (A × List A)) → Any P heap → Any P (heapify heap)
    pub keeps_total : (heap : List (A × List A)) → total_of (heapify heap) ≡ total_of heap
    pub first_least : (heap : List (A × List A)) → IsLeast (heapify heap)

  -- Sorted from an entry on.
  abbrev pub IsSortedFrom : A → List A → Type 0
  IsSortedFrom e [] = Unit
  IsSortedFrom e (x ∷ it) = (less x e ≡ false) × IsSortedFrom x it

  abbrev pub IsSortedIter : List A → Type 0
  IsSortedIter [] = Unit
  IsSortedIter (e ∷ it) = IsSortedFrom e it

  abbrev pub IsNotBefore : A → Option A → Type 0
  IsNotBefore e none = Unit
  IsNotBefore e (some pe) = less e pe ≡ false

  -- No entry before the one that precedes it, or of the same key.
  abbrev pub IsAscending : Option A → List A → Type 0
  IsAscending pe [] = Unit
  IsAscending pe (e ∷ out) = IsNotBefore e pe × (is_same e pe ≡ false) × IsAscending (some e) out

  abbrev IsItemFrom : Option A → A × List A → Type 0
  IsItemFrom pe (e, it) = IsNotBefore e pe × IsSortedFrom e it

  -- Items that come after an entry.
  others-IsItemFrom :
      (pe : Option A) (e : A) (heap : List (A × List A))
      → All (λ x. less x.0 e ≡ false) heap
      → All (IsItemFrom pe) heap
      → All (IsItemFrom (some e)) heap
  others-IsItemFrom pe e [] l a = tt
  others-IsItemFrom pe e (x ∷ heap) (l, ls) (a, rest) =
      ((l, a.1), others-IsItemFrom pe e heap ls rest)

  push-IsItemFrom :
      (e : A) (it : List A) (heap : List (A × List A))
      → IsSortedFrom e it
      → All (IsItemFrom (some e)) heap
      → All (IsItemFrom (some e)) (push it heap)
  unfolding push
  push-IsItemFrom e [] heap s a = a
  push-IsItemFrom e (y ∷ it) heap s a = ((s.0, s.1), a)

  -- An entry of an item.
  abbrev IsEntryIn : A → A × List A → Type 0
  IsEntryIn a (e, it) = (e ≡ a) ⊎ IsIn a it

  push-Any :
      (a : A) (it : List A) (heap : List (A × List A))
      → IsIn a it ⊎ Any (IsEntryIn a) heap
      → Any (IsEntryIn a) (push it heap)
  unfolding push
  push-Any a [] heap (inl i) = elim i [ ]
  push-Any a [] heap (inr i) = i
  push-Any a (e ∷ it) heap (inl i) = inl i
  push-Any a (e ∷ it) heap (inr i) = inr i

  total-push :
      (it : List A) (heap : List (A × List A)) → total_of (push it heap) ≡ length it + total_of heap
  unfolding push total_of
  total-push [] heap = omega arith
  total-push (e ∷ it) heap = refl

  -- The key of an entry is that of an entry that was yielded.
  abbrev pub IsYielded : A → List A → Type 0
  IsYielded a out = Any (λ y. same_key a y ≡ true) out

  further_lem :
      (refl_key : (a : A) → same_key a a ≡ true) (h : IsHeapify) (total : ℕ) (e : A) (it : List A)
      (heap : List (A × List A)) (pe : Option A) (a : A)
      → IsIn a it ⊎ Any (IsEntryIn a) heap
      → ((pe' : Option A)
          → Any (IsEntryIn a) (heapify (push it heap))
          → (is_same a pe' ≡ true) ⊎ IsYielded a (merge_loop total (heapify (push it heap)) pe'))
      → (is_same a pe ≡ true) ⊎ IsYielded a (merge_loop (suc total) ((e, it) ∷ heap) pe)
  unfolding merge_loop is_same
  further_lem refl_key h total e it heap pe a i k =
      let j : Any (IsEntryIn a) (heapify (push it heap)) = h.keeps_any _ _ (push-Any a it heap i) in
      elim (Bool-cases (is_same e pe)) [
        | inl same ↦ rw same (k pe j)
        | inr new ↦ rw new (inr (k (some e) j))
      ]

  merge_loop-IsYielded :
      (refl_key : (a : A) → same_key a a ≡ true) (h : IsHeapify) (total : ℕ)
      (heap : List (A × List A)) (pe : Option A) (a : A)
      → total_of heap ≤ total
      → Any (IsEntryIn a) heap
      → (is_same a pe ≡ true) ⊎ IsYielded a (merge_loop total heap pe)
  unfolding merge_loop total_of is_same
  merge_loop-IsYielded refl_key h total [] pe a k i = elim i [ ]
  merge_loop-IsYielded refl_key h zero ((e, it) ∷ heap) pe a k i = absurd (omega arith)
  merge_loop-IsYielded refl_key h (suc total) ((e, it) ∷ heap) pe a k (inl (inl here)) =
      elim (Bool-cases (is_same e pe)) [
        | inl same ↦ inl (rw (← here) same)
        | inr new ↦ rw new (inr (inl (rw here (refl_key a))))
      ]
  merge_loop-IsYielded refl_key h (suc total) ((e, it) ∷ heap) pe a k (inl (inr i)) =
      further_lem refl_key h total e it heap pe a (inl i) (λ pe' j.
        merge_loop-IsYielded refl_key h total (heapify (push it heap)) pe' a
          (omega (arith, h.keeps_total (push it heap), total-push it heap)) j)
  merge_loop-IsYielded refl_key h (suc total) ((e, it) ∷ heap) pe a k (inr i) =
      further_lem refl_key h total e it heap pe a (inr i) (λ pe' j.
        merge_loop-IsYielded refl_key h total (heapify (push it heap)) pe' a
          (omega (arith, h.keeps_total (push it heap), total-push it heap)) j)

  module _ (trans : (a b c : A) → less b a ≡ false → less c b ≡ false → less c a ≡ false)
      (h : IsHeapify) where
    lower :
        (pe : Option A) (e : A) (heap : List (A × List A))
        → IsNotBefore e pe
        → All (IsItemFrom (some e)) heap
        → All (IsItemFrom pe) heap
    lower pe e [] n a = tt
    lower none e ((x, it) ∷ heap) n (a, rest_all) = ((tt, a.1), lower none e heap n rest_all)
    lower (some p) e ((x, it) ∷ heap) n (a, rest_all) =
        ((trans p e x n a.0, a.1), lower (some p) e heap n rest_all)

    merge_loop-IsAscending :
        (total : ℕ) (heap : List (A × List A)) (pe : Option A)
        → All (IsItemFrom pe) heap
        → IsLeast heap
        → IsAscending pe (merge_loop total heap pe)
    unfolding merge_loop
    merge_loop-IsAscending zero heap pe a l = tt
    merge_loop-IsAscending (suc total) [] pe a l = tt
    merge_loop-IsAscending (suc total) ((e, it) ∷ heap) pe (a, rest_all) l =
        let after = heapify (push it heap) in
        let later_all : All (IsItemFrom (some e)) after =
          h.keeps_all _ _
            (push-IsItemFrom e it heap a.1 (others-IsItemFrom pe e heap l rest_all)) in
        elim (Bool-cases (is_same e pe)) [
          | inl same ↦ rw same (
              merge_loop-IsAscending total after pe (lower pe e after a.0 later_all)
                (h.first_least (push it heap)))
          | inr new ↦ rw new (
            a.0,
            new,
            merge_loop-IsAscending total after (some e) later_all (h.first_least (push it heap)),
          )
        ]

    started-All :
        (iters : List (List A)) → All IsSortedIter iters → All (IsItemFrom none) (started iters)
    unfolding started push
    started-All [] s = tt
    started-All ([] ∷ iters) (s, ss) = started-All iters ss
    started-All ((e ∷ it) ∷ iters) (s, ss) = ((tt, s), started-All iters ss)

    started-Any :
        (a : A) (iters : List (List A)) → Any (IsIn a) iters → Any (IsEntryIn a) (started iters)
    unfolding started
    started-Any a (it ∷ iters) (inl i) = push-Any a it (started iters) (inl i)
    started-Any a (it ∷ iters) (inr i) = push-Any a it (started iters) (inr (started-Any a iters i))
    started-Any a [] i = elim i [ ]

    -- For iterators that are sorted by an order whose negation is transitive, a test of keys that
    -- holds of an entry and itself, and functions of heapq that keep the items of a heap and put a
    -- least one first: merge_iter yields a sequence in which no entry is less than the one before
    -- it or has its key, and the key of every entry of the iterators is the key of one that is
    -- yielded.
    pub merge_iter-IsAscending :
        (refl_key : (a : A) → same_key a a ≡ true) (iters : List (List A))
        → All IsSortedIter iters
        → IsAscending none (merge_iter iters)
          × ((a : A) → Any (IsIn a) iters → IsYielded a (merge_iter iters))
    unfolding merge_iter is_same
    merge_iter-IsAscending refl_key iters s = (
      merge_loop-IsAscending _ _ none (h.keeps_all _ _ (started-All iters s))
          (h.first_least (started iters)),
      yielded,
    )
      where
        yielded : (a : A) → Any (IsIn a) iters → IsYielded a (merge_iter iters)
        yielded a i =
            elim (merge_loop-IsYielded refl_key h (total_of (started iters))
              (heapify (started iters)) none a (omega (arith, h.keeps_total (started iters)))
              (h.keeps_any _ _ (started-Any a iters i))) [ inl e ↦ absurd (never e) | inr y ↦ y ]
