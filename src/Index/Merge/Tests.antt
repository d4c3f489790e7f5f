-- ===== src/Index/Merge/Tests.antt =====
-- Sorted lists of numbers that are merged by a heap that is searched for a least item, and the
-- theorem on them.
use bup.Base.{
  ℕ, ◌≡◌, refl, arith, false, none, List, [], ◌∷◌, if◌then◌else◌, ltb, ◌==◌, ==_refl, Bool-cases,
  All, IsIn, ◌⊎◌, inl, inr,
}
use bup.Index.Merge.{
  Any, total_of, IsLeast, IsHeapify, IsAscending, IsYielded, merge_iter, merge_iter-IsAscending,
}

abbrev Item : Type 0
Item = ℕ × List ℕ

place : Item → List Item → List Item
place x [] = x ∷ []
place x (y ∷ heap) = if ltb y.0 x.0 then y ∷ x ∷ heap else x ∷ y ∷ heap

arranged : List Item → List Item
arranged [] = []
arranged (x ∷ heap) = place x (arranged heap)

place-All :
    (P : Item → Type 0) (x : Item) (heap : List Item) → P x → All P heap → All P (place x heap)
unfolding place
place-All P x [] p a = (p, tt)
place-All P x (y ∷ heap) p (q, a) = elim (Bool-cases (ltb y.0 x.0)) [
  | inl less ↦ rw less (q, (p, a))
  | inr not_less ↦ rw not_less (p, (q, a))
]

place-Any :
    (P : Item → Type 0) (x : Item) (heap : List Item) → P x ⊎ Any P heap → Any P (place x heap)
unfolding place
place-Any P x [] i = i
place-Any P x (y ∷ heap) i = elim (Bool-cases (ltb y.0 x.0)) [
  | inl less ↦ rw less (swapped i)
  | inr not_less ↦ rw not_less i
]
  where
    swapped : P x ⊎ Any P (y ∷ heap) → Any P (y ∷ x ∷ heap)
    swapped (inl p) = inr (inl p)
    swapped (inr (inl q)) = inl q
    swapped (inr (inr j)) = inr (inr j)

arranged-All : (P : Item → Type 0) (heap : List Item) → All P heap → All P (arranged heap)
unfolding arranged
arranged-All P [] a = tt
arranged-All P (x ∷ heap) (p, a) = place-All P x (arranged heap) p (arranged-All P heap a)

arranged-Any : (P : Item → Type 0) (heap : List Item) → Any P heap → Any P (arranged heap)
unfolding arranged
arranged-Any P [] i = i
arranged-Any P (x ∷ heap) (inl p) = place-Any P x (arranged heap) (inl p)
arranged-Any P (x ∷ heap) (inr i) = place-Any P x (arranged heap) (inr (arranged-Any P heap i))

abbrev total : List Item → ℕ
total = total_of ltb ◌==◌ arranged

total-place : (x : Item) (heap : List Item) → total (place x heap) ≡ total (x ∷ heap)
unfolding place total_of
total-place x [] = refl
total-place x (y ∷ heap) = elim (Bool-cases (ltb y.0 x.0)) [
  | inl less ↦ rw less (omega arith)
  | inr not_less ↦ rw not_less refl
]

total-arranged : (heap : List Item) → total (arranged heap) ≡ total heap
unfolding arranged total_of
total-arranged [] = refl
total-arranged (x ∷ heap) = omega (arith, total-place x (arranged heap), total-arranged heap)

not_less_trans : (a b c : ℕ) → ltb b a ≡ false → ltb c b ≡ false → ltb c a ≡ false
not_less_trans a b c h k = ground arith

above :
    (a b : ℕ) (heap : List Item)
    → ltb b a ≡ false
    → All (λ x. ltb x.0 b ≡ false) heap
    → All (λ x. ltb x.0 a ≡ false) heap
above a b [] h l = tt
above a b (x ∷ heap) h (l, ls) = (not_less_trans a b x.0 h l, above a b heap h ls)

place-IsLeast :
    (x : Item) (heap : List Item)
    → IsLeast ltb ◌==◌ arranged heap
    → IsLeast ltb ◌==◌ arranged (place x heap)
unfolding place
place-IsLeast x [] l = tt
place-IsLeast x (y ∷ heap) l = elim (Bool-cases (ltb y.0 x.0)) [
  | inl less ↦ rw less (ground arith, l)
  | inr not_less ↦ rw not_less (not_less, above x.0 y.0 heap not_less l)
]

arranged-IsLeast : (heap : List Item) → IsLeast ltb ◌==◌ arranged (arranged heap)
unfolding arranged
arranged-IsLeast [] = tt
arranged-IsLeast (x ∷ heap) = place-IsLeast x (arranged heap) (arranged-IsLeast heap)

arranged-IsHeapify : IsHeapify ltb ◌==◌ arranged
arranged-IsHeapify = record {
  keeps_all = arranged-All;
  keeps_any = arranged-Any;
  keeps_total = total-arranged;
  first_least = arranged-IsLeast;
}

abbrev lists : List (List ℕ)
lists = (1 ∷ 4 ∷ 9 ∷ []) ∷ [] ∷ (2 ∷ 4 ∷ []) ∷ []

merge_iter-IsAscending_example :
    IsAscending ltb ◌==◌ arranged none (merge_iter ltb ◌==◌ arranged lists)
    × ((a : ℕ)
        → Any (IsIn a) lists
        → IsYielded ltb ◌==◌ arranged a (merge_iter ltb ◌==◌ arranged lists))
merge_iter-IsAscending_example =
    merge_iter-IsAscending ltb ◌==◌ arranged not_less_trans arranged-IsHeapify ==_refl lists
      ((refl, (refl, tt)), (tt, ((refl, tt), tt)))
