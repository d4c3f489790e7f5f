-- ===== src/Base/Dict.antt =====
-- Python's `dict` with bytes for keys, in the order of insertion, and lists of bytes.
use mathlib.Core.Path.{◌≡◌, refl, sym, ap, ◌∙◌}
use mathlib.Core.Logic.{◌≢◌, inl, inr}
use mathlib.Core.Bool.{Bool, true, false, ◌||◌, ◌&&◌, not}
use mathlib.Core.List.{List, [], ◌∷◌, ◌++◌}
use mathlib.Core.Option.{Option, none, some}
use Prim.Native.Nat.{ℕ}
use native.Mathlib.Omega.{arith}
use bup.Base.Tests.{if◌then◌else◌, Bool-cases}
use bup.Base.Lists.{bytes_eq, bytes_eq_refl, bytes_eq→eq}

abbrev pub Key : Type 0
Key = List ℕ

abbrev pub Dict : Type 0 → Type 0
Dict V = List (Key × V)

-- Keys that are not equal compare so.
pub bytes_eq-false : (j k : Key) → j ≢ k → bytes_eq j k ≡ false
bytes_eq-false j k ne = elim (Bool-cases (bytes_eq j k)) [
  | inl same ↦ absurd (ne (bytes_eq→eq j k same))
  | inr other ↦ other
]

module _ {V : Type 0} where
  -- d.get(k)
  unfoldable pub lookup : Key → Dict V → Option V
  lookup k [] = none
  lookup k ((j, v) ∷ d) = if bytes_eq j k then some v else lookup k d

  -- d[k] = v
  unfoldable pub insert : Key → V → Dict V → Dict V
  insert k v [] = (k, v) ∷ []
  insert k v ((j, w) ∷ d) = if bytes_eq j k then (k, v) ∷ d else (j, w) ∷ insert k v d

  -- del d[k], all of its entries
  unfoldable pub delete : Key → Dict V → Dict V
  delete k [] = []
  delete k ((j, v) ∷ d) = let rest = delete k d in if bytes_eq j k then rest else (j, v) ∷ rest

  pub lookup-insert :
      (k j : Key) (v : V) (d : Dict V)
      → lookup j (insert k v d) ≡ (if bytes_eq k j then some v else lookup j d)
  unfolding lookup insert
  lookup-insert k j v [] = refl
  lookup-insert k j v ((i, w) ∷ d) = elim (Bool-cases (bytes_eq i k)) [
    | inl same ↦ rw (same, bytes_eq→eq i k same) (ground arith)
    | inr other ↦ elim (Bool-cases (bytes_eq i j)) [
      | inr none_here ↦ rw (other, none_here) (lookup-insert k j v d)
      | inl here ↦
          let at_j : i ≡ j = bytes_eq→eq i j here in
          let apart : bytes_eq k j ≡ false = bytes_eq-false k j (λ e. cc (
            ap (λ (t : Key). bytes_eq t k) at_j,
            bytes_eq_refl k,
            ap (λ (t : Key). bytes_eq t k) e,
          )) in
          rw (other, here, apart)
    ]
  ]

  pub lookup-delete :
      (k j : Key) (d : Dict V) → lookup j (delete k d) ≡ (if bytes_eq k j then none else lookup j d)
  unfolding lookup delete
  lookup-delete k j [] = ground arith
  lookup-delete k j ((i, w) ∷ d) = elim (Bool-cases (bytes_eq i k)) [
    | inl same ↦ rw (same, bytes_eq→eq i k same) (lookup-delete k j d ∙ ground arith)
    | inr other ↦ elim (Bool-cases (bytes_eq i j)) [
      | inr none_here ↦ rw (other, none_here) (lookup-delete k j d)
      | inl here ↦
          let at_j : i ≡ j = bytes_eq→eq i j here in
          let apart : bytes_eq k j ≡ false = bytes_eq-false k j (λ e. cc (
            ap (λ (t : Key). bytes_eq t k) at_j,
            bytes_eq_refl k,
            ap (λ (t : Key). bytes_eq t k) e,
          )) in
          rw (other, here, apart)
    ]
  ]

-- x in xs
unfoldable pub contains : Key → List Key → Bool
contains x [] = false
contains x (y ∷ xs) = bytes_eq y x || contains x xs

-- xs.remove(x): the first one
unfoldable pub remove : Key → List Key → List Key
remove x [] = []
remove x (y ∷ xs) = if bytes_eq y x then xs else y ∷ remove x xs

-- No element stands in the list twice.
unfoldable pub distinct : List Key → Bool
distinct [] = true
distinct (x ∷ xs) = not (contains x xs) && distinct xs

pub bytes_eq_sym : (x y : Key) → bytes_eq x y ≡ bytes_eq y x
bytes_eq_sym x y = elim (Bool-cases (bytes_eq x y)) [
  | inl same ↦ rw (bytes_eq→eq x y same)
  | inr other ↦ elim (Bool-cases (bytes_eq y x)) [
    | inl back ↦ rw (bytes_eq→eq y x back)
    | inr neither ↦ other ∙ sym neither
  ]
]

pub contains-append :
    (x : Key) (xs ys : List Key) → contains x (xs ++ ys) ≡ contains x xs || contains x ys
unfolding contains
contains-append x [] ys = refl
contains-append x (z ∷ xs) ys = ground (arith, contains-append x xs ys)

pub contains-remove :
    (x y : Key) (xs : List Key)
    → distinct xs ≡ true
    → contains x (remove y xs) ≡ (if bytes_eq y x then false else contains x xs)
unfolding contains remove distinct
contains-remove x y [] h = ground arith
contains-remove x y (z ∷ xs) h = elim (Bool-cases (bytes_eq z y)) [
  | inl here ↦
      let at_y : z ≡ y = bytes_eq→eq z y here in
      elim (Bool-cases (bytes_eq y x)) [
        | inl found ↦
            let at_x : y ≡ x = bytes_eq→eq y x found in
            rw (here, found) (rw (← at_x, ← at_y) (ground arith))
        | inr other ↦
            let not_here : bytes_eq z x ≡ false = rw at_y other in rw (here, other, not_here)
      ]
  | inr further ↦ elim (Bool-cases (bytes_eq y x)) [
    | inl found ↦
        let not_here : bytes_eq z x ≡ false = rw (← bytes_eq→eq y x found) further in
        rw (further, found, not_here) (contains-remove x y xs (ground arith) ∙ rw found)
    | inr other ↦ rw (further, other, contains-remove x y xs (ground arith)) (rw other)
  ]
]

pub distinct-remove : (y : Key) (xs : List Key) → distinct xs ≡ true → distinct (remove y xs) ≡ true
unfolding distinct remove
distinct-remove y [] h = refl
distinct-remove y (z ∷ xs) h = elim (Bool-cases (bytes_eq z y)) [
  | inl here ↦ rw here (ground arith)
  | inr further ↦
      let back : bytes_eq y z ≡ false = bytes_eq_sym y z ∙ further in
      rw (further, contains-remove z y xs (ground arith), back)
        (ground (arith, distinct-remove y xs))
]

pub distinct-append :
    (xs : List Key) (y : Key)
    → distinct xs ≡ true
    → contains y xs ≡ false
    → distinct (xs ++ y ∷ []) ≡ true
unfolding distinct contains
distinct-append [] y h none_yet = refl
distinct-append (z ∷ xs) y h none_yet =
    ground (arith, contains-append z xs (y ∷ []), bytes_eq_sym y z, distinct-append xs y)
