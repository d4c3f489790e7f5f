-- ===== src/Metadata/Equality.antt =====
-- Python's `==` on the values that the attributes of a Metadata have.
use bup.Base.{
  ℕ, ◌≡◌, refl, ap, ◌↔◌, Bool, true, false, ◌&&◌, Option, none, some, List, [], ◌∷◌, ◌==◌, bytes_eq,
  bytes_eq_refl, bytes_eq→eq, ==_iff, ==_refl,
}
use bup.Base.Int.{ℤ, pos, negsuc}
use bup.Base.Dict.{Key}

-- Python's `==` on what the attributes hold.
abbrev pub int_eq : ℤ → ℤ → Bool
int_eq (pos m) (pos n) = m == n
int_eq (negsuc m) (negsuc n) = m == n
int_eq (pos m) (negsuc n) = false
int_eq (negsuc m) (pos n) = false

abbrev pub option_eq : {A : Type 0} → (A → A → Bool) → Option A → Option A → Bool
option_eq eq none none = true
option_eq eq (some a) (some b) = eq a b
option_eq eq none (some b) = false
option_eq eq (some a) none = false

abbrev pub list_eq : {A : Type 0} → (A → A → Bool) → List A → List A → Bool
list_eq eq [] [] = true
list_eq eq (a ∷ more) (b ∷ others) = eq a b && list_eq eq more others
list_eq eq [] (b ∷ others) = false
list_eq eq (a ∷ more) [] = false

abbrev pub pair_eq : Key × Key → Key × Key → Bool
pair_eq (k, v) (l, w) = bytes_eq k l && bytes_eq v w

-- A test that holds of equals, and of nothing else.
abbrev pub Decides : {A : Type 0} → (A → A → Bool) → Type 0
Decides {A} eq = ((a : A) → eq a a ≡ true) × ((a b : A) → eq a b ≡ true → a ≡ b)

pub and_true : (a b : Bool) → a && b ≡ true → (a ≡ true) × (b ≡ true)
and_true true b h = (refl, h)
and_true false b h = cc

pub bytes_eq-Decides : Decides bytes_eq
bytes_eq-Decides = (bytes_eq_refl, bytes_eq→eq)

pub ==→eq : (m n : ℕ) → (m == n) ≡ true → m ≡ n
==→eq m n h = (==_iff m n).0 h

pub int_eq-Decides : Decides int_eq
int_eq-Decides = (same, equal)
  where
    same : (a : ℤ) → int_eq a a ≡ true
    same (pos n) = ==_refl n
    same (negsuc n) = ==_refl n

    equal : (a b : ℤ) → int_eq a b ≡ true → a ≡ b
    equal (pos m) (pos n) h = rw (==→eq m n h) refl
    equal (negsuc m) (negsuc n) h = rw (==→eq m n h) refl
    equal (pos m) (negsuc n) h = cc
    equal (negsuc m) (pos n) h = cc

pub pair_eq-Decides : Decides pair_eq
pair_eq-Decides = (same, equal)
  where
    same : (a : Key × Key) → pair_eq a a ≡ true
    same (k, v) = rw (bytes_eq_refl k, bytes_eq_refl v)

    equal : (a b : Key × Key) → pair_eq a b ≡ true → a ≡ b
    equal (k, v) (l, w) h =
        let (j, i) = and_true (bytes_eq k l) (bytes_eq v w) h in
        rw (bytes_eq→eq k l j, bytes_eq→eq v w i)

module _ {A : Type 0} (eq : A → A → Bool) (decides : Decides eq) where
  pub option_eq-Decides : Decides (option_eq eq)
  option_eq-Decides = (same, equal)
    where
      same : (a : Option A) → option_eq eq a a ≡ true
      same none = refl
      same (some a) = decides.0 a

      equal : (a b : Option A) → option_eq eq a b ≡ true → a ≡ b
      equal none none h = refl
      equal (some a) (some b) h = ap some (decides.1 a b h)
      equal none (some b) h = cc
      equal (some a) none h = cc

  pub list_eq-Decides : Decides (list_eq eq)
  list_eq-Decides = (same, equal)
    where
      same : (a : List A) → list_eq eq a a ≡ true
      same [] = refl
      same (a ∷ more) = rw (decides.0 a, same more)

      equal : (a b : List A) → list_eq eq a b ≡ true → a ≡ b
      equal [] [] h = refl
      equal (a ∷ more) (b ∷ others) h =
          let (j, i) = and_true (eq a b) (list_eq eq more others) h in
          rw (decides.1 a b j, equal more others i)
      equal [] (b ∷ others) h = cc
      equal (a ∷ more) [] h = cc

pub ints : Decides (option_eq int_eq)
ints = option_eq-Decides int_eq int_eq-Decides

pub strings : Decides (option_eq bytes_eq)
strings = option_eq-Decides bytes_eq bytes_eq-Decides

pub acls : Decides (option_eq (list_eq bytes_eq))
acls = option_eq-Decides (list_eq bytes_eq) (list_eq-Decides bytes_eq bytes_eq-Decides)

module _ {A B : Type 0} (eq : A → A → Bool) (eq' : B → B → Bool) where
  abbrev pub both : A × B → A × B → Bool
  both (a, b) (c, d) = eq a c && eq' b d

  pub both-Decides : Decides eq → Decides eq' → Decides both
  both-Decides h k = (same, equal)
    where
      same : (a : A × B) → both a a ≡ true
      same (a, b) = rw (h.0 a, k.0 b)

      equal : (a b : A × B) → both a b ≡ true → a ≡ b
      equal (a, b) (c, d) e =
          let (i, j) = and_true (eq a c) (eq' b d) e in rw (h.1 a c i, k.1 b d j)

pub xattrs : Decides (option_eq (list_eq pair_eq))
xattrs = option_eq-Decides (list_eq pair_eq) (list_eq-Decides pair_eq pair_eq-Decides)

pub decides→iff :
    {A : Type 0} (eq : A → A → Bool) → Decides eq → (a b : A) → (eq a b ≡ true) ↔ (a ≡ b)
decides→iff eq h a b = (h.1 a b, λ e. rw e (h.0 b))
