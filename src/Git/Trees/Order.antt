-- ===== src/Git/Trees/Order.antt =====
-- The order in which `tree_encode` writes the entries of a tree.
use bup.Base.{
  ℕ, ◌<◌, ◌≡◌, ◌≢◌, refl, sym, ◌∙◌, arith, Bool, true, false, List, [], ◌∷◌, ◌++◌, ltb, ◌==◌,
  if◌then◌else◌, Bool-cases, inl, inr, All,
}
use mathlib.Core.List.{Perm}
use mathlib.Core.List.Perm
use bup.Git.Names.{s_isdir}
use bup.Base.Lex.{bytes_lt, bytes_lt_asymm}
use bup.Git.Trees.{TreeEntry, shalist_item_sort_key, insert_sorted, sorted}

-- An entry that may stand before the entries of a list: its key is not greater than the first one's.
abbrev pub Precedes : TreeEntry → List TreeEntry → Type 0
Precedes ent [] = Unit
Precedes ent (next ∷ l) = bytes_lt (shalist_item_sort_key next) (shalist_item_sort_key ent) ≡ false

abbrev pub IsSorted : List TreeEntry → Type 0
IsSorted [] = Unit
IsSorted (ent ∷ l) = Precedes ent l × IsSorted l

Precedes-insert_sorted :
    (first ent : TreeEntry) (l : List TreeEntry)
    → bytes_lt (shalist_item_sort_key ent) (shalist_item_sort_key first) ≡ false
    → Precedes first l
    → Precedes first (insert_sorted ent l)
unfolding insert_sorted
Precedes-insert_sorted first ent [] h p = h
Precedes-insert_sorted first ent (next ∷ l) h p =
    elim (Bool-cases (bytes_lt (shalist_item_sort_key next) (shalist_item_sort_key ent))) [
      | inl further ↦ rw further p
      | inr here ↦ rw here h
    ]

insert_sorted-IsSorted :
    (ent : TreeEntry) (l : List TreeEntry) → IsSorted l → IsSorted (insert_sorted ent l)
unfolding insert_sorted
insert_sorted-IsSorted ent [] h = (tt, tt)
insert_sorted-IsSorted ent (next ∷ l) (p, h) =
    elim (Bool-cases (bytes_lt (shalist_item_sort_key next) (shalist_item_sort_key ent))) [
      | inl further ↦ rw further (
        Precedes-insert_sorted next ent l
            (bytes_lt_asymm (shalist_item_sort_key next) (shalist_item_sort_key ent) further) p,
        insert_sorted-IsSorted ent l h,
      )
      | inr here ↦ rw here (here, (p, h))
    ]

pub sorted-IsSorted : (shalist : List TreeEntry) → IsSorted (sorted shalist)
unfolding sorted
sorted-IsSorted [] = tt
sorted-IsSorted (ent ∷ shalist) =
    insert_sorted-IsSorted ent (sorted shalist) (sorted-IsSorted shalist)

insert_sorted-Perm : (ent : TreeEntry) (l : List TreeEntry) → Perm (ent ∷ l) (insert_sorted ent l)
unfolding insert_sorted
insert_sorted-Perm ent [] = Perm.refl (ent ∷ [])
insert_sorted-Perm ent (next ∷ l) =
    elim (Bool-cases (bytes_lt (shalist_item_sort_key next) (shalist_item_sort_key ent))) [
      | inl further ↦
          rw further (Perm.trans (Perm.swap next ent l) (Perm.cons next (insert_sorted-Perm ent l)))
      | inr here ↦ rw here (Perm.refl (ent ∷ next ∷ l))
    ]

sorted-Perm : (shalist : List TreeEntry) → Perm shalist (sorted shalist)
unfolding sorted
sorted-Perm [] = Perm.refl []
sorted-Perm (ent ∷ shalist) =
    Perm.trans (Perm.cons ent (sorted-Perm shalist)) (insert_sorted-Perm ent (sorted shalist))

-- A part of a path, without a slash or NUL.
abbrev pub IsPathPart : List ℕ → Type 0
IsPathPart = All (λ c. (0 < c) × (c ≢ b'/'))

-- The byte that git compares at the end of a name.
abbrev pub end_byte : Bool → ℕ
end_byte true = b'/'
end_byte false = 0

-- The order of git's trees, byte by byte: at its end a name goes on with a slash if it is that of a
-- directory, and with NUL if not.
pub goes_before : List ℕ → Bool → List ℕ → Bool → Bool
goes_before [] d [] e = ltb (end_byte d) (end_byte e)
goes_before [] d (y ∷ b) e = ltb (end_byte d) y
goes_before (x ∷ a) d [] e = ltb x (end_byte e)
goes_before (x ∷ a) d (y ∷ b) e = if x == y then goes_before a d b e else ltb x y

abbrev key : List ℕ → Bool → List ℕ
key name directory = if directory then name ++ b'/' ∷ [] else name

bytes_lt-key :
    (a : List ℕ) (d : Bool) (b : List ℕ) (e : Bool)
    → IsPathPart a
    → IsPathPart b
    → bytes_lt (key a d) (key b e) ≡ goes_before a d b e
unfolding bytes_lt goes_before
bytes_lt-key [] true [] true h k = refl
bytes_lt-key [] true [] false h k = refl
bytes_lt-key [] false [] true h k = refl
bytes_lt-key [] false [] false h k = refl
bytes_lt-key [] true (y ∷ b) true h ((k, ne), ks) =
    let other : b'/' == y ≡ false = ground (arith, ne) in rw other refl
bytes_lt-key [] true (y ∷ b) false h ((k, ne), ks) =
    let other : b'/' == y ≡ false = ground (arith, ne) in rw other refl
bytes_lt-key [] false (y ∷ b) true h ((k, ne), ks) = ground arith
bytes_lt-key [] false (y ∷ b) false h ((k, ne), ks) = ground arith
bytes_lt-key (x ∷ a) true [] true ((h, ne), hs) k =
    let other : x == b'/' ≡ false = ground (arith, ne) in rw other refl
bytes_lt-key (x ∷ a) false [] true ((h, ne), hs) k =
    let other : x == b'/' ≡ false = ground (arith, ne) in rw other refl
bytes_lt-key (x ∷ a) true [] false ((h, ne), hs) k = ground arith
bytes_lt-key (x ∷ a) false [] false ((h, ne), hs) k = ground arith
bytes_lt-key (x ∷ a) true (y ∷ b) true (h, hs) (k, ks) = rw (bytes_lt-key a true b true hs ks) refl
bytes_lt-key (x ∷ a) true (y ∷ b) false (h, hs) (k, ks) =
    rw (bytes_lt-key a true b false hs ks) refl
bytes_lt-key (x ∷ a) false (y ∷ b) true (h, hs) (k, ks) =
    rw (bytes_lt-key a false b true hs ks) refl
bytes_lt-key (x ∷ a) false (y ∷ b) false (h, hs) (k, ks) =
    rw (bytes_lt-key a false b false hs ks) refl

-- No entry goes before the one that precedes it.
pub IsInGitOrder : List TreeEntry → Type 0
IsInGitOrder [] = Unit
IsInGitOrder (ent ∷ []) = Unit
IsInGitOrder (ent ∷ next ∷ l) =
    (goes_before next.name (s_isdir next.mode) ent.name (s_isdir ent.mode) ≡ false)
    × IsInGitOrder (next ∷ l)

All-insert_sorted :
    (P : TreeEntry → Type 0) (ent : TreeEntry) (l : List TreeEntry)
    → P ent
    → All P l
    → All P (insert_sorted ent l)
unfolding insert_sorted
All-insert_sorted P ent [] h hs = (h, tt)
All-insert_sorted P ent (next ∷ l) h (k, ks) =
    elim (Bool-cases (bytes_lt (shalist_item_sort_key next) (shalist_item_sort_key ent))) [
      | inl further ↦ rw further (k, All-insert_sorted P ent l h ks)
      | inr here ↦ rw here (h, (k, ks))
    ]

All-sorted : (P : TreeEntry → Type 0) (l : List TreeEntry) → All P l → All P (sorted l)
unfolding sorted
All-sorted P [] h = tt
All-sorted P (ent ∷ l) (h, hs) = All-insert_sorted P ent (sorted l) h (All-sorted P l hs)

IsSorted-IsInGitOrder :
    (l : List TreeEntry) → All (λ ent. IsPathPart ent.name) l → IsSorted l → IsInGitOrder l
unfolding IsInGitOrder shalist_item_sort_key
IsSorted-IsInGitOrder [] h s = tt
IsSorted-IsInGitOrder (ent ∷ []) h s = tt
IsSorted-IsInGitOrder (ent ∷ next ∷ l) (h, (k, ks)) (p, s) = (
  sym (bytes_lt-key next.name (s_isdir next.mode) ent.name (s_isdir ent.mode) k h) ∙ p,
  IsSorted-IsInGitOrder (next ∷ l) (k, ks) s,
)

-- For entries whose names have no slash and no NUL, sorted returns a permutation of the entries in
-- the order of git's trees: no entry goes before the one that precedes it, where names are compared
-- byte by byte, and a name that ends goes on with a slash if it is a directory's and with a NUL
-- otherwise.
pub sorted-IsInGitOrder :
    (shalist : List TreeEntry)
    → All (λ ent. IsPathPart ent.name) shalist
    → Perm shalist (sorted shalist) × IsInGitOrder (sorted shalist)
sorted-IsInGitOrder shalist h = (
  sorted-Perm shalist,
  IsSorted-IsInGitOrder (sorted shalist) (All-sorted _ shalist h) (sorted-IsSorted shalist),
)
