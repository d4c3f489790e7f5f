-- ===== src/Index/Paths.antt =====
-- `pathsplit` and `reduce_paths` of lib/bup/index.py. A path is given to `reduce_paths` with what
-- it resolves to, slashes appended.
use bup.Base.{
  Any, sym, ap, ◌∙◌, take, drop, bytes_eq→eq, ℕ, ◌≡◌, refl, arith, Bool, true, false, ◌||◌, ◌&&◌,
  Option, none, some, List, [], ◌∷◌, ◌++◌, ◌==◌, if◌then◌else◌, length, bytes_eq, bytes_eq_refl,
  Bool-cases, ==_iff, inl, inr, ◌⊎◌,
}
use bup.Base.Bytes.{drop_end, ends_with, ends_with→append, take-append-drop}
use bup.Base.Lex.{bytes_lt}
use bup.Base.Dict.{Key}
use bup.Index.Reader.{starts_with}
use bup.Index.Stored.{joined}

-- p.split(b'/')
unfoldable pub head_cons : ℕ → List Key → List Key
head_cons c [] = (c ∷ []) ∷ []
head_cons c (x ∷ l) = (c ∷ x) ∷ l

unfoldable pub split : Key → List Key
split [] = [] ∷ []
split (c ∷ p) = let l = split p in if c == b'/' then [] ∷ l else head_cons c l

-- Slashes behind all but the last, which is popped if it is empty.
unfoldable pub slashed : List Key → List Key
slashed [] = []
slashed (x ∷ []) = if length x == 0 then [] else x ∷ []
slashed (x ∷ y ∷ l) = (x ++ b'/' ∷ []) ∷ slashed (y ∷ l)

unfoldable pub pathsplit : Key → List Key
pathsplit p = slashed (split p)

-- prev covers rp
unfoldable pub is_superseded : Key → Key → Bool
is_superseded prev rp = bytes_eq prev rp || (ends_with prev (b'/' ∷ []) && starts_with rp prev)

pub pair_lt : Key × Key → Key × Key → Bool
pair_lt (a, b) (c, d) = if bytes_eq a c then bytes_lt b d else bytes_lt a c

pub insert_pair : Key × Key → List (Key × Key) → List (Key × Key)
insert_pair x [] = x ∷ []
insert_pair x (y ∷ l) = let rest = insert_pair x l in if pair_lt y x then y ∷ rest else x ∷ y ∷ l

pub sort_pairs : List (Key × Key) → List (Key × Key)
sort_pairs [] = []
sort_pairs (x ∷ l) = insert_pair x (sort_pairs l)

pub after_prev : Option Key → Key → Bool
after_prev none rp = false
after_prev (some prev) rp = is_superseded prev rp

pub reduce_loop : Option Key → List (Key × Key) → List (Key × Key)
reduce_loop prev [] = []
reduce_loop prev ((rp, p) ∷ xpaths) =
    let skipped = reduce_loop prev xpaths in
    let taken = reduce_loop (some rp) xpaths in
    if after_prev prev rp then skipped else (rp, p) ∷ taken

pub reversed : List (Key × Key) → List (Key × Key)
reversed [] = []
reversed (x ∷ l) = reversed l ++ x ∷ []

pub reduce_paths : List (Key × Key) → List (Key × Key)
reduce_paths xpaths = reversed (sort_pairs (reduce_loop none (sort_pairs xpaths)))

joined-head_cons :
    (c : ℕ) (l : List Key) → joined (slashed (head_cons c l)) ≡ c ∷ joined (slashed l)
unfolding head_cons slashed
joined-head_cons c [] = refl
joined-head_cons c ([] ∷ []) = refl
joined-head_cons c ((d ∷ x) ∷ []) =
    let one : length (d ∷ x) == 0 ≡ false = ground arith in
    let two : length (c ∷ d ∷ x) == 0 ≡ false = ground arith in rw (one, two)
joined-head_cons c (x ∷ y ∷ l) = refl

pub split_some : (p : Key) → (x : Key) × (l : List Key) × (split p ≡ x ∷ l)
unfolding split head_cons
split_some [] = ([], [], refl)
split_some (c ∷ p) = elim (Bool-cases (c == b'/')) [
  | inl slash ↦ ([], split p, rw slash refl)
  | inr other ↦ let (x, l, e) = split_some p in (c ∷ x, l, rw (other, e) refl)
]

-- The parts of pathsplit, put together, are the path, whatever slashes it has.
pub joined-pathsplit : (p : Key) → joined (pathsplit p) ≡ p
unfolding pathsplit split slashed
joined-pathsplit [] = refl
joined-pathsplit (c ∷ p) = elim (Bool-cases (c == b'/')) [
  | inl slash ↦
      let (x, l, e) = split_some p in
      let below : joined (slashed (x ∷ l)) ≡ p = rw (← e) (joined-pathsplit p) in
      let same : c ≡ b'/' = (==_iff c b'/').0 slash in rw (slash, e, below, same) refl
  | inr other ↦ rw (other, joined-head_cons c (split p), joined-pathsplit p)
]

-- A path that is resolved to rp is given.
abbrev pub IsGiven : List (Key × Key) → Key → Type 0
IsGiven xpaths rp = Any (λ x. x.0 ≡ rp) xpaths

-- A path, or a directory above it.
abbrev pub Covers : Key → Key → Type 0
Covers d rp =
    (d ≡ rp) ⊎ ((front : Key) × (more : Key) × (d ≡ front ++ b'/' ∷ []) × (rp ≡ d ++ more))

-- A result is rp, or a directory above it.
abbrev pub IsCovered : List (Key × Key) → Key → Type 0
IsCovered results rp = Any (λ x. Covers x.0 rp) results

-- A result supersedes rp, as the loop tests it.
abbrev IsSuperseded : List (Key × Key) → Key → Type 0
IsSuperseded results rp = Any (λ x. is_superseded x.0 rp ≡ true) results

is_superseded-Covers : (d rp : Key) → is_superseded d rp ≡ true → Covers d rp
unfolding is_superseded starts_with
is_superseded-Covers d rp h = elim (Bool-cases (bytes_eq d rp)) [
  | inl same ↦ inl (bytes_eq→eq d rp same)
  | inr other ↦
      let directory : ends_with d (b'/' ∷ []) ≡ true = ground (arith, h, other) in
      let below : bytes_eq (take (length d) rp) d ≡ true = ground (arith, h, other) in
      let begun = bytes_eq→eq (take (length d) rp) d below in
      inr (
        drop_end d 1,
        drop (length d) rp,
        ends_with→append d (b'/' ∷ []) directory,
        sym (take-append-drop (length d) rp) ∙ ap (λ (t : Key). t ++ drop (length d) rp) begun,
      )
]

IsSuperseded-IsCovered :
    (results : List (Key × Key)) (rp : Key) → IsSuperseded results rp → IsCovered results rp
IsSuperseded-IsCovered [] rp h = h
IsSuperseded-IsCovered (x ∷ results) rp (inl h) = inl (is_superseded-Covers x.0 rp h)
IsSuperseded-IsCovered (x ∷ results) rp (inr h) = inr (IsSuperseded-IsCovered results rp h)

is_superseded_refl : (rp : Key) → is_superseded rp rp ≡ true
unfolding is_superseded
is_superseded_refl rp = rw (bytes_eq_refl rp)

module _ (P : Key × Key → Type 0) where
  Any-swap :
      (x y : Key × Key) (l rest : List (Key × Key))
      → (Any P (x ∷ l) → Any P rest)
      → Any P (x ∷ y ∷ l)
      → Any P (y ∷ rest)
  Any-swap x y l rest k (inl e) = inr (k (inl e))
  Any-swap x y l rest k (inr (inl e)) = inl e
  Any-swap x y l rest k (inr (inr i)) = inr (k (inr i))

  Any-insert_pair : (x : Key × Key) (l : List (Key × Key)) → Any P (x ∷ l) → Any P (insert_pair x l)
  unfolding insert_pair
  Any-insert_pair x [] h = h
  Any-insert_pair x (y ∷ l) h = elim (Bool-cases (pair_lt y x)) [
    | inr here ↦ rw here h
    | inl further ↦ rw further (Any-swap x y l (insert_pair x l) (Any-insert_pair x l) h)
  ]

  Any-sort_pairs : (l : List (Key × Key)) → Any P l → Any P (sort_pairs l)
  unfolding sort_pairs
  Any-sort_pairs [] i = i
  Any-sort_pairs (x ∷ l) (inl e) = Any-insert_pair x (sort_pairs l) (inl e)
  Any-sort_pairs (x ∷ l) (inr i) = Any-insert_pair x (sort_pairs l) (inr (Any-sort_pairs l i))

  Any-append : (k l : List (Key × Key)) → Any P k ⊎ Any P l → Any P (k ++ l)
  Any-append [] l (inr i) = i
  Any-append [] l (inl i) = elim i [ ]
  Any-append (x ∷ k) l (inl (inl e)) = inl e
  Any-append (x ∷ k) l (inl (inr i)) = inr (Any-append k l (inl i))
  Any-append (x ∷ k) l (inr i) = inr (Any-append k l (inr i))

  Any-reversed : (l : List (Key × Key)) → Any P l → Any P (reversed l)
  unfolding reversed
  Any-reversed [] i = i
  Any-reversed (x ∷ l) (inl e) = Any-append (reversed l) (x ∷ []) (inr (inl e))
  Any-reversed (x ∷ l) (inr i) = Any-append (reversed l) (x ∷ []) (inl (Any-reversed l i))

reduce_loop-covers :
    (prev : Option Key) (xpaths : List (Key × Key)) (rp : Key)
    → IsGiven xpaths rp
    → (after_prev prev rp ≡ true) ⊎ IsSuperseded (reduce_loop prev xpaths) rp
unfolding reduce_loop after_prev
reduce_loop-covers prev [] rp i = elim i [ ]
reduce_loop-covers prev ((q, p) ∷ xpaths) rp (inl e) = elim (Bool-cases (after_prev prev q)) [
  | inl skipped ↦ inl (rw (← e) skipped)
  | inr taken ↦ rw taken (inr (inl (rw e (is_superseded_refl rp))))
]
reduce_loop-covers prev ((q, p) ∷ xpaths) rp (inr i) = elim (Bool-cases (after_prev prev q)) [
  | inl skipped ↦ rw skipped (reduce_loop-covers prev xpaths rp i)
  | inr taken ↦ rw taken (inr (reduce_loop-covers (some q) xpaths rp i))
]

never : false ≡ true → ⊥
never e = cc

-- Every path that is given to reduce_paths is among its results, or below a directory that is.
pub reduce_paths-IsCovered :
    (xpaths : List (Key × Key)) (rp : Key) → IsGiven xpaths rp → IsCovered (reduce_paths xpaths) rp
unfolding reduce_paths after_prev
reduce_paths-IsCovered xpaths rp i =
    elim (reduce_loop-covers none (sort_pairs xpaths) rp (Any-sort_pairs _ xpaths i)) [
      | inl e ↦ absurd (never e)
      | inr c ↦
          IsSuperseded-IsCovered (reduce_paths xpaths) rp (Any-reversed _ _ (Any-sort_pairs _ _ c))
    ]
