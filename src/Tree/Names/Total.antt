-- ===== src/Tree/Names/Total.antt =====
-- `_abbreviate_tree_names` of lib/bup/tree.py finds every name in the trie that it built of them.
use bup.Base.{
  ℕ, ◌+◌, ◌-◌, ◌≤◌, ◌<◌, ◌≡◌, refl, sym, arith, true, false, ◌⊎◌, inl, inr, List, [], ◌∷◌, ltb,
  ◌==◌, ==_iff, length, length-take, Bool-cases, All,
}
use bup.Base.Bytes.{drop_end}
use bup.Base.Error.{Returns}
use bup.Tree.Names.{
  Level, bare, key, add_name, add_names, child, levels_above, level_length, is_invalid, backtrack,
  abbreviate_all, abbreviate_tree_names,
}

-- The trie has a path for the name.
HasPath : List ℕ → Level → Type 0
HasPath [] level = Unit
HasPath (c ∷ name) bare = ⊥
HasPath (c ∷ name) (key d below further) =
    ((d ≡ c) × HasPath name below) ⊎ ((d == c ≡ false) × HasPath (c ∷ name) further)

add_name-HasPath : (name : List ℕ) (level : Level) → HasPath name (add_name name level)
unfolding add_name HasPath
add_name-HasPath [] level = tt
add_name-HasPath (c ∷ name) bare = inl (refl, add_name-HasPath name bare)
add_name-HasPath (c ∷ name) (key d below further) = elim (Bool-cases (c == d)) [
  | inl same ↦ rw same (inl (sym ((==_iff c d).0 same), add_name-HasPath name below))
  | inr other ↦ rw other (inr (ground arith, add_name-HasPath (c ∷ name) further))
]

-- Another name takes no path away.
HasPath-add_name :
    (name other : List ℕ) (level : Level) → HasPath name level → HasPath name (add_name other level)
unfolding add_name HasPath
HasPath-add_name [] other level h = tt
HasPath-add_name (c ∷ name) [] level h = h
HasPath-add_name (c ∷ name) (o ∷ other) bare h = absurd h
HasPath-add_name (c ∷ name) (o ∷ other) (key d below further) h = elim (Bool-cases (o == d)) [
  | inl same ↦ rw same (elim h [
    | inl (at, inside) ↦ inl (at, HasPath-add_name name other below inside)
    | inr behind ↦ inr behind
  ])
  | inr apart ↦ rw apart (elim h [
    | inl inside ↦ inl inside
    | inr (ne, behind) ↦ inr (ne, HasPath-add_name (c ∷ name) (o ∷ other) further behind)
  ])
]

HasPath-add_names :
    (names : List (List ℕ)) (name : List ℕ) (level : Level)
    → HasPath name level
    → HasPath name (add_names names level)
unfolding add_names
HasPath-add_names [] name level h = h
HasPath-add_names (other ∷ names) name level h =
    HasPath-add_names names name (add_name other level) (HasPath-add_name name other level h)

add_names-HasPath :
    (names : List (List ℕ)) (level : Level) → All (λ n. HasPath n (add_names names level)) names
unfolding add_names
add_names-HasPath [] level = tt
add_names-HasPath (name ∷ names) level = (
  HasPath-add_names names name (add_name name level) (add_name-HasPath name level),
  add_names-HasPath names (add_name name level),
)

child-Returns :
    (c : ℕ) (name : List ℕ) (level : Level)
    → HasPath (c ∷ name) level
    → Returns (HasPath name) (child c level)
unfolding child HasPath
child-Returns c name bare h = absurd h
child-Returns c name (key d below further) (inl (at, inside)) =
    let same : (d == c) ≡ true = (==_iff d c).1 at in (below, rw same refl, inside)
child-Returns c name (key d below further) (inr (ne, behind)) =
    let (next, e, inside) = child-Returns c name further behind in (next, rw ne e, inside)

levels_above-Returns :
    (name : List ℕ) (level : Level) (above : List Level)
    → HasPath name level
    → Returns (λ levels. length levels ≡ length name + length above) (levels_above name level above)
unfolding levels_above
levels_above-Returns [] level above h = (above, refl, omega arith)
levels_above-Returns (c ∷ name) level above h =
    let (below, e, inside) = child-Returns c name level h in
    let (levels, e', long) = levels_above-Returns name below (level ∷ above) inside in
    (levels, rw e e', omega (arith, long))

-- A valid candidate has a byte.
valid_filled : (out : List ℕ) → is_invalid out ≡ false → 0 < length out
unfolding is_invalid
valid_filled [] h = absurd (cc)
valid_filled (c ∷ out) h = omega arith

-- A name has as many levels above it as bytes, and the last byte stays.
backtrack-Returns :
    (above : List Level) (out : List ℕ)
    → 0 < length out
    → length out ≤ length above
    → Returns (λ abbreviation. 0 < length abbreviation) (backtrack above out)
unfolding backtrack
backtrack-Returns [] out h k = absurd (omega arith)
backtrack-Returns (level ∷ above) out h k = elim (Bool-cases (ltb 2 (level_length level above))) [
  | inl branching ↦ (out, rw branching refl, h)
  | inr single ↦ elim (Bool-cases (is_invalid (drop_end out 1))) [
    | inl invalid ↦ (out, rw (single, invalid) refl, h)
    | inr valid ↦
        let (abbreviation, e, filled) =
          backtrack-Returns above (drop_end out 1) (valid_filled (drop_end out 1) valid)
            (omega (arith, length-take (length out - 1) out)) in
        (abbreviation, rw (single, valid) e, filled)
  ]
]

abbreviate_all-Returns :
    (trie : Level) (names : List (List ℕ))
    → All (λ n. HasPath n trie) names
    → All (λ n. 0 < length n) names
    → Returns (λ outnames. length outnames ≡ length names) (abbreviate_all trie names)
unfolding abbreviate_all
abbreviate_all-Returns trie [] h k = ([], refl, refl)
abbreviate_all-Returns trie (name ∷ names) (h, hs) (k, ks) =
    let (above, e, long) = levels_above-Returns name trie [] h in
    let (out, e', filled) = backtrack-Returns above name k (omega (arith, long)) in
    let (outnames, e2, same) = abbreviate_all-Returns trie names hs ks in
    (out ∷ outnames, rw (e, e', e2) refl, omega (arith, same))

-- Names that are not empty are all abbreviated.
pub abbreviate_tree_names-Returns :
    (names : List (List ℕ))
    → All (λ n. 0 < length n) names
    → Returns (λ outnames. length outnames ≡ length names) (abbreviate_tree_names names)
unfolding abbreviate_tree_names
abbreviate_tree_names-Returns names h =
    abbreviate_all-Returns (add_names names bare) names (add_names-HasPath names bare) h
