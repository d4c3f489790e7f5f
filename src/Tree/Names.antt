-- ===== src/Tree/Names.antt =====
-- `_abbreviate_tree_names` of lib/bup/tree.py.
pub mod Total
mod Tests
use bup.Base.{
  ℕ, suc, ◌+◌, Bool, true, false, ◌||◌, List, [], ◌∷◌, ◌++◌, ltb, ◌==◌, if◌then◌else◌, bytes_eq,
}
use bup.Base.Bytes.{ascii, drop_end}
use bup.Base.Error.{Result, ok, err, key_error, ◌>>=◌}

-- A level of the trie: a character with its level, and the further characters. The key None, which
-- leads back, is left out.
pub data Level : Type 0 where
  bare : Level
  key : ℕ → Level → Level → Level

-- The first loop over a name.
unfoldable pub add_name : List ℕ → Level → Level
add_name [] level = level
add_name (c ∷ name) bare = key c (add_name name bare) bare
add_name (c ∷ name) (key d below further) =
    let inside = add_name name below in
    let behind = add_name (c ∷ name) further in
    if c == d then key d inside further else key d below behind

unfoldable pub add_names : List (List ℕ) → Level → Level
add_names [] level = level
add_names (name ∷ names) level = add_names names (add_name name level)

-- level[c]
unfoldable pub child : ℕ → Level → Result Level
child c bare = err key_error
child c (key d below further) = let other = child c further in if d == c then ok below else other

-- The levels that level[None] goes back through from the last one, the nearest first.
unfoldable pub levels_above : List ℕ → Level → List Level → Result (List Level)
levels_above [] level above = ok above
levels_above (c ∷ name) level above = do
  below ← child c level
  levels_above name below (level ∷ above)

unfoldable pub key_count : Level → ℕ
key_count bare = 0
key_count (key c below further) = 1 + key_count further

-- len(level): every level but the root, which is the last one of them, has the key None.
unfoldable pub level_length : Level → List Level → ℕ
level_length level [] = key_count level
level_length level (above ∷ further) = 1 + key_count level

unfoldable pub is_invalid : List ℕ → Bool
is_invalid name = bytes_eq name [] || bytes_eq name (ascii ".") || bytes_eq name (ascii "..")

-- The `while True`.
unfoldable pub backtrack : List Level → List ℕ → Result (List ℕ)
backtrack [] out = err key_error
backtrack (level ∷ above) out =
    let candidate = drop_end out 1 in
    let further = backtrack above candidate in
    if ltb 2 (level_length level above)
    then ok out
    else if is_invalid candidate
    then ok out
    else further

unfoldable pub abbreviate_all : Level → List (List ℕ) → Result (List (List ℕ))
abbreviate_all trie [] = ok []
abbreviate_all trie (name ∷ names) = do
  above ← levels_above name trie []
  out ← backtrack above name
  outnames ← abbreviate_all trie names
  ok (out ∷ outnames)

unfoldable pub abbreviate_tree_names : List (List ℕ) → Result (List (List ℕ))
abbreviate_tree_names names = abbreviate_all (add_names names bare) names
