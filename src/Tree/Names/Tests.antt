-- ===== src/Tree/Names/Tests.antt =====
-- Abbreviations of a few names.
use bup.Base.{◌≡◌, refl, [], ◌∷◌}
use bup.Base.Bytes.{ascii}
use bup.Base.Error.{ok}
use bup.Tree.Names.{
  abbreviate_tree_names, add_names, add_name, child, levels_above, key_count, level_length,
  is_invalid, backtrack, abbreviate_all,
}

-- A name below which another one is has one further character, so that both get the name of a
-- third, of which they are further parts: the abbreviations are not unique.
abbreviate_to_one :
    abbreviate_tree_names (ascii "a" ∷ ascii "abb" ∷ ascii "ab" ∷ [])
    ≡ ok (ascii "a" ∷ ascii "a" ∷ ascii "a" ∷ [])
unfolding abbreviate_tree_names add_names add_name child levels_above key_count level_length
    is_invalid backtrack abbreviate_all
abbreviate_to_one = refl

abbreviate_apart :
    abbreviate_tree_names (ascii "aaaa" ∷ ascii "bbbb" ∷ ascii "..strange" ∷ [])
    ≡ ok (ascii "a" ∷ ascii "b" ∷ ascii "..s" ∷ [])
unfolding abbreviate_tree_names add_names add_name child levels_above key_count level_length
    is_invalid backtrack abbreviate_all
abbreviate_apart = refl
