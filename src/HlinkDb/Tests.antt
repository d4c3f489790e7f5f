-- ===== src/HlinkDb/Tests.antt =====
-- A database of three paths, and the theorems on it.
use mathlib.Core.Path.{◌≡◌, refl}
use bup.Base.{true, false, none, some, List, [], ◌∷◌, if◌then◌else◌, arith}
use bup.Base.Dict.{Key, Dict, lookup, insert, contains, distinct}
use bup.Base.Lists.{bytes_eq}
use bup.Base.Error.{ok, err, type_error}
use bup.HlinkDb.{
  HlinkDb, node_of, decimal, decimal_loop, open_db, add_path, del_path, change_path, prepare_save,
  commit_save, abort_save,
}
use bup.HlinkDb.Paths.{links, or_none, IsConsistent, add_path-IsConsistent}
use bup.HlinkDb.Deletion.{del_path-IsConsistent, change_path-raises}
use bup.HlinkDb.Save.{
  idle, prepared, committed, saved, unless_data, commit_save-prepare_save, abort_save-prepare_save,
}

abbrev a : Key
a = b'a' ∷ []

abbrev b : Key
b = b'b' ∷ []

abbrev empty : HlinkDb
empty = idle [] [] none

empty-IsConsistent : IsConsistent empty
unfolding links or_none lookup contains distinct
empty-IsConsistent = record {
  listed = λ path node e. ground (arith, e);
  indexed = λ path node e. ground (arith, e);
  apart = λ node. refl;
}

-- One file with the link a.
abbrev linked_a : HlinkDb
linked_a = add_path a 1 12 empty

linked_a-IsConsistent : IsConsistent linked_a
linked_a-IsConsistent =
    add_path-IsConsistent empty a 1 12 empty-IsConsistent (unfold lookup in refl)

no_b : lookup b linked_a.path_node ≡ none
unfolding lookup insert add_path node_of decimal decimal_loop
no_b = refl

add_path-IsConsistent_example : IsConsistent (add_path b 1 12 linked_a)
add_path-IsConsistent_example = add_path-IsConsistent linked_a b 1 12 linked_a-IsConsistent no_b

del_path-IsConsistent_example :
    (after : HlinkDb) × (del_path a linked_a ≡ (ok tt, after))
    × IsConsistent after
    × ((p : Key)
        → lookup p after.path_node ≡ (if bytes_eq a p then none else lookup p linked_a.path_node))
del_path-IsConsistent_example = del_path-IsConsistent a linked_a linked_a-IsConsistent

change_path-raises_example :
    (after : HlinkDb) × (change_path a 1 13 linked_a ≡ (err type_error, after))
    × ((p : Key) → lookup p after.path_node ≡ lookup p linked_a.path_node)
    × ((node : Key)
        → lookup a linked_a.path_node ≡ some node
        → contains a (links node after.node_paths) ≡ false)
change_path-raises_example = change_path-raises a 1 13 linked_a linked_a-IsConsistent

abbrev nodes : Dict (List Key)
nodes = (b'1' ∷ b':' ∷ b'2' ∷ [], a ∷ b ∷ []) ∷ []

commit_save-prepare_save_example :
    ((prepare_save (idle nodes [] none)).0 ≡ ok tt)
    × ((commit_save (prepared nodes [] none)).0 ≡ ok tt)
    × ((committed nodes [] none).closed ≡ true)
    × ((committed nodes [] none).file ≡ saved nodes)
    × ((open_db (committed nodes [] none).file).node_paths ≡ nodes)
commit_save-prepare_save_example = commit_save-prepare_save nodes [] none

abort_save-prepare_save_example :
    ((abort_save (prepared [] [] (some nodes))).closed ≡ true)
    × ((abort_save (idle [] [] (some nodes))).file ≡ some nodes)
    × ((abort_save (prepared [] [] (some nodes))).file ≡ unless_data [] (some nodes))
abort_save-prepare_save_example = abort_save-prepare_save [] [] (some nodes)
