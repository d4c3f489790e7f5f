-- ===== src/Tree/Tests.antt =====
-- A repository that keeps what it is given, small directories, and the theorems on them.
use bup.Base.{
  arith, ℕ, ◌+◌, ◌≡◌, inl, inr, refl, Bool, true, false, none, List, [], ◌∷◌, if◌then◌else◌, length,
  ◌==◌, IsIn,
}
use bup.Base.Bytes.{ascii}
use bup.Base.Dict.{Key}
use bup.Base.Error.{ok, ◌>>=◌}
use bup.Git.Names.{mangle_name}
use bup.Hashsplit.{TreeEntry}
use bup.Tree.{no_meta, real_meta, Item, StackDir, mangled_name}
use bup.Tree.Bupm.{write_tree}
use bup.Tree.Split.{new_tree, split_items, write_split_tree, write_top}
use bup.Tree.Split.Rounds.{write_split_tree-calls}
use bup.Tree.Stack.{write}
use bup.Tree.Stack.Written.{IsWritten, write-IsWritten}

-- An object by its content.
data Object : Type 0 where
  bytes : List ℕ → Object
  no_entries : Object
  with_entry : ℕ → Key → Object → Object → Object

abbrev to_object : List (TreeEntry Object) → Object
to_object [] = no_entries
to_object (e ∷ entries) = with_entry e.mode e.name e.sha (to_object entries)

abbrev of_object : Object → List (TreeEntry Object)
of_object (bytes b) = []
of_object no_entries = []
of_object (with_entry mode name sha rest) =
    record { mode = mode; name = name; sha = sha } ∷ of_object rest

of_object-to_object :
    (entries : List (TreeEntry Object)) (e : TreeEntry Object)
    → IsIn e entries
    → IsIn e (of_object (to_object entries))
of_object-to_object [] e i = i
of_object-to_object (x ∷ entries) e (inl at) = inl at
of_object-to_object (x ∷ entries) e (inr i) = inr (of_object-to_object entries e i)

abbrev file_item : Key → Item Object
file_item name = record {
  name = name;
  mode = 0o100644;
  gitmode = 0o100644;
  oid = bytes name;
  meta = real_meta (1 ∷ []);
  is_raw = false;
  full_names = none;
}

-- Five names, one of them twice.
abbrev files : List (Item Object)
files =
    file_item (ascii "b")
    ∷ file_item (ascii "a")
    ∷ file_item (ascii "d")
    ∷ file_item (ascii "c")
    ∷ file_item (ascii "a")
    ∷ file_item (ascii "e")
    ∷ []

-- Every name ends a split, so that the tree has two levels of subtrees.
abbrev feed_always : Key → Unit {0} → Bool × Unit {0}
feed_always name h = (true, tt)

abbrev in_one_blob : List ℕ → List (List ℕ × ℕ)
in_one_blob bupm = (bupm, 0) ∷ []

abbrev root : StackDir Object
root = record { name = []; meta = real_meta (2 ∷ []); items = files }

write-IsWritten_example :
    (oid : Object) × (write [] false to_object bytes in_one_blob tt feed_always true root ≡ ok oid)
    × ((item : Item Object)
        → IsIn item files
        → IsWritten of_object [] false to_object bytes in_one_blob tt feed_always true
            of_object-to_object files oid item.name)
unfolding mangled_name mangle_name
write-IsWritten_example =
    write-IsWritten of_object [] false to_object bytes in_one_blob tt feed_always true
      of_object-to_object root tt
      (
        (((ascii "b", refl), tt), omega arith),
        (
          (((ascii "a", refl), tt), omega arith),
          (
            (((ascii "d", refl), tt), omega arith),
            (
              (((ascii "c", refl), tt), omega arith),
              (
                (((ascii "a", refl), tt), omega arith),
                ((((ascii "e", refl), tt), omega arith), tt),
              ),
            ),
          ),
        ),
      )

write_split_tree-calls_example :
    write_split_tree [] false to_object bytes in_one_blob tt feed_always no_meta files 0 ≡ (
      if length files == 0
      then write_tree [] false to_object bytes in_one_blob no_meta files true
      else if length (split_items [] false to_object bytes in_one_blob tt feed_always files) == 1
      then write_top [] false to_object bytes in_one_blob tt feed_always 0 no_meta files
      else new_tree [] false to_object bytes in_one_blob tt feed_always 0
          (split_items [] false to_object bytes in_one_blob tt feed_always files)
        >>= λ (newtree : List (Item Object)).
            write_split_tree [] false to_object bytes in_one_blob tt feed_always no_meta newtree
              (0 + 1))
write_split_tree-calls_example =
    write_split_tree-calls [] false to_object bytes in_one_blob tt feed_always no_meta files 0
