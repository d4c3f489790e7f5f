-- ===== src/Tree/Bupm/Entries.antt =====
-- The entries of the git tree that `_write_tree` writes.
use bup.Base.{ℕ, ◌≡◌, inl, inr, refl, ap, Bool, true, false, List, [], ◌∷◌, ◌++◌, IsIn}
use bup.Base.Dict.{Key}
use bup.Base.Error.{Result, ok, err, undefined, ◌>>=◌}
use bup.Hashsplit.{TreeEntry}
use bup.Tree.{Meta, Item, mangled_name, as_entries}
use bup.Tree.Bupm.{dir_metadata, bupm_entries, write_tree}

-- What a step of a do block returned when the block returned.
pub bind-ok :
    {A B : Type 0} (r : Result A) (f : A → Result B) (b : B)
    → (r >>= f) ≡ ok b
    → (a : A) × (r ≡ ok a) × (f a ≡ ok b)
bind-ok (ok a) f b e = (a, refl, e)
bind-ok (err x) f b e = cc
bind-ok undefined f b e = cc

pub IsIn-append : {A : Type 0} (a : A) (xs ys : List A) → IsIn a ys → IsIn a (xs ++ ys)
IsIn-append a [] ys i = i
IsIn-append a (x ∷ xs) ys i = inr (IsIn-append a xs ys i)

module _ {Sha : Type 0} where
  unfoldable pub entry : Item Sha → Key → TreeEntry Sha
  entry item name = record { mode = item.gitmode; name = name; sha = item.oid }

  -- The item has a mangled name, under which a list has it.
  abbrev pub IsListed : Item Sha → List (TreeEntry Sha) → Type 0
  IsListed item entries =
      (name : Key) × (mangled_name item ≡ ok name) × IsIn (entry item name) entries

  as_entries-IsListed :
      (items : List (Item Sha)) (entries : List (TreeEntry Sha)) (item : Item Sha)
      → as_entries items ≡ ok entries
      → IsIn item items
      → IsListed item entries
  unfolding as_entries entry
  as_entries-IsListed [] entries item e i = absurd i
  as_entries-IsListed (next ∷ items) entries item e i =
      let (name, n, e1) = bind-ok (mangled_name next) _ entries e in
      let (rest, r, e2) = bind-ok (as_entries items) _ entries e1 in
      let all : record { mode = next.gitmode; name = name; sha = next.oid } ∷ rest ≡ entries = cc in
      rw (← all) (listed name n rest (λ j. as_entries-IsListed items rest item r j) i)
    where
      listed :
          (name : Key)
          → mangled_name next ≡ ok name
          → (rest : List (TreeEntry Sha)) → (IsIn item items → IsListed item rest)
          → IsIn item (next ∷ items)
          → IsListed item (entry next name ∷ rest)
      listed name n rest ih (inl here) = (name, rw (← here) n, inl (ap (λ x. entry x name) here))
      listed name n rest ih (inr later) = let (other, m, j) = ih later in (other, m, inr j)

  module _ (empty_metadata : List ℕ) (repair : Bool) (repo_write_tree : List (TreeEntry Sha) → Sha)
      (repo_write_bupm : List ℕ → Sha) (splitter : List ℕ → List (List ℕ × ℕ))
      (read_tree : Sha → List (TreeEntry Sha))
      (reads : (entries : List (TreeEntry Sha)) (e : TreeEntry Sha)
        → IsIn e entries
        → IsIn e (read_tree (repo_write_tree entries))) where
    ap-IsIn : (e : TreeEntry Sha) {a b : Sha} → a ≡ b → IsIn e (read_tree a) → IsIn e (read_tree b)
    ap-IsIn e p i = rw (← p) i

    -- A written tree has all the items, by their mangled names.
    pub write_tree-IsListed :
        (dir_meta : Meta) (items : List (Item Sha)) (add_meta : Bool) (oid : Sha) (item : Item Sha)
        → write_tree empty_metadata repair repo_write_tree repo_write_bupm splitter dir_meta items
            add_meta
          ≡ ok oid
        → IsIn item items
        → IsListed item (read_tree oid)
    unfolding write_tree
    write_tree-IsListed dir_meta items false oid item e i =
        let (entries, es, h) = bind-ok (as_entries items) _ oid e in
        let (name, m, j) = as_entries-IsListed items entries item es i in
        let written : repo_write_tree entries ≡ oid = cc in
        (name, m, ap-IsIn (entry item name) written (reads entries (entry item name) j))
    write_tree-IsListed dir_meta items true oid item e i =
        let (metalist, ms, h) =
          bind-ok (dir_metadata empty_metadata repair dir_meta items) _ oid e in
        let (entries, es, h') = bind-ok (as_entries items) _ oid h in
        let (name, m, j) = as_entries-IsListed items entries item es i in
        let bupm =
          bupm_entries empty_metadata repair repo_write_tree repo_write_bupm splitter metalist in
        let written : repo_write_tree (bupm ++ entries) ≡ oid = cc in
        (
          name,
          m,
          ap-IsIn (entry item name) written (
              reads (bupm ++ entries) (entry item name)
                (IsIn-append (entry item name) bupm entries j)),
        )
