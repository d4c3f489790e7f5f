-- ===== src/HlinkDb/Paths.antt =====
-- lib/bup/hlinkdb.py: `_node_paths` and `_path_node` stay inverse to each other.
use mathlib.Core.Path.{◌≡◌, sym, ap, ◌∙◌}
use mathlib.Core.Logic.{inl, inr}
use mathlib.Core.Option.{some-injective}
use bup.Base.{
  ℕ, true, false, Option, none, some, List, [], ◌∷◌, ◌++◌, if◌then◌else◌, Bool-cases, arith,
}
use bup.Base.Dict.{
  Key, Dict, lookup, insert, delete, contains, remove, distinct, lookup-insert, lookup-delete,
  contains-append, distinct-append,
}
use bup.Base.Lists.{bytes_eq, bytes_eq_refl, bytes_eq→eq}
use bup.Base.Error.{ok}
use bup.HlinkDb.{HlinkDb, node_of, linked, keep, unlinked, add_path}

unfoldable pub or_none : Option (List Key) → List Key
or_none none = []
or_none (some paths) = paths

-- The paths of a node, none for a node that is not there.
unfoldable pub links : Key → Dict (List Key) → List Key
links node nodes = or_none (lookup node nodes)

-- A path has a node when it stands in the node's list, and a list has no path twice.
pub record IsConsistent (db : HlinkDb) : Type 0 where
  pub listed :
      (path node : Key)
      → lookup path db.path_node ≡ some node
      → contains path (links node db.node_paths) ≡ true
  pub indexed :
      (path node : Key)
      → contains path (links node db.node_paths) ≡ true
      → lookup path db.path_node ≡ some node
  pub apart : (node : Key) → distinct (links node db.node_paths) ≡ true

links-insert :
    (node n : Key) (paths : List Key) (nodes : Dict (List Key))
    → links n (insert node paths nodes) ≡ (if bytes_eq node n then paths else links n nodes)
unfolding links or_none
links-insert node n paths nodes = rw (lookup-insert node n paths nodes) (ground arith)

links-delete :
    (node n : Key) (nodes : Dict (List Key))
    → links n (delete node nodes) ≡ (if bytes_eq node n then [] else links n nodes)
unfolding links or_none
links-delete node n nodes = rw (lookup-delete node n nodes) (ground arith)

links-linked_found :
    (path node n : Key) (nodes : Dict (List Key)) (found : Option (List Key))
    → contains path (or_none found) ≡ false
    → links n (linked path node found nodes)
      ≡ (if bytes_eq node n then or_none found ++ path ∷ [] else links n nodes)
unfolding linked or_none
links-linked_found path node n nodes none h = links-insert node n (path ∷ []) nodes
links-linked_found path node n nodes (some []) h = links-insert node n (path ∷ []) nodes
links-linked_found path node n nodes (some (p ∷ ps)) h =
    rw h (links-insert node n ((p ∷ ps) ++ path ∷ []) nodes)

links-linked :
    (path node n : Key) (nodes : Dict (List Key))
    → contains path (links node nodes) ≡ false
    → links n (linked path node (lookup node nodes) nodes)
      ≡ (if bytes_eq node n then links node nodes ++ path ∷ [] else links n nodes)
unfolding links
links-linked path node n nodes h = links-linked_found path node n nodes (lookup node nodes) h

pub links-keep :
    (node n : Key) (paths : List Key) (nodes : Dict (List Key))
    → links n (keep node paths nodes) ≡ (if bytes_eq node n then paths else links n nodes)
unfolding keep
links-keep node n [] nodes = links-delete node n nodes
links-keep node n (p ∷ ps) nodes = links-insert node n (p ∷ ps) nodes

pub unlinked_found :
    (path node : Key) (nodes : Dict (List Key)) (found : Option (List Key))
    → contains path (or_none found) ≡ true
    → unlinked node path found nodes ≡ ok (keep node (remove path (or_none found)) nodes)
unfolding unlinked or_none contains
unlinked_found path node nodes none h = ground arith
unlinked_found path node nodes (some paths) h = rw h

-- A path that is not in the list of its node yet has no node.
unlisted :
    (db : HlinkDb)
    → IsConsistent db
    → (path node : Key) → lookup path db.path_node ≡ none
    → contains path (links node db.node_paths) ≡ false
unlisted db good path node fresh = elim (Bool-cases (contains path (links node db.node_paths))) [
  | inr absent ↦ absent
  | inl present ↦ ground (arith, good.indexed path node present)
]

module _ (path node : Key) (paths : Key → List Key) (found : Key → Option Key)
    (after : Key → List Key) (found_after : Key → Option Key)
    (listed : (p n : Key) → found p ≡ some n → contains p (paths n) ≡ true)
    (indexed : (p n : Key) → contains p (paths n) ≡ true → found p ≡ some n) where
  module _
      (now : (n : Key) → after n ≡ (if bytes_eq node n then paths node ++ path ∷ [] else paths n))
      (now_found : (p : Key) → found_after p ≡ (if bytes_eq path p then some node else found p))
      (fresh : found path ≡ none) where
    after_listed : (p n : Key) → found_after p ≡ some n → contains p (after n) ≡ true
    unfolding contains
    after_listed p n f = elim (Bool-cases (bytes_eq path p)) [
      | inl same ↦
          let here : node ≡ n = some-injective node n (sym (now_found p ∙ rw same) ∙ f) in
          let same_node : bytes_eq node n ≡ true = rw here (bytes_eq_refl n) in
          rw (now n, same_node, contains-append p (paths node) (path ∷ []), same) (ground arith)
      | inr other ↦
          let was : found p ≡ some n = sym (now_found p ∙ rw other) ∙ f in
          elim (Bool-cases (bytes_eq node n)) [
            | inl same_node ↦
                let here : node ≡ n = bytes_eq→eq node n same_node in
                rw (
                  now n,
                  same_node,
                  contains-append p (paths node) (path ∷ []),
                  here,
                  listed p n was,
                )
            | inr far ↦ rw (now n, far) (listed p n was)
          ]
    ]

    after_indexed : (p n : Key) → contains p (after n) ≡ true → found_after p ≡ some n
    unfolding contains
    after_indexed p n c = elim (Bool-cases (bytes_eq node n)) [
      | inr far ↦
          let was : found p ≡ some n = indexed p n (ap (contains p) (sym (now n ∙ rw far)) ∙ c) in
          elim (Bool-cases (bytes_eq path p)) [
            | inl same ↦ ground (arith, sym fresh ∙ ap found (bytes_eq→eq path p same) ∙ was)
            | inr other ↦ now_found p ∙ rw other was
          ]
      | inl same_node ↦
          let here : node ≡ n = bytes_eq→eq node n same_node in
          elim (Bool-cases (bytes_eq path p)) [
            | inl same ↦ now_found p ∙ rw same (ap some here)
            | inr other ↦
                let was : contains p (paths n) ≡ true =
                  ap (λ m. contains p (paths m)) (sym here)
                  ∙ (ground (arith, contains-append p (paths node) (path ∷ []), now n)) in
                now_found p ∙ rw other (indexed p n was)
          ]
    ]

-- Adding a path that the database does not have keeps it consistent.
pub add_path-IsConsistent :
    (db : HlinkDb) (path : Key) (dev ino : ℕ)
    → IsConsistent db
    → lookup path db.path_node ≡ none
    → IsConsistent (add_path path dev ino db)
unfolding add_path
add_path-IsConsistent db path dev ino good fresh =
    let node = node_of dev ino in
    let absent : contains path (links node db.node_paths) ≡ false =
      unlisted db good path node fresh in
    let now = λ (n : Key). links-linked path node n db.node_paths absent in
    let now_found = λ (p : Key). lookup-insert path p node db.path_node in
    let paths = λ (n : Key). links n db.node_paths in
    let found = λ (p : Key). lookup p db.path_node in
    let after = λ (n : Key). links n (add_path path dev ino db).node_paths in
    let found_after = λ (p : Key). lookup p (add_path path dev ino db).path_node in
    record {
      listed =
          after_listed path node paths found after found_after good.listed good.indexed now
            now_found fresh;
      indexed =
          after_indexed path node paths found after found_after good.listed good.indexed now
            now_found fresh;
      apart = λ n. elim (Bool-cases (bytes_eq node n)) [
        | inl same ↦
            rw (now n, same)
              (distinct-append (links node db.node_paths) path (good.apart node) absent)
        | inr other ↦ rw (now n, other) (good.apart n)
      ];
    }
