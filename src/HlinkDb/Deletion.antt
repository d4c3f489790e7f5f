-- ===== src/HlinkDb/Deletion.antt =====
-- lib/bup/hlinkdb.py: `del_path` and `change_path`.
use mathlib.Core.Path.{◌≡◌, refl, sym, ap, ◌∙◌}
use mathlib.Core.Logic.{inl, inr}
use mathlib.Core.Option.{some-injective}
use bup.Base.{ℕ, true, false, Option, none, some, List, if◌then◌else◌, Bool-cases, arith}
use bup.Base.Dict.{
  Key, lookup, delete, contains, remove, distinct, lookup-delete, contains-remove, distinct-remove,
}
use bup.Base.Lists.{bytes_eq, bytes_eq_refl, bytes_eq→eq}
use bup.Base.Error.{ok, err, type_error}
use bup.HlinkDb.{
  HlinkDb, keep, del_node_path, del_path, change_path, raises, deleted, without, forget,
  change_raises,
}
use bup.HlinkDb.Paths.{links, IsConsistent, links-keep, unlinked_found}

module _ (path node : Key) (paths : Key → List Key) (found : Key → Option Key)
    (after : Key → List Key) (found_after : Key → Option Key)
    (listed : (p n : Key) → found p ≡ some n → contains p (paths n) ≡ true)
    (indexed : (p n : Key) → contains p (paths n) ≡ true → found p ≡ some n)
    (apart : distinct (paths node) ≡ true)
    (now : (n : Key) → after n ≡ (if bytes_eq node n then remove path (paths node) else paths n))
    (now_found : (p : Key) → found_after p ≡ (if bytes_eq path p then none else found p))
    (here : found path ≡ some node) where
  after_listed : (p n : Key) → found_after p ≡ some n → contains p (after n) ≡ true
  after_listed p n f = elim (Bool-cases (bytes_eq path p)) [
    | inl same ↦ ground (arith, now_found p, same, f)
    | inr other ↦
        let was : found p ≡ some n = sym (now_found p ∙ rw other) ∙ f in
        elim (Bool-cases (bytes_eq node n)) [
          | inl same_node ↦
              rw (now n, same_node, contains-remove p path (paths node) apart, other)
                (ap (λ m. contains p (paths m)) (bytes_eq→eq node n same_node) ∙ listed p n was)
          | inr far ↦ rw (now n, far) (listed p n was)
        ]
  ]

  after_indexed : (p n : Key) → contains p (after n) ≡ true → found_after p ≡ some n
  after_indexed p n c = elim (Bool-cases (bytes_eq node n)) [
    | inl same_node ↦
        let left : (if bytes_eq path p then false else contains p (paths node)) ≡ true =
          sym (ap (contains p) (now n ∙ rw same_node) ∙ contains-remove p path (paths node) apart)
          ∙ c in
        elim (Bool-cases (bytes_eq path p)) [
          | inl same ↦ ground (arith, same, left)
          | inr other ↦
              now_found p
              ∙ rw other
                  (indexed p node (sym (rw other) ∙ left) ∙ ap some (bytes_eq→eq node n same_node))
        ]
    | inr far ↦
        let was : found p ≡ some n = indexed p n (ap (contains p) (sym (now n ∙ rw far)) ∙ c) in
        elim (Bool-cases (bytes_eq path p)) [
          | inr other ↦ now_found p ∙ rw other was
          | inl same ↦
              let at_node : node ≡ n =
                some-injective node n (sym here ∙ ap found (bytes_eq→eq path p same) ∙ was) in
              ground (arith, far, ap (λ m. bytes_eq m n) at_node, bytes_eq_refl n)
        ]
  ]

-- What `_del_node_path` does with a path that the node has.
gone : Key → Key → HlinkDb → HlinkDb
gone path node db = record db {
  node_paths = keep node (remove path (links node db.node_paths)) db.node_paths;
}

del_node_path-gone :
    (path node : Key) (db : HlinkDb)
    → contains path (links node db.node_paths) ≡ true
    → del_node_path node path db ≡ ok (gone path node db)
unfolding del_node_path gone links
del_node_path-gone path node db h =
    rw (unlinked_found path node db.node_paths (lookup node db.node_paths) h)

gone-IsConsistent :
    (path node : Key) (db : HlinkDb)
    → IsConsistent db
    → lookup path db.path_node ≡ some node
    → IsConsistent (forget path (gone path node db))
unfolding forget gone
gone-IsConsistent path node db good here =
    let left = remove path (links node db.node_paths) in
    let now = λ (n : Key). links-keep node n left db.node_paths in
    let now_found = λ (p : Key). lookup-delete path p db.path_node in
    let paths = λ (n : Key). links n db.node_paths in
    let found = λ (p : Key). lookup p db.path_node in
    let after = λ (n : Key). links n (keep node left db.node_paths) in
    let found_after = λ (p : Key). lookup p (delete path db.path_node) in
    let good_apart = good.apart node in
    record {
      listed =
          after_listed path node paths found after found_after good.listed good.indexed good_apart
            now now_found here;
      indexed =
          after_indexed path node paths found after found_after good.listed good.indexed good_apart
            now now_found here;
      apart = λ n. elim (Bool-cases (bytes_eq node n)) [
        | inl same ↦ rw (now n, same) (distinct-remove path (links node db.node_paths) good_apart)
        | inr other ↦ rw (now n, other) (good.apart n)
      ];
    }

del_path_found :
    (path : Key) (db : HlinkDb) (found : Option Key)
    → IsConsistent db
    → lookup path db.path_node ≡ found
    → (after : HlinkDb) × (raises db (deleted path db found) ≡ (ok tt, after))
      × IsConsistent after
      × ((p : Key)
          → lookup p after.path_node ≡ (if bytes_eq path p then none else lookup p db.path_node))
unfolding raises deleted forget gone
del_path_found path db none good f = (
  db,
  refl,
  good,
  λ p. elim (Bool-cases (bytes_eq path p)) [
    | inl same ↦ rw same (ap (λ q. lookup q db.path_node) (sym (bytes_eq→eq path p same)) ∙ f)
    | inr other ↦ rw other
  ],
)
del_path_found path db (some node) good f = (
  forget path (gone path node db),
  rw (del_node_path-gone path node db (good.listed path node f)),
  gone-IsConsistent path node db good f,
  λ p. lookup-delete path p db.path_node,
)

-- On a consistent database del_path never raises, whether it has the path or not; the database
-- after it is consistent, does not have the path, and has every other path with its node.
pub del_path-IsConsistent :
    (path : Key) (db : HlinkDb)
    → IsConsistent db
    → (after : HlinkDb) × (del_path path db ≡ (ok tt, after))
      × IsConsistent after
      × ((p : Key)
          → lookup p after.path_node ≡ (if bytes_eq path p then none else lookup p db.path_node))
unfolding del_path
del_path-IsConsistent path db good = del_path_found path db (lookup path db.path_node) good refl

change_found :
    (path : Key) (db : HlinkDb) (found : Option Key)
    → IsConsistent db
    → lookup path db.path_node ≡ found
    → (after : HlinkDb) × (change_raises db (without path db found) ≡ (err type_error, after))
      × ((p : Key) → lookup p after.path_node ≡ lookup p db.path_node)
      × ((node : Key) → found ≡ some node → contains path (links node after.node_paths) ≡ false)
unfolding change_raises without gone
change_found path db none good f = (db, refl, λ p. refl, λ node e. ground (arith, e))
change_found path db (some node) good f = (
  gone path node db,
  rw (del_node_path-gone path node db (good.listed path node f)),
  λ p. refl,
  λ n e. rw (
    ← some-injective node n e,
    links-keep node node (remove path (links node db.node_paths)) db.node_paths,
    bytes_eq_refl node,
    contains-remove path path (links node db.node_paths) (good.apart node),
    bytes_eq_refl path,
  ),
)

-- change_path on a consistent database ends in a TypeError, because it hands add_path its arguments
-- in the wrong order. By then the path is gone from its node's list, if it had one, while the index
-- from paths to nodes is what it was.
pub change_path-raises :
    (path : Key) (new_dev new_ino : ℕ) (db : HlinkDb)
    → IsConsistent db
    → (after : HlinkDb) × (change_path path new_dev new_ino db ≡ (err type_error, after))
      × ((p : Key) → lookup p after.path_node ≡ lookup p db.path_node)
      × ((node : Key)
          → lookup path db.path_node ≡ some node
          → contains path (links node after.node_paths) ≡ false)
unfolding change_path
change_path-raises path new_dev new_ino db good =
    change_found path db (lookup path db.path_node) good refl
