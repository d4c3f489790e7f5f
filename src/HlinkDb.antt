-- ===== src/HlinkDb.antt =====
-- lib/bup/hlinkdb.py: which paths are links of one file. A node is the bytes "dev:ino", a database
-- file is the dictionary that is pickled in it.
pub mod Paths
pub mod Deletion
pub mod Save
mod Tests
use bup.Base.{
  ℕ, zero, suc, ◌+◌, ◌/◌, ◌%◌, Bool, true, false, ◌&&◌, not, Option, none, some, List, [], ◌∷◌,
  ◌++◌, ◌==◌, if◌then◌else◌,
}
use bup.Base.Dict.{Key, Dict, lookup, insert, delete, contains, remove}
use bup.Base.Error.{
  Result, ok, err, undefined, ◌>>=◌, key_error, value_error, type_error, exception,
}

-- The pending save is the data that was written to the temporary file; `unlinks` says that the
-- cleanup has a callback that unlinks the file.
pub record HlinkDb : Type 0 where
  pub closed : Bool
  pub pending_save : Option (Dict (List Key))
  pub unlinks : Bool
  pub node_paths : Dict (List Key)
  pub path_node : Dict Key
  pub file : Option (Dict (List Key))

unfoldable pub decimal_loop : ℕ → ℕ → List ℕ
decimal_loop zero n = []
decimal_loop (suc rounds) n =
    let front = decimal_loop rounds (n / 10) in
    if n / 10 == 0 then (b'0' + n) ∷ [] else front ++ (b'0' + n % 10) ∷ []

-- b'%d' % n; a number has at most as many digits as it counts, and one more.
unfoldable pub decimal : ℕ → List ℕ
decimal n = decimal_loop (suc n) n

-- b'%d:%d' % (dev, ino)
pub node_of : ℕ → ℕ → Key
node_of dev ino = decimal dev ++ b':' ∷ decimal ino

-- pickle_load(filename) or {}
pub or_empty : Option (Dict (List Key)) → Dict (List Key)
or_empty none = []
or_empty (some paths) = paths

-- The loops of the constructor over `_node_paths`.
pub index_paths : Key → List Key → Dict Key → Dict Key
index_paths node [] path_node = path_node
index_paths node (path ∷ paths) path_node = index_paths node paths (insert path node path_node)

pub index_nodes : Dict (List Key) → Dict Key → Dict Key
index_nodes [] path_node = path_node
index_nodes ((node, paths) ∷ nodes) path_node = index_nodes nodes (index_paths node paths path_node)

pub open_db : Option (Dict (List Key)) → HlinkDb
open_db file = record {
  closed = false;
  pending_save = none;
  unlinks = false;
  node_paths = or_empty file;
  path_node = index_nodes (or_empty file) [];
  file = file;
}

-- Some data is to be saved.
pub is_filled : Dict (List Key) → Bool
is_filled [] = false
is_filled (entry ∷ d) = true

pub is_some : Option (Dict (List Key)) → Bool
is_some none = false
is_some (some d) = true

pub prepare_save : HlinkDb → Result (Unit {0}) × HlinkDb
prepare_save db =
    if is_some db.pending_save
    then (err exception, db)
    else if is_filled db.node_paths
    then (ok tt, record db { pending_save = some db.node_paths })
    else (ok tt, record db { unlinks = true })

-- What the cleanup does with the file: callbacks run last in first out, so an unlink comes after
-- the replacement.
pub replaced : Bool → Option (Dict (List Key)) → Option (Dict (List Key)) → Option (Dict (List Key))
replaced true pending file = none
replaced false none file = file
replaced false (some saved) file = some saved

pub commit_save : HlinkDb → Result (Unit {0}) × HlinkDb
commit_save db =
    if db.closed
    then (ok tt, db)
    else if is_filled db.node_paths && not (is_some db.pending_save)
    then (err exception, record db { closed = true })
    else (
      ok tt,
      record db {
        closed = true;
        unlinks = false;
        file = replaced db.unlinks db.pending_save db.file;
        pending_save = none;
      },
    )

-- `cancel` keeps the temporary file from its place; the cleanup runs all the same.
pub abort_save : HlinkDb → HlinkDb
abort_save db = if db.closed then db else record db {
  closed = true;
  unlinks = false;
  file = replaced db.unlinks none db.file;
  pending_save = none;
}

-- _node_paths[node] = ..., for a node that has `link_paths` or not
pub linked : Key → Key → Option (List Key) → Dict (List Key) → Dict (List Key)
linked path node none nodes = insert node (path ∷ []) nodes
linked path node (some []) nodes = insert node (path ∷ []) nodes
linked path node (some (p ∷ link_paths)) nodes =
    if not (contains path (p ∷ link_paths))
    then insert node ((p ∷ link_paths) ++ path ∷ []) nodes
    else insert node (path ∷ []) nodes

pub add_path : Key → ℕ → ℕ → HlinkDb → HlinkDb
add_path path dev ino db =
    let node = node_of dev ino in
    record db {
      path_node = insert path node db.path_node;
      node_paths = linked path node (lookup node db.node_paths) db.node_paths;
    }

-- What `_node_paths` is when `link_paths` is what is left of the node's list.
pub keep : Key → List Key → Dict (List Key) → Dict (List Key)
keep node [] nodes = delete node nodes
keep node (p ∷ link_paths) nodes = insert node (p ∷ link_paths) nodes

-- _del_node_path, on `_node_paths[node]`
pub unlinked : Key → Key → Option (List Key) → Dict (List Key) → Result (Dict (List Key))
unlinked node path none nodes = err key_error
unlinked node path (some link_paths) nodes =
    if not (contains path link_paths)
    then err value_error
    else ok (keep node (remove path link_paths) nodes)

pub del_node_path : Key → Key → HlinkDb → Result HlinkDb
del_node_path node path db = do
  nodes ← unlinked node path (lookup node db.node_paths) db.node_paths
  ok (record db { node_paths = nodes })

-- The exception, or none, and the database after it.
pub raises : HlinkDb → Result HlinkDb → Result (Unit {0}) × HlinkDb
raises db (ok after) = (ok tt, after)
raises db (err e) = (err e, db)
raises db undefined = (undefined, db)

pub without : Key → HlinkDb → Option Key → Result HlinkDb
without path db none = ok db
without path db (some node) = del_node_path node path db

-- `add_path(new_dev, new_ino, path)` puts a path where b'%d:%d' wants a number, so what comes
-- after the deletion is a TypeError.
pub change_raises : HlinkDb → Result HlinkDb → Result (Unit {0}) × HlinkDb
change_raises db (ok after) = (err type_error, after)
change_raises db (err e) = (err e, db)
change_raises db undefined = (undefined, db)

pub change_path : Key → ℕ → ℕ → HlinkDb → Result (Unit {0}) × HlinkDb
change_path path new_dev new_ino db = change_raises db (without path db (lookup path db.path_node))

-- `del self._path_node[path]`, after the deletion from the lists
pub forget : Key → HlinkDb → HlinkDb
forget path db = record db { path_node = delete path db.path_node }

pub deleted : Key → HlinkDb → Option Key → Result HlinkDb
deleted path db none = ok db
deleted path db (some node) = do after ← del_node_path node path db; ok (forget path after)

pub del_path : Key → HlinkDb → Result (Unit {0}) × HlinkDb
del_path path db = raises db (deleted path db (lookup path db.path_node))

pub or_key_error : Option (List Key) → Result (List Key)
or_key_error none = err key_error
or_key_error (some paths) = ok paths

pub paths_of : ℕ → ℕ → HlinkDb → Result (List Key)
paths_of dev ino db = or_key_error (lookup (node_of dev ino) db.node_paths)
