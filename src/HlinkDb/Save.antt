-- ===== src/HlinkDb/Save.antt =====
-- lib/bup/hlinkdb.py: what a save leaves in the file.
use mathlib.Core.Path.{◌≡◌, refl}
use bup.Base.{true, false, Option, none, some, List, [], ◌∷◌}
use bup.Base.Dict.{Key, Dict}
use bup.Base.Error.{ok, err, exception}
use bup.HlinkDb.{
  HlinkDb, is_filled, is_some, replaced, prepare_save, commit_save, abort_save, open_db, or_empty,
}

-- What a file is to hold: nothing is kept as no file.
pub saved : Dict (List Key) → Option (Dict (List Key))
saved [] = none
saved (entry ∷ nodes) = some (entry ∷ nodes)

pub unless_data : Dict (List Key) → Option (Dict (List Key)) → Option (Dict (List Key))
unless_data [] file = none
unless_data (entry ∷ nodes) file = file

module _ (paths : Dict (List Key)) (path_node : Dict Key) (file : Option (Dict (List Key))) where
  -- A database that is open and has no save pending.
  abbrev pub idle : HlinkDb
  idle = record {
    closed = false;
    pending_save = none;
    unlinks = false;
    node_paths = paths;
    path_node = path_node;
    file = file;
  }

  pub prepared : HlinkDb
  prepared = (prepare_save idle).1

  pub committed : HlinkDb
  committed = (commit_save prepared).1

-- A save that is prepared and committed on an open database without a pending save raises nothing,
-- closes the database and leaves its paths in the file, or no file when there are none, whatever
-- the file was; opening the file again gives the same paths.
pub commit_save-prepare_save :
    (paths : Dict (List Key)) (path_node : Dict Key) (file : Option (Dict (List Key)))
    → ((prepare_save (idle paths path_node file)).0 ≡ ok tt)
      × ((commit_save (prepared paths path_node file)).0 ≡ ok tt)
      × ((committed paths path_node file).closed ≡ true)
      × ((committed paths path_node file).file ≡ saved paths)
      × ((open_db (committed paths path_node file).file).node_paths ≡ paths)
unfolding prepared committed prepare_save commit_save replaced is_filled is_some saved open_db
    or_empty
commit_save-prepare_save [] path_node file = (refl, refl, refl, refl, refl)
commit_save-prepare_save (entry ∷ paths) path_node file = (refl, refl, refl, refl, refl)

-- A commit with paths to save and no save prepared raises, closes the database and leaves the file;
-- a second preparation with paths raises and changes nothing.
pub save_order :
    (entry : Key × List Key) (paths : Dict (List Key)) (path_node : Dict Key)
    (file : Option (Dict (List Key)))
    → (commit_save (idle (entry ∷ paths) path_node file)
        ≡ (err exception, record (idle (entry ∷ paths) path_node file) { closed = true }))
      × (prepare_save (prepared (entry ∷ paths) path_node file)
          ≡ (err exception, prepared (entry ∷ paths) path_node file))
unfolding prepared prepare_save commit_save is_filled is_some
save_order entry paths path_node file = (refl, refl)

-- Aborting closes an open database; before a preparation it leaves the file, and after one too if
-- there are paths, but after one without any the file is removed, as a commit would.
pub abort_save-prepare_save :
    (paths : Dict (List Key)) (path_node : Dict Key) (file : Option (Dict (List Key)))
    → ((abort_save (prepared paths path_node file)).closed ≡ true)
      × ((abort_save (idle paths path_node file)).file ≡ file)
      × ((abort_save (prepared paths path_node file)).file ≡ unless_data paths file)
unfolding prepared prepare_save abort_save replaced is_filled is_some unless_data
abort_save-prepare_save [] path_node file = (refl, refl, refl)
abort_save-prepare_save (entry ∷ paths) path_node file = (refl, refl, refl)
