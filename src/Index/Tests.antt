-- ===== src/Index/Tests.antt =====
-- An index of a file, and of a directory that is added after what it contains.
use bup.Base.{◌⊎◌, ℕ, refl, arith, true, false, none, some, List, [], ◌∷◌, ◌++◌, ◌≡◌}
use mathlib.Core.List.{map}
use bup.Base.Int.{pos, negsuc}
use bup.Base.Bytes.{ascii}
use bup.Base.Hex.{replicate}
use bup.Base.Error.{ok, err, type_error, Returns, assertion_error}
use bup.Base.Lex.{bytes_lt}
use bup.Base.Struct.{be_bytes, pack_value}
use bup.Base.Struct
use bup.Xstat.{nsecs_to_timespec, floor_div, floor_mod}
use mathlib.Core.Path.{subst}
use bup.Base.{sym, inl, ◌||◌}
use bup.Vint.Unsigned.{vuint_bytes}
use bup.Vint.Signed.{vint_bytes}
use bup.Vint.Bvec.{bvec_bytes}
use bup.Vint.Pack.Unpack.{item_bytes}
use bup.Vint.Pack.Unpack
use bup.Metadata.{empty_metadata, is_zero, size_or_minus_one, records}
use bup.Metadata.Stored.{Common, with_common, common_content, path_content}
use bup.Metadata.Extended.{acl_content, acl_items, attr_content, xattr_content, xattr_items}
use bup.Metadata.RoundTrip.{IsStorable, HasSmallRecords, contents, records_lem}
use bup.Index.MetaStore.{Store, IsStore, store, metadata_at, metadata_at-store}
use bup.Index.State.{Stat, stale, update_from_stat, stale-update_from_stat}
use bup.Index.Add.{is_addable, IsEntryOf, entry_for, entry_for-IsEntryOf}
use bup.Index.Paths.{reduce_paths, IsCovered, reduce_paths-IsCovered}
use bup.Index.{Entry, Platform, entlen, packed, fixup_time, int_lt}
use bup.Index.Writer.{blank_new_entry, new_writer, last_name, blank_directory, add_entry, names_le}
use bup.Index.Reader.{iter}
use bup.Index.Replay.{plain}
use bup.Index.Additions.{Addition, write_index, Packs, FitsIndex, run_size, run_number}
use bup.Index.Total.{path_size}
use bup.Index.RoundTrip.{replay, iter-write_index}

abbrev platform : Platform
platform = record { dev_signed = false; nlink_signed = false; mode_signed = false }

abbrev entry : List ℕ → Entry
entry name = record {
  basename = name;
  name = name;
  tmax = none;
  dev = pos 1;
  ino = 12;
  nlink = pos 1;
  ctime = pos 1500000000;
  mtime = negsuc 4;
  atime = pos 7;
  size = 5;
  mode = pos 33188;
  gitmode = pos 33188;
  sha = replicate 20 1;
  flags = 0x8000;
  children_ofs = 0;
  children_n = 0;
  meta_ofs = 3;
}

abbrev additions : List Addition
additions =
    (9, ascii "/" ∷ ascii "b" ∷ [], entry (ascii "b"))
    ∷ (9, ascii "/" ∷ ascii "a/" ∷ ascii "c" ∷ [], entry (ascii "c"))
    ∷ (9, ascii "/" ∷ ascii "a/" ∷ [], entry (ascii "a/"))
    ∷ []

entry-Packs : (name : List ℕ) → Packs platform (entry name)
unfolding packed Struct.pack pack_value be_bytes replicate nsecs_to_timespec floor_div floor_mod
entry-Packs name = (_, refl)

blank-Packs : Packs platform (blank_directory [] 9 none)
unfolding packed Struct.pack pack_value be_bytes replicate nsecs_to_timespec floor_div floor_mod
    blank_directory blank_new_entry fixup_time
blank-Packs = (_, refl)

additions_fit : FitsIndex platform (1 ∷ 2 ∷ []) additions
unfolding run_size run_number path_size entlen
additions_fit = (omega arith, omega arith)

iter-write_index_example :
    (m : List ℕ) × (es : List Entry) × (write_index platform 9 none additions
        (new_writer (1 ∷ 2 ∷ []))
      ≡ ok m)
    × (iter platform 2 m [] (λ e. true) ≡ ok es)
    × (map plain es ≡ replay 9 none ([] ∷ []) additions)
unfolding replicate last_name names_le bytes_lt
iter-write_index_example =
    iter-write_index platform 9 none (1 ∷ 2 ∷ []) additions
      (
        (
          (
            omega arith,
            ((omega arith, (omega arith, tt)), ((omega arith, (omega arith, tt)), tt)),
            refl,
            refl,
          ),
          refl,
        ),
        (
          (
            (
              omega arith,
              (
                (omega arith, (omega arith, tt)),
                (
                  (omega arith, (omega arith, (omega arith, tt))),
                  ((omega arith, (omega arith, tt)), tt),
                ),
              ),
              refl,
              refl,
            ),
            refl,
          ),
          (
            (
              (
                omega arith,
                (
                  (omega arith, (omega arith, tt)),
                  ((omega arith, (omega arith, (omega arith, tt))), tt),
                ),
                refl,
                refl,
              ),
              refl,
            ),
            tt,
          ),
        ),
      )
      (omega arith) (refl, (refl, (refl, tt)))
      (
        (entry-Packs (ascii "b"), blank-Packs),
        ((entry-Packs (ascii "c"), blank-Packs), ((entry-Packs (ascii "a/"), blank-Packs), tt)),
      )
      blank-Packs additions_fit

-- An entry out of order: the message of the error cannot be made.
late :
    add_entry platform 9 none
      (ascii "/" ∷ ascii "b" ∷ [])
      (entry (ascii "b"))
      (record { f = []; levels = []; lastfile = ascii "/" ∷ ascii "a" ∷ [] })
    ≡ err type_error
unfolding add_entry names_le bytes_lt
late = refl

abbrev stat : Stat
stat = record {
  st_dev = pos 1;
  st_ino = 12;
  st_nlink = pos 1;
  st_ctime_ns = pos 9;
  st_mtime_ns = pos 30;
  st_atime_ns = pos 3;
  st_size = 5;
  st_mode = pos 33188;
}

stale-update_from_stat_example :
    stale (update_from_stat (record (entry (ascii "b")) { tmax = some (pos 20) }) stat 4) stat true
    ≡ (int_lt (pos 20) (pos 30) || int_lt (pos 20) (pos 9))
unfolding replicate is_zero
stale-update_from_stat_example =
    stale-update_from_stat (record (entry (ascii "b")) { tmax = some (pos 20) }) stat 4 (pos 20)
      true refl refl refl

reduce_paths-IsCovered_example :
    IsCovered
      (reduce_paths ((ascii "/a/b", ascii "b") ∷ (ascii "/a/", ascii "a/") ∷ []))
      (ascii "/a/b")
reduce_paths-IsCovered_example =
    reduce_paths-IsCovered ((ascii "/a/b", ascii "b") ∷ (ascii "/a/", ascii "a/") ∷ [])
      (ascii "/a/b") (inl refl)

abbrev common : Common
common = record {
  mode = pos 33188;
  uid = pos 0;
  gid = pos 0;
  user = ascii "root";
  group = [];
  rdev = pos 0;
  atime = pos 0;
  mtime = negsuc 0;
  ctime = pos 0;
}

abbrev no_metadata : Store
no_metadata = record { offsets = []; file = [] }

storable : IsStorable common empty_metadata
unfolding is_zero size_or_minus_one floor_div floor_mod
storable = (
  refl,
  (
    (
      inl (omega arith),
      (
        inl (omega arith),
        (
          omega arith,
          (
            inl (omega arith),
            (
              omega arith,
              (
                inl (omega arith),
                (
                  inl (omega arith),
                  (
                    inl (omega arith),
                    (
                      inl (omega arith),
                      (
                        inl (omega arith),
                        (inl (omega arith), (inl (omega arith), (inl (omega arith), tt))),
                      ),
                    ),
                  ),
                ),
              ),
            ),
          ),
        ),
      ),
    ),
    omega arith,
  ),
  tt,
  tt,
  tt,
  tt,
  tt,
  tt,
  tt,
)

small : HasSmallRecords (records false (with_common common empty_metadata))
unfolding contents path_content common_content acl_content acl_items attr_content xattr_content
    xattr_items Unpack.all_bytes item_bytes vuint_bytes vint_bytes bvec_bytes size_or_minus_one
    floor_div floor_mod
small =
    subst HasSmallRecords (sym (records_lem false common empty_metadata storable))
      (tt, (omega arith, (tt, (tt, (tt, (tt, (tt, tt)))))))

metadata_at-store_example :
    (ofs : ℕ) × (s' : Store) × (store (with_common common empty_metadata) no_metadata
      ≡ ok (ofs, s'))
    × IsStore s'
    × ((more : List ℕ)
        → metadata_at (s'.file ++ more) ofs ≡ ok (some (with_common common empty_metadata)))
metadata_at-store_example = metadata_at-store common empty_metadata no_metadata storable small tt

entry_for-IsEntryOf_example :
    ((is_addable (ascii "/a/b") (some stat) ≡ true)
      × Returns
          (IsEntryOf (ascii "/a/b"))
          (entry_for (ascii "/a/b") (some stat) (some (pos 33188, replicate 20 7)) 3 9 none))
    ⊎ ((is_addable (ascii "/a/b") (some stat) ≡ false)
        × (entry_for (ascii "/a/b") (some stat) (some (pos 33188, replicate 20 7)) 3 9 none
            ≡ err assertion_error))
unfolding replicate
entry_for-IsEntryOf_example =
    entry_for-IsEntryOf b'a' (ascii "/b") (some stat) (some (pos 33188, replicate 20 7)) 3 9 none
      (omega arith, (omega arith, (omega arith, tt))) refl
