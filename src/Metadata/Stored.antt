-- ===== src/Metadata/Stored.antt =====
-- The contents of the records that lib/bup/metadata.py writes, and what each of them loads.
use bup.Base.{
  ℕ, ◌^◌, ◌<◌, ◌≡◌, refl, arith, false, Option, none, some, List, [], ◌∷◌, ◌==◌, length, drop,
  ==_refl,
}
use bup.Base.Int.{ℤ, pos}
use bup.Base.Bytes.{ascii}
use bup.Base.Error.{ok}
use bup.Vint.Pack.{int, bytes, pack, unpack}
use bup.Vint.Pack.Unpack
use bup.Vint.Pack.Unpack.{
  Item, vuint, vint, bvec, AreEncodable, pack_lem, unpack-all_bytes, all_bytes-some, item_bytes,
}
use bup.Xstat.{nsecs_to_timespec, timespec_to_nsecs, floor_div, floor_mod, billion}
use bup.Xstat.Times.{timespec_to_nsecs-nsecs_to_timespec}
use bup.Metadata.{
  Metadata, tag_path, tag_common_v3, tag_symlink_target, tag_hardlink_target, given, is_zero,
  is_negative, size_or_minus_one, encode_given_common, encode_common, encode_common_of, some_bytes,
  encode_path_of,
}
use bup.Metadata.Fields.{
  next_int, next_bytes, next_time, next_size, assign_common, common_format, load_common, load_path,
  is_size, size_of_target, load_symlink_target, load_hardlink_target, load_content,
}
use bup.Metadata.Records.{load_one, load_one_lem}

-- The attributes that every stat has.
pub record Common : Type 0 where
  pub mode : ℤ
  pub uid : ℤ
  pub gid : ℤ
  pub user : List ℕ
  pub group : List ℕ
  pub rdev : ℤ
  pub atime : ℤ
  pub mtime : ℤ
  pub ctime : ℤ

abbrev pub with_common : Common → Metadata → Metadata
with_common c m = record m {
  mode = some c.mode;
  uid = some c.uid;
  gid = some c.gid;
  user = some c.user;
  group = some c.group;
  rdev = some c.rdev;
  atime = some c.atime;
  mtime = some c.mtime;
  ctime = some c.ctime;
}

abbrev pub common_items : Common → Option ℤ → List Item
common_items c size =
    vint c.mode
    ∷ vint c.uid
    ∷ bvec c.user
    ∷ vint c.gid
    ∷ bvec c.group
    ∷ vint c.rdev
    ∷ vint (floor_div c.atime billion)
    ∷ vuint (floor_mod c.atime billion)
    ∷ vint (floor_div c.mtime billion)
    ∷ vuint (floor_mod c.mtime billion)
    ∷ vint (floor_div c.ctime billion)
    ∷ vuint (floor_mod c.ctime billion)
    ∷ vint (size_or_minus_one size)
    ∷ []

pub load_packed :
    (tag : ℕ) (i : Item) (is : List Item) (m : Metadata)
    → load_one tag (some (Unpack.all_bytes (i ∷ is))) m
      ≡ load_content tag (Unpack.all_bytes (i ∷ is)) m
load_packed tag i is m = filled (Unpack.all_bytes (i ∷ is)) (all_bytes-some i is)
  where
    filled :
        (content : List ℕ)
        → 0 < length content
        → load_one tag (some content) m ≡ load_content tag content m
    filled [] h = absurd (omega arith)
    filled (c ∷ content) h = load_one_lem tag c content m

-- A size is none or no negative number.
abbrev pub IsSize : Option ℤ → Type 0
IsSize none = Unit
IsSize (some size) = is_negative size ≡ false

unfoldable pub common_content : Common → Option ℤ → Option (List ℕ)
common_content c size = some (Unpack.all_bytes (common_items c size))

pub encode_common_lem :
    (c : Common) (m : Metadata)
    → is_zero c.mode ≡ false
    → AreEncodable (common_items c m.size)
    → encode_common (with_common c m) ≡ ok (common_content c m.size)
unfolding encode_common encode_common_of encode_given_common given some_bytes common_content
    nsecs_to_timespec
encode_common_lem c m h e =
    let packed : pack (ascii "vvsvsvvVvVvVv") (Unpack.values (common_items c m.size))
        ≡ ok (Unpack.all_bytes (common_items c m.size)) =
      pack_lem (common_items c m.size) e in
    rw (h, packed)

time_lem : (ns : ℤ) → timespec_to_nsecs (floor_div ns billion, pos (floor_mod ns billion)) ≡ ns
unfolding nsecs_to_timespec
time_lem ns = (timespec_to_nsecs-nsecs_to_timespec ns).0

next_size_lem :
    (size : Option ℤ) → IsSize size → next_size 3 none (int (size_or_minus_one size) ∷ []) ≡ ok size
unfolding next_size next_int size_or_minus_one is_negative
next_size_lem none h = refl
next_size_lem (some size) h = rw h

pub load_common_lem :
    (c : Common) (m : Metadata) (size : Option ℤ)
    → IsSize size
    → load_one tag_common_v3 (common_content c size) (record m { size = none })
      ≡ ok (with_common c (record m { size = size }))
unfolding common_content load_content load_common common_format assign_common next_int next_bytes
    next_time
load_common_lem c m size h =
    let unpacked : unpack (ascii "vvsvsvvVvVvVv") (Unpack.all_bytes (common_items c size))
        ≡ ok (Unpack.values (common_items c size)) =
      unpack-all_bytes (common_items c size) in
    rw (
      load_packed tag_common_v3 (vint c.mode) (drop 1 (common_items c size))
          (record m { size = none }),
      unpacked,
      time_lem c.atime,
      time_lem c.mtime,
      time_lem c.ctime,
      next_size_lem size h,
    )

abbrev pub IsPath : Option (List ℕ) → Type 0
IsPath none = Unit
IsPath (some path) = (0 < length path) × (length path < 2 ^ 56)

unfoldable pub path_content : Option (List ℕ) → Option (List ℕ)
path_content none = none
path_content (some path) = some (Unpack.all_bytes (bvec path ∷ []))

pub encode_path_of_lem :
    (path : Option (List ℕ)) → IsPath path → encode_path_of path ≡ ok (path_content path)
unfolding encode_path_of some_bytes path_content
encode_path_of_lem none h = refl
encode_path_of_lem (some path) (h, k) =
    let filled : length path == 0 ≡ false = ground arith in
    let packed : pack (ascii "s") (bytes path ∷ []) ≡ ok (Unpack.all_bytes (bvec path ∷ [])) =
      pack_lem (bvec path ∷ []) ((k, tt), omega arith) in
    rw (filled, packed)

pub load_path_lem :
    (path : Option (List ℕ)) (m : Metadata)
    → load_one tag_path (path_content path) (record m { path = none })
      ≡ ok (record m { path = path })
unfolding path_content load_content load_path next_bytes load_one
load_path_lem none m = refl
load_path_lem (some path) m =
    let unpacked : unpack (ascii "s") (Unpack.all_bytes (bvec path ∷ [])) ≡ ok (bytes path ∷ []) =
      unpack-all_bytes (bvec path ∷ []) in
    rw (load_packed tag_path (bvec path) [] (record m { path = none }), unpacked)

-- The size of a link is the length of its target.
abbrev pub IsSymlink : Option ℤ → Option (List ℕ) → Type 0
IsSymlink size none = Unit
IsSymlink size (some target) = (0 < length target) × (size ≡ some (pos (length target)))

pub load_symlink_lem :
    (target : Option (List ℕ)) (size : Option ℤ) (m : Metadata)
    → IsSymlink size target
    → load_one tag_symlink_target target (record m { symlink_target = none; size = size })
      ≡ ok (record m { symlink_target = target; size = size })
unfolding load_content load_symlink_target size_of_target is_size load_one
load_symlink_lem none size m h = refl
load_symlink_lem (some []) size m (h, k) = absurd (omega arith)
load_symlink_lem (some (c ∷ target)) size m (h, k) = rw (k, ==_refl (length (c ∷ target)))

abbrev pub IsHardlink : Option (List ℕ) → Type 0
IsHardlink none = Unit
IsHardlink (some target) = 0 < length target

pub load_hardlink_lem :
    (target : Option (List ℕ)) (m : Metadata)
    → IsHardlink target
    → load_one tag_hardlink_target target (record m { hardlink_target = none })
      ≡ ok (record m { hardlink_target = target })
unfolding load_content load_hardlink_target load_one
load_hardlink_lem none m h = refl
load_hardlink_lem (some []) m h = absurd (omega arith)
load_hardlink_lem (some (c ∷ target)) m h = refl
