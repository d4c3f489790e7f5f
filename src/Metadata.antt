-- ===== src/Metadata.antt =====
-- The stored form of the `Metadata` of lib/bup/metadata.py: tagged records over lib/bup/vint.py. An
-- attribute that may be None is an Option; `_frozen`, which only guards tests, is left out.
pub mod Fields
pub mod Records
pub mod Stored
pub mod Extended
pub mod RoundTrip
pub mod Equality
pub mod Same
mod Tests
use bup.Base.{
  ℕ, zero, suc, ◌+◌, Bool, true, false, ◌||◌, ◌&&◌, not, Option, none, some, List, [], ◌∷◌, ◌++◌,
  ltb, ◌==◌, if◌then◌else◌, length, bytes_eq,
}
use bup.Base.Int.{ℤ, pos, negsuc}
use bup.Base.Bytes.{ascii}
use bup.Base.Dict.{Key}
use bup.Base.Error.{
  Result, ok, err, assertion_error, eof_error, type_error, exception, index_error, ◌>>=◌,
}
use bup.Vint.{encode_vuint, read_vuint}
use bup.Vint.Bvec.{encode_bvec, read_bvec, skip_bvec}
use bup.Vint.Pack.{Value, int, bytes, pack, unpack}
use bup.Xstat.{timespec_to_nsecs, nsecs_to_timespec}

pub record Metadata : Type 0 where
  pub mode : Option ℤ
  pub uid : Option ℤ
  pub gid : Option ℤ
  pub user : Option (List ℕ)
  pub group : Option (List ℕ)
  pub rdev : Option ℤ
  pub atime : Option ℤ
  pub mtime : Option ℤ
  pub ctime : Option ℤ
  pub path : Option (List ℕ)
  pub size : Option ℤ
  pub symlink_target : Option (List ℕ)
  pub hardlink_target : Option (List ℕ)
  pub linux_attr : Option ℤ
  pub linux_xattr : Option (List (Key × Key))
  pub posix1e_acl : Option (List (List ℕ))

abbrev pub empty_metadata : Metadata
empty_metadata = record {
  mode = none;
  uid = none;
  gid = none;
  user = none;
  group = none;
  rdev = none;
  atime = none;
  mtime = none;
  ctime = none;
  path = none;
  size = none;
  symlink_target = none;
  hardlink_target = none;
  linux_attr = none;
  linux_xattr = none;
  posix1e_acl = none;
}

abbrev pub tag_end : ℕ
tag_end = 0

abbrev pub tag_path : ℕ
tag_path = 1

abbrev pub tag_common_v1 : ℕ
tag_common_v1 = 2

abbrev pub tag_symlink_target : ℕ
tag_symlink_target = 3

abbrev pub tag_posix1e_acl_v1 : ℕ
tag_posix1e_acl_v1 = 4

abbrev pub tag_linux_attr : ℕ
tag_linux_attr = 6

abbrev pub tag_linux_xattr : ℕ
tag_linux_xattr = 7

abbrev pub tag_hardlink_target : ℕ
tag_hardlink_target = 8

abbrev pub tag_common_v2 : ℕ
tag_common_v2 = 9

abbrev pub tag_common_v3 : ℕ
tag_common_v3 = 10

abbrev pub tag_posix1e_acl_v2 : ℕ
tag_posix1e_acl_v2 = 11

-- None is no integer and no bytes for vint.pack.
pub given : {A : Type 0} → Option A → Result A
given none = err type_error
given (some a) = ok a

unfoldable pub is_zero : ℤ → Bool
is_zero (pos n) = n == 0
is_zero (negsuc n) = false

unfoldable pub is_negative : ℤ → Bool
is_negative (pos n) = false
is_negative (negsuc n) = true

unfoldable pub size_or_minus_one : Option ℤ → ℤ
size_or_minus_one none = negsuc 0
size_or_minus_one (some size) = size

pub encode_given_common : ℤ → Metadata → Result (List ℕ)
encode_given_common mode m = do
  uid ← given m.uid
  user ← given m.user
  gid ← given m.gid
  group ← given m.group
  rdev ← given m.rdev
  atime ← given m.atime
  mtime ← given m.mtime
  ctime ← given m.ctime
  let (atime_s, atime_ns) = nsecs_to_timespec atime
  let (mtime_s, mtime_ns) = nsecs_to_timespec mtime
  let (ctime_s, ctime_ns) = nsecs_to_timespec ctime
  pack (ascii "vvsvsvvVvVvVv") (
      int mode
      ∷ int uid
      ∷ bytes user
      ∷ int gid
      ∷ bytes group
      ∷ int rdev
      ∷ int atime_s
      ∷ int atime_ns
      ∷ int mtime_s
      ∷ int mtime_ns
      ∷ int ctime_s
      ∷ int ctime_ns
      ∷ int (size_or_minus_one m.size)
      ∷ [])

pub some_bytes : Result (List ℕ) → Result (Option (List ℕ))
some_bytes packed = do b ← packed; ok (some b)

pub encode_common_of : Option ℤ → Metadata → Result (Option (List ℕ))
encode_common_of none m = ok none
encode_common_of (some mode) m =
    if is_zero mode then ok none else some_bytes (encode_given_common mode m)

pub encode_common : Metadata → Result (Option (List ℕ))
encode_common m = encode_common_of m.mode m

pub encode_path_of : Option (List ℕ) → Result (Option (List ℕ))
encode_path_of none = ok none
encode_path_of (some path) =
    if length path == 0 then ok none else some_bytes (pack (ascii "s") (bytes path ∷ []))

pub encode_path : Metadata → Result (Option (List ℕ))
encode_path m = encode_path_of m.path

-- Of more than four entries the first four are kept.
pub encode_acls : List (List ℕ) → Result (Option (List ℕ))
encode_acls [] = ok none
encode_acls (txt ∷ num ∷ []) =
    some_bytes (pack (ascii "ssss") (bytes txt ∷ bytes num ∷ bytes [] ∷ bytes [] ∷ []))
encode_acls (txt ∷ num ∷ txt_default ∷ num_default ∷ further) =
    some_bytes
      (pack (ascii "ssss") (bytes txt ∷ bytes num ∷ bytes txt_default ∷ bytes num_default ∷ []))
encode_acls (txt ∷ []) = err index_error
encode_acls (txt ∷ num ∷ txt_default ∷ []) = err index_error

pub encode_posix1e_acl : Option (List (List ℕ)) → Result (Option (List ℕ))
encode_posix1e_acl none = ok none
encode_posix1e_acl (some acls) = encode_acls acls

pub encode_linux_attr : Option ℤ → Result (Option (List ℕ))
encode_linux_attr none = ok none
encode_linux_attr (some attr) =
    if is_zero attr then ok none else some_bytes (pack (ascii "V") (int attr ∷ []))

pub encode_xattrs : List (Key × Key) → Result (List ℕ)
encode_xattrs [] = ok []
encode_xattrs ((name, value) ∷ xattrs) = do
  packed ← pack (ascii "ss") (bytes name ∷ bytes value ∷ [])
  rest ← encode_xattrs xattrs
  ok (packed ++ rest)

pub encode_linux_xattr : Option (List (Key × Key)) → Result (Option (List ℕ))
encode_linux_xattr none = ok none
encode_linux_xattr (some xattrs) = if length xattrs == 0 then ok none else do
  n ← pack (ascii "V") (int (pos (length xattrs)) ∷ [])
  rest ← encode_xattrs xattrs
  ok (some (n ++ rest))

-- One round of the loop of `encode`: nothing for None and b''.
pub encode_record : ℕ → Option (List ℕ) → Result (List ℕ)
encode_record tag none = ok []
encode_record tag (some content) =
    if length content == 0
    then ok []
    else do t ← encode_vuint (pos tag); d ← encode_bvec content; ok (t ++ d)

pub path_record : Bool → Metadata → Result (Option (List ℕ))
path_record include_path m = if include_path then encode_path m else ok none

pub records : Bool → Metadata → Result (List (ℕ × Option (List ℕ)))
records include_path m = do
  path ← path_record include_path m
  common ← encode_common m
  acl ← encode_posix1e_acl m.posix1e_acl
  attr ← encode_linux_attr m.linux_attr
  xattr ← encode_linux_xattr m.linux_xattr
  ok (
      (tag_path, path)
      ∷ (tag_common_v3, common)
      ∷ (tag_symlink_target, m.symlink_target)
      ∷ (tag_hardlink_target, m.hardlink_target)
      ∷ (tag_posix1e_acl_v2, acl)
      ∷ (tag_linux_attr, attr)
      ∷ (tag_linux_xattr, xattr)
      ∷ [])

pub encode_records : List (ℕ × Option (List ℕ)) → Result (List ℕ)
encode_records [] = encode_vuint (pos tag_end)
encode_records ((tag, content) ∷ recs) = do
  ret ← encode_record tag content
  rest ← encode_records recs
  ok (ret ++ rest)

pub encode : Bool → Metadata → Result (List ℕ)
encode include_path m = records include_path m >>= encode_records
