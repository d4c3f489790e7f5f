-- ===== src/Metadata/Fields.antt =====
-- What the `_load_*_rec` of lib/bup/metadata.py make of the content of a record.
use bup.Base.{
  ℕ, zero, suc, Bool, false, ◌||◌, not, Option, none, some, List, [], ◌∷◌, ◌==◌, if◌then◌else◌,
  length,
}
use bup.Base.Int.{ℤ, pos, negsuc}
use bup.Base.Bytes.{ascii}
use bup.Base.Dict.{Key}
use bup.Base.Error.{
  Result, ok, err, assertion_error, eof_error, type_error, value_error, exception, ◌>>=◌,
}
use bup.Vint.{read_vuint}
use bup.Vint.Bvec.{read_bvec}
use bup.Vint.Pack.{Value, int, bytes, unpack}
use bup.Xstat.{timespec_to_nsecs}
use bup.Metadata.{
  Metadata, is_negative, tag_path, tag_common_v1, tag_symlink_target, tag_posix1e_acl_v1,
  tag_linux_attr, tag_linux_xattr, tag_hardlink_target, tag_common_v2, tag_common_v3,
  tag_posix1e_acl_v2,
}

-- The next of the unpacked values, which are as many as the format has and of its types.
unfoldable pub next_int : List Value → Result (ℤ × List Value)
next_int (int x ∷ values) = ok (x, values)
next_int (bytes b ∷ values) = err type_error
next_int [] = err value_error

unfoldable pub next_bytes : List Value → Result (List ℕ × List Value)
next_bytes (bytes b ∷ values) = ok (b, values)
next_bytes (int x ∷ values) = err type_error
next_bytes [] = err value_error

unfoldable pub next_time : List Value → Result (ℤ × List Value)
next_time values = do
  (s, values') ← next_int values
  (ns, rest) ← next_int values'
  ok (timespec_to_nsecs (s, ns), rest)

-- A size that is negative leaves what was there.
unfoldable pub next_size : ℕ → Option ℤ → List Value → Result (Option ℤ)
next_size version old values =
    if not (version == 3)
    then ok old
    else do (size, rest) ← next_int values; ok (if is_negative size then old else some size)

unfoldable pub assign_common : ℕ → List Value → Metadata → Result Metadata
assign_common version values m = do
  (mode, l1) ← next_int values
  (uid, l2) ← next_int l1
  (user, l3) ← next_bytes l2
  (gid, l4) ← next_int l3
  (group, l5) ← next_bytes l4
  (rdev, l6) ← next_int l5
  (atime, l7) ← next_time l6
  (mtime, l8) ← next_time l7
  (ctime, l9) ← next_time l8
  size ← next_size version m.size l9
  ok (record m {
    mode = some mode;
    uid = some uid;
    user = some user;
    gid = some gid;
    group = some group;
    rdev = some rdev;
    atime = some atime;
    mtime = some mtime;
    ctime = some ctime;
    size = size;
  })

unfoldable pub common_format : ℕ → Result (List ℕ)
common_format version =
    if version == 3
    then ok (ascii "vvsvsvvVvVvVv")
    else if version == 2
    then ok (ascii "vvsvsvvVvVvV")
    else if version == 1
    then ok (ascii "VVsVsVvVvVvV")
    else err exception

unfoldable pub load_common : ℕ → List ℕ → Metadata → Result Metadata
load_common version content m = do
  unpack_fmt ← common_format version
  values ← unpack unpack_fmt content
  assign_common version values m

unfoldable pub load_path : List ℕ → Metadata → Result Metadata
load_path content m = do
  values ← unpack (ascii "s") content
  (path, rest) ← next_bytes values
  ok (record m { path = some path })

unfoldable pub is_size : ℕ → ℤ → Bool
is_size n (pos size) = size == n
is_size n (negsuc size) = false

unfoldable pub size_of_target : List ℕ → Option ℤ → Result ℤ
size_of_target target none = ok (pos (length target))
size_of_target target (some size) =
    if is_size (length target) size then ok size else err assertion_error

unfoldable pub load_symlink_target : List ℕ → Metadata → Result Metadata
load_symlink_target target m = do
  size ← size_of_target target m.size
  ok (record m { symlink_target = some target; size = some size })

unfoldable pub load_hardlink_target : List ℕ → Metadata → Result Metadata
load_hardlink_target target m = ok (record m { hardlink_target = some target })

unfoldable pub has_byte : ℕ → List ℕ → Bool
has_byte c [] = false
has_byte c (d ∷ bs) = d == c || has_byte c bs

unfoldable pub replace_byte : ℕ → ℕ → List ℕ → List ℕ
replace_byte c d [] = []
replace_byte c d (b ∷ bs) = (if b == c then d else b) ∷ replace_byte c d bs

unfoldable pub prepend : List ℕ → Option (List (List ℕ)) → Option (List (List ℕ))
prepend acl none = none
prepend acl (some acls) = some (acl ∷ acls)

-- none is for an unexpected comma
unfoldable pub correct_v1_delimiters : List (List ℕ) → Option (List (List ℕ))
correct_v1_delimiters [] = some []
correct_v1_delimiters (acl ∷ acls) =
    if has_byte b',' acl
    then none
    else prepend (replace_byte 10 b',' acl) (correct_v1_delimiters acls)

-- `tuple(acl_rep)`, which is a TypeError for None.
unfoldable pub tuple_of : Option (List (List ℕ)) → Result (List (List ℕ))
tuple_of none = err type_error
tuple_of (some acls) = ok acls

unfoldable pub load_posix1e_acl : ℕ → List ℕ → Metadata → Result Metadata
load_posix1e_acl version content m = do
  values ← unpack (ascii "ssss") content
  (txt, l1) ← next_bytes values
  (num, l2) ← next_bytes l1
  (txt_default, l3) ← next_bytes l2
  (num_default, l4) ← next_bytes l3
  let acl_rep =
      if length txt_default == 0 then txt ∷ num ∷ [] else txt ∷ num ∷ txt_default ∷ num_default ∷ []
  acls ← tuple_of (if version == 1 then correct_v1_delimiters acl_rep else some acl_rep)
  ok (record m { posix1e_acl = some acls })

unfoldable pub load_linux_attr : List ℕ → Metadata → Result Metadata
load_linux_attr content m = do
  values ← unpack (ascii "V") content
  (attr, rest) ← next_int values
  ok (record m { linux_attr = some attr })

unfoldable pub or_eof : {A : Type 0} → Option A → Result A
or_eof none = err eof_error
or_eof (some a) = ok a

unfoldable pub read_xattrs : ℕ → List ℕ → Result (List (Key × Key))
read_xattrs zero memfile = ok []
read_xattrs (suc xattr_n) memfile = do
  (found, memfile') ← read_bvec memfile
  key ← or_eof found
  (found', memfile'') ← read_bvec memfile'
  value ← or_eof found'
  result ← read_xattrs xattr_n memfile''
  ok ((key, value) ∷ result)

unfoldable pub load_linux_xattr : List ℕ → Metadata → Result Metadata
load_linux_xattr content m = do
  (found, memfile) ← read_vuint content
  xattr_n ← or_eof found
  xattrs ← read_xattrs xattr_n memfile
  ok (record m { linux_xattr = some xattrs })

-- The loader of a tag, for the tags that are known.
unfoldable pub is_known : ℕ → Bool
is_known tag =
    tag == tag_path
    || tag == tag_common_v3
    || tag == tag_common_v2
    || tag == tag_symlink_target
    || tag == tag_hardlink_target
    || tag == tag_posix1e_acl_v2
    || tag == tag_posix1e_acl_v1
    || tag == tag_linux_attr
    || tag == tag_linux_xattr
    || tag == tag_common_v1

unfoldable pub load_content : ℕ → List ℕ → Metadata → Result Metadata
load_content tag content m =
    if tag == tag_path
    then load_path content m
    else if tag == tag_common_v3
    then load_common 3 content m
    else if tag == tag_common_v2
    then load_common 2 content m
    else if tag == tag_symlink_target
    then load_symlink_target content m
    else if tag == tag_hardlink_target
    then load_hardlink_target content m
    else if tag == tag_posix1e_acl_v2
    then load_posix1e_acl 2 content m
    else if tag == tag_posix1e_acl_v1
    then load_posix1e_acl 1 content m
    else if tag == tag_linux_attr
    then load_linux_attr content m
    else if tag == tag_linux_xattr
    then load_linux_xattr content m
    else if tag == tag_common_v1
    then load_common 1 content m
    else ok m
