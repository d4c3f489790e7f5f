-- ===== src/Metadata/RoundTrip.antt =====
-- `Metadata.read` after `Metadata.encode` of lib/bup/metadata.py.
use bup.Base.{
  ℕ, ◌≡◌, refl, arith, Bool, true, false, Option, none, some, List, [], ◌∷◌, ◌++◌, if◌then◌else◌,
  All,
}
use mathlib.Core.Path.{subst}
use bup.Base.Error.{Result, ok, ◌>>=◌}
use bup.Vint.Pack.Unpack.{AreEncodable}
use bup.Metadata.{
  Metadata, empty_metadata, tag_path, tag_common_v3, tag_symlink_target, tag_hardlink_target,
  tag_posix1e_acl_v2, tag_linux_attr, tag_linux_xattr, is_zero, path_record, encode_path, records,
  encode,
}
use bup.Metadata.Fields.{is_known}
use bup.Metadata.Records.{
  all_bytes, IsSmall, IsRecord, load_all, read, encode_records_lem, read-all_bytes,
}
use bup.Metadata.Stored.{
  Common, with_common, common_items, IsSize, common_content, encode_common_lem, load_common_lem,
  IsPath, path_content, encode_path_of_lem, load_path_lem, IsSymlink, load_symlink_lem, IsHardlink,
  load_hardlink_lem,
}
use bup.Metadata.Extended.{
  IsAcl, acl_content, encode_posix1e_acl_lem, load_posix1e_acl_lem, IsAttr, attr_content,
  encode_linux_attr_lem, load_linux_attr_lem, IsXattr, xattr_content, encode_linux_xattr_lem,
  load_linux_xattr_lem,
}

-- What `encode` does not change: a mode that is not 0, integers that vint encodes, a path, a link's
-- target and attributes that are not empty, and the length of its target as the size of a link.
abbrev pub IsStorable : Common → Metadata → Type 0
IsStorable c m =
    (is_zero c.mode ≡ false)
    × AreEncodable (common_items c m.size)
    × IsSize m.size
    × IsPath m.path
    × IsSymlink m.size m.symlink_target
    × IsHardlink m.hardlink_target
    × IsAcl m.posix1e_acl
    × IsAttr m.linux_attr
    × IsXattr m.linux_xattr

-- The path that is stored.
abbrev pub stored_path : Bool → Option (List ℕ) → Option (List ℕ)
stored_path include_path path = if include_path then path else none

unfoldable pub contents : Bool → Common → Metadata → List (ℕ × Option (List ℕ))
contents include_path c m =
    (tag_path, path_content (stored_path include_path m.path))
    ∷ (tag_common_v3, common_content c m.size)
    ∷ (tag_symlink_target, m.symlink_target)
    ∷ (tag_hardlink_target, m.hardlink_target)
    ∷ (tag_posix1e_acl_v2, acl_content m.posix1e_acl)
    ∷ (tag_linux_attr, attr_content m.linux_attr)
    ∷ (tag_linux_xattr, xattr_content m.linux_xattr)
    ∷ []

path_record_lem :
    (include_path : Bool) (m : Metadata)
    → IsPath m.path
    → path_record include_path m ≡ ok (path_content (stored_path include_path m.path))
unfolding path_record encode_path path_content
path_record_lem true m h = encode_path_of_lem m.path h
path_record_lem false m h = refl

pub records_lem :
    (include_path : Bool) (c : Common) (m : Metadata)
    → IsStorable c m
    → records include_path (with_common c m) ≡ ok (contents include_path c m)
unfolding records contents
records_lem include_path c m (mode, items, size, path, link, hard, acl, attr, xattr) = rw (
  path_record_lem include_path (with_common c m) path,
  encode_common_lem c m mode items,
  encode_posix1e_acl_lem m.posix1e_acl acl,
  encode_linux_attr_lem m.linux_attr attr,
  encode_linux_xattr_lem m.linux_xattr xattr,
)

load_all_lem :
    (include_path : Bool) (c : Common) (m : Metadata)
    → IsStorable c m
    → load_all (contents include_path c m) empty_metadata
      ≡ ok (with_common c (record m { path = stored_path include_path m.path }))
unfolding load_all contents
load_all_lem include_path c m (mode, items, size, path, link, hard, acl, attr, xattr) =
    let m1 = record empty_metadata { path = stored_path include_path m.path } in
    let m2 = with_common c (record m1 { size = m.size }) in
    let m3 = record m2 { symlink_target = m.symlink_target } in
    let m4 = record m3 { hardlink_target = m.hardlink_target } in
    let m5 = record m4 { posix1e_acl = m.posix1e_acl } in
    let m6 = record m5 { linux_attr = m.linux_attr } in
    rw (
      load_path_lem (stored_path include_path m.path) empty_metadata,
      load_common_lem c m1 m.size size,
      load_symlink_lem m.symlink_target m.size m2 link,
      load_hardlink_lem m.hardlink_target m3 hard,
      load_posix1e_acl_lem m.posix1e_acl m4 acl,
      load_linux_attr_lem m.linux_attr m5 attr,
      load_linux_xattr_lem m.linux_xattr m6,
    )

-- Whether every record fits a byte vector.
abbrev pub HasSmallRecords : Result (List (ℕ × Option (List ℕ))) → Type 0
HasSmallRecords (ok recs) = All (λ (r : ℕ × Option (List ℕ)). IsSmall r.1) recs
HasSmallRecords _ = Unit

contents-IsRecord :
    (include_path : Bool) (c : Common) (m : Metadata)
    → HasSmallRecords (ok (contents include_path c m))
    → All IsRecord (contents include_path c m)
unfolding contents is_known
contents-IsRecord include_path c m (s1, (s2, (s3, (s4, (s5, (s6, (s7, s8))))))) = (
  (refl, omega arith, omega arith, s1),
  (
    (refl, omega arith, omega arith, s2),
    (
      (refl, omega arith, omega arith, s3),
      (
        (refl, omega arith, omega arith, s4),
        (
          (refl, omega arith, omega arith, s5),
          ((refl, omega arith, omega arith, s6), ((refl, omega arith, omega arith, s7), tt)),
        ),
      ),
    ),
  ),
)

-- The encoded metadata, whatever follows it.
pub encode_lem :
    (include_path : Bool) (c : Common) (m : Metadata)
    → IsStorable c m
    → HasSmallRecords (records include_path (with_common c m))
    → (packed : List ℕ) × (encode include_path (with_common c m) ≡ ok packed)
      × ((rest : List ℕ)
          → read (packed ++ rest)
            ≡ ok (some (with_common c (record m { path = stored_path include_path m.path })), rest))
unfolding encode
encode_lem include_path c m h small =
    let recs = contents include_path c m in
    let known : All IsRecord recs =
      contents-IsRecord include_path c m
        (subst HasSmallRecords (records_lem include_path c m h) small) in
    (
      all_bytes recs,
      rw (records_lem include_path c m h) (encode_records_lem recs known),
      λ rest. rw (read-all_bytes recs rest known, load_all_lem include_path c m h),
    )

-- What encode writes, read gives back with the bytes that follow it: metadata whose common
-- attributes are given, with a mode other than 0, integers that vint encodes, a path, targets,
-- access lists and attributes that are not empty, no negative size, the length of its target as the
-- size of a symbolic link, and no record of 2^56 bytes. The path comes back if it was to be stored.
pub read-encode :
    (include_path : Bool) (c : Common) (m : Metadata) (rest : List ℕ)
    → IsStorable c m
    → HasSmallRecords (records include_path (with_common c m))
    → (do packed ← encode include_path (with_common c m); read (packed ++ rest))
      ≡ ok (some (with_common c (record m { path = stored_path include_path m.path })), rest)
read-encode include_path c m rest h small =
    let (packed, e, back) = encode_lem include_path c m h small in rw e (back rest)
