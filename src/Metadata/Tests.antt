-- ===== src/Metadata/Tests.antt =====
-- A file with a path, an access list, Linux attributes and an extended attribute, and the theorem
-- on it.
use mathlib.Core.Path.{subst}
use bup.Base.{refl, sym, arith, inl, true, false, none, some, [], ◌∷◌, ◌++◌, ◌≡◌, ◌↔◌}
use bup.Base.Int.{pos}
use bup.Base.Bytes.{ascii}
use bup.Base.Error.{ok, err, type_error, ◌>>=◌}
use bup.Vint.Unsigned.{vuint_bytes}
use bup.Vint.Signed.{vint_bytes}
use bup.Vint.Bvec.{bvec_bytes}
use bup.Vint.Pack.{unpack}
use bup.Vint.Pack.Unpack.{AreEncodable, item_bytes, bvec, unpack-all_bytes}
use bup.Vint.Pack.Unpack
use bup.Xstat.{floor_div, floor_mod}
use bup.Metadata.{
  is_zero, is_negative, size_or_minus_one, Metadata, empty_metadata, encode, records,
}
use bup.Metadata.Records.{read}
use bup.Metadata.Same.{metadata_eq, same_file, same_common, hash_key, metadata_eq_iff}
use bup.Metadata.Fields.{load_posix1e_acl, next_bytes, has_byte, correct_v1_delimiters, tuple_of}
use bup.Metadata.Stored.{Common, with_common, common_content, path_content}
use bup.Metadata.Extended.{acl_content, acl_items, attr_content, xattr_content, xattr_items}
use bup.Metadata.RoundTrip.{IsStorable, HasSmallRecords, contents, records_lem, read-encode}

abbrev file : Metadata
file = record empty_metadata {
  path = some (ascii "a");
  size = some (pos 5);
  linux_attr = some (pos 524288);
  linux_xattr = some ((ascii "user.k", ascii "v") ∷ []);
  posix1e_acl = some (ascii "u::rw-" ∷ ascii "u::6" ∷ []);
}

abbrev common : Common
common = record {
  mode = pos 33188;
  uid = pos 1000;
  gid = pos 100;
  user = ascii "me";
  group = ascii "users";
  rdev = pos 0;
  atime = pos 1000000000;
  mtime = pos 1500000000;
  ctime = pos 2000000007;
}

file-IsStorable : IsStorable common file
unfolding is_zero is_negative size_or_minus_one floor_div floor_mod
file-IsStorable = (
  refl,
  (
    (
      inl (omega arith),
      (
        inl (omega arith),
        (
          omega arith,
          (
            inl (omega arith),
            (
              omega arith,
              (
                inl (omega arith),
                (
                  inl (omega arith),
                  (
                    inl (omega arith),
                    (
                      inl (omega arith),
                      (
                        inl (omega arith),
                        (inl (omega arith), (inl (omega arith), (inl (omega arith), tt))),
                      ),
                    ),
                  ),
                ),
              ),
            ),
          ),
        ),
      ),
    ),
    omega arith,
  ),
  refl,
  (omega arith, omega arith),
  tt,
  tt,
  (omega arith, omega arith),
  (omega arith, inl (omega arith)),
  (omega arith, omega arith, ((omega arith, omega arith), tt)),
)

small : HasSmallRecords (records true (with_common common file))
unfolding contents path_content common_content acl_content acl_items attr_content xattr_content
    xattr_items Unpack.all_bytes item_bytes vuint_bytes vint_bytes bvec_bytes is_negative
    size_or_minus_one floor_div floor_mod
small =
    subst HasSmallRecords (sym (records_lem true common file file-IsStorable))
      (omega arith, (omega arith, (tt, (tt, (omega arith, (omega arith, (omega arith, tt)))))))

read-encode_example :
    (do packed ← encode true (with_common common file); read (packed ++ (1 ∷ [])))
    ≡ ok (some (with_common common file), 1 ∷ [])
read-encode_example = read-encode true common file (1 ∷ []) file-IsStorable small

abbrev without_xattr : Metadata
without_xattr = record file { linux_xattr = none }

metadata_eq_iff_example :
    (metadata_eq file without_xattr ≡ true) ↔ (hash_key file ≡ hash_key without_xattr)
metadata_eq_iff_example = metadata_eq_iff file without_xattr

-- __eq__ does not see the extended attributes, while same_file does.
eq_without_xattr : (metadata_eq file without_xattr ≡ true) × (same_file file without_xattr ≡ false)
unfolding metadata_eq same_file same_common
eq_without_xattr = (refl, refl)

-- An access list of version 1 with a comma stops the read.
comma :
    load_posix1e_acl 1
      (Unpack.all_bytes (bvec (ascii "a,b") ∷ bvec [] ∷ bvec [] ∷ bvec [] ∷ []))
      empty_metadata
    ≡ err type_error
unfolding load_posix1e_acl next_bytes has_byte correct_v1_delimiters tuple_of
comma =
    let items = bvec (ascii "a,b") ∷ bvec [] ∷ bvec [] ∷ bvec [] ∷ [] in
    let unpacked : unpack (ascii "ssss") (Unpack.all_bytes items) ≡ ok (Unpack.values items) =
      unpack-all_bytes items in
    rw unpacked refl
