-- ===== src/Metadata/Extended.antt =====
-- The same for the access lists, the Linux attributes and the extended attributes.
use bup.Base.{
  ℕ, ◌^◌, ◌<◌, ◌≡◌, refl, arith, inl, false, Option, none, some, List, [], ◌∷◌, ◌++◌, ◌==◌, length,
  drop, append_assoc, append-nil, All,
}
use bup.Base.Int.{ℤ, pos, negsuc}
use bup.Base.Bytes.{ascii}
use bup.Base.Dict.{Key}
use bup.Base.Error.{ok}
use bup.Vint.{read_vuint}
use bup.Vint.Unsigned
use bup.Vint.Unsigned.{vuint_bytes, read_vuint-vuint_bytes}
use bup.Vint.Bvec.{bvec_bytes, read_bvec-bvec_bytes}
use bup.Vint.Pack.{int, bytes, pack, unpack}
use bup.Vint.Pack.Unpack
use bup.Vint.Pack.Unpack.{
  Item, vuint, vint, bvec, AreEncodable, pack_lem, unpack-all_bytes, all_bytes-some, item_bytes,
}
use bup.Metadata.{
  Metadata, tag_posix1e_acl_v2, tag_linux_attr, tag_linux_xattr, is_zero, some_bytes, encode_acls,
  encode_posix1e_acl, encode_linux_attr, encode_xattrs, encode_linux_xattr,
}
use bup.Metadata.Fields.{
  next_int, next_bytes, tuple_of, load_posix1e_acl, load_linux_attr, or_eof, read_xattrs,
  load_linux_xattr, load_content,
}
use bup.Metadata.Records.{load_one}
use bup.Metadata.Stored.{load_packed}

-- Two entries, or four of which the third is not empty.
abbrev pub IsAclList : List (List ℕ) → Type 0
IsAclList (txt ∷ num ∷ []) = (length txt < 2 ^ 56) × (length num < 2 ^ 56)
IsAclList (txt ∷ num ∷ txt_default ∷ num_default ∷ []) =
    (length txt < 2 ^ 56)
    × (length num < 2 ^ 56)
    × (0 < length txt_default)
    × (length txt_default < 2 ^ 56)
    × (length num_default < 2 ^ 56)
IsAclList _ = ⊥

abbrev pub IsAcl : Option (List (List ℕ)) → Type 0
IsAcl none = Unit
IsAcl (some acls) = IsAclList acls

unfoldable pub acl_items : List (List ℕ) → List Item
acl_items (txt ∷ num ∷ []) = bvec txt ∷ bvec num ∷ bvec [] ∷ bvec [] ∷ []
acl_items (txt ∷ num ∷ txt_default ∷ num_default ∷ []) =
    bvec txt ∷ bvec num ∷ bvec txt_default ∷ bvec num_default ∷ []
acl_items _ = []

unfoldable pub acl_content : Option (List (List ℕ)) → Option (List ℕ)
acl_content none = none
acl_content (some acls) = some (Unpack.all_bytes (acl_items acls))

four : (a b c d : List ℕ) → List Item
four a b c d = bvec a ∷ bvec b ∷ bvec c ∷ bvec d ∷ []

pack_quad :
    (a b c d : List ℕ)
    → length a < 2 ^ 56
    → length b < 2 ^ 56
    → length c < 2 ^ 56
    → length d < 2 ^ 56
    → pack (ascii "ssss") (bytes a ∷ bytes b ∷ bytes c ∷ bytes d ∷ [])
      ≡ ok (Unpack.all_bytes (four a b c d))
unfolding four
pack_quad a b c d h i j k = pack_lem (four a b c d) ((h, (i, (j, (k, tt)))), omega arith)

unpack_quad :
    (a b c d : List ℕ)
    → unpack (ascii "ssss") (Unpack.all_bytes (four a b c d))
      ≡ ok (bytes a ∷ bytes b ∷ bytes c ∷ bytes d ∷ [])
unfolding four
unpack_quad a b c d = unpack-all_bytes (four a b c d)

pub encode_posix1e_acl_lem :
    (acl : Option (List (List ℕ))) → IsAcl acl → encode_posix1e_acl acl ≡ ok (acl_content acl)
unfolding encode_posix1e_acl encode_acls some_bytes acl_content acl_items four
encode_posix1e_acl_lem none h = refl
encode_posix1e_acl_lem (some (a ∷ b ∷ [])) (h, i) =
    rw (pack_quad a b [] [] h i (omega arith) (omega arith)) refl
encode_posix1e_acl_lem (some (a ∷ b ∷ c ∷ d ∷ [])) (h, i, filled, j, k) =
    rw (pack_quad a b c d h i j k) refl
encode_posix1e_acl_lem (some []) h = elim h [ ]
encode_posix1e_acl_lem (some (a ∷ [])) h = elim h [ ]
encode_posix1e_acl_lem (some (a ∷ b ∷ c ∷ [])) h = elim h [ ]
encode_posix1e_acl_lem (some (a ∷ b ∷ c ∷ d ∷ e ∷ further)) h = elim h [ ]

pub load_posix1e_acl_lem :
    (acl : Option (List (List ℕ))) (m : Metadata)
    → IsAcl acl
    → load_one tag_posix1e_acl_v2 (acl_content acl) (record m { posix1e_acl = none })
      ≡ ok (record m { posix1e_acl = acl })
unfolding acl_content acl_items four load_content load_posix1e_acl tuple_of next_bytes load_one
load_posix1e_acl_lem none m h = refl
load_posix1e_acl_lem (some (a ∷ b ∷ [])) m h = rw (
  load_packed tag_posix1e_acl_v2 (bvec a) (drop 1 (four a b [] []))
      (record m { posix1e_acl = none }),
  unpack_quad a b [] [],
)
load_posix1e_acl_lem (some (a ∷ b ∷ c ∷ d ∷ [])) m (h, i, filled, j, k) =
    let default : length c == 0 ≡ false = ground arith in
    rw (
      load_packed tag_posix1e_acl_v2 (bvec a) (drop 1 (four a b c d))
          (record m { posix1e_acl = none }),
      unpack_quad a b c d,
      default,
    )
load_posix1e_acl_lem (some []) m h = elim h [ ]
load_posix1e_acl_lem (some (a ∷ [])) m h = elim h [ ]
load_posix1e_acl_lem (some (a ∷ b ∷ c ∷ [])) m h = elim h [ ]
load_posix1e_acl_lem (some (a ∷ b ∷ c ∷ d ∷ e ∷ further)) m h = elim h [ ]

abbrev pub IsAttr : Option ℤ → Type 0
IsAttr none = Unit
IsAttr (some (pos n)) = (0 < n) × Unsigned.IsEncodable n
IsAttr (some (negsuc n)) = ⊥

unfoldable pub attr_content : Option ℤ → Option (List ℕ)
attr_content none = none
attr_content (some (pos n)) = some (Unpack.all_bytes (vuint n ∷ []))
attr_content (some (negsuc n)) = none

pub encode_linux_attr_lem :
    (attr : Option ℤ) → IsAttr attr → encode_linux_attr attr ≡ ok (attr_content attr)
unfolding encode_linux_attr some_bytes attr_content is_zero
encode_linux_attr_lem none h = refl
encode_linux_attr_lem (some (pos n)) (filled, h) =
    let other : n == 0 ≡ false = ground arith in
    let packed : pack (ascii "V") (int (pos n) ∷ []) ≡ ok (Unpack.all_bytes (vuint n ∷ [])) =
      pack_lem (vuint n ∷ []) ((h, tt), omega arith) in
    rw (other, packed)
encode_linux_attr_lem (some (negsuc n)) h = elim h [ ]

pub load_linux_attr_lem :
    (attr : Option ℤ) (m : Metadata)
    → IsAttr attr
    → load_one tag_linux_attr (attr_content attr) (record m { linux_attr = none })
      ≡ ok (record m { linux_attr = attr })
unfolding attr_content load_content load_linux_attr next_int load_one
load_linux_attr_lem none m h = refl
load_linux_attr_lem (some (pos n)) m h =
    let unpacked : unpack (ascii "V") (Unpack.all_bytes (vuint n ∷ [])) ≡ ok (int (pos n) ∷ []) =
      unpack-all_bytes (vuint n ∷ []) in
    rw (load_packed tag_linux_attr (vuint n) [] (record m { linux_attr = none }), unpacked)
load_linux_attr_lem (some (negsuc n)) m h = elim h [ ]

abbrev pub IsPair : Key × Key → Type 0
IsPair (name, value) = (length name < 2 ^ 56) × (length value < 2 ^ 56)

abbrev pub IsXattr : Option (List (Key × Key)) → Type 0
IsXattr none = Unit
IsXattr (some xattrs) = (0 < length xattrs) × (length xattrs < 2 ^ 56) × All IsPair xattrs

unfoldable pub xattr_items : List (Key × Key) → List Item
xattr_items [] = []
xattr_items ((name, value) ∷ xattrs) = bvec name ∷ bvec value ∷ xattr_items xattrs

unfoldable pub xattr_content : Option (List (Key × Key)) → Option (List ℕ)
xattr_content none = none
xattr_content (some xattrs) = some (Unpack.all_bytes (vuint (length xattrs) ∷ xattr_items xattrs))

encode_xattrs_lem :
    (xattrs : List (Key × Key))
    → All IsPair xattrs
    → encode_xattrs xattrs ≡ ok (Unpack.all_bytes (xattr_items xattrs))
unfolding encode_xattrs xattr_items Unpack.all_bytes
encode_xattrs_lem [] h = refl
encode_xattrs_lem ((name, value) ∷ xattrs) ((h, i), hs) =
    let packed : pack (ascii "ss") (bytes name ∷ bytes value ∷ [])
        ≡ ok (Unpack.all_bytes (bvec name ∷ bvec value ∷ [])) =
      pack_lem (bvec name ∷ bvec value ∷ []) ((h, (i, tt)), omega arith) in
    rw (
      packed,
      encode_xattrs_lem xattrs hs,
      append-nil,
      append_assoc (item_bytes (bvec name)) (item_bytes (bvec value))
          (Unpack.all_bytes (xattr_items xattrs)),
    )

pub encode_linux_xattr_lem :
    (xattr : Option (List (Key × Key)))
    → IsXattr xattr
    → encode_linux_xattr xattr ≡ ok (xattr_content xattr)
unfolding encode_linux_xattr xattr_content Unpack.all_bytes
encode_linux_xattr_lem none h = refl
encode_linux_xattr_lem (some xattrs) (filled, h, hs) =
    let other : length xattrs == 0 ≡ false = ground arith in
    let packed : pack (ascii "V") (int (pos (length xattrs)) ∷ [])
        ≡ ok (Unpack.all_bytes (vuint (length xattrs) ∷ [])) =
      pack_lem (vuint (length xattrs) ∷ []) ((inl h, tt), omega arith) in
    rw (other, packed, encode_xattrs_lem xattrs hs, append-nil)

read_xattrs_lem :
    (xattrs : List (Key × Key))
    → read_xattrs (length xattrs) (Unpack.all_bytes (xattr_items xattrs)) ≡ ok xattrs
unfolding read_xattrs xattr_items Unpack.all_bytes item_bytes or_eof
read_xattrs_lem [] = refl
read_xattrs_lem ((name, value) ∷ xattrs) = rw (
  read_bvec-bvec_bytes name (bvec_bytes value ++ Unpack.all_bytes (xattr_items xattrs)),
  read_bvec-bvec_bytes value (Unpack.all_bytes (xattr_items xattrs)),
  read_xattrs_lem xattrs,
)

read_count :
    (xattrs : List (Key × Key))
    → read_vuint (Unpack.all_bytes (vuint (length xattrs) ∷ xattr_items xattrs))
      ≡ ok (some (length xattrs), Unpack.all_bytes (xattr_items xattrs))
unfolding Unpack.all_bytes item_bytes
read_count xattrs = read_vuint-vuint_bytes (length xattrs) (Unpack.all_bytes (xattr_items xattrs))

pub load_linux_xattr_lem :
    (xattr : Option (List (Key × Key))) (m : Metadata)
    → load_one tag_linux_xattr (xattr_content xattr) (record m { linux_xattr = none })
      ≡ ok (record m { linux_xattr = xattr })
unfolding xattr_content load_content load_linux_xattr or_eof load_one
load_linux_xattr_lem none m = refl
load_linux_xattr_lem (some xattrs) m = rw (
  load_packed tag_linux_xattr (vuint (length xattrs)) (xattr_items xattrs)
      (record m { linux_xattr = none }),
  read_count xattrs,
  read_xattrs_lem xattrs,
)
