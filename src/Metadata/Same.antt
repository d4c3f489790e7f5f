-- ===== src/Metadata/Same.antt =====
-- The comparisons of lib/bup/metadata.py: `__eq__`, and `same_file` for hard links.
use bup.Base.{ℕ, ◌≡◌, ◌↔◌, Bool, true, ◌&&◌, Option, List, bytes_eq}
use bup.Base.Int.{ℤ}
use bup.Base.Dict.{Key}
use bup.Metadata.{Metadata}
use bup.Metadata.Equality.{
  int_eq, option_eq, list_eq, pair_eq, Decides, ints, strings, acls, xattrs, both, both-Decides,
  decides→iff,
}

unfoldable pub same_common : Metadata → Metadata → Bool
same_common m n =
    option_eq int_eq m.uid n.uid
    && (option_eq int_eq m.gid n.gid
        && (option_eq int_eq m.rdev n.rdev
            && (option_eq int_eq m.mtime n.mtime
                && (option_eq int_eq m.ctime n.ctime
                    && (option_eq bytes_eq m.user n.user
                        && (option_eq bytes_eq m.group n.group
                            && option_eq int_eq m.size n.size))))))

unfoldable pub same_file : Metadata → Metadata → Bool
same_file m n =
    same_common m n
    && (option_eq bytes_eq m.hardlink_target n.hardlink_target
        && (option_eq (list_eq bytes_eq) m.posix1e_acl n.posix1e_acl
            && (option_eq int_eq m.linux_attr n.linux_attr
                && option_eq (list_eq pair_eq) m.linux_xattr n.linux_xattr)))

-- `__eq__`
unfoldable pub metadata_eq : Metadata → Metadata → Bool
metadata_eq m n =
    option_eq int_eq m.mode n.mode
    && (option_eq int_eq m.mtime n.mtime
        && (option_eq int_eq m.ctime n.ctime
            && (option_eq int_eq m.atime n.atime
                && (option_eq int_eq m.rdev n.rdev
                    && (option_eq bytes_eq m.path n.path
                        && (option_eq int_eq m.uid n.uid
                            && (option_eq int_eq m.gid n.gid
                                && (option_eq int_eq m.size n.size
                                    && (option_eq bytes_eq m.user n.user
                                        && (option_eq bytes_eq m.group n.group
                                            && (option_eq bytes_eq m.symlink_target n.symlink_target
                                                && (option_eq bytes_eq m.hardlink_target
                                                      n.hardlink_target
                                                    && (option_eq int_eq m.linux_attr n.linux_attr
                                                        && option_eq (list_eq bytes_eq)
                                                            m.posix1e_acl n.posix1e_acl)))))))))))))

-- What `__hash__` hashes.
abbrev pub HashKey : Type 0
HashKey =
    Option ℤ
    × (Option ℤ
        × (Option ℤ
            × (Option ℤ
                × (Option ℤ
                    × (Option (List ℕ)
                        × (Option ℤ
                            × (Option ℤ
                                × (Option ℤ
                                    × (Option (List ℕ)
                                        × (Option (List ℕ)
                                            × (Option (List ℕ)
                                                × (Option (List ℕ)
                                                    × (Option ℤ
                                                        × Option (List (List ℕ)))))))))))))))

pub hash_key : Metadata → HashKey
hash_key m = (
  m.mode,
  (
    m.mtime,
    (
      m.ctime,
      (
        m.atime,
        (
          m.rdev,
          (
            m.path,
            (
              m.uid,
              (
                m.gid,
                (
                  m.size,
                  (
                    m.user,
                    (
                      m.group,
                      (m.symlink_target, (m.hardlink_target, (m.linux_attr, m.posix1e_acl))),
                    ),
                  ),
                ),
              ),
            ),
          ),
        ),
      ),
    ),
  ),
)

abbrev eqs : HashKey → HashKey → Bool
eqs = both (option_eq int_eq) (
    both (option_eq int_eq) (
      both (option_eq int_eq) (
        both (option_eq int_eq) (
          both (option_eq int_eq) (
            both (option_eq bytes_eq) (
              both (option_eq int_eq) (
                both (option_eq int_eq) (
                  both (option_eq int_eq) (
                    both (option_eq bytes_eq) (
                      both (option_eq bytes_eq) (
                        both (option_eq bytes_eq) (
                          both (option_eq bytes_eq)
                            (both (option_eq int_eq) (option_eq (list_eq bytes_eq)))))))))))))))

eqs-Decides : Decides eqs
eqs-Decides = both-Decides _ _ ints (
    both-Decides _ _ ints (
      both-Decides _ _ ints (
        both-Decides _ _ ints (
          both-Decides _ _ ints (
            both-Decides _ _ strings (
              both-Decides _ _ ints (
                both-Decides _ _ ints (
                  both-Decides _ _ ints (
                    both-Decides _ _ strings (
                      both-Decides _ _ strings (
                        both-Decides _ _ strings
                          (both-Decides _ _ strings (both-Decides _ _ ints acls)))))))))))))

-- __eq__ holds exactly of two Metadata for which __hash__ hashes equal tuples.
pub metadata_eq_iff : (m n : Metadata) → (metadata_eq m n ≡ true) ↔ (hash_key m ≡ hash_key n)
unfolding metadata_eq hash_key
metadata_eq_iff m n = decides→iff eqs eqs-Decides (hash_key m) (hash_key n)

-- What two hard links to a file have in common.
abbrev pub Inode : Type 0
Inode =
    (Option ℤ
      × (Option ℤ
          × (Option ℤ
              × (Option ℤ × (Option ℤ × (Option (List ℕ) × (Option (List ℕ) × Option ℤ)))))))
    × (Option (List ℕ) × (Option (List (List ℕ)) × (Option ℤ × Option (List (Key × Key)))))

pub inode : Metadata → Inode
inode m = (
  (m.uid, (m.gid, (m.rdev, (m.mtime, (m.ctime, (m.user, (m.group, m.size))))))),
  (m.hardlink_target, (m.posix1e_acl, (m.linux_attr, m.linux_xattr))),
)

abbrev inode_eq : Inode → Inode → Bool
inode_eq =
    both
      (both (option_eq int_eq) (
        both (option_eq int_eq) (
          both (option_eq int_eq) (
            both (option_eq int_eq) (
              both (option_eq int_eq)
                (both (option_eq bytes_eq) (both (option_eq bytes_eq) (option_eq int_eq))))))))
      (both (option_eq bytes_eq) (
        both (option_eq (list_eq bytes_eq))
          (both (option_eq int_eq) (option_eq (list_eq pair_eq)))))

inode_eq-Decides : Decides inode_eq
inode_eq-Decides =
    both-Decides _ _
      (both-Decides _ _ ints (
        both-Decides _ _ ints (
          both-Decides _ _ ints (
            both-Decides _ _ ints
              (both-Decides _ _ ints (both-Decides _ _ strings (both-Decides _ _ strings ints)))))))
      (both-Decides _ _ strings (both-Decides _ _ acls (both-Decides _ _ ints xattrs)))

pub same_file_iff : (m n : Metadata) → (same_file m n ≡ true) ↔ (inode m ≡ inode n)
unfolding same_file same_common inode
same_file_iff m n = decides→iff inode_eq inode_eq-Decides (inode m) (inode n)
