-- ===== src/Index/Add.antt =====
-- `Writer.add` of lib/bup/index.py. What hashgen returns for the name is an argument, as is where
-- the store has the empty metadata.
use mathlib.Core.Path.{subst}
use bup.Base.{
  length-append, ℕ, ◌<◌, ◌≤◌, ◌≡◌, refl, sym, arith, Bool, true, false, Option, none, some, List,
  [], ◌∷◌, ◌++◌, ◌==◌, if◌then◌else◌, length, Bool-cases, All, inl, inr, ◌⊎◌, bit_or,
}
use bup.Base.Int.{ℤ, pos, negsuc}
use bup.Base.Bytes.{ends_with}
use bup.Base.Hex.{replicate}
use bup.Base.Error.{Result, ok, err, assertion_error, index_error, Returns, ◌>>=◌}
use bup.Git.Names.{s_isdir}
use bup.Index.{Entry, Platform, empty_sha, ix_exists, ix_hashvalid, fixup_time}
use bup.Index.State.{Stat, bool_eq}
use bup.Index.Writer.{last_name, blank_new_entry, Writer, add_entry}
use bup.Index.Paths.{split, head_cons, slashed, pathsplit, split_some, joined-pathsplit}
use bup.Index.Stored.{IsName, joined}
use bup.Index.Run.{IsAdded}
use bup.Index.Additions.{IsBelowRoot}

unfoldable pub is_directory : ℤ → Bool
is_directory (pos mode) = s_isdir mode
is_directory (negsuc mode) = false

-- The git mode, the hash and the flags.
unfoldable pub hash_of : Option (ℤ × List ℕ) → ℤ × List ℕ × ℕ
hash_of none = (pos 0, empty_sha, ix_exists)
hash_of (some (gitmode, sha)) = (gitmode, sha, bit_or ix_exists ix_hashvalid)

-- `NewEntry(…)`
unfoldable pub new_entry : List ℕ → List ℕ → Option ℤ → Stat → ℤ × List ℕ × ℕ → ℕ → Entry
new_entry basename name tmax st (gitmode, sha, flags) meta_ofs = record {
  basename = basename;
  name = name;
  tmax = tmax;
  dev = st.st_dev;
  ino = st.st_ino;
  nlink = st.st_nlink;
  ctime = fixup_time tmax st.st_ctime_ns;
  mtime = fixup_time tmax st.st_mtime_ns;
  atime = st.st_atime_ns;
  size = st.st_size;
  mode = st.st_mode;
  gitmode = gitmode;
  sha = sha;
  flags = flags;
  children_ofs = 0;
  children_n = 0;
  meta_ofs = meta_ofs;
}

unfoldable pub blank_entry : List ℕ → Option ℤ → ℤ × List ℕ × ℕ → ℕ → Entry
blank_entry basename tmax (gitmode, sha, flags) empty_ofs =
    record (blank_new_entry basename empty_ofs tmax) { gitmode = gitmode; sha = sha; flags = flags }

-- The entry that `add` makes.
unfoldable pub entry_for :
    List ℕ → Option Stat → Option (ℤ × List ℕ) → ℕ → ℕ → Option ℤ → Result Entry
entry_for name none hashed meta_ofs empty_ofs tmax =
    if ends_with name (b'/' ∷ [])
    then ok (blank_entry (last_name (pathsplit name)) tmax (hash_of hashed) empty_ofs)
    else err assertion_error
entry_for name (some st) hashed meta_ofs empty_ofs tmax =
    if bool_eq (is_directory st.st_mode) (ends_with name (b'/' ∷ []))
    then ok (new_entry (last_name (pathsplit name)) name tmax st (hash_of hashed) meta_ofs)
    else err assertion_error

pub add :
    Platform
    → List ℕ
    → Option Stat
    → Option (ℤ × List ℕ)
    → ℕ
    → ℕ
    → Option ℤ
    → Writer
    → Result Writer
add p name st hashed meta_ofs empty_ofs tmax w =
    if length (pathsplit name) == 0 then err index_error else do
      e ← entry_for name st hashed meta_ofs empty_ofs tmax
      add_entry p empty_ofs tmax (pathsplit name) e w

-- A git hash has 20 bytes.
abbrev pub IsHash : Option (ℤ × List ℕ) → Type 0
IsHash none = Unit
IsHash (some (gitmode, sha)) = length sha ≡ 20

abbrev IsText : List ℕ → Type 0
IsText = All (λ c. 0 < c)

split-IsText : (p : List ℕ) → IsText p → All IsText (split p)
unfolding split head_cons
split-IsText [] h = (tt, tt)
split-IsText (c ∷ p) (h, hs) = elim (Bool-cases (c == b'/')) [
  | inl slash ↦ rw slash (tt, split-IsText p hs)
  | inr other ↦
      let (x, l, e) = split_some p in
      let rest : All IsText (x ∷ l) = subst (All IsText) e (split-IsText p hs) in
      rw (other, e) ((h, rest.0), rest.1)
]

IsText-append : (x : List ℕ) → IsText x → IsText (x ++ b'/' ∷ [])
IsText-append [] h = (omega arith, tt)
IsText-append (c ∷ x) (h, hs) = (h, IsText-append x hs)

slashed-IsName : (l : List (List ℕ)) → All IsText l → All IsName (slashed l)
unfolding slashed
slashed-IsName [] h = tt
slashed-IsName (x ∷ []) h = elim (Bool-cases (length x == 0)) [
  | inl empty ↦ rw empty tt
  | inr filled ↦ rw filled ((ground arith, h.0), tt)
]
slashed-IsName (x ∷ y ∷ l) (h, hs) =
    ((omega (arith, length-append x (b'/' ∷ [])), IsText-append x h), slashed-IsName (y ∷ l) hs)

-- The parts of an absolute path that is not the root directory.
two_parts :
    (c : ℕ) (p : List ℕ)
    → IsBelowRoot (pathsplit (b'/' ∷ c ∷ p)) × (2 ≤ length (pathsplit (b'/' ∷ c ∷ p)))
unfolding pathsplit split slashed
two_parts c p =
    let (x, l, e) = split_some (c ∷ p) in
    let whole : joined (slashed (x ∷ l)) ≡ c ∷ p =
      subst (λ (t : List (List ℕ)). joined (slashed t) ≡ c ∷ p) e (joined-pathsplit (c ∷ p)) in
    subst (λ (t : List (List ℕ)). IsBelowRoot (slashed ([] ∷ t)) × (2 ≤ length (slashed ([] ∷ t))))
      (sym e) (more x l whole)
  where
    more :
        (x : List ℕ) (l : List (List ℕ))
        → joined (slashed (x ∷ l)) ≡ c ∷ p
        → IsBelowRoot ((b'/' ∷ []) ∷ slashed (x ∷ l)) × (2 ≤ length ((b'/' ∷ []) ∷ slashed (x ∷ l)))
    more x l whole = parts (slashed (x ∷ l)) whole
      where
        parts :
            (ename : List (List ℕ))
            → joined ename ≡ c ∷ p
            → IsBelowRoot ((b'/' ∷ []) ∷ ename) × (2 ≤ length ((b'/' ∷ []) ∷ ename))
        parts [] h = cc
        parts (y ∷ ename) h = (refl, omega arith)

-- What holds of the entry of an absolute path.
abbrev pub IsEntryOf : List ℕ → Entry → Type 0
IsEntryOf name e =
    IsAdded (pathsplit name) e × IsBelowRoot (pathsplit name) × (joined (pathsplit name) ≡ name)

made :
    (c : ℕ) (p : List ℕ) (e : Entry)
    → All (λ d. 0 < d) (c ∷ p)
    → e.basename ≡ last_name (pathsplit (b'/' ∷ c ∷ p))
    → length e.sha ≡ 20
    → IsEntryOf (b'/' ∷ c ∷ p) e
unfolding pathsplit
made c p e h base sha =
    let name = b'/' ∷ c ∷ p in
    let (root, two) = two_parts c p in
    (
      (two, slashed-IsName (split name) (split-IsText name (omega arith, h)), base, sha),
      root,
      joined-pathsplit name,
    )

length-hash_of : (hashed : Option (ℤ × List ℕ)) → IsHash hashed → length ((hash_of hashed).1) ≡ 20
unfolding hash_of replicate
length-hash_of none k = refl
length-hash_of (some (gitmode, sha)) k = k

-- The path ends with a slash exactly if it is a directory's; without a stat it is one's.
abbrev pub is_addable : List ℕ → Option Stat → Bool
is_addable name none = ends_with name (b'/' ∷ [])
is_addable name (some st) = bool_eq (is_directory st.st_mode) (ends_with name (b'/' ∷ []))

-- For an absolute path other than the root directory, without NUL, and no hash or one of 20 bytes:
-- if the path ends with a slash exactly when it is a directory's, a path without stat counting as
-- one, add makes an entry of it, which has the last part of the path as its basename and a hash of
-- 20 bytes, and the parts of the path are two at least, the first the root directory, none of them
-- empty or with a NUL, and make up the path; otherwise add raises AssertionError.
pub entry_for-IsEntryOf :
    (c : ℕ) (p : List ℕ) (st : Option Stat) (hashed : Option (ℤ × List ℕ)) (meta_ofs empty_ofs : ℕ)
    (tmax : Option ℤ)
    → All (λ d. 0 < d) (c ∷ p)
    → IsHash hashed
    → ((is_addable (b'/' ∷ c ∷ p) st ≡ true)
        × Returns
            (IsEntryOf (b'/' ∷ c ∷ p))
            (entry_for (b'/' ∷ c ∷ p) st hashed meta_ofs empty_ofs tmax))
      ⊎ ((is_addable (b'/' ∷ c ∷ p) st ≡ false)
          × (entry_for (b'/' ∷ c ∷ p) st hashed meta_ofs empty_ofs tmax ≡ err assertion_error))
unfolding entry_for new_entry blank_entry blank_new_entry
entry_for-IsEntryOf c p none hashed meta_ofs empty_ofs tmax h k =
    let sha = length-hash_of hashed k in
    elim (Bool-cases (is_addable (b'/' ∷ c ∷ p) none)) [
      | inl addable ↦
          let name = b'/' ∷ c ∷ p in
          let e = blank_entry (last_name (pathsplit name)) tmax (hash_of hashed) empty_ofs in
          inl (addable, (e, rw addable refl, made c p e h refl sha))
      | inr other ↦ inr (other, rw other refl)
    ]
entry_for-IsEntryOf c p (some st) hashed meta_ofs empty_ofs tmax h k =
    let sha = length-hash_of hashed k in
    elim (Bool-cases (is_addable (b'/' ∷ c ∷ p) (some st))) [
      | inl addable ↦
          let name = b'/' ∷ c ∷ p in
          let e = new_entry (last_name (pathsplit name)) name tmax st (hash_of hashed) meta_ofs in
          inl (addable, (e, rw addable refl, made c p e h refl sha))
      | inr other ↦ inr (other, rw other refl)
    ]
