-- ===== src/Index/State.antt =====
-- The state of an entry of lib/bup/index.py: its flags, and whether it is stale against a stat.
use bup.Base.{
  ℕ, zero, suc, ◌-◌, ◌≡◌, refl, arith, Bool, true, false, ◌||◌, ◌&&◌, not, some, List, [], ◌∷◌,
  ◌==◌, if◌then◌else◌, length, bytes_eq, bit_and, bit_or, inl, inr, Bool-cases, ==_refl,
}
use bup.Base.Int.{ℤ, pos, negsuc}
use bup.Base.Error.{Result, ok, err, assertion_error, ◌>>=◌}
use bup.Base.Bits.{and-or}
use bup.Metadata.{is_zero}
use bup.Metadata.Equality.{int_eq}
use bup.Index.{
  Entry, Platform, empty_sha, ix_exists, ix_hashvalid, ix_shamissing, fixup_time, int_lt, packed,
}

pub record Stat : Type 0 where
  pub st_dev : ℤ
  pub st_ino : ℕ
  pub st_nlink : ℤ
  pub st_ctime_ns : ℤ
  pub st_mtime_ns : ℤ
  pub st_atime_ns : ℤ
  pub st_size : ℕ
  pub st_mode : ℤ

-- flags & ~bits
pub without : ℕ → ℕ → ℕ
without flags bits = flags - bit_and flags bits

pub has : ℕ → ℕ → Bool
has flags bits = not (bit_and flags bits == 0)

unfoldable pub stale : Entry → Stat → Bool → Bool
stale e st check_device =
    if not (e.size == st.st_size)
    then true
    else if not (int_eq e.mtime st.st_mtime_ns)
    then true
    else if bytes_eq e.sha empty_sha
    then true
    else if is_zero e.gitmode
    then true
    else if not (int_eq e.ctime st.st_ctime_ns)
    then true
    else if not (e.ino == st.st_ino)
    then true
    else if not (int_eq e.nlink st.st_nlink)
    then true
    else if not (has e.flags ix_exists)
    then true
    else if check_device && not (int_eq e.dev st.st_dev)
    then true
    else false

-- `_fixup`
unfoldable pub fixup : Entry → Entry
fixup e = record e { mtime = fixup_time e.tmax e.mtime; ctime = fixup_time e.tmax e.ctime }

unfoldable pub update_from_stat : Entry → Stat → ℕ → Entry
update_from_stat e st meta_ofs = fixup (record e {
  dev = st.st_dev;
  ino = st.st_ino;
  nlink = st.st_nlink;
  ctime = st.st_ctime_ns;
  mtime = st.st_mtime_ns;
  atime = st.st_atime_ns;
  size = st.st_size;
  mode = st.st_mode;
  flags = bit_or e.flags ix_exists;
  meta_ofs = meta_ofs;
})

pub is_valid : Entry → Bool
is_valid e = bit_and e.flags (bit_or ix_hashvalid ix_exists) == bit_or ix_hashvalid ix_exists

pub invalidate : Entry → Entry
invalidate e = record e { flags = without e.flags ix_hashvalid }

pub validate : ℤ → List ℕ → Entry → Result Entry
validate gitmode sha e =
    if length sha == 0
    then err assertion_error
    else if is_zero gitmode
    then err assertion_error
    else ok (record e {
      gitmode = gitmode;
      sha = sha;
      flags = bit_or e.flags (bit_or ix_hashvalid ix_exists);
    })

pub sha_missing : Entry → Bool
sha_missing e = has e.flags ix_shamissing || not (has e.flags ix_hashvalid)

pub is_deleted : Entry → Bool
is_deleted e = bit_and e.flags ix_exists == 0

pub set_deleted : Entry → Entry
set_deleted e =
    if has e.flags ix_exists
    then record e { flags = without e.flags (bit_or ix_exists ix_hashvalid) }
    else e

pub is_fake : Entry → Bool
is_fake e = is_zero e.ctime

-- m[ofs : ofs + len(b)] = b
pub splice : List ℕ → ℕ → List ℕ → List ℕ
splice [] ofs b = b
splice (c ∷ m) zero [] = c ∷ m
splice (c ∷ m) zero (d ∷ b) = d ∷ splice m zero b
splice (c ∷ m) (suc ofs) b = c ∷ splice m ofs b

-- An entry with the offset of its packed form, and those of its parents behind it.
abbrev pub Chain : Type 0
Chain = List (ℕ × Entry)

-- `self.parent.invalidate()`
pub invalidate_first : Chain → Chain
invalidate_first [] = []
invalidate_first ((ofs, e) ∷ parents) = (ofs, invalidate e) ∷ parents

-- `repack`, which goes on to the parent, invalidated, of an entry that is not valid. The list is as
-- long as the fuel.
unfoldable pub repack_chain : Platform → ℕ → List ℕ → Chain → Result (List ℕ × Chain)
repack_chain p fuel m [] = ok (m, [])
repack_chain p zero m ((ofs, e) ∷ parents) = ok (m, (ofs, e) ∷ parents)
repack_chain p (suc fuel) m ((ofs, e) ∷ parents) = do
  b ← packed p e
  (m', above) ← elim (is_valid e) [
    | true ↦ ok (splice m ofs b, parents)
    | false ↦ repack_chain p fuel (splice m ofs b) (invalidate_first parents)
  ]
  ok (m', (ofs, e) ∷ above)

pub repack : Platform → List ℕ → Chain → Result (List ℕ × Chain)
repack p m chain = repack_chain p (length chain) m chain

pub bool_eq : Bool → Bool → Bool
bool_eq true b = b
bool_eq false b = not b

pub set_sha_missing : Platform → Bool → List ℕ → Chain → Result (List ℕ × Chain)
set_sha_missing p val m [] = ok (m, [])
set_sha_missing p val m ((ofs, e) ∷ parents) =
    if bool_eq val (sha_missing e)
    then ok (m, (ofs, e) ∷ parents)
    else repack p m (
        (
          ofs,
          record e {
            flags = bit_or (without e.flags ix_shamissing) (if val then ix_shamissing else 0);
          },
        )
        ∷ parents)

int_eq_refl : (x : ℤ) → int_eq x x ≡ true
int_eq_refl (pos n) = ==_refl n
int_eq_refl (negsuc n) = ==_refl n

int_lt-differs : (a b : ℤ) → int_lt a b ≡ true → int_eq a b ≡ false
unfolding int_lt
int_lt-differs (pos a) (pos b) h = ground arith
int_lt-differs (negsuc a) (pos b) h = refl
int_lt-differs (negsuc a) (negsuc b) h = ground arith
int_lt-differs (pos a) (negsuc b) h = refl

-- Whether a time that was fixed up differs from what it was.
fixup_time-differs : (tmax t : ℤ) → not (int_eq (fixup_time (some tmax) t) t) ≡ int_lt tmax t
unfolding fixup_time
fixup_time-differs tmax t = elim (Bool-cases (int_lt tmax t)) [
  | inl after ↦ rw (after, int_lt-differs tmax t after)
  | inr before ↦ rw (before, int_eq_refl t)
]

has_exists : (flags : ℕ) → has (bit_or flags ix_exists) ix_exists ≡ true
unfolding has
has_exists flags = rw (and-or flags ix_exists) refl

either :
    (a b c : Bool)
    → (if a then true else if b then true else if c && false then true else false) ≡ (a || b)
either true b c = refl
either false true c = refl
either false false true = refl
either false false false = refl

-- An entry with a tmax, a hash and a git mode that has been updated from a stat is stale against
-- the same stat exactly if the file's mtime or ctime is after tmax, whether devices are compared or
-- not.
pub stale-update_from_stat :
    (e : Entry) (st : Stat) (meta_ofs : ℕ) (tmax : ℤ) (check_device : Bool)
    → e.tmax ≡ some tmax
    → bytes_eq e.sha empty_sha ≡ false
    → is_zero e.gitmode ≡ false
    → stale (update_from_stat e st meta_ofs) st check_device
      ≡ (int_lt tmax st.st_mtime_ns || int_lt tmax st.st_ctime_ns)
unfolding stale update_from_stat fixup
stale-update_from_stat e st meta_ofs tmax check_device h sha gitmode =
    rw
      (
        h,
        sha,
        gitmode,
        ==_refl st.st_size,
        fixup_time-differs tmax st.st_mtime_ns,
        fixup_time-differs tmax st.st_ctime_ns,
        ==_refl st.st_ino,
        int_eq_refl st.st_nlink,
        has_exists e.flags,
        int_eq_refl st.st_dev,
      )
      (either (int_lt tmax st.st_mtime_ns) (int_lt tmax st.st_ctime_ns) check_device)
