-- ===== src/Index.antt =====
-- The entries of the index of lib/bup/index.py: their state and their packed form. A None that is
-- only tested is the empty bytes; `_m`, `_ofs` and `parent` of an entry that was read are arguments.
pub mod Writer
pub mod Reader
pub mod Listing
pub mod Stored
pub mod Replay
pub mod Run
pub mod Rooted
pub mod Flush
pub mod Room
pub mod Total
pub mod Additions
pub mod RoundTrip
pub mod MetaStore
pub mod State
pub mod Paths
pub mod Add
pub mod Merge
mod Tests
use bup.Base.{
  ℕ, zero, suc, ◌+◌, ◌-◌, Bool, true, false, ◌||◌, ◌&&◌, not, Option, none, some, List, [], ◌∷◌,
  ◌++◌, ltb, ◌==◌, if◌then◌else◌, length, bytes_eq, bit_and, bit_or,
}
use bup.Base.Int.{ℤ, pos, negsuc}
use bup.Base.Bytes.{slice}
use bup.Base.Lex.{bytes_lt}
use bup.Base.Hex.{replicate}
use bup.Base.Struct.{Format, unsigned, signed, string, Value, int, bytes, calcsize}
use bup.Base.Struct
use bup.Base.Error.{Result, ok, err, assertion_error, value_error, ◌>>=◌}
use bup.Xstat.{nsecs_to_timespec, timespec_to_nsecs}
use bup.Metadata.{is_zero}
use bup.Metadata.Equality.{int_eq}

abbrev pub empty_sha : List ℕ
empty_sha = replicate 20 0

abbrev pub ix_exists : ℕ
ix_exists = 0x8000

abbrev pub ix_hashvalid : ℕ
ix_hashvalid = 0x4000

abbrev pub ix_shamissing : ℕ
ix_shamissing = 0x2000

-- c_type_signed_size[…] < 0
pub record Platform : Type 0 where
  pub dev_signed : Bool
  pub nlink_signed : Bool
  pub mode_signed : Bool

pub record Entry : Type 0 where
  pub basename : List ℕ
  pub name : List ℕ
  pub tmax : Option ℤ
  pub dev : ℤ
  pub ino : ℕ
  pub nlink : ℤ
  pub ctime : ℤ
  pub mtime : ℤ
  pub atime : ℤ
  pub size : ℕ
  pub mode : ℤ
  pub gitmode : ℤ
  pub sha : List ℕ
  pub flags : ℕ
  pub children_ofs : ℕ
  pub children_n : ℕ
  pub meta_ofs : ℕ

-- a < b
unfoldable pub int_lt : ℤ → ℤ → Bool
int_lt (pos a) (pos b) = ltb a b
int_lt (pos a) (negsuc b) = false
int_lt (negsuc a) (pos b) = true
int_lt (negsuc a) (negsuc b) = ltb b a

unfoldable pub fixup_time : Option ℤ → ℤ → ℤ
fixup_time none t = t
fixup_time (some tmax) t = if int_lt tmax t then tmax else t

abbrev pub maybe_signed : Bool → ℕ → Format
maybe_signed true k = signed k
maybe_signed false k = unsigned k

abbrev pub entry_sig : Platform → List Format
entry_sig p =
    maybe_signed p.dev_signed 8
    ∷ unsigned 8
    ∷ maybe_signed p.nlink_signed 8
    ∷ signed 8
    ∷ unsigned 8
    ∷ signed 8
    ∷ unsigned 8
    ∷ signed 8
    ∷ unsigned 8
    ∷ unsigned 8
    ∷ maybe_signed p.mode_signed 4
    ∷ maybe_signed p.mode_signed 4
    ∷ string 20
    ∷ unsigned 2
    ∷ unsigned 8
    ∷ unsigned 4
    ∷ unsigned 8
    ∷ []

unfoldable pub entlen : Platform → ℕ
entlen p = calcsize (entry_sig p)

abbrev pub entry_values : Entry → List Value
entry_values e =
    let (ctime_s, ctime_ns) = nsecs_to_timespec e.ctime in
    let (mtime_s, mtime_ns) = nsecs_to_timespec e.mtime in
    let (atime_s, atime_ns) = nsecs_to_timespec e.atime in
    int e.dev
    ∷ int (pos e.ino)
    ∷ int e.nlink
    ∷ int ctime_s
    ∷ int ctime_ns
    ∷ int mtime_s
    ∷ int mtime_ns
    ∷ int atime_s
    ∷ int atime_ns
    ∷ int (pos e.size)
    ∷ int e.mode
    ∷ int e.gitmode
    ∷ bytes e.sha
    ∷ int (pos e.flags)
    ∷ int (pos e.children_ofs)
    ∷ int (pos e.children_n)
    ∷ int (pos e.meta_ofs)
    ∷ []

unfoldable pub packed : Platform → Entry → Result (List ℕ)
packed p e = Struct.pack (entry_sig p) (entry_values e)

-- The attributes from the unpacked values.
unfoldable pub assign_entry : List ℕ → List ℕ → List Value → Result Entry
assign_entry basename name
      (int dev
        ∷ int (pos ino)
        ∷ int nlink
        ∷ int ctime_s
        ∷ int ctime_ns
        ∷ int mtime_s
        ∷ int mtime_ns
        ∷ int atime_s
        ∷ int atime_ns
        ∷ int (pos size)
        ∷ int mode
        ∷ int gitmode
        ∷ bytes sha
        ∷ int (pos flags)
        ∷ int (pos children_ofs)
        ∷ int (pos children_n)
        ∷ int (pos meta_ofs)
        ∷ []) =
    ok (record {
      basename = basename;
      name = name;
      tmax = none;
      dev = dev;
      ino = ino;
      nlink = nlink;
      ctime = timespec_to_nsecs (ctime_s, ctime_ns);
      mtime = timespec_to_nsecs (mtime_s, mtime_ns);
      atime = timespec_to_nsecs (atime_s, atime_ns);
      size = size;
      mode = mode;
      gitmode = gitmode;
      sha = sha;
      flags = flags;
      children_ofs = children_ofs;
      children_n = children_n;
      meta_ofs = meta_ofs;
    })
assign_entry basename name _ = err value_error

unfoldable pub existing_entry : Platform → List ℕ → List ℕ → List ℕ → ℕ → Result Entry
existing_entry p basename name m ofs = do
  values ← Struct.unpack (entry_sig p) (slice m ofs (entlen p))
  assign_entry basename name values
