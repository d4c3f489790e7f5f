-- ===== src/Xstat.antt =====
-- lib/bup/xstat.py: times in nanoseconds and the strings for modes. A time is an integer, and a
-- negative one rounds down.
pub mod Times
mod Tests
use bup.Base.{
  ℕ, zero, suc, ◌+◌, ◌*◌, ◌-◌, ◌/◌, ◌%◌, ◌^◌, Bool, true, false, not, List, [], ◌∷◌, ◌++◌, ltb, leb,
  ◌==◌, if◌then◌else◌, length, bit_and,
}
use bup.Base.Int.{ℤ, pos, negsuc, neg_ℕ, pos_part, neg_part}
use bup.Base.Bytes.{ascii}
use bup.Base.Hex.{replicate}
use bup.Git.Names.{s_isdir, s_isreg}
use bup.HlinkDb.{decimal}

-- a - b
pub difference : ℕ → ℕ → ℤ
difference a b = if leb b a then pos (a - b) else neg_ℕ (b - a)

infixl 6 ◌+ℤ◌
pub ◌+ℤ◌ : ℤ → ℤ → ℤ
a +ℤ b = difference (pos_part a + pos_part b) (neg_part a + neg_part b)

pub times : ℤ → ℕ → ℤ
times (pos n) k = pos (n * k)
times (negsuc n) k = neg_ℕ (suc n * k)

-- ns // k and ns % k, for a positive k
unfoldable pub floor_div : ℤ → ℕ → ℤ
floor_div (pos n) k = pos (n / k)
floor_div (negsuc n) k = negsuc (n / k)

unfoldable pub floor_mod : ℤ → ℕ → ℕ
floor_mod (pos n) k = n % k
floor_mod (negsuc n) k = k - 1 - n % k

abbrev pub billion : ℕ
billion = 1000000000

pub timespec_to_nsecs : ℤ × ℤ → ℤ
timespec_to_nsecs (ts_s, ts_ns) = times ts_s billion +ℤ ts_ns

unfoldable pub nsecs_to_timespec : ℤ → ℤ × ℤ
nsecs_to_timespec ns = (floor_div ns billion, pos (floor_mod ns billion))

pub nsecs_to_timeval : ℤ → ℤ × ℤ
nsecs_to_timeval ns = (floor_div ns billion, pos (floor_mod ns billion / 1000))

pub fstime_floor_secs : ℤ → ℤ
fstime_floor_secs ns = floor_div ns billion

pub fstime_to_timespec : ℤ → ℤ × ℤ
fstime_to_timespec ns = nsecs_to_timespec ns

-- b'%d'
pub signed_decimal : ℤ → List ℕ
signed_decimal (pos n) = decimal n
signed_decimal (negsuc n) = b'-' ∷ decimal (suc n)

-- b'%0*d' for what is not negative
pub padded_decimal : ℕ → ℕ → List ℕ
padded_decimal width n = replicate (width - length (decimal n)) b'0' ++ decimal n

pub toward_zero : ℤ → ℤ
toward_zero (pos s) = pos s
toward_zero (negsuc s) = negsuc s +ℤ pos 1

pub sec_bytes : ℤ × ℤ → List ℕ
sec_bytes (s, ns) =
    if pos_part ns == 0
    then signed_decimal (toward_zero s)
    else signed_decimal (toward_zero s) ++ b'.' ∷ padded_decimal 9 (pos_part ns)

pub fstime_to_sec_bytes : ℤ → List ℕ
fstime_to_sec_bytes fstime = sec_bytes (fstime_to_timespec fstime)

-- The other tests of Python's `stat`.
pub has_type : ℕ → ℕ → Bool
has_type file_type mode = bit_and mode 0o170000 == file_type

pub type_char : ℕ → List ℕ
type_char mode =
    if s_isreg mode
    then ascii "-"
    else if s_isdir mode
    then ascii "d"
    else if has_type 0o020000 mode
    then ascii "c"
    else if has_type 0o060000 mode
    then ascii "b"
    else if has_type 0o010000 mode
    then ascii "p"
    else if has_type 0o120000 mode
    then ascii "l"
    else if has_type 0o140000 mode
    then ascii "s"
    else ascii "?"

pub flag_char : ℕ → ℕ → ℕ → ℕ
flag_char mode flag c = if bit_and mode flag == 0 then b'-' else c

pub mode_str : ℕ → List ℕ
mode_str mode =
    type_char mode
    ++ flag_char mode 0o400 b'r'
      ∷ flag_char mode 0o200 b'w'
      ∷ flag_char mode 0o100 b'x'
      ∷ flag_char mode 0o040 b'r'
      ∷ flag_char mode 0o020 b'w'
      ∷ flag_char mode 0o010 b'x'
      ∷ flag_char mode 0o004 b'r'
      ∷ flag_char mode 0o002 b'w'
      ∷ flag_char mode 0o001 b'x'
      ∷ []

pub classification_str : ℕ → Bool → List ℕ
classification_str mode include_exec =
    if s_isreg mode
    then (if include_exec then (if bit_and mode 0o111 == 0 then [] else ascii "*") else [])
    else if s_isdir mode
    then ascii "/"
    else if has_type 0o120000 mode
    then ascii "@"
    else if has_type 0o010000 mode
    then ascii "|"
    else if has_type 0o140000 mode
    then ascii "="
    else []
