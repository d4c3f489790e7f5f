-- ===== src/Xstat/Tests.antt =====
-- A few times and modes, and the theorem on them.
use bup.Base.{◌≡◌, refl, true}
use bup.Base.Bytes.{ascii}
use bup.Base.Int.{negsuc}
use bup.HlinkDb.{decimal, decimal_loop}
use bup.Xstat.{
  difference, ◌+ℤ◌, floor_div, floor_mod, nsecs_to_timespec, fstime_to_timespec,
  fstime_to_sec_bytes, sec_bytes, signed_decimal, toward_zero, mode_str, type_char, flag_char,
  classification_str,
}

-- Two seconds before the epoch are printed as one.
two_seconds_before : fstime_to_sec_bytes (negsuc 1999999999) ≡ ascii "-1"
unfolding fstime_to_sec_bytes fstime_to_timespec nsecs_to_timespec sec_bytes signed_decimal
    toward_zero floor_div floor_mod ◌+ℤ◌ difference decimal decimal_loop
two_seconds_before = refl

mode_of_directory : mode_str 0o040755 ≡ ascii "drwxr-xr-x"
unfolding mode_str type_char flag_char
mode_of_directory = refl

class_of_program : classification_str 0o100755 true ≡ ascii "*"
unfolding classification_str
class_of_program = refl
