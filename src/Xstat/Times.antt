-- ===== src/Xstat/Times.antt =====
-- Times in nanoseconds, taken apart and put together.
use bup.Base.{ℕ, zero, suc, ◌+◌, ◌*◌, ◌-◌, ◌/◌, ◌%◌, ◌<◌, ◌≡◌, refl, arith, false, leb}
use bup.Base.Int.{ℤ, pos, negsuc, neg_ℕ, pos_part, neg_part}
use bup.Xstat.{
  difference, ◌+ℤ◌, times, floor_div, floor_mod, billion, timespec_to_nsecs, nsecs_to_timespec,
}

neg_parts : (n : ℕ) → (pos_part (neg_ℕ n) ≡ 0) × (neg_part (neg_ℕ n) ≡ n)
neg_parts zero = (refl, refl)
neg_parts (suc n) = (refl, refl)

-- For every time, negative ones included, timespec_to_nsecs of its timespec is the time, and the
-- nanoseconds of the timespec are from 0 to 999999999.
pub timespec_to_nsecs-nsecs_to_timespec :
    (ns : ℤ)
    → (timespec_to_nsecs (nsecs_to_timespec ns) ≡ ns)
      × (pos_part ((nsecs_to_timespec ns).1) < billion)
      × (neg_part ((nsecs_to_timespec ns).1) ≡ 0)
unfolding timespec_to_nsecs nsecs_to_timespec difference ◌+ℤ◌ times floor_div floor_mod
timespec_to_nsecs-nsecs_to_timespec (pos n) =
    let whole : n / billion * billion + n % billion ≡ n = omega arith in
    (ground (arith, whole), omega arith, refl)
timespec_to_nsecs-nsecs_to_timespec (negsuc n) =
    let seconds = suc (n / billion) * billion in
    let rest = billion - 1 - n % billion in
    let less : leb (seconds + 0) (0 + rest) ≡ false = ground arith in
    let left : seconds + 0 - (0 + rest) ≡ suc n = omega arith in
    (rw ((neg_parts seconds).0, (neg_parts seconds).1, less, left) refl, omega arith, refl)
