-- ===== src/Vint.antt =====
-- lib/bup/vint.py and the C encoders behind it in lib/bup/_helpers.c: variable length integers.
-- A port is the list of the bytes that are still to be read, or that have been written.
pub mod Groups
pub mod Unsigned
pub mod Signed
pub mod ReadSigned
pub mod Bvec
pub mod Pack
mod Tests
use bup.Base.{
  ℕ, zero, suc, ◌+◌, ◌-◌, ◌*◌, ◌/◌, ◌^◌, ◌≤◌, bit_and, bit_or, Bool, true, false, ◌&&◌, Option,
  none, some, List, [], ◌∷◌, ◌++◌, leb, ltb, ◌==◌, if◌then◌else◌, not, length, take, drop,
}
use bup.Base.Int.{ℤ, pos, negsuc, neg_ℕ}
use bup.Base.Error.{
  Result, ok, err, undefined, value_error, overflow_error, eof_error, assertion_error, ◌>>=◌,
}

-- The `do ... while (val)` of the C `vuint_encode`, for a `val` that is not negative.
pub vuint_encode_loop : ℕ → ℕ → List ℕ
vuint_encode_loop zero val = []
vuint_encode_loop (suc fuel) val =
    let rest = vuint_encode_loop fuel (val / 2 ^ 7) in
    if val / 2 ^ 7 == 0 then bit_and val 0x7f ∷ [] else bit_or 0x80 (bit_and val 0x7f) ∷ rest

-- A `long long` has 64 bits.
pub vuint_encode : ℕ → List ℕ
vuint_encode val = vuint_encode_loop 64 val

-- The `while (val)` of the C `vint_encode`.
pub vint_encode_loop : ℕ → ℕ → List ℕ
vint_encode_loop zero val = []
vint_encode_loop (suc fuel) val =
    let rest = vint_encode_loop fuel (val / 2 ^ 7) in
    if val == 0
    then []
    else (if val / 2 ^ 7 == 0 then bit_and val 0x7f else bit_or 0x80 (bit_and val 0x7f)) ∷ rest

-- `sign` is 0 or 0x40, and `val` the absolute value.
pub vint_encode_abs : ℕ → ℕ → List ℕ
vint_encode_abs sign val =
    (if val / 2 ^ 6 == 0
      then bit_or (bit_and val 0x3f) sign
      else bit_or 0x80 (bit_or (bit_and val 0x3f) sign))
    ∷ vint_encode_loop 64 (val / 2 ^ 6)

-- `-val` is not defined in C for the least `long long`.
pub vint_encode : ℤ → Result (List ℕ)
vint_encode (pos n) = ok (vint_encode_abs 0 n)
vint_encode (negsuc n) = if n == 2 ^ 63 - 1 then undefined else ok (vint_encode_abs 0x40 (suc n))

-- PyArg_ParseTuple "L", PyLong_AsLongLong: an integer that fits a `long long`.
pub fits_long_long : ℤ → Bool
fits_long_long (pos n) = ltb n (2 ^ 63)
fits_long_long (negsuc n) = ltb n (2 ^ 63)

-- `char buf[(sizeof(val) + 1) / 7 * 8]` in C arithmetic, with a `long long` of 8 bytes.
abbrev pub buffer_size : ℕ
buffer_size = (8 + 1) / 7 * 8

-- A write past the end of the buffer is not defined.
pub in_buffer : List ℕ → Result (List ℕ)
in_buffer bytes = if leb (length bytes) buffer_size then ok bytes else undefined

pub bup_vuint_encode : ℤ → Result (List ℕ)
bup_vuint_encode (negsuc n) =
    if fits_long_long (negsuc n) then err value_error else err overflow_error
bup_vuint_encode (pos n) =
    if fits_long_long (pos n) then in_buffer (vuint_encode n) else err overflow_error

pub bup_vint_encode : ℤ → Result (List ℕ)
bup_vint_encode x =
    if fits_long_long x then (do bytes ← vint_encode x; in_buffer bytes) else err overflow_error

-- The `while True` of the Python `encode_vuint`.
pub encode_vuint_loop : ℕ → ℕ → List ℕ
encode_vuint_loop zero x = []
encode_vuint_loop (suc fuel) x =
    let seven_bits = bit_and x 0x7f in
    let rest = encode_vuint_loop fuel (x / 2 ^ 7) in
    if not (x / 2 ^ 7 == 0) then bit_or 0x80 seven_bits ∷ rest else seven_bits ∷ []

-- What `encode_vuint` does when the C encoder has raised OverflowError.
pub encode_big_vuint : ℤ → Result (List ℕ)
encode_big_vuint (negsuc n) = err value_error
encode_big_vuint (pos zero) = err assertion_error
encode_big_vuint (pos (suc n)) = ok (encode_vuint_loop (suc n) (suc n))

-- `except OverflowError`: other errors pass through.
pub or_on_overflow : Result (List ℕ) → Result (List ℕ) → Result (List ℕ)
or_on_overflow (err overflow_error) other = other
or_on_overflow (err e) other = err e
or_on_overflow (ok bytes) other = ok bytes
or_on_overflow undefined other = undefined

pub encode_vuint : ℤ → Result (List ℕ)
encode_vuint x = or_on_overflow (bup_vuint_encode x) (encode_big_vuint x)

-- `x` is the absolute value; the sign bit is in `sign_and_six_bits`.
pub encode_big_vint_abs : ℕ → ℕ → Result (List ℕ)
encode_big_vint_abs sign_and_six_bits x =
    if x / 2 ^ 6 == 0
    then err assertion_error
    else do bytes ← encode_vuint (pos (x / 2 ^ 6)); ok (bit_or 0x80 sign_and_six_bits ∷ bytes)

pub encode_big_vint : ℤ → Result (List ℕ)
encode_big_vint (pos zero) = err assertion_error
encode_big_vint (pos (suc n)) = encode_big_vint_abs (bit_and (suc n) 0x3f) (suc n)
encode_big_vint (negsuc n) = encode_big_vint_abs (bit_or (bit_and (suc n) 0x3f) 0x40) (suc n)

pub encode_vint : ℤ → Result (List ℕ)
encode_vint x = or_on_overflow (bup_vint_encode x) (encode_big_vint x)

-- The `while True` that `read_vuint` and `read_vint` share: `b` is the byte read last.
pub read_loop : List ℕ → ℕ → ℕ → ℕ → Result (ℕ × List ℕ)
read_loop [] b result offset =
    if bit_and b 0x80 == 0 then ok (bit_or result (b * 2 ^ offset), []) else err eof_error
read_loop (c ∷ port) b result offset =
    let more = read_loop port c (bit_or result (bit_and b 0x7f * 2 ^ offset)) (offset + 7) in
    if bit_and b 0x80 == 0 then ok (bit_or result (b * 2 ^ offset), c ∷ port) else more

-- `none` is Python's None, at the end of the input.
pub read_vuint : List ℕ → Result (Option ℕ × List ℕ)
read_vuint [] = ok (none, [])
read_vuint (c ∷ port) =
    if c == 0
    then ok (some 0, port)
    else do (result, rest) ← read_loop port c 0 0; ok (some result, rest)

pub signed : Bool → ℕ → ℤ
signed true result = neg_ℕ result
signed false result = pos result

-- What follows the first byte of a vint, if that has the top bit set.
pub read_vint_rest : List ℕ → Bool → ℕ → Result (Option ℤ × List ℕ)
read_vint_rest [] negative result = err eof_error
read_vint_rest (c ∷ port) negative result = do
  (r, rest) ← read_loop port c result 6
  ok (some (signed negative r), rest)

pub read_vint : List ℕ → Result (Option ℤ × List ℕ)
read_vint [] = ok (none, [])
read_vint (b ∷ port) =
    let negative = not (bit_and b 0x40 == 0) in
    let result = bit_or 0 (bit_and b 0x3f) in
    if bit_and b 0x80 == 0
    then ok (some (signed negative result), port)
    else read_vint_rest port negative result
