-- ===== src/Vint/Pack.antt =====
-- `send`, `recv`, `pack` and `unpack` of lib/bup/vint.py, and the C `limited_vint_pack` that `pack`
-- tries first (lib/bup/_helpers.c). Format characters are code points.
pub mod Unpack
use bup.Base.{
  ℕ, suc, ◌+◌, ◌-◌, ◌*◌, ◌/◌, ◌^◌, Bool, true, false, Option, none, some, List, [], ◌∷◌, ◌++◌, ltb,
  ◌==◌, if◌then◌else◌, length, not,
}
use bup.Base.Int.{ℤ, pos, negsuc}
use bup.Base.Error.{
  Result, ok, err, undefined, value_error, overflow_error, eof_error, type_error, system_error,
  exception, ◌>>=◌,
}
use bup.Vint.{
  vuint_encode, vint_encode, fits_long_long, encode_vuint, encode_vint, or_on_overflow, read_vuint,
  read_vint,
}
use bup.Vint.Bvec.{encode_bvec, read_bvec}

-- The Python values that the formats take.
pub data Value : Type 0 where
  int : ℤ → Value
  bytes : List ℕ → Value

-- The bytes that one item of `limited_vint_pack` writes, and whether a ValueError is pending in the
-- interpreter. `room` is `end - pos`.
pub vuint_item : ℤ → ℕ → Bool → Result (List ℕ × Bool)
vuint_item (pos n) room pending =
    if not (fits_long_long (pos n))
    then err overflow_error
    else if ltb room 10
    then err overflow_error
    else ok (vuint_encode n, pending)
vuint_item (negsuc n) room pending =
    if not (fits_long_long (negsuc n))
    then err overflow_error
    else if (if n == 0 then pending else false)
    then err overflow_error
    else if ltb room 10
    then err overflow_error
    else ok ([], true)

is_minus_one : ℤ → Bool
is_minus_one (pos n) = false
is_minus_one (negsuc n) = n == 0

pub vint_item : ℤ → ℕ → Bool → Result (List ℕ × Bool)
vint_item x room pending =
    if not (fits_long_long x)
    then err overflow_error
    else if (if is_minus_one x then pending else false)
    then err overflow_error
    else if ltb room 10
    then err overflow_error
    else (do written ← vint_encode x; ok (written, pending))

pub bvec_item : List ℕ → ℕ → Bool → Result (List ℕ × Bool)
bvec_item x room pending =
    if ltb room 10
    then err overflow_error
    else if ltb (room - length (vuint_encode (length x))) (length x)
    then err overflow_error
    else ok (vuint_encode (length x) ++ x, pending)

-- `PyLong_AsLongLong` fails on bytes, and the failure is reported as an OverflowError;
-- `PyBytes_AsString` leaves its TypeError.
pub pack_item : ℕ → Value → ℕ → Bool → Result (List ℕ × Bool)
pack_item t (int x) room pending =
    if t == b'V'
    then vuint_item x room pending
    else if t == b'v'
    then vint_item x room pending
    else if t == b's'
    then err type_error
    else err value_error
pack_item t (bytes x) room pending =
    if t == b'V'
    then err overflow_error
    else if t == b'v'
    then err overflow_error
    else if t == b's'
    then bvec_item x room pending
    else err value_error

-- A result that is returned with an error pending is a SystemError.
pub limited_pack_loop : List ℕ → List Value → ℕ → Bool → Result (List ℕ)
limited_pack_loop (t ∷ fmt) (v ∷ args) room pending = do
  (written, pending') ← pack_item t v room pending
  rest ← limited_pack_loop fmt args (room - length written) pending'
  ok (written ++ rest)
limited_pack_loop _ _ room pending = if pending then err system_error else ok []

-- `INT_MAX` is 2^31 - 1.
pub limited_vint_pack : List ℕ → List Value → Result (List ℕ)
limited_vint_pack fmt args =
    if not (length args == length fmt)
    then err exception
    else if ltb ((2 ^ 31 - 1) / 20) (length args)
    then err exception
    else limited_pack_loop fmt args (length args * 20) false

-- One round of the loops of `send` and `pack`: what is written for a value.
pub encode_item : ℕ → Value → Result (List ℕ)
encode_item t (int x) =
    if t == b'V'
    then encode_vuint x
    else if t == b'v'
    then encode_vint x
    else if t == b's'
    then err type_error
    else err value_error
encode_item t (bytes x) =
    if t == b'V'
    then err type_error
    else if t == b'v'
    then err type_error
    else if t == b's'
    then encode_bvec x
    else err value_error

-- The loop of `pack` after an OverflowError, over `zip(types, args)`.
pub pack_loop : List ℕ → List Value → Result (List ℕ)
pack_loop (t ∷ types) (v ∷ args) = do
  ret ← encode_item t v
  rest ← pack_loop types args
  ok (ret ++ rest)
pack_loop _ _ = ok []

-- The `assert` on the lengths follows the same test in C, which raises no OverflowError.
pub pack : List ℕ → List Value → Result (List ℕ)
pack types args = or_on_overflow (limited_vint_pack types args) (pack_loop types args)

-- What was written to the port before an error stays written.
pub send_loop : List ℕ → List ℕ → List Value → Result (Unit {0}) × List ℕ
send_loop port (t ∷ types) (v ∷ args) = elim (encode_item t v) [
  | ok ret ↦ send_loop (port ++ ret) types args
  | err e ↦ (err e, port)
  | undefined ↦ (undefined, port)
]
send_loop port _ _ = (ok tt, port)

pub send : List ℕ → List ℕ → List Value → Result (Unit {0}) × List ℕ
send port types args =
    if not (length types == length args) then (err value_error, port) else send_loop port types args

-- `decode(port)` for one format character.
pub some_int : Option ℕ → Option Value
some_int none = none
some_int (some n) = some (int (pos n))

pub some_signed : Option ℤ → Option Value
some_signed none = none
some_signed (some x) = some (int x)

pub some_bytes : Option (List ℕ) → Option Value
some_bytes none = none
some_bytes (some x) = some (bytes x)

pub decode : ℕ → List ℕ → Result (Option Value × List ℕ)
decode type port =
    if type == b'V'
    then (do (x, rest) ← read_vuint port; ok (some_int x, rest))
    else if type == b'v'
    then (do (x, rest) ← read_vint port; ok (some_signed x, rest))
    else if type == b's'
    then (do (x, rest) ← read_bvec port; ok (some_bytes x, rest))
    else err value_error

-- `if x is None: raise EOFError`
pub present : Option Value → Result Value
present none = err eof_error
present (some x) = ok x

pub recv : List ℕ → List ℕ → Result (List Value × List ℕ)
recv port [] = ok ([], port)
recv port (type ∷ types) = do
  (found, port') ← decode type port
  x ← present found
  (result, rest) ← recv port' types
  ok (x ∷ result, rest)

pub unpack : List ℕ → List ℕ → Result (List Value)
unpack types data_bytes = do (result, rest) ← recv data_bytes types; ok result
