-- ===== src/Vint/Unsigned.antt =====
-- `encode_vuint` and `read_vuint` of lib/bup/vint.py, through the C encoder where that is used.
use native.Mathlib.Nat.{pow-suc}
use bup.Base.{
  ℕ, zero, suc, ◌^◌, ◌≤◌, ◌<◌, ◌≡◌, refl, sym, ◌∙◌, ◌⊎◌, inl, inr, arith, some, List, [], ◌∷◌, ◌++◌,
  ltb, if◌then◌else◌, Bool-cases, length,
}
use bup.Base.Int.{pos, negsuc}
use bup.Base.Error.{ok, err, undefined, value_error, overflow_error, eof_error, ◌>>=◌}
use bup.Vint.{
  read_loop, fits_long_long, in_buffer, vuint_encode, or_on_overflow, bup_vuint_encode,
  encode_vuint, encode_big_vuint, read_vuint,
}
use bup.Vint.Groups.{
  groups, vuint_encode_loop-eq-groups, encode_vuint_loop-eq-groups, length-groups, read_from,
  read_from-groups, read_from-cut,
}

-- The numbers that `encode_vuint` encodes: those that the C encoder's buffer holds, and those that
-- the C encoder leaves to Python.
abbrev pub IsEncodable : ℕ → Type 0
IsEncodable x = (x < 2 ^ 56) ⊎ (2 ^ 63 ≤ x)

lt-two-pow : (x : ℕ) → x < 2 ^ x
lt-two-pow zero = omega arith
lt-two-pow (suc x) = omega (arith, pow-suc 2 x, lt-two-pow x)

-- The bytes of a number: at most 64 groups if the C encoder writes them.
unfoldable pub vuint_bytes : ℕ → List ℕ
unfolding groups
vuint_bytes x = if ltb x (2 ^ 63) then groups 64 x else groups x x

bup_vuint_encode_lem :
    (x : ℕ)
    → bup_vuint_encode (pos x) ≡ (
        if ltb x (2 ^ 63)
        then (if ltb x (2 ^ 56) then ok (groups 64 x) else undefined)
        else err overflow_error)
unfolding bup_vuint_encode fits_long_long in_buffer vuint_encode
bup_vuint_encode_lem x =
    rw (vuint_encode_loop-eq-groups 64 x) (ground (arith, length-groups 7 64 x))

encode_big_vuint_lem : (x : ℕ) → 0 < x → encode_big_vuint (pos x) ≡ ok (groups x x)
unfolding encode_big_vuint
encode_big_vuint_lem zero h = absurd (omega arith)
encode_big_vuint_lem (suc x) h = rw (encode_vuint_loop-eq-groups (suc x) (suc x))

encode_vuint_negsuc : (n : ℕ) → encode_vuint (negsuc n) ≡ err value_error
unfolding encode_vuint bup_vuint_encode encode_big_vuint or_on_overflow
encode_vuint_negsuc n = elim (Bool-cases (fits_long_long (negsuc n))) [
  | inl fits ↦ rw fits
  | inr big ↦ rw big
]

-- Every branch of encode_vuint: a natural number is encoded as its seven-bit groups if it is below
-- 2^56 or at least 2^63; from 2^56 to 2^63 the C encoder writes past its buffer, which is not
-- defined; a negative number is a ValueError.
pub encode_vuint_branches :
    (x n : ℕ)
    → (encode_vuint (pos x) ≡ (
        if ltb x (2 ^ 56)
        then ok (vuint_bytes x)
        else if ltb x (2 ^ 63)
        then undefined
        else ok (vuint_bytes x)))
      × (encode_vuint (negsuc n) ≡ err value_error)
unfolding encode_vuint vuint_bytes or_on_overflow
encode_vuint_branches x n =
    (ground (arith, bup_vuint_encode_lem x, encode_big_vuint_lem x), encode_vuint_negsuc n)

pub encode_vuint_lem : (x : ℕ) → IsEncodable x → encode_vuint (pos x) ≡ ok (vuint_bytes x)
encode_vuint_lem x h = ground (arith, (encode_vuint_branches x 0).0)

read_vuint-of_value :
    (port rest : List ℕ) (x : ℕ)
    → read_from port 0 0 ≡ ok (x, rest)
    → read_vuint port ≡ ok (some x, rest)
unfolding read_vuint read_loop
read_vuint-of_value [] rest x e = cc
read_vuint-of_value (c ∷ []) rest x e = ground arith
read_vuint-of_value (c ∷ d ∷ port) rest x e = ground arith

read_vuint-of_eof :
    (c : ℕ) (port : List ℕ)
    → read_from (c ∷ port) 0 0 ≡ err eof_error
    → read_vuint (c ∷ port) ≡ err eof_error
unfolding read_vuint read_loop
read_vuint-of_eof c [] e = ground arith
read_vuint-of_eof c (d ∷ port) e = ground arith

-- `groups` with the rounds that `vuint_bytes` gives it covers the number.
pub vuint_bytes-rounds : (x : ℕ) → (f : ℕ) × (vuint_bytes x ≡ groups (suc f) x) × (x < 2 ^ suc f)
unfolding vuint_bytes
vuint_bytes-rounds zero = (63, refl, omega arith)
vuint_bytes-rounds (suc x) = elim (Bool-cases (ltb (suc x) (2 ^ 63))) [
  | inl small ↦ (63, rw small, ground arith)
  | inr big ↦ (x, rw big, lt-two-pow (suc x))
]

pub read_vuint-vuint_bytes :
    (x : ℕ) (port : List ℕ) → read_vuint (vuint_bytes x ++ port) ≡ ok (some x, port)
read_vuint-vuint_bytes x port =
    let (f, e, h) = vuint_bytes-rounds x in
    rw e (
      read_vuint-of_value (groups (suc f) x ++ port) port x
        (read_from-groups f x 0 0 port h (omega arith) ∙ ground arith))

-- read_vuint returns the number that encode_vuint encoded and leaves what follows its bytes, for a
-- number below 2^56 or from 2^63 on.
pub read_vuint-encode_vuint :
    (x : ℕ) (port : List ℕ)
    → IsEncodable x
    → (do bytes ← encode_vuint (pos x); read_vuint (bytes ++ port)) ≡ ok (some x, port)
read_vuint-encode_vuint x port h = rw (encode_vuint_lem x h) (read_vuint-vuint_bytes x port)

-- On a proper prefix of what encode_vuint wrote that is not empty, read_vuint raises EOFError.
pub read_vuint-cut :
    (x c : ℕ) (front : List ℕ) (b : ℕ) (back : List ℕ)
    → encode_vuint (pos x) ≡ ok (c ∷ front ++ b ∷ back)
    → read_vuint (c ∷ front) ≡ err eof_error
read_vuint-cut x c front b back e =
    let (f, r, h) = vuint_bytes-rounds x in
    let same : vuint_bytes x ≡ c ∷ front ++ b ∷ back =
      ground (arith, (encode_vuint_branches x 0).0) in
    read_vuint-of_eof c front (read_from-cut (suc f) x 0 0 (c ∷ front) b back (omega arith) (cc))

pub vuint_bytes_small : (x : ℕ) → x < 2 ^ 63 → vuint_bytes x ≡ groups 64 x
unfolding vuint_bytes
vuint_bytes_small x h = ground arith

pub bup_vuint_encode_small : (x : ℕ) → x < 2 ^ 56 → bup_vuint_encode (pos x) ≡ ok (vuint_bytes x)
unfolding vuint_bytes
bup_vuint_encode_small x h = ground (arith, bup_vuint_encode_lem x)

pub vuint_encode-eq-vuint_bytes : (x : ℕ) → x < 2 ^ 63 → vuint_encode x ≡ vuint_bytes x
unfolding vuint_encode
vuint_encode-eq-vuint_bytes x h = vuint_encode_loop-eq-groups 64 x ∙ sym (vuint_bytes_small x h)

bytes_some : (port : List ℕ) (x : ℕ) → read_vuint (port ++ []) ≡ ok (some x, []) → 0 < length port
unfolding read_vuint
bytes_some [] x h = cc
bytes_some (c ∷ port) x h = omega arith

pub vuint_bytes-some : (x : ℕ) → 0 < length (vuint_bytes x)
vuint_bytes-some x = bytes_some (vuint_bytes x) x (read_vuint-vuint_bytes x [])
