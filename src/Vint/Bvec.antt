-- ===== src/Vint/Bvec.antt =====
-- Byte vectors of lib/bup/vint.py: a length, then the bytes.
use bup.Base.{
  ℕ, ◌<◌, ◌^◌, ◌≡◌, Option, none, some, List, ◌++◌, append_assoc, ◌==◌, if◌then◌else◌, length, take,
  drop, take-length_append, drop-length_append, ==_refl,
}
use bup.Base.Int.{pos}
use bup.Base.Error.{Result, ok, err, eof_error, ◌>>=◌}
use bup.Vint.{bup_vuint_encode, read_vuint}
use bup.Vint.Unsigned.{vuint_bytes, bup_vuint_encode_small, read_vuint-vuint_bytes}

-- `val = port.read(n)` and its test, after `n = read_vuint(port)`.
read_bvec_rest : Option ℕ → List ℕ → Result (Option (List ℕ) × List ℕ)
read_bvec_rest none port = ok (none, port)
read_bvec_rest (some n) port =
    if length (take n port) == n then ok (some (take n port), drop n port) else err eof_error

pub read_bvec : List ℕ → Result (Option (List ℕ) × List ℕ)
read_bvec port = do (n, rest) ← read_vuint port; read_bvec_rest n rest

pub encode_bvec : List ℕ → Result (List ℕ)
encode_bvec x = do n ← bup_vuint_encode (pos (length x)); ok (n ++ x)

-- The port is what is left of it; a short read is not noticed.
skip_bvec_rest : Option ℕ → List ℕ → Result (List ℕ)
skip_bvec_rest none port = err eof_error
skip_bvec_rest (some n) port = if length (take n port) == 0 then err eof_error else ok (drop n port)

pub skip_bvec : List ℕ → Result (List ℕ)
skip_bvec port = do (n, rest) ← read_vuint port; skip_bvec_rest n rest

unfoldable pub bvec_bytes : List ℕ → List ℕ
bvec_bytes x = vuint_bytes (length x) ++ x

pub encode_bvec_lem : (x : List ℕ) → length x < 2 ^ 56 → encode_bvec x ≡ ok (bvec_bytes x)
unfolding encode_bvec bvec_bytes
encode_bvec_lem x h = rw (bup_vuint_encode_small (length x) h)

pub read_bvec-bvec_bytes : (x port : List ℕ) → read_bvec (bvec_bytes x ++ port) ≡ ok (some x, port)
unfolding read_bvec read_bvec_rest bvec_bytes
read_bvec-bvec_bytes x port = rw (
  append_assoc (vuint_bytes (length x)) x port,
  read_vuint-vuint_bytes (length x) (x ++ port),
  take-length_append x port,
  drop-length_append x port,
  ==_refl (length x),
)

-- read_bvec returns the bytes that encode_bvec encoded, fewer than 2^56, and leaves what follows
-- them.
pub read_bvec-encode_bvec :
    (x port : List ℕ)
    → length x < 2 ^ 56
    → (do bytes ← encode_bvec x; read_bvec (bytes ++ port)) ≡ ok (some x, port)
read_bvec-encode_bvec x port h = rw (encode_bvec_lem x h) (read_bvec-bvec_bytes x port)

-- skip_bvec passes over an encoded byte vector of fewer than 2^56 bytes if it is not empty, and
-- raises EOFError at an empty one, whatever follows it.
pub skip_bvec-encode_bvec :
    (x port : List ℕ)
    → length x < 2 ^ 56
    → (do bytes ← encode_bvec x; skip_bvec (bytes ++ port))
      ≡ (if length x == 0 then err eof_error else ok port)
unfolding skip_bvec skip_bvec_rest bvec_bytes
skip_bvec-encode_bvec x port h = rw (
  encode_bvec_lem x h,
  append_assoc (vuint_bytes (length x)) x port,
  read_vuint-vuint_bytes (length x) (x ++ port),
  take-length_append x port,
  drop-length_append x port,
)
