-- ===== src/Git/PackObj.antt =====
-- `_encode_packobj` and `_decode_packobj` of lib/bup/git.py: an object in a pack is its type and size
-- in groups of bits, and its compressed content. `compress` and `decompress` are zlib's.
pub mod RoundTrip
use bup.Base.{
  ℕ, zero, suc, ◌+◌, ◌*◌, ◌/◌, ◌%◌, ◌^◌, Bool, true, false, not, List, [], ◌∷◌, ◌++◌, ◌==◌,
  if◌then◌else◌, length, bit_and, bit_or, leb, bytes_eq,
}
use bup.Base.Int.{ℤ, pos, negsuc}
use bup.Base.Bytes.{ascii}
use bup.Base.Error.{Result, ok, err, value_error, key_error, index_error, assertion_error, ◌>>=◌}

-- compression_level in range(-1, 10)
pub is_level : ℤ → Bool
is_level (pos n) = leb n 9
is_level (negsuc n) = n == 0

-- _typemap
pub type_bits : List ℕ → Result ℕ
type_bits type =
    if bytes_eq type (ascii "blob")
    then ok 3
    else if bytes_eq type (ascii "tree")
    then ok 2
    else if bytes_eq type (ascii "commit")
    then ok 1
    else if bytes_eq type (ascii "tag")
    then ok 4
    else err key_error

-- _typermap
pub type_of_bits : ℕ → Result (List ℕ)
type_of_bits bits =
    if bits == 3
    then ok (ascii "blob")
    else if bits == 2
    then ok (ascii "tree")
    else if bits == 1
    then ok (ascii "commit")
    else if bits == 4
    then ok (ascii "tag")
    else err key_error

-- The `while 1`: `sz` is what is left of the size.
pub size_loop : ℕ → ℕ → ℕ → List ℕ
size_loop zero szbits sz = []
size_loop (suc fuel) szbits sz =
    let rest = size_loop fuel (bit_and sz 0x7f) (sz / 2 ^ 7) in
    if sz == 0 then szbits ∷ [] else bit_or 0x80 szbits ∷ rest

-- The `while c & 0x80`, with what follows `c`. The size that it computes is not used.
pub skip_size : ℕ → List ℕ → Result (List ℕ)
skip_size c [] = if bit_and c 0x80 == 0 then ok [] else err index_error
skip_size c (d ∷ buf) =
    let more = skip_size d buf in if bit_and c 0x80 == 0 then ok (d ∷ buf) else more

module _ (compress : ℤ → List ℕ → List ℕ) (decompress : List ℕ → Result (List ℕ)) where
  -- Joined, as the store writes it.
  pub encode_packobj : List ℕ → List ℕ → ℤ → Result (List ℕ)
  encode_packobj type content compression_level =
      if not (is_level compression_level) then err value_error else do
        bits ← type_bits type
        let szbits = bit_or (bit_and (length content) 0x0f) (bits * 2 ^ 4)
        ok (
            size_loop (suc (length content)) szbits (length content / 2 ^ 4)
            ++ compress compression_level content)

  pub decode_packobj : List ℕ → Result (List ℕ × List ℕ)
  decode_packobj [] = err assertion_error
  decode_packobj (c ∷ buf) = do
    type ← type_of_bits (bit_and c 0x70 / 2 ^ 4)
    rest ← skip_size c buf
    content ← decompress rest
    ok (type, content)
