-- ===== src/Vint/Tests.antt =====
-- Runs of the encoders, and the theorems at concrete inputs.
use bup.Base.{◌-◌, ◌^◌, ◌≡◌, refl, inl, arith, some, List, [], ◌∷◌, ◌++◌}
use bup.Base.Int.{pos, negsuc}
use bup.Base.Error.{ok, err, undefined, eof_error, value_error, ◌>>=◌}
use bup.Vint.{
  vuint_encode_loop, vuint_encode, fits_long_long, buffer_size, in_buffer, bup_vuint_encode,
  or_on_overflow, encode_vuint, read_vuint, encode_vint, read_vint,
}
use bup.Vint.Bvec.{read_bvec, encode_bvec, skip_bvec, read_bvec-encode_bvec, skip_bvec-encode_bvec}
use bup.Vint.Pack.{int, bytes, pack, unpack, send}
use bup.Vint.Pack.Unpack.{Item, vuint, vint, bvec, formats, values, unpack-pack, send-eq-pack}
use bup.Vint.Unsigned.{encode_vuint_branches, read_vuint-encode_vuint, read_vuint-cut}
use bup.Vint.Signed.{encode_vint_branches}
use bup.Vint.ReadSigned.{read_vint-encode_vint}

encode_300 : encode_vuint (pos 300) ≡ ok (172 ∷ 2 ∷ [])
unfolding encode_vuint bup_vuint_encode fits_long_long in_buffer buffer_size vuint_encode
    vuint_encode_loop or_on_overflow
encode_300 = refl

encode_vuint_branches_example :
    (encode_vuint (pos (2 ^ 56)) ≡ undefined) × (encode_vuint (negsuc 4) ≡ err value_error)
encode_vuint_branches_example = encode_vuint_branches (2 ^ 56) 4

read_vuint-encode_vuint_example :
    (do written ← encode_vuint (pos 300); read_vuint (written ++ b'!' ∷ []))
    ≡ ok (some 300, b'!' ∷ [])
read_vuint-encode_vuint_example = read_vuint-encode_vuint 300 (b'!' ∷ []) (inl (omega arith))

read_vuint-cut_example : read_vuint (172 ∷ []) ≡ err eof_error
read_vuint-cut_example = read_vuint-cut 300 172 [] 2 [] encode_300

encode_vint_branches_example : encode_vint (negsuc (2 ^ 63 - 1)) ≡ undefined
encode_vint_branches_example = encode_vint_branches (negsuc (2 ^ 63 - 1))

read_vint-encode_vint_example :
    (do written ← encode_vint (negsuc 99); read_vint (written ++ b'!' ∷ []))
    ≡ ok (some (negsuc 99), b'!' ∷ [])
read_vint-encode_vint_example = read_vint-encode_vint (negsuc 99) (b'!' ∷ []) (inl (omega arith))

read_bvec-encode_bvec_example :
    (do written ← encode_bvec (b'a' ∷ b'b' ∷ []); read_bvec (written ++ b'!' ∷ []))
    ≡ ok (some (b'a' ∷ b'b' ∷ []), b'!' ∷ [])
read_bvec-encode_bvec_example = read_bvec-encode_bvec (b'a' ∷ b'b' ∷ []) (b'!' ∷ []) (omega arith)

skip_bvec-encode_bvec_example :
    (do written ← encode_bvec []; skip_bvec (written ++ b'!' ∷ [])) ≡ err eof_error
skip_bvec-encode_bvec_example = skip_bvec-encode_bvec [] (b'!' ∷ []) (omega arith)

abbrev fields : List Item
fields = vuint 300 ∷ vint (negsuc 4) ∷ bvec (b'a' ∷ []) ∷ []

unpack-pack_example :
    (do packed ← pack (formats fields) (values fields); unpack (formats fields) packed)
    ≡ ok (int (pos 300) ∷ int (negsuc 4) ∷ bytes (b'a' ∷ []) ∷ [])
unpack-pack_example =
    unpack-pack fields ((inl (omega arith), (inl (omega arith), (omega arith, tt))), omega arith)

send-eq-pack_example :
    (do packed ← pack (formats fields) (values fields); ok (ok tt, b'!' ∷ packed))
    ≡ ok (send (b'!' ∷ []) (formats fields) (values fields))
send-eq-pack_example =
    send-eq-pack fields (b'!' ∷ [])
      ((inl (omega arith), (inl (omega arith), (omega arith, tt))), omega arith)
