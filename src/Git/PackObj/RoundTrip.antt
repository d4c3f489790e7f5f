-- ===== src/Git/PackObj/RoundTrip.antt =====
-- What `_encode_packobj` encoded, `_decode_packobj` decodes.
use bup.Base.{
  ℕ, zero, suc, ◌+◌, ◌*◌, ◌/◌, ◌%◌, ◌^◌, ◌<◌, ◌≡◌, refl, ap, ◌∙◌, inl, inr, arith, List, [], ◌∷◌,
  ◌++◌, ◌==◌, if◌then◌else◌, length, bit_and, bit_or, bytes_eq→eq, Bool-cases,
}
use bup.Base.Int.{ℤ}
use bup.Base.Bytes.{ascii}
use bup.Base.Bits.{and_0x0f, and_0x70, and_0x7f, and_0x80, or_0x80, or-shifted}
use bup.Base.Error.{Result, ok, err, undefined, value_error, ◌>>=◌}
use bup.Git.PackObj.{
  is_level, type_bits, type_of_bits, size_loop, skip_size, encode_packobj, decode_packobj,
}

-- The first byte of a size and the bytes behind it.
record IsSize (b : ℕ) (bytes rest : List ℕ) (c : ℕ) (buf : List ℕ) : Type 0 where
  split : bytes ≡ c ∷ buf
  skips : skip_size c (buf ++ rest) ≡ ok rest
  byte : c < 256
  same : c / 16 % 8 ≡ b / 16 % 8

skip_last : (b : ℕ) (rest : List ℕ) → b < 128 → skip_size b rest ≡ ok rest
unfolding skip_size
skip_last b [] h = ground (arith, and_0x80 b)
skip_last b (d ∷ rest) h = ground (arith, and_0x80 b)

skip_inner : (b d : ℕ) (buf : List ℕ) → b < 128 → skip_size (b + 128) (d ∷ buf) ≡ skip_size d buf
unfolding skip_size
skip_inner b d buf h = ground (arith, and_0x80 (b + 128))

size_loop-IsSize :
    (fuel b sz : ℕ) (rest : List ℕ)
    → b < 128
    → sz < fuel
    → (c : ℕ) × (buf : List ℕ) × IsSize b (size_loop fuel b sz) rest c buf
unfolding size_loop
size_loop-IsSize zero b sz rest h k = absurd (omega arith)
size_loop-IsSize (suc fuel) b sz rest h k = elim (Bool-cases (sz == 0)) [
  | inl done ↦ (
    b,
    [],
    record { split = rw done; skips = skip_last b rest h; byte = omega arith; same = refl },
  )
  | inr more ↦
      let low : bit_and sz 0x7f < 128 = omega (arith, and_0x7f sz) in
      let (c, buf, s) =
        size_loop-IsSize fuel (bit_and sz 0x7f) (sz / 2 ^ 7) rest low (ground arith) in
      (
        b + 128,
        c ∷ buf,
        record {
          split = rw (more, or_0x80 b h) (ap (λ t. (b + 128) ∷ t) s.split);
          skips = skip_inner b c (buf ++ rest) h ∙ s.skips;
          byte = omega arith;
          same = omega arith;
        },
      )
]

type_of_bits-type_bits :
    (type : List ℕ) (bits : ℕ)
    → type_bits type ≡ ok bits
    → (bits < 8) × (type_of_bits bits ≡ ok type)
unfolding type_bits type_of_bits
type_of_bits-type_bits type bits e = ground (
  arith,
  bytes_eq→eq type (ascii "blob"),
  bytes_eq→eq type (ascii "tree"),
  bytes_eq→eq type (ascii "commit"),
  bytes_eq→eq type (ascii "tag"),
)

module _ (compress : ℤ → List ℕ → List ℕ) (decompress : List ℕ → Result (List ℕ)) (level : ℤ)
    (content : List ℕ) (inverse : decompress (compress level content) ≡ ok content) where
  first_bits : ℕ → ℕ
  first_bits bits = bit_or (bit_and (length content) 0x0f) (bits * 2 ^ 4)

  first_bits_lem : (bits : ℕ) → first_bits bits ≡ length content % 16 + bits * 16
  unfolding first_bits
  first_bits_lem bits =
      rw (and_0x0f (length content)) (or-shifted 4 bits (length content % 16) (omega arith))

  packed_with : Result ℕ → Result (List ℕ)
  packed_with type_bits = do
    bits ← type_bits
    ok (
        size_loop (suc (length content)) (first_bits bits) (length content / 2 ^ 4)
        ++ compress level content)

  decode_with :
      (bits : ℕ) (type : List ℕ)
      → bits < 8
      → type_of_bits bits ≡ ok type
      → decode_packobj compress decompress (
          size_loop (suc (length content)) (first_bits bits) (length content / 2 ^ 4)
          ++ compress level content)
        ≡ ok (type, content)
  unfolding decode_packobj
  decode_with bits type h e =
      let small : first_bits bits < 128 = omega (arith, first_bits_lem bits) in
      let (c, buf, s) =
        size_loop-IsSize (suc (length content)) (first_bits bits) (length content / 2 ^ 4)
          (compress level content) small (omega arith) in
      let found : bit_and c 0x70 / 2 ^ 4 ≡ bits =
        and_0x70 c s.byte ∙ (s.same ∙ omega (arith, first_bits_lem bits)) in
      rw (s.split, found, e, s.skips, inverse)

  decode_found :
      (type : List ℕ) (bits : Result ℕ)
      → type_bits type ≡ bits
      → (do buf ← packed_with bits; decode_packobj compress decompress buf)
        ≡ (do b ← bits; ok (type, content))
  unfolding packed_with
  decode_found type (ok bits) e =
      let (small, back) = type_of_bits-type_bits type bits e in decode_with bits type small back
  decode_found type (err x) e = refl
  decode_found type undefined e = refl

  -- If decompressing undoes the compressing of the content, then decoding what _encode_packobj
  -- encoded gives the type and the content for each of the four types; for a compression level
  -- outside of -1 to 9 there is a ValueError and for another type a KeyError.
  pub decode_packobj-encode_packobj :
      (type : List ℕ)
      → (do
        buf ← encode_packobj compress decompress type content level
        decode_packobj compress decompress buf)
        ≡ (if is_level level
            then (do bits ← type_bits type; ok (type, content))
            else err value_error)
  unfolding encode_packobj packed_with first_bits
  decode_packobj-encode_packobj type = elim (Bool-cases (is_level level)) [
    | inl valid ↦ rw valid (decode_found type (type_bits type) refl)
    | inr other ↦ rw other
  ]
