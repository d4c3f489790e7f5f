-- ===== src/Vint/Pack/Unpack.antt =====
-- What `pack` and `send` write, `unpack` and `recv` read back.
use bup.Base.{
  ℕ, suc, ◌-◌, ◌*◌, ◌^◌, ◌≤◌, ◌<◌, ◌≡◌, refl, ◌∙◌, sym, ap, arith, Bool, true, false, some, List,
  [], ◌∷◌, ◌++◌, ltb, ◌==◌, length, All, append_assoc, append-nil, length-append, ==_iff,
  Bool-cases, ◌⊎◌, inl, inr,
}
use mathlib.Core.List.{map}
use bup.Base.Int.{ℤ, pos, negsuc, abs}
use bup.Base.Error.{Result, ok, err, overflow_error, ◌>>=◌}
use bup.Vint.{fits_long_long, or_on_overflow}
use bup.Vint.Unsigned.{vuint_bytes, vuint_bytes-some}
use bup.Vint.Unsigned
use bup.Vint.Signed
use bup.Vint.ReadSigned
use bup.Vint.Bvec
use bup.Vint.Signed.{vint_bytes}
use bup.Vint.Bvec.{bvec_bytes}
use bup.Vint.Pack.{
  Value, int, bytes, vuint_item, vint_item, bvec_item, some_int, some_signed, some_bytes, present,
  pack_item, limited_pack_loop, limited_vint_pack, encode_item, pack_loop, pack, send_loop, send,
  decode, recv, unpack,
}

-- A value that suits its format character.
pub data Item : Type 0 where
  vuint : ℕ → Item
  vint : ℤ → Item
  bvec : List ℕ → Item

abbrev pub format : Item → ℕ
format (vuint n) = b'V'
format (vint x) = b'v'
format (bvec x) = b's'

abbrev pub value : Item → Value
value (vuint n) = int (pos n)
value (vint x) = int x
value (bvec x) = bytes x

abbrev pub IsEncodable : Item → Type 0
IsEncodable (vuint n) = Unsigned.IsEncodable n
IsEncodable (vint x) = Signed.IsEncodable x
IsEncodable (bvec x) = length x < 2 ^ 56

abbrev pub formats : List Item → List ℕ
formats = map format

abbrev pub values : List Item → List Value
values = map value

unfoldable pub item_bytes : Item → List ℕ
item_bytes (vuint n) = vuint_bytes n
item_bytes (vint x) = vint_bytes (Signed.is_negative x) (abs x)
item_bytes (bvec x) = bvec_bytes x

unfoldable pub all_bytes : List Item → List ℕ
all_bytes [] = []
all_bytes (i ∷ is) = item_bytes i ++ all_bytes is

encode_item_lem : (i : Item) → IsEncodable i → encode_item (format i) (value i) ≡ ok (item_bytes i)
unfolding encode_item item_bytes
encode_item_lem (vuint n) h = Unsigned.encode_vuint_lem n h
encode_item_lem (vint x) h = Signed.encode_vint_lem x h
encode_item_lem (bvec x) h = Bvec.encode_bvec_lem x h

pack_loop_lem :
    (is : List Item) → All IsEncodable is → pack_loop (formats is) (values is) ≡ ok (all_bytes is)
unfolding pack_loop all_bytes
pack_loop_lem [] h = refl
pack_loop_lem (i ∷ is) (h, hs) = rw (encode_item_lem i h, pack_loop_lem is hs)

decode-item_bytes :
    (i : Item) (port : List ℕ)
    → decode (format i) (item_bytes i ++ port) ≡ ok (some (value i), port)
unfolding decode item_bytes some_int some_signed some_bytes
decode-item_bytes (vuint n) port = rw (Unsigned.read_vuint-vuint_bytes n port)
decode-item_bytes (vint x) port = rw (ReadSigned.read_vint-written x port)
decode-item_bytes (bvec x) port = rw (Bvec.read_bvec-bvec_bytes x port)

recv-all_bytes :
    (is : List Item) (port : List ℕ)
    → recv (all_bytes is ++ port) (formats is) ≡ ok (values is, port)
unfolding recv all_bytes present
recv-all_bytes [] port = refl
recv-all_bytes (i ∷ is) port = rw (
  append_assoc (item_bytes i) (all_bytes is) port,
  decode-item_bytes i (all_bytes is ++ port),
  recv-all_bytes is port,
)

-- An item is written by the C packer as by Python, or the packer gives up.
Packs : Item → Result (List ℕ × Bool) → Type 0
Packs i r = (r ≡ ok (item_bytes i, false)) ⊎ (r ≡ err overflow_error)

pack_item-vuint :
    (n room : ℕ) → IsEncodable (vuint n) → Packs (vuint n) (vuint_item (pos n) room false)
unfolding Packs vuint_item item_bytes fits_long_long
pack_item-vuint n room h = elim (Bool-cases (ltb n (2 ^ 63))) [
  | inl small ↦ rw (small, Unsigned.vuint_encode-eq-vuint_bytes n (ground arith)) (ground arith)
  | inr big ↦ rw big (inr refl)
]

fits-eq : (x : ℤ) → IsEncodable (vint x) → fits_long_long x ≡ ltb (abs x) (2 ^ 63)
unfolding fits_long_long
fits-eq (pos n) h = refl
fits-eq (negsuc n) h = ground arith

pack_item-vint : (x : ℤ) (room : ℕ) → IsEncodable (vint x) → Packs (vint x) (vint_item x room false)
unfolding Packs vint_item item_bytes
pack_item-vint x room h = elim (Bool-cases (ltb (abs x) (2 ^ 63))) [
  | inl small ↦ rw (fits-eq x h, small, Signed.vint_encode_lem x (ground arith)) (ground arith)
  | inr big ↦ rw (fits-eq x h, big) (inr refl)
]

pack_item-bvec :
    (x : List ℕ) (room : ℕ) → IsEncodable (bvec x) → Packs (bvec x) (bvec_item x room false)
unfolding Packs bvec_item item_bytes bvec_bytes
pack_item-bvec x room h =
    rw (Unsigned.vuint_encode-eq-vuint_bytes (length x) (omega arith)) (ground arith)

pack_item_lem :
    (i : Item) (room : ℕ) → IsEncodable i → Packs i (pack_item (format i) (value i) room false)
unfolding pack_item
pack_item_lem (vuint n) room h = pack_item-vuint n room h
pack_item_lem (vint x) room h = pack_item-vint x room h
pack_item_lem (bvec x) room h = pack_item-bvec x room h

limited_pack_loop_lem :
    (is : List Item) (room : ℕ)
    → All IsEncodable is
    → (limited_pack_loop (formats is) (values is) room false ≡ ok (all_bytes is))
      ⊎ (limited_pack_loop (formats is) (values is) room false ≡ err overflow_error)
unfolding limited_pack_loop all_bytes Packs
limited_pack_loop_lem [] room h = inl refl
limited_pack_loop_lem (i ∷ is) room (h, hs) = elim (pack_item_lem i room h) [
  | inr full ↦ inr (rw full)
  | inl written ↦ elim (limited_pack_loop_lem is (room - length (item_bytes i)) hs) [
    | inl rest ↦ inl (rw (written, rest))
    | inr full ↦ inr (rw (written, full))
  ]
]

length-formats : (is : List Item) → length (values is) ≡ length (formats is)
length-formats [] = refl
length-formats (i ∷ is) = ap suc (length-formats is)

-- `pack` takes no more than 107374182 arguments.
abbrev pub AreEncodable : List Item → Type 0
AreEncodable is = All IsEncodable is × (length (values is) ≤ 107374182)

limited_vint_pack_lem :
    (is : List Item)
    → AreEncodable is
    → limited_vint_pack (formats is) (values is)
      ≡ limited_pack_loop (formats is) (values is) (length (values is) * 20) false
unfolding limited_vint_pack
limited_vint_pack_lem is h =
    let same : (length (values is) == length (formats is)) ≡ true =
      (==_iff _ _).1 (length-formats is) in
    rw same (ground arith)

pub pack_lem :
    (is : List Item) → AreEncodable is → pack (formats is) (values is) ≡ ok (all_bytes is)
unfolding pack or_on_overflow
pack_lem is h = elim (limited_pack_loop_lem is (length (values is) * 20) h.0) [
  | inl done ↦ rw (limited_vint_pack_lem is h, done)
  | inr full ↦ rw (limited_vint_pack_lem is h, full) (pack_loop_lem is h.0)
]

pub unpack-all_bytes : (is : List Item) → unpack (formats is) (all_bytes is) ≡ ok (values is)
unfolding unpack
unpack-all_bytes is = rw (← append-nil (all_bytes is), recv-all_bytes is [])

-- unpack returns the values that pack encoded, whichever of the C packer and the Python loop wrote
-- them, for at most 107374182 values that their formats can encode.
pub unpack-pack :
    (is : List Item)
    → AreEncodable is
    → (do packed ← pack (formats is) (values is); unpack (formats is) packed) ≡ ok (values is)
unpack-pack is h = rw (pack_lem is h) (unpack-all_bytes is)

send_loop_lem :
    (is : List Item) (port : List ℕ)
    → All IsEncodable is
    → send_loop port (formats is) (values is) ≡ (ok tt, port ++ all_bytes is)
unfolding send_loop all_bytes
send_loop_lem [] port h = rw append-nil
send_loop_lem (i ∷ is) port (h, hs) =
    rw (encode_item_lem i h, send_loop)
      (send_loop_lem is (port ++ item_bytes i) hs
        ∙ ap (λ (t : List ℕ). (ok tt, t)) (append_assoc port (item_bytes i) (all_bytes is)))

-- send puts behind the bytes of the port exactly what pack returns, for at most 107374182 values
-- that their formats can encode.
pub send-eq-pack :
    (is : List Item) (port : List ℕ)
    → AreEncodable is
    → (do packed ← pack (formats is) (values is); ok (ok tt, port ++ packed))
      ≡ ok (send port (formats is) (values is))
unfolding send
send-eq-pack is port h =
    let same : (length (formats is) == length (values is)) ≡ true =
      (==_iff _ _).1 (sym (length-formats is)) in
    rw (pack_lem is h, same, send_loop_lem is port h.0)

item_bytes-some : (i : Item) → 0 < length (item_bytes i)
unfolding item_bytes bvec_bytes vint_bytes
item_bytes-some (vuint n) = vuint_bytes-some n
item_bytes-some (vint x) = ground arith
item_bytes-some (bvec x) =
    omega (arith, length-append (vuint_bytes (length x)) x, vuint_bytes-some (length x))

pub all_bytes-some : (i : Item) (is : List Item) → 0 < length (all_bytes (i ∷ is))
unfolding all_bytes
all_bytes-some i is = omega (arith, length-append (item_bytes i) (all_bytes is), item_bytes-some i)
