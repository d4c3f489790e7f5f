-- ===== src/Base/Struct.antt =====
-- struct.pack and struct.unpack of Python for formats that begin with `!`: big endian, without
-- padding.
use Prim.Native.Nat.{ℕ, zero, suc, ◌+◌, ◌*◌, ◌-◌, ◌/◌, ◌%◌, ◌^◌, ◌<◌}
use mathlib.Core.Path.{◌≡◌, refl}
use mathlib.Core.Logic.{inl, inr}
use mathlib.Core.Bool.{true, false}
use mathlib.Core.List.{List, [], ◌∷◌, ◌++◌}
use native.Mathlib.Omega.{arith}
use native.Mathlib.Nat.{pow-suc}
use bup.Base.Tests.{==_iff, ltb, ◌==◌, if◌then◌else◌, Bool-cases}
use bup.Base.Error.{Result, ok, err, struct_error, ◌>>=◌, IfOk, IfOk-bind, IfOk-ok}
use bup.Base.Int.{ℤ, pos, negsuc}
use bup.Base.Hex.{replicate}
use bup.Base.Lists.{length, take, drop, length-append, take-length_append, drop-length_append}
use bup.Base.Bytes.{big_endian}

-- A format character with its size: `B H I Q`, `b h i q`, or `s`.
pub data Format : Type 0 where
  unsigned : ℕ → Format
  signed : ℕ → Format
  string : ℕ → Format

pub data Value : Type 0 where
  int : ℤ → Value
  bytes : List ℕ → Value

abbrev pub size_of : Format → ℕ
size_of (unsigned k) = k
size_of (signed k) = k
size_of (string k) = k

-- struct.calcsize
abbrev pub calcsize : List Format → ℕ
calcsize [] = 0
calcsize (f ∷ fmt) = size_of f + calcsize fmt

unfoldable pub be_bytes : ℕ → ℕ → List ℕ
be_bytes zero n = []
be_bytes (suc k) n = be_bytes k (n / 256) ++ n % 256 ∷ []

unfoldable pub pack_value : Format → Value → Result (List ℕ)
pack_value (unsigned k) (int (pos n)) =
    if ltb n (256 ^ k) then ok (be_bytes k n) else err struct_error
pack_value (unsigned k) (int (negsuc n)) = err struct_error
pack_value (signed k) (int (pos n)) =
    if ltb (n * 2) (256 ^ k) then ok (be_bytes k n) else err struct_error
pack_value (signed k) (int (negsuc n)) =
    if ltb (n * 2) (256 ^ k) then ok (be_bytes k (256 ^ k - 1 - n)) else err struct_error
pack_value (string k) (bytes b) = ok (take k (b ++ replicate k 0))
pack_value (unsigned k) (bytes b) = err struct_error
pack_value (signed k) (bytes b) = err struct_error
pack_value (string k) (int x) = err struct_error

unfoldable pub pack : List Format → List Value → Result (List ℕ)
pack [] [] = ok []
pack (f ∷ fmt) (v ∷ values) = do
  packed ← pack_value f v
  rest ← pack fmt values
  ok (packed ++ rest)
pack [] (v ∷ values) = err struct_error
pack (f ∷ fmt) [] = err struct_error

unfoldable pub to_signed : ℕ → ℕ → ℤ
to_signed k n = if ltb (n * 2) (256 ^ k) then pos n else negsuc (256 ^ k - 1 - n)

unfoldable pub unpack_value : Format → List ℕ → Value
unpack_value (unsigned k) b = int (pos (big_endian 0 b))
unpack_value (signed k) b = int (to_signed k (big_endian 0 b))
unpack_value (string k) b = bytes b

unfoldable pub unpack_loop : List Format → List ℕ → List Value
unpack_loop [] b = []
unpack_loop (f ∷ fmt) b = unpack_value f (take (size_of f) b) ∷ unpack_loop fmt (drop (size_of f) b)

-- struct.unpack
unfoldable pub unpack : List Format → List ℕ → Result (List Value)
unpack fmt b = if length b == calcsize fmt then ok (unpack_loop fmt b) else err struct_error

-- Strings of their format's length, and formats of some length.
abbrev pub IsExact : Format → Value → Type 0
IsExact (string k) (bytes b) = length b ≡ k
IsExact (string k) (int x) = Unit
IsExact (unsigned k) v = Unit
IsExact (signed k) v = 0 < k

abbrev pub AreExact : List Format → List Value → Type 0
AreExact (f ∷ fmt) (v ∷ values) = IsExact f v × AreExact fmt values
AreExact _ _ = Unit

big_endian-append :
    (a b : ℕ) (xs : List ℕ) → big_endian a (xs ++ b ∷ []) ≡ big_endian a xs * 256 + b
big_endian-append a b [] = refl
big_endian-append a b (x ∷ xs) = big_endian-append (a * 256 + x) b xs

length-be_bytes : (k n : ℕ) → length (be_bytes k n) ≡ k
unfolding be_bytes
length-be_bytes zero n = refl
length-be_bytes (suc k) n =
    omega (arith, length-append (be_bytes k (n / 256)) (n % 256 ∷ []), length-be_bytes k (n / 256))

big_endian-be_bytes : (k n : ℕ) → n < 256 ^ k → big_endian 0 (be_bytes k n) ≡ n
unfolding be_bytes
big_endian-be_bytes zero n h = omega arith
big_endian-be_bytes (suc k) n h =
    let less : n / 256 < 256 ^ k = omega (arith, pow-suc 256 k) in
    rw (big_endian-append 0 (n % 256) (be_bytes k (n / 256)), big_endian-be_bytes k (n / 256) less)
      (omega arith)

-- The bytes of a value in a format.
Reads : Format → Value → List ℕ → Type 0
Reads f v b = (length b ≡ size_of f) × (unpack_value f b ≡ v)

Reads-unsigned : (k n : ℕ) → n < 256 ^ k → Reads (unsigned k) (int (pos n)) (be_bytes k n)
unfolding Reads unpack_value
Reads-unsigned k n h = (length-be_bytes k n, rw (big_endian-be_bytes k n h) refl)

Reads-signed : (k n : ℕ) → n < 256 ^ k → Reads (signed k) (int (to_signed k n)) (be_bytes k n)
unfolding Reads unpack_value
Reads-signed k n h = (length-be_bytes k n, rw (big_endian-be_bytes k n h) refl)

to_signed-pos : (k n : ℕ) → ltb (n * 2) (256 ^ k) ≡ true → to_signed k n ≡ pos n
unfolding to_signed
to_signed-pos k n h = rw h refl

to_signed-negsuc :
    (k n : ℕ) → 0 < k → ltb (n * 2) (256 ^ k) ≡ true → to_signed k (256 ^ k - 1 - n) ≡ negsuc n
unfolding to_signed
to_signed-negsuc zero n p h = absurd (omega arith)
to_signed-negsuc (suc k) n p h =
    let even : 256 ^ suc k ≡ 256 ^ k * 256 = pow-suc 256 k in
    let far : ltb ((256 ^ suc k - 1 - n) * 2) (256 ^ suc k) ≡ false = ground (arith, even) in
    let back : 256 ^ suc k - 1 - (256 ^ suc k - 1 - n) ≡ n = ground arith in rw (far, back) refl

take-exact : (x y : List ℕ) → take (length x) (x ++ y) ≡ x
take-exact = take-length_append

pack_value_lem : (f : Format) (v : Value) → IsExact f v → IfOk (Reads f v) (pack_value f v)
unfolding pack_value Reads unpack_value
pack_value_lem (unsigned k) (int (pos n)) e = elim (Bool-cases (ltb n (256 ^ k))) [
  | inl fits ↦ rw fits (Reads-unsigned k n (ground arith))
  | inr big ↦ rw big tt
]
pack_value_lem (unsigned k) (int (negsuc n)) e = tt
pack_value_lem (signed k) (int (pos n)) e = elim (Bool-cases (ltb (n * 2) (256 ^ k))) [
  | inl fits ↦ rw (fits, ← to_signed-pos k n fits) (Reads-signed k n (ground arith))
  | inr big ↦ rw big tt
]
pack_value_lem (signed k) (int (negsuc n)) e = elim (Bool-cases (ltb (n * 2) (256 ^ k))) [
  | inl fits ↦
      rw (fits, ← to_signed-negsuc k n e fits) (Reads-signed k (256 ^ k - 1 - n) (ground arith))
  | inr big ↦ rw big tt
]
pack_value_lem (string k) (bytes x) e =
    let all : take k (x ++ replicate k 0) ≡ x = rw (← e) (take-exact x (replicate (length x) 0)) in
    rw all (e, refl)
pack_value_lem (unsigned k) (bytes x) e = tt
pack_value_lem (signed k) (bytes x) e = tt
pack_value_lem (string k) (int x) e = tt

-- The packed values are as long as calcsize says, and unpack to the values.
abbrev pub ReadsAll : List Format → List Value → List ℕ → Type 0
ReadsAll fmt values b = (length b ≡ calcsize fmt) × (unpack_loop fmt b ≡ values)

Reads-then :
    (f : Format) (v : Value) (fmt : List Format) (values : List Value) (b rest : List ℕ)
    → Reads f v b
    → ReadsAll fmt values rest
    → ReadsAll (f ∷ fmt) (v ∷ values) (b ++ rest)
unfolding Reads unpack_loop
Reads-then f v fmt values b rest (l, u) (m, w) =
    let front : take (size_of f) (b ++ rest) ≡ b = rw (← l) (take-length_append b rest) in
    let back : drop (size_of f) (b ++ rest) ≡ rest = rw (← l) (drop-length_append b rest) in
    (omega (arith, length-append b rest), rw (front, back, u, w) refl)

pack_all :
    (fmt : List Format) (values : List Value)
    → AreExact fmt values
    → IfOk (ReadsAll fmt values) (pack fmt values)
unfolding pack unpack_loop
pack_all [] [] e = (refl, refl)
pack_all [] (v ∷ values) e = tt
pack_all (f ∷ fmt) [] e = tt
pack_all (f ∷ fmt) (v ∷ values) (e, es) =
    IfOk-bind (Reads f v) (ReadsAll (f ∷ fmt) (v ∷ values)) (pack_value f v) _
      (pack_value_lem f v e)
      (λ b h.
        IfOk-bind (ReadsAll fmt values) (ReadsAll (f ∷ fmt) (v ∷ values)) (pack fmt values) _
          (pack_all fmt values es) (λ rest h'. Reads-then f v fmt values b rest h h'))

-- What `pack` returned has the format's length, and `unpack` returns the values.
pub unpack-pack :
    (fmt : List Format) (values : List Value) (b : List ℕ)
    → AreExact fmt values
    → pack fmt values ≡ ok b
    → (length b ≡ calcsize fmt) × (unpack fmt b ≡ ok values)
unfolding unpack
unpack-pack fmt values b e h =
    let (l, u) : ReadsAll fmt values b =
      IfOk-ok (ReadsAll fmt values) (pack fmt values) b (pack_all fmt values e) h in
    let whole : (length b == calcsize fmt) ≡ true = (==_iff _ _).1 l in (l, rw (whole, u) refl)
