-- ===== src/Base/Bytes.antt =====
-- Python's operations on `bytes` that the modules share.
use Prim.Native.Nat.{◌+◌, ◌*◌, ℕ, zero, suc, ◌-◌}
use mathlib.Core.Path.{◌≡◌, refl, sym, ap, ◌∙◌}
use mathlib.Core.Bool.{Bool, true, false, ◌&&◌}
use mathlib.Core.List.{List, [], ◌∷◌, ◌++◌, append_assoc}
use Prim.Native.Char.{code}
use Prim.Native.String.{String}
use native.Mathlib.Omega.{arith}
use bup.Base.Tests.{leb, ◌==◌, if◌then◌else◌, Bool-cases}
use bup.Base.Error.{Result, ok, err, struct_error}
use mathlib.Core.Logic.{inl, inr}
use bup.Base.Lists.{
  length, take, drop, length-append, take-length_append, drop-length_append, bytes_eq,
  bytes_eq_refl, bytes_eq→eq,
}

-- The bytes of an ASCII literal.
abbrev pub ascii : String → List ℕ
ascii String.[] = []
ascii (String.◌∷◌ c s) = code c ∷ ascii s

module _ {ℓ} {A : Type ℓ} where
  -- xs[:-n], for a positive n
  abbrev pub drop_end : List A → ℕ → List A
  drop_end xs n = take (length xs - n) xs

  pub drop_end-append : (xs ys : List A) (n : ℕ) → n ≡ length ys → drop_end (xs ++ ys) n ≡ xs
  drop_end-append xs ys n e =
      let here : length (xs ++ ys) - n ≡ length xs = omega (arith, length-append {ℓ} xs ys) in
      rw here (take-length_append xs ys)

  pub take-append-drop : (n : ℕ) (xs : List A) → take n xs ++ drop n xs ≡ xs
  take-append-drop zero xs = refl
  take-append-drop (suc n) [] = refl
  take-append-drop (suc n) (x ∷ xs) = rw (take-append-drop n xs)

-- name.endswith(suffix)
abbrev pub ends_with : List ℕ → List ℕ → Bool
ends_with name suffix =
    leb (length suffix) (length name) && bytes_eq (drop (length name - length suffix) name) suffix

pub ends_with-append : (front suffix : List ℕ) → ends_with (front ++ suffix) suffix ≡ true
ends_with-append front suffix =
    let here : length (front ++ suffix) - length suffix ≡ length front =
      omega (arith, length-append {0} front suffix) in
    let long : leb (length suffix) (length (front ++ suffix)) ≡ true =
      ground (arith, length-append front suffix) in
    rw (here, drop-length_append front suffix, bytes_eq_refl suffix, long)

-- A name that ends in a suffix is what stands before it, and the suffix.
pub ends_with→append :
    (name suffix : List ℕ)
    → ends_with name suffix ≡ true
    → name ≡ drop_end name (length suffix) ++ suffix
ends_with→append name suffix h =
    let same : drop (length name - length suffix) name ≡ suffix = bytes_eq→eq _ _ (ground arith) in
    sym (take-append-drop (length name - length suffix) name)
    ∙ ap (λ (t : List ℕ). drop_end name (length suffix) ++ t) same

-- xs[-1], or 0 of no bytes
abbrev pub last_byte : List ℕ → ℕ
last_byte [] = 0
last_byte (x ∷ []) = x
last_byte (x ∷ y ∷ xs) = last_byte (y ∷ xs)

pub last_byte-append : (xs : List ℕ) (c : ℕ) → last_byte (xs ++ c ∷ []) ≡ c
last_byte-append [] c = refl
last_byte-append (x ∷ []) c = refl
last_byte-append (x ∷ y ∷ xs) c = last_byte-append (y ∷ xs) c

-- Bytes that end in `c` do not end in a suffix whose last byte is another one.
pub ends_with-other_last :
    (front suffix : List ℕ) (c d : ℕ)
    → (c == d) ≡ false
    → ends_with (front ++ c ∷ []) (suffix ++ d ∷ []) ≡ false
ends_with-other_last front suffix c d ne =
    elim (Bool-cases (ends_with (front ++ c ∷ []) (suffix ++ d ∷ []))) [
      | inr false_lem ↦ false_lem
      | inl h ↦
          let pre : List ℕ = drop_end (front ++ c ∷ []) (length (suffix ++ d ∷ [])) in
          let whole : front ++ c ∷ [] ≡ (pre ++ suffix) ++ d ∷ [] =
            ends_with→append (front ++ c ∷ []) (suffix ++ d ∷ []) h
            ∙ sym (append_assoc pre suffix (d ∷ [])) in
          let same : c ≡ d =
            sym (last_byte-append front c)
            ∙ (ap last_byte whole ∙ last_byte-append (pre ++ suffix) d) in
          ground arith
    ]

-- map[ofs : ofs + n]
abbrev pub slice : List ℕ → ℕ → ℕ → List ℕ
slice map ofs n = take n (drop ofs map)

-- os.path.basename: what follows the last `/`
basename_loop : List ℕ → List ℕ → List ℕ
basename_loop [] tail = tail
basename_loop (c ∷ path) tail = basename_loop path (if c == b'/' then [] else tail ++ c ∷ [])

pub basename : List ℕ → List ℕ
basename path = basename_loop path []

-- A big endian number.
abbrev pub big_endian : ℕ → List ℕ → ℕ
big_endian n [] = n
big_endian n (b ∷ bytes) = big_endian (n * 256 + b) bytes

-- struct.unpack_from('!I', map, offset=ofs)[0] and struct.unpack_from('!Q', …)
unfoldable pub unpack_from : ℕ → List ℕ → ℕ → Result ℕ
unpack_from size map ofs =
    if length (slice map ofs size) == size
    then ok (big_endian 0 (slice map ofs size))
    else err struct_error
