-- ===== src/Metadata/Records.antt =====
-- `Metadata.read` of lib/bup/metadata.py, and the records as bytes.
use bup.Base.{
  ℕ, zero, suc, ◌^◌, ◌≤◌, ◌<◌, ◌≡◌, refl, arith, inl, inr, true, false, Option, none, some, List,
  [], ◌∷◌, ◌++◌, ◌==◌, if◌then◌else◌, length, length-append, append_assoc, Bool-cases, All,
}
use bup.Base.Error.{Result, ok, err, undefined, eof_error, exception, ◌>>=◌}
use bup.Vint.{read_vuint}
use bup.Vint.Unsigned.{vuint_bytes, vuint_bytes-some, encode_vuint_lem, read_vuint-vuint_bytes}
use bup.Vint.Bvec.{read_bvec, skip_bvec, bvec_bytes, encode_bvec_lem, read_bvec-bvec_bytes}
use bup.Metadata.{Metadata, empty_metadata, tag_end, encode_record, encode_records}
use bup.Metadata.Fields.{or_eof, is_known, load_content}

-- One record from behind its tag.
unfoldable pub load_known : ℕ → List ℕ → Metadata → Result (Metadata × List ℕ)
load_known tag port m = do
  (found, rest) ← read_bvec port
  content ← or_eof found
  m' ← load_content tag content m
  ok (m', rest)

unfoldable pub load_record : ℕ → List ℕ → Metadata → Result (Metadata × List ℕ)
load_record tag port m =
    if is_known tag then load_known tag port m else do rest ← skip_bvec port; ok (m, rest)

-- The `while True`, from a tag on that was read. Each round reads bytes.
unfoldable pub read_tagged : ℕ → Option ℕ → List ℕ → Metadata → Result (Metadata × List ℕ)
read_tagged zero tag port m = err exception
read_tagged (suc fuel) none port m = err eof_error
read_tagged (suc fuel) (some tag) port m = if tag == tag_end then ok (m, port) else do
  (m', port') ← load_record tag port m
  (next, port'') ← read_vuint port'
  read_tagged fuel next port'' m'

unfoldable pub read_first : ℕ → Option ℕ → List ℕ → Result (Option Metadata × List ℕ)
read_first fuel none port = ok (none, port)
read_first fuel (some tag) port =
    if tag == tag_end
    then ok (some empty_metadata, port)
    else do (m, rest) ← read_tagged fuel (some tag) port empty_metadata; ok (some m, rest)

unfoldable pub read : List ℕ → Result (Option Metadata × List ℕ)
read port = do (tag, rest) ← read_vuint port; read_first (suc (length port)) tag rest

-- The bytes of a record, and of all of them with the end.
pub record_bytes : ℕ → Option (List ℕ) → List ℕ
record_bytes tag none = []
record_bytes tag (some []) = []
record_bytes tag (some (c ∷ content)) = vuint_bytes tag ++ bvec_bytes (c ∷ content)

pub all_bytes : List (ℕ × Option (List ℕ)) → List ℕ
all_bytes [] = vuint_bytes tag_end
all_bytes ((tag, content) ∷ recs) = record_bytes tag content ++ all_bytes recs

-- A record whose tag is known and whose content a byte vector holds.
abbrev pub IsSmall : Option (List ℕ) → Type 0
IsSmall none = Unit
IsSmall (some content) = length content < 2 ^ 56

abbrev pub IsRecord : ℕ × Option (List ℕ) → Type 0
IsRecord (tag, content) = (is_known tag ≡ true) × (0 < tag) × (tag < 2 ^ 56) × IsSmall content

encode_record_lem :
    (tag : ℕ) (content : Option (List ℕ))
    → tag < 2 ^ 56
    → IsSmall content
    → encode_record tag content ≡ ok (record_bytes tag content)
unfolding encode_record record_bytes
encode_record_lem tag none h s = refl
encode_record_lem tag (some []) h s = refl
encode_record_lem tag (some (c ∷ content)) h s =
    let filled : length (c ∷ content) == 0 ≡ false = ground arith in
    rw (filled, encode_vuint_lem tag (inl h), encode_bvec_lem (c ∷ content) s)

pub encode_records_lem :
    (recs : List (ℕ × Option (List ℕ)))
    → All IsRecord recs
    → encode_records recs ≡ ok (all_bytes recs)
unfolding encode_records all_bytes
encode_records_lem [] h = encode_vuint_lem tag_end (inl (omega arith))
encode_records_lem ((tag, content) ∷ recs) ((k, p, t, s), h) =
    rw (encode_record_lem tag content t s, encode_records_lem recs h)

-- The contents loaded one after the other.
unfoldable pub load_one : ℕ → Option (List ℕ) → Metadata → Result Metadata
load_one tag none m = ok m
load_one tag (some []) m = ok m
load_one tag (some (c ∷ content)) m = load_content tag (c ∷ content) m

unfoldable pub load_all : List (ℕ × Option (List ℕ)) → Metadata → Result Metadata
load_all [] m = ok m
load_all ((tag, content) ∷ recs) m = load_one tag content m >>= load_all recs

count : List (ℕ × Option (List ℕ)) → ℕ
count [] = 0
count ((tag, none) ∷ recs) = count recs
count ((tag, some []) ∷ recs) = count recs
count ((tag, some (c ∷ content)) ∷ recs) = suc (count recs)

abbrev read_at : ℕ → List ℕ → Metadata → Result (Metadata × List ℕ)
read_at fuel port m = do (tag, rest) ← read_vuint port; read_tagged fuel tag rest m

read_at-all_bytes :
    (recs : List (ℕ × Option (List ℕ))) (fuel : ℕ) (m : Metadata) (rest : List ℕ)
    → All IsRecord recs
    → count recs < fuel
    → read_at fuel (all_bytes recs ++ rest) m ≡ (do m' ← load_all recs m; ok (m', rest))
unfolding all_bytes record_bytes load_all load_one count read_tagged load_record load_known or_eof
read_at-all_bytes recs zero m rest h k = absurd (omega arith)
read_at-all_bytes [] (suc fuel) m rest h k = rw (read_vuint-vuint_bytes tag_end rest)
read_at-all_bytes ((tag, none) ∷ recs) (suc fuel) m rest (r, h) k =
    read_at-all_bytes recs (suc fuel) m rest h k
read_at-all_bytes ((tag, some []) ∷ recs) (suc fuel) m rest (r, h) k =
    read_at-all_bytes recs (suc fuel) m rest h k
read_at-all_bytes ((tag, some (c ∷ content)) ∷ recs) (suc fuel) m rest ((known, p, t, s), h) k =
    let other : tag == tag_end ≡ false = ground arith in
    rw
      (
        append_assoc (vuint_bytes tag ++ bvec_bytes (c ∷ content)) (all_bytes recs) rest,
        append_assoc (vuint_bytes tag) (bvec_bytes (c ∷ content)) (all_bytes recs ++ rest),
        read_vuint-vuint_bytes tag (bvec_bytes (c ∷ content) ++ (all_bytes recs ++ rest)),
        other,
        known,
        read_bvec-bvec_bytes (c ∷ content) (all_bytes recs ++ rest),
      )
      (after (load_content tag (c ∷ content) m)
        (λ m'. read_at-all_bytes recs fuel m' rest h (omega arith)))
  where
    after :
        (r : Result Metadata)
        → ((m' : Metadata)
            → read_at fuel (all_bytes recs ++ rest) m'
              ≡ (do m'' ← load_all recs m'; ok (m'', rest)))
        → ((do m' ← r; ok (m', all_bytes recs ++ rest)) >>= λ (x : Metadata × List ℕ).
            read_at fuel x.1 x.0)
          ≡ (do m' ← (r >>= load_all recs); ok (m', rest))
    after (ok m') ih = ih m'
    after (err e) ih = refl
    after undefined ih = refl

-- The first tag is there, be it the end.
first_tag :
    (recs : List (ℕ × Option (List ℕ))) (rest : List ℕ)
    → (tag : ℕ) × (port : List ℕ) × (read_vuint (all_bytes recs ++ rest) ≡ ok (some tag, port))
unfolding all_bytes record_bytes
first_tag [] rest = (tag_end, rest, read_vuint-vuint_bytes tag_end rest)
first_tag ((tag, none) ∷ recs) rest = first_tag recs rest
first_tag ((tag, some []) ∷ recs) rest = first_tag recs rest
first_tag ((tag, some (c ∷ content)) ∷ recs) rest =
    let port = bvec_bytes (c ∷ content) ++ (all_bytes recs ++ rest) in
    (
      tag,
      port,
      rw
          (
            append_assoc (vuint_bytes tag ++ bvec_bytes (c ∷ content)) (all_bytes recs) rest,
            append_assoc (vuint_bytes tag) (bvec_bytes (c ∷ content)) (all_bytes recs ++ rest),
          )
          (read_vuint-vuint_bytes tag port),
    )

count_le : (recs : List (ℕ × Option (List ℕ))) → count recs ≤ length (all_bytes recs)
unfolding count all_bytes record_bytes
count_le [] = omega arith
count_le ((tag, none) ∷ recs) = count_le recs
count_le ((tag, some []) ∷ recs) = count_le recs
count_le ((tag, some (c ∷ content)) ∷ recs) = omega (
  arith,
  count_le recs,
  vuint_bytes-some tag,
  length-append (vuint_bytes tag ++ bvec_bytes (c ∷ content)) (all_bytes recs),
  length-append (vuint_bytes tag) (bvec_bytes (c ∷ content)),
)

read_first-some :
    (fuel tag : ℕ) (port : List ℕ)
    → read_first (suc fuel) (some tag) port
      ≡ (do (m, rest) ← read_tagged (suc fuel) (some tag) port empty_metadata; ok (some m, rest))
unfolding read_first read_tagged
read_first-some fuel tag port = elim (Bool-cases (tag == tag_end)) [
  | inl done ↦ rw done
  | inr more ↦ rw more
]

abbrev found : Metadata × List ℕ → Result (Option Metadata × List ℕ)
found (m, port) = ok (some m, port)

wrap :
    (r : Result Metadata) (rest : List ℕ)
    → ((do m' ← r; ok (m', rest)) >>= found) ≡ (do m ← r; ok (some m, rest))
wrap (ok m) rest = refl
wrap (err e) rest = refl
wrap undefined rest = refl

-- What read returns for the bytes of records with known tags: their contents loaded in order, and
-- the bytes behind the end.
pub read-all_bytes :
    (recs : List (ℕ × Option (List ℕ))) (rest : List ℕ)
    → All IsRecord recs
    → read (all_bytes recs ++ rest) ≡ (do m ← load_all recs empty_metadata; ok (some m, rest))
unfolding read
read-all_bytes recs rest h =
    let (tag, port, first) = first_tag recs rest in
    let fuel = length (all_bytes recs ++ rest) in
    let enough : count recs < suc fuel =
      omega (arith, count_le recs, length-append (all_bytes recs) rest) in
    let tagged : read_tagged (suc fuel) (some tag) port empty_metadata
        ≡ (do m' ← load_all recs empty_metadata; ok (m', rest)) =
      rw (← read_at-all_bytes recs (suc fuel) empty_metadata rest h enough, first) refl in
    rw (first, read_first-some fuel tag port, tagged) (wrap (load_all recs empty_metadata) rest)

pub load_one_lem :
    (tag c : ℕ) (content : List ℕ) (m : Metadata)
    → load_one tag (some (c ∷ content)) m ≡ load_content tag (c ∷ content) m
unfolding load_one
load_one_lem tag c content m = refl
