-- ===== src/Index/Listing.antt =====
-- What the reader lists of a file: one entry, the entries of a level, and what lies below them.
use bup.Base.{
  ℕ, ◌+◌, ◌<◌, ◌≡◌, refl, arith, Bool, true, false, none, some, List, [], ◌∷◌, ◌++◌, ◌==◌, length,
  append_assoc, length-append, drop-length_append, take-length_append, All,
}
use bup.Base.Int.{ℤ}
use bup.Base.Bytes.{slice}
use bup.Base.Error.{Result, ok, IfOk, IfOk-refl, IfOk-bind}
use bup.Base.Struct.{Value, Format, IsExact, AreExact, unsigned, signed, string}
use bup.Base.Struct
use bup.Xstat.{nsecs_to_timespec, timespec_to_nsecs}
use bup.Xstat.Times.{timespec_to_nsecs-nsecs_to_timespec}
use bup.Index.{
  Entry, Platform, maybe_signed, entry_sig, entry_values, entlen, packed, assign_entry,
  existing_entry,
}
use bup.Index.Writer.{write_entry, write_entries}
use bup.Index.Reader.{
  before_nul, basename_of, basename_at, slash_name, goes_into, is_shown, descend, iter_children,
}

-- An entry as the reader makes it.
abbrev pub as_read : List ℕ → Entry → Entry
as_read name e = record e { name = name; tmax = none }

-- A name without NUL, and a hash of 20 bytes.
abbrev pub IsListable : Entry → Type 0
IsListable e = (0 < length e.basename) × All (λ c. 0 < c) e.basename × (length e.sha ≡ 20)

maybe_signed-IsExact : (b : Bool) (k : ℕ) (v : Value) → 0 < k → IsExact (maybe_signed b k) v
maybe_signed-IsExact true k v h = h
maybe_signed-IsExact false k v h = tt

entry_exact :
    (p : Platform) (e : Entry) → length e.sha ≡ 20 → AreExact (entry_sig p) (entry_values e)
entry_exact p e h =
    let d = maybe_signed-IsExact p.dev_signed 8 (Struct.int e.dev) (omega arith) in
    let n = maybe_signed-IsExact p.nlink_signed 8 (Struct.int e.nlink) (omega arith) in
    let m = maybe_signed-IsExact p.mode_signed 4 (Struct.int e.mode) (omega arith) in
    let g = maybe_signed-IsExact p.mode_signed 4 (Struct.int e.gitmode) (omega arith) in
    (
      d,
      (
        tt,
        (
          n,
          (
            omega arith,
            (
              tt,
              (
                omega arith,
                (tt, (omega arith, (tt, (tt, (m, (g, (h, (tt, (tt, (tt, (tt, tt))))))))))),
              ),
            ),
          ),
        ),
      ),
    )

time_lem : (ns : ℤ) → timespec_to_nsecs (nsecs_to_timespec ns) ≡ ns
time_lem ns = (timespec_to_nsecs-nsecs_to_timespec ns).0

assign_entry_lem :
    (basename name : List ℕ) (e : Entry)
    → assign_entry basename name (entry_values e)
      ≡ ok (record e { basename = basename; name = name; tmax = none })
unfolding assign_entry nsecs_to_timespec
assign_entry_lem basename name e = rw (time_lem e.ctime, time_lem e.mtime, time_lem e.atime)

-- The packed entry is read wherever it stands.
pub existing_entry-packed :
    (p : Platform) (e : Entry) (name b front back : List ℕ) (ofs : ℕ)
    → length e.sha ≡ 20
    → packed p e ≡ ok b
    → ofs ≡ length front
    → (length b ≡ entlen p)
      × (existing_entry p e.basename name (front ++ (b ++ back)) ofs ≡ ok (as_read name e))
unfolding packed existing_entry entlen
existing_entry-packed p e name b front back ofs h k o =
    let (l, u) = Struct.unpack-pack (entry_sig p) (entry_values e) b (entry_exact p e h) k in
    let here : slice (front ++ (b ++ back)) ofs (entlen p) ≡ b =
      rw (o, drop-length_append front (b ++ back), ← l) (take-length_append b back) in
    (l, rw (here, u) (assign_entry_lem e.basename name e))

before_nul-append :
    (name rest : List ℕ) → All (λ c. 0 < c) name → before_nul (name ++ 0 ∷ rest) ≡ some name
unfolding before_nul
before_nul-append [] rest h = refl
before_nul-append (c ∷ name) rest (h, hs) =
    let other : c == 0 ≡ false = ground arith in rw (other, before_nul-append name rest hs)

-- The bytes of the entries of a level.
unfoldable pub Written : Platform → List Entry → List ℕ → Type 0
Written p [] b = b ≡ []
Written p (e ∷ es) b =
    (b1 : List ℕ) × (b2 : List ℕ) × (packed p e ≡ ok b1)
    × Written p es b2
    × (b ≡ e.basename ++ (0 ∷ (b1 ++ b2)))

WrittenEntry : Platform → Entry → List ℕ → Type 0
WrittenEntry p e b = (b1 : List ℕ) × (packed p e ≡ ok b1) × (b ≡ e.basename ++ (0 ∷ b1))

write_entry_lem : (p : Platform) (e : Entry) → IfOk (WrittenEntry p e) (write_entry p e)
unfolding write_entry WrittenEntry
write_entry_lem p e =
    IfOk-bind (λ b. packed p e ≡ ok b) (WrittenEntry p e) (packed p e) _ (IfOk-refl (packed p e))
      (λ b h. (b, h, refl))

pub write_entries_lem : (p : Platform) (es : List Entry) → IfOk (Written p es) (write_entries p es)
unfolding write_entries Written WrittenEntry
write_entries_lem p [] = refl
write_entries_lem p (e ∷ es) =
    IfOk-bind (WrittenEntry p e) (Written p (e ∷ es)) (write_entry p e) _ (write_entry_lem p e)
      (λ b h.
        IfOk-bind (Written p es) (Written p (e ∷ es)) (write_entries p es) _
          (write_entries_lem p es)
          (λ rest h'. (h.0, rest, h.1, h', rw h.2 (append_assoc e.basename (0 ∷ h.0) rest))))

-- The entries of a level as they are listed, and what `R` says lies below each of them.
abbrev pub AreListed : (Entry → List Entry → Type 0) → List ℕ → List Entry → List Entry → Type 0
AreListed R parent_name [] out = out ≡ []
AreListed R parent_name (e ∷ es) out =
    (below : List Entry) × (rest : List Entry) × R (as_read (parent_name ++ e.basename) e) below
    × AreListed R parent_name es rest
    × (out ≡ below ++ (as_read (parent_name ++ e.basename) e ∷ rest))

pub AreListed-map :
    (R S : Entry → List Entry → Type 0)
    → ((c : Entry) (below : List Entry) → R c below → S c below)
    → (parent_name : List ℕ) (es out : List Entry) → AreListed R parent_name es out
    → AreListed S parent_name es out
AreListed-map R S k name [] out h = h
AreListed-map R S k name (e ∷ es) out (below, rest, r, l, o) =
    (below, rest, k _ below r, AreListed-map R S k name es rest l, o)

pub AreListed-append :
    (R : Entry → List Entry → Type 0) (parent_name : List ℕ) (es : List Entry) (e : Entry)
    (out below : List Entry)
    → AreListed R parent_name es out
    → R (as_read (parent_name ++ e.basename) e) below
    → AreListed R parent_name
        (es ++ e ∷ [])
        (out ++ (below ++ as_read (parent_name ++ e.basename) e ∷ []))
AreListed-append R name [] e out below h r = (below, [], r, refl, rw h refl)
AreListed-append R name (d ∷ es) e out below (under, rest, q, l, o) r =
    (under, _, q, AreListed-append R name es e rest below l r, rw (o, append_assoc) refl)

pub iter_children_lem :
    (p : Platform) (recur : Entry → Result (List Entry)) (name : List ℕ) (es out : List Entry)
    (b front back : List ℕ) (ofs : ℕ)
    → All IsListable es
    → Written p es b
    → AreListed (λ c o. recur c ≡ ok o) name es out
    → ofs ≡ length front
    → iter_children p (front ++ (b ++ back)) [] (λ e. true) recur name (length es) ofs ≡ ok out
unfolding iter_children Written basename_at basename_of slash_name goes_into is_shown descend
iter_children_lem p recur name [] out b front back ofs good w l o = rw l refl
iter_children_lem p recur name (e ∷ es) out b front back ofs ((filled, named, hashed), good)
      (b1, b2, k, w, c) (below, rest, r, l, d) o =
    let before = front ++ (e.basename ++ 0 ∷ []) in
    let m = front ++ (b ++ back) in
    let whole : m ≡ before ++ (b1 ++ (b2 ++ back)) = rw c (simp append_assoc) in
    let other : length e.basename == 0 ≡ false = ground arith in
    let named_at : basename_at m ofs ≡ ok e.basename =
      rw
        (
          o,
          drop-length_append front (b ++ back),
          c,
          append_assoc,
          before_nul-append e.basename ((b1 ++ b2) ++ back) named,
          other,
        )
        refl in
    let past : ofs + length e.basename + 1 ≡ length before =
      omega
        (arith, length-append front (e.basename ++ 0 ∷ []), length-append e.basename (0 ∷ [])) in
    let (sized, found) =
      existing_entry-packed p e (name ++ e.basename) b1 before (b2 ++ back)
        (ofs + length e.basename + 1) hashed k past in
    let found' : existing_entry p e.basename (name ++ e.basename) m (ofs + length e.basename + 1)
        ≡ ok (as_read (name ++ e.basename) e) =
      rw whole found in
    let further : iter_children p ((before ++ b1) ++ (b2 ++ back)) [] (λ e. true) recur name
          (length es) (ofs + length e.basename + 1 + entlen p)
        ≡ ok rest =
      iter_children_lem p recur name es rest b2 (before ++ b1) back
        (ofs + length e.basename + 1 + entlen p) good w l
        (omega (arith, length-append before b1)) in
    let further' : iter_children p m [] (λ e. true) recur name (length es)
          (ofs + length e.basename + 1 + entlen p)
        ≡ ok rest =
      rw (whole, ← append_assoc before b1 (b2 ++ back)) further in
    rw (named_at, found', r, further', d) refl
