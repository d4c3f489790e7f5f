-- ===== src/Index/Run.antt =====
-- `_add` and `flush` of the Writer of lib/bup/index.py, and what `Reader.iter` lists after them.
use bup.Base.{
  ℕ, zero, suc, ◌+◌, ◌-◌, ◌<◌, ◌≤◌, ◌≡◌, refl, sym, ap, ◌∙◌, arith, true, Option, none, some, List,
  [], ◌∷◌, ◌++◌, length, take, append_assoc, append-nil, length-take, Bool-cases, All, inl, inr,
  bytes_eq,
}
use mathlib.Core.Path.{subst}
use mathlib.Core.List.{map}
use bup.Base.Int.{ℤ}
use bup.Base.Error.{ok, ◌>>=◌, IfOk, IfOk-bind, IfOk-map}
use bup.Metadata.Equality.{list_eq, bytes_eq-Decides, list_eq-Decides}
use bup.Index.{Entry, Platform}
use bup.Index.Writer.{
  Level, write_level, receive, last_name, is_under, close_levels, open_levels, leave_level,
  or_blank, put_entry, depth, golevel,
}
use bup.Index.Listing.{as_read}
use bup.Index.Stored.{IsName, joined, IsLevel, Lists, Lists-leave, Lists-root}
use bup.Index.Replay.{
  Directory, plain, directories, listed, blanks, kept, IsWrittenLevel, write_level_lem, absorb,
  is_below, is_under-is_below, is_under-eq, Grown, Closes, close_lem,
}

-- The directories that are opened for a name.
unfoldable pub opened : ℕ → Directory → List Directory → List Directory
opened zero ename ds = ds
opened (suc more) ename [] = []
opened (suc more) ename (d ∷ ds) = opened more ename (take (length d + 1) ename ∷ d ∷ ds)

unfoldable pub tail : List Directory → List Directory
tail [] = []
tail (d ∷ ds) = ds

unfoldable pub first_length : List Directory → ℕ
first_length [] = 0
first_length (d ∷ ds) = length d

-- The directories that are open behind a name.
pub directories_after : Directory → List Directory → List Directory
directories_after ename ds =
    let stay = kept ename ds in tail (opened (length ename - first_length stay) ename stay)

take_one_more :
    (k : ℕ) (ename : Directory)
    → All IsName ename
    → k < length ename
    → (x : List ℕ) × IsName x × (take (k + 1) ename ≡ take k ename ++ x ∷ [])
take_one_more k [] h less = absurd (omega arith)
take_one_more zero (x ∷ ename) (h, hs) less = (x, h, refl)
take_one_more (suc k) (y ∷ ename) (h, hs) less =
    let (x, n, e) = take_one_more k ename hs (omega arith) in
    let next : suc k + 1 ≡ suc (k + 1) = omega arith in (x, n, rw (next, e) refl)

pub length-take_le : (k : ℕ) (ename : Directory) → k ≤ length ename → length (take k ename) ≡ k
length-take_le zero ename h = refl
length-take_le (suc k) [] h = absurd (omega arith)
length-take_le (suc k) (x ∷ ename) h = ap suc (length-take_le k ename (omega arith))

open_lem :
    (p : Platform) (f : List ℕ) (ename : Directory) (more : ℕ) (l : Level) (above : List Level)
    (out : List Entry)
    → All IsName ename
    → l.ename ≡ take (length l.ename) ename
    → length l.ename + more ≤ length ename
    → Lists p f (l ∷ above) out
    → Lists p f (open_levels more ename (l ∷ above)) out
      × (directories (open_levels more ename (l ∷ above))
          ≡ opened more ename (l.ename ∷ directories above))
unfolding open_levels opened Lists IsLevel
open_lem p f ename zero l above out h e k r = (r, refl)
open_lem p f ename (suc more) l above out h e k r =
    let (x, named, next) = take_one_more (length l.ename) ename h (omega arith) in
    let new : Level = record { ename = take (length l.ename + 1) ename; list = []; count = 0 } in
    let long : length new.ename ≡ length l.ename + 1 =
      length-take_le (length l.ename + 1) ename (omega arith) in
    open_lem p f ename more new (l ∷ above) out h (rw long refl) (omega arith) (
      out,
      [],
      r,
      (x, named, next ∙ ap (λ (d : Directory). d ++ x ∷ []) (sym e)),
      tt,
      refl,
      sym (append-nil out),
    )

-- What `put_entry` and `_golevel` leave.
unfoldable pub Put :
    Platform → List Entry → List Entry → List Directory → List ℕ × Level × List Level → Type 0
Put p out new ds (f, left, levels) =
    (more : List Entry) × Lists p f levels (out ++ more)
    × (map plain more ≡ new)
    × (directories levels ≡ ds)

-- What an added entry has: the last part of its name, and a hash of 20 bytes.
abbrev pub IsAdded : Directory → Entry → Type 0
IsAdded ename e =
    (2 ≤ length ename) × All IsName ename × (e.basename ≡ last_name ename) × (length e.sha ≡ 20)

put_lem :
    (p : Platform) (meta_ofs : ℕ) (tmax : Option ℤ) (ename : Directory) (e : Entry) (f : List ℕ)
    (levels : List Level) (out : List Entry)
    → IsAdded ename e
    → Lists p f levels out
    → IfOk
        (Put p out (listed ename e ∷ []) (tail (directories levels)))
        (put_entry p meta_ofs tmax ename (some e) f levels)
unfolding put_entry Put IsWrittenLevel leave_level or_blank tail receive
put_lem p meta_ofs tmax ename e f [] out a h = tt
put_lem p meta_ofs tmax ename e f (level ∷ parents) out a h =
    elim (Bool-cases (list_eq bytes_eq ename level.ename)) [
      | inr other ↦ rw other tt
      | inl same ↦
          rw same
            (left parents h ((list_eq-Decides bytes_eq bytes_eq-Decides).1 ename level.ename same))
    ]
  where
    left :
        (parents : List Level)
        → Lists p f (level ∷ parents) out
        → ename ≡ level.ename
        → IfOk (Put p out (listed ename e ∷ []) (directories parents)) (do
          (f', n, counted) ← write_level p level f e
          ok (f', level, leave_level (n, counted) parents))
    left [] h same = absurd (omega (arith, a.0, ap length (same ∙ Lists-root p f level out h)))
    left (parent ∷ above) h same =
        IfOk-bind (IsWrittenLevel p level f e)
          (Put p out (listed ename e ∷ []) (directories (parent ∷ above))) (write_level p level f e)
          _ (write_level_lem p level f e)
          (λ (f', n, counted) (b, w, fe, ne).
            let grown : Lists p f' (receive (some (n, counted)) parent ∷ above)
                (out ++ as_read (joined level.ename) n ∷ []) =
              rw (fe, ne)
                (Lists-leave p f b level parent above out
                  (record e { children_ofs = length f; children_n = length level.list }) counted h w
                  (rw (← same) a.2) a.3 refl refl) in
            (as_read (joined level.ename) n ∷ [], grown, rw (ne, same) refl, refl))

IsHeadUnder : Directory → List Directory → Type 0
IsHeadUnder ename [] = Unit
IsHeadUnder ename (d ∷ ds) = is_under ename d ≡ true

kept-IsHeadUnder : (ename : Directory) (ds : List Directory) → IsHeadUnder ename (kept ename ds)
unfolding kept IsHeadUnder
kept-IsHeadUnder ename [] = tt
kept-IsHeadUnder ename (d ∷ ds) = elim (Bool-cases (is_below ename d)) [
  | inl under ↦ rw under (is_under-is_below ename d ∙ under)
  | inr apart ↦ rw apart (kept-IsHeadUnder ename ds)
]

pub map_append : (xs ys : List Entry) → map plain (xs ++ ys) ≡ map plain xs ++ map plain ys
map_append [] ys = refl
map_append (x ∷ xs) ys = rw (map_append xs ys) refl

open_levels_nil : (more : ℕ) (ename : Directory) → open_levels more ename [] ≡ []
unfolding open_levels
open_levels_nil zero ename = refl
open_levels_nil (suc more) ename = refl

Put-after :
    (p : Platform) (out more new1 new2 : List Entry) (ds : List Directory)
    → map plain more ≡ new1
    → (x : List ℕ × Level × List Level) → Put p (out ++ more) new2 ds x
    → Put p out (new1 ++ new2) ds x
unfolding Put
Put-after p out more new1 new2 ds e (f, left, levels) (more2, h, n, o) =
    (more ++ more2, rw (← append_assoc out more more2) h, rw (map_append more more2, e, n) refl, o)

-- `_golevel` for an entry that is added.
pub golevel_lem :
    (p : Platform) (meta_ofs : ℕ) (tmax : Option ℤ) (ename : Directory) (e : Entry) (f : List ℕ)
    (levels : List Level) (out : List Entry)
    → IsAdded ename e
    → Lists p f levels out
    → IfOk
        (Put p out
          (blanks meta_ofs tmax ename (directories levels) ++ listed ename e ∷ [])
          (directories_after ename (directories levels)))
        (golevel p meta_ofs tmax ename (some e) f levels)
unfolding golevel absorb Closes Grown receive directories_after IsHeadUnder first_length depth
    put_entry
golevel_lem p meta_ofs tmax ename e f [] out a h = tt
golevel_lem p meta_ofs tmax ename e f (l ∷ above) out a h =
    let ds = directories (l ∷ above) in
    IfOk-bind (Grown p meta_ofs tmax out (blanks meta_ofs tmax ename ds) (kept ename ds)) _
      (close_levels p meta_ofs tmax ename f none (l ∷ above)) _
      (close_lem p meta_ofs tmax ename (l ∷ above) f none out h)
      (λ (f', levels) (more, grown, new, stay).
        IfOk-map (Put p (out ++ more) (listed ename e ∷ []) (directories_after ename ds)) _ _
          (opened_put f' levels (out ++ more) grown stay)
          (Put-after p out more (blanks meta_ofs tmax ename ds) (listed ename e ∷ [])
            (directories_after ename ds) new))
  where
    opened_put :
        (f' : List ℕ) (levels : List Level) (out' : List Entry)
        → Lists p f' levels out'
        → directories levels ≡ kept ename (directories (l ∷ above))
        → IfOk
            (Put p out' (listed ename e ∷ []) (directories_after ename (directories (l ∷ above))))
            (put_entry p meta_ofs tmax ename
              (some e)
              f'
              (open_levels (length ename - depth levels) ename levels))
    opened_put f' [] out' grown stay = rw (open_levels_nil (length ename - 0) ename) tt
    opened_put f' (l' ∷ ls) out' grown stay =
        let head : is_under ename l'.ename ≡ true =
          subst (IsHeadUnder ename) (sym stay) (kept-IsHeadUnder ename (directories (l ∷ above))) in
        let front = is_under-eq ename l'.ename head in
        let short : length l'.ename ≤ length ename =
          omega (arith, ap length front, length-take (length l'.ename) ename) in
        let more = length ename - length l'.ename in
        let (lists, ds) = open_lem p f' ename more l' ls out' a.1 front (omega arith) grown in
        rw (← stay, ← ds)
          (put_lem p meta_ofs tmax ename e f' (open_levels more ename (l' ∷ ls)) out' a lists)
