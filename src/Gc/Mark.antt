-- ===== src/Gc/Mark.antt =====
-- The mark: all that the walk delivers is live for the sweep.
use bup.Base.{
  ◌≡◌, refl, arith, Bool, true, false, ◌||◌, ◌&&◌, not, List, [], ◌∷◌, bytes_eq_refl, Bool-cases,
  inl, inr, All, ℕ,
}
use bup.Base.Dict.{Key, contains}
use bup.Base.Error.{Result, ok, err, undefined, exception}
use bup.Gc.{WalkItem, mark, find_live_objects, is_live}

pub any_missing : List WalkItem → Bool
any_missing [] = false
any_missing (item ∷ items) = item.is_missing || any_missing items

module _ {Bloom : Type 0} (add : Key → Bloom → Bloom) (has : Key → Bloom → Bool)
    (added : (oid : Key) (blobs : Bloom) → has oid (add oid blobs) ≡ true)
    (kept : (oid other : Key) (blobs : Bloom)
      → has oid blobs ≡ true
      → has oid (add other blobs) ≡ true)
    (cat : Key → Result (Key × List ℕ)) where
  -- The sweep takes the item for live.
  abbrev pub IsMarked : Bloom × List Key → WalkItem → Type 0
  IsMarked (blobs, trees) item = is_live cat (λ oid. has oid blobs) trees item.type item.oid ≡ true

  abbrev pub Walked : Bool → List WalkItem → Result (Bloom × List Key) → Type 0
  Walked ignore_missing items (ok live) =
      (not ignore_missing && any_missing items ≡ false) × All (IsMarked live) items
  Walked ignore_missing items (err e) =
      (e ≡ exception) × (ignore_missing ≡ false) × (any_missing items ≡ true)
  Walked ignore_missing items undefined = ⊥

  abbrev Grows : Bloom × List Key → Result (Bloom × List Key) → Type 0
  Grows live (ok later) = (item : WalkItem) → IsMarked live item → IsMarked later item
  Grows live (err e) = Unit {0}
  Grows live undefined = Unit {0}

  mark-IsMarked : (item : WalkItem) (live : Bloom × List Key) → IsMarked (mark add item live) item
  unfolding mark is_live contains
  mark-IsMarked item (blobs, trees) = ground (arith, added item.oid blobs, bytes_eq_refl item.oid)

  mark_keeps :
      (item other : WalkItem) (live : Bloom × List Key)
      → IsMarked live other
      → IsMarked (mark add item live) other
  unfolding mark is_live contains
  mark_keeps item other (blobs, trees) h = ground (arith, kept other.oid item.oid blobs, h)

  find_live_objects-Grows :
      (ignore_missing : Bool) (items : List WalkItem) (live : Bloom × List Key)
      → Grows live (find_live_objects add ignore_missing items live)
  unfolding find_live_objects
  find_live_objects-Grows ignore_missing [] live = λ item h. h
  find_live_objects-Grows ignore_missing (item ∷ items) live =
      elim (Bool-cases (not ignore_missing && item.is_missing)) [
        | inl missing ↦ rw missing tt
        | inr found ↦ rw found (
            through (find_live_objects add ignore_missing items (mark add item live))
              (find_live_objects-Grows ignore_missing items (mark add item live)))
      ]
    where
      through : (r : Result (Bloom × List Key)) → Grows (mark add item live) r → Grows live r
      through (ok later) h = λ other m. h other (mark_keeps item other live m)
      through (err e) h = tt
      through undefined h = tt

  -- With a filter that has what was added and keeps what it has, find_live_objects ends in a filter
  -- and a set by which every item of the walk is live, and then missing items are handled or no
  -- item is missing; or it raises MissingObject, and then missing items are not handled and some
  -- item is missing.
  pub find_live_objects-Walked :
      (ignore_missing : Bool) (items : List WalkItem) (live : Bloom × List Key)
      → Walked ignore_missing items (find_live_objects add ignore_missing items live)
  unfolding find_live_objects any_missing
  find_live_objects-Walked ignore_missing [] live = (ground arith, tt)
  find_live_objects-Walked ignore_missing (item ∷ items) live =
      elim (Bool-cases (not ignore_missing && item.is_missing)) [
        | inl missing ↦ rw missing (refl, ground (arith, missing), ground (arith, missing))
        | inr found ↦ rw found (
            one_more found (find_live_objects add ignore_missing items (mark add item live))
              (find_live_objects-Walked ignore_missing items (mark add item live))
              (find_live_objects-Grows ignore_missing items (mark add item live)))
      ]
    where
      one_more :
          (not ignore_missing && item.is_missing ≡ false)
          → (r : Result (Bloom × List Key)) → Walked ignore_missing items r
          → Grows (mark add item live) r
          → Walked ignore_missing (item ∷ items) r
      one_more found (ok later) (none, h) grows =
          (ground (arith, found, none), (grows item (mark-IsMarked item live), h))
      one_more found (err e) (x, i, m) grows = (x, i, ground (arith, m))
      one_more found undefined h grows = h
