-- ===== src/Hashsplit/Order.antt =====
-- A shalist of entries with bytes is in the order of git's trees, so that a tree keeps its order.
use bup.Base.{
  ℕ, zero, suc, ◌+◌, ◌-◌, ◌^◌, ◌<◌, ◌≤◌, ◌≡◌, refl, arith, Bool, true, false, List, [], ◌∷◌, ◌++◌,
  append-nil, if◌then◌else◌, length, Bool-cases, inl, inr, All,
}
use bup.Base.Hex.{hex, hex_padded}
use bup.Base.Hex.Order.{hex-length, hex_padded-lt}
use bup.Base.Lex.{bytes_lt, bytes_lt_asymm, bytes_lt-append}
use bup.Git.Names.{s_isdir}
use bup.Git.Trees.{shalist_item_sort_key}
use bup.Hashsplit.{
  Entry, TreeEntry, total_size, shalist_from, make_shalist, carried, squish_loop, rounds, squish,
  append_first, last_stack,
}
use bup.Hashsplit.Rounds.{goes_on, squish_loop-stop, squish_loop-new, squish_loop-next}

module _ {Sha : Type 0} where
  -- tree_encode of lib/bup/git.py sorts the entries of every tree by this key.
  abbrev pub sort_key : TreeEntry Sha → List ℕ
  sort_key e = shalist_item_sort_key (record { mode = e.mode; name = e.name; oid = [] })

  unfoldable pub insert_entry : TreeEntry Sha → List (TreeEntry Sha) → List (TreeEntry Sha)
  insert_entry e [] = e ∷ []
  insert_entry e (f ∷ l) =
      let further = insert_entry e l in
      if bytes_lt (sort_key f) (sort_key e) then f ∷ further else e ∷ f ∷ l

  unfoldable pub sorted_entries : List (TreeEntry Sha) → List (TreeEntry Sha)
  sorted_entries [] = []
  sorted_entries (e ∷ l) = insert_entry e (sorted_entries l)

  Ascends : List (TreeEntry Sha) → Type 0
  Ascends [] = Unit
  Ascends (e ∷ []) = Unit
  Ascends (e ∷ f ∷ l) = (bytes_lt (sort_key e) (sort_key f) ≡ true) × Ascends (f ∷ l)

  sorted_entries-Ascends : (l : List (TreeEntry Sha)) → Ascends l → sorted_entries l ≡ l
  unfolding sorted_entries insert_entry Ascends
  sorted_entries-Ascends [] h = refl
  sorted_entries-Ascends (e ∷ []) h = refl
  sorted_entries-Ascends (e ∷ f ∷ l) (h, hs) =
      rw (sorted_entries-Ascends (f ∷ l) hs, bytes_lt_asymm (sort_key e) (sort_key f) h) refl

  -- Names of one length are ordered in the same way whether they are those of directories or not.
  sort_key-lt :
      (e f : TreeEntry Sha)
      → length e.name ≡ length f.name
      → bytes_lt e.name f.name ≡ true
      → bytes_lt (sort_key e) (sort_key f) ≡ true
  unfolding shalist_item_sort_key
  sort_key-lt e f l h = keys (s_isdir e.mode) (s_isdir f.mode)
    where
      keys :
          (d d' : Bool)
          → bytes_lt
              (if d then e.name ++ b'/' ∷ [] else e.name)
              (if d' then f.name ++ b'/' ∷ [] else f.name)
            ≡ true
      keys true true = bytes_lt-append e.name f.name (b'/' ∷ []) (b'/' ∷ []) l h
      keys true false = rw append-nil at (bytes_lt-append e.name f.name (b'/' ∷ []) [] l h)
      keys false true = rw append-nil at (bytes_lt-append e.name f.name [] (b'/' ∷ []) l h)
      keys false false = h

  -- Entries that have bytes.
  abbrev pub IsPositive : List (Entry Sha) → Type 0
  IsPositive = All (λ e. 0 < e.size)

  shalist_from-Ascends :
      (vlen ofs : ℕ) (l : List (Entry Sha))
      → IsPositive l
      → 1 ≤ vlen
      → ofs + total_size l < 16 ^ vlen
      → Ascends (shalist_from vlen ofs l)
  unfolding shalist_from total_size Ascends
  shalist_from-Ascends vlen ofs [] h k fits = tt
  shalist_from-Ascends vlen ofs (e ∷ []) h k fits = tt
  shalist_from-Ascends vlen ofs (e ∷ f ∷ l) (h, hs) k fits =
      let (same, less) =
        hex_padded-lt vlen ofs (ofs + e.size) (omega arith) (omega (arith, hs.0)) k in
      (
        sort_key-lt (record { mode = e.mode; name = hex_padded vlen ofs; sha = e.sha })
            (record { mode = f.mode; name = hex_padded vlen (ofs + e.size); sha = f.sha }) same
            less,
        shalist_from-Ascends vlen (ofs + e.size) (f ∷ l) hs k (omega arith),
      )

  -- The offsets as names are in order.
  pub sorted_entries-make_shalist :
      (l : List (Entry Sha)) → IsPositive l → sorted_entries (make_shalist l).0 ≡ (make_shalist l).0
  unfolding make_shalist
  sorted_entries-make_shalist l h =
      let (fits, filled) = hex-length (total_size l) in
      sorted_entries-Ascends (shalist_from (length (hex (total_size l))) 0 l)
        (shalist_from-Ascends (length (hex (total_size l))) 0 l h filled (omega (arith, fits)))

  pub IsPositive-append :
      (l r : List (Entry Sha)) → IsPositive l → IsPositive r → IsPositive (l ++ r)
  IsPositive-append [] r h k = k
  IsPositive-append (e ∷ l) r (h, hs) k = (h, IsPositive-append l r hs k)

  module _ (maketree : List (TreeEntry Sha) → Sha) where
    pub carried-IsPositive :
        (stack : List (Entry Sha)) → IsPositive stack → IsPositive (carried maketree stack)
    unfolding carried make_shalist total_size
    carried-IsPositive [] h = tt
    carried-IsPositive (e ∷ []) h = h
    carried-IsPositive (e ∷ f ∷ l) (h, hs) = (omega arith, tt)

    squish_loop-IsPositive :
        (fuel n : ℕ) (stack : List (Entry Sha)) (above : List (List (Entry Sha)))
        → IsPositive stack
        → All IsPositive above
        → All IsPositive (squish_loop maketree fuel n stack above)
    squish_loop-IsPositive zero n stack above h hs = unfold squish_loop in (h, hs)
    squish_loop-IsPositive (suc fuel) n stack [] h hs =
        elim (Bool-cases (goes_on maketree n stack)) [
          | inr stop ↦ rw (squish_loop-stop maketree fuel n stack [] stop) (h, tt)
          | inl go ↦ rw (squish_loop-new maketree fuel n stack go) (
            tt,
            squish_loop-IsPositive fuel (n - 1) (carried maketree stack) []
                (carried-IsPositive stack h) tt,
          )
        ]
    squish_loop-IsPositive (suc fuel) n stack (next ∷ above) h (k, hs) =
        elim (Bool-cases (goes_on maketree n stack)) [
          | inr stop ↦ rw (squish_loop-stop maketree fuel n stack (next ∷ above) stop) (h, (k, hs))
          | inl go ↦ rw (squish_loop-next maketree fuel n stack next above go) (
            tt,
            squish_loop-IsPositive fuel (n - 1) (next ++ carried maketree stack) above
                (IsPositive-append next (carried maketree stack) k (carried-IsPositive stack h)) hs,
          )
        ]

    pub squish-IsPositive :
        (stacks : List (List (Entry Sha))) (n : ℕ)
        → All IsPositive stacks
        → All IsPositive (squish maketree stacks n)
    unfolding squish
    squish-IsPositive [] n h = tt
    squish-IsPositive (stack ∷ above) n (h, hs) =
        squish_loop-IsPositive (rounds maketree n above) n stack above h hs

    pub append_first-IsPositive :
        (e : Entry Sha) (stacks : List (List (Entry Sha)))
        → 0 < e.size
        → All IsPositive stacks
        → All IsPositive (append_first maketree e stacks)
    unfolding append_first
    append_first-IsPositive e [] k h = tt
    append_first-IsPositive e (stack ∷ above) k (h, hs) =
        (IsPositive-append stack (e ∷ []) h (k, tt), hs)

    pub last_stack-IsPositive :
        (stacks : List (List (Entry Sha)))
        → All IsPositive stacks
        → IsPositive (last_stack maketree stacks)
    unfolding last_stack
    last_stack-IsPositive [] h = tt
    last_stack-IsPositive (stack ∷ []) (h, hs) = h
    last_stack-IsPositive (stack ∷ next ∷ above) (h, hs) = last_stack-IsPositive (next ∷ above) hs
