-- ===== src/Index/Rooted.antt =====
-- The lowest levels of the writer of lib/bup/index.py when every name is below the root directory:
-- the level of the root directory `/` over one that is empty until the flush.
use bup.Base.{
  ℕ, zero, suc, ◌+◌, ◌-◌, ◌<◌, ◌≤◌, ◌≡◌, refl, ap, ◌∙◌, arith, true, false, Option, none, some,
  List, [], ◌∷◌, length, length-append, length-take, Bool-cases, inl, inr, bytes_eq,
}
use bup.Base.Int.{ℤ}
use bup.Base.Error.{Result, ◌>>=◌, IfOk, IfOk-bind}
use bup.Metadata.Equality.{list_eq}
use bup.Index.{Entry, Platform}
use bup.Index.Writer.{
  Level, write_level, receive, is_under, blank_directory, blank_new_entry, last_name, close_levels,
  open_levels, leave_level, or_blank, put_entry, depth, golevel,
}
use bup.Index.Replay.{Directory, IsWrittenLevel, write_level_lem, absorb}

abbrev pub slash : List ℕ
slash = b'/' ∷ []

unfoldable pub IsRooted : List Level → Type 0
IsRooted [] = ⊥
IsRooted (root ∷ []) = (root.ename ≡ []) × (root.list ≡ [])
IsRooted (l ∷ root ∷ []) = (l.ename ≡ slash ∷ []) × (root.ename ≡ []) × (root.list ≡ [])
IsRooted (l ∷ parent ∷ next ∷ above) = (0 < length l.ename) × IsRooted (parent ∷ next ∷ above)

unrooted : IsRooted [] → ⊥
unfolding IsRooted
unrooted h = h

IsRooted-receive :
    (c : Entry × ℕ) (l next : Level) (above : List Level)
    → IsRooted (l ∷ next ∷ above)
    → IsRooted (receive (some c) l ∷ next ∷ above)
unfolding IsRooted receive
IsRooted-receive c l next [] h = h
IsRooted-receive c l next (m ∷ above) h = h

is_under-none : (d : Directory) → 0 < length d → is_under [] d ≡ false
unfolding is_under
is_under-none [] h = absurd (omega arith)
is_under-none (x ∷ d) h = refl

-- The levels over the root, in a file that has its header.
unfoldable pub IsState : ℕ → List ℕ × List Level → Type 0
IsState start (f, levels) = (start ≤ length f) × IsRooted levels

module _ (p : Platform) (meta_ofs : ℕ) (tmax : Option ℤ) (start : ℕ) where
  -- A level is written, and the rest follows.
  write_then :
      {B : Type 0} (Q : B → Type 0) (level : Level) (f : List ℕ) (n : Entry)
      (k : List ℕ × Entry × ℕ → Result B)
      → start ≤ length f
      → ((f' : List ℕ) (n' : Entry) (counted : ℕ)
          → start ≤ length f'
          → n'.basename ≡ n.basename
          → IfOk Q (k (f', n', counted)))
      → IfOk Q (write_level p level f n >>= k)
  unfolding IsWrittenLevel
  write_then Q level f n k s h =
      IfOk-bind (IsWrittenLevel p level f n) Q (write_level p level f n) k
        (write_level_lem p level f n)
        (λ (f', n', counted) (b, w, fe, ne).
          h f' n' counted (rw fe (omega (arith, length-append f b))) (rw ne refl))

  close_levels-IsState :
      (ename : Directory) (f : List ℕ) (closed : Option (Entry × ℕ)) (levels : List Level)
      → start ≤ length f
      → IsRooted (absorb closed levels)
      → IfOk (IsState start) (close_levels p meta_ofs tmax (slash ∷ ename) f closed levels)
  unfolding close_levels absorb IsRooted IsState is_under receive
  close_levels-IsState ename f closed [] s h = tt
  close_levels-IsState ename f closed (l ∷ []) s h = rw h.0 (s, h)
  close_levels-IsState ename f closed (l ∷ root ∷ []) s h = rw h.0 (s, h)
  close_levels-IsState ename f closed (l ∷ parent ∷ next ∷ above) s h =
      elim (Bool-cases (is_under (slash ∷ ename) ((receive closed l).ename))) [
        | inl under ↦ rw under (s, h)
        | inr apart ↦ rw apart (
            write_then (IsState start) (receive closed l) f
              (blank_directory (receive closed l).ename meta_ofs tmax) _ s
              (λ f' n' counted s' e.
                close_levels-IsState ename f' (some (n', counted)) (parent ∷ next ∷ above) s'
                  (IsRooted-receive (n', counted) parent next above h.1)))
      ]

  open_levels-IsRooted :
      (ename : Directory) (more : ℕ) (l : Level) (above : List Level)
      → IsRooted (l ∷ above)
      → IsRooted (open_levels more (slash ∷ ename) (l ∷ above))
  unfolding open_levels IsRooted
  open_levels-IsRooted ename zero l above h = h
  open_levels-IsRooted ename (suc more) l [] h =
      open_levels-IsRooted ename more _ (l ∷ []) (rw h.0 refl, h.0, h.1)
  open_levels-IsRooted ename (suc more) l (parent ∷ above) h =
      open_levels-IsRooted ename more _ (l ∷ parent ∷ above)
        (omega (arith, length-take (length l.ename + 1) (slash ∷ ename)), h)

  -- A level below that of the root directory is left.
  unfoldable pub IsPut : List ℕ × Level × List Level → Type 0
  IsPut (f, left, levels) = (start ≤ length f) × IsRooted levels × (2 ≤ length levels)

  put_entry-IsPut :
      (x : List ℕ) (ename : Directory) (e : Entry) (f : List ℕ) (levels : List Level)
      → start ≤ length f
      → IsRooted levels
      → IfOk IsPut (put_entry p meta_ofs tmax (slash ∷ x ∷ ename) (some e) f levels)
  unfolding put_entry IsRooted leave_level IsPut or_blank
  put_entry-IsPut x ename e f [] s h = tt
  put_entry-IsPut x ename e f (level ∷ []) s h = rw h.0 tt
  put_entry-IsPut x ename e f (level ∷ root ∷ []) s h = rw h.0 tt
  put_entry-IsPut x ename e f (level ∷ parent ∷ next ∷ above) s h =
      elim (Bool-cases (list_eq bytes_eq (slash ∷ x ∷ ename) level.ename)) [
        | inr other ↦ rw other tt
        | inl same ↦ rw same (
            write_then IsPut level f e _ s (λ f' n' counted s' b.
              (s', IsRooted-receive (n', counted) parent next above h.1, omega arith)))
      ]

  pub golevel-IsPut :
      (x : List ℕ) (ename : Directory) (e : Entry) (f : List ℕ) (levels : List Level)
      → start ≤ length f
      → IsRooted levels
      → IfOk IsPut (golevel p meta_ofs tmax (slash ∷ x ∷ ename) (some e) f levels)
  unfolding golevel IsState absorb receive
  golevel-IsPut x ename e f [] s h = tt
  golevel-IsPut x ename e f (l ∷ above) s h =
      IfOk-bind (IsState start) IsPut
        (close_levels p meta_ofs tmax (slash ∷ x ∷ ename) f none (l ∷ above)) _
        (close_levels-IsState (x ∷ ename) f none (l ∷ above) s h)
        (λ (f', levels) (s', r). then_put f' levels s' r)
    where
      then_put :
          (f' : List ℕ) (levels : List Level)
          → start ≤ length f'
          → IsRooted levels
          → IfOk IsPut (
              put_entry p meta_ofs tmax (slash ∷ x ∷ ename) (some e) f' (
                open_levels (length (slash ∷ x ∷ ename) - depth levels) (slash ∷ x ∷ ename) levels))
      then_put f' [] s' r = absurd (unrooted r)
      then_put f' (m ∷ levels) s' r =
          put_entry-IsPut x ename e f' _ s' (open_levels-IsRooted (x ∷ ename) _ m levels r)

  -- All levels but the root are closed, and it has one entry.
  unfoldable pub IsClosed : List ℕ × List Level → Type 0
  IsClosed (f, levels) =
      (start ≤ length f)
      × ((root : Level) × (r : Entry) × (levels ≡ root ∷ [])
          × (root.ename ≡ [])
          × (root.list ≡ r ∷ [])
          × (r.basename ≡ slash))

  pub close_levels-IsClosed :
      (f : List ℕ) (closed : Option (Entry × ℕ)) (levels : List Level)
      → start ≤ length f
      → IsRooted (absorb closed levels)
      → 2 ≤ length levels
      → IfOk IsClosed (close_levels p meta_ofs tmax [] f closed levels)
  unfolding close_levels absorb IsRooted is_under receive IsClosed blank_directory blank_new_entry
      last_name
  close_levels-IsClosed f closed [] s h k = absurd (omega arith)
  close_levels-IsClosed f closed (l ∷ []) s h k = absurd (omega arith)
  close_levels-IsClosed f closed (l ∷ root ∷ []) s h k =
      let apart : is_under [] ((receive closed l).ename) ≡ false =
        is_under-none ((receive closed l).ename) (omega (arith, ap length h.0)) in
      let rooted : is_under [] root.ename ≡ true = rw h.1 refl in
      let name : last_name (receive closed l).ename ≡ slash = ap last_name h.0 in
      rw apart (
        write_then IsClosed (receive closed l) f
          (blank_directory (receive closed l).ename meta_ofs tmax) _ s
          (λ f' n' counted s' b.
            rw rooted
              (s', (receive (some (n', counted)) root, n', refl, h.1, rw h.2 refl, b ∙ name))))
  close_levels-IsClosed f closed (l ∷ parent ∷ next ∷ above) s h k =
      let apart : is_under [] ((receive closed l).ename) ≡ false =
        is_under-none ((receive closed l).ename) h.0 in
      rw apart (
        write_then IsClosed (receive closed l) f
          (blank_directory (receive closed l).ename meta_ofs tmax) _ s
          (λ f' n' counted s' e.
            close_levels-IsClosed f' (some (n', counted)) (parent ∷ next ∷ above) s'
              (IsRooted-receive (n', counted) parent next above h.1) (omega arith)))
