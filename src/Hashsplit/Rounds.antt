-- ===== src/Hashsplit/Rounds.antt =====
-- The rounds of the loop of `_squish`, and that it is given enough of them.
use native.Mathlib.Nat.{zero-add, suc-add}
use bup.Base.{
  ℕ, zero, suc, ◌+◌, ◌-◌, ◌≤◌, ◌<◌, ◌≡◌, sym, ap, ◌∙◌, arith, Bool, true, false, ◌||◌, List, [],
  ◌∷◌, ◌++◌, ltb, leb, length, All, Bool-cases, inl, inr,
}
use bup.Hashsplit.{Entry, TreeEntry, carried, squish_loop, rounds, max_per_tree, squish}

module _ {Sha : Type 0} (maketree : List (TreeEntry Sha) → Sha) where
  -- The test of the loop: `i < n or len(stacks[i]) >= MAX_PER_TREE`.
  abbrev pub goes_on : ℕ → List (Entry Sha) → Bool
  goes_on n stack = ltb 0 n || leb max_per_tree (length stack)

  pub squish_loop-stop :
      (fuel n : ℕ) (stack : List (Entry Sha)) (above : List (List (Entry Sha)))
      → goes_on n stack ≡ false
      → squish_loop maketree (suc fuel) n stack above ≡ stack ∷ above
  unfolding squish_loop
  squish_loop-stop fuel n stack [] stop = rw stop
  squish_loop-stop fuel n stack (next ∷ above) stop = rw stop

  pub squish_loop-new :
      (fuel n : ℕ) (stack : List (Entry Sha))
      → goes_on n stack ≡ true
      → squish_loop maketree (suc fuel) n stack []
        ≡ [] ∷ squish_loop maketree fuel (n - 1) (carried maketree stack) []
  unfolding squish_loop
  squish_loop-new fuel n stack go = rw go

  pub squish_loop-next :
      (fuel n : ℕ) (stack next : List (Entry Sha)) (above : List (List (Entry Sha)))
      → goes_on n stack ≡ true
      → squish_loop maketree (suc fuel) n stack (next ∷ above)
        ≡ [] ∷ squish_loop maketree fuel (n - 1) (next ++ carried maketree stack) above
  unfolding squish_loop
  squish_loop-next fuel n stack next above go = rw go

  pub length-carried : (stack : List (Entry Sha)) → length (carried maketree stack) ≤ 1
  unfolding carried
  length-carried [] = omega arith
  length-carried (e ∷ []) = omega arith
  length-carried (e ∷ f ∷ l) = omega arith

  -- A stack that was just made is not full, and n is used up there.
  new_stack_stops :
      (fuel : ℕ) (stack : List (Entry Sha))
      → squish_loop maketree (suc fuel) 0 (carried maketree stack) [] ≡ carried maketree stack ∷ []
  new_stack_stops fuel stack =
      squish_loop-stop fuel 0 (carried maketree stack) [] (ground (arith, length-carried stack))

  squish_loop_enough :
      (fuel n : ℕ) (stack : List (Entry Sha)) (above : List (List (Entry Sha)))
      → n + length above + 2 ≤ fuel
      → squish_loop maketree (suc fuel) n stack above ≡ squish_loop maketree fuel n stack above
  squish_loop_enough zero n stack above h = absurd (omega arith)
  squish_loop_enough (suc zero) n stack above h = absurd (omega arith)
  squish_loop_enough (suc (suc fuel)) n stack above h = elim (Bool-cases (goes_on n stack)) [
    | inr stop ↦
        squish_loop-stop (suc (suc fuel)) n stack above stop
        ∙ sym (squish_loop-stop (suc fuel) n stack above stop)
    | inl go ↦ onward fuel n stack above go h (λ m s a. squish_loop_enough (suc fuel) m s a)
  ]
    where
      onward :
          (fuel n : ℕ) (stack : List (Entry Sha)) (above : List (List (Entry Sha)))
          → goes_on n stack ≡ true
          → n + length above + 2 ≤ suc (suc fuel)
          → ((m : ℕ) (s : List (Entry Sha)) (a : List (List (Entry Sha)))
              → m + length a + 2 ≤ suc fuel
              → squish_loop maketree (suc (suc fuel)) m s a ≡ squish_loop maketree (suc fuel) m s a)
          → squish_loop maketree (suc (suc (suc fuel))) n stack above
            ≡ squish_loop maketree (suc (suc fuel)) n stack above
      onward fuel zero stack [] go h ih =
          squish_loop-new (suc (suc fuel)) 0 stack go
          ∙ (ap (λ (t : List (List (Entry Sha))). [] ∷ t)
                (new_stack_stops (suc fuel) stack ∙ sym (new_stack_stops fuel stack))
              ∙ sym (squish_loop-new (suc fuel) 0 stack go))
      onward fuel (suc n) stack [] go h ih =
          squish_loop-new (suc (suc fuel)) (suc n) stack go
          ∙ (ap (λ (t : List (List (Entry Sha))). [] ∷ t)
                (ih (suc n - 1) (carried maketree stack) [] (omega arith))
              ∙ sym (squish_loop-new (suc fuel) (suc n) stack go))
      onward fuel n stack (next ∷ above) go h ih =
          squish_loop-next (suc (suc fuel)) n stack next above go
          ∙ (ap (λ (t : List (List (Entry Sha))). [] ∷ t)
                (ih (n - 1) (next ++ carried maketree stack) above (omega arith))
              ∙ sym (squish_loop-next (suc fuel) n stack next above go))

  -- More rounds than _squish is given change nothing: its loop has ended by its own test.
  pub squish_loop-rounds :
      (more n : ℕ) (stack : List (Entry Sha)) (above : List (List (Entry Sha)))
      → squish_loop maketree (more + rounds maketree n above) n stack above
        ≡ squish maketree (stack ∷ above) n
  unfolding squish
  squish_loop-rounds zero n stack above = rw zero-add
  squish_loop-rounds (suc more) n stack above = rw suc-add (
      squish_loop_enough (more + rounds maketree n above) n stack above (omega arith)
      ∙ squish_loop-rounds more n stack above)

  -- No stack is full.
  abbrev pub IsRoomy : List (Entry Sha) → Type 0
  IsRoomy stack = length stack < max_per_tree

  squish_loop-IsRoomy :
      (fuel n : ℕ) (stack : List (Entry Sha)) (above : List (List (Entry Sha)))
      → n + length above + 2 ≤ fuel
      → All IsRoomy above
      → All IsRoomy (squish_loop maketree fuel n stack above)
  squish_loop-IsRoomy zero n stack above h room = absurd (omega arith)
  squish_loop-IsRoomy (suc fuel) n stack above h room = elim (Bool-cases (goes_on n stack)) [
    | inr stop ↦ rw (squish_loop-stop fuel n stack above stop) (ground arith, room)
    | inl go ↦ onward fuel n stack above go h room (λ m s a. squish_loop-IsRoomy fuel m s a)
  ]
    where
      onward :
          (fuel n : ℕ) (stack : List (Entry Sha)) (above : List (List (Entry Sha)))
          → goes_on n stack ≡ true
          → n + length above + 2 ≤ suc fuel
          → All IsRoomy above
          → ((m : ℕ) (s : List (Entry Sha)) (a : List (List (Entry Sha)))
              → m + length a + 2 ≤ fuel
              → All IsRoomy a
              → All IsRoomy (squish_loop maketree fuel m s a))
          → All IsRoomy (squish_loop maketree (suc fuel) n stack above)
      onward zero n stack above go h room ih = absurd (omega arith)
      onward (suc fuel) zero stack [] go h room ih =
          rw (squish_loop-new (suc fuel) 0 stack go, new_stack_stops fuel stack)
            (omega arith, (omega (arith, length-carried stack), tt))
      onward (suc fuel) (suc n) stack [] go h room ih =
          rw (squish_loop-new (suc fuel) (suc n) stack go)
            (omega arith, ih (suc n - 1) (carried maketree stack) [] (omega arith) tt)
      onward (suc fuel) n stack (next ∷ above) go h room ih =
          rw (squish_loop-next (suc fuel) n stack next above go)
            (omega arith, ih (n - 1) (next ++ carried maketree stack) above (omega arith) room.1)

  -- After _squish no stack has 256 entries or more, if the stacks behind the first had not before.
  pub squish-IsRoomy :
      (stack : List (Entry Sha)) (above : List (List (Entry Sha))) (n : ℕ)
      → All IsRoomy above
      → All IsRoomy (squish maketree (stack ∷ above) n)
  unfolding squish
  squish-IsRoomy stack above n room =
      squish_loop-IsRoomy (rounds maketree n above) n stack above (omega arith) room
