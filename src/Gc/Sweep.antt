-- ===== src/Gc/Sweep.antt =====
-- What the first loop over an index finds out about the pack.
use bup.Base.{
  ℕ, ◌<◌, ◌≡◌, ◌⊎◌, inl, inr, refl, sym, ap, ◌∙◌, arith, true, false, List, [], ◌∷◌, length,
  bytes_eq, bytes_eq_refl, bytes_eq→eq, Bool-cases,
}
use bup.Base.Dict.{Key, contains}
use bup.Base.Error.{Result, ok, err, undefined, ◌>>=◌}
use bup.Gc.{Scan, is_live, noted, scan_idx}
use bup.Gc.Keep.{Collection, Live}

module _ (g : Collection) where
  -- What a scan says of the objects of an index.
  pub record Scanned (shas : List Key) (scan : Scan) : Type 0 where
    pub only_live : (sha : Key) → contains sha scan.live_in_this_pack ≡ true → Live g sha
    pub every_live :
        (sha : Key)
        → Live g sha
        → contains sha shas ≡ true
        → (contains sha scan.live_in_this_pack ≡ true) × (0 < scan.idx_live_count)
    pub all_or_dead :
        ((scan.idx_live_count ≡ length shas) × (scan.must_rewrite ≡ false))
        ⊎ ((d : Key) × (contains d shas ≡ true) × ¬ (Live g d))

  scan_noted :
      (sha type : Key) (content : List ℕ) (shas : List Key) (scan : Scan)
      → g.cat sha ≡ ok (type, content)
      → Scanned shas scan
      → Scanned (sha ∷ shas) (noted g.cat g.live_objects g.live_trees type sha scan)
  unfolding noted contains
  scan_noted sha type content shas scan e h =
      elim (Bool-cases (is_live g.cat g.live_objects g.live_trees type sha)) [
        | inl live ↦ rw live (record {
          only_live = λ x c. elim (Bool-cases (bytes_eq sha x)) [
            | inl here ↦ rw (← bytes_eq→eq sha x here) (type, content, e, live)
            | inr other ↦ h.only_live x (ground (arith, c))
          ];
          every_live = λ x l c. elim (Bool-cases (bytes_eq sha x)) [
            | inl here ↦ (rw here, omega arith)
            | inr other ↦
                let (i, n) = h.every_live x l (ground (arith, c)) in (rw (other, i), omega arith)
          ];
          all_or_dead = elim h.all_or_dead [
            | inl (n, m) ↦ inl (omega arith, m)
            | inr (d, i, dead) ↦ inr (d, ground (arith, i), dead)
          ];
        })
        | inr dead ↦ rw dead (record {
          only_live = h.only_live;
          every_live = λ x l c. elim (Bool-cases (bytes_eq sha x)) [
            | inl here ↦ absurd (not_live dead x (bytes_eq→eq sha x here) l)
            | inr other ↦ h.every_live x l (ground (arith, c))
          ];
          all_or_dead = inr (sha, rw (bytes_eq_refl sha), not_live dead sha refl);
        })
      ]
    where
      not_live :
          is_live g.cat g.live_objects g.live_trees type sha ≡ false
          → (x : Key) → sha ≡ x
          → ¬ (Live g x)
      not_live dead x s (t, c, e', l) =
          let both : ◌≡◌ {A = Result (Key × List ℕ)} (ok (type, content)) (ok (t, c)) =
            sym e ∙ (ap g.cat s ∙ e') in
          let types : type ≡ t = cc in
          ground (
            arith,
            dead,
            l,
            ap (λ y. is_live g.cat g.live_objects g.live_trees y sha) types,
            ap (λ y. is_live g.cat g.live_objects g.live_trees t y) s,
          )

  scan_found :
      (sha : Key) (shas : List Key) (found : Result (Key × List ℕ)) (rest : Result Scan)
      (scan : Scan)
      → g.cat sha ≡ found
      → ((s : Scan) → rest ≡ ok s → Scanned shas s)
      → (do
        (type, content) ← found
        r ← rest
        ok (noted g.cat g.live_objects g.live_trees type sha r))
        ≡ ok scan
      → Scanned (sha ∷ shas) scan
  scan_found sha shas (ok (type, content)) (ok r) scan e ih h =
      let same : noted g.cat g.live_objects g.live_trees type sha r ≡ scan = cc in
      rw (← same) (scan_noted sha type content shas r e (ih r refl))
  scan_found sha shas (ok (type, content)) (err x) scan e ih h = cc
  scan_found sha shas (ok (type, content)) undefined scan e ih h = cc
  scan_found sha shas (err x) rest scan e ih h = cc
  scan_found sha shas undefined rest scan e ih h = cc

  pub scan_idx-Scanned :
      (shas : List Key) (scan : Scan)
      → scan_idx g.cat g.live_objects g.live_trees shas ≡ ok scan
      → Scanned shas scan
  unfolding scan_idx contains
  scan_idx-Scanned [] scan e =
      let none_found : scan
          ≡ record { idx_live_count = 0; must_rewrite = false; live_in_this_pack = [] } =
        cc in
      rw none_found (record {
        only_live = λ sha c. cc;
        every_live = λ sha l c. cc;
        all_or_dead = inl (refl, refl);
      })
  scan_idx-Scanned (sha ∷ shas) scan e =
      scan_found sha shas (g.cat sha) (scan_idx g.cat g.live_objects g.live_trees shas) scan refl
        (λ s r. scan_idx-Scanned shas s r) e
