-- ===== src/DbOps/Exclusive.antt =====
-- What creates and removes of one container rely on.
use lattice_runner.Base.{◌<◌, ◌≤◌, ◌≡◌, ◌≢◌, ◌↔◌, none, Text, Option-cases, inl, inr, arith}
use lattice_runner.DbOps.{State, lookup, Reached}
use lattice_runner.DbOps.Counts.{named, inside, locked_count, Counts, Inv}
use lattice_runner.DbOps.Invariant.{Reached-Inv}

-- In every reachable state, at most one create or remove of a container name is between Lock and
-- Unlock, whatever names the goroutines have and in whatever order they come and go.
pub Reached-exclusive : {s : State} → Reached s → (n : Text) → inside n s.users ≤ 1
Reached-exclusive {s} r n =
    let v : Inv s.ops s.users = Reached-Inv r in
    elim (Option-cases (lookup n s.ops.table)) [
      | inl e ↦ omega (arith, (v.absent n e).1)
      | inr (i, e) ↦
          let h : inside n s.users ≡ locked_count (s.ops.store i) = (v.present n i e).held in
          ground arith
    ]

-- The table of operations holds no entry that nobody uses, and loses none that somebody uses: in
-- every reachable state, a name has an entry exactly while a create or a remove of it is under way.
pub Reached-entry :
    {s : State} → Reached s → (n : Text) → (lookup n s.ops.table ≢ none) ↔ (0 < named n s.users)
Reached-entry {s} r n =
    let v : Inv s.ops s.users = Reached-Inv r in
    elim (Option-cases (lookup n s.ops.table)) [
      | inl e ↦ (λ h. absurd (h e), λ h. absurd (omega (arith, (v.absent n e).0)))
      | inr (i, e) ↦
          let c : Counts s.ops s.users n i = v.present n i e in
          (λ h. omega (arith, c.refs, c.used), λ h p. absurd (cc (e, p)))
    ]
