-- ===== src/DbOps/Moves.antt =====
-- A goroutine that goes on keeps the table right.
use lattice_runner.Base.{
  ℕ, ◌+◌, false, ◌≡◌, ap, ◌∙◌, some, List, ◌∷◌, ◌++◌, Text, text_eq, text_eq_iff, Bool-cases, inl,
  inr, arith,
}
use lattice_runner.DbOps.{DbNameOp, DbOps, Stage, User, lookup, put, moved}
use lattice_runner.DbOps.Counts.{
  one_inside, locked_count, Counts, Inv, Counts-eq, All-at, All-put, named-moved, inside-moved,
  inside-other, put_at, put_off, ops_apart, absent_apart,
}

-- A step that changes one object, keeping its references, and the stage of a user of it.
module _ (f : DbNameOp → DbNameOp) (stage : Stage) (front : List User) (u : User) (back : List User)
    (o : DbOps) (keeps : (p : DbNameOp) → (f p).refs ≡ p.refs)
    (count : locked_count (f (o.store u.op)) + one_inside u.name u
      ≡ locked_count (o.store u.op) + one_inside u.name (moved stage u))
    (v : Inv o (front ++ u ∷ back)) where
  abbrev pub after : DbOps
  after = record o { store = put u.op (f (o.store u.op)) o.store }

  own : lookup u.name o.table ≡ some u.op
  own = All-at _ front u back v.entry

  write-own : Counts after (front ++ moved stage u ∷ back) u.name u.op
  write-own =
      let c : Counts o (front ++ u ∷ back) u.name u.op = v.present u.name u.op own in
      let e : put u.op (f (o.store u.op)) o.store u.op ≡ f (o.store u.op) =
        put_at u.op (f (o.store u.op)) o.store in
      let r : (f (o.store u.op)).refs ≡ (o.store u.op).refs = keeps (o.store u.op) in
      record {
        refs = rw (e, named-moved u.name front u back stage) (r ∙ c.refs);
        used = rw e (rw r c.used);
        held = rw e (omega (arith, inside-moved u.name front u back stage, c.held, count));
        made = c.made;
      }

  write-other :
      (n : Text) (i : ℕ)
      → lookup n o.table ≡ some i
      → text_eq u.name n ≡ false
      → Counts after (front ++ moved stage u ∷ back) n i
  write-other n i e h =
      let c : Counts o (front ++ u ∷ back) n i = v.present n i e in
      let same : put u.op (f (o.store u.op)) o.store i ≡ o.store i =
        put_off u.op i (f (o.store u.op)) o.store (ops_apart n u.name v e own h) in
      record {
        refs = rw (same, named-moved n front u back stage) c.refs;
        used = rw same c.used;
        held = rw (same, inside-other n front u back stage h) c.held;
        made = c.made;
      }

  pub Inv-write : Inv after (front ++ moved stage u ∷ back)
  Inv-write = record {
    entry = All-put _ front u (moved stage u) back own v.entry;
    absent = λ n e. (
      named-moved n front u back stage ∙ (v.absent n e).0,
      inside-other n front u back stage (absent_apart o u n own e) ∙ (v.absent n e).1,
    );
    present = λ n i e. elim (Bool-cases (text_eq u.name n)) [
      | inl same ↦
          let p : u.name ≡ n = (text_eq_iff u.name n).0 same in
          let q : u.op ≡ i = cc (own, e, ap (λ m. lookup m o.table) p) in Counts-eq p q write-own
      | inr other ↦ write-other n i e other
    ];
    apart = v.apart;
  }
