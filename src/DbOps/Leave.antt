-- ===== src/DbOps/Leave.antt =====
-- A goroutine that leaves keeps the table right.
use lattice_runner.Base.{
  ℕ, ◌+◌, ◌-◌, ◌≤◌, false, ◌≡◌, ◌≢◌, refl, ap, none, some, List, [], ◌∷◌, ◌++◌, Text, text_eq,
  text_eq_iff, text_eq_refl, Bool-cases, inl, inr, All, arith,
}
use lattice_runner.DbOps.{DbNameOp, DbOps, unlocked, User, lookup, delete_name, put}
use lattice_runner.DbOps.Counts.{
  is_in, one_named, one_inside, named, inside, named-append, inside-append, lookup-delete, Counts,
  Inv, Counts-eq, All-at, All-drop, put_at, put_off, ops_apart,
}

-- The counts without one user.
module _ (n : Text) (front : List User) (u : User) (back : List User) where
  named-drop : named n (front ++ u ∷ back) ≡ one_named n u + named n (front ++ back)
  unfolding named
  named-drop = omega (arith, named-append n front (u ∷ back), named-append n front back)

  inside-drop : inside n (front ++ u ∷ back) ≡ one_inside n u + inside n (front ++ back)
  unfolding inside
  inside-drop = omega (arith, inside-append n front (u ∷ back), inside-append n front back)

inside-le-named : (n : Text) (us : List User) → inside n us ≤ named n us
unfolding inside named one_inside one_named
inside-le-named n [] = omega arith
inside-le-named n (u ∷ us) = ground (arith, inside-le-named n us)

-- Users of other names do not miss an entry.
entry-delete :
    (n : Text) (t : List (Text × ℕ)) (us : List User)
    → named n us ≡ 0
    → All (λ (w : User). lookup w.name t ≡ some w.op) us
    → All (λ (w : User). lookup w.name (delete_name n t) ≡ some w.op) us
unfolding named one_named
entry-delete n t [] z h = tt
entry-delete n t (w ∷ us) z h = (
  ground (arith, z, h.0, lookup-delete w.name n t, text_eq_iff n w.name, text_eq_iff w.name n),
  entry-delete n t us (omega arith) h.1,
)

module _ (front : List User) (u : User) (back : List User) (o : DbOps) (done : u.stage ≡ unlocked)
    (v : Inv o (front ++ u ∷ back)) where
  own : lookup u.name o.table ≡ some u.op
  own = All-at _ front u back v.entry

  abbrev one_less : DbNameOp
  one_less = let p : DbNameOp = o.store u.op in record p { refs = p.refs - 1 }

  own_named : one_named u.name u ≡ 1
  unfolding one_named
  own_named = rw (text_eq_refl u.name) refl

  own_inside : (n : Text) → one_inside n u ≡ 0
  unfolding one_inside is_in
  own_inside n = elim (Bool-cases (text_eq u.name n)) [
    | inl e ↦ rw (e, done) refl
    | inr e ↦ rw e refl
  ]

  other_named : (n : Text) → text_eq u.name n ≡ false → one_named n u ≡ 0
  unfolding one_named
  other_named n e = rw e refl

  own_counts : Counts o (front ++ u ∷ back) u.name u.op
  own_counts = v.present u.name u.op own

  -- The other names keep their objects, whatever the table becomes.
  leave-other :
      (t : List (Text × ℕ)) (n : Text) (i : ℕ)
      → lookup n o.table ≡ some i
      → text_eq u.name n ≡ false
      → Counts (record o { store = put u.op one_less o.store; table = t }) (front ++ back) n i
  leave-other t n i e h =
      let c : Counts o (front ++ u ∷ back) n i = v.present n i e in
      let same : put u.op one_less o.store i ≡ o.store i =
        put_off u.op i one_less o.store (ops_apart n u.name v e own h) in
      record {
        refs = rw same (omega (arith, c.refs, named-drop n front u back, other_named n h));
        used = rw same c.used;
        held = rw same (omega (arith, c.held, inside-drop n front u back, own_inside n));
        made = c.made;
      }

  -- The counts of a name with no entry.
  absent-drop :
      (n : Text)
      → lookup n o.table ≡ none
      → (named n (front ++ back) ≡ 0) × (inside n (front ++ back) ≡ 0)
  absent-drop n e =
      let (z, w) = v.absent n e in
      (omega (arith, named-drop n front u back), omega (arith, inside-drop n front u back))

  found :
      (n : Text) (i : ℕ)
      → lookup n (delete_name u.name o.table) ≡ some i
      → text_eq u.name n ≡ false
      → lookup n o.table ≡ some i
  found n i e other = ground (arith, e, lookup-delete n u.name o.table, other)

  -- The last user takes the entry away.
  pub leave-last :
      (o.store u.op).refs ≡ 1
      → Inv
          (record o { store = put u.op one_less o.store; table = delete_name u.name o.table })
          (front ++ back)
  leave-last last =
      let c : Counts o (front ++ u ∷ back) u.name u.op = own_counts in
      let gone : named u.name (front ++ back) ≡ 0 =
        omega (arith, c.refs, last, named-drop u.name front u back, own_named) in
      let empty : inside u.name (front ++ back) ≡ 0 =
        omega (arith, gone, inside-le-named u.name (front ++ back)) in
      record {
        entry = entry-delete u.name o.table (front ++ back) gone (All-drop _ front u back v.entry);
        absent = λ n e. elim (Bool-cases (text_eq u.name n)) [
          | inl same ↦
              let p : u.name ≡ n = (text_eq_iff u.name n).0 same in (rw (← p) gone, rw (← p) empty)
          | inr other ↦ absent-drop n (ground (arith, e, lookup-delete n u.name o.table, other))
        ];
        present = λ n i e. elim (Bool-cases (text_eq u.name n)) [
          | inl same ↦ absurd (ground (arith, e, lookup-delete n u.name o.table, same))
          | inr other ↦ leave-other (delete_name u.name o.table) n i (found n i e other) other
        ];
        apart = λ n m i e g. ground (
          arith,
          lookup-delete n u.name o.table,
          lookup-delete m u.name o.table,
          v.apart n m i,
          e,
          g,
        );
      }

  own_shared :
      (o.store u.op).refs ≢ 1
      → Counts (record o { store = put u.op one_less o.store }) (front ++ back) u.name u.op
  own_shared shared =
      let c : Counts o (front ++ u ∷ back) u.name u.op = own_counts in
      let e : put u.op one_less o.store u.op ≡ one_less = put_at u.op one_less o.store in
      record {
        refs = rw e (omega (arith, c.refs, named-drop u.name front u back, own_named));
        used = rw e (omega (arith, c.used, shared));
        held = rw e (omega (arith, c.held, inside-drop u.name front u back, own_inside u.name));
        made = c.made;
      }

  -- Another user keeps the entry.
  pub leave-shared :
      (o.store u.op).refs ≢ 1
      → Inv (record o { store = put u.op one_less o.store; table = o.table }) (front ++ back)
  leave-shared shared = record {
    entry = All-drop _ front u back v.entry;
    absent = λ n e. absent-drop n e;
    present = λ n i e. elim (Bool-cases (text_eq u.name n)) [
      | inl same ↦
          let p : u.name ≡ n = (text_eq_iff u.name n).0 same in
          let q : u.op ≡ i = cc (own, e, ap (λ m. lookup m o.table) p) in
          Counts-eq p q (own_shared shared)
      | inr other ↦ leave-other o.table n i e other
    ];
    apart = v.apart;
  }
