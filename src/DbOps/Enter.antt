-- ===== src/DbOps/Enter.antt =====
-- A goroutine that comes in keeps the table right.
use lattice_runner.Base.{
  ℕ, suc, false, ◌≡◌, ◌≢◌, refl, ap, none, some, List, ◌∷◌, Text, text_eq, text_eq_iff,
  text_eq_refl, Bool-cases, inl, inr, All-map, arith,
}
use lattice_runner.DbOps.{DbNameOp, DbOps, Kind, entered, User, lookup, put, op_at}
use lattice_runner.DbOps.Counts.{
  is_in, one_named, one_inside, named, inside, Counts, Inv, Counts-eq, put_at, put_off, ops_apart,
  absent_apart,
}

-- The goroutine comes in, where its name has no object and where it has one.
module _ (k : Kind) (n : Text) (id : ℕ) (o : DbOps) (us : List User) (v : Inv o us) where
  abbrev pub comer : ℕ → User
  comer i = record { id = id; name = n; op = i; kind = k; stage = entered }

  abbrev new_op : DbNameOp
  new_op = record { locked = false; cancel = none; refs = 1 }

  new-own : lookup n o.table ≡ none → Counts (op_at n none o).0 (comer o.next ∷ us) n o.next
  unfolding op_at named inside one_named one_inside is_in
  new-own h =
      let e : put o.next new_op o.store o.next ≡ new_op = put_at o.next new_op o.store in
      let (none_named, none_inside) = v.absent n h in
      record {
        refs = rw (e, text_eq_refl n) (omega arith);
        used = rw e (omega arith);
        held = rw (e, text_eq_refl n) (omega arith);
        made = omega arith;
      }

  pub enter-new : lookup n o.table ≡ none → Inv (op_at n none o).0 (comer o.next ∷ us)
  unfolding op_at lookup named inside one_named one_inside is_in
  enter-new h = record {
    entry = (
      rw (text_eq_refl n) refl,
      All-map _ _
          (λ (u : User) (e : lookup u.name o.table ≡ some u.op).
            ground (arith, text_eq_iff n u.name, h, e, ap (λ m. lookup m o.table)))
          us v.entry,
    );
    absent = λ m e.
        let old : lookup m o.table ≡ none → (named m us ≡ 0) × (inside m us ≡ 0) = v.absent m in
        ground arith;
    present = λ m i e. elim (Bool-cases (text_eq n m)) [
      | inl same ↦
          let p : n ≡ m = (text_eq_iff n m).0 same in
          let q : o.next ≡ i = cc (rw same at e) in Counts-eq p q (new-own h)
      | inr other ↦
          let c : Counts o us m i = v.present m i (rw other at e) in
          let apart : i ≢ o.next = λ p. absurd (omega (arith, c.made)) in
          let same : put o.next new_op o.store i ≡ o.store i = put_off o.next i _ o.store apart in
          record {
            refs = rw (same, other) (omega (arith, c.refs));
            used = rw same c.used;
            held = rw (same, other) (omega (arith, c.held));
            made = omega (arith, c.made);
          }
    ];
    apart = λ m l i e g. ground (
      arith,
      text_eq_iff n m,
      text_eq_iff n l,
      v.apart m l i,
      λ (f : lookup m o.table ≡ some i). (v.present m i f).made,
      λ (f : lookup l o.table ≡ some i). (v.present l i f).made,
    );
  }

  abbrev one_more : DbNameOp → DbNameOp
  one_more p = record p { refs = suc p.refs }

  old-own : (i : ℕ) → lookup n o.table ≡ some i → Counts (op_at n (some i) o).0 (comer i ∷ us) n i
  unfolding op_at named inside one_named one_inside is_in
  old-own i h =
      let c : Counts o us n i = v.present n i h in
      let e : put i (one_more (o.store i)) o.store i ≡ one_more (o.store i) =
        put_at i (one_more (o.store i)) o.store in
      record {
        refs = rw (e, text_eq_refl n) (omega (arith, c.refs));
        used = rw e (omega arith);
        held = rw (e, text_eq_refl n) (omega (arith, c.held));
        made = c.made;
      }

  pub enter-old : (i : ℕ) → lookup n o.table ≡ some i → Inv (op_at n (some i) o).0 (comer i ∷ us)
  unfolding op_at named inside one_named one_inside is_in
  enter-old i h = record {
    entry = (h, v.entry);
    absent = λ m e.
        let old : (named m us ≡ 0) × (inside m us ≡ 0) = v.absent m e in
        let other : text_eq n m ≡ false = absent_apart o (comer i) m h e in ground arith;
    present = λ m j e. elim (Bool-cases (text_eq n m)) [
      | inl same ↦
          let p : n ≡ m = (text_eq_iff n m).0 same in
          let q : i ≡ j = cc (h, e, ap (λ l. lookup l o.table) p) in Counts-eq p q (old-own i h)
      | inr other ↦
          let c : Counts o us m j = v.present m j e in
          let same : put i (one_more (o.store i)) o.store j ≡ o.store j =
            put_off i j _ o.store (ops_apart m n v e h other) in
          record {
            refs = rw (same, other) (omega (arith, c.refs));
            used = rw same c.used;
            held = rw (same, other) (omega (arith, c.held));
            made = c.made;
          }
    ];
    apart = v.apart;
  }
