-- ===== src/DbOps/Cancel.antt =====
-- A remove cancels the create that is under way.
use lattice_runner.Base.{
  ℕ, suc, ◌≤◌, Bool, true, false, ◌≡◌, ◌≢◌, ◌==◌, ==_iff, ==_refl, ◌||◌, refl, sym, ap, ◌∙◌, Option,
  none, some, List, [], ◌∷◌, ◌++◌, Text, text_eq, text_eq_iff, Bool-cases, inl, inr, All, All-map,
  arith,
}
use lattice_runner.DbOps.{
  DbNameOp, DbOps, Kind, remove, Stage, entered, signalled, locked_in, armed, disarmed, unlocked,
  User, State, lookup, put, db_op_for, op_at, release_db_op, enter, moved, write_op, signal, lock,
  arm, disarm, unlock, leave, Step, enters, signals, locks, arms, disarms, unlocks, leaves, initial,
  Reached, start, then_step, mark,
}
use lattice_runner.DbOps.Counts.{
  is_in, one_inside, inside, Inv, All-at, All-drop, put_at, put_off, inside-append,
}
use lattice_runner.DbOps.Invariant.{Reached-Inv, one_inside_self}
use lattice_runner.DbOps.Exclusive.{Reached-exclusive}

-- The object of a create that has stored its function has it still.
abbrev Stored : (ℕ → DbNameOp) → User → Type 0
Stored store w = w.stage ≡ armed → (store w.op).cancel ≡ some w.id

All-insert {ℓ κ} :
    {A : Type ℓ} (P : A → Type κ) (front : List A) (u : A) (back : List A)
    → P u
    → All P (front ++ back)
    → All P (front ++ u ∷ back)
All-insert P [] u back p h = (p, h)
All-insert P (f ∷ front) u back p h = (h.0, All-insert P front u back p h.1)

-- A write elsewhere, or one that leaves the functions alone.
Stored-same :
    (store store' : ℕ → DbNameOp) (us : List User)
    → ((i : ℕ) → (store' i).cancel ≡ (store i).cancel)
    → All (Stored store) us
    → All (Stored store') us
Stored-same store store' us same h = All-map _ _ (λ w p st. same w.op ∙ p st) us h

put-cancel :
    (i : ℕ) (p : DbNameOp) (store : ℕ → DbNameOp)
    → p.cancel ≡ (store i).cancel
    → (j : ℕ) → (put i p store j).cancel ≡ (store j).cancel
unfolding put
put-cancel i p store h j = elim (Bool-cases (j == i)) [
  | inl e ↦ let q : j ≡ i = (==_iff j i).0 e in rw e (h ∙ ap (λ k. (store k).cancel) (sym q))
  | inr e ↦ rw e refl
]

-- A write to an object that no armed user of the list has.
Stored-put :
    (i : ℕ) (p : DbNameOp) (store : ℕ → DbNameOp) (us : List User)
    → All (λ (w : User). w.stage ≡ armed → w.op ≢ i) us
    → All (Stored store) us
    → All (Stored (put i p store)) us
unfolding put
Stored-put i p store [] away h = tt
Stored-put i p store (w ∷ us) away h = (
  λ st. ap (λ (q : DbNameOp). q.cancel) (put_off i w.op p store (away.0 st)) ∙ h.0 st,
  Stored-put i p store us away.1 h.1,
)

-- Nobody else is armed with the object of a user that is inside the lock.
away-rest :
    (o : DbOps) (u : User) (us : List User)
    → inside u.name us ≡ 0
    → ((w : User) → lookup w.name o.table ≡ some u.op → w.name ≡ u.name)
    → All (λ (w : User). lookup w.name o.table ≡ some w.op) us
    → All (λ (w : User). w.stage ≡ armed → w.op ≢ u.op) us
unfolding inside one_inside is_in
away-rest o u [] z names h = tt
away-rest o u (w ∷ us) z names h = (
  λ st same.
      let e : lookup w.name o.table ≡ some u.op = cc (h.0, same) in
      let n : text_eq w.name u.name ≡ true = (text_eq_iff w.name u.name).1 (names w e) in
      absurd (ground (arith, z, n, st)),
  away-rest o u us (omega arith) names h.1,
)

away :
    (front : List User) (u : User) (back : List User) (o : DbOps)
    → Inv o (front ++ u ∷ back)
    → inside u.name (front ++ u ∷ back) ≤ 1
    → is_in u.stage ≡ true
    → All (λ (w : User). w.stage ≡ armed → w.op ≢ u.op) (front ++ back)
away front u back o v bound h =
    let own : lookup u.name o.table ≡ some u.op = All-at _ front u back v.entry in
    let one : one_inside u.name u ≡ 1 = rw (one_inside_self u, h) refl in
    let none_left : inside u.name (front ++ back) ≡ 0 =
      unfold inside in
      omega (arith, inside-append u.name front (u ∷ back), inside-append u.name front back) in
    away-rest o u (front ++ back) none_left (λ w e. v.apart w.name u.name u.op e own)
      (All-drop _ front u back v.entry)

abbrev Armed : State → Type 0
Armed s = All (Stored s.ops.store) s.users

-- A step of one user, whose next stage is not armed, to objects with the same functions.
Armed-step :
    (store store' : ℕ → DbNameOp) (stage : Stage) (front : List User) (u : User) (back : List User)
    → stage ≢ armed
    → ((i : ℕ) → (store' i).cancel ≡ (store i).cancel)
    → All (Stored store) (front ++ u ∷ back)
    → All (Stored store') (front ++ moved stage u ∷ back)
Armed-step store store' stage front u back off same h =
    All-insert _ front (moved stage u) back (λ st. absurd (off st))
      (Stored-same store store' (front ++ back) same (All-drop _ front u back h))

-- The function that is stored changes.
Armed-put :
    (p : DbNameOp) (front : List User) (u : User) (back : List User) (s : State) (stage : Stage)
    → Inv s.ops (front ++ u ∷ back)
    → inside u.name (front ++ u ∷ back) ≤ 1
    → is_in u.stage ≡ true
    → (stage ≡ armed → p.cancel ≡ some u.id)
    → All (Stored s.ops.store) (front ++ u ∷ back)
    → All (Stored (put u.op p s.ops.store)) (front ++ moved stage u ∷ back)
Armed-put p front u back s stage v bound e own h =
    All-insert _ front (moved stage u) back (λ st. rw (put_at u.op p s.ops.store) (own st))
      (Stored-put u.op p s.ops.store (front ++ back) (away front u back s.ops v bound e)
        (All-drop _ front u back h))

-- A new object is nobody's, and an old one keeps its function.
new_away :
    (o : DbOps) (us ws : List User)
    → Inv o us
    → All (λ (w : User). lookup w.name o.table ≡ some w.op) ws
    → All (λ (w : User). w.stage ≡ armed → w.op ≢ o.next) ws
new_away o us [] v h = tt
new_away o us (w ∷ ws) v h = (
  λ st same. absurd (omega (arith, (v.present w.name w.op h.0).made, same)),
  new_away o us ws v h.1,
)

comer-Armed :
    (m : Option ℕ) (n : Text) (id : ℕ) (o : DbOps) (us : List User)
    → Inv o us
    → All (Stored o.store) us
    → (entered ≡ armed → ((op_at n m o).0.store (op_at n m o).1).cancel ≡ some id)
      × All (Stored (op_at n m o).0.store) us
unfolding op_at
comer-Armed none n id o us v h = (
  λ st. absurd (cc st),
  Stored-put o.next (record { locked = false; cancel = none; refs = 1 }) o.store us
      (new_away o us us v v.entry) h,
)
comer-Armed (some i) n id o us v h = (
  λ st. absurd (cc st),
  Stored-same o.store (put i (record (o.store i) { refs = suc (o.store i).refs }) o.store) us
      (put-cancel i (record (o.store i) { refs = suc (o.store i).refs }) o.store refl) h,
)

enter-Armed : (k : Kind) (n : Text) (s : State) → Inv s.ops s.users → Armed s → Armed (enter k n s)
unfolding enter db_op_for
enter-Armed k n s v h = comer-Armed (lookup n s.ops.table) n s.ids s.ops s.users v h

leave-cancel :
    (n : Text) (i : ℕ) (o : DbOps) (j : ℕ)
    → ((release_db_op n i o).store j).cancel ≡ (o.store j).cancel
unfolding release_db_op
leave-cancel n i o = put-cancel i _ o.store refl

Step-Armed : {s t : State} → Reached s → Step s t → Armed s → Armed t
Step-Armed r (enters k n s) h = enter-Armed k n s (Reached-Inv r) h
Step-Armed r (signals front u back s e k st) h =
    unfold signal in
    Armed-step s.ops.store s.ops.store signalled front u back (λ p. cc) (λ i. refl) (rw e at h)
Step-Armed r (locks front u back s e st free) h =
    unfold lock write_op in
    Armed-step s.ops.store (put u.op (record (s.ops.store u.op) { locked = true }) s.ops.store)
      locked_in front u back (λ p. cc)
      (put-cancel u.op (record (s.ops.store u.op) { locked = true }) s.ops.store refl) (rw e at h)
Step-Armed r (arms front u back s e k st) h =
    unfold arm write_op is_in in
    Armed-put (record (s.ops.store u.op) { cancel = some u.id }) front u back s armed
      (rw e at (Reached-Inv r)) (rw e at (Reached-exclusive r u.name)) (ap is_in st) (λ p. refl)
      (rw e at h)
Step-Armed r (disarms front u back s e st) h =
    unfold disarm write_op is_in in
    Armed-put (record (s.ops.store u.op) { cancel = none }) front u back s disarmed
      (rw e at (Reached-Inv r)) (rw e at (Reached-exclusive r u.name)) (ap is_in st)
      (λ p. absurd (cc)) (rw e at h)
Step-Armed r (unlocks front u back s e st) h =
    unfold unlock write_op in
    Armed-step s.ops.store (put u.op (record (s.ops.store u.op) { locked = false }) s.ops.store)
      unlocked front u back (λ p. cc)
      (put-cancel u.op (record (s.ops.store u.op) { locked = false }) s.ops.store refl) (rw e at h)
Step-Armed r (leaves front u back s e st) h =
    unfold leave in
    Stored-same s.ops.store (release_db_op u.name u.op s.ops).store (front ++ back)
      (leave-cancel u.name u.op s.ops) (All-drop _ front u back (rw e at h))

Reached-Armed : {s : State} → Reached s → Armed s
Reached-Armed start = unfold initial in tt
Reached-Armed (then_step r step) = Step-Armed r step (Reached-Armed r)

pub has : ℕ → List ℕ → Bool
has i [] = false
has i (k ∷ ks) = k == i || has i ks

marked : {o : Option ℕ} (i : ℕ) (l : List ℕ) → o ≡ some i → has i (mark o l) ≡ true
unfolding mark has
marked {o} i l e = rw (e, ==_refl i) refl

cancels_each :
    (o : DbOps) (u : User) (l : List ℕ) (us : List User)
    → lookup u.name o.table ≡ some u.op
    → All (λ (w : User). lookup w.name o.table ≡ some w.op) us
    → All (Stored o.store) us
    → All
        (λ (w : User).
          w.stage ≡ armed → w.name ≡ u.name → has w.id (mark (o.store u.op).cancel l) ≡ true)
        us
cancels_each o u l [] own h k = tt
cancels_each o u l (w ∷ us) own h k = (
  λ st n.
      let same : u.op ≡ w.op = cc (own, h.0, ap (λ m. lookup m o.table) n) in
      marked w.id l (ap (λ i. (o.store i).cancel) same ∙ k.0 st),
  cancels_each o u l us own h.1 k.1,
)

-- A remove cancels each create of its container that is under way when it comes in: in every
-- reachable state, the first part of beginDbRemove has cancelled the context of each create of that
-- name that has stored its cancel function and has not finished.
pub signal-cancels :
    {s : State} (front : List User) (u : User) (back : List User)
    → Reached s
    → s.users ≡ front ++ u ∷ back
    → u.kind ≡ remove
    → u.stage ≡ entered
    → All
        (λ (w : User).
          w.stage ≡ armed → w.name ≡ u.name → has w.id (signal front u back s).cancelled ≡ true)
        s.users
unfolding signal
signal-cancels {s} front u back r e k st =
    let v : Inv s.ops s.users = Reached-Inv r in
    let own : lookup u.name s.ops.table ≡ some u.op = All-at _ front u back (rw e at v).entry in
    cancels_each s.ops u s.cancelled s.users own v.entry (Reached-Armed r)
