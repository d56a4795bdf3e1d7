-- ===== src/DbOps/Invariant.antt =====
-- Every state that the goroutines can reach has its table right.
use mathlib.Core.Path.{subst}
use lattice_runner.Base.{
  ◌≤◌, true, false, ◌≡◌, ◌==◌, ==_iff, refl, ap, ◌∙◌, none, some, List, ◌∷◌, ◌++◌, Text,
  text_eq_refl, if◌then◌else◌, Bool-cases, Option-cases, inl, inr, arith,
}
use lattice_runner.DbOps.{
  DbNameOp, Kind, create, remove, entered, signalled, locked_in, armed, disarmed, unlocked, User,
  State, lookup, db_op_for, op_at, release_db_op, enter, moved, write_op, signal, lock, arm, disarm,
  unlock, leave, before_lock, before_unlock, Step, enters, signals, locks, arms, disarms, unlocks,
  leaves, initial, Reached, start, then_step,
}
use lattice_runner.DbOps.Counts.{
  inside-append, is_in, one_inside, named, inside, locked_count, Counts, Inv, All-at, put_self,
}
use lattice_runner.DbOps.Moves.{Inv-write}
use lattice_runner.DbOps.Enter.{enter-new, enter-old}
use lattice_runner.DbOps.Leave.{leave-last, leave-shared}

enter-Inv :
    (k : Kind) (n : Text) (s : State)
    → Inv s.ops s.users
    → Inv (enter k n s).ops (enter k n s).users
unfolding enter db_op_for
enter-Inv k n s v = elim (Option-cases (lookup n s.ops.table)) [
  | inl e ↦ rw (e, op_at) (enter-new k n s.ids s.ops s.users v e)
  | inr (i, e) ↦ rw (e, op_at) (enter-old k n s.ids s.ops s.users v i e)
]

pub one_inside_self : (u : User) → one_inside u.name u ≡ (if is_in u.stage then 1 else 0)
unfolding one_inside
one_inside_self u = rw (text_eq_refl u.name) refl

inside-le :
    (n : Text) (front : List User) (u : User) (back : List User)
    → one_inside n u ≤ inside n (front ++ u ∷ back)
unfolding inside
inside-le n front u back = omega (arith, inside-append n front (u ∷ back))

module _ (front : List User) (u : User) (back : List User) (s : State)
    (v : Inv s.ops (front ++ u ∷ back)) where
  abbrev obj : DbNameOp
  obj = s.ops.store u.op

  -- Inside the lock the object is locked.
  inside-locked : is_in u.stage ≡ true → locked_count obj ≡ 1
  inside-locked h =
      let c : Counts s.ops (front ++ u ∷ back) u.name u.op =
        v.present u.name u.op (All-at _ front u back v.entry) in
      let one : one_inside u.name u ≡ 1 = rw (one_inside_self u, h) refl in
      let bound : locked_count obj ≤ 1 = ground arith in
      omega (arith, c.held, one, inside-le u.name front u back)

  -- A step that touches no lock.
  signal-Inv : u.stage ≡ entered → Inv (signal front u back s).ops (signal front u back s).users
  unfolding signal
  signal-Inv e =
      let same : one_inside u.name u ≡ one_inside u.name (moved signalled u) =
        unfold is_in in rw (one_inside_self u, one_inside_self (moved signalled u), e) refl in
      subst (λ st. Inv (record s.ops { store = st }) (front ++ moved signalled u ∷ back))
        (put_self u.op s.ops.store)
        (Inv-write (λ p. p) signalled front u back s.ops (λ p. refl) (rw same refl) v)

  lock-Inv :
      is_in u.stage ≡ false
      → obj.locked ≡ false
      → Inv (lock front u back s).ops (lock front u back s).users
  unfolding lock write_op is_in
  lock-Inv e h =
      let before : one_inside u.name u ≡ 0 = rw (one_inside_self u, e) refl in
      let then_one : one_inside u.name (moved locked_in u) ≡ 1 =
        one_inside_self (moved locked_in u) in
      Inv-write (λ p. record p { locked = true }) locked_in front u back s.ops (λ p. refl)
        (rw (before, then_one, h) (omega arith)) v

  arm-Inv : u.stage ≡ locked_in → Inv (arm front u back s).ops (arm front u back s).users
  unfolding arm write_op is_in
  arm-Inv e =
      let same : one_inside u.name u ≡ one_inside u.name (moved armed u) =
        rw (one_inside_self u, one_inside_self (moved armed u), e) refl in
      Inv-write (λ p. record p { cancel = some u.id }) armed front u back s.ops (λ p. refl)
        (rw same refl) v

  disarm-Inv : u.stage ≡ armed → Inv (disarm front u back s).ops (disarm front u back s).users
  unfolding disarm write_op is_in
  disarm-Inv e =
      let same : one_inside u.name u ≡ one_inside u.name (moved disarmed u) =
        rw (one_inside_self u, one_inside_self (moved disarmed u), e) refl in
      Inv-write (λ p. record p { cancel = none }) disarmed front u back s.ops (λ p. refl)
        (rw same refl) v

  unlock-Inv : is_in u.stage ≡ true → Inv (unlock front u back s).ops (unlock front u back s).users
  unfolding unlock write_op is_in
  unlock-Inv e =
      let before : one_inside u.name u ≡ 1 = rw (one_inside_self u, e) refl in
      let then_none : one_inside u.name (moved unlocked u) ≡ 0 =
        one_inside_self (moved unlocked u) in
      let held : locked_count obj ≡ 1 = inside-locked e in
      Inv-write (λ p. record p { locked = false }) unlocked front u back s.ops (λ p. refl)
        (rw (before, then_none, held) (omega arith)) v

  leave-Inv : u.stage ≡ unlocked → Inv (leave front u back s).ops (leave front u back s).users
  unfolding leave release_db_op
  leave-Inv e = elim (Bool-cases ((s.ops.store u.op).refs == 1)) [
    | inl last ↦
        rw last (leave-last front u back s.ops e v ((==_iff (s.ops.store u.op).refs 1).0 last))
    | inr shared ↦ rw shared (leave-shared front u back s.ops e v (λ p. ground (arith, p, shared)))
  ]

before_lock-out : (k : Kind) → is_in (before_lock k) ≡ false
unfolding is_in
before_lock-out create = refl
before_lock-out remove = refl

before_unlock-in : (k : Kind) → is_in (before_unlock k) ≡ true
unfolding is_in
before_unlock-in create = refl
before_unlock-in remove = refl

abbrev Keeps : State → Type 0
Keeps s = Inv s.ops s.users

Step-Keeps : {s t : State} → Step s t → Keeps s → Keeps t
Step-Keeps (enters k n s) v = enter-Inv k n s v
Step-Keeps (signals front u back s e k st) v = signal-Inv front u back s (rw e at v) st
Step-Keeps (locks front u back s e st free) v =
    lock-Inv front u back s (rw e at v) (ap is_in st ∙ before_lock-out u.kind) free
Step-Keeps (arms front u back s e k st) v = arm-Inv front u back s (rw e at v) st
Step-Keeps (disarms front u back s e st) v = disarm-Inv front u back s (rw e at v) st
Step-Keeps (unlocks front u back s e st) v =
    unlock-Inv front u back s (rw e at v) (ap is_in st ∙ before_unlock-in u.kind)
Step-Keeps (leaves front u back s e st) v = leave-Inv front u back s (rw e at v) st

pub Reached-Inv : {s : State} → Reached s → Inv s.ops s.users
Reached-Inv start =
    unfold initial lookup named inside in
    record {
      entry = tt;
      absent = λ n e. (refl, refl);
      present = λ n i e. absurd (cc);
      apart = λ n m i e g. absurd (cc);
    }
Reached-Inv (then_step r step) = Step-Keeps step (Reached-Inv r)
