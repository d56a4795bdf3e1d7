-- ===== src/DbOps/Tests.antt =====
-- A remove that comes in while a create is under way.
use lattice_runner.Base.{
  ◌≡◌, ◌≢◌, ◌≤◌, ◌<◌, ◌↔◌, refl, true, none, [], ◌∷◌, Text, codes, text_eq, All,
}
use lattice_runner.DbOps.{
  create, remove, entered, armed, locked_in, User, State, lookup, put, db_op_for, op_at, enter,
  write_op, signal, lock, arm, enters, locks, arms, initial, Reached, start, then_step,
}
use lattice_runner.DbOps.Counts.{inside, named}
use lattice_runner.DbOps.Exclusive.{Reached-exclusive, Reached-entry}
use lattice_runner.DbOps.Cancel.{has, signal-cancels}

abbrev name : Text
name = codes "pg"

abbrev creating : State
creating = enter create name initial

abbrev creator : User
creator = record { id = 0; name = name; op = 0; kind = create; stage = entered }

abbrev locked_state : State
locked_state = lock [] creator [] creating

abbrev locked_creator : User
locked_creator = record creator { stage = locked_in }

abbrev armed_state : State
armed_state = arm [] locked_creator [] locked_state

abbrev armed_creator : User
armed_creator = record creator { stage = armed }

abbrev removing : State
removing = enter remove name armed_state

abbrev remover : User
remover = record { id = 1; name = name; op = 0; kind = remove; stage = entered }

is_removing : Reached removing
unfolding enter db_op_for op_at lookup put initial lock arm write_op text_eq
is_removing =
    then_step
      (then_step
        (then_step (then_step start (enters create name initial))
          (locks [] creator [] creating refl refl refl))
        (arms [] locked_creator [] locked_state refl refl refl))
      (enters remove name armed_state)

Reached-exclusive_example : inside name removing.users ≤ 1
Reached-exclusive_example = Reached-exclusive is_removing name

Reached-entry_example : (lookup name removing.ops.table ≢ none) ↔ (0 < named name removing.users)
Reached-entry_example = Reached-entry is_removing name

users_removing : removing.users ≡ remover ∷ armed_creator ∷ []
unfolding enter db_op_for op_at lookup put initial lock arm write_op text_eq
users_removing = refl

signal-cancels_example :
    All
      (λ (w : User).
        w.stage ≡ armed
        → w.name ≡ name
        → has w.id (signal [] remover (armed_creator ∷ []) removing).cancelled ≡ true)
      removing.users
signal-cancels_example =
    signal-cancels [] remover (armed_creator ∷ []) is_removing users_removing refl refl
