-- ===== src/Docker/Client.antt =====
-- FindContainerByName, StopAndRemoveContainer and the loops over containers that deploys share.
use lattice_runner.Base.{
  ℕ, zero, suc, Bool, true, false, ◌||◌, not, Option, none, some, List, [], ◌∷◌, Text, codes,
  text_eq, strip_prefix, if◌then◌else◌, All,
}
use lattice_runner.Docker.Engine.{
  Info, Container, Docker, M, ◌>>=◌, ◌>>◌, pure, sleep, stop_container, kill_container,
  remove_container, inspect_container, list_containers,
}
use lattice_runner.Docker.Runs.{
  Permit, Emits, Emits-bind, Emits-pure, Emits-stop, Emits-kill, Emits-remove, free_calls,
}

-- strings.TrimPrefix(n, "/")
unfoldable pub trim_slash : Text → Text
trim_slash [] = []
trim_slash (c ∷ s) = elim (strip_prefix (codes "/") (c ∷ s)) [ none ↦ c ∷ s | some r ↦ r ]

abbrev named : Text → List Text → Bool
named name [] = false
named name (n ∷ ns) = text_eq (trim_slash n) name || named name ns

-- The first container of a list that has the name.
unfoldable pub first_named : Text → List Container → Option ℕ
unfolding trim_slash
first_named name [] = none
first_named name (c ∷ cs) = if named name c.names then some c.id else first_named name cs

abbrev found_in : Text → Option (List Container) → Option ℕ
found_in name none = none
found_in name (some cs) = first_named name cs

abbrev pub running : Option Info → Bool
running none = false
running (some i) = i.is_running

module _ (d : Docker) where
  -- An error and an empty id are one answer, as every caller treats them.
  unfoldable pub find_container_by_name : Text → M (Option ℕ)
  find_container_by_name name = do cs ← list_containers d name; pure (found_in name cs)

  remove_retrying : ℕ → ℕ → M Bool
  remove_retrying zero id = pure false
  remove_retrying (suc n) id = do
    gone ← remove_container d id
    if gone then pure true else (sleep 2000 >> remove_retrying n id)

  kill_after : ℕ → Bool → ℕ → M (Unit {0})
  kill_after ms false id = pure tt
  kill_after ms true id = do kill_container d id; sleep ms

  unfoldable pub stop_and_remove_container : ℕ → M Bool
  unfolding kill_after remove_retrying
  stop_and_remove_container id = do
    ok ← stop_container d id
    kill_after 1000 (not ok) id
    info ← inspect_container d id
    kill_after 2000 (running info) id
    remove_retrying 3 id

  -- StopContainer, and KillContainer where that fails.
  unfoldable pub stop_or_kill : ℕ → M (Unit {0})
  stop_or_kill id = do
    ok ← stop_container d id
    if ok then pure tt else (kill_container d id >> pure tt)

unfoldable pub for_each : {A : Type 0} → (A → M (Unit {0})) → List A → M (Unit {0})
for_each f [] = pure tt
for_each f (x ∷ xs) = do f x; for_each f xs

module _ {p : Permit} (d : Docker) where
  pub Emits-find : (name : Text) → Emits p (find_container_by_name d name)
  unfolding find_container_by_name
  Emits-find name = search free_calls

  remove_retrying-Emits : (n id : ℕ) → p.may_remove id → Emits p (remove_retrying d n id)
  unfolding remove_retrying
  remove_retrying-Emits zero id h = Emits-pure _
  remove_retrying-Emits (suc n) id h =
      let again = remove_retrying-Emits n id h in search (free_calls, Emits-remove, again)

  kill_after-Emits : (ms : ℕ) (b : Bool) (id : ℕ) → p.may_stop id → Emits p (kill_after d ms b id)
  unfolding kill_after
  kill_after-Emits ms false id h = Emits-pure _
  kill_after-Emits ms true id h = search (free_calls, Emits-kill)

  pub Emits-stop_and_remove :
      (id : ℕ) → p.may_stop id → p.may_remove id → Emits p (stop_and_remove_container d id)
  unfolding stop_and_remove_container
  Emits-stop_and_remove id h k =
      search (free_calls, Emits-stop, kill_after-Emits, remove_retrying-Emits) depth 12

  pub Emits-stop_or_kill : (id : ℕ) → p.may_stop id → Emits p (stop_or_kill d id)
  unfolding stop_or_kill
  Emits-stop_or_kill id h = search (free_calls, Emits-stop, Emits-kill)

pub Emits-for_each :
    {p : Permit} {A : Type 0} (Q : A → Type 0) {f : A → M (Unit {0})} (xs : List A)
    → All Q xs
    → ((a : A) → Q a → Emits p (f a))
    → Emits p (for_each f xs)
unfolding for_each
Emits-for_each Q [] h k = Emits-pure _
Emits-for_each Q (x ∷ xs) h k = Emits-bind (k x h.0) (λ _. Emits-for_each Q xs h.1 k)
