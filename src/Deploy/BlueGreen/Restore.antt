-- ===== src/Deploy/BlueGreen/Restore.antt =====
-- How a blue-green deployment brings its backups back when the swap fails.
use lattice_runner.Base.{
  ℕ, ◌≡◌, refl, Option, none, some, List, [], ◌∷◌, Text, All, Any, inl, All-map,
}
use lattice_runner.Docker.{
  Event, started, Trace, Docker, M, ◌>>=◌, pure, start_container, for_each, quiet, Any-Ran, Emits,
  ran, Emits-bind, Emits-pure, Emits-if, Emits-rename, Emits-start, Emits-stop, Emits-remove,
  Emits-find, Emits-stop_and_remove, Emits-for_each,
}
use lattice_runner.Deploy.Spec.{DeploymentSpec}
use lattice_runner.Deploy.BlueGreen.{
  BlueGreenError, Greens, Backup, Swapped, all_swapped, remove_blue, swap_failed, stop_and_drop,
  cleanup_green, drop_partial, rename_back, restore_blue, settle,
}

-- The attempt to start a container again.
abbrev pub StartOf : ℕ → Event → Type 0
StartOf id (started i b) = i ≡ id
StartOf id _ = ⊥

-- Whatever happened before it, an action leaves an event that satisfies `P` in the history.
data Sees (P : Event → Type 0) {A : Type 0} (m : M A) : Type 0 where
  sees : ((t : Trace) → Any P (m t).1) → Sees P m

seen : {P : Event → Type 0} {A : Type 0} {m : M A} → Sees P m → (t : Trace) → Any P (m t).1
seen (sees h) = h

Sees-after :
    {P : Event → Type 0} {A B : Type 0} (m : M A) {f : A → M B}
    → ((a : A) → Sees P (f a))
    → Sees P (m >>= f)
unfolding ◌>>=◌
Sees-after m k = sees (λ t. seen (k (m t).0) (m t).1)

-- What an action saw is still there after the next one.
Sees-before :
    {P : Event → Type 0} {A B : Type 0} {m : M A} {f : A → M B}
    → Sees P m
    → ((a : A) → Emits quiet (f a))
    → Sees P (m >>= f)
unfolding ◌>>=◌
Sees-before {P} {m} (sees h) k = sees (λ t. Any-Ran P (ran (k (m t).0) (m t).1) (h t))

All-unit : {A : Type 0} (xs : List A) → All (λ _. Unit {0}) xs
All-unit [] = tt
All-unit (x ∷ xs) = (tt, All-unit xs)

for_each-Sees :
    {A : Type 0} (P : A → Event → Type 0) {f : A → M (Unit {0})}
    → ((a : A) → Emits quiet (f a))
    → ((a : A) → Sees (P a) (f a))
    → (xs : List A) → All (λ x. Sees (P x) (for_each f xs)) xs
unfolding for_each
for_each-Sees P e h [] = tt
for_each-Sees P e h (x ∷ xs) = (
  Sees-before (h x) (λ _. Emits-for_each (λ _. Unit) xs (All-unit xs) (λ a _. e a)),
  All-map _ _ (λ y k. Sees-after _ (λ _. k)) xs (for_each-Sees P e h xs),
)

module _ (d : Docker) (spec : DeploymentSpec) where
  start-Sees : (id : ℕ) → Sees (StartOf id) (start_container d id)
  unfolding start_container
  start-Sees id = sees (λ t. inl refl)

  drop_partial-Emits : (blue : ℕ) (found : Option ℕ) → Emits quiet (drop_partial d spec blue found)
  unfolding drop_partial
  drop_partial-Emits blue none = Emits-pure _
  drop_partial-Emits blue (some id) =
      Emits-if _ (Emits-pure _) (Emits-bind (Emits-stop_and_remove d id tt tt) λ _. Emits-pure _)

  rename_back-Emits : (b : Backup) (name : Option Text) → Emits quiet (rename_back d spec b name)
  unfolding rename_back
  rename_back-Emits b none = Emits-pure _
  rename_back-Emits b (some retired) = Emits-bind (Emits-rename d _ _ tt) λ _. Emits-pure _

  restore_blue-Emits : (b : Backup) → Emits quiet (restore_blue d spec b)
  unfolding restore_blue
  restore_blue-Emits b = Emits-bind (Emits-find d _) λ found.
      Emits-bind (drop_partial-Emits b.id found) λ _.
        Emits-bind (rename_back-Emits b b.retired_name)
          λ _. Emits-bind (Emits-start d b.id tt) λ _. Emits-pure _

  restore_blue-Sees : (b : Backup) → Sees (StartOf b.id) (restore_blue d spec b)
  unfolding restore_blue
  restore_blue-Sees b =
      Sees-after _
        λ found. Sees-after _ λ _. Sees-after _ λ _. Sees-before (start-Sees b.id) λ _. Emits-pure _

  cleanup_green-Emits : (greens : Greens) → Emits quiet (cleanup_green d greens)
  unfolding cleanup_green stop_and_drop
  cleanup_green-Emits greens =
      Emits-for_each (λ _. Unit) greens (All-unit greens)
        λ g _.
          Emits-bind (Emits-stop d g.1 tt) λ _. Emits-bind (Emits-remove d g.1 tt) λ _. Emits-pure _

  pub settle-Emits : (greens : Greens) (s : Swapped) → Emits quiet (settle d spec greens s)
  unfolding settle remove_blue
  settle-Emits greens (all_swapped backups) =
      Emits-bind
        (Emits-for_each (λ _. Unit) backups (All-unit backups)
          λ b _. Emits-bind (Emits-remove d b.id tt) λ _. Emits-pure _)
        λ _. Emits-pure _
  settle-Emits greens (swap_failed backups e) =
      Emits-bind (Emits-for_each (λ _. Unit) backups (All-unit backups) λ b _. restore_blue-Emits b)
        λ _. Emits-bind (cleanup_green-Emits greens) λ _. Emits-pure _

  -- When the swap of a blue-green deployment fails, the deployment returns the error of the swap,
  -- and it asks the engine to start every backup again, whatever else the engine answers.
  pub settle-restores :
      (greens : Greens) (backups : List Backup) (e : BlueGreenError) (t : Trace)
      → ((settle d spec greens (swap_failed backups e) t).0 ≡ some e)
        × All (λ b. Any (StartOf b.id) (settle d spec greens (swap_failed backups e) t).1) backups
  unfolding settle pure ◌>>=◌
  settle-restores greens backups e t =
      (refl, All-map _ _ (λ b h. seen (settled b h) t) backups restored)
    where
      restored : All (λ b. Sees (StartOf b.id) (for_each (restore_blue d spec) backups)) backups
      restored = for_each-Sees (λ b. StartOf b.id) restore_blue-Emits restore_blue-Sees backups

      settled :
          (b : Backup)
          → Sees (StartOf b.id) (for_each (restore_blue d spec) backups)
          → Sees (StartOf b.id) (settle d spec greens (swap_failed backups e))
      settled b h =
          Sees-before h λ _. Emits-bind (cleanup_green-Emits greens) λ _. Emits-pure (some e)
