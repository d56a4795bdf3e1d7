-- ===== src/Deploy/Locks.antt =====
-- The order in which lockSpecContainers of deploy/locks.go takes the locks of a deployment, and
-- deployments that wait for each other's.
pub mod Order
mod Tests
use lattice_runner.Base.{
  ◌≡◌, ◌++◌, Any, ℕ, Bool, true, false, ltb, ◌==◌, List, [], ◌∷◌, Text, text_eq, contains,
  if◌then◌else◌,
}
use lattice_runner.Names.{canonical_container_name}
use lattice_runner.Deploy.Spec.{DeploymentSpec, instance_names}

-- The order of Go's strings, by bytes.
unfoldable pub text_lt : Text → Text → Bool
text_lt [] [] = false
text_lt [] (d ∷ t) = true
text_lt (c ∷ s) [] = false
text_lt (c ∷ s) (d ∷ t) =
    let rest = text_lt s t in if ltb c d then true else if c == d then rest else false

-- The canonical names, each once; `seen` are those that were met before.
collect : List Text → List Text → List Text
collect seen [] = []
collect seen (n ∷ ns) =
    let name = canonical_container_name n in
    let rest = collect (if contains seen name then seen else name ∷ seen) ns in
    if contains seen name then rest else name ∷ rest

insert : Text → List Text → List Text
insert x [] = x ∷ []
insert x (y ∷ ys) = let rest = insert x ys in if text_lt y x then y ∷ rest else x ∷ y ∷ ys

-- sort.Strings
sort : List Text → List Text
sort [] = []
sort (x ∷ xs) = insert x (sort xs)

-- The locks that a deployment takes, in this order.
unfoldable pub lock_names : DeploymentSpec → List Text
unfolding collect sort insert
lock_names spec = sort (collect [] (instance_names spec.containers))

-- A deployment that waits for a lock, with those that it holds and those that it still has to take.
pub record Waiting : Type 0 where
  pub spec : DeploymentSpec
  pub held : List Text
  pub next : Text
  pub later : List Text
  pub in_order : held ++ next ∷ later ≡ lock_names spec

-- Of some deployments, the first waits for a lock that the second one holds, at once or through
-- others. LockContainer takes the lock of a name's canonical name, also where the name is one itself.
pub data Blocked (fleet : List Waiting) : Waiting → Waiting → Type 0 where
  held_by :
      (p q : Waiting)
      → Any (λ r. r ≡ q) fleet
      → Any (λ n. canonical_container_name n ≡ canonical_container_name p.next) q.held
      → Blocked fleet p q
  through : {p q r : Waiting} → Blocked fleet p q → Blocked fleet q r → Blocked fleet p r
