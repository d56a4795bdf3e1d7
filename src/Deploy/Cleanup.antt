-- ===== src/Deploy/Cleanup.antt =====
-- cleanupDecision, cleanupStaleContainers and forceRemoveAllStackContainers of deploy/executor.go.
pub mod Safety
use lattice_runner.Base.{
  ℕ, ◌≡◌, ◌≢◌, refl, ◌⊎◌, inl, inr, Bool, true, false, not, ◌&&◌, ◌||◌, ◌==◌, each-Any, All-map,
  Option, none, some, List, [], ◌∷◌, ◌++◌, map, Text, codes, text_eq, text_eq_iff, if◌then◌else◌,
  is_nil, decimal, contains, value_of, All, Any, arith, Bool-cases, Option-cases,
}
use lattice_runner.Names.{canonical_container_name}
use lattice_runner.Docker.{
  Container, PortMapping, Docker, M, ◌>>=◌, ◌>>◌, pure, report, list_containers, trim_slash,
  stop_and_remove_container, for_each, Permit, Emits, Emits-bind, Emits-if, Emits-pure, Emits-list,
  Emits-report, Emits-stop_and_remove, Emits-for_each, free_calls, Ran, Ran-trans, Obeys, next,
  here, ran, listed, Trace,
}
use lattice_runner.Deploy.Spec.{ContainerSpec, DeploymentSpec}

abbrev pub managed_by : Text
managed_by = codes "managed-by"

abbrev pub lattice : Text
lattice = codes "lattice"

abbrev pub lattice_type : Text
lattice_type = codes "lattice-type"

abbrev pub database : Text
database = codes "database"

abbrev pub lattice_stack : Text
lattice_stack = codes "lattice-stack"

-- managed-by=lattice, and no managed database
pub is_stack_container : List (Text × Text) → Bool
is_stack_container labels =
    if text_eq (value_of managed_by labels) lattice
    then not (text_eq (value_of lattice_type labels) database)
    else false

pub any_needed : List Text → List ℕ → Bool
any_needed needed [] = false
any_needed needed (p ∷ ps) = if contains needed (decimal p) then true else any_needed needed ps

pub data Reason : Type 0 where
  stale_stack_container holds_needed_port : Reason

-- `none` is Go's false; the number of the port is left out of the reason.
unfoldable pub cleanup_decision :
    List (Text × Text) → Text → List ℕ → Text → List Text → List Text → Option Reason
unfolding is_stack_container any_needed
cleanup_decision labels name public_ports stack_name spec_names needed_ports =
    if not (text_eq (value_of managed_by labels) lattice)
    then none
    else if text_eq (value_of lattice_type labels) database
    then none
    else if contains spec_names (canonical_container_name name) || contains spec_names name
    then none
    else if text_eq (value_of lattice_stack labels) stack_name
    then some stale_stack_container
    else if any_needed needed_ports public_ports
    then some holds_needed_port
    else none

-- The first name, without its slash; empty where the container has none.
unfoldable pub first_name : Container → Text
first_name c = elim c.names [ [] ↦ [] | n ∷ ns ↦ trim_slash n ]

nonempty_ports : List PortMapping → List Text
nonempty_ports [] = []
nonempty_ports (p ∷ ps) =
    if is_nil p.host_port then nonempty_ports ps else p.host_port ∷ nonempty_ports ps

pub needed_ports : List ContainerSpec → List Text
needed_ports [] = []
needed_ports (c ∷ cs) = nonempty_ports c.port_mappings ++ needed_ports cs

pub positive : List ℕ → List ℕ
positive [] = []
positive (p ∷ ps) = if p == 0 then positive ps else p ∷ positive ps

pub spec_names : List ContainerSpec → List Text
spec_names [] = []
spec_names (c ∷ cs) = c.name ∷ spec_names cs

-- What cleanupStaleContainers asks about a container that has a name.
unfoldable pub decision_for : DeploymentSpec → Container → Option Reason
unfolding spec_names needed_ports nonempty_ports positive
decision_for spec c =
    cleanup_decision c.labels (first_name c) (positive c.public_ports) spec.stack_name
      (spec_names spec.containers) (needed_ports spec.containers)

module _ (d : Docker) (spec : DeploymentSpec) where
  pub remove_if : Option Reason → ℕ → M (Unit {0})
  remove_if none id = pure tt
  remove_if (some reason) id = do
    report (codes "deploying")
    stop_and_remove_container d id
    pure tt

  pub cleanup_one : Container → M (Unit {0})
  cleanup_one c = if is_nil (first_name c) then pure tt else remove_if (decision_for spec c) c.id

  unfoldable pub over : (Container → M (Unit {0})) → Option (List Container) → M (Unit {0})
  over f none = pure tt
  over f (some cs) = for_each f cs

  unfoldable pub cleanup_stale_containers : M (Unit {0})
  unfolding over cleanup_one remove_if
  cleanup_stale_containers = do cs ← list_containers d []; over cleanup_one cs

  unfoldable pub forced : Container → Bool
  unfolding is_stack_container
  forced c =
      if is_stack_container c.labels
      then text_eq (value_of lattice_stack c.labels) spec.stack_name
      else false

  pub force_one : Container → M (Unit {0})
  force_one c = if forced c then remove_if (some stale_stack_container) c.id else pure tt

  unfoldable pub force_remove_all_stack_containers : M (Unit {0})
  unfolding over force_one remove_if
  force_remove_all_stack_containers = do cs ← list_containers d []; over force_one cs
