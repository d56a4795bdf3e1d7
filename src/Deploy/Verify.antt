-- ===== src/Deploy/Verify.antt =====
-- postDeployVerify of deploy/executor.go: six checks, ten seconds apart.
pub mod Checks
use lattice_runner.Base.{
  ℕ, zero, suc, ◌+◌, Bool, true, false, not, ltb, ◌==◌, ◌||◌, ◌&&◌, Option, none, some, List, [],
  ◌∷◌, ◌++◌, Text, codes, text_eq, if◌then◌else◌, contains, is_nil,
}
use lattice_runner.Names.{canonical_container_name}
use lattice_runner.Docker.{
  Info, Container, Trace, Docker, M, ◌>>=◌, ◌>>◌, pure, sleep, report, cancelled, inspect_container,
  list_containers, trim_slash,
}
use lattice_runner.Deploy.Spec.{ContainerSpec, DeploymentSpec, instance_names}
use lattice_runner.Deploy.Cleanup.{first_name}

pub data Issue : Type 0 where
  not_found stuck_restarting exited reported_unhealthy : Text → Issue
  restarted : Text → ℕ → Issue

pub data VerifyError : Type 0 where
  context_ended : VerifyError
  containers_unhealthy : List Issue → VerifyError

abbrev pub validating : Text
validating = codes "validating"

abbrev pub verify_checks : ℕ
verify_checks = 6

-- The keys of a Go map[string]bool, each once.
unfoldable pub distinct : List Text → List Text
distinct [] = []
distinct (x ∷ xs) = if contains xs x then distinct xs else x ∷ distinct xs

unfoldable pub expected_names : DeploymentSpec → List Text
unfolding distinct
expected_names spec = distinct (instance_names spec.containers)

abbrev or_else : Option Text → Option Text → Option Text
or_else (some x) other = some x
or_else none other = other

-- running[name]: the state of the last container whose first name goes back to `name`.
unfoldable pub state_of : Text → List Container → Option Text
state_of name [] = none
state_of name (c ∷ cs) =
    or_else (state_of name cs)
      (if text_eq (canonical_container_name (first_name c)) name then some c.state else none)

abbrev or_else_id : Option ℕ → Option ℕ → Option ℕ
or_else_id (some x) other = some x
or_else_id none other = other

any_canonical : Text → List Text → Bool
any_canonical name [] = false
any_canonical name (n ∷ ns) =
    if text_eq (canonical_container_name (trim_slash n)) name then true else any_canonical name ns

-- The id of the last container that has a name which goes back to `name`.
unfoldable pub id_of : Text → List Container → Option ℕ
unfolding any_canonical
id_of name [] = none
id_of name (c ∷ cs) =
    or_else_id (id_of name cs) (if any_canonical name c.names then some c.id else none)

health_is_unhealthy : Option Text → Bool
health_is_unhealthy none = false
health_is_unhealthy (some status) = text_eq status (codes "unhealthy")

issues_of_info : Text → Option Info → List Issue
issues_of_info name none = []
issues_of_info name (some info) =
    (if ltb 0 info.restart_count then restarted name info.restart_count ∷ [] else [])
    ++ (if health_is_unhealthy info.health then reported_unhealthy name ∷ [] else [])

module _ (d : Docker) where
  inspect_named : Text → Option ℕ → M (List Issue)
  inspect_named name none = pure []
  inspect_named name (some id) = do info ← inspect_container d id; pure (issues_of_info name info)

  issues_in_state : Text → List Container → Option Text → M (List Issue)
  issues_in_state name cs none = pure (not_found name ∷ [])
  issues_in_state name cs (some state) =
      if text_eq state (codes "running")
      then inspect_named name (id_of name cs)
      else if text_eq state (codes "restarting")
      then pure (stuck_restarting name ∷ [])
      else if text_eq state (codes "exited") || text_eq state (codes "dead")
      then pure (exited name ∷ [])
      else pure []

  -- One check: the issues of every expected name.
  unfoldable pub all_issues : List Text → List Container → M (List Issue)
  unfolding issues_in_state inspect_named issues_of_info health_is_unhealthy
  all_issues [] cs = pure []
  all_issues (n ∷ ns) cs = do
    here ← issues_in_state n cs (state_of n cs)
    rest ← all_issues ns cs
    pure (here ++ rest)

  -- `left` checks remain behind this one.
  judge : M (Option VerifyError) → ℕ → List Issue → M (Option VerifyError)
  judge rest left [] = rest
  judge rest zero (i ∷ is) = pure (some (containers_unhealthy (i ∷ is)))
  judge rest (suc n) (i ∷ is) = rest

  check_list :
      M (Option VerifyError) → ℕ → List Text → Option (List Container) → M (Option VerifyError)
  check_list rest left names none = rest
  check_list rest left names (some cs) = do
    issues ← all_issues names cs
    report validating
    judge rest left issues

  verify_from : List Text → ℕ → M (Option VerifyError)
  verify_from names zero = pure none
  verify_from names (suc left) = do
    ended ← cancelled d
    if ended then pure (some context_ended) else (do
      sleep 10000
      cs ← list_containers d []
      check_list (verify_from names left) left names cs)

  -- `none` is Go's nil error.
  unfoldable pub post_deploy_verify : DeploymentSpec → M (Option VerifyError)
  unfolding verify_from check_list judge
  post_deploy_verify spec = do report validating; verify_from (expected_names spec) verify_checks
