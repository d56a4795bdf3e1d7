-- ===== src/Deploy/Spec.antt =====
-- DeploymentSpec, its parts, Validate, and what the strategies read off a specification.
use lattice_runner.Base.{
  ℕ, zero, suc, ◌+◌, Bool, Option, none, some, List, [], ◌∷◌, ◌++◌, Text, codes, ltb, ◌==◌,
  if◌then◌else◌, length, is_nil, decimal, contains_any,
}
use lattice_runner.Names.{valid_container_name, dash}
use lattice_runner.Docker.{PortMapping, Settings, EngineSpec}

pub record RegistryAuth : Type 0 where
  pub username : Text
  pub password : Text

-- `replicas` of 0 stands for every number that is not positive.
pub record ContainerSpec : Type 0 where
  pub id : ℕ
  pub name : Text
  pub image : Text
  pub tag : Text
  pub port_mappings : List PortMapping
  pub volumes : List (Text × Text)
  pub replicas : ℕ
  pub restart_policy : Text
  pub network_aliases : List Text
  pub registry_auth : Option RegistryAuth
  pub settings : Settings

-- NetworkSpec and VolumeSpec
pub record Named : Type 0 where
  pub name : Text
  pub driver : Text

pub record DeploymentSpec : Type 0 where
  pub deployment_id : ℕ
  pub stack_name : Text
  pub strategy : Text
  pub targeted : Bool
  pub force : Bool
  pub containers : List ContainerSpec
  pub networks : List Named
  pub volumes : List Named

pub data Invalid : Type 0 where
  too_many_containers too_many_networks too_many_volumes : ℕ → Invalid
  invalid_name image_required shell_metacharacters : ℕ → Invalid

abbrev pub shell_meta_chars : Text
shell_meta_chars = codes ";$`|&"

-- image + ":" + tag where the tag is not empty
unfoldable pub image_with_tag : Text → Text → Text
image_with_tag image tag = if is_nil tag then image else image ++ b':' ∷ tag

validate_container : ℕ → ContainerSpec → Option Invalid
validate_container i c =
    if valid_container_name c.name
    then if is_nil c.image
      then some (image_required i)
      else if contains_any (image_with_tag c.image c.tag) shell_meta_chars
      then some (shell_metacharacters i)
      else none
    else some (invalid_name i)

abbrev or_next : Option Invalid → Option Invalid → Option Invalid
or_next none next = next
or_next (some e) next = some e

validate_containers : ℕ → List ContainerSpec → Option Invalid
validate_containers i [] = none
validate_containers i (c ∷ cs) = or_next (validate_container i c) (validate_containers (i + 1) cs)

-- `none` is Go's nil error.
unfoldable pub validate : DeploymentSpec → Option Invalid
unfolding validate_containers validate_container image_with_tag
validate s =
    if ltb 100 (length s.containers)
    then some (too_many_containers (length s.containers))
    else if ltb 50 (length s.networks)
    then some (too_many_networks (length s.networks))
    else if ltb 50 (length s.volumes)
    then some (too_many_volumes (length s.volumes))
    else validate_containers 0 s.containers

-- The tag that is pulled: "latest" where the specification names none.
unfoldable pub image_ref : ContainerSpec → Text
image_ref c = c.image ++ b':' ∷ (if is_nil c.tag then codes "latest" else c.tag)

unfoldable pub replica_count : ContainerSpec → ℕ
replica_count c = if c.replicas == 0 then 1 else c.replicas

-- The name of a replica, counted from 0.
unfoldable pub replica_name : ContainerSpec → ℕ → Text
unfolding replica_count decimal
replica_name c r = if ltb 1 (replica_count c) then c.name ++ dash ∷ decimal (r + 1) else c.name

replica_names : ContainerSpec → ℕ → ℕ → List Text
replica_names c r zero = []
replica_names c r (suc n) = replica_name c r ∷ replica_names c (r + 1) n

-- The name of every replica of every container.
unfoldable pub instance_names : List ContainerSpec → List Text
unfolding replica_names replica_count replica_name
instance_names [] = []
instance_names (c ∷ cs) = replica_names c 0 (replica_count c) ++ instance_names cs

-- The container that a strategy creates, under a name of its choice.
unfoldable pub engine_spec : DeploymentSpec → ContainerSpec → Text → EngineSpec
engine_spec spec c name = record {
  name = name;
  image = c.image;
  tag = c.tag;
  port_mappings = c.port_mappings;
  volumes = c.volumes;
  restart_policy = c.restart_policy;
  network_aliases = c.network_aliases;
  stack_name = spec.stack_name;
  settings = c.settings;
}
