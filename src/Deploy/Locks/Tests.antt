-- ===== src/Deploy/Locks/Tests.antt =====
-- Deployments that hold locks and wait for others.
use mathlib.Core.Path.{subst}
use lattice_runner.Base.{
  ◌≡◌, refl, [], ◌∷◌, codes, All, contains, text_eq, strip_prefix, has_prefix, decimal, inl,
}
use lattice_runner.Names.{canonical_container_name, is_generated_suffix_segment}
use lattice_runner.Names.Cut.{before, strip_suffix, split_last}
use lattice_runner.Deploy.Spec.{
  ContainerSpec, DeploymentSpec, instance_names, replica_name, replica_count,
}
use lattice_runner.Deploy.Tests.{web, stack}
use lattice_runner.Deploy.Locks.{lock_names, text_lt, Waiting, Blocked, held_by}
use lattice_runner.Deploy.Locks.Order.{IsStable, Blocked-irreflexive}

-- The deployment holds its first lock and waits for the second one.
locks_of_stack : codes "web-1" ∷ codes "web-2" ∷ [] ≡ lock_names stack
unfolding lock_names text_lt contains text_eq instance_names replica_name replica_count decimal
    canonical_container_name before has_prefix strip_prefix strip_suffix split_last
    is_generated_suffix_segment
locks_of_stack = refl

abbrev second_lock : Waiting
second_lock = record {
  spec = stack;
  held = codes "web-1" ∷ [];
  next = codes "web-2";
  later = [];
  in_order = locks_of_stack;
}

stack-IsStable : IsStable second_lock
unfolding canonical_container_name before has_prefix strip_prefix strip_suffix split_last
    is_generated_suffix_segment text_eq
stack-IsStable = subst (All (λ n. canonical_container_name n ≡ n)) locks_of_stack (refl, (refl, tt))

Blocked-irreflexive_example : ¬ Blocked (second_lock ∷ []) second_lock second_lock
Blocked-irreflexive_example =
    Blocked-irreflexive (second_lock ∷ []) (stack-IsStable, tt) second_lock

-- A name with two deploy suffixes: the canonical name has another one, and the deployment waits for
-- a lock that it holds.
abbrev web_alone : ContainerSpec
web_alone = record web { replicas = 1 }

abbrev twice : DeploymentSpec
twice = record stack {
  containers = web_alone ∷ record web_alone { name = codes "web-ltcaaaaaa-ltcbbbbbb" } ∷ [];
}

locks_of_twice : codes "web" ∷ codes "web-ltcaaaaaa" ∷ [] ≡ lock_names twice
unfolding lock_names text_lt contains text_eq instance_names replica_name replica_count decimal
    canonical_container_name before has_prefix strip_prefix strip_suffix split_last
    is_generated_suffix_segment
locks_of_twice = refl

abbrev own_lock : Waiting
own_lock = record {
  spec = twice;
  held = codes "web" ∷ [];
  next = codes "web-ltcaaaaaa";
  later = [];
  in_order = locks_of_twice;
}

waits_for_itself : Blocked (own_lock ∷ []) own_lock own_lock
unfolding canonical_container_name before has_prefix strip_prefix strip_suffix split_last
    is_generated_suffix_segment text_eq
waits_for_itself = held_by own_lock own_lock (inl refl) (inl refl)
