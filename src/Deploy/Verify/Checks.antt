-- ===== src/Deploy/Verify/Checks.antt =====
-- What a verification that returns no error has seen.
use lattice_runner.Base.{
  ℕ, zero, suc, ◌≡◌, ◌≢◌, refl, inl, inr, false, Option, none, some, List, [], ◌∷◌, ◌++◌, Text,
  codes, text_eq_iff, All, Any, arith, Bool-cases,
}
use lattice_runner.Docker.{
  Permit, Emits-if, Emits-cancelled, Emits-report, Emits-sleep, Emits-list, free_calls, Any-Ran,
  Emits, ran, Emits-pure, Emits-bind, Emits-inspect, Container, Trace, listed, slept, reported,
  Docker, M, ◌>>=◌, pure, sleep, report, cancelled, list_containers,
}
use lattice_runner.Deploy.Spec.{DeploymentSpec}
use lattice_runner.Deploy.Verify.{
  Issue, VerifyError, context_ended, validating, verify_checks, expected_names, state_of, id_of,
  inspect_named, issues_in_state, all_issues, judge, check_list, verify_from, post_deploy_verify,
}

-- The container of a name is listed, and has neither ended nor is it being restarted.
abbrev pub IsAlive : List Container → Text → Type 0
IsAlive cs name =
    (state : Text) × (state_of name cs ≡ some state)
    × (state ≢ codes "restarting")
    × (state ≢ codes "exited")
    × (state ≢ codes "dead")

append_nil_left {ℓ} : {A : Type ℓ} (xs ys : List A) → xs ++ ys ≡ [] → (xs ≡ []) × (ys ≡ [])
append_nil_left [] ys h = (refl, h)
append_nil_left (x ∷ xs) ys h = cc

module _ (d : Docker) where
  issues_in_state-alive :
      (name : Text) (cs : List Container) (o : Option Text) (t : Trace)
      → (issues_in_state d name cs o t).0 ≡ []
      → (state : Text) × (o ≡ some state)
        × (state ≢ codes "restarting")
        × (state ≢ codes "exited")
        × (state ≢ codes "dead")
  unfolding issues_in_state pure
  issues_in_state-alive name cs none t h = cc
  issues_in_state-alive name cs (some s) t h = (
    s,
    refl,
    ground (arith, text_eq_iff s (codes "running"), text_eq_iff s (codes "restarting")),
    ground (
      arith,
      text_eq_iff s (codes "running"),
      text_eq_iff s (codes "restarting"),
      text_eq_iff s (codes "exited"),
    ),
    ground (
      arith,
      text_eq_iff s (codes "running"),
      text_eq_iff s (codes "restarting"),
      text_eq_iff s (codes "dead"),
    ),
  )

  all_issues-IsAlive :
      (names : List Text) (cs : List Container) (t : Trace)
      → (all_issues d names cs t).0 ≡ []
      → All (IsAlive cs) names
  unfolding all_issues ◌>>=◌ pure
  all_issues-IsAlive [] cs t h = tt
  all_issues-IsAlive (n ∷ ns) cs t h =
      let (first, rest) = append_nil_left (issues_in_state d n cs (state_of n cs) t).0 _ h in
      (issues_in_state-alive n cs (state_of n cs) t first, all_issues-IsAlive ns cs _ rest)

  -- A history at which the engine lists containers among which every name is alive.
  -- Inspections leave the earlier events where they are.
  inspect_named-Emits :
      {p : Permit} (name : Text) (id : Option ℕ) → Emits p (inspect_named d name id)
  unfolding inspect_named
  inspect_named-Emits name none = Emits-pure _
  inspect_named-Emits name (some id) = Emits-bind (Emits-inspect d id) λ info. Emits-pure _

  issues_in_state-Emits :
      {p : Permit} (name : Text) (cs : List Container) (o : Option Text)
      → Emits p (issues_in_state d name cs o)
  unfolding issues_in_state
  issues_in_state-Emits name cs none = Emits-pure _
  issues_in_state-Emits {p} name cs (some state) =
      let found : Emits p (inspect_named d name (id_of name cs)) =
        inspect_named-Emits name (id_of name cs) in
      search (free_calls, found)

  all_issues-Emits :
      {p : Permit} (names : List Text) (cs : List Container) → Emits p (all_issues d names cs)
  unfolding all_issues
  all_issues-Emits [] cs = Emits-pure _
  all_issues-Emits (n ∷ ns) cs =
      Emits-bind (issues_in_state-Emits n cs (state_of n cs))
        λ here. Emits-bind (all_issues-Emits ns cs) λ rest. Emits-pure _

  module _ {p : Permit} where
    judge-Emits :
        {rest : M (Option VerifyError)} (left : ℕ) (issues : List Issue)
        → Emits p rest
        → Emits p (judge d rest left issues)
    unfolding judge
    judge-Emits left [] h = h
    judge-Emits zero (i ∷ is) h = Emits-pure _
    judge-Emits (suc n) (i ∷ is) h = h

    check_list-Emits :
        {rest : M (Option VerifyError)} (left : ℕ) (names : List Text)
        (cs : Option (List Container))
        → Emits p rest
        → Emits p (check_list d rest left names cs)
    unfolding check_list
    check_list-Emits left names none h = h
    check_list-Emits left names (some cs) h =
        Emits-bind (all_issues-Emits names cs)
          λ issues. Emits-bind (Emits-report validating) λ _. judge-Emits left issues h

    verify_from-Emits : (names : List Text) (n : ℕ) → Emits p (verify_from d names n)
    unfolding verify_from
    verify_from-Emits names zero = Emits-pure _
    verify_from-Emits names (suc n) = Emits-bind (Emits-cancelled d) λ ended.
        Emits-if ended (Emits-pure (some context_ended)) (
          Emits-bind (Emits-sleep 10000) λ _.
            Emits-bind (Emits-list d [])
              λ cs. check_list-Emits n names cs (verify_from-Emits names n))

    pub post_deploy_verify-Emits : (spec : DeploymentSpec) → Emits p (post_deploy_verify d spec)
    unfolding post_deploy_verify
    post_deploy_verify-Emits spec =
        Emits-bind (Emits-report validating)
          λ _. verify_from-Emits (expected_names spec) verify_checks

  abbrev silent : Permit
  silent = record {
    may_create = λ s. ⊥;
    may_start = λ id. ⊥;
    may_stop = λ id. ⊥;
    may_remove = λ id. ⊥;
    may_rename = λ id name. ⊥;
    may_log = λ event. ⊥;
  }

  -- The history has a listing in which every name is alive.
  abbrev SeenAlive : List Text → Trace → Type 0
  SeenAlive names u =
      (cs : List Container) × Any (λ e. e ≡ listed (some cs)) u × All (IsAlive cs) names

  module _ (lists : (t : Trace) → (cs : List Container) × (d.list t [] ≡ some cs)) where
    judge-last :
        (names : List Text) (cs : List Container) (issues : List Issue) (t : Trace)
        → Any (λ e. e ≡ listed (some cs)) t
        → (issues ≡ [] → All (IsAlive cs) names)
        → (judge d (pure none) zero issues t).0 ≡ none
        → SeenAlive names (judge d (pure none) zero issues t).1
    unfolding judge pure
    judge-last names cs [] t l h e = (cs, l, h refl)
    judge-last names cs (i ∷ is) t l h e = cc

    judge-more :
        (rest : M (Option VerifyError)) (left : ℕ) (issues : List Issue) (t : Trace)
        → judge d rest (suc left) issues t ≡ rest t
    unfolding judge
    judge-more rest left [] t = refl
    judge-more rest left (i ∷ is) t = refl

    verify_from-alive :
        (names : List Text) (n : ℕ) (t : Trace)
        → (verify_from d names (suc n) t).0 ≡ none
        → SeenAlive names (verify_from d names (suc n) t).1
    unfolding verify_from check_list ◌>>=◌ pure cancelled sleep list_containers report
    verify_from-alive names zero t e =
        let u = slept 10000 ∷ t in
        let (cs, l) = lists u in
        elim (Bool-cases (d.is_cancelled t)) [
          | inl ended ↦ absurd (cc (rw ended at e))
          | inr on ↦
              rw (on, l)
                (judge-last names cs (all_issues d names cs (listed (some cs) ∷ u)).0 _
                  (inr (
                    Any-Ran (λ e. e ≡ listed (some cs))
                      (ran (all_issues-Emits {p = silent} names cs) (listed (some cs) ∷ u))
                      (inl refl)))
                  (λ none_found. all_issues-IsAlive names cs _ none_found) (rw (on, l) at e))
        ]
    verify_from-alive names (suc n) t e =
        let u = slept 10000 ∷ t in
        let (cs, l) = lists u in
        let more =
          judge-more (verify_from d names (suc n)) n
            (all_issues d names cs (listed (some cs) ∷ u)).0
            (reported validating ∷ (all_issues d names cs (listed (some cs) ∷ u)).1) in
        elim (Bool-cases (d.is_cancelled t)) [
          | inl ended ↦ absurd (cc (rw ended at e))
          | inr on ↦ rw (on, l, more) (verify_from-alive names n _ (rw (on, l, more) at e))
        ]

  -- Where the engine always answers a listing, a verification that returns no error has a listing in
  -- its history in which every expected container stands and is neither exited, dead nor restarting.
  pub post_deploy_verify-alive :
      (spec : DeploymentSpec) (t : Trace)
      → ((u : Trace) → (cs : List Container) × (d.list u [] ≡ some cs))
      → (post_deploy_verify d spec t).0 ≡ none
      → SeenAlive (expected_names spec) (post_deploy_verify d spec t).1
  unfolding post_deploy_verify ◌>>=◌ report
  post_deploy_verify-alive spec t lists e = verify_from-alive lists (expected_names spec) 5 _ e

  verify_from-unlisted :
      (names : List Text) (n : ℕ) (t : Trace)
      → ((u : Trace) → d.list u [] ≡ none)
      → ((u : Trace) → d.is_cancelled u ≡ false)
      → (verify_from d names n t).0 ≡ none
  unfolding verify_from check_list ◌>>=◌ pure cancelled sleep list_containers
  verify_from-unlisted names zero t unlisted on = refl
  verify_from-unlisted names (suc n) t unlisted on =
      rw (on t, unlisted (slept 10000 ∷ t)) (verify_from-unlisted names n _ unlisted on)

  -- Where every listing fails, the verification returns no error, whatever became of the containers:
  -- a failed listing is retried at the next check, and the last check has none behind it.
  pub post_deploy_verify-unlisted :
      (spec : DeploymentSpec) (t : Trace)
      → ((u : Trace) → d.list u [] ≡ none)
      → ((u : Trace) → d.is_cancelled u ≡ false)
      → (post_deploy_verify d spec t).0 ≡ none
  unfolding post_deploy_verify ◌>>=◌ report
  post_deploy_verify-unlisted spec t unlisted on =
      verify_from-unlisted (expected_names spec) verify_checks _ unlisted on
