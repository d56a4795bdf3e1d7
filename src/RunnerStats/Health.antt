-- ===== src/RunnerStats/Health.antt =====
-- What reaches the log of the health of a container.
use lattice_runner.Base.{
  ◌≡◌, ◌≢◌, refl, sym, ap, All, Any, true, false, Option, none, some, List, [], ◌∷◌, Text, text_eq,
  text_eq_iff, contains, if◌then◌else◌, arith, Bool-cases, inl, inr,
}
use lattice_runner.RunnerStats.{
  Tracker, last_of, set_last, Change, unhealthy, change_of, observe, retain,
}

last_of-set_last :
    (c d h : Text) (t : Tracker)
    → last_of d (set_last c h t) ≡ (if text_eq c d then some h else last_of d t)
unfolding last_of set_last
last_of-set_last c d h [] = refl
last_of-set_last c d h ((k, g) ∷ t) =
    ground (arith, text_eq_iff k c, text_eq_iff k d, text_eq_iff c d, last_of-set_last c d h t)

with_change : Option Change → List Change → List Change
with_change none l = l
with_change (some x) l = x ∷ l

last_of-retain :
    (present : List Text) (d : Text) (t : Tracker)
    → last_of d (retain present t) ≡ (if contains present d then last_of d t else none)
unfolding last_of retain
last_of-retain present d [] = ground arith
last_of-retain present d ((k, h) ∷ t) = elim (Bool-cases (text_eq k d)) [
  | inl e ↦
      let p : k ≡ d = (text_eq_iff k d).0 e in
      let q : contains present k ≡ contains present d = ap (contains present) p in
      ground (arith, e, q, last_of-retain present d t)
  | inr e ↦ ground (arith, e, last_of-retain present d t)
]

-- What a heartbeat does to the tracker: it observes containers, and keeps those that are present.
pub data Beat : Type 0 where
  saw : Text → Text → Beat
  kept : List Text → Beat

-- The log of a container over any beats.
pub log_of : Text → List Beat → Tracker → List Change
unfolding with_change
log_of d [] t = []
log_of d (saw c h ∷ beats) t =
    let rest : List Change = log_of d beats (observe c h t).0 in
    if text_eq c d then with_change (observe c h t).1 rest else rest
log_of d (kept present ∷ beats) t = log_of d beats (retain present t)

-- The lines that the log of one container must have, after a health that may not be known: the rules
-- of an observation, and of a heartbeat in which the container is present or not.
pub data Lines (d : Text) : Option Text → List Beat → List Change → Type 0 where
  over : {prev : Option Text} → Lines d prev [] []
  other :
      {prev : Option Text} {c h : Text} {beats : List Beat} {l : List Change}
      → c ≢ d
      → Lines d prev beats l
      → Lines d prev (saw c h ∷ beats) l
  first_bad :
      {c h : Text} {beats : List Beat} {l : List Change}
      → c ≡ d
      → h ≡ unhealthy
      → Lines d (some h) beats l
      → Lines d none
          (saw c h ∷ beats)
          (record { container = d; from = []; to = unhealthy; is_warning = true } ∷ l)
  first_good :
      {c h : Text} {beats : List Beat} {l : List Change}
      → c ≡ d
      → h ≢ unhealthy
      → Lines d (some h) beats l
      → Lines d none (saw c h ∷ beats) l
  same :
      {c h prev : Text} {beats : List Beat} {l : List Change}
      → c ≡ d
      → h ≡ prev
      → Lines d (some h) beats l
      → Lines d (some prev) (saw c h ∷ beats) l
  worse :
      {c h prev : Text} {beats : List Beat} {l : List Change}
      → c ≡ d
      → h ≢ prev
      → h ≡ unhealthy
      → Lines d (some h) beats l
      → Lines d
          (some prev)
          (saw c h ∷ beats)
          (record { container = d; from = prev; to = h; is_warning = true } ∷ l)
  better :
      {c h prev : Text} {beats : List Beat} {l : List Change}
      → c ≡ d
      → h ≢ prev
      → h ≢ unhealthy
      → Lines d (some h) beats l
      → Lines d
          (some prev)
          (saw c h ∷ beats)
          (record { container = d; from = prev; to = h; is_warning = false } ∷ l)
  present :
      {prev : Option Text} {names : List Text} {beats : List Beat} {l : List Change}
      → Any (λ n. n ≡ d) names
      → Lines d prev beats l
      → Lines d prev (kept names ∷ beats) l
  gone :
      {prev : Option Text} {names : List Text} {beats : List Beat} {l : List Change}
      → All (λ n. n ≢ d) names
      → Lines d none beats l
      → Lines d prev (kept names ∷ beats) l

ne_of_text_eq : (s t : Text) → text_eq s t ≡ false → s ≢ t
ne_of_text_eq s t h e = ground (arith, text_eq_iff s t, e, h)

contains-Any : (ns : List Text) (d : Text) → contains ns d ≡ true → Any (λ n. n ≡ d) ns
unfolding contains
contains-Any [] d h = absurd (cc)
contains-Any (n ∷ ns) d h = elim (Bool-cases (text_eq n d)) [
  | inl e ↦ inl ((text_eq_iff n d).0 e)
  | inr e ↦ inr (contains-Any ns d (rw e at h))
]

contains-All : (ns : List Text) (d : Text) → contains ns d ≡ false → All (λ n. n ≢ d) ns
unfolding contains
contains-All [] d h = tt
contains-All (n ∷ ns) d h = elim (Bool-cases (text_eq n d)) [
  | inl e ↦ absurd (cc (rw e at h))
  | inr e ↦ (ne_of_text_eq n d e, contains-All ns d (rw e at h))
]

-- One observation of the container.
observed :
    (c d h : Text) (prev : Option Text) {beats : List Beat} {l : List Change}
    → c ≡ d
    → Lines d (some h) beats l
    → Lines d prev (saw c h ∷ beats) (with_change (change_of prev d h) l)
unfolding change_of with_change
observed c d h none e rest = elim (Bool-cases (text_eq h unhealthy)) [
  | inl u ↦
      let p : h ≡ unhealthy = (text_eq_iff h unhealthy).0 u in
      rw (u, p) (first_bad e refl (rw p at rest))
  | inr u ↦ rw u (first_good e (ne_of_text_eq h unhealthy u) rest)
]
observed c d h (some prev) e rest = elim (Bool-cases (text_eq prev h)) [
  | inl s ↦ rw s (same e (sym ((text_eq_iff prev h).0 s)) rest)
  | inr s ↦
      let ne : h ≢ prev = λ p. ne_of_text_eq prev h s (sym p) in
      elim (Bool-cases (text_eq h unhealthy)) [
        | inl u ↦ rw (s, u) (worse e ne ((text_eq_iff h unhealthy).0 u) rest)
        | inr u ↦ rw (s, u) (better e ne (ne_of_text_eq h unhealthy u) rest)
      ]
]

-- The log of each container has its changes of health and no other line, in their order, with the
-- health before and after, however its observations are mixed with those of other containers: a
-- first observation, or the first one after the container was not present, is a line where it is
-- unhealthy, and a later one where it differs from the one before it. A line is a warning where the
-- health after is unhealthy, and no other is.
pub log_of-Lines :
    (d : Text) (beats : List Beat) (t : Tracker) → Lines d (last_of d t) beats (log_of d beats t)
unfolding log_of observe
log_of-Lines d [] t = over
log_of-Lines d (saw c h ∷ beats) t =
    let rest : Lines d (last_of d (set_last c h t)) beats (log_of d beats (set_last c h t)) =
      log_of-Lines d beats (set_last c h t) in
    elim (Bool-cases (text_eq c d)) [
      | inl e ↦
          let p : c ≡ d = (text_eq_iff c d).0 e in
          let known : last_of d (set_last c h t) ≡ some h = rw (last_of-set_last c d h t, e) refl in
          let line : change_of (last_of c t) c h ≡ change_of (last_of d t) d h =
            ap (λ x. change_of (last_of x t) x h) p in
          rw (e, line) (observed c d h (last_of d t) p (rw known at rest))
      | inr e ↦
          let known : last_of d (set_last c h t) ≡ last_of d t =
            rw (last_of-set_last c d h t, e) refl in
          rw e (other (ne_of_text_eq c d e) (rw known at rest))
    ]
log_of-Lines d (kept names ∷ beats) t =
    let rest : Lines d (last_of d (retain names t)) beats (log_of d beats (retain names t)) =
      log_of-Lines d beats (retain names t) in
    elim (Bool-cases (contains names d)) [
      | inl e ↦
          let known : last_of d (retain names t) ≡ last_of d t =
            rw (last_of-retain names d t, e) refl in
          present (contains-Any names d e) (rw known at rest)
      | inr e ↦
          let known : last_of d (retain names t) ≡ none = rw (last_of-retain names d t, e) refl in
          gone (contains-All names d e) (rw known at rest)
    ]
