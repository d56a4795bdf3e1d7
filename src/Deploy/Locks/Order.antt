-- ===== src/Deploy/Locks/Order.antt =====
-- Deployments take their locks in one order, so they do not wait for each other in a circle.
use mathlib.Core.Path.{subst}
use lattice_runner.Base.{
  ◌≡◌, refl, sym, ◌∙◌, true, false, List, [], ◌∷◌, ◌++◌, Text, text_eq, contains, All, All-map, Any,
  arith, Bool-cases, ||-false, inl, inr,
}
use lattice_runner.Names.{canonical_container_name}
use lattice_runner.Deploy.Spec.{DeploymentSpec, instance_names}
use lattice_runner.Deploy.Locks.{
  text_lt, collect, insert, sort, lock_names, Waiting, Blocked, held_by, through,
}

-- Every name is below all that stand behind it.
abbrev pub IsAscending : List Text → Type 0
IsAscending [] = Unit
IsAscending (x ∷ xs) = All (λ y. text_lt x y ≡ true) xs × IsAscending xs

text_lt_irrefl : (s : Text) → text_lt s s ≡ false
unfolding text_lt
text_lt_irrefl [] = refl
text_lt_irrefl (c ∷ s) = ground (arith, text_lt_irrefl s)

text_lt_trans : (s t u : Text) → text_lt s t ≡ true → text_lt t u ≡ true → text_lt s u ≡ true
unfolding text_lt
text_lt_trans [] [] u h k = cc
text_lt_trans [] (d ∷ t) [] h k = cc
text_lt_trans [] (d ∷ t) (e ∷ u) h k = refl
text_lt_trans (c ∷ s) [] u h k = cc
text_lt_trans (c ∷ s) (d ∷ t) [] h k = cc
text_lt_trans (c ∷ s) (d ∷ t) (e ∷ u) h k =
    let later : text_lt s t ≡ true → text_lt t u ≡ true → text_lt s u ≡ true =
      text_lt_trans s t u in
    ground arith

text_lt_total : (s t : Text) → text_lt s t ≡ false → text_eq t s ≡ false → text_lt t s ≡ true
unfolding text_lt text_eq
text_lt_total [] [] h k = cc
text_lt_total [] (d ∷ t) h k = cc
text_lt_total (c ∷ s) [] h k = refl
text_lt_total (c ∷ s) (d ∷ t) h k =
    let later : text_lt s t ≡ false → text_eq t s ≡ false → text_lt t s ≡ true =
      text_lt_total s t in
    ground arith

All-insert : (P : Text → Type 0) (x : Text) (ys : List Text) → P x → All P ys → All P (insert x ys)
unfolding insert
All-insert P x [] p h = (p, tt)
All-insert P x (y ∷ ys) p h = elim (Bool-cases (text_lt y x)) [
  | inl e ↦ rw e (h.0, All-insert P x ys p h.1)
  | inr e ↦ rw e (p, h)
]

insert-IsAscending :
    (x : Text) (ys : List Text)
    → All (λ y. text_eq x y ≡ false) ys
    → IsAscending ys
    → IsAscending (insert x ys)
unfolding insert
insert-IsAscending x [] n h = (tt, tt)
insert-IsAscending x (y ∷ ys) n h = elim (Bool-cases (text_lt y x)) [
  | inl e ↦ rw e (All-insert (λ z. text_lt y z ≡ true) x ys e h.0, insert-IsAscending x ys n.1 h.1)
  | inr e ↦
      let first : text_lt x y ≡ true = text_lt_total y x e n.0 in
      rw e ((first, All-map _ _ (λ z below. text_lt_trans x y z first below) ys h.0), h)
]

-- No text stands in the list twice.
abbrev IsDistinct : List Text → Type 0
IsDistinct [] = Unit
IsDistinct (x ∷ xs) = All (λ y. text_eq x y ≡ false) xs × IsDistinct xs

All-sort : (P : Text → Type 0) (xs : List Text) → All P xs → All P (sort xs)
unfolding sort
All-sort P [] h = tt
All-sort P (x ∷ xs) h = All-insert P x (sort xs) h.0 (All-sort P xs h.1)

sort-IsAscending : (xs : List Text) → IsDistinct xs → IsAscending (sort xs)
unfolding sort
sort-IsAscending [] h = tt
sort-IsAscending (x ∷ xs) h =
    insert-IsAscending x (sort xs) (All-sort (λ y. text_eq x y ≡ false) xs h.0)
      (sort-IsAscending xs h.1)

collect-fresh : (seen ns : List Text) → All (λ y. contains seen y ≡ false) (collect seen ns)
unfolding collect contains
collect-fresh seen [] = tt
collect-fresh seen (n ∷ ns) =
    let name = canonical_container_name n in
    elim (Bool-cases (contains seen name)) [
      | inl e ↦ rw e (collect-fresh seen ns)
      | inr e ↦ rw e (
        e,
        All-map _ _ (λ y h. (||-false (text_eq name y) (contains seen y) h).1)
            (collect (name ∷ seen) ns) (collect-fresh (name ∷ seen) ns),
      )
    ]

collect-IsDistinct : (seen ns : List Text) → IsDistinct (collect seen ns)
unfolding collect contains
collect-IsDistinct seen [] = tt
collect-IsDistinct seen (n ∷ ns) =
    let name = canonical_container_name n in
    elim (Bool-cases (contains seen name)) [
      | inl e ↦ rw e (collect-IsDistinct seen ns)
      | inr e ↦ rw e (
        All-map _ _ (λ y h. (||-false (text_eq name y) (contains seen y) h).0)
            (collect (name ∷ seen) ns) (collect-fresh (name ∷ seen) ns),
        collect-IsDistinct (name ∷ seen) ns,
      )
    ]

lock_names-IsAscending : (spec : DeploymentSpec) → IsAscending (lock_names spec)
unfolding lock_names
lock_names-IsAscending spec =
    sort-IsAscending (collect [] (instance_names spec.containers))
      (collect-IsDistinct [] (instance_names spec.containers))

below_next :
    (x next : Text) (later held : List Text)
    → All (λ y. text_lt x y ≡ true) (held ++ next ∷ later)
    → text_lt x next ≡ true
below_next x next later [] h = h.0
below_next x next later (y ∷ held) h = below_next x next later held h.1

-- What stands before a name is below it.
earlier_below :
    (held : List Text) (next m : Text) (later : List Text)
    → IsAscending (held ++ next ∷ later)
    → Any (λ n. n ≡ m) held
    → text_lt m next ≡ true
earlier_below [] next m later h i = elim i [ ]
earlier_below (x ∷ held) next m later h (inl e) =
    subst (λ z. text_lt z next ≡ true) e (below_next x next later held h.0)
earlier_below (x ∷ held) next m later h (inr i) = earlier_below held next m later h.1 i

-- The canonical names of a deployment's containers are canonical names of their own.
abbrev pub IsStable : Waiting → Type 0
IsStable p = All (λ n. canonical_container_name n ≡ n) (lock_names p.spec)

-- Where the names are stable, the lock of a name is the name.
locks-names :
    (m next : Text) (later held : List Text)
    → All (λ n. canonical_container_name n ≡ n) (held ++ next ∷ later)
    → Any (λ n. canonical_container_name n ≡ m) held
    → Any (λ n. n ≡ m) held
locks-names m next later [] h i = elim i [ ]
locks-names m next later (x ∷ held) h (inl e) = inl (sym h.0 ∙ e)
locks-names m next later (x ∷ held) h (inr i) = inr (locks-names m next later held h.1 i)

own_lock :
    (next : Text) (later held : List Text)
    → All (λ n. canonical_container_name n ≡ n) (held ++ next ∷ later)
    → canonical_container_name next ≡ next
own_lock next later [] h = h.0
own_lock next later (x ∷ held) h = own_lock next later held h.1

IsStable-among :
    (q : Waiting) (fleet : List Waiting) → All IsStable fleet → Any (λ r. r ≡ q) fleet → IsStable q
IsStable-among q [] h i = elim i [ ]
IsStable-among q (r ∷ fleet) h (inl e) = subst IsStable e h.0
IsStable-among q (r ∷ fleet) h (inr i) = IsStable-among q fleet h.1 i

module _ (fleet : List Waiting) (stable : All IsStable fleet) where
  Blocked-lt :
      {p q : Waiting}
      → Blocked fleet p q
      → text_lt (canonical_container_name p.next) (canonical_container_name q.next) ≡ true
  Blocked-lt (held_by p q among i) =
      let names : All (λ n. canonical_container_name n ≡ n) (q.held ++ q.next ∷ q.later) =
        subst (λ ns. All (λ n. canonical_container_name n ≡ n) ns) (sym q.in_order)
          (IsStable-among q fleet stable among) in
      let below : text_lt (canonical_container_name p.next) q.next ≡ true =
        earlier_below q.held q.next (canonical_container_name p.next) q.later
          (subst IsAscending (sym q.in_order) (lock_names-IsAscending q.spec))
          (locks-names (canonical_container_name p.next) q.next q.later q.held names i) in
      subst (λ n. text_lt (canonical_container_name p.next) n ≡ true)
        (sym (own_lock q.next q.later q.held names)) below
  Blocked-lt (through {p} {q} {r} b c) =
      text_lt_trans (canonical_container_name p.next) (canonical_container_name q.next)
        (canonical_container_name r.next) (Blocked-lt b) (Blocked-lt c)

-- None of the deployments that run together waits for itself, neither at once nor through any
-- number of others, where the canonical name of each of their containers is its own canonical name:
-- as they all take the locks in the order of lock_names, they cannot deadlock.
pub Blocked-irreflexive :
    (fleet : List Waiting) → All IsStable fleet → (p : Waiting) → ¬ Blocked fleet p p
Blocked-irreflexive fleet stable p b =
    let lock : Text = canonical_container_name p.next in
    let below : text_lt lock lock ≡ true = Blocked-lt fleet stable b in
    let not_below : text_lt lock lock ≡ false = text_lt_irrefl lock in cc
