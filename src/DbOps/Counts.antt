-- ===== src/DbOps/Counts.antt =====
-- How many goroutines use a name, and what the table says of them.
use mathlib.Core.Path.{subst, fun_ext}
use lattice_runner.Base.{
  ℕ, ◌+◌, ◌<◌, Bool, true, false, ◌&&◌, ◌≡◌, ◌≢◌, ◌==◌, ==_iff, refl, sym, ap, none, some, List, [],
  ◌∷◌, ◌++◌, Text, text_eq, text_eq_iff, if◌then◌else◌, Bool-cases, inl, inr, All, arith,
}
use lattice_runner.DbOps.{
  DbNameOp, DbOps, Stage, locked_in, armed, disarmed, User, lookup, delete_name, put, moved,
}

-- Between Lock and Unlock.
unfoldable pub is_in : Stage → Bool
is_in locked_in = true
is_in armed = true
is_in disarmed = true
is_in _ = false

-- The users of a name, and those of them that are between Lock and Unlock.
unfoldable pub one_named : Text → User → ℕ
one_named n u = if text_eq u.name n then 1 else 0

unfoldable pub one_inside : Text → User → ℕ
one_inside n u = if text_eq u.name n && is_in u.stage then 1 else 0

unfoldable pub named : Text → List User → ℕ
unfolding one_named
named n [] = 0
named n (u ∷ us) = one_named n u + named n us

unfoldable pub inside : Text → List User → ℕ
unfolding one_inside
inside n [] = 0
inside n (u ∷ us) = one_inside n u + inside n us

pub named-append : (n : Text) (us vs : List User) → named n (us ++ vs) ≡ named n us + named n vs
unfolding named
named-append n [] vs = omega arith
named-append n (u ∷ us) vs = omega (arith, named-append n us vs)

pub inside-append : (n : Text) (us vs : List User) → inside n (us ++ vs) ≡ inside n us + inside n vs
unfolding inside
inside-append n [] vs = omega arith
inside-append n (u ∷ us) vs = omega (arith, inside-append n us vs)

pub lookup-delete :
    (n m : Text) (t : List (Text × ℕ))
    → lookup n (delete_name m t) ≡ (if text_eq m n then none else lookup n t)
unfolding lookup delete_name
lookup-delete n m [] = ground arith
lookup-delete n m ((k, i) ∷ t) =
    ground (arith, lookup-delete n m t, text_eq_iff k m, text_eq_iff k n, text_eq_iff m n)

abbrev pub locked_count : DbNameOp → ℕ
locked_count p = if p.locked then 1 else 0

-- The object of a name counts its users, and is locked by the one that is inside.
pub record Counts (o : DbOps) (us : List User) (n : Text) (i : ℕ) : Type 0 where
  pub refs : (o.store i).refs ≡ named n us
  pub used : 0 < (o.store i).refs
  pub held : inside n us ≡ locked_count (o.store i)
  pub made : i < o.next

pub record Inv (o : DbOps) (us : List User) : Type 0 where
  pub entry : All (λ u. lookup u.name o.table ≡ some u.op) us
  pub absent : (n : Text) → lookup n o.table ≡ none → (named n us ≡ 0) × (inside n us ≡ 0)
  pub present : (n : Text) (i : ℕ) → lookup n o.table ≡ some i → Counts o us n i
  pub apart : (n m : Text) (i : ℕ) → lookup n o.table ≡ some i → lookup m o.table ≡ some i → n ≡ m

pub Counts-eq :
    {o : DbOps} {us : List User} {n m : Text} {i j : ℕ}
    → n ≡ m
    → i ≡ j
    → Counts o us n i
    → Counts o us m j
Counts-eq {o} {us} {n} {m} {i} {j} p q c =
    subst (λ l. Counts o us l j) p (subst (λ k. Counts o us n k) q c)

-- Each user of a list, in its place.
pub All-at {ℓ κ} :
    {A : Type ℓ} (P : A → Type κ) (front : List A) (u : A) (back : List A)
    → All P (front ++ u ∷ back)
    → P u
All-at P [] u back h = h.0
All-at P (f ∷ front) u back h = All-at P front u back h.1

pub All-put {ℓ κ} :
    {A : Type ℓ} (P : A → Type κ) (front : List A) (u v : A) (back : List A)
    → P v
    → All P (front ++ u ∷ back)
    → All P (front ++ v ∷ back)
All-put P [] u v back p h = (p, h.1)
All-put P (f ∷ front) u v back p h = (h.0, All-put P front u v back p h.1)

pub All-drop {ℓ κ} :
    {A : Type ℓ} (P : A → Type κ) (front : List A) (u : A) (back : List A)
    → All P (front ++ u ∷ back)
    → All P (front ++ back)
All-drop P [] u back h = h.1
All-drop P (f ∷ front) u back h = (h.0, All-drop P front u back h.1)

-- What a change of stage does to the counts.
module _ (n : Text) (front : List User) (u : User) (back : List User) (stage : Stage) where
  pub named-moved : named n (front ++ moved stage u ∷ back) ≡ named n (front ++ u ∷ back)
  unfolding named one_named
  named-moved =
      omega (arith, named-append n front (moved stage u ∷ back), named-append n front (u ∷ back))

  pub inside-moved :
      inside n (front ++ moved stage u ∷ back) + one_inside n u
      ≡ inside n (front ++ u ∷ back) + one_inside n (moved stage u)
  unfolding inside
  inside-moved =
      omega (arith, inside-append n front (moved stage u ∷ back), inside-append n front (u ∷ back))

  pub inside-other :
      text_eq u.name n ≡ false
      → inside n (front ++ moved stage u ∷ back) ≡ inside n (front ++ u ∷ back)
  unfolding one_inside
  inside-other h = ground (arith, inside-moved, h)

pub put_at : (i : ℕ) (p : DbNameOp) (store : ℕ → DbNameOp) → put i p store i ≡ p
unfolding put
put_at i p store = ground arith

pub put_off : (i j : ℕ) (p : DbNameOp) (store : ℕ → DbNameOp) → j ≢ i → put i p store j ≡ store j
unfolding put
put_off i j p store h = ground arith

-- Names that differ have objects that differ.
pub ops_apart :
    {o : DbOps} {us : List User} (n m : Text) {i j : ℕ}
    → Inv o us
    → lookup n o.table ≡ some i
    → lookup m o.table ≡ some j
    → text_eq m n ≡ false
    → i ≢ j
ops_apart {o} n m {i} {j} v e f h same =
    let g : lookup m o.table ≡ some i = cc in
    let names : n ≡ m = v.apart n m i e g in absurd (ground (arith, text_eq_iff m n))

-- A user's name is not one that the table lacks.
pub absent_apart :
    (o : DbOps) (u : User) (n : Text)
    → lookup u.name o.table ≡ some u.op
    → lookup n o.table ≡ none
    → text_eq u.name n ≡ false
absent_apart o u n e h = elim (Bool-cases (text_eq u.name n)) [
  | inl same ↦
      let p : u.name ≡ n = (text_eq_iff u.name n).0 same in
      absurd (cc (h, e, ap (λ m. lookup m o.table) p))
  | inr apart ↦ apart
]

pub put_self : (i : ℕ) (store : ℕ → DbNameOp) → put i (store i) store ≡ store
unfolding put
put_self i store = fun_ext λ j. elim (Bool-cases (j == i)) [
  | inl e ↦ rw e (ap store (sym ((==_iff j i).0 e)))
  | inr e ↦ rw e refl
]
