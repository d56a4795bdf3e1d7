-- ===== src/Context/Jobs.antt =====
-- The job ids of units of work.
use lattice_runner.Base.{
  ℕ, zero, suc, ◌-◌, ◌≡◌, refl, sym, ap, ◌∙◌, false, ◌==◌, ==_iff, Option, none, some, [], ◌++◌,
  Text, is_nil, length, decimal, ℤ, pos, negsuc, arith, Bool-cases, inl, inr,
}
use lattice_runner.Scheduler.Cron.{atoi, digits_value, is_digit}
use lattice_runner.Scheduler.Cron.Digits.{digits_from-value}
use lattice_runner.Context.{
  JobKind, deployment, snapshot, restoration, database, tag, zeros, padded, sixteen, of_number,
  unit_job_id,
}

-- A padded number is read back.
zeros-value : (k : ℕ) (s : Text) → digits_value 0 (zeros k ++ s) ≡ digits_value 0 s
unfolding zeros digits_value is_digit
zeros-value zero s = refl
zeros-value (suc k) s = zeros-value k s

padded-value : (n : ℕ) → digits_value 0 (padded n) ≡ some n
unfolding padded decimal
padded-value n =
    zeros-value (14 - length (decimal n)) (decimal n)
    ∙ digits_from-value n n [] (omega arith)
    ∙ (unfold digits_value in refl)

padded-injective : (n m : ℕ) → padded n ≡ padded m → n ≡ m
padded-injective n m h = cc (ap (digits_value 0) h, padded-value n, padded-value m)

-- The two letters of a tag, before the same or another text.
tag-injective : (j k : JobKind) (a b : Text) → tag j ++ a ≡ tag k ++ b → (j ≡ k) × (a ≡ b)
unfolding tag
tag-injective deployment deployment a b h = (refl, cc)
tag-injective deployment snapshot a b h = absurd (ground arith)
tag-injective deployment restoration a b h = absurd (ground arith)
tag-injective deployment database a b h = absurd (ground arith)
tag-injective snapshot deployment a b h = absurd (ground arith)
tag-injective snapshot snapshot a b h = (refl, cc)
tag-injective snapshot restoration a b h = absurd (ground arith)
tag-injective snapshot database a b h = absurd (ground arith)
tag-injective restoration deployment a b h = absurd (ground arith)
tag-injective restoration snapshot a b h = absurd (ground arith)
tag-injective restoration restoration a b h = (refl, cc)
tag-injective restoration database a b h = absurd (ground arith)
tag-injective database deployment a b h = absurd (ground arith)
tag-injective database snapshot a b h = absurd (ground arith)
tag-injective database restoration a b h = absurd (ground arith)
tag-injective database database a b h = (refl, cc)

-- An id that is not empty is the tag and the padded number, in 16 characters.
record Rendered (k : JobKind) (o : Option ℤ) (id : Text) : Type 0 where
  number : ℕ
  read : o ≡ some (pos (suc number))
  written : id ≡ tag k ++ padded (suc number)
  width : length id ≡ 16

sixteen-Rendered :
    (k : JobKind) (n : ℕ)
    → is_nil (sixteen (tag k ++ padded (suc n))) ≡ false
    → Rendered k (some (pos (suc n))) (sixteen (tag k ++ padded (suc n)))
unfolding sixteen
sixteen-Rendered k n h = elim (Bool-cases (length (tag k ++ padded (suc n)) == 16)) [
  | inl e ↦ rw e (record {
    number = n;
    read = refl;
    written = refl;
    width = (==_iff (length (tag k ++ padded (suc n))) 16).0 e;
  })
  | inr e ↦ absurd (cc (rw e at h))
]

of_number-Rendered :
    (k : JobKind) (o : Option ℤ) → is_nil (of_number k o) ≡ false → Rendered k o (of_number k o)
unfolding of_number
of_number-Rendered k none h = absurd (cc)
of_number-Rendered k (some (pos zero)) h = absurd (cc)
of_number-Rendered k (some (pos (suc n))) h = sixteen-Rendered k n h
of_number-Rendered k (some (negsuc n)) h = absurd (cc)

-- Job ids of units do not collide: two that are equal and not empty are of units of one kind, whose
-- numbers in the payload read the same; and they have 16 characters.
pub unit_job_id-injective :
    (j k : JobKind) (r s : Text)
    → is_nil (unit_job_id j r) ≡ false
    → unit_job_id j r ≡ unit_job_id k s
    → (j ≡ k) × (atoi r ≡ atoi s) × (length (unit_job_id j r) ≡ 16)
unfolding unit_job_id
unit_job_id-injective j k r s h e =
    let a : Rendered j (atoi r) (of_number j (atoi r)) = of_number-Rendered j (atoi r) h in
    let b : Rendered k (atoi s) (of_number k (atoi s)) =
      of_number-Rendered k (atoi s) (sym (ap is_nil e) ∙ h) in
    let (kinds, texts) =
      tag-injective j k (padded (suc a.number)) (padded (suc b.number))
        (sym a.written ∙ e ∙ b.written) in
    let numbers : suc a.number ≡ suc b.number =
      padded-injective (suc a.number) (suc b.number) texts in
    (kinds, a.read ∙ ap (λ n. some (pos n)) numbers ∙ sym b.read, a.width)
