-- ===== src/Scheduler/Cron/Render.antt =====
-- The terms of a cron field, as they are written, and the values that they stand for.
use native.Mathlib.Nat.{mod-add-div', mul-mod_left}
use lattice_runner.Base.{
  ℕ, zero, suc, ◌+◌, ◌-◌, ◌*◌, ◌/◌, ◌%◌, ◌≤◌, ◌<◌, ◌≡◌, ◌↔◌, refl, ap, ◌∙◌, true, false, ltb, ◌==◌,
  none, some, [], ◌∷◌, ◌++◌, Text, codes, text_eq, if◌then◌else◌, is_nil, decimal, arith, ==_refl,
  Option-cases, Bool-cases, inl, inr,
}
use lattice_runner.Scheduler.Cron.Digits.{
  limit, all_digits, decimal-all, digits_from-cons, atoi-decimal,
}
use lattice_runner.Scheduler.Cron.{
  is_digit, cut_first, matched, Bounds, exact, between, natural, range_of, single, bounds_of,
  in_bounds, stepped, term_matches,
}

-- "*", a number or a range.
pub data Range : Type 0 where
  every : Range
  at : ℕ → Range
  from_to : ℕ → ℕ → Range

-- The numbers fit 64 bits, and a range goes upwards.
abbrev pub IsWritable : Range → Type 0
IsWritable every = Unit
IsWritable (at n) = n < limit
IsWritable (from_to lo hi) = (lo ≤ hi) × (hi < limit)

unfoldable pub write_range : Range → Text
write_range every = codes "*"
write_range (at n) = decimal n
write_range (from_to lo hi) = decimal lo ++ b'-' ∷ decimal hi

-- A step of 0 stands for a term without one.
unfoldable pub write_term : Range → ℕ → Text
unfolding write_range
write_term r zero = write_range r
write_term r (suc s) = write_range r ++ b'/' ∷ decimal (suc s)

-- The values from `lo` to `hi`: every one without a step, else those a multiple of it above `lo`.
abbrev pub InSteps : ℕ → ℕ → ℕ → ℕ → Type 0
InSteps lo hi zero v = (lo ≤ v) × (v ≤ hi)
InSteps lo hi (suc s) v = (k : ℕ) × (v ≡ lo + k * suc s) × (v ≤ hi)

-- What a term stands for in a field of the values from `min` to `max`.
abbrev pub Hits : Range → ℕ → ℕ → ℕ → ℕ → Type 0
Hits every step min max v = InSteps min max step v
Hits (at n) zero min max v = v ≡ n
Hits (at n) (suc s) min max v = InSteps n max (suc s) v
Hits (from_to lo hi) step min max v = InSteps lo hi step v

-- A text without a character is not cut at it.
cut_first-none :
    (sep : ℕ) (s : Text) → all_digits s ≡ true → is_digit sep ≡ false → cut_first sep s ≡ none
unfolding cut_first is_digit
cut_first-none sep [] h k = refl
cut_first-none sep (c ∷ s) h k =
    let later : all_digits s ≡ true → cut_first sep s ≡ none = λ e. cut_first-none sep s e k in
    ground arith

cut_first-append :
    (sep : ℕ) (s t : Text) → cut_first sep s ≡ none → cut_first sep (s ++ sep ∷ t) ≡ some (s, t)
unfolding cut_first
cut_first-append sep [] t h = rw (==_refl sep)
cut_first-append sep (c ∷ s) t h = elim (Bool-cases (c == sep)) [
  | inl same ↦ absurd (cc (rw same at h))
  | inr other ↦ elim (Option-cases (cut_first sep s)) [
    | inl e ↦ rw (other, cut_first-append sep s t e)
    | inr (r, e) ↦ absurd (cc (rw (other, e) at h))
  ]
]

cut_first-append_none :
    (sep c : ℕ) (s t : Text)
    → cut_first sep s ≡ none
    → (c == sep) ≡ false
    → cut_first sep t ≡ none
    → cut_first sep (s ++ c ∷ t) ≡ none
unfolding cut_first
cut_first-append_none sep c [] t h k l = rw (k, l)
cut_first-append_none sep c (e ∷ s) t h k l = elim (Bool-cases (e == sep)) [
  | inl same ↦ absurd (cc (rw same at h))
  | inr other ↦ elim (Option-cases (cut_first sep s)) [
    | inl q ↦ rw (other, cut_first-append_none sep c s t q k l)
    | inr (r, q) ↦ absurd (cc (rw (other, q) at h))
  ]
]

no_star : (s : Text) → is_nil s ≡ false → all_digits s ≡ true → text_eq s (codes "*") ≡ false
unfolding text_eq is_digit
no_star [] h k = cc
no_star (c ∷ s) h k = ground arith

no_star-append :
    (s t : Text) → is_nil s ≡ false → all_digits s ≡ true → text_eq (s ++ t) (codes "*") ≡ false
unfolding text_eq is_digit
no_star-append [] t h k = cc
no_star-append (c ∷ s) t h k = ground arith

decimal-cons : (n : ℕ) → is_nil (decimal n) ≡ false
unfolding decimal
decimal-cons n = digits_from-cons n n []

no_slash : (r : Range) → cut_first b'/' (write_range r) ≡ none
unfolding write_range
no_slash every = unfold cut_first in refl
no_slash (at n) = cut_first-none b'/' (decimal n) (decimal-all n) (unfold is_digit in refl)
no_slash (from_to lo hi) =
    cut_first-append_none b'/' b'-' (decimal lo) (decimal hi)
      (cut_first-none b'/' (decimal lo) (decimal-all lo) (unfold is_digit in refl)) refl
      (cut_first-none b'/' (decimal hi) (decimal-all hi) (unfold is_digit in refl))

-- The bounds that the code reads off a written range.
written_bounds : Range → ℕ → ℕ → ℕ → Bounds
written_bounds every step min max = between min max
written_bounds (at n) step min max = if step == 0 then exact n else between n max
written_bounds (from_to lo hi) step min max = between lo hi

bounds_of-write :
    (r : Range) (step min max : ℕ)
    → IsWritable r
    → bounds_of (write_range r) step min max ≡ written_bounds r step min max
unfolding bounds_of write_range written_bounds natural single range_of
bounds_of-write every step min max h = unfold text_eq in refl
bounds_of-write (at n) step min max h = rw (
  no_star (decimal n) (decimal-cons n) (decimal-all n),
  cut_first-none b'-' (decimal n) (decimal-all n) (unfold is_digit in refl),
  atoi-decimal n h,
)
bounds_of-write (from_to lo hi) step min max h =
    let upwards : ltb hi lo ≡ false = ground arith in
    rw (
      no_star-append (decimal lo) (b'-' ∷ decimal hi) (decimal-cons lo) (decimal-all lo),
      cut_first-append b'-' (decimal lo) (decimal hi)
          (cut_first-none b'-' (decimal lo) (decimal-all lo) (unfold is_digit in refl)),
      atoi-decimal lo (omega (arith, h.0, h.1)),
      atoi-decimal hi h.1,
      upwards,
    )

term_matches-write :
    (r : Range) (step value min max : ℕ)
    → IsWritable r
    → step < limit
    → term_matches (write_term r step) value min max
      ≡ in_bounds (written_bounds r step min max) step value
unfolding term_matches write_term stepped
term_matches-write r zero value min max h k =
    rw (no_slash r, bounds_of-write r 0 min max h, term_matches, write_term)
term_matches-write r (suc s) value min max h k = rw (
  cut_first-append b'/' (write_range r) (decimal (suc s)) (no_slash r),
  atoi-decimal (suc s) k,
  bounds_of-write r (suc s) min max h,
  term_matches,
  write_term,
)

rest_gone : (lo value rest p : ℕ) → rest + p ≡ value - lo → rest ≡ 0 → lo ≤ value → value ≡ lo + p
rest_gone lo value rest p e z h = omega arith

more_than : (lo value p : ℕ) → value ≡ lo + p → lo ≤ value
more_than lo value p e = omega arith

difference : (lo value p : ℕ) → value ≡ lo + p → value - lo ≡ p
difference lo value p e = omega arith

in_bounds-InSteps :
    (lo hi step value : ℕ)
    → (in_bounds (between lo hi) step value ≡ matched true) ↔ InSteps lo hi step value
unfolding in_bounds
in_bounds-InSteps lo hi zero value = (λ e. ground arith, λ h. ground arith)
in_bounds-InSteps lo hi (suc s) value = (there, back)
  where
    there : in_bounds (between lo hi) (suc s) value ≡ matched true → InSteps lo hi (suc s) value
    there e =
        let q = (value - lo) / suc s in
        let total : (value - lo) % suc s + q * suc s ≡ value - lo =
          mod-add-div' (value - lo) (suc s) in
        let aligned : (value - lo) % suc s ≡ 0 = ground arith in
        let above : lo ≤ value = ground arith in
        let below : value ≤ hi = ground arith in
        (q, rest_gone lo value ((value - lo) % suc s) (q * suc s) total aligned above, below)

    back : InSteps lo hi (suc s) value → in_bounds (between lo hi) (suc s) value ≡ matched true
    back (k, e, below) =
        let above : lo ≤ value = more_than lo value (k * suc s) e in
        let aligned : (value - lo) % suc s ≡ 0 =
          ap (λ x. x % suc s) (difference lo value (k * suc s) e) ∙ mul-mod_left k (suc s) in
        ground arith

written_bounds-Hits :
    (r : Range) (step value min max : ℕ)
    → (in_bounds (written_bounds r step min max) step value ≡ matched true)
      ↔ Hits r step min max value
unfolding written_bounds in_bounds
written_bounds-Hits every step value min max = in_bounds-InSteps min max step value
written_bounds-Hits (at n) zero value min max = (λ e. ground arith, λ e. ground arith)
written_bounds-Hits (at n) (suc s) value min max =
    let positive : (suc s == 0) ≡ false = ground arith in
    rw positive (in_bounds-InSteps n max (suc s) value)
written_bounds-Hits (from_to lo hi) step value min max = in_bounds-InSteps lo hi step value

-- A term of a cron field matches exactly the values that it stands for: "*" all of the field, a
-- number itself, a range the values in it, and with a step those that are a multiple of the step above
-- the first one, where a number with a step goes on to the end of the field. It holds of terms as they
-- are written, with numbers below 2 ^ 63, ranges that go upwards and steps below 2 ^ 63.
pub term_matches-Hits :
    (r : Range) (step value min max : ℕ)
    → IsWritable r
    → step < limit
    → (term_matches (write_term r step) value min max ≡ matched true) ↔ Hits r step min max value
term_matches-Hits r step value min max h k =
    rw (term_matches-write r step value min max h k) (written_bounds-Hits r step value min max)
