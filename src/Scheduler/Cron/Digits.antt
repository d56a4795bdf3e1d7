-- ===== src/Scheduler/Cron/Digits.antt =====
-- Decimal numbers are read back.
use lattice_runner.Base.{
  ℕ, zero, suc, ◌+◌, ◌-◌, ◌*◌, ◌/◌, ◌%◌, ◌≤◌, ◌<◌, ◌≡◌, refl, ap, ◌∙◌, Bool, true, false, ◌==◌,
  ◌&&◌, some, [], ◌∷◌, Text, is_nil, decimal, digits_from, arith, Bool-cases, inl, inr,
}
use lattice_runner.Scheduler.Cron.{pos, is_digit, digits_value, magnitude, up_to_max, atoi}

abbrev pub limit : ℕ
limit = 9_223_372_036_854_775_808

abbrev pub all_digits : Text → Bool
all_digits [] = true
all_digits (c ∷ s) = is_digit c && all_digits s

pub digits_from-all :
    (f n : ℕ) (s : Text) → n ≤ f → all_digits s ≡ true → all_digits (digits_from f n s) ≡ true
unfolding is_digit
digits_from-all zero n s h k = ground arith
digits_from-all (suc f) n s h k =
    let rest : n / 10 ≤ f = omega arith in
    let below : n % 10 < 10 = omega arith in
    let digit : all_digits ((b'0' + n % 10) ∷ s) ≡ true = ground arith in
    let later = digits_from-all f (n / 10) ((b'0' + n % 10) ∷ s) rest digit in ground arith

pub digit-value :
    (m acc : ℕ) (s : Text)
    → m < 10
    → digits_value acc ((b'0' + m) ∷ s) ≡ digits_value (acc * 10 + m) s
unfolding digits_value is_digit
digit-value m acc s h =
    let digit : is_digit (b'0' + m) ≡ true = ground arith in
    let number : b'0' + m - 48 ≡ m = omega arith in rw (digit, number)

-- Reading back what was written, with what stands behind it.
pub digits_from-value :
    (f n : ℕ) (s : Text) → n ≤ f → digits_value 0 (digits_from f n s) ≡ digits_value n s
unfolding digits_value is_digit
digits_from-value zero n s h = ground arith
digits_from-value (suc f) n s h =
    let rest : n / 10 ≤ f = omega arith in
    let later : digits_value 0 (digits_from f (n / 10) ((b'0' + n % 10) ∷ s))
        ≡ digits_value (n / 10) ((b'0' + n % 10) ∷ s) =
      digits_from-value f (n / 10) ((b'0' + n % 10) ∷ s) rest in
    let same : n / 10 * 10 + n % 10 ≡ n = omega arith in
    elim (Bool-cases (n / 10 == 0)) [
      | inl small ↦
          let below : n < 10 = ground arith in
          let alone : 0 * 10 + n ≡ n = omega arith in
          rw small (digit-value n 0 s below ∙ ap (λ x. digits_value x s) alone)
      | inr big ↦
          rw big (
            later ∙ digit-value (n % 10) (n / 10) s (omega arith) ∙ ap (λ x. digits_value x s) same)
    ]

pub decimal-all : (n : ℕ) → all_digits (decimal n) ≡ true
unfolding decimal
decimal-all n = digits_from-all n n [] (omega arith) refl

pub digits_from-cons : (f n : ℕ) (s : Text) → is_nil (digits_from f n s) ≡ false
digits_from-cons zero n s = refl
digits_from-cons (suc f) n s =
    let later = digits_from-cons f (n / 10) ((b'0' + n % 10) ∷ s) in ground arith

pub atoi_digits :
    (s : Text) (n : ℕ)
    → is_nil s ≡ false
    → all_digits s ≡ true
    → digits_value 0 s ≡ some n
    → n < limit
    → atoi s ≡ some (pos n)
unfolding atoi magnitude up_to_max is_digit
atoi_digits [] n e d v h = cc
atoi_digits (c ∷ s) n e d v h = ground arith

pub atoi-decimal : (n : ℕ) → n < limit → atoi (decimal n) ≡ some (pos n)
unfolding decimal digits_value
atoi-decimal n h =
    atoi_digits (digits_from n n []) n (digits_from-cons n n [])
      (digits_from-all n n [] (omega arith) refl) (digits_from-value n n [] (omega arith)) h
