-- ===== src/Names/Cut.antt =====
-- The functions of Go's strings package that cut a name at a separator.
use lattice_runner.Base.{
  ℕ, ◌≡◌, refl, Bool, true, false, Option, none, some, [], ◌∷◌, ◌++◌, arith, Text, text_eq,
  has_prefix, ◌==◌, if◌then◌else◌, length, length-append, text_eq_iff, Option-cases, inl, inr, ◌≤◌,
}

abbrev pub cons_some : ℕ → Option Text → Option Text
cons_some c none = none
cons_some c (some s) = some (c ∷ s)

abbrev pub cons_fst : ℕ → Option (Text × Text) → Option (Text × Text)
cons_fst c none = none
cons_fst c (some (s, t)) = some (c ∷ s, t)

-- name[:strings.Index(name, sub)], for a separator that is not empty.
unfoldable pub before : Text → Text → Option Text
before sub [] = none
before sub (c ∷ s) = if has_prefix sub (c ∷ s) then some [] else cons_some c (before sub s)

-- strings.TrimSuffix where strings.HasSuffix holds.
unfoldable pub strip_suffix : Text → Text → Option Text
strip_suffix suffix [] = if text_eq suffix [] then some [] else none
strip_suffix suffix (c ∷ s) =
    if text_eq suffix (c ∷ s) then some [] else cons_some c (strip_suffix suffix s)

-- Both sides of the last occurrence of a character, by strings.LastIndex.
abbrev pub or_here : ℕ → ℕ → Text → Option (Text × Text) → Option (Text × Text)
or_here sep c s (some (a, b)) = some (c ∷ a, b)
or_here sep c s none = if c == sep then some ([], s) else none

unfoldable pub split_last : ℕ → Text → Option (Text × Text)
split_last sep [] = none
split_last sep (c ∷ s) = or_here sep c s (split_last sep s)

-- Does a character occur in a text?
unfoldable pub has_char : ℕ → Text → Bool
has_char c [] = false
has_char c (d ∷ s) = if d == c then true else has_char c s

pub split_last-none : (sep : ℕ) (s : Text) → has_char sep s ≡ false → split_last sep s ≡ none
unfolding split_last has_char
split_last-none sep [] h = refl
split_last-none sep (c ∷ s) h = ground (arith, split_last-none sep s)

-- The last separator is the one in front of a text that has none.
pub split_last-append :
    (sep : ℕ) (a b : Text) → has_char sep b ≡ false → split_last sep (a ++ sep ∷ b) ≡ some (a, b)
unfolding split_last
split_last-append sep [] b h = ground (arith, split_last-none sep b h)
split_last-append sep (c ∷ a) b h = rw (split_last-append sep a b h)

has_char_tail : (sep c : ℕ) (b : Text) → has_char sep (c ∷ b) ≡ false → has_char sep b ≡ false
unfolding has_char
has_char_tail sep c b h = ground arith

-- A separator that is not empty is no prefix of the empty text.
not_prefix_nil : (sep : ℕ) (p : Text) → has_prefix (p ++ sep ∷ []) [] ≡ false
unfolding has_prefix
not_prefix_nil sep [] = refl
not_prefix_nil sep (x ∷ p) = refl

-- A separator that ends in `sep` is not found past the last `sep`.
pub has_prefix-append_clean :
    (sep : ℕ) (p a b : Text)
    → has_char sep b ≡ false
    → has_prefix (p ++ sep ∷ []) (a ++ b) ≡ has_prefix (p ++ sep ∷ []) a
unfolding has_prefix has_char
has_prefix-append_clean sep [] [] [] h = refl
has_prefix-append_clean sep [] [] (c ∷ b) h = ground arith
has_prefix-append_clean sep [] (x ∷ a) b h = refl
has_prefix-append_clean sep (x ∷ p) [] [] h = refl
has_prefix-append_clean sep (x ∷ p) [] (c ∷ b) h =
    ground
      (arith, has_prefix-append_clean sep p [] b (has_char_tail sep c b h), not_prefix_nil sep p)
has_prefix-append_clean sep (x ∷ p) (c ∷ a) b h =
    ground (arith, has_prefix-append_clean sep p a b h)

pub before_clean : (sep : ℕ) (p b : Text) → has_char sep b ≡ false → before (p ++ sep ∷ []) b ≡ none
unfolding before
before_clean sep p [] h = refl
before_clean sep p (c ∷ b) h = rw (
  has_prefix-append_clean sep p [] (c ∷ b) h,
  not_prefix_nil sep p,
  before_clean sep p b (has_char_tail sep c b h),
)

-- Nothing is found in `a ++ b` that is not found in `a`, where `b` has no `sep`.
pub before-append_clean :
    (sep : ℕ) (p a b : Text)
    → has_char sep b ≡ false
    → before (p ++ sep ∷ []) a ≡ none
    → before (p ++ sep ∷ []) (a ++ b) ≡ none
unfolding before
before-append_clean sep p [] b h n = before_clean sep p b h
before-append_clean sep p (c ∷ a) b h n =
    ground (arith, has_prefix-append_clean sep p (c ∷ a) b h, before-append_clean sep p a b h)

-- A prefix that fits into the first part says nothing of the second.
has_prefix-append_fits :
    (q s t : Text) → length q ≤ length s → has_prefix q (s ++ t) ≡ has_prefix q s
unfolding has_prefix
has_prefix-append_fits [] [] t h = ground arith
has_prefix-append_fits [] (c ∷ s) t h = refl
has_prefix-append_fits (x ∷ q) [] t h = absurd (omega arith)
has_prefix-append_fits (x ∷ q) (c ∷ s) t h = rw (has_prefix-append_fits q s t (omega arith))

has_prefix_here : (sep : ℕ) (p r : Text) → has_prefix (p ++ sep ∷ []) (p ++ sep ∷ r) ≡ true
unfolding has_prefix
has_prefix_here sep [] r = ground arith
has_prefix_here sep (x ∷ p) r = ground (arith, has_prefix_here sep p r)

before_inv :
    (sub : Text) (c : ℕ) (s : Text)
    → before sub (c ∷ s) ≡ none
    → (has_prefix sub (c ∷ s) ≡ false) × (before sub s ≡ none)
unfolding before
before_inv sub c s h = ground arith

-- The first occurrence is the one behind `a`, where `a` and all of the separator but its end hold
-- none.
pub before-append_self :
    (sep : ℕ) (p a r : Text)
    → before (p ++ sep ∷ []) (a ++ p) ≡ none
    → before (p ++ sep ∷ []) ((a ++ p) ++ sep ∷ r) ≡ some a
unfolding before
before-append_self sep [] [] r n = rw (has_prefix_here sep [] r)
before-append_self sep (x ∷ p) [] r n = rw (has_prefix_here sep (x ∷ p) r)
before-append_self sep p (c ∷ a) r n =
    let (no_prefix, no_more) = before_inv (p ++ sep ∷ []) c (a ++ p) n in
    rw (
      has_prefix-append_fits (p ++ sep ∷ []) (c ∷ (a ++ p)) (sep ∷ r)
          (omega (arith, length-append {0} p (sep ∷ []), length-append {0} a p)),
      no_prefix,
      before-append_self sep p a r no_more,
    )

pub strip_suffix-eq_some : (suffix s r : Text) → strip_suffix suffix s ≡ some r → s ≡ r ++ suffix
unfolding strip_suffix
strip_suffix-eq_some suffix [] r h = ground (arith, text_eq_iff suffix [])
strip_suffix-eq_some suffix (c ∷ s) r h = elim (Option-cases (strip_suffix suffix s)) [
  | inl e ↦ ground (arith, text_eq_iff suffix (c ∷ s))
  | inr (q, e) ↦ ground (arith, text_eq_iff suffix (c ∷ s), strip_suffix-eq_some suffix s q)
]
