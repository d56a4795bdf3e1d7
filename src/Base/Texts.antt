-- ===== src/Base/Texts.antt =====
-- Go strings, as lists of code points. The texts that the modelled code reads come out of JSON,
-- so they are valid UTF-8, and every slice is cut at an ASCII character.
use Prim.Native.Nat.{ℕ, zero, suc, ◌+◌, ◌/◌, ◌%◌}
use Prim.Native.Char.{code}
use Prim.Native.String.{String}
use mathlib.Core.Path.{◌≡◌, refl, ap₂}
use mathlib.Core.Logic.{◌↔◌}
use mathlib.Core.Bool.{Bool, true, false, ◌||◌, ◌&&◌}
use mathlib.Core.List.{List, [], ◌∷◌, ◌++◌}
use mathlib.Core.Option.{Option, none, some}
use native.Mathlib.Omega.{arith}
use lattice_runner.Base.Tests.{leb, ◌==◌, if◌then◌else◌, ==_iff, &&-true}

abbrev pub Text : Type 0
Text = List ℕ

abbrev pub codes : String → Text
codes String.[] = []
codes (String.◌∷◌ c s) = code c ∷ codes s

unfoldable pub text_eq : Text → Text → Bool
text_eq [] [] = true
text_eq (c ∷ s) (d ∷ t) = c == d && text_eq s t
text_eq _ _ = false

pub text_eq_refl : (s : Text) → text_eq s s ≡ true
unfolding text_eq
text_eq_refl [] = refl
text_eq_refl (c ∷ s) = ground (arith, text_eq_refl s)

pub text_eq→eq : (s t : Text) → text_eq s t ≡ true → s ≡ t
unfolding text_eq
text_eq→eq [] [] h = refl
text_eq→eq (c ∷ s) (d ∷ t) h =
    let (p, q) = &&-true (c == d) (text_eq s t) h in ap₂ ◌∷◌ ((==_iff c d).0 p) (text_eq→eq s t q)
text_eq→eq [] (d ∷ t) h = cc
text_eq→eq (c ∷ s) [] h = cc

pub text_eq_iff : (s t : Text) → (text_eq s t ≡ true) ↔ (s ≡ t)
text_eq_iff s t = (text_eq→eq s t, λ e. rw e (text_eq_refl t))

-- strings.HasPrefix, and the rest behind the prefix.
unfoldable pub strip_prefix : Text → Text → Option Text
strip_prefix [] s = some s
strip_prefix (p ∷ ps) [] = none
strip_prefix (p ∷ ps) (c ∷ s) = if p == c then strip_prefix ps s else none

unfoldable pub has_prefix : Text → Text → Bool
has_prefix [] s = true
has_prefix (p ∷ ps) [] = false
has_prefix (p ∷ ps) (c ∷ s) = p == c && has_prefix ps s

pub strip_prefix-append : (p s : Text) → strip_prefix p (p ++ s) ≡ some s
unfolding strip_prefix
strip_prefix-append [] s = refl
strip_prefix-append (c ∷ p) s = ground (arith, strip_prefix-append p s)

pub strip_prefix-eq_some : (p s r : Text) → strip_prefix p s ≡ some r → s ≡ p ++ r
unfolding strip_prefix
strip_prefix-eq_some [] s r h = ground arith
strip_prefix-eq_some (c ∷ p) [] r h = cc
strip_prefix-eq_some (c ∷ p) (d ∷ s) r h = ground (arith, strip_prefix-eq_some p s r)

pub has_prefix-append : (p s : Text) → has_prefix p (p ++ s) ≡ true
unfolding has_prefix
has_prefix-append [] s = refl
has_prefix-append (c ∷ p) s = ground (arith, has_prefix-append p s)

-- A text in a set of texts, as a Go map[string]bool is used.
unfoldable pub contains : List Text → Text → Bool
contains [] s = false
contains (t ∷ ts) s = text_eq t s || contains ts s

-- strconv.Itoa of a number that is not negative; the fuel is the number itself.
abbrev pub digits_from : ℕ → ℕ → Text → Text
digits_from zero n s = (b'0' + n) ∷ s
digits_from (suc f) n s =
    let rest = digits_from f (n / 10) ((b'0' + n % 10) ∷ s) in
    if n / 10 == 0 then (b'0' + n) ∷ s else rest

unfoldable pub decimal : ℕ → Text
decimal n = digits_from n n []

-- The value of a key in a Go map[string]string; a missing key reads as the empty text.
unfoldable pub value_of : Text → List (Text × Text) → Text
value_of k [] = []
value_of k ((j, v) ∷ m) = if text_eq j k then v else value_of k m

unfoldable pub has_rune : ℕ → Text → Bool
has_rune c [] = false
has_rune c (d ∷ s) = d == c || has_rune c s

-- strings.ContainsAny(s, chars)
unfoldable pub contains_any : Text → Text → Bool
unfolding has_rune
contains_any [] chars = false
contains_any (c ∷ s) chars = has_rune c chars || contains_any s chars

unfoldable pub is_space : ℕ → Bool
is_space c = c == 32 || leb 9 c && leb c 13
