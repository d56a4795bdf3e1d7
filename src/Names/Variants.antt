-- ===== src/Names/Variants.antt =====
-- isCanonicalVariant and validContainerName.
use lattice_runner.Base.{
  ℕ, ◌≡◌, refl, Bool, true, false, Option, none, some, [], ◌∷◌, ◌++◌, ◌&&◌, ◌||◌, arith, Text,
  text_eq, has_prefix, strip_prefix, strip_prefix-append, ◌==◌, if◌then◌else◌, leb, ltb, length,
  codes, has_prefix-append, is_nil,
}
use mathlib.Core.List.{append_assoc}
use lattice_runner.Names.Cut.{before, has_char}
use lattice_runner.Names.Canonical.{
  dash, canonical_container_name, canonical-generate_suffix, canonical-plain, generate_suffix,
  generate_suffix-generated, is_generated_suffix_segment, retired_mark,
}

is_variant_rest : Text → Bool
is_variant_rest rest =
    if has_prefix (codes "retired") rest || text_eq rest (codes "lattice-updating")
    then true
    else is_generated_suffix_segment rest

abbrev rest_is_variant : Option Text → Bool
rest_is_variant none = false
rest_is_variant (some rest) = is_variant_rest rest

unfoldable pub is_canonical_variant : Text → Text → Bool
unfolding is_variant_rest
is_canonical_variant canonical_name docker_name =
    rest_is_variant (strip_prefix (canonical_name ++ dash ∷ []) docker_name)

is_name_char : ℕ → Bool
is_name_char c =
    (leb b'a' c && leb c b'z')
    || (leb b'A' c && leb c b'Z')
    || (leb b'0' c && leb c b'9')
    || c == b'-'
    || c == b'_'
    || c == b'.'
    || c == b'/'

abbrev all_name_chars : Text → Bool
all_name_chars [] = true
all_name_chars (c ∷ s) = if is_name_char c then all_name_chars s else false

-- The length in Go counts bytes; a name with a character of several bytes is refused either way.
unfoldable pub valid_container_name : Text → Bool
unfolding is_name_char
valid_container_name name =
    if is_nil name || ltb 128 (length name) then false else all_name_chars name

strip_dash : (c s : Text) → strip_prefix (c ++ dash ∷ []) (c ++ dash ∷ s) ≡ some s
strip_dash c s = rw (append_assoc c (dash ∷ []) s) at (strip_prefix-append (c ++ dash ∷ []) s)

variant_rest_iff :
    (canonical rest : Text)
    → is_canonical_variant canonical (canonical ++ dash ∷ rest) ≡ is_variant_rest rest
unfolding is_canonical_variant
variant_rest_iff canonical rest = rw (strip_dash canonical rest)

-- A container that a deploy creates is found again under the name of its specification, where that
-- name is not empty and has no "-retired-" in it, also with a dash behind it: the name and a suffix of
-- six random bytes is a variant of the name, and goes back to it.
pub deploy_name-found :
    (c : ℕ) (s bytes : Text)
    → length bytes ≡ 6
    → before retired_mark (c ∷ s ++ dash ∷ []) ≡ none
    → let d = c ∷ s ++ dash ∷ generate_suffix bytes in
      (is_canonical_variant (c ∷ s) d ≡ true) × (canonical_container_name d ≡ c ∷ s)
unfolding is_variant_rest
deploy_name-found c s bytes six clean = (
  rw (variant_rest_iff (c ∷ s) (generate_suffix bytes))
      (ground (arith, generate_suffix-generated bytes six)),
  canonical-generate_suffix c s bytes six clean,
)

no_dash_cons : (t : Text) → has_char dash t ≡ false → has_char dash (codes "retired" ++ t) ≡ false
unfolding has_char
no_dash_cons t h = ground arith

not_generated : (t : Text) → is_generated_suffix_segment (codes "retired" ++ t) ≡ false
unfolding is_generated_suffix_segment has_prefix
not_generated t = ground arith

-- The comment of isCanonicalVariant promises `name-retired-*`, and the code takes every name that
-- goes on with "retired": `name-retired2` counts as a variant of `name`, though it is its own
-- canonical name. It holds of a name that is not empty and has no "-retired-" in it, also with a dash
-- behind it, and of every rest without a dash.
pub retired_word-variant :
    (c : ℕ) (s tail : Text)
    → has_char dash tail ≡ false
    → before retired_mark (c ∷ s ++ dash ∷ []) ≡ none
    → let d = c ∷ s ++ dash ∷ (codes "retired" ++ tail) in
      (is_canonical_variant (c ∷ s) d ≡ true) × (canonical_container_name d ≡ d)
unfolding is_variant_rest
retired_word-variant c s tail h clean = (
  rw (variant_rest_iff (c ∷ s) (codes "retired" ++ tail), has_prefix-append (codes "retired") tail)
      refl,
  canonical-plain c s (codes "retired" ++ tail) (not_generated tail) (no_dash_cons tail h)
      (λ e. ground arith) clean,
)
