-- ===== src/Names/Canonical.antt =====
-- GenerateSuffix, IsGeneratedSuffixSegment and CanonicalContainerName.
use mathlib.Core.List.{append_assoc}
use lattice_runner.Base.{
  ℕ, ◌≡◌, ◌≢◌, refl, Bool, true, false, Option, none, some, [], ◌∷◌, ◌++◌, ◌&&◌, ◌||◌, arith, Text,
  has_prefix, ◌==◌, if◌then◌else◌, leb, length, codes, map, get_elem?, ◌%◌, Option-cases, inl, inr,
  ap, sym, suc, holds_below, holds_below_sound, ◌∙◌,
}
use lattice_runner.Names.Cut.{
  before, strip_suffix, split_last, has_char, split_last-append, before-append_clean,
  strip_suffix-eq_some, before-append_self,
}

abbrev pub dash : ℕ
dash = b'-'

abbrev pub suffix_marker : Text
suffix_marker = codes "ltc"

abbrev pub retired_mark : Text
retired_mark = codes "-retired-"

abbrev pub updating_mark : Text
updating_mark = codes "-lattice-updating"

is_suffix_char : ℕ → Bool
is_suffix_char c = leb b'a' c && leb c b'z' || leb b'0' c && leb c b'9'

abbrev all_chars : (ℕ → Bool) → Text → Bool
all_chars p [] = true
all_chars p (c ∷ s) = p c && all_chars p s

abbrev drop3 : Text → Text
drop3 (a ∷ b ∷ c ∷ s) = s
drop3 s = []

unfoldable pub is_generated_suffix_segment : Text → Bool
unfolding is_suffix_char
is_generated_suffix_segment seg =
    if length seg == 9
    then if has_prefix suffix_marker seg then all_chars is_suffix_char (drop3 seg) else false
    else false

abbrev chars : Text
chars = codes "abcdefghijklmnopqrstuvwxyz0123456789"

abbrev or_zero : Option ℕ → ℕ
or_zero none = 0
or_zero (some c) = c

pub suffix_char : ℕ → ℕ
suffix_char b = or_zero (get_elem? chars (b % 36))

-- The six bytes of crypto/rand are an argument.
unfoldable pub generate_suffix : Text → Text
unfolding suffix_char
generate_suffix bytes = suffix_marker ++ map suffix_char bytes

abbrev cut_generated : Text → Option (Text × Text) → Text
cut_generated name none = name
cut_generated name (some ([], seg)) = name
cut_generated name (some (c ∷ s, seg)) = if is_generated_suffix_segment seg then c ∷ s else name

abbrev cut_updating : Text → Option Text → Text
cut_updating name (some s) = s
cut_updating name none = cut_generated name (split_last dash name)

abbrev cut_retired : Text → Option Text → Text
cut_retired name (some (c ∷ s)) = c ∷ s
cut_retired name (some []) = cut_updating name (strip_suffix updating_mark name)
cut_retired name none = cut_updating name (strip_suffix updating_mark name)

unfoldable pub canonical_container_name : Text → Text
canonical_container_name name = cut_retired name (before retired_mark name)

-- A generated segment has no dash.
all_chars-no_dash : (s : Text) → all_chars is_suffix_char s ≡ true → has_char dash s ≡ false
unfolding has_char is_suffix_char
all_chars-no_dash [] h = refl
all_chars-no_dash (c ∷ s) h = ground (arith, all_chars-no_dash s)

pub generated-no_dash :
    (seg : Text) → is_generated_suffix_segment seg ≡ true → has_char dash seg ≡ false
unfolding is_generated_suffix_segment has_char has_prefix
generated-no_dash (a ∷ b ∷ c ∷ s) h = ground (arith, all_chars-no_dash s)
generated-no_dash _ h = ground arith

pub generated-length : (seg : Text) → is_generated_suffix_segment seg ≡ true → length seg ≡ 9
unfolding is_generated_suffix_segment
generated-length seg h = ground arith

-- The last segment of a text that ends in "-lattice-updating" is "updating".
updating_split :
    (name seg r : Text)
    → has_char dash seg ≡ false
    → name ++ dash ∷ seg ≡ r ++ updating_mark
    → seg ≡ codes "updating"
updating_split name seg r h e =
    let a : split_last dash (name ++ dash ∷ seg) ≡ some (name, seg) =
      split_last-append dash name seg h in
    let b : split_last dash ((r ++ codes "-lattice") ++ dash ∷ codes "updating")
        ≡ some (r ++ codes "-lattice", codes "updating") =
      split_last-append dash (r ++ codes "-lattice") (codes "updating") (unfold has_char in refl) in
    let e' : name ++ dash ∷ seg ≡ (r ++ codes "-lattice") ++ dash ∷ codes "updating" =
      e ∙ sym (append_assoc r (codes "-lattice") (dash ∷ codes "updating")) in
    cc (a, b, e')

not_updating :
    (name seg : Text)
    → has_char dash seg ≡ false
    → seg ≢ codes "updating"
    → strip_suffix updating_mark (name ++ dash ∷ seg) ≡ none
not_updating name seg no_dash other =
    elim (Option-cases (strip_suffix updating_mark (name ++ dash ∷ seg))) [
      | inl e ↦ e
      | inr (r, e) ↦
          absurd
            (other (updating_split name seg r no_dash (strip_suffix-eq_some updating_mark _ r e)))
    ]

strip_updating_none :
    (name seg : Text)
    → is_generated_suffix_segment seg ≡ true
    → strip_suffix updating_mark (name ++ dash ∷ seg) ≡ none
strip_updating_none name seg g =
    not_updating name seg (generated-no_dash seg g)
      λ u. absurd (omega (arith, generated-length seg g, ap length u))

no_mark :
    (c : ℕ) (s seg : Text)
    → has_char dash seg ≡ false
    → before retired_mark (c ∷ s ++ dash ∷ []) ≡ none
    → before retired_mark (c ∷ s ++ dash ∷ seg) ≡ none
no_mark c s seg no_dash clean =
    let whole : ((c ∷ s ++ dash ∷ []) ++ seg) ≡ c ∷ s ++ dash ∷ seg =
      append_assoc (c ∷ s) (dash ∷ []) seg in
    rw whole at (before-append_clean dash (codes "-retired") (c ∷ s ++ dash ∷ []) seg no_dash clean)

canonical_cuts :
    (name : Text) (c : ℕ) (s seg : Text)
    → before retired_mark name ≡ none
    → strip_suffix updating_mark name ≡ none
    → split_last dash name ≡ some (c ∷ s, seg)
    → is_generated_suffix_segment seg ≡ true
    → canonical_container_name name ≡ c ∷ s
unfolding canonical_container_name
canonical_cuts name c s seg r u l g = rw (r, u, l, g)

-- A name is its own canonical name where the last segment is no deploy suffix.
pub canonical-plain :
    (c : ℕ) (s seg : Text)
    → is_generated_suffix_segment seg ≡ false
    → has_char dash seg ≡ false
    → seg ≢ codes "updating"
    → before retired_mark (c ∷ s ++ dash ∷ []) ≡ none
    → canonical_container_name (c ∷ s ++ dash ∷ seg) ≡ c ∷ s ++ dash ∷ seg
unfolding canonical_container_name
canonical-plain c s seg g no_dash other clean = rw (
  no_mark c s seg no_dash clean,
  not_updating (c ∷ s) seg no_dash other,
  split_last-append dash (c ∷ s) seg no_dash,
  g,
)

-- A canonical name that has no retired mark comes back when a generated segment is stripped.
pub canonical-generated :
    (c : ℕ) (s seg : Text)
    → is_generated_suffix_segment seg ≡ true
    → before retired_mark (c ∷ s ++ dash ∷ []) ≡ none
    → canonical_container_name (c ∷ s ++ dash ∷ seg) ≡ c ∷ s
canonical-generated c s seg g clean =
    let no_dash = generated-no_dash seg g in
    canonical_cuts _ c s seg (no_mark c s seg no_dash clean) (strip_updating_none (c ∷ s) seg g)
      (split_last-append dash (c ∷ s) seg no_dash) g

suffix_char_ok : (b : ℕ) → is_suffix_char (suffix_char b) ≡ true
unfolding suffix_char
suffix_char_ok b =
    holds_below_sound (λ r. is_suffix_char (or_zero (get_elem? chars r))) 36
      (unfold holds_below is_suffix_char in refl) (b % 36) (omega arith)

all_chars-map : (bytes : Text) → all_chars is_suffix_char (map suffix_char bytes) ≡ true
all_chars-map [] = refl
all_chars-map (b ∷ bytes) = rw (suffix_char_ok b, all_chars-map bytes)

length-suffix : (bytes : Text) → length (map suffix_char bytes) ≡ length bytes
length-suffix [] = refl
length-suffix (b ∷ bytes) = ap suc (length-suffix bytes)

-- Every suffix that is generated is recognised as one.
pub generate_suffix-generated :
    (bytes : Text) → length bytes ≡ 6 → is_generated_suffix_segment (generate_suffix bytes) ≡ true
unfolding is_generated_suffix_segment generate_suffix has_prefix
generate_suffix-generated bytes six = ground (arith, all_chars-map bytes, length-suffix bytes)

-- A name that deploys give to a new container goes back to the name in the specification.
pub canonical-generate_suffix :
    (c : ℕ) (s bytes : Text)
    → length bytes ≡ 6
    → before retired_mark (c ∷ s ++ dash ∷ []) ≡ none
    → canonical_container_name (c ∷ s ++ dash ∷ generate_suffix bytes) ≡ c ∷ s
canonical-generate_suffix c s bytes six clean =
    canonical-generated c s (generate_suffix bytes) (generate_suffix-generated bytes six) clean

-- The name of a retired container goes back to the name in the specification, whatever its stamp,
-- where that name is not empty and the first "-retired-" is the one behind it.
pub canonical-retired :
    (c : ℕ) (s stamp : Text)
    → before retired_mark (c ∷ s ++ codes "-retired") ≡ none
    → canonical_container_name ((c ∷ s ++ codes "-retired") ++ dash ∷ stamp) ≡ c ∷ s
unfolding canonical_container_name
canonical-retired c s stamp clean =
    rw (before-append_self dash (codes "-retired") (c ∷ s) stamp clean)
