-- ===== src/Names/Tests.antt =====
-- Inputs of docker/logstreamer_test.go, and the other tests of this component.
use lattice_runner.Base.{◌≡◌, refl, true, false, ◌++◌, codes, has_prefix, text_eq}
use lattice_runner.Names.Cut.{before, strip_suffix, split_last, has_char}
use lattice_runner.Names.Variants.{
  valid_container_name, is_canonical_variant, deploy_name-found, retired_word-variant,
}
use lattice_runner.Names.Canonical.{
  canonical_container_name, is_generated_suffix_segment, generate_suffix, canonical-retired,
}

t1 : canonical_container_name (codes "openbucket-ltcz9i7q2") ≡ codes "openbucket"
unfolding canonical_container_name is_generated_suffix_segment before strip_suffix split_last
    has_prefix text_eq
t1 = refl

t2 : canonical_container_name (codes "web-retired-177") ≡ codes "web"
unfolding canonical_container_name is_generated_suffix_segment before strip_suffix split_last
    has_prefix text_eq
t2 = refl

t3 : canonical_container_name (codes "web-worker") ≡ codes "web-worker"
unfolding canonical_container_name is_generated_suffix_segment before strip_suffix split_last
    has_prefix text_eq
t3 = refl

deploy_name-found_example :
    let d = codes "web" ++ codes "-" ++ generate_suffix (codes "abcdef") in
    (is_canonical_variant (codes "web") d ≡ true) × (canonical_container_name d ≡ codes "web")
deploy_name-found_example =
    deploy_name-found b'w' (codes "eb") (codes "abcdef") refl (unfold before has_prefix in refl)

retired_word-variant_example :
    (is_canonical_variant (codes "web") (codes "web-retired2") ≡ true)
    × (canonical_container_name (codes "web-retired2") ≡ codes "web-retired2")
retired_word-variant_example =
    retired_word-variant b'w' (codes "eb") (codes "2") (unfold has_char in refl)
      (unfold before has_prefix in refl)

canonical-retired_example : canonical_container_name (codes "web-retired-17") ≡ codes "web"
canonical-retired_example =
    canonical-retired b'w' (codes "eb") (codes "17") (unfold before has_prefix in refl)

names_ok : valid_container_name (codes "stack/web_1.a-b") ≡ true
unfolding valid_container_name
names_ok = refl

name_refused : valid_container_name (codes "web;rm") ≡ false
unfolding valid_container_name
name_refused = refl
