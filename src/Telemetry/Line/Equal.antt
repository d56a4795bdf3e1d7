-- ===== src/Telemetry/Line/Equal.antt =====
-- Attributes given once are written as if each record had them.
use mathlib.Core.List.{append_assoc}
use lattice_runner.Base.{
  ℕ, ◌≡◌, refl, sym, ap, ◌∙◌, Option, [], ◌∷◌, ◌++◌, Text, codes, is_nil, Bool-cases, inl, inr,
}
use lattice_runner.Telemetry.{Value, str, other, nothing, group, Attrs, nil, attr, append, Record}
use lattice_runner.Telemetry.Line.{
  Format, LineHandler, append_attr, append_attrs, plain, zero_attr, group_prefix, line, line_head,
  line_with_attrs,
}

module _ (f : Format) where
  append_attrs-append :
      (buf prefix : Text) (a b : Attrs)
      → append_attrs f buf prefix (append a b)
        ≡ append_attrs f (append_attrs f buf prefix a) prefix b
  unfolding append append_attrs
  append_attrs-append buf prefix nil b = refl
  append_attrs-append buf prefix (attr k v a) b =
      append_attrs-append (append_attr f buf prefix k v) prefix a b

  plain-front :
      (front buf prefix key s : Text)
      → plain f (front ++ buf) prefix key s ≡ front ++ plain f buf prefix key s
  unfolding plain
  plain-front front buf prefix key s = append_assoc front buf _

  zero-front :
      (front buf prefix key : Text)
      → zero_attr f (front ++ buf) prefix key ≡ front ++ zero_attr f buf prefix key
  unfolding zero_attr
  zero-front front buf prefix key = elim (Bool-cases (is_nil key)) [
    | inl e ↦ rw e refl
    | inr e ↦ rw e (plain-front front buf prefix key (codes "<nil>"))
  ]

  -- What is in the buffer stays in front.
  mutual
    unfolding append_attr append_attrs

    append_attr-front :
        (front buf prefix key : Text) (v : Value)
        → append_attr f (front ++ buf) prefix key v ≡ front ++ append_attr f buf prefix key v
    append_attr-front front buf prefix key (str s) = plain-front front buf prefix key s
    append_attr-front front buf prefix key (other s) = plain-front front buf prefix key s
    append_attr-front front buf prefix key nothing = zero-front front buf prefix key
    append_attr-front front buf prefix key (group given) =
        append_attrs-front front buf (group_prefix f prefix key) given

    append_attrs-front :
        (front buf prefix : Text) (a : Attrs)
        → append_attrs f (front ++ buf) prefix a ≡ front ++ append_attrs f buf prefix a
    append_attrs-front front buf prefix nil = refl
    append_attrs-front front buf prefix (attr k v rest) =
        ap (λ b. append_attrs f b prefix rest) (append_attr-front front buf prefix k v)
        ∙ append_attrs-front front (append_attr f buf prefix k v) prefix rest

  -- A line handler with attributes writes for each record the line that the handler without them
  -- writes for the record with these attributes in front of its own, inside whatever group the
  -- handler is.
  pub line-with_attrs :
      (h : LineHandler) (given : Attrs) (time : Text) (place : Option (Text × ℕ)) (r : Record)
      → line f (line_with_attrs f given h) time place r
        ≡ line f h time place (record r { attrs = append given r.attrs })
  unfolding line line_with_attrs
  line-with_attrs h given time place r =
      let head : Text = line_head f time place r in
      let front : append_attrs f (head ++ h.attrs) h.prefix given
          ≡ head ++ append_attrs f h.attrs h.prefix given =
        append_attrs-front head h.attrs h.prefix given in
      let both : append_attrs f (head ++ h.attrs) h.prefix (append given r.attrs)
          ≡ append_attrs f (append_attrs f (head ++ h.attrs) h.prefix given) h.prefix r.attrs =
        append_attrs-append (head ++ h.attrs) h.prefix given r.attrs in
      ap (λ b. b ++ 10 ∷ []) (ap (λ b. append_attrs f b h.prefix r.attrs) (sym front) ∙ sym both)
