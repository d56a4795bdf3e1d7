-- ===== src/Telemetry/Line.antt =====
-- lineHandler of telemetry/handler.go: the lines on stderr.
pub mod Equal
use lattice_runner.Base.{
  ℕ, Bool, true, false, not, ◌&&◌, ◌||◌, ◌==◌, Option, none, some, List, [], ◌∷◌, ◌++◌, Text, codes,
  if◌then◌else◌, is_nil, contains_any, decimal, ℤ, ltb_ℤ,
}
use lattice_runner.Telemetry.{
  Value, str, other, nothing, group, Attrs, nil, attr, append, Record, is_info,
}

-- strconv.CanBackquote, strconv.Quote and the name of a level.
pub record Format : Type 0 where
  pub can_backquote : Text → Bool
  pub quote : Text → Text
  pub level_text : ℤ → Text

pub record LineHandler : Type 0 where
  pub level : ℤ
  pub attrs : Text
  pub prefix : Text

unfoldable pub new_line_handler : ℤ → LineHandler
new_line_handler level = record { level = level; attrs = []; prefix = [] }

-- Enabled: the level of the record is not below that of the handler.
unfoldable pub line_enabled : LineHandler → ℤ → Bool
line_enabled h l = not (ltb_ℤ l h.level)

module _ (f : Format) where
  value_text : Text → Text
  value_text s =
      if is_nil s || contains_any s (32 ∷ b'=' ∷ 34 ∷ 9 ∷ 10 ∷ []) || not (f.can_backquote s)
      then f.quote s
      else s

  plain : Text → Text → Text → Text → Text
  unfolding value_text
  plain buf prefix key s = buf ++ 32 ∷ (prefix ++ (key ++ b'=' ∷ value_text s))

  -- The attribute of no key and no value is left out.
  zero_attr : Text → Text → Text → Text
  unfolding plain
  zero_attr buf prefix key = if is_nil key then buf else plain buf prefix key (codes "<nil>")

  group_prefix : Text → Text → Text
  group_prefix prefix key = if is_nil key then prefix else prefix ++ (key ++ b'.' ∷ [])

  unfoldable mutual
    unfolding plain zero_attr group_prefix

    pub append_attr : Text → Text → Text → Value → Text
    append_attr buf prefix key (str s) = plain buf prefix key s
    append_attr buf prefix key (other s) = plain buf prefix key s
    append_attr buf prefix key nothing = zero_attr buf prefix key
    append_attr buf prefix key (group given) = append_attrs buf (group_prefix prefix key) given

    pub append_attrs : Text → Text → Attrs → Text
    append_attrs buf prefix nil = buf
    append_attrs buf prefix (attr k v rest) = append_attrs (append_attr buf prefix k v) prefix rest

  place_text : Option (Text × ℕ) → Text
  place_text none = []
  place_text (some (file, line)) = file ++ b':' ∷ (decimal line ++ b':' ∷ 32 ∷ [])

  level_prefix : ℤ → Text
  level_prefix l = if is_info l then [] else f.level_text l ++ 32 ∷ []

  -- What stands before the attributes: the text of the record's time, its place in the source, a
  -- file's base name and a line, where it has one, its level and its message.
  line_head : Text → Option (Text × ℕ) → Record → Text
  unfolding place_text level_prefix
  line_head time place r = time ++ 32 ∷ (place_text place ++ (level_prefix r.level ++ r.message))

  unfoldable pub line : LineHandler → Text → Option (Text × ℕ) → Record → Text
  unfolding line_head
  line h time place r = append_attrs (line_head time place r ++ h.attrs) h.prefix r.attrs ++ 10 ∷ []

  unfoldable pub line_with_attrs : Attrs → LineHandler → LineHandler
  line_with_attrs given h = record h { attrs = append_attrs h.attrs h.prefix given }

unfoldable pub line_with_group : Text → LineHandler → LineHandler
line_with_group name h =
    if is_nil name then h else record h { prefix = h.prefix ++ (name ++ b'.' ∷ []) }
