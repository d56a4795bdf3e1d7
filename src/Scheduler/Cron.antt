-- ===== src/Scheduler/Cron.antt =====
-- cronMatches, fieldMatches and termMatches of scheduler/scheduler.go. White space is that of ASCII.
pub mod Digits
pub mod Render
pub use lattice_runner.Base.{ℤ, pos, negsuc}
use lattice_runner.Base.{
  is_space, ℕ, zero, suc, ◌+◌, ◌-◌, ◌*◌, ◌%◌, Bool, true, false, not, ltb, leb, ◌==◌, ◌||◌, ◌&&◌,
  Option, none, some, List, [], ◌∷◌, ◌++◌, Text, codes, text_eq, if◌then◌else◌, is_nil,
}

unfoldable pub is_digit : ℕ → Bool
is_digit c = leb 48 c && leb c 57

cons_first : ℕ → List Text → List Text
cons_first c [] = (c ∷ []) ∷ []
cons_first c (p ∷ ps) = (c ∷ p) ∷ ps

-- strings.Split at the characters of a kind; there is always a first part.
unfoldable pub split_by : (ℕ → Bool) → Text → List Text
unfolding cons_first
split_by is_sep [] = [] ∷ []
split_by is_sep (c ∷ s) =
    let rest = split_by is_sep s in if is_sep c then [] ∷ rest else cons_first c rest

not_empty : List Text → List Text
not_empty [] = []
not_empty (p ∷ ps) = if is_nil p then not_empty ps else p ∷ not_empty ps

-- strings.Fields
unfoldable pub fields : Text → List Text
unfolding not_empty
fields s = not_empty (split_by is_space s)

trim_left : Text → Text
trim_left [] = []
trim_left (c ∷ s) = if is_space c then trim_left s else c ∷ s

trim_right : Text → Text
trim_right [] = []
trim_right (c ∷ s) = let rest = trim_right s in if is_nil rest && is_space c then [] else c ∷ rest

-- strings.TrimSpace
unfoldable pub trim_space : Text → Text
unfolding trim_left trim_right
trim_space s = trim_right (trim_left s)

-- The texts on both sides of the first occurrence of a character, by strings.Index.
unfoldable pub cut_first : ℕ → Text → Option (Text × Text)
cut_first sep [] = none
cut_first sep (c ∷ s) =
    let rest = cut_first sep s in
    if c == sep then some ([], s) else elim rest [ none ↦ none | some (a, b) ↦ some (c ∷ a, b) ]

unfoldable pub digits_value : ℕ → Text → Option ℕ
digits_value acc [] = some acc
digits_value acc (c ∷ s) =
    let rest = digits_value (acc * 10 + (c - 48)) s in if is_digit c then rest else none

magnitude : Text → Option ℕ
magnitude s = if is_nil s then none else digits_value 0 s

up_to_max : Option ℕ → Option ℤ
up_to_max none = none
up_to_max (some n) = if ltb n 9_223_372_036_854_775_808 then some (pos n) else none

negated : Option ℕ → Option ℤ
negated none = none
negated (some zero) = some (pos zero)
negated (some (suc n)) = if ltb n 9_223_372_036_854_775_808 then some (negsuc n) else none

-- strconv.Atoi, with its bounds of 64 bits.
unfoldable pub atoi : Text → Option ℤ
unfolding magnitude up_to_max negated
atoi [] = none
atoi (c ∷ s) =
    if c == b'-'
    then negated (magnitude s)
    else if c == b'+'
    then up_to_max (magnitude s)
    else up_to_max (magnitude (c ∷ s))

pub data CronError : Type 0 where
  invalid_step invalid_range_start invalid_range_end invalid_range invalid_value : CronError

-- What termMatches and fieldMatches return.
pub data Checked : Type 0 where
  matched : Bool → Checked
  failed : CronError → Checked

pub data Bounds : Type 0 where
  exact : ℕ → Bounds
  between : ℕ → ℕ → Bounds
  bad : CronError → Bounds

-- The number of a text that has no "-" in it, so that Atoi's answer is not negative.
natural : Option ℤ → Option ℕ
natural none = none
natural (some (negsuc n)) = none
natural (some (pos n)) = some n

-- A step is positive.
step_of : Option ℤ → Option ℕ
step_of none = none
step_of (some (negsuc n)) = none
step_of (some (pos zero)) = none
step_of (some (pos (suc n))) = some (suc n)

range_of : Option ℕ → Option ℤ → Bounds
range_of none hi = bad invalid_range_start
range_of (some lo) none = bad invalid_range_end
range_of (some lo) (some (negsuc k)) = bad invalid_range
range_of (some lo) (some (pos hi)) = if ltb hi lo then bad invalid_range else between lo hi

single : Option ℕ → ℕ → ℕ → Bounds
single none step max = bad invalid_value
single (some n) step max = if step == 0 then exact n else between n max

-- The set of values; `step` is 0 where the term has none.
bounds_of : Text → ℕ → ℕ → ℕ → Bounds
bounds_of range step min max =
    if text_eq range (codes "*") then between min max else elim (cut_first b'-' range) [
      | some (a, b) ↦ range_of (natural (atoi a)) (atoi b)
      | none ↦ single (natural (atoi range)) step max
    ]

in_bounds : Bounds → ℕ → ℕ → Checked
in_bounds (bad e) step value = failed e
in_bounds (exact n) step value = matched (value == n)
in_bounds (between lo hi) step value =
    if step == 0
    then matched (leb lo value && leb value hi)
    else if ltb value lo || ltb hi value
    then matched false
    else matched ((value - lo) % step == 0)

stepped : Text → Option ℕ → ℕ → ℕ → ℕ → Checked
stepped range none value min max = failed invalid_step
stepped range (some step) value min max = in_bounds (bounds_of range step min max) step value

unfoldable pub term_matches : Text → ℕ → ℕ → ℕ → Checked
unfolding stepped bounds_of in_bounds range_of single step_of natural
term_matches term value min max = elim (cut_first b'/' term) [
  | none ↦ in_bounds (bounds_of term 0 min max) 0 value
  | some (range, step) ↦ stepped range (step_of (atoi step)) value min max
]

or_later : Checked → Checked → Checked
or_later (failed e) rest = failed e
or_later (matched true) rest = matched true
or_later (matched false) rest = rest

any_term : List Text → ℕ → ℕ → ℕ → Checked
any_term [] value min max = matched false
any_term (p ∷ ps) value min max =
    or_later (term_matches (trim_space p) value min max) (any_term ps value min max)

unfoldable pub field_matches : Text → ℕ → ℕ → ℕ → Checked
unfolding any_term or_later
field_matches field value min max = any_term (split_by (λ c. c == b',') field) value min max

-- The parts of a time.Time that the scheduler reads; `weekday` counts from Sunday, 0.
pub record Time : Type 0 where
  pub minute : ℕ
  pub hour : ℕ
  pub day : ℕ
  pub month : ℕ
  pub weekday : ℕ

is_match : Checked → Bool
is_match (failed e) = false
is_match (matched b) = b

five_match : List Text → Time → Bool
five_match (a ∷ b ∷ c ∷ d ∷ e ∷ []) t =
    is_match (field_matches a t.minute 0 59)
    && is_match (field_matches b t.hour 0 23)
    && is_match (field_matches c t.day 1 31)
    && is_match (field_matches d t.month 1 12)
    && is_match (field_matches e t.weekday 0 6)
five_match _ t = false

unfoldable pub cron_matches : Text → Time → Bool
unfolding five_match is_match
cron_matches expr t = five_match (fields expr) t
