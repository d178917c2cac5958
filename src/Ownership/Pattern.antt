-- ===== src/Ownership/Pattern.antt =====
-- ownership/engine.go: the match values of rules. Go's `regexp` is the parameter `Regexp`; a
-- compiled expression is represented by its pattern.
use anchorix.Prelude.{
  ℕ, Option, none, some, Bool, true, false, ◌&&◌, ◌||◌, List, [], ◌∷◌, ◌++◌, ltb, ◌==◌,
  if◌then◌else◌, ◌⊎◌, inl, inr,
}
use anchorix.Prelude.Text.{Text, codes, byte_len, trim_space}

-- `compile p` is the error text of `regexp.Compile(p)`, or `none` where it succeeds;
-- `match_string p s` is `MatchString` of the compiled expression.
pub record Regexp : Type 0 where
  pub compile : Text → Option Text
  pub match_string : Text → Text → Bool

abbrev pub max_regex_pattern_len : ℕ
max_regex_pattern_len = 1024

-- the reason texts of a rule that cannot be compiled
pub data CompileReason : Type 0 where
  too_long : ℕ → CompileReason
  invalid_regex : Text → CompileReason

-- the characters that `regexp.QuoteMeta` escapes
is_meta : ℕ → Bool
is_meta c =
    c == b'\\'
    || c == b'.'
    || c == b'+'
    || c == b'*'
    || c == b'?'
    || c == b'('
    || c == b')'
    || c == b'|'
    || c == b'['
    || c == b']'
    || c == b'{'
    || c == b'}'
    || c == b'^'
    || c == b'$'

glob_rune : ℕ → Text
unfolding is_meta
glob_rune c =
    if c == b'*'
    then codes ".*"
    else if c == b'?'
    then codes "."
    else if is_meta c
    then b'\\' ∷ c ∷ []
    else c ∷ []

glob_body : Text → Text
unfolding glob_rune
glob_body [] = []
glob_body (c ∷ s) = glob_rune c ++ glob_body s

unfoldable pub compile_glob : Text → Text
unfolding glob_body
compile_glob pattern = codes "(?i)^" ++ (glob_body pattern ++ codes "$")

-- the compiled expression, or the reason that there is none
unfoldable pub compile_regex : Regexp → Text → CompileReason ⊎ Text
compile_regex rx pattern =
    if ltb max_regex_pattern_len (byte_len pattern)
    then inl (CompileReason.too_long (byte_len pattern))
    else elim (rx.compile pattern) [
      | none ↦ inr pattern
      | some e ↦ inl (CompileReason.invalid_regex e)
    ]

pub record TagMatch : Type 0 where
  pub key : Text
  pub value : Text
  pub has_value : Bool

-- the text before the first colon and, if there is one, the text behind it
unfoldable pub parse_tag_match : Text → TagMatch
parse_tag_match [] = record { key = []; value = []; has_value = false }
parse_tag_match (c ∷ s) =
    let m = parse_tag_match s in
    if c == b':'
    then record { key = []; value = s; has_value = true }
    else record { key = c ∷ m.key; value = m.value; has_value = m.has_value }

-- `strings.Split(s, ",")`
unfoldable pub split_commas : Text → List Text
split_commas [] = [] ∷ []
split_commas (c ∷ s) =
    let rest = split_commas s in
    if c == b',' then [] ∷ rest else elim rest [ [] ↦ (c ∷ []) ∷ [] | p ∷ ps ↦ (c ∷ p) ∷ ps ]

-- The text behind a leading `CN=`, in any case. No character outside ASCII folds to one of these
-- three, so three bytes that fold to `CN=` are three characters.
unfoldable pub cn_value : Text → Option Text
cn_value (a ∷ b ∷ c ∷ rest) =
    if (a == b'C' || a == b'c') && (b == b'N' || b == b'n') && c == b'=' then some rest else none
cn_value _ = none

unfoldable pub first_cn : List Text → Text
unfolding cn_value
first_cn [] = []
first_cn (part ∷ parts) =
    let rest = first_cn parts in elim (cn_value (trim_space part)) [ none ↦ rest | some v ↦ v ]

unfoldable pub parse_cn : Text → Text
unfolding first_cn split_commas
parse_cn subject = first_cn (split_commas subject)
