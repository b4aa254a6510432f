-- ===== src/Commit.antt =====
-- commit_policy.py: the policy of a profile for commit messages, and the check of a commit command.
-- `compile` gives the text of the `re.error` that `re.compile` raises, or none; `full_match` tells whether
-- `re.fullmatch` matches. Neither is under the control of this code.
pub mod Lines
pub mod Fields
pub mod Policy
pub mod Prefix
pub mod Command
pub mod Tests
use repository_quality_guard.Prelude.{
  String, ℕ, Bool, true, false, not, ◌&&◌, ◌||◌, List, [], ◌∷◌, Option, none, some, ◌==◌, any,
  select, contains, distinct, ends_with, starts_with, format, join, decimal, length, leb, ltb,
  nonempty, Dict, find, put, if◌then◌else◌, text_sorted,
}
use repository_quality_guard.Prelude.Integers.{ℤ, pos}
use repository_quality_guard.Prelude.Options
use repository_quality_guard.Prelude.Checked.{Checked, valid, value_error, ◌>>=◌}
use repository_quality_guard.Gate.Evidence.{
  Datum, Entries, nothing, integer, text, object, end, entry,
}
use repository_quality_guard.Commit.Lines.{split_lines, strip_spaces, slice_from}

-- `_ALLOWED_KEYS`
abbrev pub allowed_keys : List String
allowed_keys = "subject_regex" ∷ "subject_example" ∷ "min_body_bullets" ∷ "body_bullet_regex" ∷ []

-- A mapping with the four fields.
abbrev pub fields : Datum → Datum → Datum → Datum → Dict Datum
fields subject example minimum bullet =
    ("subject_regex", subject)
    ∷ ("subject_example", example)
    ∷ ("min_body_bullets", minimum)
    ∷ ("body_bullet_regex", bullet)
    ∷ []

abbrev pub default_commit_policy : Dict Datum
default_commit_policy = fields (text "") (text "") (integer (pos 0)) (text "")

-- `values.update(raw)`
unfoldable pub update_values : Dict Datum → Entries → Dict Datum
update_values values end = values
update_values values (entry key value raw) = update_values (put key value values) raw

-- `set(raw) - _ALLOWED_KEYS`
unfoldable pub unknown_keys : Entries → List String
unknown_keys end = []
unknown_keys (entry key value raw) =
    let rest = unknown_keys raw in if contains key allowed_keys then rest else key ∷ rest

-- The field of `values` as a text. The defaults are among the values, so that a field is there.
unfoldable pub check_text : String → Dict Datum → Checked String
check_text field values = elim (find field values) [
  | some (text s) ↦ valid s
  | _ ↦ value_error (format ("profile commit_policy." ∷ field ∷ " must be a string" ∷ []))
]

abbrev pub bullets_limit : ℕ
bullets_limit = 20

-- `type(min_body_bullets) is int and 0 <= min_body_bullets <= 20`
unfoldable pub check_minimum : Dict Datum → Checked ℕ
check_minimum values = elim (find "min_body_bullets" values) [
  | some (integer (pos n)) ↦
      if leb n bullets_limit
      then valid n
      else value_error "profile commit_policy.min_body_bullets must be an integer from 0 to 20"
  | _ ↦ value_error "profile commit_policy.min_body_bullets must be an integer from 0 to 20"
]

module _ (compile : String → Option String) where
  -- One round of the loop over the two patterns.
  unfoldable pub check_pattern : String → String → Checked String
  check_pattern field pattern = if pattern == "" then valid pattern else elim (compile pattern) [
    | none ↦ valid pattern
    | some error ↦
        value_error (format ("invalid profile commit_policy." ∷ field ∷ ": " ∷ error ∷ []))
  ]

  unfoldable pub check_values : Dict Datum → Checked (Dict Datum)
  unfolding check_text check_minimum check_pattern
  check_values values = do
    subject_regex ← check_text "subject_regex" values
    subject_example ← check_text "subject_example" values
    min_body_bullets ← check_minimum values
    body_bullet_regex ← check_text "body_bullet_regex" values
    subject ← check_pattern "subject_regex" subject_regex
    bullet ← check_pattern "body_bullet_regex" body_bullet_regex
    valid values

  unfoldable pub parse_commit_policy : Datum → Checked (Dict Datum)
  unfolding update_values unknown_keys check_values
  parse_commit_policy nothing = valid default_commit_policy
  parse_commit_policy (object raw) =
      let unknown = text_sorted (distinct (unknown_keys raw)) in
      if nonempty unknown
      then value_error (format ("unknown profile commit_policy fields: " ∷ join ", " unknown ∷ []))
      else check_values (update_values default_commit_policy raw)
  parse_commit_policy _ = value_error "profile commit_policy must be an object"

-- `str(policy[field])` of a text, and `int(policy[field])` of a number; none for a KeyError.
abbrev pub text_at : String → Dict Datum → Option String
text_at field policy = elim (find field policy) [ some (text s) ↦ some s | _ ↦ none ]

abbrev pub number_at : String → Dict Datum → Option ℕ
number_at field policy = elim (find field policy) [ some (integer (pos n)) ↦ some n | _ ↦ none ]

abbrev pub commit_prefix : String
commit_prefix = "git commit -m \""

abbrev pub subject_line : List String → String
subject_line [] = ""
subject_line (line ∷ lines) = line

abbrev pub other_lines : List String → List String
other_lines [] = []
other_lines (line ∷ lines) = lines

-- `subject_line[len(prefix):].strip()`
unfoldable pub subject_of : String → String
subject_of command = strip_spaces (slice_from 15 (subject_line (split_lines command)))

-- `[line for line in lines[1:] if line.startswith("- ")]`
unfoldable pub bullets_of : String → List String
bullets_of command = select (λ line. starts_with line "- ") (other_lines (split_lines command))

abbrev pub is_command : String → Bool
is_command command =
    starts_with (subject_line (split_lines command)) commit_prefix && ends_with command "\""

module _ (full_match : String → String → Bool) where
  -- The last check, on the pattern of the bullets.
  unfoldable pub check_bullets : List String → Dict Datum → Option (List String)
  check_bullets bullets policy = Options.◌>>=◌ (text_at "body_bullet_regex" policy) λ regex.
      if not (regex == "") && any (λ line. not (full_match regex line)) bullets
      then some ("提交正文摘要不符合当前 Profile 的 commit_policy。" ∷ [])
      else some []

  unfoldable pub check_number : List String → Dict Datum → Option (List String)
  unfolding check_bullets
  check_number bullets policy = Options.◌>>=◌ (number_at "min_body_bullets" policy) λ minimum.
      if ltb (length bullets) minimum
      then some (format ("当前 Profile 要求提交正文至少包含 " ∷ decimal minimum ∷ " 条 `- ` 摘要。" ∷ []) ∷ [])
      else check_bullets bullets policy

  abbrev mismatch : String → String
  mismatch example =
      let suffix = if example == "" then "" else format ("，例如 `" ∷ example ∷ "`" ∷ []) in
      format ("提交主题不符合当前 Profile 的 commit_policy" ∷ suffix ∷ "。" ∷ [])

  unfoldable pub check_subject : String → List String → Dict Datum → Option (List String)
  unfolding check_number
  check_subject subject bullets policy = Options.◌>>=◌ (text_at "subject_regex" policy) λ regex.
      if not (regex == "") && not (full_match regex subject)
      then Options.◌>>=◌ (text_at "subject_example" policy)
          (λ example. some (mismatch (strip_spaces example) ∷ []))
      else check_number bullets policy

  -- None is a KeyError of a policy that lacks a field.
  unfoldable pub validate_commit_command : String → Dict Datum → Option (List String)
  unfolding check_subject subject_of bullets_of
  validate_commit_command command policy =
      if not (is_command command)
      then some ("提交命令必须保持一个完整的 `git commit -m \"...\"` 参数。" ∷ [])
      else if subject_of command == ""
      then some ("提交主题不能为空。" ∷ [])
      else check_subject (subject_of command) (bullets_of command) policy
