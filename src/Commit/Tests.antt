-- ===== src/Commit/Tests.antt =====
-- A policy and two commands, and the theorems on commit_policy.py at them.
use repository_quality_guard.Prelude.{
  distinct, String, ℕ, Bool, true, false, [], ◌∷◌, ◌≡◌, ◌↔◌, refl, Option, none, some, ◌==◌,
  ends_with, starts_with, Dict, is_some, text_insert, text_sorted, format, join,
}
use repository_quality_guard.Prelude.Integers.{pos, negsuc}
use repository_quality_guard.Prelude.Checked.{valid, value_error}
use repository_quality_guard.Gate.Evidence.{Datum, integer, text, object, end, entry, object_of}
use repository_quality_guard.Commit.Lines.{split_lines, strip_spaces, slice_from}
use repository_quality_guard.Commit.{
  fields, default_commit_policy, update_values, unknown_keys, check_text, check_minimum,
  check_pattern, check_values, parse_commit_policy, text_at, number_at, subject_of, bullets_of,
  check_bullets, check_number, check_subject, validate_commit_command,
}
use repository_quality_guard.Commit.Policy.{IsPolicy, parse_commit_policy-IsPolicy}
use repository_quality_guard.Commit.Command.{IsAccepted, validate_commit_command-IsAccepted_iff}

-- Every pattern but `(` compiles, and a pattern matches what starts with it.
abbrev compile_all : String → Option String
compile_all pattern = elim (pattern == "(") [ true ↦ some "missing )" | false ↦ none ]

abbrev prefix_match : String → String → Bool
prefix_match pattern line = starts_with line pattern

abbrev raw_policy : Datum
raw_policy =
    object (entry "min_body_bullets" (integer (pos 1)) (entry "subject_regex" (text "feat") end))

abbrev policy : Dict Datum
policy = fields (text "feat") (text "") (integer (pos 1)) (text "")

abbrev command : String
command = "git commit -m \"feat: x\n\n- y\""

raw_is_parsed : parse_commit_policy compile_all raw_policy ≡ valid policy
unfolding parse_commit_policy update_values unknown_keys check_values check_text check_minimum
    check_pattern distinct text_sorted
raw_is_parsed = refl

negative_is_refused :
    parse_commit_policy compile_all (object (entry "min_body_bullets" (integer (negsuc 0)) end))
    ≡ value_error "profile commit_policy.min_body_bullets must be an integer from 0 to 20"
unfolding parse_commit_policy update_values unknown_keys check_values check_text check_minimum
    check_pattern distinct text_sorted
negative_is_refused = refl

unknown_is_refused :
    parse_commit_policy compile_all (object (entry "b" (text "") (entry "a" (text "") end)))
    ≡ value_error "unknown profile commit_policy fields: a, b"
unfolding parse_commit_policy update_values unknown_keys distinct text_sorted text_insert format
    join
unknown_is_refused = refl

lines_are_split : split_lines "a\r\nb\n\nc" ≡ "a" ∷ "b" ∷ "" ∷ "c" ∷ []
unfolding split_lines
lines_are_split = refl

command_is_accepted : validate_commit_command prefix_match command policy ≡ some []
unfolding validate_commit_command check_subject check_number check_bullets subject_of bullets_of
    split_lines strip_spaces slice_from ends_with
command_is_accepted = refl

-- The closing quote of a command of one line is taken for its subject.
quote_is_a_subject :
    validate_commit_command prefix_match "git commit -m \"\"" default_commit_policy ≡ some []
unfolding validate_commit_command check_subject check_number check_bullets subject_of bullets_of
    split_lines strip_spaces slice_from ends_with
quote_is_a_subject = refl

parse_commit_policy-IsPolicy_example :
    IsPolicy compile_all policy
    × (parse_commit_policy compile_all (object_of policy) ≡ valid policy)
unfolding parse_commit_policy update_values unknown_keys check_values check_text check_minimum
    check_pattern distinct text_sorted
parse_commit_policy-IsPolicy_example =
    parse_commit_policy-IsPolicy compile_all raw_policy policy refl

validate_commit_command-IsAccepted_iff_example :
    (is_some (validate_commit_command prefix_match command policy) ≡ true)
    × ((subject_regex : String) × ((minimum : ℕ) × ((bullet_regex : String) × ((text_at
                  "subject_regex" policy
                ≡ some subject_regex)
              × (number_at "min_body_bullets" policy ≡ some minimum)
              × (text_at "body_bullet_regex" policy ≡ some bullet_regex)
              × ((validate_commit_command prefix_match command policy ≡ some [])
                  ↔ IsAccepted prefix_match command subject_regex minimum bullet_regex)))))
unfolding parse_commit_policy update_values unknown_keys check_values check_text check_minimum
    check_pattern distinct text_sorted
validate_commit_command-IsAccepted_iff_example =
    validate_commit_command-IsAccepted_iff compile_all prefix_match raw_policy policy command refl
