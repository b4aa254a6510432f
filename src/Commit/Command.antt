-- ===== src/Commit/Command.antt =====
-- What `validate_commit_command` accepts under a policy that `parse_commit_policy` has returned.
use repository_quality_guard.Prelude.{
  String, ℕ, ◌≤◌, Bool, true, false, not, ◌||◌, ◌≡◌, ◌↔◌, refl, sym, ap, subst, select, starts_with,
  ends_with, List, [], ◌∷◌, Option, some, ◌==◌, any, all, length, Dict, is_some, arith,
}
use Prim.Native.String.{◌++◌}
use repository_quality_guard.Prelude.Integers.{pos}
use repository_quality_guard.Prelude.Checked.{valid}
use repository_quality_guard.Gate.Evidence.{Datum, integer, text}
use repository_quality_guard.Commit.{
  fields, parse_commit_policy, subject_line, other_lines, text_at, number_at, is_command,
  subject_of, bullets_of, check_bullets, check_number, check_subject, validate_commit_command,
}
use repository_quality_guard.Commit.Lines.{split_lines, strip_spaces}
use repository_quality_guard.Commit.Prefix.{is_command-behind, behind-is_command}
use repository_quality_guard.Commit.Policy.{parse_commit_policy-IsPolicy}

-- The first line is the prefix with a text behind it, which is more than spaces, and the last character is
-- a quote. The text, stripped, matches its pattern, and so do the lines behind the first that start with
-- a dash and a space, of which there are enough.
abbrev pub IsAccepted : (String → String → Bool) → String → String → ℕ → String → Type 0
IsAccepted full_match command subject_regex minimum bullet_regex =
    (behind : String) × ((subject_line (split_lines command) ≡ "git commit -m \"" ++ behind)
      × (ends_with command "\"" ≡ true)
      × ((strip_spaces behind == "") ≡ false)
      × ((subject_regex == "" || full_match subject_regex (strip_spaces behind)) ≡ true)
      × (minimum
          ≤ length (select (λ line. starts_with line "- ") (other_lines (split_lines command))))
      × ((bullet_regex == ""
            || all (full_match bullet_regex)
                (select (λ line. starts_with line "- ") (other_lines (split_lines command))))
          ≡ true))

-- What the checks ask for, in their own words.
abbrev Passes : (String → String → Bool) → String → String → ℕ → String → Type 0
Passes full_match command subject_regex minimum bullet_regex =
    (is_command command ≡ true)
    × ((subject_of command == "") ≡ false)
    × ((subject_regex == "" || full_match subject_regex (subject_of command)) ≡ true)
    × (minimum ≤ length (bullets_of command))
    × ((bullet_regex == "" || all (full_match bullet_regex) (bullets_of command)) ≡ true)

any-not : (p : String → Bool) (xs : List String) → any (λ x. not (p x)) xs ≡ not (all p xs)
any-not p [] = refl
any-not p (x ∷ xs) = ground (arith, any-not p xs)

validate-fields :
    (full_match : String → String → Bool) (command s e t : String) (n : ℕ)
    → (is_some (
          validate_commit_command full_match command
            (fields (text s) (text e) (integer (pos n)) (text t)))
        ≡ true)
      × ((validate_commit_command full_match command
              (fields (text s) (text e) (integer (pos n)) (text t))
            ≡ some [])
          ↔ Passes full_match command s n t)
unfolding validate_commit_command check_subject check_number check_bullets
validate-fields full_match command s e t n =
    let bullets = bullets_of command in
    let off = any-not (full_match t) bullets in
    (ground (arith, off), ((λ h. ground (arith, off, h)), (λ h. ground (arith, off, h))))

Passes-IsAccepted :
    (full_match : String → String → Bool) (command s t : String) (n : ℕ)
    → Passes full_match command s n t ↔ IsAccepted full_match command s n t
unfolding bullets_of
Passes-IsAccepted full_match command s t n = (
  λ (whole, filled, fits, enough, all_fit).
      let (behind, (eq, same)) = is_command-behind command whole in
      let ended : ends_with command "\"" ≡ true = ground (arith, whole) in
      (behind, (eq, ended, rw same at filled, rw same at fits, enough, all_fit)),
  λ (behind, (eq, ended, filled, fits, enough, all_fit)).
      let (whole, same) = behind-is_command command behind eq ended in
      (whole, rw same filled, rw same fits, enough, all_fit),
)

-- Under a policy that `parse_commit_policy` has returned, `validate_commit_command` finds every field that
-- it asks for. It returns no issue exactly for a command whose first line is `git commit -m "` with a
-- text behind it that is more than spaces, which ends with a quote, whose text on the first line, without
-- spaces around it, matches the pattern of the policy if there is one, and in which at least as many of
-- the later lines as the policy asks for start with `- `, all of which match the pattern for them if
-- there is one.
pub validate_commit_command-IsAccepted_iff :
    (compile : String → Option String) (full_match : String → String → Bool) (raw : Datum)
    (policy : Dict Datum) (command : String)
    → parse_commit_policy compile raw ≡ valid policy
    → (is_some (validate_commit_command full_match command policy) ≡ true)
      × ((subject_regex : String) × ((minimum : ℕ) × ((bullet_regex : String) × ((text_at
                    "subject_regex" policy
                  ≡ some subject_regex)
                × (number_at "min_body_bullets" policy ≡ some minimum)
                × (text_at "body_bullet_regex" policy ≡ some bullet_regex)
                × ((validate_commit_command full_match command policy ≡ some [])
                    ↔ IsAccepted full_match command subject_regex minimum bullet_regex)))))
validate_commit_command-IsAccepted_iff compile full_match raw policy command h =
    let (s, (e, (n, (t, (at, few, fine_s, fine_t))))) =
      (parse_commit_policy-IsPolicy compile raw policy h).0 in
    let (answered, passes) = validate-fields full_match command s e t n in
    let accepted = Passes-IsAccepted full_match command s t n in
    let exact : (validate_commit_command full_match command
            (fields (text s) (text e) (integer (pos n)) (text t))
          ≡ some [])
        ↔ IsAccepted full_match command s n t =
      (λ h. accepted.0 (passes.0 h), λ h. passes.1 (accepted.1 h)) in
    let back = sym at in
    (
      subst (λ p. is_some (validate_commit_command full_match command p) ≡ true) back answered,
      (
        s,
        (
          n,
          (
            t,
            (
              ap (text_at "subject_regex") at,
              ap (number_at "min_body_bullets") at,
              ap (text_at "body_bullet_regex") at,
              subst
                  (λ p.
                    (validate_commit_command full_match command p ≡ some [])
                    ↔ IsAccepted full_match command s n t)
                  back exact,
            ),
          ),
        ),
      ),
    )
