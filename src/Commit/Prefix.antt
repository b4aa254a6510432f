-- ===== src/Commit/Prefix.antt =====
-- commit_policy.py: the text behind the prefix on the first line of a command.
use Prim.Native.String.append
use Prim.Native.String.{◌++◌}
use text.Mathlib.TextEquality.{starts_with_iff}
use repository_quality_guard.Prelude.{
  String, ℕ, zero, suc, ◌≡◌, sym, ap, ◌∙◌, true, starts_with, ends_with, arith,
}
use repository_quality_guard.Commit.{commit_prefix, subject_line, is_command, subject_of}
use repository_quality_guard.Commit.Lines.{split_lines, strip_spaces, slice_from}

characters : String → ℕ
characters String.[] = zero
characters (String.◌∷◌ c s) = suc (characters s)

slice_from-append : (s t : String) → slice_from (characters s) (s ++ t) ≡ t
unfolding slice_from characters
slice_from-append String.[] t = append.nil t
slice_from-append (String.◌∷◌ c s) t =
    ap (slice_from (suc (characters s))) (append.cons c s t) ∙ slice_from-append s t

behind_prefix : (behind : String) → slice_from 15 ("git commit -m \"" ++ behind) ≡ behind
unfolding characters
behind_prefix behind = slice_from-append "git commit -m \"" behind

-- A whole command has the text that `subject_of` strips behind the prefix.
pub is_command-behind :
    (command : String)
    → is_command command ≡ true
    → (behind : String) × ((subject_line (split_lines command) ≡ "git commit -m \"" ++ behind)
        × (subject_of command ≡ strip_spaces behind))
unfolding subject_of
is_command-behind command h =
    let starts : starts_with (subject_line (split_lines command)) commit_prefix ≡ true =
      ground (arith, h) in
    let (behind, eq) =
      (starts_with_iff (subject_line (split_lines command)) commit_prefix).0 starts in
    (
      behind,
      (
        sym eq,
        ap (λ l. strip_spaces (slice_from 15 l)) (sym eq) ∙ ap strip_spaces (behind_prefix behind),
      ),
    )

pub behind-is_command :
    (command behind : String)
    → subject_line (split_lines command) ≡ "git commit -m \"" ++ behind
    → ends_with command "\"" ≡ true
    → (is_command command ≡ true) × (subject_of command ≡ strip_spaces behind)
unfolding subject_of
behind-is_command command behind eq ended =
    let starts =
      (starts_with_iff (subject_line (split_lines command)) commit_prefix).1 (behind, sym eq) in
    (
      ground (arith, starts, ended),
      ap (λ l. strip_spaces (slice_from 15 l)) eq ∙ ap strip_spaces (behind_prefix behind),
    )
