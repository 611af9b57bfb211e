-- ===== src/Model/Command.antt =====
-- `CommandSpec` of src/model.rs: its checks, and the text that is shown for it.
use loomterm.Prelude.{ℕ, String, Bool, ◌||◌, Option, List, [], ◌∷◌, map, ◌<>◌, if◌then◌else◌}
use loomterm.Result.{Result, ok, err, invalid_request}
use loomterm.Model.Text.{
  str_is_empty, contains_char, is_ascii_alphanumeric, all_chars, replace_char,
}

pub data CommandSpec : Type 0 where
  argv : String → List String → CommandSpec
  shell : String → Option String → CommandSpec

unfoldable pub validate : CommandSpec → Result (Unit {0})
unfolding str_is_empty
validate (argv program args) =
    if str_is_empty program then err (invalid_request "program must not be empty") else ok tt
validate (shell command path) =
    if str_is_empty command then err (invalid_request "shell command must not be empty") else ok tt

is_plain : ℕ → Bool
unfolding contains_char is_ascii_alphanumeric
is_plain c = is_ascii_alphanumeric c || contains_char c "-._/:=@+"

unfoldable pub shell_escape_for_display : String → String
unfolding all_chars replace_char is_plain
shell_escape_for_display value =
    if all_chars is_plain value then value else "'" <> replace_char b'\'' "'\\''" value <> "'"

join_words : List String → String
join_words [] = ""
join_words (word ∷ []) = word
join_words (word ∷ next ∷ rest) = word <> " " <> join_words (next ∷ rest)

unfoldable pub display : CommandSpec → String
unfolding join_words shell_escape_for_display
display (argv program args) = join_words (map shell_escape_for_display (program ∷ args))
display (shell command path) = command
