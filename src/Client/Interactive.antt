-- ===== src/Client/Interactive.antt =====
-- pkg/client/cmd/root.go: `newInteractiveCommand` and `runProjectsCreateCommand`. The input is the
-- lines that the scanner finds; what is printed is left out.
pub mod Ends
use admin_api.Base.{
  ℕ, zero, suc, String, List, [], ◌∷◌, Option, some, none, Bool, ◌||◌, map, str_eq, if◌then◌else◌,
  Result, ok, err,
}
use admin_api.Service.Types.{CreateProjectRequest}
use admin_api.Client.{Outside, DefaultClient}
use admin_api.Client.Api.{create_project}
use admin_api.Client.Text.{trim_space, fields, split_commas}
use admin_api.Client.Commands.{ping_command, login_command, logout_command, list_command}

-- The scanner stops at the end of the input, or at an error.
pub data InputEnd : Type 0 where
  at_end scan_error : InputEnd

-- How the command returns: "Goodbye!", at the end of the input, with the error of the scanner, or by
-- a panic at `parts[0]`.
pub data Exit : Type 0 where
  goodbye input_over reading_failed panicked : Exit

abbrev pub kind_or_default : String → String
kind_or_default kind = if str_eq kind "" then "personal" else kind

abbrev pub ids_of : String → List String
ids_of ids_input = if str_eq ids_input "" then [] else map trim_space (split_commas ids_input)

-- `runProjectsCreateCommand`: the request, if the lines give one, and the lines that are left. A line
-- that is missing ends it, and so does an empty name.
unfoldable pub read_groups :
    String → String → String → List String → List String → Option CreateProjectRequest × List String
read_groups name description kind owners [] = (none, [])
read_groups name description kind owners (line ∷ lines) = (
  some (record {
    name = name;
    description = description;
    kind = kind;
    owner_ids = owners;
    owner_group_ids = ids_of (trim_space line);
  }),
  lines,
)

unfoldable pub read_owners :
    String → String → String → List String → Option CreateProjectRequest × List String
read_owners name description kind [] = (none, [])
read_owners name description kind (line ∷ lines) =
    read_groups name description kind (ids_of (trim_space line)) lines

unfoldable pub read_kind : String → String → List String → Option CreateProjectRequest × List String
read_kind name description [] = (none, [])
read_kind name description (line ∷ lines) =
    read_owners name description (kind_or_default (trim_space line)) lines

unfoldable pub read_description : String → List String → Option CreateProjectRequest × List String
read_description name [] = (none, [])
read_description name (line ∷ lines) = read_kind name (trim_space line) lines

unfoldable pub read_project : List String → Option CreateProjectRequest × List String
read_project [] = (none, [])
read_project (line ∷ lines) =
    if str_eq (trim_space line) "" then (none, lines) else read_description (trim_space line) lines

abbrev pub is_exit : String → Bool
is_exit command = str_eq command "exit" || str_eq command "quit" || str_eq command "q"

abbrev pub is_help : String → Bool
is_help command = str_eq command "help" || str_eq command "h"

-- What a round of the loop leads to.
pub data Turn : Type 0 where
  stop : Exit → Turn
  go : List String → DefaultClient → Turn

abbrev pub over : InputEnd → Exit
over at_end = input_over
over scan_error = reading_failed

module _ (o : Outside) where
  -- An error of a command is only printed.
  unfoldable pub create_turn : Option CreateProjectRequest × List String → DefaultClient → Turn
  create_turn (some req, lines) c = go lines (create_project o req c).0
  create_turn (none, lines) c = go lines c

  unfoldable pub projects_turn : List String → List String → DefaultClient → Turn
  unfolding create_turn
  projects_turn [] lines c = go lines c
  projects_turn (subcommand ∷ args) lines c =
      if str_eq subcommand "list"
      then go lines (list_command o c).0
      else if str_eq subcommand "create"
      then create_turn (read_project lines) c
      else go lines c

  -- `parts[0]` of no parts is a panic.
  unfoldable pub command_turn : List String → List String → DefaultClient → Turn
  unfolding projects_turn
  command_turn [] lines c = stop panicked
  command_turn (command ∷ args) lines c =
      if is_exit command
      then stop goodbye
      else if is_help command
      then go lines c
      else if str_eq command "ping"
      then go lines (ping_command o c).0
      else if str_eq command "login"
      then go lines (login_command o c).0
      else if str_eq command "logout"
      then go lines (logout_command o c).0
      else if str_eq command "projects"
      then projects_turn args lines c
      else go lines c

  unfoldable pub turn : String → List String → DefaultClient → Turn
  unfolding command_turn
  turn line lines c =
      if str_eq (trim_space line) ""
      then go lines c
      else command_turn (fields (trim_space line)) lines c

  -- The loop, on fuel: `none` is a loop that has not returned after so many rounds.
  unfoldable pub interactive :
      ℕ → InputEnd → List String → DefaultClient → Option (Exit × DefaultClient)
  unfolding turn
  interactive zero end lines c = none
  interactive (suc n) end [] c = some (over end, c)
  interactive (suc n) end (line ∷ lines) c = elim (turn line lines c) [
    | stop exit ↦ some (exit, c)
    | go rest c' ↦ interactive n end rest c'
  ]
