-- ===== src/Client/Commands.antt =====
-- pkg/client/cmd/project.go, and the subcommands of root.go: what each does with its client.
use admin_api.Base.{String, List, [], str_eq, if◌then◌else◌, Result, ok, err}
use admin_api.Service.Types.{Project}
use admin_api.Client.{Outside, ClientError, name_required, Step, then_do}
use admin_api.Client.Api.{
  liveness_check, readiness_check, authenticate, logout, list_projects, create_project,
}

-- The flags of `project create`, with the defaults of the command.
pub record Flags : Type 0 where
  pub name : String
  pub description : String
  pub kind : String
  pub owner_ids : List String
  pub owner_group_ids : List String

abbrev pub default_flags : Flags
default_flags = record {
  name = "project";
  description = "the sample project";
  kind = "personal";
  owner_ids = [];
  owner_group_ids = [];
}

module _ (o : Outside) where
  ready : Result ClientError (Unit {0}) → Step (Unit {0})
  ready (ok _) c = readiness_check o c
  ready (err e) c = (c, err e)

  -- `newPingCommand` and `runPingCommand`
  unfoldable pub ping_command : Step (Unit {0})
  unfolding ready
  ping_command c = then_do ready (liveness_check o c)

  abbrev pub login_command : Step (Unit {0})
  login_command = authenticate o

  abbrev pub logout_command : Step (Unit {0})
  logout_command = logout o

  shown : Result ClientError (List Project) → Step (Unit {0})
  shown (ok ps) c = (c, ok tt)
  shown (err e) c = (c, err e)

  -- What it shows depends on the projects; that it succeeds does not.
  unfoldable pub list_command : Step (Unit {0})
  unfolding shown
  list_command c = then_do shown (list_projects o c)

  unfoldable pub me_command : Step (Unit {0})
  unfolding shown
  me_command c = then_do shown (list_projects o c)

  unfoldable pub create_command : Flags → Step (Unit {0})
  create_command flags c =
      if str_eq flags.name ""
      then (c, err name_required)
      else create_project o
          (record {
            name = flags.name;
            description = flags.description;
            kind = flags.kind;
            owner_ids = flags.owner_ids;
            owner_group_ids = flags.owner_group_ids;
          })
          c
