-- ===== src/Service/Calls.antt =====
-- The calls of the handlers, and what each keeps of the tables, whatever the database does to each
-- query: a condition that every statement keeps.
use admin_api.Base.{ℕ, String, List, [], ◌∷◌, Result}
use admin_api.Admindb.{Db}
use admin_api.Admindb.Consistency.Statements.{
  Statement, run_statement, insert_project, change_project, insert_user, insert_role, change_role,
  insert_group, change_group,
}
use admin_api.Admindb.Sql.{Cause}
use admin_api.Admindb.World.{World, exec, query}
use admin_api.Service.Monad.Keeps.{
  Keeps, bind-Keeps, seq-Keeps, pure-Keeps, query-Keeps, scan-Keeps, exec-Keeps,
}
use admin_api.Service.Monad.{Pgtype, pure, wrap, ◌>>=◌}
use admin_api.Service.Types.{
  CreateProjectRequest, UpdateProjectRequest, RoleRequest, UserGroupRequest,
}
use admin_api.Service.Projects
use admin_api.Service.Scopes

-- One call of each handler that touches the database.
pub data Call : Type 0 where
  create_project : CreateProjectRequest → Call
  update_project : UpdateProjectRequest → String → Call
  get_project : String → Call
  create_user : String → Call
  list_projects list_users : ℕ → ℕ → Call
  get_readiness_check : Call
  create_role : RoleRequest → String → Call
  update_role : RoleRequest → String → String → Call
  get_role get_user_group : String → String → Call
  create_user_group : UserGroupRequest → String → Call
  update_user_group : UserGroupRequest → String → String → Call
  list_roles list_user_groups : String → ℕ → ℕ → Call

module _ (u : Pgtype) where
  -- What the call leaves of the world.
  abbrev pub after : Call → World → World
  after (create_project req) w = (Projects.create_project u req w).0
  after (update_project req id) w = (Projects.update_project u req id w).0
  after (get_project id) w = (Projects.get_project u id w).0
  after (create_user email) w = (Projects.create_user u email w).0
  after (list_projects limit offset) w = (Projects.list_projects u limit offset w).0
  after (list_users limit offset) w = (Projects.list_users u limit offset w).0
  after get_readiness_check w = (Projects.get_readiness_check w).0
  after (create_role req id) w = (Scopes.create_role u req id w).0
  after (update_role req id role) w = (Scopes.update_role u req id role w).0
  after (get_role id role) w = (Scopes.get_role u id role w).0
  after (get_user_group id group) w = (Scopes.get_user_group u id group w).0
  after (create_user_group req id) w = (Scopes.create_user_group u req id w).0
  after (update_user_group req id group) w = (Scopes.update_user_group u req id group w).0
  after (list_roles id limit offset) w = (Scopes.list_roles u id limit offset w).0
  after (list_user_groups id limit offset) w = (Scopes.list_user_groups u id limit offset w).0

  abbrev pub after_all : List Call → World → World
  after_all [] w = w
  after_all (c ∷ cs) w = after_all cs (after c w)

-- What the condition asks of the texts that become kinds of projects.
abbrev pub Admits : (String → Type 0) → Statement → Type 0
Admits Kind (insert_project name description kind) = Kind kind
Admits Kind _ = Unit

abbrev pub AdmitsCall : (String → Type 0) → Call → Type 0
AdmitsCall Kind (create_project req) = Kind req.kind
AdmitsCall Kind _ = Unit

module _ (P : Db → Type 0) (Kind : String → Type 0)
    (kept : (s : Statement)
      → Admits Kind s
      → (now uuid : ℕ) (db : Db) → P db
      → P (run_statement s now uuid db).0) where
  statement-Keeps :
      (s : Statement)
      → Admits Kind s
      → (message : String) → Keeps P (wrap message (exec (run_statement s)))
  statement-Keeps s a message = exec-Keeps P message (run_statement s) (kept s a)

  -- A query and a reply that is made of its answer: how most handlers end.
  answer-Keeps :
      {A B : Type 0} (message : String) (question : Db → Result Cause A) (reply : A → B)
      → Keeps P (wrap message (query question) >>= (λ a. pure (reply a)))
  answer-Keeps message question reply =
      bind-Keeps P (query-Keeps P message question) (λ a. pure-Keeps P)

  -- The handlers, each by its steps.
  find_project-Keeps : (u : Pgtype) (id : String) → Keeps P (Scopes.find_project u id)
  unfolding Scopes.find_project
  find_project-Keeps u id = bind-Keeps _ (scan-Keeps _ u _ _) (λ display_id. query-Keeps _ _ _)

  pub after_keeps :
      (u : Pgtype) (c : Call) → AdmitsCall Kind c → (w : World) → P w.db → P (after u c w).db
  unfolding Projects.create_project Projects.update_project Projects.get_project
      Projects.create_user Projects.list_projects Projects.list_users Projects.get_readiness_check
      Scopes.create_role Scopes.update_role Scopes.get_role Scopes.get_user_group
      Scopes.create_user_group Scopes.update_user_group Scopes.list_roles Scopes.list_user_groups
  after_keeps u (create_project req) a w =
      (seq-Keeps _ (statement-Keeps (insert_project req.name req.description req.kind) a _)
          (answer-Keeps _ _ _)).tables
        w
  after_keeps u (update_project req id) a w =
      (bind-Keeps _ (scan-Keeps _ u _ _) (λ display_id.
          seq-Keeps _ (statement-Keeps (change_project display_id req.name req.description) tt _)
            (answer-Keeps _ _ _))).tables
        w
  after_keeps u (get_project id) a w =
      (bind-Keeps _ (scan-Keeps _ u _ _) (λ display_id. answer-Keeps _ _ _)).tables w
  after_keeps u (create_user email) a w =
      (seq-Keeps _ (statement-Keeps (insert_user email) tt _) (answer-Keeps _ _ _)).tables w
  after_keeps u (list_projects limit offset) a w = (answer-Keeps _ _ _).tables w
  after_keeps u (list_users limit offset) a w = (answer-Keeps _ _ _).tables w
  after_keeps u get_readiness_check a w = (seq-Keeps _ (query-Keeps _ _ _) (pure-Keeps P)).tables w
  after_keeps u (create_role req id) a w =
      (bind-Keeps _ (find_project-Keeps u id) (λ p.
          seq-Keeps _ (statement-Keeps (insert_role p.id req.name req.description) tt _)
            (pure-Keeps P))).tables
        w
  after_keeps u (update_role req id role_id) a w =
      (bind-Keeps _ (find_project-Keeps u id) (λ p. bind-Keeps _ (scan-Keeps _ u _ _) (λ display_id.
          seq-Keeps _ (statement-Keeps (change_role p.id display_id req.name req.description) tt _)
            (answer-Keeps _ _ _)))).tables
        w
  after_keeps u (get_role id role_id) a w =
      (bind-Keeps _ (find_project-Keeps u id)
          (λ p. bind-Keeps _ (scan-Keeps _ u _ _) (λ display_id. answer-Keeps _ _ _))).tables
        w
  after_keeps u (get_user_group id group_id) a w =
      (bind-Keeps _ (find_project-Keeps u id) (λ p.
          bind-Keeps _ (scan-Keeps _ u _ _)
            (λ display_id. bind-Keeps _ (query-Keeps _ _ _) (λ group. answer-Keeps _ _ _)))).tables
        w
  after_keeps u (create_user_group req id) a w =
      (bind-Keeps _ (find_project-Keeps u id) (λ p.
          seq-Keeps _ (statement-Keeps (insert_group p.id req.name req.description) tt _)
            (pure-Keeps P))).tables
        w
  after_keeps u (update_user_group req id group_id) a w =
      (bind-Keeps _ (find_project-Keeps u id) (λ p. bind-Keeps _ (scan-Keeps _ u _ _) (λ display_id.
          seq-Keeps _ (statement-Keeps (change_group p.id display_id req.name req.description) tt _)
            (answer-Keeps _ _ _)))).tables
        w
  after_keeps u (list_roles id limit offset) a w = (answer-Keeps _ _ _).tables w
  after_keeps u (list_user_groups id limit offset) a w = (answer-Keeps _ _ _).tables w
