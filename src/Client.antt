-- ===== src/Client.antt =====
-- The command-line client, pkg/client: what it holds, what it meets outside, and how its steps fail.
pub mod Storage
pub mod Oauth
pub mod Documents
pub mod Api
pub mod Session
pub mod Requests
pub mod Restart
pub mod Commands
pub mod Text
pub mod Interactive
mod Tests
use admin_api.Base.{ℕ, ◌+◌, String, List, Option, Bool, Result, str_eq, if◌then◌else◌}
use admin_api.Session.Json.{Json}
use admin_api.Service.Auth.{AuthenticatedUser}
use admin_api.Service.Types.{CreateProjectRequest, Project}

-- `StoredToken`. `user` is a pointer.
pub record StoredToken : Type 0 where
  pub bearer_token : String
  pub user : Option AuthenticatedUser

-- What lies at a path: a document, or a text that is none.
pub data TokenFile : Type 0 where
  no_file garbage : TokenFile
  file : Json → TokenFile

abbrev pub Disk : Type 0
Disk = String → TokenFile

abbrev pub put : String → TokenFile → Disk → Disk
put path f disk = λ p. if str_eq p path then f else disk p

-- What a GET of /v1alpha1/auth/me brings: a status, and the user if the body is one.
pub data MeReply : Type 0 where
  no_answer : MeReply
  answered : ℕ → Option AuthenticatedUser → MeReply

-- What happens at the local callback server while the flow waits: a POST or a GET with the parameter
-- `token`, or an end of the wait.
pub data CallbackEvent : Type 0 where
  posted opened : String → CallbackEvent
  serve_failed timed_out cancelled : CallbackEvent

-- A request to the API, with the token of its header `Authorization`.
pub record ApiRequest : Type 0 where
  pub method : String
  pub endpoint : String
  pub token : String
  pub query : List (String × String)
  pub body : Option CreateProjectRequest

-- `projects` is the body as a list of projects, if it is one; `closes` says whether the body's `Close`
-- succeeds.
pub record ApiResponse : Type 0 where
  pub status : ℕ
  pub projects : Option (List Project)
  pub closes : Bool

-- What becomes of an operation on a file. A write may be refused before or after it has cut the file.
pub data DiskFate : Type 0 where
  works refused broken : DiskFate

-- The outside, by the number of the step at which the client meets it. `flow` is `none` where the
-- flow does not get to wait: no random bytes, or no port.
pub record Outside : Type 0 where
  pub me : ℕ → String → MeReply
  pub disk : ℕ → DiskFate
  pub config_dir : String
  pub env_token : String
  pub flow : ℕ → Option (List CallbackEvent)
  pub scanln : ℕ → Option String
  pub send : ℕ → ApiRequest → Option ApiResponse

-- `DefaultClient`, with the disk that it works on. Without storage `tokenStorage` is nil.
pub record DefaultClient : Type 0 where
  pub bearer_token : String
  pub has_storage : Bool
  pub disk : Disk
  pub clock : ℕ

pub data ClientError : Type 0 where
  no_reply bad_body close_failed read_failed unmarshal_failed write_failed remove_failed :
      ClientError
  unexpected_status : ℕ → ClientError
  no_flow flow_failed flow_timeout flow_cancelled no_input invalid_token : ClientError
  authentication_failed : ClientError → ClientError
  name_required : ClientError

abbrev pub tick : DefaultClient → DefaultClient
tick c = record c { clock = c.clock + 1 }

abbrev pub Step : Type 0 → Type 0
Step A = DefaultClient → DefaultClient × Result ClientError A

-- The client's answer, given how a step came out and what it left.
abbrev pub then_do :
    {A B : Type 0}
    → (Result ClientError A → Step B)
    → DefaultClient × Result ClientError A
    → DefaultClient × Result ClientError B
then_do k (c, r) = k r c
