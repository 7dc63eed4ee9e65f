-- ===== src/Http/Site.antt =====
-- The whole server of pkg/server/server.go: echo's own routes for the two OAuth endpoints, and the
-- generated server behind "/v1alpha1/*" for all other requests.
pub mod Frame
pub mod Delivery
pub mod Anonymous
pub mod Validity
use admin_api.Base.{ℕ, String, List, Option, Bool, ◌&&◌, str_eq, if◌then◌else◌}
use admin_api.Session.Store.{Store}
use admin_api.Oauth.{GithubClient}
use admin_api.Login.{login_handler, callback_handler}
use admin_api.Login
use admin_api.Service.Monad.{Pgtype}
use admin_api.Http.{HttpRequest, Ogen}
use admin_api.Http.Handlers.Serve.{Backend, Answer, serve}

-- A request, at an instant, with the random bytes that it may draw. `param` is `c.QueryParam`, ""
-- where there is none.
pub record Visit : Type 0 where
  pub now : ℕ
  pub method : String
  pub path : String
  pub request : HttpRequest
  pub param : String → String
  pub entropy : Option (List ℕ)

pub data Reply : Type 0 where
  from_login : Login.Response → Reply
  from_api : Answer → Reply

abbrev pub on_oauth : {S : Type 0} → (S → S × Login.Response) → Backend S → Backend S × Reply
on_oauth m b = (record b { sessions = (m b.sessions).0 }, from_login (m b.sessions).1)

abbrev pub on_api : {S : Type 0} → Backend S × Answer → Backend S × Reply
on_api (b, a) = (b, from_api a)

abbrev pub is_login : Visit → Bool
is_login v = str_eq v.method "GET" && str_eq v.path "/v1alpha1/auth/login"

abbrev pub is_callback : Visit → Bool
is_callback v = str_eq v.method "GET" && str_eq v.path "/v1alpha1/auth/callback"

module _ {S : Type 0} (session_store state_store : Store S) (c : GithubClient)
    (frontend_url : String) (parse : String → Option String) (session_ttl : ℕ) (o : Ogen)
    (u : Pgtype) where
  -- Both OAuth paths are public, so that the session middleware lets them pass.
  unfoldable pub visit : Visit → Backend S → Backend S × Reply
  visit v b =
      if is_login v
      then on_oauth (login_handler c state_store v.now v.entropy (v.param "redirect_uri")) b
      else if is_callback v
      then on_oauth
          (callback_handler session_store frontend_url session_ttl c state_store v.now v.entropy
            (v.param "code") (v.param "state"))
          b
      else on_api (serve session_store parse session_ttl o u v.now v.method v.path v.request b)
