-- ===== src/Oauth/Tests.antt =====
-- Replies of GitHub, and the theorems at them.
use admin_api.Base.{List, [], ◌∷◌, some, true, false, ◌≡◌, ◌↔◌, ◌⊎◌}
use admin_api.Base.Int.{pos}
use admin_api.Oauth.{
  Token, GithubUser, GithubOrg, Github, GithubClient, reply, no_reply, validate_org_membership,
}
use admin_api.Oauth.Laws.{SharesOrg, validate_org_membership_iff}

abbrev octocat : GithubUser
octocat = record {
  id = pos 583231;
  login = "octocat";
  email = "";
  name = "The Octocat";
  avatar_url = "https://avatars.example/1";
}

-- A profile that hides its email.
abbrev service : Github
service = record {
  auth_code_url = λ state. state;
  exchange = λ code. some (record { access_token = code; refresh_token = "" });
  user = λ token. reply 200 (some octocat);
  emails = λ token. reply 200 (
      some (
        record { email = "old@cat.example"; primary = false; verified = true }
        ∷ record { email = "octo@cat.example"; primary = true; verified = true }
        ∷ []));
  orgs = λ token. no_reply;
  teams = λ token. no_reply;
}

abbrev client : GithubClient
client = record { github = service; allowed_orgs = "tacokumo" ∷ [] }

abbrev token : Token
token = record { access_token = "gho_1"; refresh_token = "" }

abbrev orgs : List GithubOrg
orgs = record { login = "acme" } ∷ record { login = "tacokumo" } ∷ []

validate_org_membership_iff_example :
    (validate_org_membership client orgs ≡ true)
    ↔ ((client.allowed_orgs ≡ []) ⊎ SharesOrg client.allowed_orgs orgs)
validate_org_membership_iff_example = validate_org_membership_iff client orgs
