-- ===== src/Session/Json/Roundtrip.antt =====
-- Reading back what was written.
use admin_api.Base.{List, [], ◌∷◌, some, ◌≡◌, refl, arith, ◌<◌}
use admin_api.Session.{Session, TeamMembership}
use admin_api.Session.Json.{
  Json, encode_teams, decode_teams, encode_session, marshal, unmarshal, year_10000,
}

decode_teams-encode_teams : (tms : List TeamMembership) → decode_teams (encode_teams tms) ≡ some tms
unfolding encode_teams decode_teams
decode_teams-encode_teams [] = refl
decode_teams-encode_teams (tm ∷ tms) = rw (decode_teams-encode_teams tms) refl

unmarshal-encode_session : (s : Session) → unmarshal (encode_session s) ≡ some s
unfolding encode_session unmarshal
unmarshal-encode_session s = rw (decode_teams-encode_teams s.team_memberships) refl

-- `json.Marshal` refuses only the years from 10000 on.
pub marshal_fits :
    (s : Session)
    → s.expires_at < year_10000
    → s.created_at < year_10000
    → marshal s ≡ some (encode_session s)
unfolding marshal
marshal_fits s h k = ground arith

marshal-eq-some : (s : Session) {doc : Json} → marshal s ≡ some doc → encode_session s ≡ doc
unfolding marshal
marshal-eq-some s h = ground arith

-- Whatever `json.Marshal` writes for a session, `json.Unmarshal` reads back as that session.
pub unmarshal-marshal : (s : Session) {doc : Json} → marshal s ≡ some doc → unmarshal doc ≡ some s
unmarshal-marshal s h = rw (← marshal-eq-some s h) (unmarshal-encode_session s)
