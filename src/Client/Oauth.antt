-- ===== src/Client/Oauth.antt =====
-- pkg/client/auth/token.go: the check of a token, and the flow that gets one from the browser.
use admin_api.Base.{
  String, List, [], ◌∷◌, Option, some, none, str_eq, ◌==◌, if◌then◌else◌, Result, ok, err,
}
use admin_api.Service.Auth.{AuthenticatedUser}
use admin_api.Client.{
  MeReply, no_answer, answered, CallbackEvent, posted, opened, serve_failed, timed_out, cancelled,
  Outside, ClientError, no_reply, bad_body, unexpected_status, no_flow, flow_failed, flow_timeout,
  flow_cancelled, tick, Step, then_do,
}

abbrev pub read_user : MeReply → Result ClientError AuthenticatedUser
read_user no_answer = err no_reply
read_user (answered status (some user)) =
    if status == 200 then ok user else err (unexpected_status status)
read_user (answered status none) =
    if status == 200 then err bad_body else err (unexpected_status status)

module _ (o : Outside) where
  unfoldable pub get_current_user : String → Step AuthenticatedUser
  get_current_user token c = (tick c, read_user (o.me c.clock token))

  -- A token that comes to the callback ends the wait, with the token if the server knows it.
  unfoldable pub hand_over : String → Result ClientError AuthenticatedUser → Step String
  hand_over token (ok user) c = (c, ok token)
  hand_over token (err e) c = (c, err e)

  -- The wait ends with the first token or error. A request with no token is answered by a page, or
  -- by a 400, and the wait goes on.
  unfoldable pub wait_for_callback : List CallbackEvent → Step String
  unfolding hand_over get_current_user
  wait_for_callback [] c = (c, err flow_timeout)
  wait_for_callback (posted token ∷ es) c =
      let rest = wait_for_callback es c in
      if str_eq token "" then rest else then_do (hand_over token) (get_current_user token c)
  wait_for_callback (opened token ∷ es) c =
      let rest = wait_for_callback es c in
      if str_eq token "" then rest else then_do (hand_over token) (get_current_user token c)
  wait_for_callback (serve_failed ∷ es) c = (c, err flow_failed)
  wait_for_callback (timed_out ∷ es) c = (c, err flow_timeout)
  wait_for_callback (cancelled ∷ es) c = (c, err flow_cancelled)

  unfoldable pub start_flow : Option (List CallbackEvent) → Step String
  unfolding wait_for_callback
  start_flow none c = (c, err no_flow)
  start_flow (some es) c = wait_for_callback es c

  unfoldable pub initiate_oauth_flow : Step String
  unfolding start_flow
  initiate_oauth_flow c = start_flow (o.flow c.clock) (tick c)
