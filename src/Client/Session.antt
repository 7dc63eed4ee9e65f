-- ===== src/Client/Session.antt =====
-- What the client knows of the token that it holds and of the token on the disk.
use admin_api.Base.{
  ℕ, ◌≤◌, ◌<◌, String, List, [], ◌∷◌, Option, some, none, ◌≡◌, refl, ap, ◌∙◌, subst, arith, str_eq,
  if_cases, Result, ok, err,
}
use admin_api.Service.Auth.{AuthenticatedUser}
use admin_api.Client.{
  MeReply, no_answer, answered, CallbackEvent, posted, opened, serve_failed, timed_out, cancelled,
  Outside, DefaultClient, ClientError, tick,
}
use admin_api.Client.Storage.{save_token, write_file, remove_token, remove_file}
use admin_api.Client.Oauth.{
  read_user, get_current_user, hand_over, wait_for_callback, start_flow, initiate_oauth_flow,
}
use admin_api.Client.Api.{
  keep, forget, after_verify, verify, after_scan, after_flow, sign_in, after_env, from_env,
  after_held, ensure_authenticated,
}

-- The server was asked about the token that the client holds, at a step from `start` on, and
-- answered with its user.
pub record Accepted (o : Outside) (start : ℕ) (c : DefaultClient) : Type 0 where
  pub step : ℕ
  pub user : AuthenticatedUser
  pub since : start ≤ step
  pub before : step < c.clock
  pub answer : o.me step c.bearer_token ≡ answered 200 (some user)

read_user_inv :
    (reply : MeReply) {user : AuthenticatedUser}
    → read_user reply ≡ ok user
    → reply ≡ answered 200 (some user)
read_user_inv no_answer h = cc
read_user_inv (answered status (some user)) h = ground arith
read_user_inv (answered status none) h = ground arith

-- A step that ends well leaves an accepted token.
record Signed (o : Outside) (start : ℕ) (p : DefaultClient × Result ClientError (Unit {0}))
    : Type 0 where
  signed : p.1 ≡ ok tt → Accepted o start p.0

module _ (o : Outside) where
  keep-token :
      (token : String) (user : AuthenticatedUser) (c : DefaultClient)
      → ((keep o token user c).bearer_token ≡ c.bearer_token)
        × (c.clock ≤ (keep o token user c).clock)
  unfolding keep save_token write_file
  keep-token token user c = ground arith

  forget-clock : (c : DefaultClient) → c.clock ≤ (forget o c).clock
  unfolding forget remove_token remove_file
  forget-clock c = ground arith

  hand_over-clock :
      (token : String) (r : Result ClientError AuthenticatedUser) (c : DefaultClient)
      → (hand_over o token r c).0 ≡ c
  unfolding hand_over
  hand_over-clock token (ok user) c = refl
  hand_over-clock token (err e) c = refl

  wait_for_callback-clock :
      (es : List CallbackEvent) (c : DefaultClient) → c.clock ≤ (wait_for_callback o es c).0.clock
  unfolding wait_for_callback get_current_user
  wait_for_callback-clock [] c = omega arith
  wait_for_callback-clock (posted token ∷ es) c =
      ground (arith, wait_for_callback-clock es c, hand_over-clock token)
  wait_for_callback-clock (opened token ∷ es) c =
      ground (arith, wait_for_callback-clock es c, hand_over-clock token)
  wait_for_callback-clock (serve_failed ∷ es) c = omega arith
  wait_for_callback-clock (timed_out ∷ es) c = omega arith
  wait_for_callback-clock (cancelled ∷ es) c = omega arith

  start_flow-clock :
      (f : Option (List CallbackEvent)) (c : DefaultClient) → c.clock ≤ (start_flow o f c).0.clock
  unfolding start_flow
  start_flow-clock none c = omega arith
  start_flow-clock (some es) c = wait_for_callback-clock es c

  module _ (start : ℕ) where
    -- The token that the client then holds was asked about at the step before.
    kept-Accepted :
        (token : String) (user : AuthenticatedUser) (n : ℕ) (c : DefaultClient)
        → start ≤ n
        → n < c.clock
        → o.me n c.bearer_token ≡ answered 200 (some user)
        → Accepted o start (keep o token user c)
    kept-Accepted token user n c since before answer =
        let (same, later) = keep-token token user c in
        record {
          step = n;
          user = user;
          since = since;
          before = omega arith;
          answer = ap (λ t. o.me n t) same ∙ answer;
        }

    after_verify-Signed :
        (token : String) (n : ℕ) (c : DefaultClient) (r : Result ClientError AuthenticatedUser)
        → read_user (o.me n token) ≡ r
        → start ≤ n
        → n < c.clock
        → Signed o start (after_verify o token r c)
    unfolding after_verify
    after_verify-Signed token n c (ok user) h since before = record {
      signed = λ _.
          kept-Accepted token user n (record c { bearer_token = token }) since before
            (read_user_inv _ h);
    }
    after_verify-Signed token n c (err e) h since before = record { signed = λ k. cc }

    verify-Signed :
        (token : String) (c : DefaultClient) → start ≤ c.clock → Signed o start (verify o token c)
    unfolding verify get_current_user
    verify-Signed token c since =
        after_verify-Signed token c.clock (tick c) _ refl since (omega arith)

    after_scan-Signed :
        (t : Option String) (c : DefaultClient)
        → start ≤ c.clock
        → Signed o start (after_scan o t c)
    unfolding after_scan
    after_scan-Signed (some token) c since = verify-Signed token c since
    after_scan-Signed none c since = record { signed = λ k. cc }

    after_flow-Signed :
        (r : Result ClientError String) (c : DefaultClient)
        → start ≤ c.clock
        → Signed o start (after_flow o r c)
    unfolding after_flow
    after_flow-Signed (ok token) c since = verify-Signed token c since
    after_flow-Signed (err e) c since = after_scan-Signed (o.scanln c.clock) (tick c) (omega arith)

    sign_in-Signed : (c : DefaultClient) → start ≤ c.clock → Signed o start (sign_in o c)
    unfolding sign_in initiate_oauth_flow
    sign_in-Signed c since =
        let later = start_flow-clock (o.flow c.clock) (tick c) in
        after_flow-Signed _ _ (omega arith)

    after_env-Signed :
        (n : ℕ) (c : DefaultClient) (r : Result ClientError AuthenticatedUser)
        → read_user (o.me n c.bearer_token) ≡ r
        → start ≤ n
        → n < c.clock
        → Signed o start (after_env o r c)
    unfolding after_env
    after_env-Signed n c (ok user) h since before = record {
      signed = λ _. kept-Accepted c.bearer_token user n c since before (read_user_inv _ h);
    }
    after_env-Signed n c (err e) h since before = sign_in-Signed c (omega arith)

    from_env-Signed : (c : DefaultClient) → start ≤ c.clock → Signed o start (from_env o c)
    unfolding from_env get_current_user
    from_env-Signed c since =
        if_cases (Signed o start) (str_eq o.env_token "") (λ _. sign_in-Signed c since)
          λ _.
            after_env-Signed c.clock (tick (record c { bearer_token = o.env_token })) _ refl since
              (omega arith)

    after_held-Signed :
        (n : ℕ) (c : DefaultClient) (r : Result ClientError AuthenticatedUser)
        → read_user (o.me n c.bearer_token) ≡ r
        → start ≤ n
        → n < c.clock
        → Signed o start (after_held o r c)
    unfolding after_held
    after_held-Signed n c (ok user) h since before = record {
      signed = λ _. record {
        step = n;
        user = user;
        since = since;
        before = before;
        answer = read_user_inv _ h;
      };
    }
    after_held-Signed n c (err e) h since before =
        let later = forget-clock c in
        from_env-Signed (record (forget o c) { bearer_token = "" }) (omega arith)

  -- When the client has authenticated, by the token that it held, that of the environment, the flow
  -- or the terminal, then it holds a token about which it asked the server in this very call, and
  -- the server answered with status 200 and a user.
  pub ensure_authenticated_sound :
      (c : DefaultClient) {c' : DefaultClient}
      → ensure_authenticated o c ≡ (c', ok tt)
      → Accepted o c.clock c'
  unfolding ensure_authenticated get_current_user
  ensure_authenticated_sound c {c'} h =
      let signed : Signed o c.clock (ensure_authenticated o c) =
        if_cases (Signed o c.clock) (str_eq c.bearer_token "")
          (λ _. from_env-Signed c.clock c (omega arith))
          λ _. after_held-Signed c.clock c.clock (tick c) _ refl (omega arith) (omega arith) in
      (subst (λ (p : DefaultClient × Result ClientError (Unit {0})). Signed o c.clock p) h
          signed).signed
        refl
