-- ===== src/Oauth/Laws.antt =====
-- Who may log in, and with which email.
use mathlib.Core.List.{Memᴰ}
use admin_api.Base.{
  String, List, [], ◌∷◌, true, ◌&&◌, ◌≡◌, ◌≢◌, eq_refl, sym, ap, subst, ◌↔◌, ◌⊎◌, inl, inr, refl,
  arith, str_eq, eq_iff, any, any_sound, any_complete, ok, Result-cases, ◌>>=◌, some, Bool-cases,
}
use admin_api.Oauth.{
  Token, GithubUser, GithubOrg, EmailAddress, HttpReply, no_reply, reply, GithubClient, read_reply,
  first_primary, get_primary_email, fill_email, get_user, contains, validate_org_membership,
}

contains_iff :
    (names : List String) (name : String) → (contains names name ≡ true) ↔ Memᴰ name names
contains_iff names name = (
  λ h. let (n, m, e) = any_sound _ names h in subst (λ x. Memᴰ x names) ((eq_iff n name).0 e) m,
  λ m. any_complete _ m (eq_refl name),
)

-- An organisation of the user is on the list.
abbrev pub SharesOrg : List String → List GithubOrg → Type 0
SharesOrg allowed orgs = (org : GithubOrg) × Memᴰ org orgs × Memᴰ org.login allowed

-- With a list of allowed organisations, exactly the users with one of them pass.
shares_iff :
    (allowed : List String) (orgs : List GithubOrg)
    → (any (λ (org : GithubOrg). contains allowed org.login) orgs ≡ true) ↔ SharesOrg allowed orgs
shares_iff allowed orgs = (
  λ h. let (org, m, e) = any_sound _ orgs h in (org, m, (contains_iff allowed org.login).0 e),
  λ s. any_complete _ s.1 ((contains_iff allowed s.0.login).1 s.2),
)

validate_cases :
    (allowed : List String) (c : GithubClient) (orgs : List GithubOrg)
    → (validate_org_membership (record c { allowed_orgs = allowed }) orgs ≡ true)
      ↔ ((allowed ≡ []) ⊎ SharesOrg allowed orgs)
unfolding validate_org_membership
validate_cases [] c orgs = (λ _. inl refl, λ _. refl)
validate_cases (name ∷ names) c orgs =
    let (to, from) = shares_iff (name ∷ names) orgs in
    (λ h. inr (to h), λ s. elim s [ inl e ↦ cc | inr shares ↦ from shares ])

-- The membership check passes exactly when no organisation is configured, or one of the user's
-- organisations is configured.
pub validate_org_membership_iff :
    (c : GithubClient) (orgs : List GithubOrg)
    → (validate_org_membership c orgs ≡ true)
      ↔ ((c.allowed_orgs ≡ []) ⊎ SharesOrg c.allowed_orgs orgs)
validate_org_membership_iff c orgs = validate_cases c.allowed_orgs c orgs

-- The list has a primary and verified entry with that email.
abbrev pub HasPrimary : List EmailAddress → String → Type 0
HasPrimary es email =
    (e : EmailAddress) × Memᴰ e es × (e.primary ≡ true) × (e.verified ≡ true) × (e.email ≡ email)

first_primary_sound :
    (es : List EmailAddress) (email : String) → first_primary es ≡ ok email → HasPrimary es email
unfolding first_primary
first_primary_sound [] email h = cc
first_primary_sound (e ∷ es) email h = elim (Bool-cases (e.primary && e.verified)) [
  | inl good ↦ (e, Memᴰ.head refl, ground arith, ground arith, ground arith)
  | inr bad ↦
      let (x, m, p, v, q) = first_primary_sound es email (ground arith) in (x, Memᴰ.tail m, p, v, q)
]

read_reply-eq-ok :
    {A : Type 0} (r : HttpReply A) {a : A} → read_reply r ≡ ok a → r ≡ reply 200 (some a)
unfolding read_reply
read_reply-eq-ok no_reply h = cc
read_reply-eq-ok (reply status body) h = ground arith

get_primary_email_sound :
    (c : GithubClient) (token : Token) (email : String)
    → get_primary_email c token ≡ ok email
    → (es : List EmailAddress) × (c.github.emails token ≡ reply 200 (some es)) × HasPrimary es email
unfolding get_primary_email
get_primary_email_sound c token email h = elim (Result-cases (read_reply (c.github.emails token))) [
  | inl (es, e) ↦ (es, read_reply-eq-ok _ e, first_primary_sound es email (rw (e, ◌>>=◌) at h))
  | inr (x, e) ↦ absurd (ground arith)
]

-- Where the email of a user comes from: the profile, or for a profile without one the emails.
pub data EmailOf (c : GithubClient) (token : Token) (profile user : GithubUser) : Type 0 where
  own : profile.email ≢ "" → user ≡ profile → EmailOf c token profile user
  listed :
      (es : List EmailAddress)
      → profile.email ≡ ""
      → c.github.emails token ≡ reply 200 (some es)
      → HasPrimary es user.email
      → user ≡ record profile { email = user.email }
      → EmailOf c token profile user

fill_email_sound :
    (c : GithubClient) (token : Token) (profile user : GithubUser)
    → fill_email c token profile ≡ ok user
    → EmailOf c token profile user
unfolding fill_email
fill_email_sound c token profile user h = elim (Bool-cases (str_eq profile.email "")) [
  | inr full ↦ own (λ e. cc ((eq_iff profile.email "").1 e)) (ground arith)
  | inl empty ↦ elim (Result-cases (get_primary_email c token)) [
    | inl (email, e) ↦
        let (es, answered, has) = get_primary_email_sound c token email e in
        let same : record profile { email = email } ≡ user = ground arith in
        let same_email : email ≡ user.email = ap (λ (u : GithubUser). u.email) same in
        listed es ((eq_iff profile.email "").0 empty) answered (rw same_email at has)
          (rw same_email at (sym same))
    | inr (x, e) ↦ absurd (ground arith)
  ]
]

-- A user that `GetUser` returns is GitHub's profile for the token. Its email is the profile's own,
-- or, if that is empty, a primary and verified one of the user's emails; nothing else is changed.
pub get_user_sound :
    (c : GithubClient) (token : Token) (user : GithubUser)
    → get_user c token ≡ ok user
    → (profile : GithubUser) × (c.github.user token ≡ reply 200 (some profile))
      × EmailOf c token profile user
unfolding get_user
get_user_sound c token user h = elim (Result-cases (read_reply (c.github.user token))) [
  | inl (profile, e) ↦
      (profile, read_reply-eq-ok _ e, fill_email_sound c token profile user (rw (e, ◌>>=◌) at h))
  | inr (x, e) ↦ absurd (ground arith)
]
