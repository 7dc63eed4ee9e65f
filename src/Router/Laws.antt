-- ===== src/Router/Laws.antt =====
-- A request that is dispatched is a request for that operation.
pub mod Dispatch
use Prim.Native.Char.{code}
use Prim.Native.String
use text.Mathlib.TextLemmas.{append-nil, nil-append, cons-append}
use admin_api.Base.{
  String, false, ◌==◌, ◌||◌, List, [], ◌∷◌, All, Option-cases, Bool-cases, inl, inr, ◌≡◌, refl, sym,
  ap, subst, if_cases, ◌∙◌, str_eq, eq_iff,
}
use admin_api.Base.Text.{cut_prefix, cut_prefix_sound}
use admin_api.Router.{
  Endpoint, Routed, dispatch, not_allowed, not_found, at_prefix, at_end, on_method, get, post,
  cut_segment, leaf, route_auth, route_health, last_argument, route_roles, route_user_groups,
  route_project, route_projects, serve_http,
}
use admin_api.Router.Paths.{method_of, path_of, has_slash, HasSegments}

-- A request for an operation.
pub record IsRequest (method path : String) (e : Endpoint) : Type 0 where
  pub by_method : method ≡ method_of e
  pub at_path : path ≡ path_of e
  pub segments : HasSegments e

-- A text cut at its first '/'.
record IsCut (s : String) (p : String × String) : Type 0 where
  whole : s ≡ String.◌++◌ p.0 p.1
  free : has_slash p.0 ≡ false

cut_segment-IsCut : (s : String) → IsCut s (cut_segment s)
unfolding cut_segment
cut_segment-IsCut String.[] = record { whole = sym (nil-append ""); free = refl }
cut_segment-IsCut (String.◌∷◌ c s) =
    let rest = cut_segment-IsCut s in
    if_cases (IsCut (String.◌∷◌ c s)) (code c == 47)
      (λ slash. record { whole = sym (nil-append (String.◌∷◌ c s)); free = refl })
      λ other. record {
        whole =
            ap (String.◌∷◌ c) rest.whole ∙ sym (cons-append c (cut_segment s).0 (cut_segment s).1);
        free = ap (λ b. b || has_slash (cut_segment s).0) other ∙ rest.free;
      }

dispatch_inj : {e e' : Endpoint} → dispatch e ≡ dispatch e' → e ≡ e'
dispatch_inj h = cc

module _ (method path : String) where
  -- What is dispatched is what the request asks for.
  record IsRight (r : Routed) : Type 0 where
    requested : (e : Endpoint) → r ≡ dispatch e → IsRequest method path e

  not_found-IsRight : IsRight not_found
  not_found-IsRight = record { requested = λ e h. cc }

  not_allowed-IsRight : (allow : String) → IsRight (not_allowed allow)
  not_allowed-IsRight allow = record { requested = λ e h. cc }

  at_prefix-IsRight :
      (p elem : String) {inside : String → Routed} {otherwise : Routed}
      → ((rest : String) → elem ≡ String.◌++◌ p rest → IsRight (inside rest))
      → IsRight otherwise
      → IsRight (at_prefix p elem inside otherwise)
  unfolding at_prefix
  at_prefix-IsRight p elem f g = elim (Option-cases (cut_prefix p elem)) [
    | inl none_here ↦ rw (none_here, at_prefix) g
    | inr (rest, cut) ↦ rw (cut, at_prefix) (f rest (cut_prefix_sound p elem rest cut))
  ]

  at_end-IsRight :
      (elem : String) {here otherwise : Routed}
      → (elem ≡ "" → IsRight here)
      → IsRight otherwise
      → IsRight (at_end elem here otherwise)
  unfolding at_end
  at_end-IsRight elem f g = elim (Bool-cases (str_eq elem "")) [
    | inl empty ↦ rw empty (f ((eq_iff elem "").0 empty))
    | inr more ↦ rw more g
  ]

  on_method-IsRight :
      (es : List (String × Endpoint)) (allow : String)
      → All (λ (p : String × Endpoint). method ≡ p.0 → IsRequest method path p.1) es
      → IsRight (on_method method es allow)
  unfolding on_method
  on_method-IsRight [] allow h = not_allowed-IsRight allow
  on_method-IsRight ((m, e) ∷ es) allow (h, hs) = elim (Bool-cases (str_eq method m)) [
    | inl same ↦ rw same (record {
      requested =
          λ e' k. subst (IsRequest method path) (dispatch_inj k) (h ((eq_iff method m).0 same));
    })
    | inr other ↦ rw other (on_method-IsRight es allow hs)
  ]

  last_argument-IsRight :
      (elem : String) {here : String → Routed}
      → ((argument : String)
          → elem ≡ argument
          → has_slash argument ≡ false
          → IsRight (here argument))
      → IsRight (last_argument elem here)
  unfolding last_argument
  last_argument-IsRight elem {here} f =
      let cut = cut_segment-IsCut elem in
      if_cases IsRight (str_eq (cut_segment elem).1 "")
        (λ last.
          f (cut_segment elem).0
            (cut.whole
              ∙ ap (String.◌++◌ (cut_segment elem).0) ((eq_iff (cut_segment elem).1 "").0 last)
              ∙ append-nil (cut_segment elem).0)
            cut.free)
        λ more. not_found-IsRight

  -- A leaf: nothing is left of the path.
  leaf-IsRight :
      (elem : String) {here : Routed} → (elem ≡ "" → IsRight here) → IsRight (leaf elem here)
  leaf-IsRight elem f = at_end-IsRight elem f not_found-IsRight

  -- The leaves with no argument.
  only_get : {e : Endpoint} → (method ≡ "GET" → IsRequest method path e) → IsRight (get e method)
  only_get h = on_method-IsRight _ _ (h, tt)

  only_post : {e : Endpoint} → (method ≡ "POST" → IsRequest method path e) → IsRight (post e method)
  only_post h = on_method-IsRight _ _ (h, tt)
