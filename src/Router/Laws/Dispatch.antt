-- ===== src/Router/Laws/Dispatch.antt =====
-- What each part of the router dispatches, and all of it.
use Prim.Native.String
use admin_api.Base.{String, false, ◌≡◌, refl, ap, ◌∙◌}
use admin_api.Router.{
  Endpoint, dispatch, cut_segment, route_auth, route_health, route_roles, route_user_groups,
  route_project, route_projects, serve_http,
}
use admin_api.Router.Paths.{has_slash}
use admin_api.Router.Laws.{
  IsRequest, IsRight, cut_segment-IsCut, not_found-IsRight, at_prefix-IsRight, at_end-IsRight,
  on_method-IsRight, last_argument-IsRight, leaf-IsRight, only_get, only_post,
}

module _ (method path : String) where
  route_auth-IsRight :
      (elem : String)
      → path ≡ String.◌++◌ "/v1alpha1/" (String.◌++◌ "auth/" elem)
      → IsRight method path (route_auth method elem)
  unfolding route_auth
  route_auth-IsRight elem h =
      at_prefix-IsRight method path "callback" elem
        (λ r e. leaf-IsRight method path r (λ z.
          only_get method path
            (λ m. record { by_method = m; at_path = rw (h, e, z) refl; segments = tt })))
        (at_prefix-IsRight method path "log" elem
          (λ r e.
            at_prefix-IsRight method path "in" r
              (λ s k. leaf-IsRight method path s (λ z.
                only_get method path
                  (λ m. record { by_method = m; at_path = rw (h, e, k, z) refl; segments = tt })))
              (at_prefix-IsRight method path "out" r
                (λ s k. leaf-IsRight method path s (λ z.
                  only_post method path
                    (λ m. record { by_method = m; at_path = rw (h, e, k, z) refl; segments = tt })))
                (not_found-IsRight method path)))
          (at_prefix-IsRight method path "me" elem
            (λ r e. leaf-IsRight method path r (λ z.
              only_get method path
                (λ m. record { by_method = m; at_path = rw (h, e, z) refl; segments = tt })))
            (at_prefix-IsRight method path "refresh" elem
              (λ r e. leaf-IsRight method path r (λ z.
                only_post method path
                  (λ m. record { by_method = m; at_path = rw (h, e, z) refl; segments = tt })))
              (not_found-IsRight method path))))

  route_health-IsRight :
      (elem : String)
      → path ≡ String.◌++◌ "/v1alpha1/" (String.◌++◌ "health/" elem)
      → IsRight method path (route_health method elem)
  unfolding route_health
  route_health-IsRight elem h =
      at_prefix-IsRight method path "liveness" elem
        (λ r e. leaf-IsRight method path r (λ z.
          only_get method path
            (λ m. record { by_method = m; at_path = rw (h, e, z) refl; segments = tt })))
        (at_prefix-IsRight method path "readiness" elem
          (λ r e. leaf-IsRight method path r (λ z.
            only_get method path
              (λ m. record { by_method = m; at_path = rw (h, e, z) refl; segments = tt })))
          (not_found-IsRight method path))

  -- Below a project.
  module _ (project : String) (one : has_slash project ≡ false) where
    abbrev below : String → String
    below rest =
        String.◌++◌ "/v1alpha1/"
          (String.◌++◌ "projects" (String.◌++◌ "/" (String.◌++◌ project rest)))

    route_roles-IsRight :
        (elem : String)
        → path ≡ below (String.◌++◌ "/" (String.◌++◌ "roles" elem))
        → IsRight method path (route_roles method project elem)
    unfolding route_roles
    route_roles-IsRight elem h =
        at_end-IsRight method path elem
          (λ z. on_method-IsRight method path _ _ (
            (λ m. record { by_method = m; at_path = rw (h, z) refl; segments = one }),
            ((λ m. record { by_method = m; at_path = rw (h, z) refl; segments = one }), tt),
          ))
          (at_prefix-IsRight method path "/" elem
            (λ r e. last_argument-IsRight method path r (λ role same free.
              on_method-IsRight method path _ _ (
                (λ m. record {
                  by_method = m;
                  at_path = rw (h, e, same) refl;
                  segments = (one, free);
                }),
                (
                  (λ m. record {
                    by_method = m;
                    at_path = rw (h, e, same) refl;
                    segments = (one, free);
                  }),
                  tt,
                ),
              )))
            (not_found-IsRight method path))

    route_user_groups-IsRight :
        (elem : String)
        → path ≡ below (String.◌++◌ "/" (String.◌++◌ "usergroups" elem))
        → IsRight method path (route_user_groups method project elem)
    unfolding route_user_groups
    route_user_groups-IsRight elem h =
        at_end-IsRight method path elem
          (λ z. on_method-IsRight method path _ _ (
            (λ m. record { by_method = m; at_path = rw (h, z) refl; segments = one }),
            ((λ m. record { by_method = m; at_path = rw (h, z) refl; segments = one }), tt),
          ))
          (at_prefix-IsRight method path "/" elem
            (λ r e. last_argument-IsRight method path r (λ group same free.
              on_method-IsRight method path _ _ (
                (λ m. record {
                  by_method = m;
                  at_path = rw (h, e, same) refl;
                  segments = (one, free);
                }),
                (
                  (λ m. record {
                    by_method = m;
                    at_path = rw (h, e, same) refl;
                    segments = (one, free);
                  }),
                  tt,
                ),
              )))
            (not_found-IsRight method path))

    route_project-IsRight :
        (elem : String)
        → path ≡ below elem
        → IsRight method path (route_project method project elem)
    unfolding route_project
    route_project-IsRight elem h =
        at_end-IsRight method path elem
          (λ z. on_method-IsRight method path _ _ (
            (λ m. record { by_method = m; at_path = rw (h, z) refl; segments = one }),
            ((λ m. record { by_method = m; at_path = rw (h, z) refl; segments = one }), tt),
          ))
          (at_prefix-IsRight method path "/" elem
            (λ r e.
              at_prefix-IsRight method path "roles" r
                (λ s k. route_roles-IsRight s (rw (h, e, k) refl))
                (at_prefix-IsRight method path "usergroups" r
                  (λ s k. route_user_groups-IsRight s (rw (h, e, k) refl))
                  (not_found-IsRight method path)))
            (not_found-IsRight method path))

  route_projects-IsRight :
      (elem : String)
      → path ≡ String.◌++◌ "/v1alpha1/" (String.◌++◌ "projects" elem)
      → IsRight method path (route_projects method elem)
  unfolding route_projects
  route_projects-IsRight elem h =
      at_end-IsRight method path elem
        (λ z. on_method-IsRight method path _ _ (
          (λ m. record { by_method = m; at_path = rw (h, z) refl; segments = tt }),
          ((λ m. record { by_method = m; at_path = rw (h, z) refl; segments = tt }), tt),
        ))
        (at_prefix-IsRight method path "/" elem
          (λ r e.
            let cut = cut_segment-IsCut r in
            route_project-IsRight (cut_segment r).0 cut.free (cut_segment r).1 (
              h
              ∙ ap (λ x. String.◌++◌ "/v1alpha1/" (String.◌++◌ "projects" x))
                  (e ∙ ap (String.◌++◌ "/") cut.whole)))
          (not_found-IsRight method path))

  serve_http-IsRight : IsRight method path (serve_http method path)
  unfolding serve_http
  serve_http-IsRight =
      at_prefix-IsRight method path "/v1alpha1/" path
        (λ elem h.
          at_prefix-IsRight method path "auth/" elem
            (λ r e. route_auth-IsRight r (h ∙ ap (String.◌++◌ "/v1alpha1/") e))
            (at_prefix-IsRight method path "health/" elem
              (λ r e. route_health-IsRight r (h ∙ ap (String.◌++◌ "/v1alpha1/") e))
              (at_prefix-IsRight method path "projects" elem
                (λ r e. route_projects-IsRight r (h ∙ ap (String.◌++◌ "/v1alpha1/") e))
                (at_prefix-IsRight method path "users" elem
                  (λ r e. leaf-IsRight method path r (λ z. on_method-IsRight method path _ _ (
                    (λ m. record { by_method = m; at_path = rw (h, e, z) refl; segments = tt }),
                    (
                      (λ m. record { by_method = m; at_path = rw (h, e, z) refl; segments = tt }),
                      tt,
                    ),
                  )))
                  (not_found-IsRight method path)))))
        (not_found-IsRight method path)

-- A request that the router dispatches to an operation has that operation's method and path, with
-- the arguments that the operation is called with in their places, and no argument holds a '/'.
pub serve_http_sound :
    (method path : String) (e : Endpoint)
    → serve_http method path ≡ dispatch e
    → IsRequest method path e
serve_http_sound method path e h = (serve_http-IsRight method path).requested e h
