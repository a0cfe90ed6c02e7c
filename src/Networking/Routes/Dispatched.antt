-- ===== src/Networking/Routes/Dispatched.antt =====
-- Which handler the routes of the server give a request.
use chat_system.Prelude.{
  ◌≡◌, refl, sym, ◌∙◌, Bool, true, false, List, [], ◌∷◌, Text, codes, text_eq,
}
use chat_system.Networking.Http.{Request, Response}
use chat_system.Networking.Router.{route_request}
use chat_system.Networking.Router.Dispatch.{request_segments}
use chat_system.Networking.Routes.{Surroundings, Served, server_routes}
use chat_system.Networking.Routes.Scan.{
  by_text, fits, scan, scan-none, starts_otherwise, refused_endpoints, find_route-scan,
}
use chat_system.Networking.Routes.Table.{
  server_endpoints, server_routes-compile, unknown, under_chats, under_messages, dispatch,
}
use chat_system.Networking.Routes.Resources.{scan-auth, scan-users}

module _ {J C : Type 0} (s : Surroundings J C) (answer : Response → Served C) (req : Request) where
  under_chats-other :
      (b c : Text)
      → text_eq (codes "participants") c ≡ false
      → text_eq (codes "messages") c ≡ false
      → under_chats s answer req (b ∷ c ∷ []) ≡ (unknown s answer req)
  unfolding under_chats
  under_chats-other b c p m = rw (p, m) refl

  scan-chats :
      (vs : List Text)
      → scan answer req (server_endpoints s) (codes "chats" ∷ vs) ≡ under_chats s answer req vs
  unfolding scan fits text_eq codes under_chats
  scan-chats [] = refl
  scan-chats (b ∷ []) = refl
  scan-chats (b ∷ c ∷ []) =
      let P : Text → Type 0 = λ c.
        scan answer req (server_endpoints s) (codes "chats" ∷ b ∷ c ∷ [])
        ≡ under_chats s answer req (b ∷ c ∷ []) in
      by_text P (codes "participants") c refl λ p. by_text P (codes "messages") c refl λ m.
        scan-none answer req (server_endpoints s) (codes "chats" ∷ b ∷ c ∷ []) (
          refl,
          (
            refl,
            (
              refl,
              (
                refl,
                (
                  refl,
                  (
                    refl,
                    (
                      refl,
                      (
                        refl,
                        (
                          refl,
                          (
                            refl,
                            (
                              refl,
                              (
                                rw p refl,
                                (
                                  rw p refl,
                                  (
                                    refl,
                                    (
                                      refl,
                                      (rw m refl, (rw m refl, (refl, (refl, (refl, (refl, tt)))))),
                                    ),
                                  ),
                                ),
                              ),
                            ),
                          ),
                        ),
                      ),
                    ),
                  ),
                ),
              ),
            ),
          ),
        )
        ∙ sym (under_chats-other b c p m)
  scan-chats (b ∷ c ∷ d ∷ []) =
      let P : Text → Type 0 = λ c.
        scan answer req (server_endpoints s) (codes "chats" ∷ b ∷ c ∷ d ∷ [])
        ≡ under_chats s answer req (b ∷ c ∷ d ∷ []) in
      by_text P (codes "participants") c refl λ p. rw p refl
  scan-chats (b ∷ c ∷ d ∷ e ∷ vs) = refl

  scan-messages :
      (vs : List Text)
      → scan answer req (server_endpoints s) (codes "messages" ∷ vs)
        ≡ under_messages s answer req vs
  unfolding scan fits text_eq codes under_messages
  scan-messages [] = refl
  scan-messages (b ∷ []) =
      let P : Text → Type 0 = λ b.
        scan answer req (server_endpoints s) (codes "messages" ∷ b ∷ [])
        ≡ under_messages s answer req (b ∷ []) in
      by_text P (codes "undelivered") b refl λ n. rw n refl
  scan-messages (b ∷ c ∷ []) =
      let P : Text → Type 0 = λ c.
        scan answer req (server_endpoints s) (codes "messages" ∷ b ∷ c ∷ [])
        ≡ under_messages s answer req (b ∷ c ∷ []) in
      by_text P (codes "key") c refl λ k. by_text P (codes "read") c refl λ r. rw (k, r) refl
  scan-messages (b ∷ c ∷ d ∷ []) = refl
  scan-messages (b ∷ c ∷ d ∷ e ∷ vs) = refl

  dispatch-other :
      (a : Text) (vs : List Text)
      → text_eq (codes "auth") a ≡ false
      → text_eq (codes "users") a ≡ false
      → text_eq (codes "chats") a ≡ false
      → text_eq (codes "messages") a ≡ false
      → dispatch s answer req (a ∷ vs) ≡ (unknown s answer req)
  unfolding dispatch
  dispatch-other a vs n1 n2 n3 n4 = rw (n1, n2, n3, n4) refl

  scan-dispatch :
      (vs : List Text) → scan answer req (server_endpoints s) vs ≡ dispatch s answer req vs
  unfolding scan dispatch fits text_eq codes starts_otherwise
  scan-dispatch [] = refl
  scan-dispatch (a ∷ vs) =
      let P : Text → Type 0 =
        λ a. scan answer req (server_endpoints s) (a ∷ vs) ≡ dispatch s answer req (a ∷ vs) in
      by_text P (codes "auth") a (scan-auth s answer req vs) λ n1.
        by_text P (codes "users") a (scan-users s answer req vs) λ n2.
          by_text P (codes "chats") a (scan-chats vs) λ n3.
            by_text P (codes "messages") a (scan-messages vs) λ n4.
              scan-none answer req (server_endpoints s) (a ∷ vs) (
                refused_endpoints (server_endpoints s) a vs (
                  rw n1 refl,
                  (
                    rw n1 refl,
                    (
                      rw n1 refl,
                      (
                        rw n1 refl,
                        (
                          rw n2 refl,
                          (
                            rw n2 refl,
                            (
                              rw n2 refl,
                              (
                                rw n2 refl,
                                (
                                  rw n3 refl,
                                  (
                                    rw n3 refl,
                                    (
                                      rw n3 refl,
                                      (
                                        rw n3 refl,
                                        (
                                          rw n3 refl,
                                          (
                                            rw n3 refl,
                                            (
                                              rw n3 refl,
                                              (
                                                rw n3 refl,
                                                (
                                                  rw n3 refl,
                                                  (
                                                    rw n4 refl,
                                                    (rw n4 refl, (rw n4 refl, (rw n4 refl, tt))),
                                                  ),
                                                ),
                                              ),
                                            ),
                                          ),
                                        ),
                                      ),
                                    ),
                                  ),
                                ),
                              ),
                            ),
                          ),
                        ),
                      ),
                    ),
                  ),
                ))
              ∙ sym (dispatch-other a vs n1 n2 n3 n4)

-- The routes that the four controllers register: a request whose target parses is served as the
-- table of the four resources says, first by the segments of its path, then by its method, and by
-- the response 404 where the table has no entry.
pub route_request-dispatch :
    {J C : Type 0} (s : Surroundings J C) (answer : Response → Served C)
    (is_origin_form : Text → Bool) (req : Request)
    → is_origin_form req.target ≡ true
    → route_request answer is_origin_form (server_routes s) req
      ≡ dispatch s answer req (request_segments req)
unfolding route_request request_segments
route_request-dispatch s answer is_origin_form req well_formed =
    rw (well_formed, server_routes-compile s)
      (find_route-scan answer req (server_endpoints s)
        ∙ scan-dispatch s answer req (request_segments req))
