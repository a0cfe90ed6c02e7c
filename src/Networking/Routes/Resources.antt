-- ===== src/Networking/Routes/Resources.antt =====
-- The resources auth and users: the search through the endpoints finds what the table says.
use chat_system.Prelude.{
  ◌≡◌, refl, sym, ap, ◌∙◌, Bool, true, false, List, [], ◌∷◌, Text, codes, text_eq, take, drop, ◌==◌,
  if◌then◌else◌,
}
use chat_system.Networking.Http.{Request, Response}
use chat_system.Networking.Routes.{
  Surroundings, Served, get_verb, serve_search_users, serve_get_user, serve_get_by_tag,
  serve_get_public_key,
}
use chat_system.Networking.Routes.Scan.{by_text, fits, scan, scan-none, scan-skip}
use chat_system.Networking.Routes.Table.{
  server_endpoints, unknown, on_method, on_text, under_auth, under_users,
}

module _ {J C : Type 0} (s : Surroundings J C) (answer : Response → Served C) (req : Request) where
  pub scan-auth :
      (vs : List Text)
      → scan answer req (server_endpoints s) (codes "auth" ∷ vs) ≡ under_auth s answer req vs
  unfolding scan fits text_eq codes under_auth
  scan-auth [] = refl
  scan-auth (b ∷ []) =
      let P : Text → Type 0 = λ b.
        scan answer req (server_endpoints s) (codes "auth" ∷ b ∷ [])
        ≡ under_auth s answer req (b ∷ []) in
      by_text P (codes "register") b refl λ r. by_text P (codes "login") b refl λ l.
        by_text P (codes "logout") b refl λ o. by_text P (codes "password") b refl λ p.
          scan-none answer req (server_endpoints s) (codes "auth" ∷ b ∷ []) (
            rw r refl,
            (
              rw l refl,
              (
                rw o refl,
                (
                  rw p refl,
                  (
                    refl,
                    (
                      refl,
                      (
                        refl,
                        (
                          refl,
                          (
                            refl,
                            (
                              refl,
                              (
                                refl,
                                (
                                  refl,
                                  (
                                    refl,
                                    (
                                      refl,
                                      (refl, (refl, (refl, (refl, (refl, (refl, (refl, tt))))))),
                                    ),
                                  ),
                                ),
                              ),
                            ),
                          ),
                        ),
                      ),
                    ),
                  ),
                ),
              ),
            ),
          )
          ∙ rw (r, l, o, p) refl
  scan-auth (b ∷ c ∷ []) = refl
  scan-auth (b ∷ c ∷ d ∷ []) = refl
  scan-auth (b ∷ c ∷ d ∷ e ∷ vs) = refl

  if_again :
      (x : Bool) (p q r : Served C) → (if x then p else (if x then q else r)) ≡ (if x then p else r)
  if_again true p q r = refl
  if_again false p q r = refl

  -- Behind the tag route.
  public_keys : Text → Text → Served C
  unfolding codes
  public_keys b c =
      on_text s answer req (codes "public-key") c
        (on_method s answer req get_verb (serve_get_public_key s req ((codes "id", b) ∷ []))
          (unknown s answer req))
        (unknown s answer req)

  FindsKey : Text → Text → Type 0
  FindsKey b c =
      scan answer req (drop 7 (server_endpoints s)) (codes "users" ∷ b ∷ c ∷ []) ≡ public_keys b c

  under_users-other :
      (b c : Text)
      → text_eq (codes "tag") b ≡ false
      → under_users s answer req (b ∷ c ∷ []) ≡ public_keys b c
  unfolding under_users public_keys
  under_users-other b c n = rw n refl

  under_users-user :
      (b : Text)
      → text_eq (codes "search") b ≡ false
      → under_users s answer req (b ∷ [])
        ≡ on_method s answer req get_verb
            (serve_get_user s req ((codes "id", b) ∷ []))
            (unknown s answer req)
  unfolding under_users codes
  under_users-user b n = rw n refl

  public_keys-other :
      (b c : Text)
      → text_eq (codes "public-key") c ≡ false
      → public_keys b c ≡ (unknown s answer req)
  unfolding public_keys
  public_keys-other b c k = rw k refl

  if_again_under :
      (x y : Bool) (p q r : Served C)
      → (if x then p else (if y then (if x then q else r) else r)) ≡ (if x then p else r)
  if_again_under true y p q r = refl
  if_again_under false true p q r = refl
  if_again_under false false p q r = refl

  scan-public_keys : (b c : Text) → FindsKey b c
  unfolding scan fits text_eq codes FindsKey public_keys
  scan-public_keys b c = by_text (FindsKey b) (codes "public-key") c refl λ k.
      scan-none answer req (drop 7 (server_endpoints s)) (codes "users" ∷ b ∷ c ∷ []) (
        rw k refl,
        (
          refl,
          (
            refl,
            (
              refl,
              (refl, (refl, (refl, (refl, (refl, (refl, (refl, (refl, (refl, (refl, tt)))))))))),
            ),
          ),
        ),
      )
      ∙ sym (public_keys-other b c k)

  scan-users_tag :
      (c : Text)
      → scan answer req (server_endpoints s) (codes "users" ∷ codes "tag" ∷ c ∷ [])
        ≡ under_users s answer req (codes "tag" ∷ c ∷ [])
  unfolding scan fits text_eq codes under_users FindsKey public_keys
  scan-users_tag c =
      ap (on_method s answer req get_verb (serve_get_by_tag s req ((codes "tag", c) ∷ [])))
        (scan-public_keys (codes "tag") c)
      ∙ if_again_under (req.method == get_verb) (text_eq (codes "public-key") c)
          (serve_get_by_tag s req ((codes "tag", c) ∷ []))
          (serve_get_public_key s req ((codes "id", codes "tag") ∷ [])) (unknown s answer req)

  pub scan-users :
      (vs : List Text)
      → scan answer req (server_endpoints s) (codes "users" ∷ vs) ≡ under_users s answer req vs
  unfolding scan fits text_eq codes under_users FindsKey
  scan-users [] = refl
  scan-users (b ∷ []) =
      let P : Text → Type 0 = λ b.
        scan answer req (server_endpoints s) (codes "users" ∷ b ∷ [])
        ≡ under_users s answer req (b ∷ []) in
      by_text P (codes "search") b
        (if_again (req.method == get_verb) (serve_search_users s req [])
          (serve_get_user s req ((codes "id", codes "search") ∷ [])) (unknown s answer req))
        λ n.
          scan-skip answer req (take 5 (server_endpoints s)) (drop 5 (server_endpoints s))
            (codes "users" ∷ b ∷ []) (refl, (refl, (refl, (refl, (rw n refl, tt)))))
          ∙ sym (under_users-user b n)
  scan-users (b ∷ c ∷ []) =
      let P : Text → Type 0 = λ b.
        scan answer req (server_endpoints s) (codes "users" ∷ b ∷ c ∷ [])
        ≡ under_users s answer req (b ∷ c ∷ []) in
      by_text P (codes "tag") b (scan-users_tag c) λ n.
        scan-skip answer req (take 7 (server_endpoints s)) (drop 7 (server_endpoints s))
          (codes "users" ∷ b ∷ c ∷ [])
          (refl, (refl, (refl, (refl, (refl, (refl, (rw n refl, tt)))))))
        ∙ scan-public_keys b c
        ∙ sym (under_users-other b c n)
  scan-users (b ∷ c ∷ d ∷ []) = refl
  scan-users (b ∷ c ∷ d ∷ e ∷ vs) = refl
