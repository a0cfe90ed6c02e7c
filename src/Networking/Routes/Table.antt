-- ===== src/Networking/Routes/Table.antt =====
-- The endpoints that the controllers register, and the table of the four resources that they make.
use chat_system.Prelude.{
  ℕ, ◌≡◌, refl, List, [], ◌∷◌, map, Text, codes, text_eq, ◌==◌, if◌then◌else◌,
}
use chat_system.Networking.Http.{Request, Response}
use chat_system.Networking.Segments.{parsed_segments, discard_leading_empty_string}
use chat_system.Networking.Router.{HandlerFunc, is_dynamic_parameter, handle_not_found}
use chat_system.Networking.Router.Matching.{Segment, lit, param}
use chat_system.Networking.Router.Dispatch.{Endpoint, compile}
use chat_system.Networking.Routes.{
  Surroundings, Served, delete_verb, get_verb, post_verb, put_verb, serve_register, serve_login,
  serve_logout, serve_change_password, serve_search_users, serve_get_user, serve_get_by_tag,
  serve_get_public_key, serve_create_chat, serve_get_chats, serve_get_chat, serve_get_participants,
  serve_add_participant, serve_remove_participant, serve_delete_chat, serve_send_message,
  serve_get_history, serve_get_key, serve_read_message, serve_get_undelivered, serve_delete_message,
  server_routes,
}

module _ {J C : Type 0} (s : Surroundings J C) where
  abbrev endpoint : ℕ → List Segment → HandlerFunc (Served C) → Endpoint (Served C)
  endpoint method segs handler = record { method = method; segs = segs; handler = handler }

  abbrev pub server_endpoints : List (Endpoint (Served C))
  unfolding codes
  server_endpoints =
      endpoint post_verb (lit (codes "auth") ∷ lit (codes "register") ∷ []) (serve_register s)
      ∷ endpoint post_verb (lit (codes "auth") ∷ lit (codes "login") ∷ []) (serve_login s)
      ∷ endpoint post_verb (lit (codes "auth") ∷ lit (codes "logout") ∷ []) (serve_logout s)
      ∷ endpoint put_verb (lit (codes "auth") ∷ lit (codes "password") ∷ [])
          (serve_change_password s)
      ∷ endpoint get_verb (lit (codes "users") ∷ lit (codes "search") ∷ []) (serve_search_users s)
      ∷ endpoint get_verb (lit (codes "users") ∷ param (codes "id") ∷ []) (serve_get_user s)
      ∷ endpoint get_verb (lit (codes "users") ∷ lit (codes "tag") ∷ param (codes "tag") ∷ [])
          (serve_get_by_tag s)
      ∷ endpoint get_verb (lit (codes "users") ∷ param (codes "id") ∷ lit (codes "public-key") ∷ [])
          (serve_get_public_key s)
      ∷ endpoint post_verb (lit (codes "chats") ∷ []) (serve_create_chat s)
      ∷ endpoint get_verb (lit (codes "chats") ∷ []) (serve_get_chats s)
      ∷ endpoint get_verb (lit (codes "chats") ∷ param (codes "id") ∷ []) (serve_get_chat s)
      ∷ endpoint get_verb
          (lit (codes "chats") ∷ param (codes "id") ∷ lit (codes "participants") ∷ [])
          (serve_get_participants s)
      ∷ endpoint post_verb
          (lit (codes "chats") ∷ param (codes "id") ∷ lit (codes "participants") ∷ [])
          (serve_add_participant s)
      ∷ endpoint delete_verb
          (lit (codes "chats")
            ∷ param (codes "id")
            ∷ lit (codes "participants")
            ∷ param (codes "user_id")
            ∷ [])
          (serve_remove_participant s)
      ∷ endpoint delete_verb (lit (codes "chats") ∷ param (codes "id") ∷ []) (serve_delete_chat s)
      ∷ endpoint post_verb (lit (codes "chats") ∷ param (codes "id") ∷ lit (codes "messages") ∷ [])
          (serve_send_message s)
      ∷ endpoint get_verb (lit (codes "chats") ∷ param (codes "id") ∷ lit (codes "messages") ∷ [])
          (serve_get_history s)
      ∷ endpoint get_verb (lit (codes "messages") ∷ param (codes "id") ∷ lit (codes "key") ∷ [])
          (serve_get_key s)
      ∷ endpoint put_verb (lit (codes "messages") ∷ param (codes "id") ∷ lit (codes "read") ∷ [])
          (serve_read_message s)
      ∷ endpoint get_verb (lit (codes "messages") ∷ lit (codes "undelivered") ∷ [])
          (serve_get_undelivered s)
      ∷ endpoint delete_verb (lit (codes "messages") ∷ param (codes "id") ∷ [])
          (serve_delete_message s)
      ∷ []

  pub server_routes-compile : server_routes s ≡ map compile server_endpoints
  unfolding server_routes parsed_segments discard_leading_empty_string is_dynamic_parameter
  server_routes-compile = refl

  module _ (answer : Response → Served C) (req : Request) where
    abbrev pub unknown : Served C
    unknown = answer handle_not_found

    abbrev pub on_method : ℕ → Served C → Served C → Served C
    on_method method served otherwise = if req.method == method then served else otherwise

    abbrev pub on_text : Text → Text → Served C → Served C → Served C
    on_text word a served otherwise = if text_eq word a then served else otherwise

    unfoldable pub under_auth : List Text → Served C
    unfolding codes
    under_auth (b ∷ []) =
        on_text (codes "register") b (on_method post_verb (serve_register s req []) unknown) (
          on_text (codes "login") b (on_method post_verb (serve_login s req []) unknown) (
            on_text (codes "logout") b (on_method post_verb (serve_logout s req []) unknown) (
              on_text (codes "password") b
                (on_method put_verb (serve_change_password s req []) unknown) unknown)))
    under_auth _ = unknown

    unfoldable pub under_users : List Text → Served C
    unfolding codes
    under_users (b ∷ []) =
        on_text (codes "search") b (on_method get_verb (serve_search_users s req []) unknown)
          (on_method get_verb (serve_get_user s req ((codes "id", b) ∷ [])) unknown)
    under_users (b ∷ c ∷ []) =
        on_text (codes "tag") b
          (on_method get_verb (serve_get_by_tag s req ((codes "tag", c) ∷ [])) unknown)
          (on_text (codes "public-key") c
            (on_method get_verb (serve_get_public_key s req ((codes "id", b) ∷ [])) unknown)
            unknown)
    under_users _ = unknown

    unfoldable pub under_chats : List Text → Served C
    unfolding codes
    under_chats [] =
        on_method post_verb (serve_create_chat s req [])
          (on_method get_verb (serve_get_chats s req []) unknown)
    under_chats (b ∷ []) =
        on_method get_verb (serve_get_chat s req ((codes "id", b) ∷ []))
          (on_method delete_verb (serve_delete_chat s req ((codes "id", b) ∷ [])) unknown)
    under_chats (b ∷ c ∷ []) =
        on_text (codes "participants") c
          (on_method get_verb (serve_get_participants s req ((codes "id", b) ∷ []))
            (on_method post_verb (serve_add_participant s req ((codes "id", b) ∷ [])) unknown))
          (on_text (codes "messages") c
            (on_method post_verb (serve_send_message s req ((codes "id", b) ∷ []))
              (on_method get_verb (serve_get_history s req ((codes "id", b) ∷ [])) unknown))
            unknown)
    under_chats (b ∷ c ∷ d ∷ []) =
        on_text (codes "participants") c
          (on_method delete_verb
            (serve_remove_participant s req ((codes "id", b) ∷ (codes "user_id", d) ∷ [])) unknown)
          unknown
    under_chats _ = unknown

    unfoldable pub under_messages : List Text → Served C
    unfolding codes
    under_messages (b ∷ []) =
        on_text (codes "undelivered") b
          (on_method get_verb (serve_get_undelivered s req [])
            (on_method delete_verb (serve_delete_message s req ((codes "id", b) ∷ [])) unknown))
          (on_method delete_verb (serve_delete_message s req ((codes "id", b) ∷ [])) unknown)
    under_messages (b ∷ c ∷ []) =
        on_text (codes "key") c
          (on_method get_verb (serve_get_key s req ((codes "id", b) ∷ [])) unknown)
          (on_text (codes "read") c
            (on_method put_verb (serve_read_message s req ((codes "id", b) ∷ [])) unknown) unknown)
    under_messages _ = unknown

    -- The four resources.
    unfoldable pub dispatch : List Text → Served C
    unfolding codes under_auth under_users under_chats under_messages
    dispatch [] = unknown
    dispatch (a ∷ vs) = on_text (codes "auth") a (under_auth vs) (
        on_text (codes "users") a (under_users vs) (
          on_text (codes "chats") a (under_chats vs)
            (on_text (codes "messages") a (under_messages vs) unknown)))
