-- ===== src/Networking/Routes.antt =====
-- RegisterRoutes of the four controllers, with the templates of Core/Include/API, and the order in
-- which Server/Source/server_main.cpp calls them.
pub mod Scan
pub mod Table
pub mod Resources
pub mod Dispatched
use chat_system.Prelude.{ℕ, Option, List, [], Text, codes}
use chat_system.Exceptions.{Exception, Result}
use chat_system.Domain.User.{User}
use chat_system.Repositories.Store.{Db, Postgres}
use chat_system.Repositories.ChatStore.{ChatDb, ChatPostgres}
use chat_system.Services.Auth.{Encryption, Draws}
use chat_system.Services.Notification.{NotificationService}
use chat_system.Services.Message.{Calls}
use chat_system.Networking.Json.{Json}
use chat_system.Networking.Router.{Route, HandlerFunc, add_route}
use chat_system.Networking.Controllers.{HandlerOutcome}
use chat_system.Networking.Controllers.ChatController.{
  handle_create_chat, handle_get_chats, handle_get_chat_by_id, handle_get_participants,
  handle_add_participant, handle_remove_participant, handle_delete_chat,
}
use chat_system.Networking.Controllers.MessageController.{
  handle_send_message, handle_get_message_history, handle_get_message_public_key,
  handle_read_message, handle_get_undelivered, handle_delete_message,
}
use chat_system.Networking.Controllers.UserController.{
  handle_search_users, handle_get_by_id, handle_get_by_tag, handle_get_public_key,
}
use chat_system.Networking.Controllers.AuthController.{
  handle_register, handle_login, handle_logout, handle_change_password,
}

-- What the handlers of one request read besides the tables: the libraries, the subscribers, the
-- clock and the random values that are drawn.
pub record Surroundings (J C : Type 0) : Type 0 where
  pub json : Json J
  pub accounts : Postgres
  pub postgres : ChatPostgres
  pub encryption : Encryption
  pub refused_count : Exception
  pub reserve : ℕ → Result (Unit {0})
  pub matching : Text → List User
  pub params_of : Text → Option (List (Text × Text))
  pub service : NotificationService C
  pub draws : Draws
  pub new_id : Text
  pub clock : ℕ → ℕ

-- What a request does: the outcome, the tables behind it, and the callbacks that were called.
abbrev pub Served : Type 0 → Type 0
Served C = ChatDb → HandlerOutcome × (ChatDb × Calls C)

abbrev pub on_tables : {C : Type 0} → (ChatDb → HandlerOutcome × ChatDb) → Served C
on_tables run db = let (outcome, new) = run db in (outcome, (new, []))

abbrev pub on_accounts : {C : Type 0} → (Db → HandlerOutcome × Db) → Served C
on_accounts run db =
    let (outcome, new) = run db.accounts in (outcome, (record db { accounts = new }, []))

-- http::verb.
abbrev pub delete_verb : ℕ
delete_verb = 1

abbrev pub get_verb : ℕ
get_verb = 2

abbrev pub post_verb : ℕ
post_verb = 4

abbrev pub put_verb : ℕ
put_verb = 5

module _ {J C : Type 0} (s : Surroundings J C) where
  -- The handlers as the router calls them.
  abbrev pub serve_register : HandlerFunc (Served C)
  serve_register req ps = on_accounts (handle_register s.json s.accounts s.encryption s.draws req)

  abbrev pub serve_login : HandlerFunc (Served C)
  serve_login req ps = on_accounts (handle_login s.json s.accounts s.encryption s.draws req)

  abbrev pub serve_logout : HandlerFunc (Served C)
  serve_logout req ps = on_accounts (handle_logout s.json s.accounts s.encryption s.draws req)

  abbrev pub serve_change_password : HandlerFunc (Served C)
  serve_change_password req ps =
      on_accounts (handle_change_password s.json s.accounts s.encryption s.draws req)

  abbrev pub serve_search_users : HandlerFunc (Served C)
  serve_search_users req ps =
      on_accounts (
        handle_search_users s.json s.refused_count s.reserve s.matching s.draws.now s.params_of req)

  abbrev pub serve_get_user : HandlerFunc (Served C)
  serve_get_user req ps =
      on_accounts (
        handle_get_by_id s.json s.refused_count s.reserve s.matching s.draws.now s.params_of req ps)

  abbrev pub serve_get_by_tag : HandlerFunc (Served C)
  serve_get_by_tag req ps =
      on_accounts (
        handle_get_by_tag s.json s.refused_count s.reserve s.matching s.draws.now s.params_of req
          ps)

  abbrev pub serve_get_public_key : HandlerFunc (Served C)
  serve_get_public_key req ps = on_accounts (
      handle_get_public_key s.json s.refused_count s.reserve s.matching s.draws.now s.params_of req
        ps)

  abbrev pub serve_create_chat : HandlerFunc (Served C)
  serve_create_chat req ps =
      on_tables (handle_create_chat s.json s.postgres s.draws.now s.params_of s.new_id req)

  abbrev pub serve_get_chats : HandlerFunc (Served C)
  serve_get_chats req ps =
      on_tables (handle_get_chats s.json s.postgres s.draws.now s.params_of req)

  abbrev pub serve_get_chat : HandlerFunc (Served C)
  serve_get_chat req ps =
      on_tables (handle_get_chat_by_id s.json s.postgres s.draws.now s.params_of req ps)

  abbrev pub serve_get_participants : HandlerFunc (Served C)
  serve_get_participants req ps =
      on_tables (handle_get_participants s.json s.postgres s.draws.now s.params_of req ps)

  abbrev pub serve_add_participant : HandlerFunc (Served C)
  serve_add_participant req ps =
      on_tables (handle_add_participant s.json s.postgres s.draws.now s.params_of req ps)

  abbrev pub serve_remove_participant : HandlerFunc (Served C)
  serve_remove_participant req ps =
      on_tables (handle_remove_participant s.json s.postgres s.draws.now s.params_of req ps)

  abbrev pub serve_delete_chat : HandlerFunc (Served C)
  serve_delete_chat req ps =
      on_tables (handle_delete_chat s.json s.postgres s.draws.now s.params_of req ps)

  abbrev pub serve_send_message : HandlerFunc (Served C)
  serve_send_message req ps =
      handle_send_message s.json s.postgres s.service s.draws.now s.params_of s.new_id req ps

  abbrev pub serve_get_history : HandlerFunc (Served C)
  serve_get_history req ps =
      on_tables
        (handle_get_message_history s.json s.postgres s.service s.draws.now s.params_of req ps)

  abbrev pub serve_get_key : HandlerFunc (Served C)
  serve_get_key req ps =
      on_tables
        (handle_get_message_public_key s.json s.postgres s.service s.draws.now s.params_of req ps)

  abbrev pub serve_read_message : HandlerFunc (Served C)
  serve_read_message req ps =
      handle_read_message s.json s.postgres s.service s.draws.now s.params_of req ps

  abbrev pub serve_get_undelivered : HandlerFunc (Served C)
  serve_get_undelivered req ps =
      on_tables
        (handle_get_undelivered s.json s.postgres s.service s.draws.now s.params_of s.clock req)

  abbrev pub serve_delete_message : HandlerFunc (Served C)
  serve_delete_message req ps =
      on_tables (handle_delete_message s.json s.postgres s.service s.draws.now s.params_of req ps)

  -- AuthController::RegisterRoutes.
  unfoldable pub register_auth_routes : List (Route (Served C)) → List (Route (Served C))
  unfolding add_route codes
  register_auth_routes r0 =
      let r1 = add_route r0 post_verb (codes "/auth/register") serve_register in
      let r2 = add_route r1 post_verb (codes "/auth/login") serve_login in
      let r3 = add_route r2 post_verb (codes "/auth/logout") serve_logout in
      add_route r3 put_verb (codes "/auth/password") serve_change_password

  -- UserController::RegisterRoutes.
  unfoldable pub register_user_routes : List (Route (Served C)) → List (Route (Served C))
  unfolding add_route codes
  register_user_routes r0 =
      let r1 = add_route r0 get_verb (codes "/users/search") serve_search_users in
      let r2 = add_route r1 get_verb (codes "/users/{id}") serve_get_user in
      let r3 = add_route r2 get_verb (codes "/users/tag/{tag}") serve_get_by_tag in
      add_route r3 get_verb (codes "/users/{id}/public-key") serve_get_public_key

  -- ChatController::RegisterRoutes.
  unfoldable pub register_chat_routes : List (Route (Served C)) → List (Route (Served C))
  unfolding add_route codes
  register_chat_routes r0 =
      let r1 = add_route r0 post_verb (codes "/chats") serve_create_chat in
      let r2 = add_route r1 get_verb (codes "/chats") serve_get_chats in
      let r3 = add_route r2 get_verb (codes "/chats/{id}") serve_get_chat in
      let r4 = add_route r3 get_verb (codes "/chats/{id}/participants") serve_get_participants in
      let r5 = add_route r4 post_verb (codes "/chats/{id}/participants") serve_add_participant in
      let r6 =
        add_route r5 delete_verb (codes "/chats/{id}/participants/{user_id}")
          serve_remove_participant in
      add_route r6 delete_verb (codes "/chats/{id}") serve_delete_chat

  -- MessageController::RegisterRoutes.
  unfoldable pub register_message_routes : List (Route (Served C)) → List (Route (Served C))
  unfolding add_route codes
  register_message_routes r0 =
      let r1 = add_route r0 post_verb (codes "/chats/{id}/messages") serve_send_message in
      let r2 = add_route r1 get_verb (codes "/chats/{id}/messages") serve_get_history in
      let r3 = add_route r2 get_verb (codes "/messages/{id}/key") serve_get_key in
      let r4 = add_route r3 put_verb (codes "/messages/{id}/read") serve_read_message in
      let r5 = add_route r4 get_verb (codes "/messages/undelivered") serve_get_undelivered in
      add_route r5 delete_verb (codes "/messages/{id}") serve_delete_message

  -- The router of the server.
  unfoldable pub server_routes : List (Route (Served C))
  unfolding register_auth_routes register_user_routes register_chat_routes register_message_routes
  server_routes =
      register_message_routes
        (register_chat_routes (register_user_routes (register_auth_routes [])))
