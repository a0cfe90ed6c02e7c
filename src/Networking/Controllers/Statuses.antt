-- ===== src/Networking/Controllers/Statuses.antt =====
-- What a status 200 or 204 of a handler tells about its caller and about the call of the service.
use chat_system.Prelude.{
  ℕ, ◌<◌, ◌≡◌, refl, sym, ap, ◌∙◌, true, ◌++◌, Option, none, some, List, [], Text, codes, arith,
}
use chat_system.Exceptions.{
  Result, returns, throws, ◌>>=◌, continue_pure-returns, bind-returns, returns-injective,
}
use chat_system.Domain.User.{User}
use chat_system.Domain.Message.{Message}
use chat_system.Networking.Http.{Request, Response}
use chat_system.Networking.Json.{Json}
use chat_system.Networking.Router.{PathParams}
use chat_system.Networking.Credentials.{
  auth_scheme, extract_token, extract_token_iff, extract_path_param,
}
use chat_system.Networking.Controllers.{
  responds, undefined_behaviour, Caller, anonymous, undefined_caller, caller, dereferenced,
  build_error_response, bad_request, unauthorized, unauthorized_message, answered, catch_json,
  with_caller,
}
use chat_system.Networking.Controllers.MessageController.{
  token_caller, message_caller, handle_send_message,
}
use chat_system.Repositories.Store.{Db}
use chat_system.Repositories.ChatStore.{ChatDb, ChatPostgres}
use chat_system.Services.Auth.{validate_token}
use chat_system.Services.Notification.{NotificationService}
use chat_system.Repositories.Chats.{is_participant}
use chat_system.Repositories.Messages.{find_message_by_id}
use chat_system.Services.Message.{Calls, send_chat_message}
use chat_system.Services.Message.Sending.{send_chat_message-returns}
use chat_system.Networking.Controllers.MessageController.{
  made_calls, send_body, extract_encrypted_keys,
}
use chat_system.Domain.Types.{MessageTypeVariant, create_message_type}

module _ {J : Type 0} (json : Json J) where
  build_error_response-status :
      (status : ℕ) (message : Text) (response : Response)
      → build_error_response json status message ≡ returns response
      → response.status ≡ status
  unfolding build_error_response
  build_error_response-status status message response h =
      let (body, dumped, made) = bind-returns (json.dump _) _ response h in
      sym (ap (λ (r : Response). r.status) (returns-injective _ response made))

  answered-responds :
      (r : Result Response) (response : Response)
      → answered r ≡ responds response
      → r ≡ returns response
  unfolding answered
  answered-responds (returns x) response h = let same : x ≡ response = cc in ap returns same
  answered-responds (throws e) response h = cc

  -- A response of a catch clause has another status than 200 and 204.
  catch_json-success :
      {S : Type 0} (status : ℕ) (r : Result Response) (response : Response) (s t : S)
      → status < 400
      → response.status ≡ status
      → catch_json json (r, s) ≡ (responds response, t)
      → (r ≡ returns response) × (s ≡ t)
  unfolding catch_json bad_request
  catch_json-success status (returns x) response s t small is_status h =
      let outcome : responds x ≡ responds response = ap (λ p. p.0) h in
      (answered-responds (returns x) response outcome, ap (λ p. p.1) h)
  catch_json-success status (throws e) response s t small is_status h =
      let built =
        build_error_response-status 400 _ response
          (answered-responds _ response (ap (λ p. p.0) h)) in
      let wrong : ⊥ = omega (arith, built, is_status, small) in elim wrong [ ]

  -- A handler that succeeds knew its caller, and the rest of its body returned the response.
  with_caller-success :
      {S : Type 0} (status : ℕ) (c : Caller) (response : Response) (s t : S)
      (body : Text → Result Response × S)
      → status < 400
      → response.status ≡ status
      → with_caller json c (catch_json json) s body ≡ (responds response, t)
      → (id : Text) × (c ≡ caller id) × (body id ≡ (returns response, t))
  unfolding with_caller unauthorized answered
  with_caller-success status anonymous response s t body small is_status h =
      let (r, same) =
        catch_json-success status (unauthorized json unauthorized_message) response s t small
          is_status h in
      let built = build_error_response-status 401 unauthorized_message response r in
      let wrong : ⊥ = omega (arith, built, is_status, small) in elim wrong [ ]
  with_caller-success status undefined_caller response s t body small is_status h =
      let wrong : undefined_behaviour ≡ responds response = ap (λ p. p.0) h in cc
  with_caller-success status (caller id) response s t body small is_status h =
      let (r, same) =
        catch_json-success status (body id).0 response (body id).1 t small is_status h in
      (id, refl, λ i. (r i, same i))

  dereferenced-caller :
      (o : Option User) (id : Text)
      → dereferenced o ≡ caller id
      → (user : User) × (o ≡ some user) × (user.id ≡ id)
  unfolding dereferenced
  dereferenced-caller none id h = cc
  dereferenced-caller (some user) id h = let same : user.id ≡ id = cc in (user, refl, same)

  token_caller-user :
      (now : ℕ) (db : Db) (o : Option Text) (id : Text)
      → token_caller now db o ≡ caller id
      → (token : Text) × (user : User) × (o ≡ some token)
        × (validate_token token now db ≡ some user)
        × (user.id ≡ id)
  unfolding token_caller
  token_caller-user now db none id h = cc
  token_caller-user now db (some token) id h =
      let (user, valid, same) = dereferenced-caller (validate_token token now db) id h in
      (token, user, refl, valid, same)

  -- A handler of the message controller that succeeds had a token of a user.
  message_caller-user :
      (now : ℕ) (db : Db) (req : Request) (id : Text)
      → message_caller now db req ≡ caller id
      → (token : Text) × (user : User) × (req.authorization ≡ some (auth_scheme ++ token))
        × (validate_token token now db ≡ some user)
        × (user.id ≡ id)
  unfolding message_caller
  message_caller-user now db req id h =
      let (token, user, extracted, valid, same) =
        token_caller-user now db (extract_token req) id h in
      (token, user, (extract_token_iff req token).0 extracted, valid, same)

  send_body-returns :
      {C : Type 0} (postgres : ChatPostgres) (service : NotificationService C) (now : ℕ)
      (params_of : Text → Option (List (Text × Text))) (new_id : Text) (req : Request)
      (id chat_id : Text) (db new : ChatDb) (calls : Calls C) (response : Response)
      → send_body json postgres service now params_of new_id req id chat_id (db, [])
        ≡ (returns response, (new, calls))
      → (ciphertext : Text) × (keys : List (Text × Text)) × (type : MessageTypeVariant)
        × (message : Message) × (made : Option (Calls C)) × (send_chat_message postgres service
              new_id now id chat_id ciphertext keys type db
            ≡ (returns (message, made), new))
        × (calls ≡ made_calls made)
  unfolding send_body
  send_body-returns postgres service now params_of new_id req id chat_id db new calls response h =
      let (body, parsed, h1) =
        continue_pure-returns (json.parse req.body) (db, []) _ response (new, calls) h in
      let (ciphertext, e1, h2) =
        continue_pure-returns (json.at (codes "ciphertext") body >>= json.as_string) (db, []) _
          response (new, calls) h1 in
      let (type, e2, h3) =
        continue_pure-returns
          (json.at (codes "type") body >>= json.as_string >>= create_message_type) (db, []) _
          response (new, calls) h2 in
      let (keys, e3, h4) =
        continue_pure-returns (extract_encrypted_keys json body) (db, []) _ response (new, calls)
          h3 in
      let sent = send_chat_message postgres service new_id now id chat_id ciphertext keys type db in
      let ((message, made), result, h5) =
        continue_pure-returns sent.0 (sent.1, []) _ response (new, calls) h4 in
      (
        ciphertext,
        keys,
        type,
        message,
        made,
        (λ i. (result i, (h5 i).1.0)),
        sym (ap (λ p. p.1.1) h5),
      )

  -- When HandleSendMessage answers 200, the request had the token of a user, who is a participant of
  -- the chat that the path names, and FindById finds the message with the new id, of that user and
  -- in that chat.
  pub handle_send_message-stores :
      {C : Type 0} (postgres : ChatPostgres) (service : NotificationService C) (now : ℕ)
      (params_of : Text → Option (List (Text × Text))) (new_id : Text) (req : Request)
      (params : PathParams) (db new : ChatDb) (calls : Calls C) (response : Response)
      → handle_send_message json postgres service now params_of new_id req params db
        ≡ (responds response, (new, calls))
      → response.status ≡ 200
      → (token : Text) × (user : User) × (chat_id : Text) × (message : Message) × (req.authorization
          ≡ some (auth_scheme ++ token))
        × (validate_token token now db.accounts ≡ some user)
        × (extract_path_param params (codes "id") ≡ returns chat_id)
        × (is_participant db chat_id user.id ≡ true)
        × (find_message_by_id postgres new new_id ≡ returns (some message))
        × (message.sender_id ≡ user.id)
        × (message.chat_id ≡ chat_id)
  unfolding handle_send_message
  handle_send_message-stores postgres service now params_of new_id req params db new calls response
        h is_ok =
      let (id, known, rest) =
        with_caller-success 200 (message_caller now db.accounts req) response (db, []) (new, calls)
          _ (omega arith) is_ok h in
      let (token, user, bearer, valid, same) = message_caller-user now db.accounts req id known in
      let (chat_id, path, sent) =
        continue_pure-returns (extract_path_param params (codes "id")) (db, []) _ response
          (new, calls) rest in
      let (ciphertext, keys, type, message, made, result, all_calls) =
        send_body-returns postgres service now params_of new_id req id chat_id db new calls response
          sent in
      let (allowed, values, found, last, members, notified) =
        send_chat_message-returns postgres service new_id now id chat_id ciphertext keys type db new
          message made result in
      (
        token,
        user,
        chat_id,
        _,
        bearer,
        valid,
        path,
        ap (λ x. is_participant db chat_id x) same ∙ allowed,
        found,
        ap (λ (m : Message). m.sender_id) values ∙ sym same,
        ap (λ (m : Message). m.chat_id) values,
      )
