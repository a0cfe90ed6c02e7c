-- ===== src/Tests/Routes.antt =====
-- A request to the routes of the server.
use chat_system.Prelude.{◌≡◌, refl, true, [], ◌∷◌, Text, none, codes, ℕ}
use chat_system.Exceptions.{runtime_error, returns}
use chat_system.Networking.Http.{Request, Response}
use chat_system.Networking.Router.{route_request}
use chat_system.Networking.Router.Dispatch.{request_segments}
use chat_system.Networking.Controllers.{responds}
use chat_system.Networking.Routes.{Surroundings, Served, server_routes}
use chat_system.Networking.Routes.Table.{dispatch}
use chat_system.Networking.Routes.Dispatched.{route_request-dispatch}
use chat_system.Tests.Auth.{plain_postgres, plain_encryption, draws_a}
use chat_system.Tests.Messages.{chat_postgres, service_1}
use chat_system.Tests.Controllers.{text_json, no_params}

abbrev surroundings : Surroundings Text ℕ
surroundings = record {
  json = text_json;
  accounts = plain_postgres;
  postgres = chat_postgres;
  encryption = plain_encryption;
  refused_count = runtime_error [];
  reserve = λ limit. returns tt;
  matching = λ query. [];
  params_of = no_params;
  service = service_1;
  draws = draws_a;
  new_id = 9 ∷ [];
  clock = λ i. 50;
}

abbrev answer : Response → Served ℕ
answer response db = (responds response, (db, []))

-- GET /users/tag/public-key, which two templates match.
abbrev asks_tag : Request
unfolding codes
asks_tag = record {
  method = 2;
  target = codes "/users/tag/public-key";
  authorization = none;
  body = [];
}

route_request-dispatch_example :
    route_request answer (λ target. true) (server_routes surroundings) asks_tag
    ≡ dispatch surroundings answer asks_tag (request_segments asks_tag)
route_request-dispatch_example =
    route_request-dispatch surroundings answer (λ target. true) asks_tag refl
