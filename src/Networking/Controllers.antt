-- ===== src/Networking/Controllers.antt =====
-- What the controllers of Server/Source/Networking/Controllers share: Networking/api_errors.h and
-- the rest of Networking/utils.cpp, who the caller is, and the catch clauses. The parameters of a
-- query, which Boost.URL parses, are a parameter. The version and the headers of a response are
-- left out.
pub mod ChatController
pub mod MessageController
pub mod UserController
pub mod AuthController
pub mod Access
pub mod Statuses
use chat_system.Prelude.{
  ℕ, ◌+◌, ◌-◌, ◌*◌, ◌^◌, ◌%◌, Bool, true, false, not, ◌&&◌, ◌||◌, Option, none, some, List, [], ◌∷◌,
  Text, codes, text_eq, drop, leb, ltb, ◌==◌, if◌then◌else◌,
}
use chat_system.Exceptions.{
  Exception, invalid_argument, logic_error, runtime_error, connection_exception,
  transaction_exception, constraint_exception, query_exception, json_exception, Result, returns,
  throws, ◌>>=◌,
}
use chat_system.Domain.User.{User}
use chat_system.Networking.Http.{Request, Response}
use chat_system.Networking.Json.{Json}
use chat_system.Networking.Credentials.{auth_scheme, auth_scheme_len, starts_with_text}
use chat_system.Repositories.Store.{Db}
use chat_system.Services.Auth.{validate_token}

-- How a handler ends: with a response, with an exception that no clause catches, or undefined, where
-- it dereferences an empty optional.
pub data HandlerOutcome : Type 0 where
  responds : Response → HandlerOutcome
  escapes : Exception → HandlerOutcome
  undefined_behaviour : HandlerOutcome

unfoldable pub what : Exception → Text
what (invalid_argument m) = m
what (logic_error m) = m
what (runtime_error m) = m
what (connection_exception m) = m
what (transaction_exception m) = m
what (constraint_exception m) = m
what (query_exception m) = m
what (json_exception m) = m

unfoldable pub is_json_exception : Exception → Bool
is_json_exception (json_exception m) = true
is_json_exception _ = false

-- std::stoull: white space, a sign, and decimal digits up to the first other character.
unfoldable pub is_space : ℕ → Bool
is_space c = c == 32 || (leb 9 c && leb c 13)

unfoldable pub skip_spaces : Text → Text
unfolding is_space
skip_spaces [] = []
skip_spaces (c ∷ s) = let rest = skip_spaces s in if is_space c then rest else c ∷ s

unfoldable pub is_decimal : ℕ → Bool
is_decimal c = leb 48 c && leb c 57

unfoldable pub read_digits : ℕ → Text → ℕ
unfolding is_decimal
read_digits n [] = n
read_digits n (c ∷ s) =
    let rest = read_digits (n * 10 + (c - 48)) s in if is_decimal c then rest else n

unfoldable pub starts_with_digit : Text → Bool
unfolding is_decimal
starts_with_digit [] = false
starts_with_digit (c ∷ s) = is_decimal c

unfoldable pub read_number : Text → Result ℕ
unfolding starts_with_digit read_digits
read_number s =
    if not (starts_with_digit s)
    then throws (invalid_argument (codes "stoull"))
    else (if ltb (read_digits 0 s) (2 ^ 64)
        then returns (read_digits 0 s)
        else throws (logic_error (codes "stoull")))

-- A minus sign negates the number, and the result wraps.
unfoldable pub read_signed : Text → Result ℕ
unfolding read_number
read_signed [] = read_number []
read_signed (c ∷ s) =
    if c == 45
    then (read_number s >>= λ n. returns ((2 ^ 64 - n) % 2 ^ 64))
    else (if c == 43 then read_number s else read_number (c ∷ s))

unfoldable pub stoull : Text → Result ℕ
unfolding read_signed skip_spaces
stoull s = read_signed (skip_spaces s)

-- params.find(key).
unfoldable pub find_param : Text → List (Text × Text) → Option Text
find_param key [] = none
find_param key ((k, v) ∷ params) =
    let rest = find_param key params in if text_eq k key then some v else rest

-- An output argument that is set if the parameter is there.
unfoldable pub number_or : ℕ → Option Text → Result ℕ
unfolding stoull
number_or default none = returns default
number_or default (some v) = stoull v

-- ExtractPaginationLimitAndOffset; no parameters if the target is no origin form.
unfoldable pub extract_pagination_limit_and_offset :
    Option (List (Text × Text)) → ℕ → ℕ → Result (ℕ × ℕ)
unfolding find_param number_or
extract_pagination_limit_and_offset none limit offset = returns (limit, offset)
extract_pagination_limit_and_offset (some params) limit offset =
    number_or limit (find_param (codes "limit") params) >>= λ new_limit.
    number_or offset (find_param (codes "offset") params) >>= λ new_offset.
    returns (new_limit, new_offset)

-- req[http::field::authorization] is empty without the field.
unfoldable pub get_auth_header : Request → Text
get_auth_header req = elim req.authorization [ none ↦ [] | some header ↦ header ]

unfoldable pub is_valid_token : Text → Bool
is_valid_token auth_header = starts_with_text auth_scheme auth_header

unfoldable pub get_token : Text → Text
get_token auth_header = drop auth_scheme_len auth_header

-- What GetAuthenticatedUserId returns: no user, a user's id, or undefined behaviour.
pub data Caller : Type 0 where
  anonymous undefined_caller : Caller
  caller : Text → Caller

-- ValidateToken(token)->GetId(), which the chat and the message controller read without a test.
unfoldable pub dereferenced : Option User → Caller
dereferenced none = undefined_caller
dereferenced (some user) = caller user.id

-- With the test of the user controller.
unfoldable pub tested : Option User → Caller
tested none = anonymous
tested (some user) = caller user.id

abbrev pub unauthorized_message : Text
unauthorized_message = codes "Unauthorized. Invalid or missing authentication token."

-- BuildAndReturnNoContentResponse.
unfoldable pub no_content_response : Result Response
no_content_response = returns (record { status = 204; body = [] })

-- The response that a catch clause builds.
unfoldable pub answered : Result Response → HandlerOutcome
answered (returns response) = responds response
answered (throws e) = escapes e

module _ {J : Type 0} (json : Json J) where
  unfoldable pub build_error_response : ℕ → Text → Result Response
  build_error_response status message =
      json.dump (json.object ((codes "error", json.text message) ∷ [])) >>= λ body.
      returns (record { status = status; body = body })

  unfoldable pub bad_request : Text → Result Response
  unfolding build_error_response
  bad_request message = build_error_response 400 message

  unfoldable pub unauthorized : Text → Result Response
  unfolding build_error_response
  unauthorized message = build_error_response 401 message

  unfoldable pub not_found : Text → Result Response
  unfolding build_error_response
  not_found message = build_error_response 404 message

  unfoldable pub conflict : Text → Result Response
  unfolding build_error_response
  conflict message = build_error_response 409 message

  unfoldable pub internal_server_error : Result Response
  unfolding build_error_response
  internal_server_error =
      build_error_response 500 (codes "An unexpected internal server error occurred.")

  -- BuildAndReturnOkResponse.
  unfoldable pub ok_response : J → Result Response
  ok_response value = json.dump value >>= λ body. returns (record { status = 200; body = body })

  -- catch (const std::exception& e) with BadRequest.
  unfoldable pub catch_all : {S : Type 0} → Result Response × S → HandlerOutcome × S
  unfolding answered bad_request
  catch_all (returns response, s) = (responds response, s)
  catch_all (throws e, s) = (answered (bad_request (what e)), s)

  -- The same behind a clause for JSON exceptions.
  unfoldable pub catch_json : {S : Type 0} → Result Response × S → HandlerOutcome × S
  unfolding answered bad_request
  catch_json (returns response, s) = (responds response, s)
  catch_json (throws e, s) = (
    answered (bad_request (if is_json_exception e then codes "Invalid JSON format." else what e)),
    s,
  )

  -- The first statements of a handler, with its catch clauses and the rest of its body.
  unfoldable pub with_caller :
      {S : Type 0}
      → Caller
      → (Result Response × S → HandlerOutcome × S)
      → S
      → (Text → Result Response × S)
      → HandlerOutcome × S
  unfolding unauthorized
  with_caller anonymous handle s body = handle (unauthorized unauthorized_message, s)
  with_caller undefined_caller handle s body = (undefined_behaviour, s)
  with_caller (caller id) handle s body = handle (body id)

-- ChatController::GetAuthenticatedUserId.
unfoldable pub chat_caller : ℕ → Db → Request → Caller
unfolding get_auth_header is_valid_token get_token dereferenced
chat_caller now db req =
    if not (is_valid_token (get_auth_header req))
    then anonymous
    else dereferenced (validate_token (get_token (get_auth_header req)) now db)
