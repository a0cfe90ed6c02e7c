-- ===== src/Networking/Controllers/UserController.antt =====
-- Server/Source/Networking/Controllers/user_controller.cpp. Its handlers change nothing.
use chat_system.Prelude.{
  ℕ, Option, none, some, List, [], ◌∷◌, map, Text, codes, length, ◌==◌, if◌then◌else◌,
}
use chat_system.Exceptions.{Exception, Result, ◌>>=◌}
use chat_system.Domain.User.{User}
use chat_system.Domain.Tag
use chat_system.Networking.Http.{Request, Response}
use chat_system.Networking.Json.{Json}
use chat_system.Networking.Router.{PathParams}
use chat_system.Networking.Credentials.{extract_token, extract_path_param}
use chat_system.Networking.Controllers.{
  HandlerOutcome, find_param, extract_pagination_limit_and_offset, anonymous, Caller, tested,
  bad_request, not_found, ok_response, catch_all, with_caller,
}
use chat_system.Repositories.Store.{Db}
use chat_system.Services.Auth.{validate_token}
use chat_system.Services.User.{UserProfile, search, get_by_id, get_by_tag, get_public_key}

-- UserController::GetAuthenticatedUserId.
unfoldable pub token_user : ℕ → Db → Option Text → Caller
unfolding tested
token_user now db none = anonymous
token_user now db (some token) = tested (validate_token token now db)

unfoldable pub user_caller : ℕ → Db → Request → Caller
unfolding token_user
user_caller now db req = token_user now db (extract_token req)

-- UserController::ExtractSearchQuery: empty without the parameter.
unfoldable pub text_or_empty : Option Text → Text
text_or_empty none = []
text_or_empty (some t) = t

unfoldable pub extract_search_query : Option (List (Text × Text)) → Text
unfolding find_param text_or_empty
extract_search_query none = []
extract_search_query (some params) = text_or_empty (find_param (codes "q") params)

module _ {J : Type 0} (json : Json J) where
  -- The two overloads of UserController::FormatJsonOutput.
  unfoldable pub format_profile : UserProfile → J
  format_profile profile = json.object (
      (codes "id", json.text profile.id)
      ∷ (codes "tag", json.text profile.tag)
      ∷ (codes "login", json.text profile.login)
      ∷ (codes "public_key", json.text profile.public_key)
      ∷ (codes "role", json.text profile.role)
      ∷ [])

  unfoldable pub format_profiles : List UserProfile → J
  unfolding format_profile
  format_profiles profiles = json.array (map format_profile profiles)

  unfoldable pub profile_response : Option UserProfile → Result Response
  unfolding not_found ok_response format_profile
  profile_response none = not_found json (codes "User not found.")
  profile_response (some profile) = ok_response json (format_profile profile)

  unfoldable pub public_key_response : Option Text → Result Response
  unfolding not_found ok_response
  public_key_response none = not_found json (codes "Public key not found.")
  public_key_response (some key) =
      ok_response json (json.object ((codes "public_key", json.text key) ∷ []))

  -- The rows that match a query, in PostgreSQL's order, are an argument.
  module _ (refused : Exception) (reserve : ℕ → Result (Unit {0})) (matching : Text → List User)
      (now : ℕ) (params_of : Text → Option (List (Text × Text))) where
    unfoldable pub search_body : Text → Text → Request → Result Response
    unfolding bad_request extract_pagination_limit_and_offset ok_response format_profiles
    search_body id query req =
        if length query == 0
        then bad_request json (codes "Missing search query parameter 'q'.")
        else (extract_pagination_limit_and_offset (params_of req.target) 50 0 >>= λ (limit, offset).
            search refused reserve (matching query) id limit offset >>= λ profiles.
            ok_response json (format_profiles profiles))

    unfoldable pub handle_search_users : Request → Db → HandlerOutcome × Db
    unfolding user_caller with_caller catch_all extract_search_query search_body
    handle_search_users req db =
        with_caller json (user_caller now db req) (catch_all json) db
          λ id. (search_body id (extract_search_query (params_of req.target)) req, db)

    unfoldable pub handle_get_by_id : Request → PathParams → Db → HandlerOutcome × Db
    unfolding user_caller with_caller catch_all profile_response
    handle_get_by_id req params db =
        with_caller json (user_caller now db req) (catch_all json) db λ id. (
          extract_path_param params (codes "id") >>= λ target_id.
              profile_response (get_by_id db target_id),
          db,
        )

    unfoldable pub handle_get_by_tag : Request → PathParams → Db → HandlerOutcome × Db
    unfolding user_caller with_caller catch_all profile_response
    handle_get_by_tag req params db =
        with_caller json (user_caller now db req) (catch_all json) db λ id. (
          extract_path_param params (codes "tag") >>= λ target_tag.
              profile_response (get_by_tag db (Tag.reconstitute target_tag)),
          db,
        )

    unfoldable pub handle_get_public_key : Request → PathParams → Db → HandlerOutcome × Db
    unfolding user_caller with_caller catch_all public_key_response
    handle_get_public_key req params db =
        with_caller json (user_caller now db req) (catch_all json) db λ id. (
          extract_path_param params (codes "id") >>= λ target_id.
              public_key_response (get_public_key db target_id),
          db,
        )
