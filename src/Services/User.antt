-- ===== src/Services/User.antt =====
-- Server/Source/Services/user_service.cpp. The rows that match a query stand in some order, which
-- is PostgreSQL's choice, since the statement has no ORDER BY: they are an argument.
pub mod Pages
use chat_system.Prelude.{
  ℕ, zero, suc, ◌+◌, ◌-◌, ◌*◌, ◌/◌, ◌%◌, ◌^◌, ◌≤◌, ◌<◌, min, ◌≡◌, refl, sym, ap, ◌∙◌, ◌≢◌, ◌↔◌, ◌⊎◌,
  inl, inr, Bool, true, false, not, ◌&&◌, ◌||◌, Option, none, some, List, [], ◌∷◌, ◌++◌, map,
  append-nil, append_assoc, String, Text, codes, text_eq, text_eq_iff, text_eq_refl, length, set,
  take, drop, replicate, All, length-append, length-set, length-take, length-replicate, arith, ltb,
  leb, ◌==◌, if◌then◌else◌, Bool-cases, Option-cases, ltb→lt, lt→ltb, leb→le, ==_iff, tests,
}
use chat_system.Exceptions.{Exception, Result, returns, throws, ◌>>=◌, ◌>>◌}
use chat_system.Domain.User.{User}
use chat_system.Domain.Tag.{UserTag}
use chat_system.Domain.Roles.{role_to_str_view}
use chat_system.Repositories.Rows.{taken, keep, delete, Distinct}
use chat_system.Repositories.Rows.Updates.{delete-absent}
use chat_system.Repositories.Store.{Db, user_id, find_by_id, find_by_tag}

pub record UserProfile : Type 0 where
  pub id : Text
  pub tag : Text
  pub login : Text
  pub role : Text
  pub public_key : Text

unfoldable pub map_to_profile : User → UserProfile
map_to_profile user = record {
  id = user.id;
  tag = user.tag.value;
  login = user.login;
  role = role_to_str_view user.role;
  public_key = user.public_key;
}

-- std::size_t wraps.
abbrev pub size_modulus : ℕ
size_modulus = 2 ^ 64

-- QueryParams binds a std::size_t as an int64_t, and PostgreSQL refuses a negative one.
abbrev pub int_modulus : ℕ
int_modulus = 2 ^ 63

-- PqxxUserRepository::Search: LIMIT and OFFSET of the matching rows, or the driver's exception.
unfoldable pub search_rows : Exception → List User → ℕ → ℕ → Result (List User)
search_rows refused matching limit offset =
    if ltb limit int_modulus && ltb offset int_modulus
    then returns (take limit (drop offset matching))
    else throws refused

-- The loop of Search.
unfoldable pub collect : ℕ → Text → List User → List UserProfile → List UserProfile
collect limit requesting_user_id [] profiles = profiles
collect limit requesting_user_id (user ∷ users) profiles =
    let skipped = collect limit requesting_user_id users profiles in
    let added = collect limit requesting_user_id users (profiles ++ (map_to_profile user ∷ [])) in
    if length profiles == limit
    then profiles
    else (if text_eq user.id requesting_user_id then skipped else added)

-- `reserve` is std::vector::reserve, which throws if it gets no room for so many profiles.
unfoldable pub search :
    Exception → (ℕ → Result (Unit {0})) → List User → Text → ℕ → ℕ → Result (List UserProfile)
search refused reserve matching requesting_user_id limit offset =
    search_rows refused matching ((limit + 1) % size_modulus) offset >>= λ users.
    reserve limit >> returns (collect limit requesting_user_id users [])

unfoldable pub profile_of : Option User → Option UserProfile
profile_of none = none
profile_of (some user) = some (map_to_profile user)

unfoldable pub get_by_id : Db → Text → Option UserProfile
get_by_id db id = profile_of (find_by_id db id)

unfoldable pub get_by_tag : Db → UserTag → Option UserProfile
get_by_tag db tag = profile_of (find_by_tag db tag)

unfoldable pub key_of : Option User → Option Text
key_of none = none
key_of (some user) = some user.public_key

unfoldable pub get_public_key : Db → Text → Option Text
get_public_key db id = key_of (find_by_id db id)
