-- ===== src/Tests/Users.antt =====
-- A search among three users, one of them the requesting one.
use chat_system.Prelude.{ℕ, ◌+◌, ◌≡◌, refl, List, [], ◌∷◌, map, text_eq, length, take, drop, arith}
use chat_system.Exceptions.{Result, ◌>>◌, returns, query_exception}
use chat_system.Domain.User.{User}
use chat_system.Domain.Roles.{regular_user_role}
use chat_system.Repositories.Rows.{taken, delete, Distinct}
use chat_system.Repositories.Store.{user_id}
use chat_system.Services.User.{UserProfile, map_to_profile, search}
use chat_system.Services.User.Pages.{search-take, search_full}

abbrev named_user : ℕ → User
named_user n = record {
  id = n ∷ [];
  tag = record { value = n ∷ [] };
  login = n ∷ [];
  password_hash = [];
  public_key = [];
  role = regular_user_role;
  created_at = 1;
}

abbrev three : List User
three = named_user 1 ∷ named_user 2 ∷ named_user 3 ∷ []

three-Distinct : Distinct user_id three
unfolding taken text_eq
three-Distinct = (refl, (refl, (refl, tt)))

abbrev room_for_all : ℕ → Result (Unit {0})
room_for_all limit = returns tt

search-take_example : search (query_exception []) room_for_all three (2 ∷ []) 2 0 ≡ (
    room_for_all 2
    >> returns
        (map map_to_profile (take 2 (delete user_id (2 ∷ []) (take (2 + 1) (drop 0 three))))))
search-take_example =
    search-take (query_exception []) room_for_all three (2 ∷ []) 2 0 (omega arith) (omega arith)

search_full_example :
    (profiles : List UserProfile) × (search (query_exception []) room_for_all three (2 ∷ []) 2 0
      ≡ returns profiles)
    × (length profiles ≡ 2)
search_full_example =
    search_full (query_exception []) room_for_all three (2 ∷ []) 2 0 refl (omega arith)
      (omega arith) three-Distinct (omega arith)
