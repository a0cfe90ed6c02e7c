-- ===== src/Domain/Roles.antt =====
-- Core/Include/User/Roles, Core/Include/User/user_action.h and the role variant.
use chat_system.Prelude.{ℕ, Bool, false, ◌||◌, List, [], ◌∷◌, Text, codes, ◌==◌}
use chat_system.Exceptions.{Result}
use chat_system.Domain.Types.{create}

-- The enumerators with their values.
pub data UserAction : Type 0 where
  send_message delete_account modify_login modify_password modify_tag delete_own_message
        delete_any_message ban_user manage_roles :
      UserAction

abbrev underlying : UserAction → ℕ
underlying send_message = 0
underlying delete_account = 1
underlying modify_login = 2
underlying modify_password = 3
underlying modify_tag = 4
underlying delete_own_message = 5
underlying delete_any_message = 6
underlying ban_user = 7
underlying manage_roles = 8

pub data UserRoleVariant : Type 0 where
  regular_user_role : UserRoleVariant

abbrev performable_actions : List UserAction
performable_actions =
    send_message ∷ delete_account ∷ delete_own_message ∷ modify_login ∷ modify_password ∷ []

-- std::ranges::find(…) != end
contains_action : List UserAction → UserAction → Bool
contains_action [] action = false
contains_action (a ∷ rest) action =
    (underlying a == underlying action) || contains_action rest action

-- User::CanPerform, which visits the role.
unfoldable pub can_perform : UserRoleVariant → UserAction → Bool
unfolding contains_action
can_perform regular_user_role action = contains_action performable_actions action

unfoldable pub role_to_str_view : UserRoleVariant → Text
role_to_str_view regular_user_role = codes "REGULAR_USER"

unfoldable pub string_to_role : Text → Result UserRoleVariant
string_to_role role_str = create ((codes "REGULAR_USER", regular_user_role) ∷ []) role_str
