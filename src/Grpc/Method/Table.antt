-- ===== src/Grpc/Method/Table.antt =====
-- What the two tables of methods cover.
use portal_backend.Prelude.{
  true, Bool-cases, Option-cases, false, none, some, ◌≡◌, refl, arith, ◌⊎◌, inl, inr, ◌↔◌,
}
use portal_backend.Domain.{
  PermissionCode, profile_read_self, profile_update_self, profile_change_password, user_list,
  user_read_detail, user_create, user_update, user_delete, user_restore, user_role_update,
  role_list, role_create, role_delete, role_assign_permission, role_remove_permission,
  permission_list,
}
use portal_backend.Grpc.Method.{
  Method, is_public, permission_of, logout_method, logout_all_method, get_my_profile_method,
  update_my_profile_method, change_my_password_method, list_users_method, create_user_method,
  get_user_detail_method, update_user_method, delete_user_method, restore_user_method,
  update_user_role_method, list_roles_method, create_role_method, delete_role_method,
  assign_permission_method, remove_permission_method, list_permissions_method,
}

-- the method that a permission is for
abbrev pub method_for : PermissionCode → Method
method_for profile_read_self = get_my_profile_method
method_for profile_update_self = update_my_profile_method
method_for profile_change_password = change_my_password_method
method_for user_list = list_users_method
method_for user_read_detail = get_user_detail_method
method_for user_create = create_user_method
method_for user_update = update_user_method
method_for user_delete = delete_user_method
method_for user_restore = restore_user_method
method_for user_role_update = update_user_role_method
method_for role_list = list_roles_method
method_for role_create = create_role_method
method_for role_delete = delete_role_method
method_for role_assign_permission = assign_permission_method
method_for role_remove_permission = remove_permission_method
method_for permission_list = list_permissions_method

-- A method that is not public and asks for no permission is one of the two logouts.
pub ungated_methods :
    (m : Method)
    → is_public m ≡ false
    → permission_of m ≡ none
    → (m ≡ logout_method) ⊎ (m ≡ logout_all_method)
unfolding is_public permission_of
ungated_methods logout_method h k = inl refl
ungated_methods logout_all_method h k = inr refl
ungated_methods _ h k = cc

asks_of_method : (m : Method) (p : PermissionCode) → permission_of m ≡ some p → m ≡ method_for p
unfolding permission_of
asks_of_method logout_method p h = cc
asks_of_method _ p h = ground arith

-- Each permission is asked for by one method, no other method asks for it, and no method that asks
-- for one is public.
pub permission_of_one :
    (m : Method) (p : PermissionCode)
    → (permission_of m ≡ some p ↔ m ≡ method_for p) × (is_public (method_for p) ≡ false)
unfolding permission_of is_public
permission_of_one m p = ((asks_of_method m p, λ e. rw e (asked p)), closed p)
  where
    asked : (p : PermissionCode) → permission_of (method_for p) ≡ some p
    asked profile_read_self = refl
    asked _ = refl

    closed : (p : PermissionCode) → is_public (method_for p) ≡ false
    closed profile_read_self = refl
    closed _ = refl

-- how a method is gated: it is public, asks for a permission, or is one of the two logouts
abbrev pub GatedAs : Method → Type 0
GatedAs m =
    (is_public m ≡ true)
    ⊎ ((p : PermissionCode) × (permission_of m ≡ some p))
    ⊎ ((m ≡ logout_method) ⊎ (m ≡ logout_all_method))

-- Each method is public, or asks for a permission, or is one of the two logouts; and each permission
-- is asked for by one method, which is not public, and by no other.
pub methods_are_gated :
    (m : Method) (p : PermissionCode)
    → GatedAs m × (permission_of m ≡ some p ↔ m ≡ method_for p) × (is_public (method_for p) ≡ false)
methods_are_gated m p = (gated, (permission_of_one m p).0, (permission_of_one m p).1)
  where
    gated : GatedAs m
    gated = elim (Bool-cases (is_public m)) [
      | inl open_to_all ↦ inl open_to_all
      | inr closed ↦ elim (Option-cases (permission_of m)) [
        | inl asks_none ↦ inr (inr (ungated_methods m closed asks_none))
        | inr asked ↦ inr (inl asked)
      ]
    ]
