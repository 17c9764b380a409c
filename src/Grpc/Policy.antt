-- ===== src/Grpc/Policy.antt =====
-- internal/infrastructure/ratelimit: policy.go, limiter.go and key.go
use portal_backend.Prelude.{ℕ, ◌*◌, Bool, List, [], ◌∷◌, ◌++◌, take, ◌==◌, if◌then◌else◌}
use portal_backend.Text.{Text, codes, is_empty, trim_space, to_lower}
use portal_backend.World.{World}
use portal_backend.Grpc.Method.{
  Method, login_method, register_method, forgot_password_method, resend_verification_method,
  refresh_token_method, get_my_profile_method, update_my_profile_method, change_my_password_method,
  list_users_method, get_user_detail_method, create_user_method, update_user_method,
  delete_user_method, restore_user_method, update_user_role_method,
}

pub data KeyScope : Type 0 where
  scope_ip scope_user scope_identifier scope_email : KeyScope

pub data Phase : Type 0 where
  pre_auth post_auth : Phase

-- A window is a number of nanoseconds.
pub record Policy : Type 0 where
  pub name : Text
  pub limit : ℕ
  pub burst : ℕ
  pub window : ℕ
  pub phase : Phase
  pub scopes : List KeyScope

-- what a limiter answers
pub record LimitResult : Type 0 where
  pub allowed : Bool
  pub limit : ℕ
  pub remaining : ℕ
  pub retry_after : ℕ
  pub reset_after : ℕ

abbrev pub minute : ℕ
minute = 60000000000

abbrev pub rate_hour : ℕ
rate_hour = 60 * minute

unfoldable pub default_policy : Policy
default_policy = record {
  name = codes "global";
  limit = 300;
  burst = 300;
  window = minute;
  phase = post_auth;
  scopes = scope_user ∷ [];
}

abbrev pub user_policy : Text → ℕ → ℕ → ℕ → Policy
user_policy n l b t = record {
  name = n;
  limit = l;
  burst = b;
  window = t;
  phase = post_auth;
  scopes = scope_user ∷ [];
}

abbrev pub public_policy : Text → ℕ → ℕ → ℕ → List KeyScope → Policy
public_policy n l b t ss = record {
  name = n;
  limit = l;
  burst = b;
  window = t;
  phase = pre_auth;
  scopes = ss;
}

-- MethodPolicies, and the default for a method without an entry
unfoldable pub method_policy : Method → Policy
method_policy login_method =
    public_policy (codes "login") 5 5 minute (scope_ip ∷ scope_identifier ∷ [])
method_policy register_method =
    public_policy (codes "register") 5 5 rate_hour (scope_ip ∷ scope_email ∷ [])
method_policy forgot_password_method =
    public_policy (codes "forgot_password") 3 3 (15 * minute) (scope_ip ∷ scope_email ∷ [])
method_policy resend_verification_method =
    public_policy (codes "resend_verification") 3 3 (15 * minute) (scope_ip ∷ scope_email ∷ [])
method_policy refresh_token_method =
    public_policy (codes "refresh_token") 30 10 minute (scope_ip ∷ [])
method_policy get_my_profile_method = user_policy (codes "user_read") 60 120 minute
method_policy update_my_profile_method = user_policy (codes "user_write") 30 60 minute
method_policy change_my_password_method = user_policy (codes "change_password") 5 5 rate_hour
method_policy list_users_method = user_policy (codes "admin_read") 120 200 minute
method_policy get_user_detail_method = user_policy (codes "admin_read") 120 200 minute
method_policy create_user_method = user_policy (codes "admin_write") 60 80 minute
method_policy update_user_method = user_policy (codes "admin_write") 60 80 minute
method_policy delete_user_method = user_policy (codes "admin_dangerous") 20 20 minute
method_policy restore_user_method = user_policy (codes "admin_dangerous") 20 20 minute
method_policy update_user_role_method = user_policy (codes "admin_dangerous") 20 20 minute
method_policy _ = default_policy

abbrev pub or_user : List KeyScope → List KeyScope
or_user [] = scope_user ∷ []
or_user (s ∷ ss) = s ∷ ss

-- a policy without a burst or a scope gets one; each has a phase
unfoldable pub normalize_policy : Policy → Policy
normalize_policy p = record p {
  burst = if p.burst == 0 then p.limit else p.burst;
  scopes = or_user p.scopes;
}

-- PolicyForMethod: normalising the default policy changes nothing
unfoldable pub policy_for_method : Method → Policy
unfolding method_policy default_policy normalize_policy
policy_for_method m = normalize_policy (method_policy m)

-- NewKeyBuilder
unfoldable pub new_key_builder : Text → Text
new_key_builder prefix =
    if is_empty (trim_space prefix) then codes "portal:rl" else trim_space prefix

abbrev pub scope_text : KeyScope → Text
scope_text scope_ip = codes "ip"
scope_text scope_user = codes "user"
scope_text scope_identifier = codes "identifier"
scope_text scope_email = codes "email"

unfoldable pub normalize_key : World → Text → Text
normalize_key w s = to_lower w.env.lower (trim_space s)

abbrev pub or_unknown : Text → Text
or_unknown s = if is_empty s then codes "unknown" else s

-- KeyBuilder.Build, with the first 32 digits of the value's hash
unfoldable pub build_key : World → Text → Text → KeyScope → Text → Text
unfolding normalize_key
build_key w prefix policy scope value =
    prefix
    ++ (0x3A
        ∷ (normalize_key w policy
            ++ (0x3A
                ∷ (scope_text scope
                    ++ (0x3A ∷ take 32 (w.env.sha256_hex (or_unknown (normalize_key w value))))))))
