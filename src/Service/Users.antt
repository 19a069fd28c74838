-- ===== src/Service/Users.antt =====
-- internal/service/user.go: the profile of an account and the change of its password.
use jd_shop_server.Common.{ℕ, String, Bool, not, Option, none, some, str_eq, if◌then◌else◌}
use jd_shop_server.Model.{User, UpdateProfileRequest, ChangePasswordRequest}
use jd_shop_server.Db.{
  user_not_found, wrong_password, M, pure, fail, ◌>>=◌, ◌>>◌, reject, ignore_error,
}
use jd_shop_server.Repository.Users
use jd_shop_server.Repository.Tokens
use jd_shop_server.Service.Packages.{Packages}
use jd_shop_server.Service.Access.{evaluate}
use jd_shop_server.Service.Sms.{verify_code, purpose_password_reset}
use jd_shop_server.Service.Auth.{Context, or_storage}

abbrev is_blank_text : String → Bool
is_blank_text s = str_eq s ""

abbrev non_blank : String → Option String
non_blank s = if is_blank_text s then none else some s

unfoldable pub user_or_fail : Option User → M User
user_or_fail none = fail user_not_found
user_or_fail (some user) = pure user

module _ (k : Packages) (c : Context) where
  unfoldable pub get_profile : ℕ → M User
  get_profile id = do
    found ← Users.find_by_id id
    user ← user_or_fail found
    access ← evaluate c.config.super_admin_username user c.now
    pure (record user { access = access })

  unfoldable pub update_profile : ℕ → UpdateProfileRequest → M User
  update_profile id req = do
    Users.update_profile id (non_blank req.nickname) (non_blank req.email)
        (non_blank req.avatar_url) c.now
    get_profile id

  -- `user.Phone != nil && *user.Phone != ""`.
  abbrev phone_to_verify : Option String → Option String
  phone_to_verify none = none
  phone_to_verify (some p) = non_blank p

  -- A user with a phone proves it by a code, any other by the old password.
  unfoldable pub prove_identity : User → ChangePasswordRequest → Option String → M (Unit {0})
  prove_identity user req (some phone) =
      verify_code k phone purpose_password_reset req.sms_code c.now
  prove_identity user req none = do
    reject (is_blank_text req.old_password) wrong_password
    reject (not (k.compare_hash user.password_hash req.old_password)) wrong_password

  unfoldable pub change_password : ℕ → ChangePasswordRequest → M (Unit {0})
  change_password id req = do
    found ← Users.find_by_id id
    user ← user_or_fail found
    prove_identity user req (phone_to_verify user.phone)
    hash ← or_storage (k.generate_hash req.new_password)
    Users.update_password id hash c.now
    ignore_error (Tokens.revoke_all_for_user id)
