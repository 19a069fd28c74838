-- ===== src/Examples/Console.antt =====
-- The console, verification codes and access.
use jd_shop_server.Common.{
  ◌≡◌, ◌≢◌, refl, [], ◌∷◌, some, none, true, false, not, ◌&&◌, ◌==◌, trim_space, ltb, ◌+◌, ◌*◌, ◌/◌,
}
use jd_shop_server.Time.{nanos, seconds_per_day}
use jd_shop_server.Model.{
  SmsVerification, AccessPolicy, AccountAccess, UpdateUserAccessRequest, UpdateRoleRequest, instant,
}
use jd_shop_server.Db.{ok, World, Db, calm, RegistrationDefaultsRow}
use jd_shop_server.Service.Access.{access_of, evaluate}
use jd_shop_server.Service.Access.Defaults.{evaluate_by_default}
use jd_shop_server.Hub.{new_control_hub}
use jd_shop_server.Service.Access.Lease.{has_passed, reason_of, access_of-allowed}
use jd_shop_server.Service.Sms.{matches_phone, verify_code, purpose_register}
use jd_shop_server.Service.Sms.Codes.{Acceptable, use_up, verify_code-ok, verify_code_once}
use jd_shop_server.Examples.Data.{
  packages, world, tables, noon, disabled_world, policy, next_day, ann,
}

unfoldable coded_world : World
unfolding disabled_world
coded_world = (verify_code packages " 13812345678 " purpose_register "123456" noon world).1

verify_code-ok_example :
    (matches_phone (trim_space " 13812345678 ") ≡ true)
    × (row : SmsVerification) × Acceptable packages
        (trim_space " 13812345678 ")
        purpose_register
        "123456"
        noon
        tables
        row
    × (coded_world.db ≡ use_up row.id tables)
unfolding coded_world trim_space
verify_code-ok_example =
    verify_code-ok packages " 13812345678 " purpose_register "123456" noon world {w' = coded_world}
      refl

verify_code_once_example :
    verify_code packages "13812345678" purpose_register "123456" noon coded_world ≢ (ok tt, world)
unfolding coded_world trim_space
verify_code_once_example =
    verify_code_once packages "13812345678" purpose_register "123456" "123456" noon noon world
      {w' = coded_world} refl

-- Two days later the policy has run out.
access_of-allowed_example :
    ((access_of 1 policy (noon + 172_800 * nanos)).allowed
      ≡ (1 == 1 && not (has_passed policy.expires_at (noon + 172_800 * nanos))))
    × ((access_of 1 policy (noon + 172_800 * nanos)).reason
        ≡ reason_of 1 (has_passed policy.expires_at (noon + 172_800 * nanos)))
access_of-allowed_example = access_of-allowed 1 policy (noon + 172_800 * nanos)

-- A week for every new account.
abbrev week : RegistrationDefaultsRow
week = record {
  usage_days = 7;
  competitor_monitor = 1;
  merchant_backend = 0;
  analysis_center = 0;
  updated_at = next_day;
}

abbrev week_tables : Db
week_tables = record tables { access_control = []; registration_defaults = week ∷ [] }

evaluate_by_default_example :
    (p : AccessPolicy) × (first : AccountAccess) × (later : AccountAccess) × (evaluate "root" ann
        noon
        (calm week_tables new_control_hub)
      ≡ (ok first, calm (record week_tables { access_control = p ∷ [] }) new_control_hub))
    × (evaluate "root" ann
          (noon + 1)
          (calm (record week_tables { access_control = p ∷ [] }) new_control_hub)
        ≡ (ok later, calm (record week_tables { access_control = p ∷ [] }) new_control_hub))
    × (p.user_id ≡ 7)
    × (first.allowed ≡ true)
    × (later.allowed ≡ ltb (noon + 1) ((noon / nanos + 7 * seconds_per_day + 1) * nanos))
    × (later.modules
        ≡ record { competitor_monitor = true; merchant_backend = false; analysis_center = false })
unfolding disabled_world
evaluate_by_default_example =
    evaluate_by_default "root" ann noon (noon + 1) week [] week_tables new_control_hub refl refl
      refl refl

abbrev access_request : UpdateUserAccessRequest
access_request = record {
  competitor_monitor = true;
  merchant_backend = false;
  analysis_center = false;
  expires_at = some (instant next_day);
}

abbrev rename : UpdateRoleRequest
rename = record { name = some "member"; description = none; permission_ids = none }
