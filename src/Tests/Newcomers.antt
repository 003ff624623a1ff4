-- ===== src/Tests/Newcomers.antt =====
-- A user who registers, and one who opens a workspace later.
use tteeka.Prelude.{ℕ, ◌+◌, ◌≡◌, refl, true, false, Option, some, none, length, any}
use tteeka.Prelude.Table.{find, filter, update_where}
use tteeka.Schema.{Db, OnboardingKind}
use tteeka.Store.{Env, ok}
use tteeka.Authorization.{is_permission, has_key, is_merchant}
use tteeka.AccessManagement.Roles.{assignable_permissions}
use tteeka.AccessManagement.Permitted.{IsKeyed}
use tteeka.Auth.{IssuedLogin, has_phone, is_credential_of, has_token_hash, login}
use tteeka.Onboarding.{
  Requests, RegistrationRequest, OnboardingResult, upsert_permission, upsert_all,
  sync_application_permissions, is_command, write_workspace, create_workspace_graph, insert_command,
  open_workspace, create_initial_workspace, register_phone, register_locked, register,
}
use tteeka.Onboarding.Catalog.{application_permission_catalog, application_permission_keys}
use tteeka.Onboarding.Owner.{IsUnused}
use tteeka.Onboarding.Owner.Counted.{has_distinct_keys}
use tteeka.Onboarding.Registered.{met, IsOwner, create_initial_workspace-IsOwner, register-login}
use tteeka.Tests.{shop}
use tteeka.Tests.Sessions.{security, metadata}

abbrev counting : Env
counting = record {
  fresh_id = λ db. 100 + length db.access.permissions;
  db_now = λ db. 100;
  waited = λ db. db;
}

abbrev requests : Requests
requests = record {
  registration_hash = λ input. 1;
  workspace_hash = λ name. 2;
  default_currency = 800;
}

abbrev synced : Db
synced = met counting shop

synced-IsKeyed : IsKeyed synced.access.permissions synced.access.permissions
unfolding sync_application_permissions upsert_all upsert_permission application_permission_catalog
    update_where find is_permission
synced-IsKeyed = (
  refl,
  (
    refl,
    (
      refl,
      (
        refl,
        (
          refl,
          (
            refl,
            (
              refl,
              (
                refl,
                (
                  refl,
                  (
                    refl,
                    (
                      refl,
                      (
                        refl,
                        (refl, (refl, (refl, (refl, (refl, (refl, (refl, (refl, (refl, tt))))))))),
                      ),
                    ),
                  ),
                ),
              ),
            ),
          ),
        ),
      ),
    ),
  ),
)

synced_distinct : has_distinct_keys synced.access.permissions ≡ true
unfolding sync_application_permissions upsert_all upsert_permission application_permission_catalog
    update_where has_distinct_keys has_key
synced_distinct = refl

synced-IsUnused : IsUnused 121 synced.access
unfolding sync_application_permissions upsert_all upsert_permission application_permission_catalog
    is_merchant
synced-IsUnused = record {
  no_merchant = refl;
  no_member = refl;
  no_role = refl;
  no_assignment = refl;
  no_permission = refl;
}

abbrev result : OnboardingResult
result = record {
  user_id = 5;
  merchant_id = 121;
  display_name = "Kampala Styles";
  membership_id = 121;
}

abbrev created : Db
created = (create_initial_workspace counting requests 5 "Kampala Styles" 7 shop).1

create_run :
    create_initial_workspace counting requests 5 "Kampala Styles" 7 shop ≡ (ok result, created)
unfolding create_initial_workspace open_workspace create_workspace_graph write_workspace
    insert_command is_command sync_application_permissions upsert_all upsert_permission
    application_permission_catalog application_permission_keys assignable_permissions has_key
    update_where find filter
create_run = refl

no_command :
    (kind : OnboardingKind) (subject : Option ℕ)
    → find (is_command kind subject 7) synced.access.commands ≡ none
unfolding sync_application_permissions upsert_all upsert_permission application_permission_catalog
    find
no_command kind subject = refl

create_initial_workspace-IsOwner_example : (result.user_id ≡ 5) × IsOwner 5 121 created.access
create_initial_workspace-IsOwner_example =
    create_initial_workspace-IsOwner counting requests 5 "Kampala Styles" 7 shop create_run
      (no_command OnboardingKind.workspace (some 5)) synced-IsUnused synced-IsKeyed synced_distinct

abbrev registration : RegistrationRequest
registration = record {
  name = "Okello";
  phone = "0770 000000";
  phone_e164 = "+256770000000";
  password = "a long password";
  business_name = "Kampala Styles";
}

abbrev registered : Db
registered = (register counting security requests registration 7 shop).1

abbrev welcome : OnboardingResult
welcome = record {
  user_id = 121;
  merchant_id = 121;
  display_name = "Kampala Styles";
  membership_id = 121;
}

register_run : register counting security requests registration 7 shop ≡ (ok welcome, registered)
unfolding register register_locked register_phone create_workspace_graph write_workspace
    insert_command is_command sync_application_permissions upsert_all upsert_permission
    application_permission_catalog application_permission_keys assignable_permissions has_key
    has_phone update_where find filter
register_run = refl

no_credential : any (is_credential_of 121) synced.access.credentials ≡ false
unfolding sync_application_permissions upsert_all upsert_permission application_permission_catalog
    is_credential_of
no_credential = refl

no_session :
    find (has_token_hash (security.random_token registered)) registered.access.sessions ≡ none
unfolding register register_locked register_phone create_workspace_graph write_workspace
    insert_command is_command sync_application_permissions upsert_all upsert_permission
    application_permission_catalog application_permission_keys assignable_permissions has_key
    has_phone update_where find filter
no_session = refl

verified : security.verify_password registration.password registration.password ≡ true
verified = refl

register-login_example :
    ((l : IssuedLogin) × ((login counting security "+256770000000" "a long password" metadata 2000
          registered).0
        ≡ ok l)
      × (l.user_id ≡ 121))
    × IsOwner 121 121 registered.access
register-login_example =
    register-login counting security requests registration 7 metadata 2000 shop register_run
      (no_command OnboardingKind.register none) synced-IsUnused no_credential synced-IsKeyed
      synced_distinct verified refl no_session
