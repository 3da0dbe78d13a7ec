-- ===== src/Auth/DeviceTests.antt =====
-- Runs of the device flow on one grant.
use hades.Effects.{ask, call, consult, transaction, within}
use hades.Effects.Laws.{Ends}
use hades.Result.{err, failed_precondition, invalid_argument, ok}
use hades.Prelude.{List, [], bytes_beq, codes, refl, some, true, ◌+◌, ◌∷◌, ◌≡◌, ◌≤◌}
use hades.Maps.{lookup}
use hades.Interceptor.Stores.{User, state_active}
use hades.Auth.Tables.{AuthTables, GrantRow, insert_row}
use hades.Auth.Login.{enforce_limit}
use hades.Auth.Devices.{
  DeviceEnv, approve_device_grant, create_grant, grant_where, issue_token, issued, new_grant,
  pending, poll_approved, poll_device_token, put_grants, request_device_code, update_grants,
  user_code_from,
}
use hades.Auth.Grants.{IsBefore}
use hades.Auth.Polls.{Polled, poll_device_token_sound}
use hades.Auth.SingleToken.{DeviceCall, approves, issues, perform, single_token, tokens_issued}

abbrev device_env : DeviceEnv
device_env = record {
  limiter = some (ok true);
  generate_token = some (codes "pat", codes "pat-hash");
  draw = λ i. some (65 + i);
  hash_token = λ token. token;
  new_id = codes "n";
  host = codes "hades.dev";
}

abbrev no_grants : AuthTables
no_grants = record {
  users = [];
  sessions = [];
  resets = [];
  verifications = [];
  tokens = [];
  grants = [];
}

abbrev requested_grant : GrantRow
requested_grant = new_grant (codes "g") (codes "dev") (codes "ABCD-EFGH") 900

abbrev approved_grant : GrantRow
approved_grant = record requested_grant { user_id = some (codes "d"); approved_at = some 5 }

abbrev one_grant : GrantRow → AuthTables
one_grant g = put_grants (g ∷ []) no_grants

abbrev dora : User
dora = record { id = codes "d"; username = codes "dora"; state = state_active }

-- A poll waits for the approval, then answers once; the code is checked for its expiry, and a
-- second approval is refused.
device_tests :
    ((request_device_code device_env 0 ([], no_grants)).0
      ≡ ok (record {
        device_code = codes "pat";
        user_code = codes "ABCD-EFGH";
        url = codes "https://hades.dev/device";
      }))
    × ((poll_device_token device_env 10 (codes "dev") ([], one_grant requested_grant)).0
        ≡ ok pending)
    × ((poll_device_token device_env 10 (codes "dev") ([], one_grant approved_grant)).0
        ≡ ok (issued (codes "pat")))
    × ((poll_device_token device_env 901 (codes "dev") ([], one_grant approved_grant)).0
        ≡ err invalid_argument)
    × ((poll_device_token device_env 10
          (codes "dev")
          (poll_device_token device_env 10 (codes "dev") ([], one_grant approved_grant)).1).0
        ≡ err failed_precondition)
    × ((approve_device_grant device_env 5
          (some dora)
          (codes "ABCD-EFGH")
          ([], one_grant requested_grant)).1.1
        ≡ one_grant approved_grant)
    × ((approve_device_grant device_env 5
          (some dora)
          (codes "ABCD-EFGH")
          ([], one_grant approved_grant)).0
        ≡ err failed_precondition)
unfolding request_device_code poll_device_token poll_approved approve_device_grant issue_token
    user_code_from create_grant grant_where update_grants enforce_limit insert_row transaction
    within ask call consult lookup bytes_beq
device_tests = (refl, refl, refl, refl, refl, refl, refl)

-- Two polls that read the grant before either wrote.
abbrev race : List DeviceCall
race =
    approves device_env 5 (some dora) (codes "ABCD-EFGH")
    ∷ issues device_env approved_grant (codes "d") (codes "h1")
    ∷ issues device_env approved_grant (codes "d") (codes "h2")
    ∷ []

race_test : tokens_issued (codes "g") race ([], one_grant requested_grant) ≡ 1
unfolding tokens_issued perform approve_device_grant issue_token grant_where update_grants
    enforce_limit insert_row transaction within ask call consult lookup bytes_beq
race_test = refl

poll_device_token_sound_example :
    Ends
      (IsBefore (one_grant approved_grant))
      (Polled (one_grant approved_grant) device_env 10 (codes "dev"))
      (poll_device_token device_env 10 (codes "dev") ([], one_grant approved_grant))
poll_device_token_sound_example =
    poll_device_token_sound device_env 10 (codes "dev") ([], one_grant approved_grant)

single_token_example : tokens_issued (codes "g") race ([], one_grant requested_grant) ≤ 1
single_token_example =
    single_token (codes "g") race ([], one_grant requested_grant) (tt, (tt, (tt, tt)))
