-- ===== src/Auth/Tests.antt =====
-- Runs of the auth handlers on one account.
use hades.Effects.{ask, call, consult, replied, transaction, within}
use hades.Effects.Laws.{Ends}
use hades.Result.{err, ok, unauthenticated}
use hades.Prelude.{
  Bytes, List, [], arith, bytes_beq, codes, false, length, none, refl, some, true, ℕ, ◌∷◌, ◌≡◌, ◌≤◌,
}
use hades.Text.{to_lower}
use hades.Maps.{lookup}
use hades.Users.{UserRow, find_user, get_by_username, type_user, update_user_row}
use hades.Auth.Tables.{AuthTables, OneTimeRow, insert_row, revoke_all_for_user, update_where}
use hades.Auth.Sessions.{or_missing}
use hades.Auth.Login.{
  LoginConfig, Surroundings, attempts_allowed, check_password, enforce_limit, lock_if_exhausted,
  login, open_session, wrong_password,
}
use hades.Auth.Passwords.{Outside, PasswordConfig, check_one_time, reset_password, spend_reset}
use hades.Auth.Lockout.{IsAccount, guesses, guesses_bounded}
use hades.Auth.Access.{Admitted, Opened, SameSessions, login_sound}
use hades.Auth.Recovery.{
  Recovered, Unrevoked, reset_password_ends_sessions, reset_password_once, reset_password_recovers,
}
use hades.Interceptor.Stores.{SessionRow, Stores, missing}
use hades.Interceptor.Sessions.{resolve_session}

abbrev carol : UserRow
carol = record {
  id = codes "c";
  username = codes "carol";
  email = codes "c@x.org";
  password = codes "right";
  kind = type_user;
  description = [];
  url = [];
  email_verified_at = some 1;
  failed_login_count = 0;
  locked_until = none;
}

abbrev open_row : SessionRow
open_row = record {
  id = codes "s";
  user_id = codes "c";
  last_activity_at = 0;
  absolute_expires_at = 900;
  idle_expires_at = 900;
  revoked_at = none;
  totp_verified = false;
}

abbrev reset_row : OneTimeRow
reset_row = record { id = codes "r"; user_id = codes "c"; expires_at = 500; used_at = none }

abbrev tables : AuthTables
tables = record {
  users = carol ∷ [];
  sessions = (codes "old", open_row) ∷ [];
  resets = (codes "link", reset_row) ∷ [];
  verifications = [];
  tokens = [];
  grants = [];
}

abbrev config : LoginConfig
config = record {
  max_attempts = 2;
  cooldown_minutes = 0;
  idle_timeout_days = 0;
  absolute_timeout_days = 0;
}

abbrev surroundings : Surroundings
surroundings = record {
  limiter = some (ok true);
  compare_hash = bytes_beq;
  generate_token = some (codes "tok", codes "hash");
  totp_required = λ id. false;
  new_id = codes "n";
}

abbrev password_config : PasswordConfig
password_config = record {
  min_length = 3;
  auto_verify = false;
  verification_hours = 0;
  reset_hours = 0;
  has_resets = true;
  has_verifications = true;
  has_sender = true;
}

abbrev outside : Outside
outside = record {
  limiter = some (ok true);
  hash_token = λ raw. raw;
  hash_password = λ p. some p;
  compare_hash = bytes_beq;
  generate_token = some (codes "raw", codes "hash");
  new_id = codes "n";
  bind = λ name t. (replied tt, t);
}

-- Two wrong passwords lock the account, and the right one does not help then.
login_tests :
    ((login config surroundings 10 (codes "Carol") (codes "right") ([], tables)).0
      ≡ ok (record { token = codes "tok"; pending_totp = false }))
    × (length
          (login config surroundings 10 (codes "carol") (codes "right") ([], tables)).1.1.sessions
        ≡ 2)
    × (guesses config surroundings
          (codes "carol")
          ((10, codes "a") ∷ (11, codes "b") ∷ (12, codes "c") ∷ (13, codes "right") ∷ [])
          tables
        ≡ 2)
    × ((login config surroundings 10 (codes "dave") (codes "right") ([], tables)).0
        ≡ err unauthenticated)
unfolding login enforce_limit consult call ask get_by_username find_user to_lower check_password
    wrong_password lock_if_exhausted open_session insert_row update_user_row guesses lookup
    bytes_beq
login_tests = (refl, refl, refl, refl)

login_sound_example :
    Ends
      (SameSessions config surroundings 10 tables)
      (λ response t'.
        (u : UserRow) × Admitted config surroundings 10 tables (codes "carol") (codes "right") u
        × Opened config surroundings 10 tables u response t')
      (login config surroundings 10 (codes "carol") (codes "right") ([], tables))
login_sound_example = login_sound config surroundings 10 (codes "carol") (codes "right") [] tables

abbrev wrong_attempts : List (ℕ × Bytes)
wrong_attempts = (10, codes "a") ∷ (11, codes "b") ∷ (12, codes "c") ∷ []

tables-IsAccount : IsAccount (codes "carol") tables carol
unfolding get_by_username find_user to_lower bytes_beq
tables-IsAccount = refl

guesses_bounded_example :
    guesses config surroundings (codes "carol") wrong_attempts tables ≤ attempts_allowed config
unfolding bytes_beq
guesses_bounded_example =
    guesses_bounded config surroundings (codes "carol") wrong_attempts 10 tables carol refl
      tables-IsAccount refl refl
      (
        (omega arith, omega arith, refl),
        ((omega arith, omega arith, refl), ((omega arith, omega arith, refl), tt)),
      )

reset_password_recovers_example :
    Ends
      (Unrevoked tables outside 20 (codes "link") (codes "newer"))
      (λ u. Recovered tables outside 20 (codes "link") (codes "newer"))
      (reset_password password_config outside 20 (codes "link") (codes "newer") ([], tables))
reset_password_recovers_example =
    reset_password_recovers password_config outside 20 (codes "link") (codes "newer") [] tables

reset_succeeds :
    (reset_password password_config outside 20 (codes "link") (codes "newer") ([], tables)).0
    ≡ ok tt
unfolding reset_password enforce_limit consult call ask check_one_time spend_reset transaction
    within lookup bytes_beq
reset_succeeds = refl

reset_password_once_example : ¬ (
    (reset_password password_config outside 30 (codes "link") (codes "other") (
      [],
      (reset_password password_config outside 20 (codes "link") (codes "newer") ([], tables)).1.1,
    )).0
    ≡ ok tt)
reset_password_once_example =
    reset_password_once password_config password_config outside 20 30 (codes "link") (codes "newer")
      (codes "other") [] [] tables reset_succeeds

abbrev stores : Stores
stores = record {
  hash_token = λ raw. raw;
  session_by_hash = some (λ hash. or_missing (
      lookup hash
        (reset_password password_config outside 20 (codes "link") (codes "newer")
          ([], tables)).1.1.sessions));
  token_by_hash = none;
  user_by_id = λ id. missing;
  auth_fields_by_id = λ id. missing;
  totp_by_user = none;
}

reset_password_ends_sessions_example :
    resolve_session stores 30 (codes "old") "/hades.api.identity.v1.UserService/UpdateUser"
    ≡ err unauthenticated
unfolding reset_password enforce_limit consult call ask check_one_time spend_reset transaction
    within lookup revoke_all_for_user update_where bytes_beq
reset_password_ends_sessions_example =
    reset_password_ends_sessions password_config outside 20 (codes "link") (codes "newer") [] tables
      reset_row stores 30 (codes "old") "/hades.api.identity.v1.UserService/UpdateUser"
      (record open_row { revoked_at = some 20 }) refl refl refl refl refl
