-- ===== src/Auth/Tables.antt =====
-- The tables of the auth handlers, with one function per statement: storage/db/session,
-- passwordreset, emailverification, apitoken and devicegrant, all in internal/hades, sqlite.
-- Rows stand under the hash of their token, which is unique.
use hades.Effects.{Reply, failed, found_or_none, replied, unique_violation}
use hades.Prelude.{
  Bool, Bytes, List, Option, [], if◌then◌else◌, is_some, none, not, some, ℕ, ◌&&◌, ◌++◌, ◌==◌, ◌∷◌,
  nat_eq, bytes_eq, string_eq,
}
use hades.Maps.{Assoc, lookup}
use hades.Users.{UserRow}
use hades.Interceptor.Stores.{SessionRow, TokenRow}

-- A row of password_resets or email_verifications.
pub record OneTimeRow : Type 0 where
  pub id : Bytes
  pub user_id : Bytes
  pub expires_at : ℕ
  pub used_at : Option ℕ

-- devicegrant.Row
pub record GrantRow : Type 0 where
  pub id : Bytes
  pub device_code_hash : Bytes
  pub user_code : Bytes
  pub expires_at : ℕ
  pub user_id : Option Bytes
  pub approved_at : Option ℕ
  pub api_token_id : Option Bytes

pub record AuthTables : Type 0 where
  pub users : List UserRow
  pub sessions : Assoc SessionRow
  pub resets : Assoc OneTimeRow
  pub verifications : Assoc OneTimeRow
  pub tokens : Assoc TokenRow
  pub grants : List GrantRow

abbrev pub change {ℓ} : {A : Type ℓ} → (A → Bool) → (A → A) → A → A
change p f a = if p a then f a else a

-- UPDATE ... WHERE
unfoldable pub update_where {ℓ} : {A : Type ℓ} → (A → Bool) → (A → A) → Assoc A → Assoc A
update_where p f [] = []
update_where p f ((hash, a) ∷ rows) = (hash, change p f a) ∷ update_where p f rows

abbrev pub append_unless {ℓ} :
    {A : Type ℓ} → Option A → Bytes → A → Assoc A → Reply (Unit {0}) × Assoc A
append_unless (some b) hash a rows = (failed unique_violation, rows)
append_unless none hash a rows = (replied tt, rows ++ (hash, a) ∷ [])

-- INSERT INTO a table whose token_hash is unique
unfoldable pub insert_row {ℓ} : {A : Type ℓ} → Bytes → A → Assoc A → Reply (Unit {0}) × Assoc A
insert_row hash a rows = append_unless (lookup hash rows) hash a rows

-- GetByTokenHash
abbrev pub row_by_hash {ℓ} : {A : Type ℓ} → Bytes → Assoc A → Reply A
row_by_hash hash rows = found_or_none (lookup hash rows)

-- RevokeAllForUser with no exception
abbrev pub revoke_session : ℕ → SessionRow → SessionRow
revoke_session now s = record s { revoked_at = some now }

abbrev pub is_open : Bytes → SessionRow → Bool
is_open user_id s = s.user_id == user_id && not (is_some s.revoked_at)

unfoldable pub revoke_all_for_user : Bytes → ℕ → Assoc SessionRow → Assoc SessionRow
revoke_all_for_user user_id now sessions =
    update_where (is_open user_id) (revoke_session now) sessions

-- Revoke(id)
unfoldable pub revoke_by_id : Bytes → ℕ → Assoc SessionRow → Assoc SessionRow
revoke_by_id id now sessions = update_where (λ s. s.id == id) (revoke_session now) sessions

abbrev pub spend : ℕ → OneTimeRow → OneTimeRow
spend now r = record r { used_at = some now }

-- MarkUsed, which does not ask whether the row was used before
unfoldable pub mark_used : Bytes → ℕ → Assoc OneTimeRow → Assoc OneTimeRow
mark_used id now rows = update_where (λ r. r.id == id) (spend now) rows

-- InvalidateForUser
unfoldable pub invalidate_for_user : Bytes → ℕ → Assoc OneTimeRow → Assoc OneTimeRow
invalidate_for_user user_id now rows =
    update_where (λ r. r.user_id == user_id && not (is_some r.used_at)) (spend now) rows

abbrev pub on_users : (List UserRow → List UserRow) → AuthTables → AuthTables
on_users f t = record t { users = f t.users }

abbrev pub on_sessions : (Assoc SessionRow → Assoc SessionRow) → AuthTables → AuthTables
on_sessions f t = record t { sessions = f t.sessions }

abbrev pub on_resets : (Assoc OneTimeRow → Assoc OneTimeRow) → AuthTables → AuthTables
on_resets f t = record t { resets = f t.resets }

abbrev pub on_verifications : (Assoc OneTimeRow → Assoc OneTimeRow) → AuthTables → AuthTables
on_verifications f t = record t { verifications = f t.verifications }

abbrev pub put_sessions :
    AuthTables → Reply (Unit {0}) × Assoc SessionRow → Reply (Unit {0}) × AuthTables
put_sessions t (reply, sessions) = (reply, record t { sessions = sessions })

abbrev pub put_tokens :
    AuthTables → Reply (Unit {0}) × Assoc TokenRow → Reply (Unit {0}) × AuthTables
put_tokens t (reply, tokens) = (reply, record t { tokens = tokens })

abbrev pub put_resets :
    AuthTables → Reply (Unit {0}) × Assoc OneTimeRow → Reply (Unit {0}) × AuthTables
put_resets t (reply, resets) = (reply, record t { resets = resets })

abbrev pub put_verifications :
    AuthTables → Reply (Unit {0}) × Assoc OneTimeRow → Reply (Unit {0}) × AuthTables
put_verifications t (reply, rows) = (reply, record t { verifications = rows })

abbrev pub put_users : AuthTables → Reply (Unit {0}) × List UserRow → Reply (Unit {0}) × AuthTables
put_users t (reply, us) = (reply, record t { users = us })
