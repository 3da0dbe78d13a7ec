-- ===== src/Users.antt =====
-- internal/hades/storage/db/user/sqlite/sqlite.go: the table users, one function per statement.
-- Identifiers are in the stored spelling; times are those of the callers.
use hades.Effects.{Reply, failed, found_or_none, no_rows, replied, unique_violation}
use hades.Prelude.{
  Bool, Bytes, List, Option, [], any, arith, count, drop, false, if◌then◌else◌, keep, ltb, none,
  not, refl, some, take, true, ℕ, ◌&&◌, ◌++◌, ◌+◌, ◌==◌, ◌||◌, ◌∷◌, ◌≡◌, nat_eq, bytes_eq,
  string_eq,
}
use hades.Text.{has_prefix, is_empty, to_lower}

-- identityv1.UserType
pub data UserType : Type 0 where
  type_organization type_user : UserType

-- A row of the table users.
pub record UserRow : Type 0 where
  pub id : Bytes
  pub username : Bytes
  pub email : Bytes
  pub password : Bytes
  pub kind : UserType
  pub description : Bytes
  pub url : Bytes
  pub email_verified_at : Option ℕ
  pub failed_login_count : ℕ
  pub locked_until : Option ℕ

abbrev pub is_user : UserType → Bool
is_user type_user = true
is_user type_organization = false

-- The first row that a condition picks, which the unique columns make the only one.
unfoldable pub find_user : (UserRow → Bool) → List UserRow → Option UserRow
find_user p [] = none
find_user p (u ∷ us) = let rest = find_user p us in if p u then some u else rest

unfoldable pub get_by_username : Bytes → List UserRow → Reply UserRow
get_by_username name us = found_or_none (find_user (λ u. u.username == name) us)

unfoldable pub get_by_id : Bytes → List UserRow → Reply UserRow
get_by_id id us = found_or_none (find_user (λ u. u.id == id) us)

-- GetByEmail, for users only and never for the empty address
unfoldable pub get_by_email : Bytes → List UserRow → Reply UserRow
get_by_email email us =
    if is_empty email
    then failed no_rows
    else found_or_none (find_user (λ u. u.email == email && is_user u.kind) us)

-- The constraints of the table: usernames are unique, and so are email addresses but the empty one.
abbrev pub conflicts : UserRow → UserRow → Bool
conflicts new u = u.username == new.username || (not (is_empty new.email) && u.email == new.email)

-- INSERT INTO users
unfoldable pub insert_user : UserRow → List UserRow → Reply (Unit {0}) × List UserRow
insert_user new us =
    if any (conflicts new) us then (failed unique_violation, us) else (replied tt, us ++ new ∷ [])

-- UPDATE users SET ... WHERE id = ?
unfoldable pub update_user_row : Bytes → (UserRow → UserRow) → List UserRow → List UserRow
update_user_row id f [] = []
update_user_row id f (u ∷ us) = (if u.id == id then f u else u) ∷ update_user_row id f us

abbrev pub increment_failed_logins : UserRow → UserRow
increment_failed_logins u = record u { failed_login_count = u.failed_login_count + 1 }

abbrev pub reset_failed_logins : UserRow → UserRow
reset_failed_logins u = record u { failed_login_count = 0; locked_until = none }

abbrev pub lock_until : ℕ → UserRow → UserRow
lock_until t u = record u { locked_until = some t }

abbrev pub set_email_verified : ℕ → UserRow → UserRow
set_email_verified now u = record u { email_verified_at = some now }

abbrev pub update_password : Bytes → UserRow → UserRow
update_password hash u = record u { password = hash }

abbrev pub update_profile : Bytes → Bytes → UserRow → UserRow
update_profile description url u = record u { description = description; url = url }

-- username LIKE '%query%', which ignores the case of ASCII letters
unfoldable pub is_like : Bytes → Bytes → Bool
is_like [] query = is_empty query
is_like (c ∷ s) query = has_prefix (to_lower (c ∷ s)) (to_lower query) || is_like s query

-- ORDER BY username
unfoldable pub bytes_leb : Bytes → Bytes → Bool
bytes_leb [] t = true
bytes_leb (c ∷ s) [] = false
bytes_leb (c ∷ s) (d ∷ t) = ltb c d || (c == d && bytes_leb s t)

module _ {ℓ} {A : Type ℓ} (key : A → Bytes) where
  unfoldable pub place : A → List A → List A
  place x [] = x ∷ []
  place x (y ∷ ys) =
      let rest = place x ys in if bytes_leb (key x) (key y) then x ∷ y ∷ ys else y ∷ rest

  unfoldable pub order_by : List A → List A
  order_by [] = []
  order_by (x ∷ xs) = place x (order_by xs)

  count-place : (p : A → Bool) (x : A) (xs : List A) → count p (place x xs) ≡ count p (x ∷ xs)
  unfolding place
  count-place p x [] = refl
  count-place p x (y ∷ ys) = ground (arith, count-place p x ys)

  pub count-order_by : (p : A → Bool) (xs : List A) → count p (order_by xs) ≡ count p xs
  unfolding order_by
  count-order_by p [] = refl
  count-order_by p (x ∷ xs) = ground (arith, count-place p x (order_by xs), count-order_by p xs)

-- SELECT ... LIMIT ? OFFSET ?
abbrev pub page_of {ℓ} : {A : Type ℓ} → ℕ → ℕ → List A → List A
page_of limit offset xs = take limit (drop offset xs)

-- List(query, limit, offset) over the rows of one type
unfoldable pub list_users : (UserRow → Bool) → Bytes → ℕ → ℕ → List UserRow → List UserRow
list_users of_type query limit offset us = page_of limit offset (
    order_by (λ (u : UserRow). u.username)
      (keep (λ u. of_type u && (is_empty query || is_like u.username query)) us))
