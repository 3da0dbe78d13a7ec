-- ===== src/Identity/Redaction.antt =====
-- Which email addresses leave the server.
use hades.Effects.{Action, DbError, Statement, World, call, ◌>>=◌}
use hades.Effects.Laws.{
  Ends, Triple, Triple->>=, Triple-fail, Triple-refuse_if, Triple-return, Triple-run,
  Triple-trivial,
}
use hades.Result.{Code, Result, err, ok}
use hades.Prelude.{
  All, Bool, Bool-cases, Bytes, List, Option, [], arith, bytes_beq_iff, inl, inr, map, none, not,
  refl, some, ◌&&◌, ◌==◌, ◌∷◌, ◌≡◌, ◌⊎◌, nat_eq, bytes_eq, string_eq,
}
use hades.Identity.Tables.{Directory, OrgMember}
use hades.Identity.Profiles.{
  CountModules, GetUserResponse, IdentityUser, UserPage, get_user, get_user_orgs, list_org_members,
  list_organizations, list_page, list_users_page, member_shown, redact_email, redact_emails,
  scan_user,
}
use hades.Interceptor.Stores.{User, query}
use hades.Prelude.Int.{ℤ}
use hades.Text.{is_empty}
use hades.Users.{UserRow}
use hades.Paging.{page}

-- The record shows no address, or it is the caller's own.
abbrev pub IsOwnOrBare : Option User → IdentityUser → Type 0
IsOwnOrBare caller u = (u.email ≡ []) ⊎ ((me : User) × (caller ≡ some me) × (u.id ≡ me.id))

redact_email-IsOwnOrBare :
    (caller : Option User) (u : IdentityUser) → IsOwnOrBare caller (redact_email caller u)
unfolding redact_email
redact_email-IsOwnOrBare none u = inl refl
redact_email-IsOwnOrBare (some me) u = elim (Bool-cases (not (is_empty me.id) && u.id == me.id)) [
  | inl e ↦ rw e (inr (me, refl, ground (arith, e, bytes_beq_iff u.id me.id)))
  | inr e ↦ rw e (inl refl)
]

redact_emails-IsOwnOrBare :
    (caller : Option User) (us : List IdentityUser)
    → All (IsOwnOrBare caller) (redact_emails caller us)
unfolding redact_emails
redact_emails-IsOwnOrBare caller [] = tt
redact_emails-IsOwnOrBare caller (u ∷ us) =
    (redact_email-IsOwnOrBare caller u, redact_emails-IsOwnOrBare caller us)

members-IsOwnOrBare :
    (caller : Option User) (ms : List OrgMember)
    → All
        (IsOwnOrBare caller)
        (map (λ (m : IdentityUser × Bytes). m.0) (map (member_shown caller) ms))
members-IsOwnOrBare caller [] = tt
members-IsOwnOrBare caller (m ∷ ms) =
    (redact_email-IsOwnOrBare caller (scan_user m.user), members-IsOwnOrBare caller ms)

module _ {A : Type 0} where
  -- A reply, if there is one, shows no address but the caller's own.
  abbrev pub Shows : Option User → (A → List IdentityUser) → Action Directory A → Type 0
  Shows caller users action =
      Triple (λ d. Unit) action (λ d. Unit) (λ a d. All (IsOwnOrBare caller) (users a))

  after_call :
      {B : Type 0} (P : B → Type 0) (code : DbError → Code) (statement : Statement Directory A)
      (rest : A → Action Directory B)
      → ((a : A) → Triple (λ d. Unit) (rest a) (λ d. Unit) (λ b d. P b))
      → Triple (λ d. Unit) (call code statement >>= rest) (λ d. Unit) (λ b d. P b)
  after_call P code statement rest h =
      Triple->>= _ _ (λ a d. Unit) _ _ _ (Triple-trivial (call code statement)) h

list_page-Shows :
    (of_type : UserRow → Bool) (caller : Option User) (query : Bytes) (size : ℤ) (token : Bytes)
    → Shows caller (λ (p : UserPage). p.users) (list_page of_type caller query size token)
unfolding list_page page
list_page-Shows of_type caller query size token =
    after_call _ _ _ _ (λ us. Triple-return _ _ _ _ (λ d h. redact_emails-IsOwnOrBare caller _))

list_users_page-Shows :
    (caller : Option User) (query : Bytes) (size : ℤ) (token : Bytes)
    → Shows caller (λ (p : UserPage). p.users) (list_users_page caller query size token)
unfolding list_users_page
list_users_page-Shows none query size token = Triple-fail _ _ _ _ (λ d h. tt)
list_users_page-Shows (some caller) query size token =
    list_page-Shows _ (some caller) query size token

list_organizations-Shows :
    (caller : Option User) (query : Bytes) (size : ℤ) (token : Bytes)
    → Shows caller (λ (p : UserPage). p.users) (list_organizations caller query size token)
unfolding list_organizations
list_organizations-Shows caller query size token = list_page-Shows _ caller query size token

get_user_orgs-Shows :
    (caller : Option User) (username : Bytes)
    → Shows caller (λ us. us) (get_user_orgs caller username)
unfolding get_user_orgs
get_user_orgs-Shows caller username = after_call _ _ _ _ (λ user.
    after_call _ _ _ _ (λ orgs. Triple-return _ _ _ _ (λ d h. redact_emails-IsOwnOrBare caller _)))

list_org_members-Shows :
    (caller : Option User) (org_name : Bytes)
    → Shows caller
        (λ ms. map (λ (m : IdentityUser × Bytes). m.0) ms)
        (list_org_members caller org_name)
unfolding list_org_members
list_org_members-Shows none org_name = Triple-fail _ _ _ _ (λ d h. tt)
list_org_members-Shows (some caller) org_name = after_call _ _ _ _ (λ org.
    after_call _ _ _ _ (λ ms. Triple-return _ _ _ _ (λ d h. members-IsOwnOrBare (some caller) ms)))

get_user-Shows :
    (modules : CountModules) (caller : Option User) (username : Bytes)
    → Shows caller
        (λ (r : GetUserResponse). r.user ∷ r.organizations)
        (get_user modules caller username)
unfolding get_user
get_user-Shows modules caller username = after_call _ _ _ _ (λ user.
    Triple->>= _ _ (λ u d. Unit) _ _ _ (Triple-refuse_if _ _ _ _ _ (λ d h t. tt) (λ d h f. tt))
      (λ u. after_call _ _ _ _ (λ n. after_call _ _ _ _ (λ orgs.
        Triple-return _ _ _ _
          (λ d h. (redact_email-IsOwnOrBare caller _, redact_emails-IsOwnOrBare caller _))))))

module _ {A : Type 0} where
  -- The records of a reply, if there is one.
  abbrev pub records : (A → List IdentityUser) → Result A × World Directory → List IdentityUser
  records users (ok a, w) = users a
  records users (err c, w) = []

  shown_records :
      (caller : Option User) (users : A → List IdentityUser) (action : Action Directory A)
      (w : World Directory)
      → Shows caller users action
      → All (IsOwnOrBare caller) (records users (action w))
  shown_records caller users action w h = go (action w) (Triple-run _ _ _ _ w h tt)
    where
      go :
          (r : Result A × World Directory)
          → Ends (λ d. Unit) (λ a d. All (IsOwnOrBare caller) (users a)) r
          → All (IsOwnOrBare caller) (records users r)
      go (ok a, v) e = e
      go (err c, v) e = tt

-- GetUser, ListUsers, ListOrganizations, GetUserOrgs and ListOrgMembers: whichever statements fail,
-- each record of a reply has an empty email address or the identifier of a signed-in caller, whose
-- own record it then is.
pub emails_hidden :
    (modules : CountModules) (caller : Option User) (name query : Bytes) (size : ℤ) (token : Bytes)
    (w : World Directory)
    → All
        (IsOwnOrBare caller)
        (records (λ r. r.user ∷ r.organizations) (get_user modules caller name w))
      × All
          (IsOwnOrBare caller)
          (records (λ p. p.users) (list_users_page caller query size token w))
      × All
          (IsOwnOrBare caller)
          (records (λ p. p.users) (list_organizations caller query size token w))
      × All (IsOwnOrBare caller) (records (λ us. us) (get_user_orgs caller name w))
      × All (IsOwnOrBare caller) (
          records
            (λ ms. map (λ (m : IdentityUser × Bytes). m.0) ms)
            (list_org_members caller name w))
emails_hidden modules caller name query size token w = (
  shown_records caller _ _ w (get_user-Shows modules caller name),
  shown_records caller _ _ w (list_users_page-Shows caller query size token),
  shown_records caller _ _ w (list_organizations-Shows caller query size token),
  shown_records caller _ _ w (get_user_orgs-Shows caller name),
  shown_records caller _ _ w (list_org_members-Shows caller name),
)
