-- ===== src/Identity/Creation.antt =====
-- The creation of an organisation is one unit.
use hades.Effects.{DbError, call, from_db, replied, return, ◌>>=◌}
use hades.Effects.Laws.{
  Answers, Ends, Triple, Triple->>=, Triple-call, Triple-conclude, Triple-fact, Triple-fail,
  Triple-forget, Triple-reads_at, Triple-refuse_if, Triple-return, Triple-run, Triple-transaction,
  replied_injective,
}
use hades.Prelude.{
  ==_refl, Bool, Bool-cases, Bytes, List, Option, [], any, ap, arith, false, inl, inr, is_none,
  is_some, none, refl, some, sym, true, ◌++◌, ◌==◌, ◌∙◌, ◌∷◌, ◌≡◌, nat_eq, bytes_eq, string_eq,
}
use hades.Users.{UserRow, conflicts, find_user, get_by_username, insert_user}
use hades.Constants.{role_owner}
use hades.Identity.Tables.{Directory, add_member}
use hades.Identity.Orgs.{
  add_binding, admin, bind_in, create_org, create_org_as, insert_account, new_org, org_domain,
  store_org,
}
use hades.Interceptor.Stores.{User}
use hades.Text.{to_lower, trim_space}
use hades.Constants.Names.{validate_name}

find_user-append :
    (p : UserRow → Bool) (us : List UserRow) (u : UserRow)
    → any p us ≡ false
    → p u ≡ true
    → find_user p (us ++ u ∷ []) ≡ some u
unfolding find_user
find_user-append p [] u h k = rw k refl
find_user-append p (v ∷ us) u h k = ground (arith, h, k, find_user-append p us u)

-- A row that meets no conflict brings a new name.
unique_name :
    (new : UserRow) (us : List UserRow)
    → any (conflicts new) us ≡ false
    → any (λ u. u.username == new.username) us ≡ false
unique_name new [] h = refl
unique_name new (u ∷ us) h = ground (arith, h, unique_name new us)

-- The row that a request asks for.
abbrev pub requested : Bytes → Bytes → Bytes → Bytes → UserRow
requested raw_name description url id = new_org id (to_lower (trim_space raw_name)) description url

module _ (d0 : Directory) where
  abbrev with_account : UserRow → Directory
  with_account new = record d0 { users = d0.users ++ new ∷ [] }

  insert_account-ends :
      (new : UserRow)
      → Triple
          (λ d. d ≡ d0)
          (call from_db (insert_account new))
          (λ d. Unit)
          (λ u d. (d ≡ with_account new) × (any (conflicts new) d0.users ≡ false))
  unfolding insert_user
  insert_account-ends new =
      Triple-call (λ d. d ≡ d0) (λ d. Unit) _ _ _ (λ d h. inserted d h) (λ d h. tt)
    where
      inserted :
          (d : Directory)
          → d ≡ d0
          → Answers
              (λ t. t ≡ d0)
              (λ t. Unit)
              (λ u t. (t ≡ with_account new) × (any (conflicts new) d0.users ≡ false))
              (insert_account new d).0
              (insert_account new d).1
      inserted d h = rw h (elim (Bool-cases (any (conflicts new) d0.users)) [
        | inl e ↦ rw e tt
        | inr e ↦ rw e (refl, refl)
      ])

  -- What a successful creation makes of the tables.
  abbrev pub with_org : UserRow → User → Directory
  with_org org caller =
      bind_in
        (record { subject = caller.username; role = role_owner; domain = org_domain org.username })
        (add_member org.id caller.id admin (with_account org))

  read_back :
      (new : UserRow)
      → any (conflicts new) d0.users ≡ false
      → get_by_username new.username (with_account new).users ≡ replied new
  unfolding get_by_username
  read_back new h =
      rw
        (find_user-append (λ u. u.username == new.username) d0.users new
          (unique_name new d0.users h) (==_refl new.username))
        refl

  -- The row is new, and its creator administers it.
  abbrev IsStored : UserRow → Bytes → UserRow → Directory → Type 0
  IsStored new creator_id org d =
      (d ≡ add_member new.id creator_id admin (with_account new))
      × ((org ≡ new) × (any (conflicts new) d0.users ≡ false))

  store_org-ends :
      (new : UserRow) (creator_id : Bytes)
      → Triple (λ d. d ≡ d0) (store_org new creator_id) (λ d. Unit) (IsStored new creator_id)
  unfolding store_org
  store_org-ends new creator_id =
      let stored = with_account new in
      Triple->>= _ _ _ _ _ _ (insert_account-ends new) (λ u. Triple-fact _ _ _ _ _ (λ fresh.
        Triple->>= _ _ _ _ _ _ (Triple-forget _ _ _ _ _ (λ d h. tt) (Triple-reads_at stored _ _))
          (λ org. Triple-fact _ _ _ _ _ (λ found.
            let same : org ≡ new = replied_injective org new (sym found ∙ read_back new fresh) in
            Triple->>= _ _ (λ v d. d ≡ add_member org.id creator_id admin stored) _ _ _
              (Triple-call _ _ _ _ _ (λ d h. ap (add_member org.id creator_id admin) h) (λ d h. tt))
              (λ v. Triple-return _ _ _ _ (λ d h. (
                h ∙ ap (λ (o : UserRow). add_member o.id creator_id admin stored) same,
                (same, fresh),
              )))))))

  abbrev IsCreated : UserRow → User → UserRow → Directory → Type 0
  IsCreated new caller org d =
      (d ≡ with_org new caller) × ((org ≡ new) × (any (conflicts new) d0.users ≡ false))

  bind_owner-ends :
      (new : UserRow) (caller : User) (org : UserRow)
      → Triple
          (IsStored new caller.id org)
          (do bound ← add_binding caller.username role_owner (org_domain org.username); return org)
          (λ d. Unit)
          (IsCreated new caller)
  unfolding add_binding
  bind_owner-ends new caller org = Triple-fact _ _ _ _ _ (λ (same, fresh).
      let after = λ (o : UserRow).
        bind_in
          (record { subject = caller.username; role = role_owner; domain = org_domain o.username })
          (add_member new.id caller.id admin (with_account new)) in
      Triple->>= _ _ (λ u d. d ≡ after org) _ _ _
        (Triple->>= _ _ (λ u d. d ≡ after org) _ _ _
          (Triple-call _ _ _ _ _ (λ d h. ap (bind_in _) h) (λ d h. tt))
          (λ u. Triple-call _ _ _ _ _ (λ d h. h) (λ d h. tt)))
        (λ u. Triple-return _ _ _ _ (λ d h. (h ∙ ap after same, (same, fresh)))))

  create_org-Triple :
      (caller : Option User) (raw_name description url id : Bytes)
      → Triple
          (λ d. d ≡ d0)
          (create_org caller raw_name description url id)
          (λ d. d ≡ d0)
          (λ org d.
            (user : User) × (caller ≡ some user)
            × (validate_name (to_lower (trim_space raw_name)) ≡ none)
            × (org ≡ requested raw_name description url id)
            × (any (conflicts (requested raw_name description url id)) d0.users ≡ false)
            × (d ≡ with_org (requested raw_name description url id) user))
  unfolding create_org create_org_as
  create_org-Triple none raw_name description url id = Triple-fail _ _ _ _ (λ d h. h)
  create_org-Triple (some caller) raw_name description url id =
      let name = to_lower (trim_space raw_name) in
      let new = new_org id name description url in
      Triple->>= _ _ (λ u d. (d ≡ d0) × (is_some (validate_name name) ≡ false)) _ _ _
        (Triple-refuse_if _ _ _ _ _ (λ d h t. h) (λ d h f. (h, f)))
        (λ u. Triple-fact _ _ _ _ _ (λ valid.
          Triple-conclude _ _ _ _ _
            (λ org d (h, (same, fresh)).
              (caller, refl, is_none (validate_name name) valid, same, fresh, h))
            (Triple-transaction _ (λ d. Unit) _ (IsCreated new caller) _ (λ d h. h) (λ d h. tt)
              (λ org d h. tt)
              (Triple->>= _ _ _ _ _ _ (store_org-ends new caller.id)
                (bind_owner-ends new caller)))))

-- CreateOrg, whichever statements fail: after an error every table is as it was. Otherwise a
-- caller is signed in, the name in lower case and without spaces around it is valid, no user or
-- organisation had it, and what is new is the row of the organisation, the caller's membership
-- as its administrator and the caller's binding as the owner of its namespace.
pub create_org_atomic :
    (caller : Option User) (raw_name description url id : Bytes) (failures : List (Option DbError))
    (d : Directory)
    → Ends
        (λ d'. d' ≡ d)
        (λ org d'.
          (user : User) × (caller ≡ some user)
          × (validate_name (to_lower (trim_space raw_name)) ≡ none)
          × (org ≡ requested raw_name description url id)
          × (any (conflicts (requested raw_name description url id)) d.users ≡ false)
          × (d' ≡ with_org d (requested raw_name description url id) user))
        (create_org caller raw_name description url id (failures, d))
create_org_atomic caller raw_name description url id failures d =
    Triple-run _ _ _ _ _ (create_org-Triple d caller raw_name description url id) refl
