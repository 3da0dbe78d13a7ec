-- ===== src/Upload/Told.antt =====
-- Whom `notifyCommitPushed` tells.
use hades.Effects.{DbError, Reply, ask, failed, replied, return}
use hades.Effects.Laws.{next_works}
use hades.Prelude.{
  ==_refl, Bool, Bool-cases, Bytes, List, Option, [], ap, append_nil, arith, bytes_beq_iff,
  contains, false, if◌then◌else◌, inl, inr, map, none, not, refl, some, true, ◌&&◌, ◌++◌, ◌==◌,
  ◌||◌, ◌↔◌, ◌∙◌, ◌∷◌, ◌≡◌, ◌≢◌, ◌⊎◌, nat_eq, bytes_eq, string_eq,
}
use hades.Result.{ok}
use hades.Text.{is_empty}
use hades.Interceptor.Stores.{User}
use hades.Upload.Registry.{CommitRow, Notice, Registry, UploadModule}
use hades.Upload.Request.{UploadEnv}
use hades.Upload.Notify.{
  asked, listed, notify_commit_pushed, or_owner, pick_targets, recipients, send, targets,
}

-- No user twice.
unfoldable pub IsDistinct : List Bytes → Type 0
IsDistinct [] = Unit
IsDistinct (u ∷ us) = (contains us u ≡ false) × IsDistinct us

-- Who is picked: whoever is a recipient, is named, is not the pusher and was not seen before.
pick_targets-contains :
    (pusher : Bytes) (seen us : List Bytes) (u : Bytes)
    → contains (pick_targets pusher seen us) u
      ≡ (contains us u && (not (is_empty u || u == pusher) && not (contains seen u)))
unfolding pick_targets
pick_targets-contains pusher seen [] u = refl
pick_targets-contains pusher seen (v ∷ us) u =
    let named = is_empty v || v == pusher in
    let skipped = pick_targets-contains pusher seen us u in
    let taken = pick_targets-contains pusher (v ∷ seen) us u in
    elim (Bool-cases (v == u)) [
      | inl s ↦
          let same : v ≡ u = ground (arith, s, bytes_beq_iff v u) in
          rw same (elim (Bool-cases (is_empty u || u == pusher)) [
            | inl e ↦ rw (e, ==_refl u, skipped) (ground (arith, e))
            | inr e ↦ elim (Bool-cases (contains seen u)) [
              | inl f ↦ rw (e, f, ==_refl u, skipped) (ground (arith, e, f))
              | inr f ↦ rw (e, f, ==_refl u) refl
            ]
          ])
      | inr s ↦ elim (Bool-cases named) [
        | inl e ↦ rw (e, s) skipped
        | inr e ↦ elim (Bool-cases (contains seen v)) [
          | inl f ↦ rw (e, f, s) skipped
          | inr f ↦ rw (e, f, s) (taken ∙ (rw s refl))
        ]
      ]
    ]

pick_targets-IsDistinct :
    (pusher : Bytes) (seen us : List Bytes) → IsDistinct (pick_targets pusher seen us)
unfolding pick_targets IsDistinct
pick_targets-IsDistinct pusher seen [] = tt
pick_targets-IsDistinct pusher seen (v ∷ us) = elim (Bool-cases (is_empty v || v == pusher)) [
  | inl e ↦ rw e (pick_targets-IsDistinct pusher seen us)
  | inr e ↦ elim (Bool-cases (contains seen v)) [
    | inl f ↦ rw (e, f) (pick_targets-IsDistinct pusher seen us)
    | inr f ↦
        rw (e, f)
          (
            ground (arith, pick_targets-contains pusher (v ∷ seen) us v, bytes_beq_iff v v),
            pick_targets-IsDistinct pusher (v ∷ seen) us,
          )
  ]
]

-- A member of the organisation that owns the module, as the table answers.
abbrev pub IsMember : UploadEnv → UploadModule → Bytes → Type 0
IsMember env m u =
    (members_of : Bytes → Reply (List Bytes)) × (members : List Bytes) × (env.members
      ≡ some members_of)
    × (members_of m.owner_id ≡ replied members)
    × (contains members u ≡ true)

-- There is no table, it cannot be read, or it has no member of the owner.
abbrev pub HasNoMembers : UploadEnv → UploadModule → Type 0
HasNoMembers env m =
    (env.members ≡ none)
    ⊎ ((members_of : Bytes → Reply (List Bytes)) × (env.members ≡ some members_of)
        × (((e : DbError) × (members_of m.owner_id ≡ failed e))
            ⊎ (members_of m.owner_id ≡ replied [])))

-- Who has a stake in the module.
abbrev pub HasStake : UploadEnv → UploadModule → Bytes → Type 0
HasStake env m u = IsMember env m u ⊎ (HasNoMembers env m × (u ≡ m.owner_id))

contains_one : (a u : Bytes) → (contains (a ∷ []) u ≡ true) ↔ (u ≡ a)
contains_one a u =
    (λ h. ground (arith, h, bytes_beq_iff a u), λ h. ground (arith, h, bytes_beq_iff a u))

contains_owner :
    (owner_id u : Bytes) (members : List Bytes)
    → contains members u ≡ true
    → contains (or_owner owner_id members) u ≡ true
contains_owner owner_id u [] h = cc
contains_owner owner_id u (m ∷ ms) h = h

listed-HasStake :
    (env : UploadEnv) (m : UploadModule) (u : Bytes) (o : Option (Bytes → Reply (List Bytes)))
    → env.members ≡ o
    → contains (listed m.owner_id (asked o m.owner_id)) u ≡ true
    → HasStake env m u
listed-HasStake env m u none e h = inr (inl e, (contains_one m.owner_id u).0 h)
listed-HasStake env m u (some members_of) e h = answered (members_of m.owner_id) refl h
  where
    answered :
        (r : Reply (List Bytes))
        → members_of m.owner_id ≡ r
        → contains (listed m.owner_id (some r)) u ≡ true
        → HasStake env m u
    answered (failed x) f g = inr (inr (members_of, e, inl (x, f)), (contains_one m.owner_id u).0 g)
    answered (replied []) f g = inr (inr (members_of, e, inr f), (contains_one m.owner_id u).0 g)
    answered (replied (v ∷ vs)) f g = inl (members_of, v ∷ vs, e, f, g)

HasStake-listed :
    (env : UploadEnv) (m : UploadModule) (u : Bytes)
    → HasStake env m u
    → contains (recipients env m) u ≡ true
HasStake-listed env m u (inl (members_of, members, e, f, h)) =
    rw (e, f) (contains_owner m.owner_id u members h)
HasStake-listed env m u (inr (inl e, same)) = rw e ((contains_one m.owner_id u).1 same)
HasStake-listed env m u (inr (inr (members_of, e, inl (x, f)), same)) =
    rw (e, f) ((contains_one m.owner_id u).1 same)
HasStake-listed env m u (inr (inr (members_of, e, inr f), same)) =
    rw (e, f) ((contains_one m.owner_id u).1 same)

-- Who is to be told: everybody with a stake who has an identifier and is not the pusher, once.
abbrev pub AreTold : UploadEnv → UploadModule → Bytes → List Bytes → Type 0
AreTold env m pusher users =
    IsDistinct users
    × ((u : Bytes) → (contains users u ≡ true) ↔ (HasStake env m u × (u ≢ []) × (u ≢ pusher)))

other_user :
    (u pusher : Bytes) → (not (is_empty u || u == pusher) ≡ true) ↔ ((u ≢ []) × (u ≢ pusher))
other_user [] pusher = ((λ h. cc), (λ (h, k). absurd (h refl)))
other_user (c ∷ u) pusher = (
  (λ h. ((λ e. cc), (λ e. ground (arith, h, e, bytes_beq_iff (c ∷ u) pusher)))),
  (λ (h, k). ground (arith, k, bytes_beq_iff (c ∷ u) pusher)),
)

targets-AreTold :
    (env : UploadEnv) (m : UploadModule) (pusher : Bytes)
    → AreTold env m pusher (targets env m pusher)
unfolding targets
targets-AreTold env m pusher = (
  pick_targets-IsDistinct pusher [] (recipients env m),
  λ u.
      let picked = pick_targets-contains pusher [] (recipients env m) u in
      let (other, named) = other_user u pusher in
      (
        λ h.
            let (a, b) = both_true (contains (recipients env m) u) _ (ground (arith, h, picked)) in
            let (n, k) = other b in (listed-HasStake env m u env.members refl a, n, k),
        λ (stake, n, k). ground (arith, picked, HasStake-listed env m u stake, named (n, k)),
      ),
)
  where
    both_true : (a b : Bool) → (a && b) ≡ true → (a ≡ true) × (b ≡ true)
    both_true true true h = (refl, refl)
    both_true true false h = cc
    both_true false b h = cc

-- The registry with a notice of the commit for each of the users.
abbrev pub with_notices : Bytes → List Bytes → Registry → Registry
with_notices commit_id users r = record r {
  tables = record r.tables {
    notices = r.tables.notices ++ map (λ u. record { user_id = u; resource_id = commit_id }) users;
  };
}

no_notices : (commit_id : Bytes) (r : Registry) → r ≡ with_notices commit_id [] r
no_notices commit_id r =
    ap {A = List Notice} {B = Registry}
      (λ ns. record r { tables = record r.tables { notices = ns } }) (append_nil r.tables.notices)

send_lem :
    (commit_id : Bytes) (users : List Bytes) (fs : List (Option DbError)) (r : Registry)
    → ((send commit_id users (fs, r)).0 ≡ ok tt)
      × ((send commit_id users (fs, r)).1.1
          ≡ (if next_works fs then with_notices commit_id users r else r))
unfolding ask
send_lem commit_id [] fs r = (refl, unchanged (next_works fs))
  where
    unchanged : (b : Bool) → r ≡ (if b then with_notices commit_id [] r else r)
    unchanged true = no_notices commit_id r
    unchanged false = refl
send_lem commit_id (u ∷ us) [] r = (refl, refl)
send_lem commit_id (u ∷ us) (none ∷ fs) r = (refl, refl)
send_lem commit_id (u ∷ us) (some e ∷ fs) r = (refl, refl)

-- The notification of a push never fails it. Where notifications are configured and their insert
-- does not fail, it adds one notice of the commit for each user with a stake in the module who is
-- not the pusher and has an identifier, and for nobody else: a stake have the members of the owning
-- organisation, or its owner where there is no table of members, it cannot be read or it has none.
-- Otherwise it changes nothing.
pub notify_commit_pushed_exact :
    (env : UploadEnv) (m : UploadModule) (c : CommitRow) (pusher : User)
    (fs : List (Option DbError)) (r : Registry)
    → (users : List Bytes) × AreTold env m pusher.id users
      × ((notify_commit_pushed env m c pusher (fs, r)).0 ≡ ok tt)
      × ((notify_commit_pushed env m c pusher (fs, r)).1.1
          ≡ (if env.notifies && next_works fs then with_notices c.id users r else r))
unfolding notify_commit_pushed
notify_commit_pushed_exact env m c pusher fs r =
    let (fine, end) = told env.notifies in
    (targets env m pusher.id, targets-AreTold env m pusher.id, fine, end)
  where
    told :
        (b : Bool)
        → (((if b then send c.id (targets env m pusher.id) else return tt) (fs, r)).0 ≡ ok tt)
          × (((if b then send c.id (targets env m pusher.id) else return tt) (fs, r)).1.1
              ≡ (if b && next_works fs then with_notices c.id (targets env m pusher.id) r else r))
    told true = send_lem c.id (targets env m pusher.id) fs r
    told false = (refl, refl)
