-- ===== src/Auth/Grants.antt =====
-- The transaction of PollDeviceToken, and the grants without a token.
use hades.Prelude.{
  ==_refl, Bool, Bool-cases, Bytes, List, Option, [], any, ap, arith, bytes_beq_iff, false, inl,
  inr, map, none, not, refl, some, sym, true, ℕ, ◌++◌, ◌+◌, ◌==◌, ◌∙◌, ◌∷◌, ◌≡◌, ◌≤◌, nat_eq,
  bytes_eq, string_eq,
}
use hades.Auth.Tables.{AuthTables, GrantRow, append_unless, change, insert_row, put_tokens}
use hades.Auth.Devices.{
  DeviceEnv, attach_token, device_token, is_unissued, issue_token, put_grants, store_token,
  update_grants,
}
use hades.Effects.Laws.{
  Answers, Triple, Triple->>=, Triple-call, Triple-refuse_if, Triple-transaction,
}
use hades.Result.{failed_precondition}
use hades.Interceptor.Stores.{TokenRow}
use hades.Maps.{lookup}

abbrev pub weight : Bool → ℕ
weight false = 0
weight true = 1

-- The conditions of a table after an update.
any-update_same {ℓ} :
    {A : Type ℓ} (p : A → Bool) (f : A → A) (xs : List A)
    → ((x : A) → p (f x) ≡ false)
    → any p (map (change p f) xs) ≡ false
any-update_same p f [] h = refl
any-update_same p f (x ∷ xs) h = elim (Bool-cases (p x)) [
  | inl e ↦ rw (e, h x, any-update_same p f xs h) refl
  | inr e ↦ rw (e, e, any-update_same p f xs h) refl
]

pub any-update {ℓ} :
    {A : Type ℓ} (p q : A → Bool) (f : A → A) (xs : List A)
    → ((x : A) → q x ≡ true → p (f x) ≡ p x)
    → any p (map (change q f) xs) ≡ any p xs
any-update p q f [] h = refl
any-update p q f (x ∷ xs) h = elim (Bool-cases (q x)) [
  | inl e ↦ rw (e, h x e, any-update p q f xs h) refl
  | inr e ↦ rw (e, any-update p q f xs h) refl
]

pub any-append {ℓ} :
    {A : Type ℓ} (p : A → Bool) (xs : List A) (x : A)
    → p x ≡ false
    → any p (xs ++ x ∷ []) ≡ any p xs
any-append p [] x h = rw h refl
any-append p (y ∷ xs) x h = rw (any-append p xs x h) refl

-- A grant of the identifier is there that has no token yet.
abbrev pub unissued : Bytes → AuthTables → Bool
unissued id t = any (is_unissued id) t.grants

abbrev pub attached : Bytes → GrantRow → GrantRow
attached token_id g = record g { api_token_id = some token_id }

unissued-attached :
    (id token_id : Bytes) (g : GrantRow) → is_unissued id (attached token_id g) ≡ false
unissued-attached id token_id g = ground arith

unissued_other :
    (id other : Bytes) (g : GrantRow)
    → (other == id) ≡ false
    → is_unissued other g ≡ true
    → is_unissued id g ≡ false
unissued_other id other g h e =
    ground (arith, h, e, bytes_beq_iff g.id other, bytes_beq_iff g.id id, bytes_beq_iff other id)

-- A token attached to a grant uses up the grant of that identifier.
pub attach_token-weight :
    (id other token_id : Bytes) (gs : List GrantRow)
    → any (is_unissued other) gs ≡ true
    → (weight (other == id)
          + weight (any (is_unissued id) (map (change (is_unissued other) (attached token_id)) gs))
        ≤ weight (any (is_unissued id) gs))
attach_token-weight id other token_id gs h = elim (Bool-cases (other == id)) [
  | inl e ↦ let same : other ≡ id = ground (arith, e, bytes_beq_iff other id) in used other same
  | inr e ↦
      let kept =
        any-update (is_unissued id) (is_unissued other) (attached token_id) gs
          (λ g p. unissued-attached id token_id g ∙ sym (unissued_other id other g e p)) in
      rw (e, kept) (omega arith)
]
  where
    used :
        (x : Bytes)
        → other ≡ id
        → (weight (other == id)
              + weight
                  (any (is_unissued id) (map (change (is_unissued other) (attached token_id)) gs))
            ≤ weight (any (is_unissued id) gs))
    used x same =
        rw
          (
            ← same,
            ==_refl other,
            h,
            any-update_same (is_unissued other) (attached token_id) gs
                (unissued-attached other token_id),
          )
          (omega arith)

-- The tables after a token was issued for the grant.
abbrev pub with_token : AuthTables → DeviceEnv → GrantRow → Bytes → Bytes → AuthTables
with_token t env g user_id hash = record t {
  tokens = t.tokens ++ (hash, device_token env.new_id user_id) ∷ [];
  grants = map (change (is_unissued g.id) (attached env.new_id)) t.grants;
}

module _ (t0 : AuthTables) where
  abbrev pub IsBefore : AuthTables → Type 0
  IsBefore t = t ≡ t0

  abbrev Something : AuthTables → Type 0
  Something t = Unit

  abbrev Stored : Bytes → TokenRow → AuthTables → Type 0
  Stored hash row t = t ≡ record t0 { tokens = t0.tokens ++ (hash, row) ∷ [] }

  store_token-Stored :
      (hash : Bytes) (row : TokenRow) (t : AuthTables)
      → IsBefore t
      → Answers IsBefore Something
          (λ u. Stored hash row)
          (store_token hash row t).0
          (store_token hash row t).1
  unfolding insert_row
  store_token-Stored hash row t h = go (lookup hash t.tokens)
    where
      go :
          (o : Option TokenRow)
          → Answers IsBefore Something
              (λ u. Stored hash row)
              (put_tokens t (append_unless o hash row t.tokens)).0
              (put_tokens t (append_unless o hash row t.tokens)).1
      go none =
          ap {A = AuthTables} {B = AuthTables}
            (λ x. record x { tokens = x.tokens ++ (hash, row) ∷ [] }) h
      go (some b) = tt

  -- How a transaction that issues a token ends well.
  abbrev pub Issued : DeviceEnv → GrantRow → Bytes → Bytes → AuthTables → Type 0
  Issued env g user_id hash t = (unissued g.id t0 ≡ true) × (t ≡ with_token t0 env g user_id hash)

  pub issue_token-ends :
      (env : DeviceEnv) (g : GrantRow) (user_id hash : Bytes)
      → Triple IsBefore (issue_token env g user_id hash) IsBefore (λ u. Issued env g user_id hash)
  unfolding issue_token update_grants
  issue_token-ends env g user_id hash =
      Triple-transaction IsBefore Something IsBefore _ _ (λ s h. h) (λ s h. tt) (λ a s h. tt)
        (Triple->>= _ _ (λ u. Stored hash (device_token env.new_id user_id)) _ _ _
          (Triple-call _ _ _ _ (store_token hash (device_token env.new_id user_id))
            (store_token-Stored hash (device_token env.new_id user_id)) (λ s h. tt))
          (λ u.
            Triple->>= _ _ (λ b t. (b ≡ unissued g.id t0) × (t ≡ with_token t0 env g user_id hash))
              _ _ _
              (Triple-call _ _ _ _ (attach_token g.id env.new_id)
                (λ s h. (
                  ap (λ x. any (is_unissued g.id) x.grants) h,
                  ap
                      (λ x.
                        put_grants (map (change (is_unissued g.id) (attached env.new_id)) x.grants)
                          x)
                      h,
                ))
                (λ s h. tt))
              (λ b.
                Triple-refuse_if _ _ _ (not b) failed_precondition (λ s h e. tt)
                  (λ s (h, k) e. (ground (arith, h, e), k)))))
