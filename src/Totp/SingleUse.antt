-- ===== src/Totp/SingleUse.antt =====
-- A time step is accepted at most once for a user, over any sequence of attempts.
use hades.Prelude.{
  All, Bool, Bool-cases, Bytes, List, Option, Option-cases, [], ap, arith, bytes_beq_iff, false,
  inl, inr, ltb, none, refl, some, suc, sym, true, zero, ℕ, ◌&&◌, ◌*◌, ◌+◌, ◌/◌, ◌<◌, ◌==◌, ◌∙◌,
  ◌∷◌, ◌≡◌, ◌≤◌, nat_eq, bytes_eq, string_eq,
}
use hades.Totp.{
  Generator, TotpRow, consume, consume_counter, is_before, period, steps_around, try_steps,
  validate_code_counter,
}
use hades.Result.{Result, err, ok}

-- One attempt: a user presents a code at a time, against the secret of the user.
pub record Attempt : Type 0 where
  pub user : Bytes
  pub secret : Bytes
  pub code : Bytes
  pub now : ℕ

abbrev pub own : Bool → Option ℕ → List ℕ → List ℕ
own true (some counter) rest = counter ∷ rest
own true none rest = rest
own false o rest = rest

-- The counters for which the user's attempts are accepted, in order.
unfoldable pub accepted : Generator → Bytes → List Attempt → List TotpRow → List ℕ
accepted generate user [] rows = []
accepted generate user (a ∷ later) rows =
    let (rows', o) = consume a.user (validate_code_counter generate a.secret a.code a.now) rows in
    own (a.user == user) o (accepted generate user later rows')

abbrev pub IsIncreasingFrom : ℕ → List ℕ → Type 0
IsIncreasingFrom k [] = Unit
IsIncreasingFrom k (c ∷ cs) = (k ≤ c) × IsIncreasingFrom (suc c) cs

-- No row of the user takes a counter below k any more.
abbrev IsSpent : Bytes → ℕ → TotpRow → Type 0
IsSpent user k r = (r.user_id == user && is_before r.last_used_counter k) ≡ false

abbrev Spent : Bytes → ℕ → List TotpRow → Type 0
Spent user zero rows = Unit
Spent user (suc k) rows = All (IsSpent user k) rows

raise :
    (b b' : Bool) (l : Option ℕ) (k counter : ℕ)
    → (b && is_before l k) ≡ false
    → (b' && is_before l counter) ≡ true
    → (b && ltb counter k) ≡ false
raise b b' none k counter h e = ground (arith, h, e)
raise b b' (some l) k counter h e = ground (arith, h, e)

above :
    (b : Bool) (l : Option ℕ) (k counter : ℕ)
    → (b && is_before l k) ≡ false
    → (b && is_before l counter) ≡ true
    → k < counter
above b none k counter h e = ground (arith, h, e)
above b (some l) k counter h e = ground (arith, h, e)

keeps-IsSpent :
    (user : Bytes) (k : ℕ) (other : Bytes) (counter : ℕ) (rows : List TotpRow)
    → All (IsSpent user k) rows
    → All (IsSpent user k) ((consume_counter other counter rows).0)
unfolding consume_counter
keeps-IsSpent user k other counter [] h = tt
keeps-IsSpent user k other counter (r ∷ rows) (h, hs) =
    elim (Bool-cases (r.user_id == other && is_before r.last_used_counter counter)) [
      | inr e ↦ rw e (h, keeps-IsSpent user k other counter rows hs)
      | inl e ↦ rw e (
        raise (r.user_id == user) (r.user_id == other) r.last_used_counter k counter h e,
        keeps-IsSpent user k other counter rows hs,
      )
    ]

spends-IsSpent :
    (user : Bytes) (counter : ℕ) (rows : List TotpRow)
    → All (IsSpent user counter) ((consume_counter user counter rows).0)
unfolding consume_counter
spends-IsSpent user counter [] = tt
spends-IsSpent user counter (r ∷ rows) =
    elim (Bool-cases (r.user_id == user && is_before r.last_used_counter counter)) [
      | inr e ↦ rw e (e, spends-IsSpent user counter rows)
      | inl e ↦ rw e (ground arith, spends-IsSpent user counter rows)
    ]

hit-above :
    (user : Bytes) (k counter : ℕ) (rows : List TotpRow)
    → All (IsSpent user k) rows
    → (consume_counter user counter rows).1 ≡ true
    → k < counter
unfolding consume_counter
hit-above user k counter [] h e = cc
hit-above user k counter (r ∷ rows) (h, hs) e =
    elim (Bool-cases (r.user_id == user && is_before r.last_used_counter counter)) [
      | inr x ↦ hit-above user k counter rows hs (rw x at e)
      | inl x ↦ above (r.user_id == user) r.last_used_counter k counter h x
    ]

keeps-Spent :
    (user : Bytes) (k : ℕ) (other : Bytes) (counter : ℕ) (rows : List TotpRow)
    → Spent user k rows
    → Spent user k ((consume_counter other counter rows).0)
keeps-Spent user zero other counter rows h = tt
keeps-Spent user (suc k) other counter rows h = keeps-IsSpent user k other counter rows h

hit-bound :
    (user : Bytes) (k counter : ℕ) (rows : List TotpRow)
    → Spent user k rows
    → (consume_counter user counter rows).1 ≡ true
    → k ≤ counter
hit-bound user zero counter rows h e = omega arith
hit-bound user (suc k) counter rows h e = omega (arith, hit-above user k counter rows h e)

-- What one attempt may do to the bound: nothing, or take a counter that is not below it.
abbrev Advances : Bytes → ℕ → Bytes → List TotpRow × Option ℕ → Type 0
Advances user k other (rows, none) = Spent user k rows
Advances user k other (rows, some c) =
    Spent user k rows × (other ≡ user → (k ≤ c) × Spent user (suc c) rows)

consume-Advances :
    (user : Bytes) (k : ℕ) (other : Bytes) (o : Result (Option ℕ)) (rows : List TotpRow)
    → Spent user k rows
    → Advances user k other (consume other o rows)
unfolding consume
consume-Advances user k other (err code) rows h = h
consume-Advances user k other (ok none) rows h = h
consume-Advances user k other (ok (some c)) rows h =
    elim (Bool-cases ((consume_counter other c rows).1)) [
      | inr e ↦ rw e (keeps-Spent user k other c rows h)
      | inl e ↦ rw e (
        keeps-Spent user k other c rows h,
        λ same. rw same (hit-bound user k c rows h (rw same at e), spends-IsSpent user c rows),
      )
    ]

increasing_from :
    (generate : Generator) (user : Bytes) (attempts : List Attempt) (rows : List TotpRow) (k : ℕ)
    → Spent user k rows
    → IsIncreasingFrom k (accepted generate user attempts rows)
unfolding accepted
increasing_from generate user [] rows k h = tt
increasing_from generate user (a ∷ later) rows k h =
    go (a.user == user) ((bytes_beq_iff a.user user).0)
      (consume a.user (validate_code_counter generate a.secret a.code a.now) rows)
      (consume-Advances user k a.user (validate_code_counter generate a.secret a.code a.now) rows h)
      (λ rows' k' h'. increasing_from generate user later rows' k' h')
  where
    go :
        (b : Bool)
        → (b ≡ true → a.user ≡ user)
        → (r : List TotpRow × Option ℕ) → Advances user k a.user r
        → ((rows' : List TotpRow) (k' : ℕ)
            → Spent user k' rows'
            → IsIncreasingFrom k' (accepted generate user later rows'))
        → IsIncreasingFrom k (own b r.1 (accepted generate user later r.0))
    go true same (rows', none) adv ih = ih rows' k adv
    go true same (rows', some c) (kept, adv) ih =
        let (le, spent) = adv (same refl) in (le, ih rows' (suc c) spent)
    go false same (rows', none) adv ih = ih rows' k adv
    go false same (rows', some c) (kept, adv) ih = ih rows' k kept

-- In any sequence of attempts by any users, whatever codes and times, the time steps for which a
-- user's codes are accepted are strictly increasing: no step is accepted twice, so that a code seen
-- in transit cannot be used again.
pub accepted_increasing :
    (generate : Generator) (user : Bytes) (attempts : List Attempt) (rows : List TotpRow)
    → IsIncreasingFrom 0 (accepted generate user attempts rows)
accepted_increasing generate user attempts rows = increasing_from generate user attempts rows 0 tt

abbrev pub IsInWindow : ℕ → ℕ → Type 0
IsInWindow base step = (base ≤ step + 1) × (step ≤ base + 1)

try_steps_sound :
    (generate : Generator) (secret code : Bytes) (base : ℕ) (steps : List ℕ) (c : ℕ)
    → All (IsInWindow base) steps
    → try_steps generate secret code steps ≡ ok (some c)
    → IsInWindow base c × (generate secret (c * period) ≡ some code)
unfolding try_steps
try_steps_sound generate secret code base [] c w h = cc
try_steps_sound generate secret code base (s ∷ steps) c (w, ws) h =
    elim (Option-cases (generate secret (s * period))) [
      | inl e ↦ cc (rw (e, try_steps) at h)
      | inr (want, e) ↦ elim (Bool-cases (want == code)) [
        | inr x ↦ try_steps_sound generate secret code base steps c ws (rw (e, x, try_steps) at h)
        | inl x ↦
            let same : s ≡ c = ground (arith, rw (e, x, try_steps) at h) in
            let code_same : want ≡ code = (bytes_beq_iff want code).0 x in
            rw (sym same) (w, e ∙ ap some code_same)
      ]
    ]

steps_around-window : (base : ℕ) → All (IsInWindow base) (steps_around base)
steps_around-window base = elim (Bool-cases (base == 0)) [
  | inl e ↦ rw e (ground (arith, e), (ground (arith, e), tt))
  | inr e ↦ rw e (ground (arith, e), (ground (arith, e), (ground (arith, e), tt)))
]

-- A code is valid only if it is the one that the generator gives for the secret at the reported
-- time step, and that step is the current one or a neighbour of it.
pub validate_code_counter-IsInWindow :
    (generate : Generator) (secret code : Bytes) (now c : ℕ)
    → validate_code_counter generate secret code now ≡ ok (some c)
    → IsInWindow (now / period) c × (generate secret (c * period) ≡ some code)
unfolding validate_code_counter
validate_code_counter-IsInWindow generate secret code now c h =
    try_steps_sound generate secret code (now / period) (steps_around (now / period)) c
      (steps_around-window (now / period)) h
