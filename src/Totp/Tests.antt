-- ===== src/Totp/Tests.antt =====
-- Runs of the second factor with a toy generator.
use hades.Prelude.{[], bytes_beq, codes, none, refl, some, ℕ, ◌/◌, ◌∷◌, ◌≡◌}
use hades.Totp.{Generator, TotpRow, consume, consume_counter, try_steps, validate_code_counter}
use hades.Totp.SingleUse.{Attempt, IsIncreasingFrom, accepted, accepted_increasing}

-- The code of a time is its length in steps, as one byte.
abbrev toy : Generator
toy secret t = some (t / 30 ∷ [])

abbrev alice_row : TotpRow
alice_row = record { user_id = codes "alice"; secret = []; last_used_counter = none }

abbrev attempt : ℕ → ℕ → Attempt
attempt code now = record { user = codes "alice"; secret = []; code = code ∷ []; now = now }

-- Step 3 is accepted, its replay is not, step 4 is, and a code of no step in the window is not.
replay_tests :
    accepted toy
      (codes "alice")
      (attempt 3 95 ∷ attempt 3 96 ∷ attempt 4 97 ∷ attempt 9 98 ∷ [])
      (alice_row ∷ [])
    ≡ 3 ∷ 4 ∷ []
unfolding accepted consume consume_counter validate_code_counter try_steps bytes_beq
replay_tests = refl

accepted_increasing_example :
    IsIncreasingFrom 0
      (accepted toy (codes "alice") (attempt 3 95 ∷ attempt 3 96 ∷ []) (alice_row ∷ []))
accepted_increasing_example =
    accepted_increasing toy (codes "alice") (attempt 3 95 ∷ attempt 3 96 ∷ []) (alice_row ∷ [])
