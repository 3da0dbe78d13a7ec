-- ===== src/Cache/Memory/Tests.antt =====
-- Runs of the in-process cache at concrete inputs.
use hades.Prelude.{
  ==_refl, All, Bool, Bytes, List, [], arith, bytes_beq, codes, false, is_some, leb, length, map,
  refl, true, ℕ, ◌∷◌, ◌≡◌, ◌≤◌, nat_eq, bytes_eq, string_eq,
}
use hades.Maps.{Assoc, insert, lookup}
use hades.Cache.Search.{IsMonotone, Splits, search_loop, sort_search, sort_search_lem}
use hades.Cache.Memory.{
  MemoryCache, allow, empty, evict_windows, max_rate_limit_keys, max_value_keys, set_value, slide,
}
use hades.Cache.Memory.RateLimit.{Call, allowed_between, rate_limit_sound, run_calls}
use hades.Cache.Memory.Eviction.{IsRange, in_order, writes_within_caps}

abbrev from_three : ℕ → Bool
from_three i = leb 3 i

from_three-IsMonotone : IsMonotone from_three
from_three-IsMonotone a b le h = ground arith

sort_search_lem_example : Splits from_three 0 5 (sort_search 5 from_three)
sort_search_lem_example = sort_search_lem 5 from_three from_three-IsMonotone

abbrev login_at : ℕ → Call
login_at now = record { key = codes "login:1"; limit = 2; window = 100; now = now }

abbrev logins : List Call
logins = login_at 500 ∷ login_at 510 ∷ login_at 520 ∷ login_at 700 ∷ []

answer_of : Call × Bool → Bool
answer_of (c, answer) = answer

login_tests : map answer_of (run_calls in_order empty logins) ≡ true ∷ true ∷ false ∷ true ∷ []
unfolding answer_of run_calls allow lookup insert slide sort_search search_loop evict_windows
    bytes_beq
login_tests = refl

rate_limit_sound_example :
    allowed_between
      (codes "login:1")
      500
      600
      (run_calls in_order empty (login_at 500 ∷ login_at 510 ∷ login_at 520 ∷ []))
    ≤ 2
rate_limit_sound_example =
    rate_limit_sound in_order (login_at 500 ∷ login_at 510 ∷ login_at 520 ∷ []) (codes "login:1") 2
      100 500 0 (omega arith, (omega arith, (omega arith, tt)))
      ((λ e. (refl, refl)), ((λ e. (refl, refl)), ((λ e. (refl, refl)), tt))) (omega arith)

abbrev one_value : MemoryCache
one_value = record empty { entries = (codes "a", record { value = codes "x"; expires = 100 }) ∷ [] }

lookup-cons_some {ℓ} :
    {V : Type ℓ} (j k : Bytes) (v : V) (m : Assoc V)
    → is_some (lookup k m) ≡ true
    → is_some (lookup k ((j, v) ∷ m)) ≡ true
unfolding lookup
lookup-cons_some j k v m h = ground (arith, h)

All-lookup_cons {ℓ} :
    {V : Type ℓ} (j : Bytes) (v : V) (m ps : Assoc V)
    → All (λ e. is_some (lookup e.0 m) ≡ true) ps
    → All (λ e. is_some (lookup e.0 ((j, v) ∷ m)) ≡ true) ps
All-lookup_cons j v m [] h = tt
All-lookup_cons j v m ((k, w) ∷ ps) (h, hs) =
    (lookup-cons_some j k v m h, All-lookup_cons j v m ps hs)

visits_own_keys {ℓ} :
    {V : Type ℓ} (m : Assoc V) → All (λ e. is_some (lookup e.0 m) ≡ true) (in_order m)
unfolding lookup
visits_own_keys [] = tt
visits_own_keys ((k, v) ∷ m) = (rw (==_refl k) refl, All-lookup_cons k v m m (visits_own_keys m))

in_order-IsRange {ℓ} : {V : Type ℓ} → IsRange {V = V} in_order
in_order-IsRange = record { visits = visits_own_keys; visits_all = λ m. refl }

writes_within_caps_example :
    (length (set_value in_order one_value (codes "b") (codes "y") 50 60).entries ≤ max_value_keys)
    × (length (allow in_order one_value (codes "b") 2 100 60).0.windows ≤ max_rate_limit_keys)
unfolding lookup bytes_beq
writes_within_caps_example =
    writes_within_caps in_order in_order one_value (codes "b") (codes "y") 50 2 100 60
      in_order-IsRange in_order-IsRange refl refl refl
