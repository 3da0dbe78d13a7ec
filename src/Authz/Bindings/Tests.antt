-- ===== src/Authz/Bindings/Tests.antt =====
-- Runs of the bindings store with the in-process cache.
use hades.Prelude.{
  Bool-cases, Bytes, List, [], arith, bytes_beq, bytes_beq_iff, codes, false, if◌then◌else◌, inl,
  inr, none, refl, some, true, ◌==◌, ◌∷◌, ◌≡◌, nat_eq, bytes_eq, string_eq,
}
use hades.Result.{Result, err, err_not_ok, internal, ok}
use hades.Maps.{insert, lookup, remove}
use hades.Cache.Memory.{delete, empty, evict_entries, expired, get, live_value, set_value}
use hades.Identity.Tables.{RoleBinding, create_binding, delete_by_subject_domain, list_by_subject}
use hades.Auth.Recovery.{ok_injective}
use hades.Authz.Bindings.{
  BindingCall, BindingCodec, SubjectBinding, adds, call_bindings, deletes, read_bindings, reads_of,
  rows_of,
}
use hades.Authz.Bindings.Refinement.{
  Decodes, IsCoherent, run_bindings, run_bindings_exact, table_answers,
}
use hades.Authz.Bindings.InMemory.{in_memory, in_memory-CacheLaws}

-- A codec for no binding and for one owner; it fails on other lists, which are then not cached.
abbrev owner_of : Bytes → SubjectBinding
owner_of domain = record { role = codes "owner"; domain = domain }

abbrev marshal_owner : List SubjectBinding → Result Bytes
marshal_owner [] = ok []
marshal_owner (b ∷ []) = if b.role == codes "owner" then ok (1 ∷ b.domain) else err internal
marshal_owner (b ∷ c ∷ bs) = err internal

abbrev unmarshal_owner : Bytes → Result (List SubjectBinding)
unmarshal_owner [] = ok []
unmarshal_owner (c ∷ domain) = ok (owner_of domain ∷ [])

abbrev owner_codec : BindingCodec
owner_codec = record { marshal = marshal_owner; unmarshal = unmarshal_owner; ttl = 10 }

one_owner :
    (b : SubjectBinding) (raw : Bytes)
    → (if b.role == codes "owner" then ok (1 ∷ b.domain) else err internal) ≡ ok raw
    → unmarshal_owner raw ≡ ok (b ∷ [])
one_owner b raw h = elim (Bool-cases (b.role == codes "owner")) [
  | inl e ↦
      let same : 1 ∷ b.domain ≡ raw = ok_injective (1 ∷ b.domain) raw (rw e at h) in
      let role : b.role ≡ codes "owner" = ground (arith, e, bytes_beq_iff b.role (codes "owner")) in
      rw (← same, ← role) refl
  | inr e ↦ absurd (err_not_ok internal raw (rw e at h))
]

owner_codec-Decodes : Decodes (in_memory (λ m. m)) owner_codec
owner_codec-Decodes [] raw m = rw (← ok_injective [] raw m) refl
owner_codec-Decodes (b ∷ []) raw m = one_owner b raw m
owner_codec-Decodes (b ∷ c ∷ bs) raw m = absurd (err_not_ok internal raw m)

abbrev owner_row : RoleBinding
owner_row = record { subject = codes "alice"; role = codes "owner"; domain = codes "acme/*" }

-- A read before and after a grant, one from the cache, and one after the role was taken away.
abbrev calls : List BindingCall
calls =
    reads_of (codes "alice") 1 true
    ∷ adds owner_row
    ∷ reads_of (codes "alice") 2 true
    ∷ reads_of (codes "alice") 3 false
    ∷ deletes (codes "alice") (codes "acme/*")
    ∷ reads_of (codes "alice") 4 true
    ∷ []

abbrev answers : List (List SubjectBinding)
answers =
    [] ∷ [] ∷ (owner_of (codes "acme/*") ∷ []) ∷ (owner_of (codes "acme/*") ∷ []) ∷ [] ∷ [] ∷ []

calls_test : run_bindings (in_memory (λ m. m)) owner_codec calls ([], empty) ≡ ok answers
unfolding run_bindings call_bindings read_bindings create_binding delete_by_subject_domain
    list_by_subject get set_value delete expired live_value lookup insert remove bytes_beq
    evict_entries
calls_test = refl

empty-IsCoherent : IsCoherent (in_memory (λ m. m)) owner_codec [] empty
unfolding get live_value lookup
empty-IsCoherent subject later raw h = no_value raw (ok_injective _ _ h)
  where
    no_value : (x : Bytes) → none ≡ some x → unmarshal_owner raw ≡ ok (rows_of subject [])
    no_value x e = cc

run_bindings_exact_example : answers ≡ table_answers calls []
run_bindings_exact_example =
    run_bindings_exact (in_memory (λ m. m)) owner_codec (in_memory-CacheLaws (λ m. m))
      owner_codec-Decodes calls [] empty answers empty-IsCoherent calls_test
