-- ===== src/Authz/Bindings/Refinement.antt =====
-- The engine's calls with the cache against the table alone.
use hades.Prelude.{
  Bool, Bool-cases, Bytes, List, Option, [], any, ap, arith, bytes_beq, bytes_beq_iff, false, inl,
  inr, keep, map, none, not, refl, some, sym, true, ℕ, ◌++◌, ◌==◌, ◌∙◌, ◌∷◌, ◌≡◌, ◌⊎◌, nat_eq,
  bytes_eq, string_eq,
}
use hades.Result.{Result, err, err_not_ok, internal, ok, ◌>>=◌}
use hades.Identity.Tables.{
  RoleBinding, binds, create_binding, delete_by_subject_domain, is_binding, list_by_subject,
}
use hades.Authz.Bindings.{
  BindingCache, BindingCall, BindingCodec, SubjectBinding, adds, after_delete, after_read,
  binding_cache_key, call_bindings, deletes, fill, of_row, read_bindings, read_with, reads_of,
  rows_of, table_answer,
}
use hades.Auth.Recovery.{ok_injective}

-- What the table alone does.
abbrev pub table_call : BindingCall → List RoleBinding → List SubjectBinding × List RoleBinding
table_call (reads_of subject now up) bs = (rows_of subject bs, bs)
table_call (adds b) bs = ([], create_binding b bs)
table_call (deletes subject domain) bs = ([], delete_by_subject_domain subject domain bs)

unfoldable pub table_answers : List BindingCall → List RoleBinding → List (List SubjectBinding)
table_answers [] bs = []
table_answers (x ∷ xs) bs = let (answer, bs') = table_call x bs in answer ∷ table_answers xs bs'

-- What is relied on of a cache: a hit is of the last value set for the key, and not of a key that
-- was deleted since. A cache may forget.
pub record CacheLaws {C : Type 0} (cache : BindingCache C) : Type 0 where
  pub hit_after_set :
      (c : C) (k v : Bytes) (ttl now : ℕ) (j : Bytes) (later : ℕ) (raw : Bytes)
      → cache.get (cache.set c k v ttl now) j later ≡ ok (some raw)
      → (((k == j) ≡ true) × (raw ≡ v)) ⊎ (cache.get c j later ≡ ok (some raw))
  pub hit_after_delete :
      (c : C) (k : Bytes) (j : Bytes) (later : ℕ) (raw : Bytes)
      → (cache.delete c k).0 ≡ ok tt
      → cache.get (cache.delete c k).1 j later ≡ ok (some raw)
      → ((k == j) ≡ false) × (cache.get c j later ≡ ok (some raw))

keep-concat {ℓ} :
    {A : Type ℓ} (p : A → Bool) (xs : List A) (x : A)
    → p x ≡ false
    → keep p (xs ++ x ∷ []) ≡ keep p xs
keep-concat p [] x h = rw h refl
keep-concat p (y ∷ xs) x h = rw (keep-concat p xs x h) refl

keep-keep {ℓ} :
    {A : Type ℓ} (p q : A → Bool) (xs : List A)
    → ((x : A) → q x ≡ false → p x ≡ false)
    → keep p (keep q xs) ≡ keep p xs
keep-keep p q [] h = refl
keep-keep p q (x ∷ xs) h = elim (Bool-cases (q x)) [
  | inl e ↦ rw (e, keep-keep p q xs h) refl
  | inr e ↦ rw (e, h x e, keep-keep p q xs h) refl
]

rows_of-create_binding :
    (b : RoleBinding) (other : Bytes) (bs : List RoleBinding)
    → (b.subject == other) ≡ false
    → rows_of other (create_binding b bs) ≡ rows_of other bs
unfolding create_binding list_by_subject
rows_of-create_binding b other bs h = elim (Bool-cases (any (is_binding b) bs)) [
  | inl e ↦ rw e refl
  | inr e ↦ rw e (ap (map of_row) (keep-concat (λ x. x.subject == other) bs b h))
]

rows_of-delete_by_subject_domain :
    (subject domain other : Bytes) (bs : List RoleBinding)
    → (subject == other) ≡ false
    → rows_of other (delete_by_subject_domain subject domain bs) ≡ rows_of other bs
unfolding delete_by_subject_domain list_by_subject
rows_of-delete_by_subject_domain subject domain other bs h = ap (map of_row) (
    keep-keep (λ x. x.subject == other) (λ x. not (binds subject domain x)) bs
      (λ x e. ground (
        arith,
        h,
        e,
        bytes_beq_iff x.subject subject,
        bytes_beq_iff x.subject other,
        bytes_beq_iff subject other,
      )))

binding_cache_key-== : (a b : Bytes) → (binding_cache_key a == binding_cache_key b) ≡ (a == b)
unfolding bytes_beq
binding_cache_key-== a b = refl

joined :
    {A : Type 0} (o : Result (List A)) (a : A) (answers : List A)
    → (o >>= (λ later. ok (a ∷ later))) ≡ ok answers
    → (later : List A) × (o ≡ ok later) × (answers ≡ a ∷ later)
joined (err f) a answers e = absurd (err_not_ok f answers e)
joined (ok later) a answers e = (later, refl, ok_injective answers (a ∷ later) (sym e))

module _ {C : Type 0} (cache : BindingCache C) (codec : BindingCodec) where
  -- Calls in a row, up to the first that fails.
  unfoldable pub run_bindings :
      List BindingCall → List RoleBinding × C → Result (List (List SubjectBinding))
  run_bindings [] s = ok []
  run_bindings (x ∷ xs) s =
      let (answer, s') = call_bindings cache codec x s in
      answer >>= (λ a. run_bindings xs s' >>= (λ answers. ok (a ∷ answers)))

  abbrev pub Decodes : Type 0
  Decodes =
      (rows : List SubjectBinding) (raw : Bytes)
      → codec.marshal rows ≡ ok raw
      → codec.unmarshal raw ≡ ok rows

  -- Whatever the cache would answer, now or later, is what the table has.
  abbrev pub IsCoherent : List RoleBinding → C → Type 0
  IsCoherent bs c =
      (subject : Bytes) (later : ℕ) (raw : Bytes)
      → cache.get c (binding_cache_key subject) later ≡ ok (some raw)
      → codec.unmarshal raw ≡ ok (rows_of subject bs)

  -- A call that went well answered as the table alone does, and left the cache coherent.
  abbrev Refines :
      List SubjectBinding × List RoleBinding
      → Result (List SubjectBinding) × (List RoleBinding × C)
      → Type 0
  Refines (rows, bs) (answer, (bs', c)) =
      (a : List SubjectBinding) → answer ≡ ok a → (a ≡ rows) × (bs' ≡ bs) × IsCoherent bs c

  module _ (laws : CacheLaws cache) (decodes : Decodes) where
    fill-IsCoherent :
        (bs : List RoleBinding) (c : C) (subject : Bytes) (now : ℕ) (o : Result Bytes)
        → codec.marshal (rows_of subject bs) ≡ o
        → IsCoherent bs c
        → IsCoherent bs (fill cache codec c (binding_cache_key subject) (rows_of subject bs) now)
    fill-IsCoherent bs c subject now (err e) m h = rw m h
    fill-IsCoherent bs c subject now (ok v) m h = rw m (λ other later raw hit.
        elim (laws.hit_after_set c (binding_cache_key subject) v _ now (binding_cache_key other)
          later raw hit) [
            | inl (e, same) ↦
                let it : subject ≡ other =
                  ground
                    (arith, e, binding_cache_key-== subject other, bytes_beq_iff subject other) in
                rw (same, ← it) (decodes (rows_of subject bs) v m)
            | inr old ↦ h other later raw old
          ])

    read_with-Refines :
        (bs : List RoleBinding) (c : C) (subject : Bytes) (now : ℕ) (up : Bool)
        (o : Result (Option Bytes))
        → cache.get c (binding_cache_key subject) now ≡ o
        → IsCoherent bs c
        → Refines
            (rows_of subject bs, bs)
            (after_read cache codec bs (
              read_with cache codec c
                (binding_cache_key subject)
                now
                (table_answer cache codec up (rows_of subject bs))
                o))
    read_with-Refines bs c subject now up (ok (some raw)) g h a e =
        (ok_injective a (rows_of subject bs) (sym e ∙ h subject now raw g), refl, h)
    read_with-Refines bs c subject now true (ok none) g h a e = (
      ok_injective a (rows_of subject bs) (sym e),
      refl,
      fill-IsCoherent bs c subject now _ refl h,
    )
    read_with-Refines bs c subject now false (ok none) g h a e = absurd (err_not_ok internal a e)
    read_with-Refines bs c subject now true (err f) g h a e = (
      ok_injective a (rows_of subject bs) (sym e),
      refl,
      fill-IsCoherent bs c subject now _ refl h,
    )
    read_with-Refines bs c subject now false (err f) g h a e = absurd (err_not_ok internal a e)

    after_delete-Refines :
        (bs bs' : List RoleBinding) (c : C) (subject : Bytes) (end : Result (Unit {0}) × C)
        → cache.delete c (binding_cache_key subject) ≡ end
        → ((other : Bytes) → (subject == other) ≡ false → rows_of other bs' ≡ rows_of other bs)
        → IsCoherent bs c
        → Refines ([], bs') (after_delete cache codec bs' end)
    after_delete-Refines bs bs' c subject (ok u, c') d same h a e = (
      ok_injective a [] (sym e),
      refl,
      λ other later raw hit.
          let (apart, old) =
            laws.hit_after_delete c (binding_cache_key subject) (binding_cache_key other) later raw
              (ap (λ x. x.0) d) (rw d hit) in
          rw (same other (sym (binding_cache_key-== subject other) ∙ apart))
            (h other later raw old),
    )
    after_delete-Refines bs bs' c subject (err f, c') d same h a e = absurd (err_not_ok f a e)

    call_bindings-Refines :
        (x : BindingCall) (bs : List RoleBinding) (c : C)
        → IsCoherent bs c
        → Refines (table_call x bs) (call_bindings cache codec x (bs, c))
    unfolding call_bindings read_bindings
    call_bindings-Refines (reads_of subject now up) bs c h =
        read_with-Refines bs c subject now up _ refl h
    call_bindings-Refines (adds b) bs c h =
        after_delete-Refines bs (create_binding b bs) c b.subject _ refl
          (λ other e. rows_of-create_binding b other bs e) h
    call_bindings-Refines (deletes subject domain) bs c h =
        after_delete-Refines bs (delete_by_subject_domain subject domain bs) c subject _ refl
          (λ other e. rows_of-delete_by_subject_domain subject domain other bs e) h

    run_step :
        (xs : List BindingCall) (end : Result (List SubjectBinding) × (List RoleBinding × C))
        (expected : List SubjectBinding × List RoleBinding) (answers : List (List SubjectBinding))
        → ((bs : List RoleBinding) (c : C) (later : List (List SubjectBinding))
            → IsCoherent bs c
            → run_bindings xs (bs, c) ≡ ok later
            → later ≡ table_answers xs bs)
        → Refines expected end
        → (end.0 >>= (λ a. run_bindings xs end.1 >>= (λ later. ok (a ∷ later)))) ≡ ok answers
        → answers ≡ expected.0 ∷ table_answers xs expected.1
    run_step xs (err f, s) expected answers exact r e = absurd (err_not_ok f answers e)
    run_step xs (ok a, (bs, c)) (rows, table) answers exact r e =
        let (same, tables, coherent) = r a refl in
        let (later, ran, split) = joined (run_bindings xs (bs, c)) a answers e in
        split ∙ (rw (same, exact table c later coherent (rw tables at ran)) refl)

    -- The store with its cache refines the table: in a run of reads and updates, one after another,
    -- that starts coherent and in which no call fails, every read answers exactly what the table
    -- holds for its subject at that time, so that no answer of the cache is stale. The cache obeys
    -- its laws, and may forget and be down; the encoding decodes what it encodes.
    pub run_bindings_exact :
        (xs : List BindingCall) (bs : List RoleBinding) (c : C)
        (answers : List (List SubjectBinding))
        → IsCoherent bs c
        → run_bindings xs (bs, c) ≡ ok answers
        → answers ≡ table_answers xs bs
    unfolding run_bindings table_answers
    run_bindings_exact [] bs c answers h e = ok_injective answers [] (sym e)
    run_bindings_exact (x ∷ xs) bs c answers h e =
        run_step xs (call_bindings cache codec x (bs, c)) (table_call x bs) answers
          (λ bs' c' later. run_bindings_exact xs bs' c' later) (call_bindings-Refines x bs c h) e
