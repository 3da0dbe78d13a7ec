-- ===== src/Authz/Bindings.antt =====
-- internal/hades/authorization/store.go: `Read` of a subject's role bindings through the cache;
-- engine.go: `AddBinding`, `DeleteBinding`. The cache, which may fail, is an interface; so is the
-- encoding of its entries (JSON). An update is one step: calls do not overlap here.
pub mod Refinement
pub mod InMemory
mod Tests
use hades.Prelude.{
  Bool, Bytes, List, Option, [], codes, if◌then◌else◌, ltb, map, none, some, ℕ, ◌*◌, ◌++◌, ◌∷◌,
}
use hades.Result.{Result, err, internal, ok}
use hades.Identity.Tables.{RoleBinding, create_binding, delete_by_subject_domain, list_by_subject}
use hades.Auth.Login.{second}

-- cache.Cache, of which the stores uses these
pub record BindingCache (C : Type 0) : Type 0 where
  pub get : C → Bytes → ℕ → Result (Option Bytes)
  pub set : C → Bytes → Bytes → ℕ → ℕ → C
  pub delete : C → Bytes → Result (Unit {0}) × C

-- opaSubjectBinding
pub record SubjectBinding : Type 0 where
  pub role : Bytes
  pub domain : Bytes

abbrev pub of_row : RoleBinding → SubjectBinding
of_row b = record { role = b.role; domain = b.domain }

-- bindingCacheKey
abbrev pub binding_cache_key : Bytes → Bytes
binding_cache_key subject = codes "opa:bindings:" ++ subject

abbrev pub negative_binding_cache_ttl : ℕ
negative_binding_cache_ttl = 2 * second

-- marshalSubjectBindings and unmarshalSubjectBindings, which are encoding/json on texts that are
-- valid UTF-8, and the TTL of the store
pub record BindingCodec : Type 0 where
  pub marshal : List SubjectBinding → Result Bytes
  pub unmarshal : Bytes → Result (List SubjectBinding)
  pub ttl : ℕ

abbrev pub entry_ttl : ℕ → List SubjectBinding → ℕ
entry_ttl ttl [] = if ltb negative_binding_cache_ttl ttl then negative_binding_cache_ttl else ttl
entry_ttl ttl (b ∷ bs) = ttl

module _ {C : Type 0} (cache : BindingCache C) (codec : BindingCodec) where
  abbrev store_encoded : C → Bytes → List SubjectBinding → ℕ → Result Bytes → C
  store_encoded c key rows now (err e) = c
  store_encoded c key rows now (ok raw) = cache.set c key raw (entry_ttl codec.ttl rows) now

  abbrev pub fill : C → Bytes → List SubjectBinding → ℕ → C
  fill c key rows now = store_encoded c key rows now (codec.marshal rows)

  abbrev from_table :
      C → Bytes → ℕ → Result (List SubjectBinding) → Result (List SubjectBinding) × C
  from_table c key now (err e) = (err e, c)
  from_table c key now (ok rows) = (ok rows, fill c key rows now)

  abbrev pub read_with :
      C
      → Bytes
      → ℕ
      → Result (List SubjectBinding)
      → Result (Option Bytes)
      → Result (List SubjectBinding) × C
  read_with c key now table (ok (some raw)) = (codec.unmarshal raw, c)
  read_with c key now table (ok none) = from_table c key now table
  read_with c key now table (err e) = from_table c key now table

  -- hybridStore.Read of role_bindings/subject, given what the table answers
  unfoldable pub read_bindings :
      C → Bytes → ℕ → Result (List SubjectBinding) → Result (List SubjectBinding) × C
  read_bindings c subject now table =
      read_with c (binding_cache_key subject) now table
        (cache.get c (binding_cache_key subject) now)

abbrev pub rows_of : Bytes → List RoleBinding → List SubjectBinding
rows_of subject bs = map of_row (list_by_subject subject bs)

-- A call of the engine: a read, of which the table may fail, or an update.
pub data BindingCall : Type 0 where
  reads_of : Bytes → ℕ → Bool → BindingCall
  adds : RoleBinding → BindingCall
  deletes : Bytes → Bytes → BindingCall

module _ {C : Type 0} (cache : BindingCache C) (codec : BindingCodec) where
  abbrev pub table_answer : Bool → List SubjectBinding → Result (List SubjectBinding)
  table_answer up rows = if up then ok rows else err internal

  abbrev pub after_delete :
      List RoleBinding
      → Result (Unit {0}) × C
      → Result (List SubjectBinding) × (List RoleBinding × C)
  after_delete bs (ok u, c) = (ok [], (bs, c))
  after_delete bs (err e, c) = (err e, (bs, c))

  abbrev pub after_read :
      List RoleBinding
      → Result (List SubjectBinding) × C
      → Result (List SubjectBinding) × (List RoleBinding × C)
  after_read bs (answer, c) = (answer, (bs, c))

  -- The table and the cache after a call, and what it answers, which is nothing for an update.
  unfoldable pub call_bindings :
      BindingCall → List RoleBinding × C → Result (List SubjectBinding) × (List RoleBinding × C)
  call_bindings (reads_of subject now up) (bs, c) =
      after_read bs (read_bindings cache codec c subject now (table_answer up (rows_of subject bs)))
  call_bindings (adds b) (bs, c) =
      after_delete (create_binding b bs) (cache.delete c (binding_cache_key b.subject))
  call_bindings (deletes subject domain) (bs, c) =
      after_delete (delete_by_subject_domain subject domain bs)
        (cache.delete c (binding_cache_key subject))
