-- ===== src/Authz/Bindings/InMemory.antt =====
-- The in-process cache obeys the laws that the bindings store relies on.
use hades.Prelude.{Bytes, Option, ap, inl, inr, some, ◌≡◌, ◌⊎◌}
use hades.Result.{ok}
use hades.Cache.Memory.{MemEntry, MemoryCache, RangeOrder, delete, get, set_value}
use hades.Cache.Memory.Hits.{get-delete_hit, get-set_value_hit}
use hades.Auth.Recovery.{ok_injective}
use hades.Authz.Bindings.{BindingCache}
use hades.Authz.Bindings.Refinement.{CacheLaws}

-- The in-process cache, given the orders of its range statements
abbrev pub in_memory : RangeOrder MemEntry → BindingCache MemoryCache
in_memory order = record {
  get = λ m key now. ok (get m key now);
  set = λ m key value ttl now. set_value order m key value ttl now;
  delete = λ m key. (ok tt, delete m key);
}

hit_or_old :
    (X : Type 0) (o : Option Bytes) (raw : Bytes) → X ⊎ (o ≡ some raw) → X ⊎ (ok o ≡ ok (some raw))
hit_or_old X o raw (inl x) = inl x
hit_or_old X o raw (inr e) = inr (ap ok e)

pub in_memory-CacheLaws : (order : RangeOrder MemEntry) → CacheLaws (in_memory order)
in_memory-CacheLaws order = record {
  hit_after_set = λ c k v ttl now j later raw h.
      hit_or_old _ _ _ (get-set_value_hit order c k v ttl now j later raw (ok_injective _ _ h));
  hit_after_delete = λ c k j later raw done h.
      let (apart, old) = get-delete_hit c k j later raw (ok_injective _ _ h) in (apart, ap ok old);
}
