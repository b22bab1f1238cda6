-- ===== src/Grpc/Lookup/Cache.antt =====
-- grpc/lookup.go: what the cache of policies holds.
use protobuf_interceptors.Base.{
  ◌≡◌, refl, ap, sym, Option, some, [], arith, Bool-cases, Option-cases, inl, inr,
}
use protobuf_interceptors.Text.Bytes.{Bytes, lookup, insert, lookup-insert, equal, equal_iff}
use protobuf_interceptors.Core.Errors.{ok, err, Result-cases}
use protobuf_interceptors.Core.Resolve.{Policy}
use protobuf_interceptors.Grpc.Lookup.{
  Registered, PolicyCache, lookup_method_policy, get_method_policy,
}

module _ (find : Bytes → Registered) where
  -- Each policy stored is the one that a lookup of its method finds.
  abbrev pub IsConsistent : PolicyCache → Type 0
  IsConsistent cache =
      (name : Bytes) (policy : Option Policy)
      → lookup name cache ≡ some policy
      → lookup_method_policy find name ≡ ok policy

  -- The cache that a process starts with.
  pub empty-IsConsistent : IsConsistent []
  unfolding lookup
  empty-IsConsistent name policy h = cc

  insert-IsConsistent :
      (cache : PolicyCache) (name : Bytes) (policy : Option Policy)
      → IsConsistent cache
      → lookup_method_policy find name ≡ ok policy
      → IsConsistent (insert name policy cache)
  insert-IsConsistent cache name policy c found name' policy' h =
      elim (Bool-cases (equal name name')) [
        | inl same ↦
            let e : name ≡ name' = (equal_iff name name').0 same in
            ground (arith, lookup-insert name name' policy cache, ap (lookup_method_policy find) e)
        | inr other ↦ c name' policy' (ground (arith, lookup-insert name name' policy cache))
      ]

  -- With a consistent cache the answer is that of a lookup without one, found or failed, and the
  -- cache stays consistent: it never holds a method whose descriptor is not registered.
  pub get_method_policy-IsConsistent :
      (cache : PolicyCache) (name : Bytes)
      → IsConsistent cache
      → ((get_method_policy find cache name).0 ≡ lookup_method_policy find name)
        × IsConsistent (get_method_policy find cache name).1
  unfolding get_method_policy
  get_method_policy-IsConsistent cache name c = elim (Option-cases (lookup name cache)) [
    | inl missing ↦ elim (Result-cases (lookup_method_policy find name)) [
      | inl (policy, e) ↦
          let made : get_method_policy find cache name ≡ (ok policy, insert name policy cache) =
            ground arith in
          rw (made, e) (refl, insert-IsConsistent cache name policy c e)
      | inr (e, failed) ↦
          let made : get_method_policy find cache name ≡ (err e, cache) = ground arith in
          rw (made, failed) (refl, c)
    ]
    | inr (policy, found) ↦
        let made : get_method_policy find cache name ≡ (ok policy, cache) = ground arith in
        rw made (sym (c name policy found), c)
  ]
