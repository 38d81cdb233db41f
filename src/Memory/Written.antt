-- ===== src/Memory/Written.antt =====
-- How storage/cas.go reads the rows of a MemoryCache (client/memory.go), and the writes of its operations
-- as writes of rows.
use ocache.Base.{
  Bool-cases, Bytes, Option, arith, bytes_eq, bytes_eq_iff, false, if◌then◌else◌, inl, inr, none,
  refl, some, subst, sym, true, ℕ, ◌+◌, ◌≡◌, ◌⊎◌,
}
use ocache.Base.Int.{ℤ}
use ocache.Base.Assoc.{insert, lookup, lookup-insert, lookup-remove, remove}
use ocache.Merge.Row.{effective_row_version}
use ocache.Cas.State.{CasRowState, cas_absent, cas_classify, cas_fenced, cas_live}
use ocache.Memory.State.{
  CacheEntry, MemoryCache, delete_stamped, drop_locked, entry_expiry, is_live, is_unexpired,
  put_stamped, stamp_or_legacy,
}
use ocache.Memory.WellFormed.{InRange, LateExpiry}
use ocache.Memory.Rows.{Store, fence_row, row_of, set_row, store_of, value_row}

abbrev pub fence_class : Option ℕ → CasRowState × ℕ
fence_class none = (cas_absent, 0)
fence_class (some f) = (cas_fenced, f)

-- Storage reads the row of an entry as the cache reads the entry.
cas_classify-value_row :
    (now : ℕ) (body : Bytes) (expires_at stamp : Option ℕ)
    → LateExpiry (some (record { value = body; expires_at = expires_at }))
    → cas_classify now (some (value_row body expires_at stamp))
      ≡ (if is_unexpired now expires_at then (cas_live, stamp_or_legacy stamp) else (cas_absent, 0))
unfolding cas_classify is_unexpired stamp_or_legacy effective_row_version
cas_classify-value_row now body none none late = ground arith
cas_classify-value_row now body none (some v) late = ground arith
cas_classify-value_row now body (some t) none late = ground arith
cas_classify-value_row now body (some t) (some v) late = ground arith

pub cas_classify-row_of :
    (now c : ℕ) (entry : Option CacheEntry) (stamp fence : Option ℕ)
    → LateExpiry entry
    → InRange c fence
    → (entry ≡ none) ⊎ (fence ≡ none)
    → cas_classify now (row_of entry stamp fence)
      ≡ (if is_live now entry then (cas_live, stamp_or_legacy stamp) else fence_class fence)
unfolding cas_classify is_live
cas_classify-row_of now c (some e) stamp none late fenced apart =
    cas_classify-value_row now e.value e.expires_at stamp late
cas_classify-row_of now c (some e) stamp (some f) late fenced (inl h) = absurd cc
cas_classify-row_of now c (some e) stamp (some f) late fenced (inr h) = absurd cc
cas_classify-row_of now c none stamp none late fenced apart = refl
cas_classify-row_of now c none stamp (some f) late fenced apart = ground (arith, fenced.0)

pub store_eq : (s t : Store) → ((k : Bytes) → s.rows k ≡ t.rows k) → s.counter ≡ t.counter → s ≡ t
store_eq s t h e = λ i. record { rows = λ k. h k i; counter = e i }

module _ (m : MemoryCache) (key : Bytes) where
  -- The maps after a write at a key, as a write of the key's row.
  pub store_of-put :
      (e : CacheEntry)
      → store_of (record {
        entries = insert key e m.entries;
        versions = remove key m.versions;
        version_counter = m.version_counter;
        fences = remove key m.fences;
      })
        ≡ set_row key (some (value_row e.value e.expires_at none)) m.version_counter (store_of m)
  store_of-put e =
      store_eq _ _
        (λ k.
          rw
            (
              lookup-insert k key e m.entries,
              lookup-remove k key m.versions,
              lookup-remove k key m.fences,
            )
            (elim (bytes_eq k key)
              as (λ b.
                row_of (if b then some e else lookup k m.entries)
                  (if b then none else lookup k m.versions) (if b then none else lookup k m.fences)
                ≡ (if b then some (value_row e.value e.expires_at none) else (store_of m).rows k)) [
                  | true ↦ refl
                  | false ↦ refl
                ]))
        refl

  pub store_of-put_stamped :
      (now : ℕ) (body : Bytes) (ttl : ℤ)
      → store_of (put_stamped now key body ttl m)
        ≡ set_row key
            (some (value_row body (entry_expiry now ttl) (some (m.version_counter + 1))))
            (m.version_counter + 1)
            (store_of m)
  store_of-put_stamped now body ttl =
      let e : CacheEntry = record { value = body; expires_at = entry_expiry now ttl } in
      let c : ℕ = m.version_counter + 1 in
      store_eq _ _
        (λ k.
          rw
            (
              lookup-insert k key e m.entries,
              lookup-insert k key c m.versions,
              lookup-remove k key m.fences,
            )
            (elim (bytes_eq k key)
              as (λ b.
                row_of (if b then some e else lookup k m.entries)
                  (if b then some c else lookup k m.versions)
                  (if b then none else lookup k m.fences)
                ≡ (if b
                    then some (value_row body (entry_expiry now ttl) (some c))
                    else (store_of m).rows k)) [ true ↦ refl | false ↦ refl ]))
        refl

  pub store_of-delete_stamped :
      store_of (delete_stamped key m)
      ≡ set_row key (some (fence_row (m.version_counter + 1))) (m.version_counter + 1) (store_of m)
  store_of-delete_stamped =
      let c : ℕ = m.version_counter + 1 in
      store_eq _ _
        (λ k.
          rw
            (
              lookup-remove k key m.entries,
              lookup-remove k key m.versions,
              lookup-insert k key c m.fences,
            )
            (elim (bytes_eq k key)
              as (λ b.
                row_of (if b then none else lookup k m.entries)
                  (if b then none else lookup k m.versions)
                  (if b then some c else lookup k m.fences)
                ≡ (if b then some (fence_row c) else (store_of m).rows k)) [
                  | true ↦ refl
                  | false ↦ refl
                ]))
        refl

  pub store_of-drop_locked :
      store_of (drop_locked key m) ≡ set_row key none m.version_counter (store_of m)
  store_of-drop_locked =
      store_eq _ _
        (λ k.
          rw
            (
              lookup-remove k key m.entries,
              lookup-remove k key m.versions,
              lookup-remove k key m.fences,
            )
            (elim (bytes_eq k key)
              as (λ b.
                row_of (if b then none else lookup k m.entries)
                  (if b then none else lookup k m.versions) (if b then none else lookup k m.fences)
                ≡ (if b then none else (store_of m).rows k)) [ true ↦ refl | false ↦ refl ]))
        refl

  -- An expired entry has no fence.
  pub store_of-expired :
      lookup key m.fences ≡ none
      → store_of (record m { entries = remove key m.entries; versions = remove key m.versions })
        ≡ set_row key none m.version_counter (store_of m)
  store_of-expired gone =
      store_eq _ _
        (λ k.
          rw (lookup-remove k key m.entries, lookup-remove k key m.versions)
            (elim (Bool-cases (bytes_eq k key)) [
              | inl e ↦
                  let here : lookup k m.fences ≡ none =
                    subst (λ j. lookup j m.fences ≡ none) (sym ((bytes_eq_iff k key).0 e)) gone in
                  rw (e, here) refl
              | inr e ↦ rw e refl
            ]))
        refl
