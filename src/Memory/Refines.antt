-- ===== src/Memory/Refines.antt =====
-- client/memory.go against storage/cas.go: the conditional operations of MemoryCache do what the storage
-- layer's rules for rows say, and what the others do to those rows.
use ocache.Base.{
  Bool-cases, Bytes, Option, ap, arith, false, if◌then◌else◌, inl, inr, none, refl, some, subst,
  sym, true, ℕ, ◌+◌, ◌∙◌, ◌≡◌,
}
use ocache.Base.Int.{ℤ}
use ocache.Base.Assoc.{lookup, remove}
use ocache.Cas.State.{cas_admits, cas_live}
use ocache.Cas.Delete.{delete_refusal}
use ocache.Memory.State.{
  Answer, CacheEntry, MemoryCache, Op, Result, absence_token_locked, absent, delete,
  delete_if_version, delete_unless, do_close, do_delete, do_delete_if_version, do_expire,
  do_get_with_version, do_put, do_put_if_version, done, drop_entry, entry_expiry, expire_entry,
  found, get_with_version, is_live, is_unexpired, live_locked, not_found, perform, put,
  put_if_version, put_stamped, stamp_or_legacy, stamped, token_of, value_of, version_mismatch,
}
use ocache.Memory.WellFormed.{LateExpiry, Ok}
use ocache.Memory.Decide.{admits_locked-cas_admits, classified, refusal-delete_refusal, row_class}
use ocache.Memory.Rows.{
  Store, on_rows, row_answer, row_delete, row_drop, row_expire, row_of, set_row, store_of,
  value_row,
}
use ocache.Memory.Written.{
  fence_class, store_of-delete_stamped, store_of-drop_locked, store_of-expired, store_of-put,
  store_of-put_stamped,
}

-- The two readings of the clock in an operation fall on one side of the key's expiry.
abbrev pub Steady : Op → MemoryCache → Type 0
Steady (do_get_with_version now later key) m = live_locked now m key ≡ live_locked later m key
Steady (do_put_if_version now later write_now key body ttl expected) m =
    live_locked now m key ≡ live_locked later m key
Steady (do_delete_if_version now later key expected) m =
    live_locked now m key ≡ live_locked later m key
Steady (do_put now key body ttl) m = Unit
Steady (do_delete key) m = Unit
Steady (do_expire now key) m = Unit
Steady do_close m = Unit

abbrev pub report : Result → Answer × Store
report r = (r.answer, store_of r.next)

row_drop-value_row :
    (body : Bytes) (expires_at stamp : Option ℕ) (key : Bytes) (s : Store)
    → LateExpiry (some (record { value = body; expires_at = expires_at }))
    → row_drop (some (value_row body expires_at stamp)) key s ≡ (done, set_row key none s.counter s)
row_drop-value_row body none stamp key s late = refl
row_drop-value_row body (some t) stamp key s late = ground arith

row_expire-value_row :
    (now : ℕ) (body : Bytes) (expires_at stamp : Option ℕ) (key : Bytes) (s : Store)
    → LateExpiry (some (record { value = body; expires_at = expires_at }))
    → row_expire now (some (value_row body expires_at stamp)) key s
      ≡ (if is_unexpired now expires_at then s else set_row key none s.counter s)
unfolding is_unexpired
row_expire-value_row now body none stamp key s late = refl
row_expire-value_row now body (some t) stamp key s late = ground arith

module _ (m : MemoryCache) (ok : Ok m) (key : Bytes) where
  put_if_version-on_rows :
      (now later write_now : ℕ) (body : Bytes) (ttl : ℤ) (expected : ℕ)
      → live_locked now m key ≡ live_locked later m key
      → report (put_if_version now later write_now key body ttl expected m)
        ≡ on_rows (do_put_if_version now later write_now key body ttl expected) (store_of m)
  unfolding put_if_version
  put_if_version-on_rows now later write_now body ttl expected steady =
      rw (classified m ok key now, admits_locked-cas_admits m ok key now later expected steady)
        (elim (cas_admits (row_class m ok key now).0 (row_class m ok key now).1 expected)
          as (λ b.
            report (
              if b
              then record {
                answer = stamped (m.version_counter + 1);
                next = put_stamped write_now key body ttl m;
              }
              else record { answer = version_mismatch (row_class m ok key now).1; next = m })
            ≡ (if b
                then (
                  stamped (m.version_counter + 1),
                  set_row key
                      (some (
                        value_row body (entry_expiry write_now ttl) (some (m.version_counter + 1))))
                      (m.version_counter + 1) (store_of m),
                )
                else (version_mismatch (row_class m ok key now).1, store_of m))) [
                  | true ↦
                      ap (λ s. (stamped (m.version_counter + 1), s))
                        (store_of-put_stamped m key write_now body ttl)
                  | false ↦ refl
                ])

  delete_unless-row_delete :
      (o : Option ℕ) → report (delete_unless o key m) ≡ row_delete o key (store_of m)
  unfolding delete_unless
  delete_unless-row_delete (some cur) = refl
  delete_unless-row_delete none = ap (λ s. (done, s)) (store_of-delete_stamped m key)

  delete_if_version-on_rows :
      (now later expected : ℕ)
      → live_locked now m key ≡ live_locked later m key
      → report (delete_if_version now later key expected m)
        ≡ on_rows (do_delete_if_version now later key expected) (store_of m)
  unfolding delete_if_version
  delete_if_version-on_rows now later expected steady =
      rw
        (
          classified m ok key now,
          refusal-delete_refusal m ok key now later expected steady,
          delete_unless,
        )
        (delete_unless-row_delete
          (delete_refusal (row_class m ok key now).0 (row_class m ok key now).1 expected))

  -- A key that is not live answers its fence or a fresh token.
  token_of-row_answer :
      (f : Option ℕ)
      → report (record { answer = absent (token_of f m).0; next = (token_of f m).1 })
        ≡ row_answer (fence_class f) (store_of m) key
  unfolding token_of
  token_of-row_answer none = refl
  token_of-row_answer (some f) = refl

  live_row-row_answer :
      (o : Option CacheEntry) (now later : ℕ)
      → o ≡ lookup key m.entries
      → is_live now o ≡ is_live later o
      → report (
          if is_live now o
          then record {
            answer =
                found
                  (value_of o)
                  (if is_live later o then stamp_or_legacy (lookup key m.versions) else 0);
            next = m;
          }
          else record {
            answer = absent (absence_token_locked key m).0;
            next = (absence_token_locked key m).1;
          })
        ≡ row_answer
            (if is_live now o
              then (cas_live, stamp_or_legacy (lookup key m.versions))
              else fence_class (lookup key m.fences))
            (store_of m)
            key
  unfolding is_live
  live_row-row_answer none now later e steady = token_of-row_answer (lookup key m.fences)
  live_row-row_answer (some entry) now later e steady =
      elim (Bool-cases (is_unexpired now entry.expires_at)) [
        | inl live ↦ rw (sym steady, live, sym e) refl
        | inr dead ↦ rw dead (token_of-row_answer (lookup key m.fences))
      ]

  drop_entry-row_drop :
      (o : Option CacheEntry)
      → o ≡ lookup key m.entries
      → report (drop_entry o key m)
        ≡ row_drop (row_of o (lookup key m.versions) (lookup key m.fences)) key (store_of m)
  unfolding drop_entry
  drop_entry-row_drop none e =
      elim (lookup key m.fences)
        as (λ f.
          (not_found, store_of m)
          ≡ row_drop (row_of none (lookup key m.versions) f) key (store_of m)) [
            | none ↦ refl
            | some f ↦ refl
          ]
  drop_entry-row_drop (some entry) e =
      ap (λ s. (done, s)) (store_of-drop_locked m key)
      ∙ sym (
          row_drop-value_row entry.value entry.expires_at (lookup key m.versions) key (store_of m)
            (subst LateExpiry (sym e) (ok.expiries key)))

  expire_entry-row_expire :
      (now : ℕ) (o : Option CacheEntry)
      → o ≡ lookup key m.entries
      → store_of (expire_entry now o key m)
        ≡ row_expire now (row_of o (lookup key m.versions) (lookup key m.fences)) key (store_of m)
  unfolding expire_entry is_unexpired
  expire_entry-row_expire now none e =
      elim (lookup key m.fences)
        as (λ f.
          store_of m ≡ row_expire now (row_of none (lookup key m.versions) f) key (store_of m)) [
            | none ↦ refl
            | some f ↦ refl
          ]
  expire_entry-row_expire now (some entry) e =
      let late = subst LateExpiry (sym e) (ok.expiries key) in
      let same : lookup key m.fences ≡ none = elim (ok.separate key) [
        | inl gone ↦ absurd cc
        | inr gone ↦ gone
      ] in
      (elim (is_unexpired now entry.expires_at)
        as (λ b.
          store_of (
            if b
            then m
            else record m { entries = remove key m.entries; versions = remove key m.versions })
          ≡ (if b then store_of m else set_row key none m.version_counter (store_of m))) [
            | true ↦ refl
            | false ↦ store_of-expired m key same
          ])
      ∙ sym (
          row_expire-value_row now entry.value entry.expires_at (lookup key m.versions) key
            (store_of m) late)

-- GetWithVersion, PutIfVersion and DeleteIfVersion of a well-formed MemoryCache answer what the storage
-- layer's classification of the key's row and its admission rules say, and change the rows as they do, where
-- the clock does not pass the key's expiry between the two readings of such an operation; Put writes an
-- unstamped row, the drop of an expired entry takes an expired value row away and no other, and Close empties
-- the cache and keeps the counter. Delete takes a value row away, expired or not, and over a missing row or a
-- fence answers not found and changes nothing; that rule is the cache's own. Get and GetRange are not spoken
-- of.
pub perform-on_rows :
    (op : Op) (m : MemoryCache)
    → Ok m
    → Steady op m
    → report (perform op m) ≡ on_rows op (store_of m)
unfolding get_with_version delete put lookup
perform-on_rows (do_get_with_version now later key) m ok h =
    rw (classified m ok key now)
      (live_row-row_answer m ok key (lookup key m.entries) now later refl h)
perform-on_rows (do_put_if_version now later write_now key body ttl expected) m ok h =
    put_if_version-on_rows m ok key now later write_now body ttl expected h
perform-on_rows (do_delete_if_version now later key expected) m ok h =
    delete_if_version-on_rows m ok key now later expected h
perform-on_rows (do_put now key body ttl) m ok h =
    ap (λ s. (done, s))
      (store_of-put m key (record { value = body; expires_at = entry_expiry now ttl }))
perform-on_rows (do_delete key) m ok h = drop_entry-row_drop m ok key (lookup key m.entries) refl
perform-on_rows (do_expire now key) m ok h =
    ap (λ s. (done, s)) (expire_entry-row_expire m ok key now (lookup key m.entries) refl)
perform-on_rows do_close m ok h = refl
