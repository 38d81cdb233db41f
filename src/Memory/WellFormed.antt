-- ===== src/Memory/WellFormed.antt =====
-- A well-formed MemoryCache (client/memory.go), and the writes of its operations on one.
use ocache.Base.{
  Bytes, List, Option, [], arith, bytes_eq, false, if◌then◌else◌, inl, inr, none, refl, some, subst,
  suc, sym, true, zero, ℕ, ◌+◌, ◌<◌, ◌∙◌, ◌≡◌, ◌≤◌, ◌⊎◌,
}
use ocache.Base.Assoc.{insert, lookup, lookup-insert, lookup-remove, remove}
use ocache.Base.Int.{negsuc, pos, ℤ}
use ocache.Memory.State.{
  CacheEntry, MemoryCache, delete_stamped, entry_expiry, memory_legacy_version, put, put_stamped,
}

-- A stamp is above the version of a plain write, and the counter has reached it.
abbrev pub InRange : ℕ → Option ℕ → Type 0
InRange c none = Unit
InRange c (some v) = (memory_legacy_version < v) × (v ≤ c)

-- An expiry is past the sentinels that storage keeps in that field.
abbrev pub LateExpiry : Option CacheEntry → Type 0
LateExpiry none = Unit
LateExpiry (some entry) = elim entry.expires_at [ none ↦ Unit | some t ↦ 1 < t ]

pub record Ok (m : MemoryCache) : Type 0 where
  pub started : memory_legacy_version ≤ m.version_counter
  pub stamps : (k : Bytes) → InRange m.version_counter (lookup k m.versions)
  pub fence_stamps : (k : Bytes) → InRange m.version_counter (lookup k m.fences)
  pub expiries : (k : Bytes) → LateExpiry (lookup k m.entries)
  pub separate : (k : Bytes) → (lookup k m.entries ≡ none) ⊎ (lookup k m.fences ≡ none)

pub InRange-suc : (c : ℕ) (o : Option ℕ) → InRange c o → InRange (c + 1) o
InRange-suc c none h = tt
InRange-suc c (some v) h = (h.0, omega (arith, h.1))

module _ (k key : Bytes) where
  InRange-insert :
      (c : ℕ) (l : List (Bytes × ℕ))
      → memory_legacy_version ≤ c
      → InRange c (lookup k l)
      → InRange (c + 1) (lookup k (insert key (c + 1) l))
  InRange-insert c l started h =
      subst (InRange (c + 1)) (sym (lookup-insert k key (c + 1) l))
        (elim (bytes_eq k key) as (λ b. InRange (c + 1) (if b then some (c + 1) else lookup k l)) [
          | true ↦ (omega arith, omega arith)
          | false ↦ InRange-suc c (lookup k l) h
        ])

  pub InRange-remove :
      (c : ℕ) (l : List (Bytes × ℕ)) → InRange c (lookup k l) → InRange c (lookup k (remove key l))
  InRange-remove c l h =
      subst (InRange c) (sym (lookup-remove k key l))
        (elim (bytes_eq k key) as (λ b. InRange c (if b then none else lookup k l)) [
          | true ↦ tt
          | false ↦ h
        ])

  LateExpiry-insert :
      (e : CacheEntry) (l : List (Bytes × CacheEntry))
      → LateExpiry (some e)
      → LateExpiry (lookup k l)
      → LateExpiry (lookup k (insert key e l))
  LateExpiry-insert e l late h =
      subst LateExpiry (sym (lookup-insert k key e l))
        (elim (bytes_eq k key) as (λ b. LateExpiry (if b then some e else lookup k l)) [
          | true ↦ late
          | false ↦ h
        ])

  LateExpiry-remove :
      (l : List (Bytes × CacheEntry))
      → LateExpiry (lookup k l)
      → LateExpiry (lookup k (remove key l))
  LateExpiry-remove l h =
      subst LateExpiry (sym (lookup-remove k key l))
        (elim (bytes_eq k key) as (λ b. LateExpiry (if b then none else lookup k l)) [
          | true ↦ tt
          | false ↦ h
        ])

  -- One map is written and the other cleared at one key.
  separate-write :
      {A B : Type 0} (x : A) (l : List (Bytes × A)) (r : List (Bytes × B))
      → (lookup k l ≡ none) ⊎ (lookup k r ≡ none)
      → (lookup k (insert key x l) ≡ none) ⊎ (lookup k (remove key r) ≡ none)
  separate-write x l r h =
      subst (λ o. (o ≡ none) ⊎ (lookup k (remove key r) ≡ none)) (sym (lookup-insert k key x l))
        (subst (λ o. ((if bytes_eq k key then some x else lookup k l) ≡ none) ⊎ (o ≡ none))
          (sym (lookup-remove k key r))
          (elim (bytes_eq k key)
            as (λ b.
              ((if b then some x else lookup k l) ≡ none)
              ⊎ ((if b then none else lookup k r) ≡ none)) [ true ↦ inr refl | false ↦ h ]))

  pub remove-none :
      {A : Type 0} (l : List (Bytes × A)) → lookup k l ≡ none → lookup k (remove key l) ≡ none
  remove-none l h =
      lookup-remove k key l
      ∙ (elim (bytes_eq k key) as (λ b. (if b then none else lookup k l) ≡ none) [
        | true ↦ refl
        | false ↦ h
      ])

swap : {A B : Type 0} → A ⊎ B → B ⊎ A
swap (inl a) = inr a
swap (inr b) = inl b

-- The write of a plain or a conditional put, with the stamps and the counter it leaves.
store-Ok :
    (m : MemoryCache) (key : Bytes) (e : CacheEntry) (c : ℕ) (stamps : List (Bytes × ℕ))
    → Ok m
    → m.version_counter ≤ c
    → LateExpiry (some e)
    → ((k : Bytes) → InRange c (lookup k stamps))
    → ((k : Bytes) → InRange c (lookup k m.fences))
    → Ok (record {
      entries = insert key e m.entries;
      versions = stamps;
      version_counter = c;
      fences = remove key m.fences;
    })
store-Ok m key e c stamps ok grown late held fenced = record {
  started = omega (arith, ok.started);
  stamps = held;
  fence_stamps = λ k. InRange-remove k key c m.fences (fenced k);
  expiries = λ k. LateExpiry-insert k key e m.entries late (ok.expiries k);
  separate = λ k. separate-write k key e m.entries m.fences (ok.separate k);
}

LateExpiry-entry_expiry :
    (now : ℕ) (body : Bytes) (ttl : ℤ)
    → LateExpiry (some (record { value = body; expires_at = entry_expiry now ttl }))
unfolding entry_expiry
LateExpiry-entry_expiry now body (pos zero) = tt
LateExpiry-entry_expiry now body (pos (suc s)) = omega arith
LateExpiry-entry_expiry now body (negsuc s) = tt

pub put-Ok :
    (m : MemoryCache) (now : ℕ) (key body : Bytes) (ttl : ℤ) → Ok m → Ok (put now key body ttl m)
unfolding put
put-Ok m now key body ttl ok =
    store-Ok m key _ m.version_counter (remove key m.versions) ok (omega arith)
      (LateExpiry-entry_expiry now body ttl)
      (λ k. InRange-remove k key m.version_counter m.versions (ok.stamps k)) ok.fence_stamps

pub put_stamped-Ok :
    (m : MemoryCache) (now : ℕ) (key body : Bytes) (ttl : ℤ)
    → Ok m
    → Ok (put_stamped now key body ttl m)
put_stamped-Ok m now key body ttl ok =
    store-Ok m key _ (m.version_counter + 1) (insert key (m.version_counter + 1) m.versions) ok
      (omega arith) (LateExpiry-entry_expiry now body ttl)
      (λ k. InRange-insert k key m.version_counter m.versions ok.started (ok.stamps k))
      (λ k. InRange-suc m.version_counter (lookup k m.fences) (ok.fence_stamps k))

pub delete_stamped-Ok : (m : MemoryCache) (key : Bytes) → Ok m → Ok (delete_stamped key m)
delete_stamped-Ok m key ok = record {
  started = omega (arith, ok.started);
  stamps = λ k.
      InRange-suc m.version_counter _
        (InRange-remove k key m.version_counter m.versions (ok.stamps k));
  fence_stamps =
      λ k. InRange-insert k key m.version_counter m.fences ok.started (ok.fence_stamps k);
  expiries = λ k. LateExpiry-remove k key m.entries (ok.expiries k);
  separate = λ k. swap (separate-write k key _ m.fences m.entries (swap (ok.separate k)));
}

-- Dropping an entry and its stamp, the fences kept or cleared at some key.
pub drop-Ok :
    (m : MemoryCache) (key : Bytes) (fences : List (Bytes × ℕ))
    → Ok m
    → ((k : Bytes) → InRange m.version_counter (lookup k fences))
    → ((k : Bytes) → lookup k m.fences ≡ none → lookup k fences ≡ none)
    → Ok (record m {
      entries = remove key m.entries;
      versions = remove key m.versions;
      fences = fences;
    })
drop-Ok m key fences ok held fewer = record {
  started = ok.started;
  stamps = λ k. InRange-remove k key m.version_counter m.versions (ok.stamps k);
  fence_stamps = held;
  expiries = λ k. LateExpiry-remove k key m.entries (ok.expiries k);
  separate = λ k. elim (ok.separate k) [
    | inl gone ↦ inl (remove-none k key m.entries gone)
    | inr gone ↦ inr (fewer k gone)
  ];
}

pub empty-Ok :
    (c : ℕ)
    → memory_legacy_version ≤ c
    → Ok (record { entries = []; versions = []; version_counter = c; fences = [] })
unfolding lookup
empty-Ok c started = record {
  started = started;
  stamps = λ k. tt;
  fence_stamps = λ k. tt;
  expiries = λ k. tt;
  separate = λ k. inl refl;
}
