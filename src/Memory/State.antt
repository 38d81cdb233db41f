-- ===== src/Memory/State.antt =====
-- client/memory.go: the state of MemoryCache and its point operations. Every call of time.Now is an
-- argument; `none` is the zero time.Time, an entry with no expiration.
use ocache.Base.{
  Bool, Bytes, List, Option, [], false, if◌then◌else◌, leb, ltb, none, some, suc, true, zero, ℕ,
  ◌*◌, ◌+◌, ◌==◌, ◌||◌, ◌∷◌,
}
use ocache.Base.Assoc.{insert, lookup, remove}
use ocache.Base.Int.{negsuc, pos, ℤ}

pub record CacheEntry : Type 0 where
  pub value : Bytes
  pub expires_at : Option ℕ

pub record MemoryCache : Type 0 where
  pub entries : List (Bytes × CacheEntry)
  pub versions : List (Bytes × ℕ)
  pub version_counter : ℕ
  pub fences : List (Bytes × ℕ)

abbrev pub memory_legacy_version : ℕ
memory_legacy_version = 1

abbrev pub new_memory_cache : MemoryCache
new_memory_cache = record {
  entries = [];
  versions = [];
  version_counter = memory_legacy_version;
  fences = [];
}

-- expiresAt.IsZero() || time.Now().Before(expiresAt)
unfoldable pub is_unexpired : ℕ → Option ℕ → Bool
is_unexpired now none = true
is_unexpired now (some t) = ltb now t

-- !expiresAt.IsZero() && time.Now().After(expiresAt)
unfoldable pub is_past : ℕ → Option ℕ → Bool
is_past now none = false
is_past now (some t) = ltb t now

unfoldable pub is_live : ℕ → Option CacheEntry → Bool
unfolding is_unexpired
is_live now none = false
is_live now (some entry) = is_unexpired now entry.expires_at

abbrev pub live_locked : ℕ → MemoryCache → Bytes → Bool
live_locked now m key = is_live now (lookup key m.entries)

-- A key with no stamp is a live key of a plain Put.
unfoldable pub stamp_or_legacy : Option ℕ → ℕ
stamp_or_legacy none = memory_legacy_version
stamp_or_legacy (some v) = if v == 0 then memory_legacy_version else v

abbrev pub effective_version_locked : ℕ → MemoryCache → Bytes → ℕ
effective_version_locked now m key =
    if live_locked now m key then stamp_or_legacy (lookup key m.versions) else 0

abbrev pub drop_locked : Bytes → MemoryCache → MemoryCache
drop_locked key m = record {
  entries = remove key m.entries;
  versions = remove key m.versions;
  version_counter = m.version_counter;
  fences = remove key m.fences;
}

unfoldable pub expire_entry : ℕ → Option CacheEntry → Bytes → MemoryCache → MemoryCache
unfolding is_unexpired
expire_entry now none key m = m
expire_entry now (some entry) key m =
    if is_unexpired now entry.expires_at
    then m
    else record m { entries = remove key m.entries; versions = remove key m.versions }

abbrev pub expire_locked : ℕ → Bytes → MemoryCache → MemoryCache
expire_locked now key m = expire_entry now (lookup key m.entries) key m

unfoldable pub token_of : Option ℕ → MemoryCache → ℕ × MemoryCache
token_of (some f) m = (f, m)
token_of none m = (m.version_counter + 1, record m { version_counter = m.version_counter + 1 })

abbrev pub absence_token_locked : Bytes → MemoryCache → ℕ × MemoryCache
absence_token_locked key m = token_of (lookup key m.fences) m

-- A fenced key admits 0 or a token at or after the fence; absence admits anything.
unfoldable pub fence_allows : Option ℕ → ℕ → Bool × ℕ
fence_allows (some f) expected = ((expected == 0) || leb f expected, f)
fence_allows none expected = (true, 0)

-- The clock is read a second time for a key that the first reading finds live.
unfoldable pub admits_locked : ℕ → ℕ → MemoryCache → Bytes → ℕ → Bool × ℕ
unfolding fence_allows
admits_locked now later m key expected =
    if live_locked now m key
    then (effective_version_locked later m key == expected, effective_version_locked later m key)
    else fence_allows (lookup key m.fences) expected

-- What an operation returns: a value and its version, absence and a token, a stamp, a
-- VersionMismatchError, codes.NotFound, or nothing.
pub data Answer : Type 0 where
  found : Bytes → ℕ → Answer
  absent : ℕ → Answer
  stamped : ℕ → Answer
  version_mismatch : ℕ → Answer
  not_found done : Answer

pub record Result : Type 0 where
  pub answer : Answer
  pub next : MemoryCache

-- The value of m.data[key], which is nil for a missing key.
abbrev pub value_of : Option CacheEntry → Bytes
value_of none = []
value_of (some entry) = entry.value

-- Under the lock; a done context returns before it.
unfoldable pub get_with_version : ℕ → ℕ → Bytes → MemoryCache → Result
get_with_version now later key m =
    if live_locked now m key
    then record {
      answer = found (value_of (lookup key m.entries)) (effective_version_locked later m key);
      next = m;
    }
    else record {
      answer = absent (absence_token_locked key m).0;
      next = (absence_token_locked key m).1;
    }

-- Seconds in nanoseconds; a lifetime whose product leaves int64 (292 years) is outside the model.
abbrev second : ℕ
second = 1000000000

unfoldable pub entry_expiry : ℕ → ℤ → Option ℕ
entry_expiry now (pos zero) = none
entry_expiry now (pos (suc s)) = some (now + suc s * second)
entry_expiry now (negsuc s) = none

-- The write of an admitted PutIfVersion: the counter's next stamp, no fence, the entry.
abbrev pub put_stamped : ℕ → Bytes → Bytes → ℤ → MemoryCache → MemoryCache
put_stamped now key body ttl m = record {
  entries = insert key (record { value = body; expires_at = entry_expiry now ttl }) m.entries;
  versions = insert key (m.version_counter + 1) m.versions;
  version_counter = m.version_counter + 1;
  fences = remove key m.fences;
}

unfoldable pub put_if_version : ℕ → ℕ → ℕ → Bytes → Bytes → ℤ → ℕ → MemoryCache → Result
unfolding admits_locked
put_if_version now later write_now key body ttl expected m =
    let (ok, cur) = admits_locked now later m key expected in
    if ok
    then record {
      answer = stamped (m.version_counter + 1);
      next = put_stamped write_now key body ttl m;
    }
    else record { answer = version_mismatch cur; next = m }

-- Why a delete of a key that is not live is refused.
unfoldable pub dead_refusal : Option ℕ → ℕ → Option ℕ
dead_refusal (some f) expected = if (expected == 0) || leb f expected then none else some f
dead_refusal none expected = if expected == 0 then none else some 0

unfoldable pub refusal : ℕ → ℕ → MemoryCache → Bytes → ℕ → Option ℕ
unfolding dead_refusal
refusal now later m key expected =
    if live_locked now m key
    then (if effective_version_locked later m key == expected
        then none
        else some (effective_version_locked later m key))
    else dead_refusal (lookup key m.fences) expected

abbrev pub delete_stamped : Bytes → MemoryCache → MemoryCache
delete_stamped key m = record {
  entries = remove key m.entries;
  versions = remove key m.versions;
  version_counter = m.version_counter + 1;
  fences = insert key (m.version_counter + 1) m.fences;
}

unfoldable pub delete_unless : Option ℕ → Bytes → MemoryCache → Result
delete_unless (some cur) key m = record { answer = version_mismatch cur; next = m }
delete_unless none key m = record { answer = done; next = delete_stamped key m }

unfoldable pub delete_if_version : ℕ → ℕ → Bytes → ℕ → MemoryCache → Result
unfolding refusal delete_unless
delete_if_version now later key expected m = delete_unless (refusal now later m key expected) key m

unfoldable pub put : ℕ → Bytes → Bytes → ℤ → MemoryCache → MemoryCache
put now key body ttl m = record {
  entries = insert key (record { value = body; expires_at = entry_expiry now ttl }) m.entries;
  versions = remove key m.versions;
  version_counter = m.version_counter;
  fences = remove key m.fences;
}

unfoldable pub drop_entry : Option CacheEntry → Bytes → MemoryCache → Result
drop_entry none key m = record { answer = not_found; next = m }
drop_entry (some entry) key m = record { answer = done; next = drop_locked key m }

unfoldable pub delete : Bytes → MemoryCache → Result
delete key m = drop_entry (lookup key m.entries) key m

-- Close keeps the counter.
abbrev pub close : MemoryCache → MemoryCache
close m = record { entries = []; versions = []; version_counter = m.version_counter; fences = [] }

-- The read of Get under the read lock; a past entry is dropped afterwards, by `expire_locked` on the
-- state of that moment.
unfoldable pub get : ℕ → Bytes → MemoryCache → Option Bytes
get now key m = elim (lookup key m.entries) [
  | none ↦ none
  | some entry ↦ if is_past now entry.expires_at then none else some entry.value
]

-- Any one step of a cache that several callers share: the lock makes each of these atomic.
pub data Op : Type 0 where
  do_get_with_version : ℕ → ℕ → Bytes → Op
  do_put_if_version : ℕ → ℕ → ℕ → Bytes → Bytes → ℤ → ℕ → Op
  do_delete_if_version : ℕ → ℕ → Bytes → ℕ → Op
  do_put : ℕ → Bytes → Bytes → ℤ → Op
  do_delete : Bytes → Op
  do_expire : ℕ → Bytes → Op
  do_close : Op

abbrev pub perform : Op → MemoryCache → Result
perform (do_get_with_version now later key) m = get_with_version now later key m
perform (do_put_if_version now later write_now key body ttl expected) m =
    put_if_version now later write_now key body ttl expected m
perform (do_delete_if_version now later key expected) m = delete_if_version now later key expected m
perform (do_put now key body ttl) m = record { answer = done; next = put now key body ttl m }
perform (do_delete key) m = delete key m
perform (do_expire now key) m = record { answer = done; next = expire_locked now key m }
perform do_close m = record { answer = done; next = close m }

abbrev pub perform_all : List Op → MemoryCache → MemoryCache
perform_all [] m = m
perform_all (op ∷ ops) m = perform_all ops (perform op m).next
