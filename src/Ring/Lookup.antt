-- ===== src/Ring/Lookup.antt =====
-- client/tokenring.go: the ring's state and its lookups. `sort` is Go's sort.Slice by token, and `hash` its
-- 32-bit FNV-1a; a map is an association list. sort.Search is the binary search of Go's library, on fuel.
use ocache.Base.{
  Bool, Bytes, List, Option, [], bytes_eq, if◌then◌else◌, is_empty, leb, length, ltb, none, some,
  suc, zero, ℕ, ◌++◌, ◌+◌, ◌/◌, ◌==◌, ◌∷◌,
}

pub record TokenEntry : Type 0 where
  pub token : ℕ
  pub node_id : Bytes

pub record RingState : Type 0 where
  pub tokens : List TokenEntry
  pub nodes : List (Bytes × Bytes)

abbrev pub new_token_ring : RingState
new_token_ring = record { tokens = []; nodes = [] }

abbrev entries_of : Bytes → List ℕ → List TokenEntry
entries_of node [] = []
entries_of node (t ∷ ts) = record { token = t; node_id = node } ∷ entries_of node ts

abbrev pub all_entries : List (Bytes × List ℕ) → List TokenEntry
all_entries [] = []
all_entries ((node, ts) ∷ rest) = entries_of node ts ++ all_entries rest

unfoldable pub update :
    (List TokenEntry → List TokenEntry) → List (Bytes × List ℕ) → List (Bytes × Bytes) → RingState
update sort node_tokens node_addresses = record {
  tokens = sort (all_entries node_tokens);
  nodes = node_addresses;
}

-- The entry at an index; out of range it is not read.
abbrev pub entry_at : List TokenEntry → ℕ → TokenEntry
entry_at [] i = record { token = 0; node_id = [] }
entry_at (e ∷ es) zero = e
entry_at (e ∷ es) (suc i) = entry_at es i

unfoldable pub search : ℕ → ℕ → ℕ → (ℕ → Bool) → ℕ
search zero lo hi f = lo
search (suc fuel) lo hi f =
    let mid : ℕ = (lo + hi) / 2 in
    let left = search fuel lo mid f in
    let right = search fuel (suc mid) hi f in
    if ltb lo hi then (if f mid then left else right) else lo

-- The first entry at or behind the hash, round the ring.
unfoldable pub owner_index : List TokenEntry → ℕ → ℕ
unfolding search
owner_index tokens h =
    let n : ℕ = length tokens in
    let i : ℕ = search n 0 n (λ i. leb h (entry_at tokens i).token) in if i == n then 0 else i

abbrev pub address_of : List (Bytes × Bytes) → Bytes → Option Bytes
address_of [] node = none
address_of ((n, a) ∷ rest) node = if bytes_eq n node then some a else address_of rest node

unfoldable pub get_node_id_for_key : (Bytes → ℕ) → RingState → Bytes → Option Bytes
unfolding owner_index
get_node_id_for_key hash s key =
    if is_empty s.tokens
    then none
    else some (entry_at s.tokens (owner_index s.tokens (hash key))).node_id

unfoldable pub get_node_for_key : (Bytes → ℕ) → RingState → Bytes → Option Bytes
unfolding owner_index bytes_eq
get_node_for_key hash s key =
    if is_empty s.tokens
    then none
    else address_of s.nodes (entry_at s.tokens (owner_index s.tokens (hash key))).node_id
