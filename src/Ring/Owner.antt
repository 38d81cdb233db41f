-- ===== src/Ring/Owner.antt =====
-- client/tokenring.go: the lookup finds the owner of a key.
use ocache.Base.{
  Bool, Bool-cases, Bytes, List, [], arith, false, inl, inr, is_empty, leb, length, ltb, refl, some,
  subst, suc, sym, true, zero, ℕ, ◌+◌, ◌/◌, ◌<◌, ◌==◌, ◌∷◌, ◌≡◌, ◌≤◌, ◌⊎◌,
}
use ocache.Ring.Lookup.{
  TokenEntry, address_of, all_entries, entry_at, get_node_for_key, get_node_id_for_key, owner_index,
  search, update,
}

-- `r` is the first index of [lo, hi] at which the test holds, or hi.
abbrev IsFirst : ℕ → ℕ → (ℕ → Bool) → ℕ → Type 0
IsFirst lo hi f r =
    (lo ≤ r) × (r ≤ hi) × ((k : ℕ) → lo ≤ k → k < r → f k ≡ false) × (r < hi → f r ≡ true)

search-IsFirst :
    (fuel lo hi : ℕ) (f : ℕ → Bool)
    → ((i j : ℕ) → i ≤ j → j < hi → f i ≡ true → f j ≡ true)
    → lo ≤ hi
    → hi ≤ fuel + lo
    → IsFirst lo hi f (search fuel lo hi f)
unfolding search
search-IsFirst zero lo hi f mono h enough = (
  omega arith,
  omega (arith, h),
  λ k a b. absurd (omega (arith, a, b)),
  λ a. absurd (omega (arith, a, enough)),
)
search-IsFirst (suc fuel) lo hi f mono h enough = elim (Bool-cases (ltb lo hi)) [
  | inr done ↦
      let q : hi ≤ lo = ground arith in
      simp done (
        omega arith,
        omega (arith, h),
        λ k a b. absurd (omega (arith, a, b)),
        λ a. absurd (omega (arith, a, q)),
      )
  | inl more ↦
      let mid : ℕ = (lo + hi) / 2 in
      let below : lo < hi = ground arith in
      let m1 : lo ≤ mid = omega (arith, below) in
      let m2 : mid < hi = omega (arith, below) in
      elim (Bool-cases (f mid)) [
        | inl holds ↦
            let r : ℕ = search fuel lo mid f in
            let (a, b, c, d) =
              search-IsFirst fuel lo mid f (λ i j p q t. mono i j p (omega (arith, q, m2)) t) m1
                (omega (arith, enough, m2)) in
            let at : f r ≡ true = elim (Bool-cases (ltb r mid)) [
              | inl less ↦ d (ground arith)
              | inr not_less ↦ let q : mid ≡ r = ground arith in subst (λ k. f k ≡ true) q holds
            ] in
            let e : search (suc fuel) lo hi f ≡ r = simp (more, holds) in
            subst (IsFirst lo hi f) (sym e) (a, omega (arith, b, m2), c, λ q. at)
        | inr fails ↦
            let r : ℕ = search fuel (suc mid) hi f in
            let (a, b, c, d) =
              search-IsFirst fuel (suc mid) hi f mono m2 (omega (arith, enough, m1)) in
            let before : (k : ℕ) → lo ≤ k → k < r → f k ≡ false = λ k p q.
              elim (Bool-cases (leb k mid)) [
                | inr above ↦ c k (ground arith) q
                | inl upto ↦ elim (Bool-cases (f k)) [
                  | inr not_yet ↦ not_yet
                  | inl early ↦ let t : f mid ≡ true = mono k mid (ground arith) m2 early in cc
                ]
              ] in
            let e : search (suc fuel) lo hi f ≡ r = simp (more, fails) in
            subst (IsFirst lo hi f) (sym e) (omega (arith, a, m1), b, before, d)
      ]
]

is_empty-false {ℓ} : {A : Type ℓ} (xs : List A) → 0 < length xs → is_empty xs ≡ false
is_empty-false [] h = absurd (omega (arith, h))
is_empty-false (x ∷ xs) h = refl

abbrev pub token_at : List TokenEntry → ℕ → ℕ
token_at tokens i = (entry_at tokens i).token

abbrev pub Sorted : List TokenEntry → Type 0
Sorted tokens = (i j : ℕ) → i ≤ j → j < length tokens → token_at tokens i ≤ token_at tokens j

-- The entry at `i` is the first at or behind the hash; or every token is before it, and `i` is 0.
abbrev pub Owns : List TokenEntry → ℕ → ℕ → Type 0
Owns tokens h i =
    (i < length tokens)
    × (((h ≤ token_at tokens i) × ((j : ℕ) → j < i → token_at tokens j < h))
        ⊎ ((i ≡ 0) × ((j : ℕ) → j < length tokens → token_at tokens j < h)))

owner_index-Owns :
    (tokens : List TokenEntry) (h : ℕ)
    → Sorted tokens
    → 0 < length tokens
    → Owns tokens h (owner_index tokens h)
unfolding owner_index
owner_index-Owns tokens h sorted some_token =
    let n : ℕ = length tokens in
    let f : ℕ → Bool = λ i. leb h (token_at tokens i) in
    let r : ℕ = search n 0 n f in
    let (a, b, c, d) =
      search-IsFirst n 0 n f (λ i j p q t. let w = sorted i j p q in ground arith) (omega arith)
        (omega arith) in
    let least : (j : ℕ) → j < r → token_at tokens j < h =
      λ j p. let w = c j (omega arith) p in ground arith in
    elim (Bool-cases (r == n)) [
      | inl wrap ↦
          let e : owner_index tokens h ≡ 0 = simp wrap in
          subst (Owns tokens h) (sym e) (some_token, inr (refl, λ j p. least j (ground arith)))
      | inr found ↦
          let e : owner_index tokens h ≡ r = simp found in
          let inside : r < n = ground arith in
          let w = d inside in subst (Owns tokens h) (sym e) (inside, inl (ground arith, least))
    ]

-- After an update with some token, a key belongs to the node of the first token at or behind its hash, or
-- round the ring to that of the least token when its hash is behind them all; and the address returned is
-- that node's. What the sort returns is sorted.
pub get_node_for_key-Owns :
    (hash : Bytes → ℕ) (sort : List TokenEntry → List TokenEntry)
    (node_tokens : List (Bytes × List ℕ)) (addresses : List (Bytes × Bytes)) (key : Bytes)
    → Sorted (sort (all_entries node_tokens))
    → 0 < length (sort (all_entries node_tokens))
    → let s = update sort node_tokens addresses in
      (i : ℕ) × Owns s.tokens (hash key) i
      × (get_node_id_for_key hash s key ≡ some (entry_at s.tokens i).node_id)
      × (get_node_for_key hash s key ≡ address_of addresses (entry_at s.tokens i).node_id)
unfolding get_node_id_for_key get_node_for_key update
get_node_for_key-Owns hash sort node_tokens addresses key sorted some_token =
    let tokens : List TokenEntry = sort (all_entries node_tokens) in
    let full : is_empty tokens ≡ false = is_empty-false tokens some_token in
    (
      owner_index tokens (hash key),
      owner_index-Owns tokens (hash key) sorted some_token,
      simp full,
      simp full,
    )
