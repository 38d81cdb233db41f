-- ===== src/Evict/Choice.antt =====
-- storage/eviction.go: which of its moves a pass makes on an entry of the index, and induction along the
-- pass.
use ocache.Base.{
  Bool, Bool-cases, Bytes, List, Option-cases, [], ap, bytes_eq, bytes_eq_iff, false, inl, inr,
  none, refl, some, subst, sym, true, ◌∙◌, ◌∷◌, ◌≡◌, ◌≢◌, ◌⊎◌,
}
use ocache.Base.Int.{leb_ℤ, ℤ, ◌+ℤ◌}
use ocache.Keys.Format.{make_metadata_key}
use ocache.Merge.Row.{ValueMessage}
use ocache.Merge.Codec.{Codec}
use ocache.Evict.Pass.{
  EvictionIndex, Look, Pass, bound_batch, delete_keys, evict_entries, evict_key, expired,
  settle_entry, visit,
}

-- The entry is the authoritative one of a live row.
pub record Evictable (idx : EvictionIndex) (c : Codec) (l : Look) (key : Bytes) (vm : ValueMessage)
    : Type 0 where
  pub parses : idx.parse_key l.entry ≡ some key
  pub stored : (b : Bytes) × (l.row ≡ some (some b)) × (c.unmarshal b ≡ some vm)
  pub current : expired vm.expiry l.now ≡ false
  pub authoritative : (l.backref ≡ some none) ⊎ (l.backref ≡ some (some l.entry))

-- The key has no row, or its back-reference names another entry.
abbrev pub Stray : Look → Type 0
Stray l = (l.row ≡ some none) ⊎ ((cur : Bytes) × (l.backref ≡ some (some cur)) × (cur ≢ l.entry))

-- The key's row cannot be decoded.
abbrev pub Corrupt : EvictionIndex → Codec → Look → Bytes → Type 0
Corrupt idx c l key =
    (idx.parse_key l.entry ≡ some key)
    × ((b : Bytes) × (l.row ≡ some (some b)) × (c.unmarshal b ≡ none))

abbrev pub Moves : EvictionIndex → Codec → Look → Pass → Pass → Type 0
Moves idx c l p q =
    (q ≡ p)
    ⊎ (Stray l × (q ≡ delete_keys (l.entry ∷ []) p))
    ⊎ ((key : Bytes) × Corrupt idx c l key
        × (q ≡ delete_keys (make_metadata_key key ∷ l.entry ∷ idx.backref_key key ∷ []) p))
    ⊎ ((key : Bytes) × (vm : ValueMessage) × Evictable idx c l key vm
        × (q ≡ evict_key (make_metadata_key key) l.entry (idx.backref_key key) vm p))

bytes_eq-differ : (xs ys : Bytes) → bytes_eq xs ys ≡ false → xs ≢ ys
bytes_eq-differ xs ys h same = let t : bytes_eq xs ys ≡ true = (bytes_eq_iff xs ys).1 same in cc

settle_entry-Moves :
    (idx : EvictionIndex) (c : Codec) (l : Look) (key b : Bytes) (vm : ValueMessage) (p : Pass)
    → idx.parse_key l.entry ≡ some key
    → l.row ≡ some (some b)
    → c.unmarshal b ≡ some vm
    → expired vm.expiry l.now ≡ false
    → Moves idx c l p (settle_entry l (make_metadata_key key) (idx.backref_key key) vm p)
unfolding settle_entry
settle_entry-Moves idx c l key b vm p k r u live = elim (Option-cases l.backref) [
  | inl e ↦ inl (rw (e, settle_entry) refl)
  | inr (none, e) ↦ inr (
      inr (
        inr (
          key,
          vm,
          record { parses = k; stored = (b, r, u); current = live; authoritative = inl e },
          rw (e, settle_entry) refl,
        )))
  | inr (some cur, e) ↦ elim (Bool-cases (bytes_eq cur l.entry)) [
    | inl same ↦ inr (
        inr (
          inr (
            key,
            vm,
            record {
              parses = k;
              stored = (b, r, u);
              current = live;
              authoritative = inr (e ∙ ap (λ t. some (some t)) ((bytes_eq_iff cur l.entry).0 same));
            },
            rw (e, settle_entry) (simp same),
          )))
    | inr other ↦ inr (
        inl (
          inr (cur, e, λ same. bytes_eq-differ cur l.entry other same),
          rw (e, settle_entry) (simp other),
        ))
  ]
]

-- On every entry a pass makes one of four moves: it leaves the entry alone; it drops the entry, of a key
-- without a row or one superseded by the back-reference; it drops entry, row and back-reference of a row
-- that cannot be decoded; or it evicts the key, and that only through the authoritative entry of a row that
-- is decoded and has not expired.
pub visit-Moves :
    (idx : EvictionIndex) (c : Codec) (l : Look) (p : Pass) → Moves idx c l p (visit idx c l p)
unfolding visit
visit-Moves idx c l p = elim (Option-cases (idx.parse_key l.entry)) [
  | inl e ↦ inl (rw (e, visit) refl)
  | inr (key, e) ↦ elim (Option-cases l.row) [
    | inl r ↦ inl (rw (e, r, visit) refl)
    | inr (none, r) ↦ inr (inl (inl r, rw (e, r, visit) refl))
    | inr (some b, r) ↦ elim (Option-cases (c.unmarshal b)) [
      | inl u ↦ inr (inr (inl (key, (e, (b, r, u)), rw (e, r, u, visit) refl)))
      | inr (vm, u) ↦ elim (Bool-cases (expired vm.expiry l.now)) [
        | inl dead ↦ inl (rw (e, r, u, visit) (simp dead))
        | inr live ↦
            subst (Moves idx c l p) (sym (rw (e, r, u, visit) (simp live)))
              (settle_entry-Moves idx c l key b vm p e r u live)
      ]
    ]
  ]
]

abbrev pub AmongLooks : Look → List Look → Type 0
AmongLooks l [] = ⊥
AmongLooks l (x ∷ ls) = (l ≡ x) ⊎ AmongLooks l ls

-- P holds at the head of the loop, and Q behind the flush of a full batch; R holds of the entries.
module _ (idx : EvictionIndex) (c : Codec) (P Q : Pass → Type 0) (R : Look → Type 0) where
  pub evict_entries-induction :
      ((w : Bool) (p : Pass) → P p → Q (bound_batch w p))
      → ((l : Look) (p : Pass) → R l → Q p → P (visit idx c l p))
      → ((p : Pass) → Q p → P p)
      → (target : ℤ) (looks : List Look) (p : Pass) → ((l : Look) → AmongLooks l looks → R l)
      → P p
      → P (evict_entries idx c target looks p)
  unfolding evict_entries
  evict_entries-induction flush move weaken target [] p every h = h
  evict_entries-induction flush move weaken target (l ∷ ls) p every h =
      let q : Pass = bound_batch l.written p in
      elim (Bool-cases l.closed) [
        | inl closed ↦ rw (closed, evict_entries) h
        | inr running ↦ elim (Bool-cases (leb_ℤ target (q.committed_bytes +ℤ q.pending_bytes))) [
          | inl enough ↦ simp (running, enough) (weaken q (flush l.written p h))
          | inr more ↦
              simp (running, more)
                (evict_entries-induction flush move weaken target ls (visit idx c l q)
                  (λ x h. every x (inr h)) (move l q (every l (inl refl)) (flush l.written p h)))
        ]
      ]
