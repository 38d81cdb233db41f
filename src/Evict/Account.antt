-- ===== src/Evict/Account.antt =====
-- storage/eviction.go: what an eviction pass counts as freed is what it freed.
use ocache.Base.{
  Bool, Bool-cases, Bytes, List, [], ap, arith, inl, inr, is_empty, leb, length, length-append,
  refl, subst, sym, ◌++◌, ◌+◌, ◌∙◌, ◌∷◌, ◌≡◌,
}
use ocache.Base.Int.{+ℤ_parts, eq_of_parts, pos, ℤ, ◌+ℤ◌, ◌-ℤ◌}
use ocache.Merge.Row.{ValueMessage}
use ocache.Merge.Codec.{Codec}
use ocache.Keys.Format.{make_metadata_key}
use ocache.Evict.Choice.{evict_entries-induction, visit-Moves}
use ocache.Evict.Pass.{
  Act, EvictionIndex, Look, Pass, bound_batch, commit, delete_keys, evict_by_index, evict_entries,
  evict_key, new_pass, stage_files, staged, visit, write_failed, wrote,
}

-- The values whose files were reclaimed.
abbrev pub reclaimed : List Act → List ValueMessage
reclaimed [] = []
reclaimed (wrote ks ∷ log) = reclaimed log
reclaimed (write_failed ks ∷ log) = reclaimed log
reclaimed (staged vm ∷ log) = vm ∷ reclaimed log

abbrev pub total : List ValueMessage → ℤ
total [] = pos 0
total (vm ∷ vms) = vm.value_length +ℤ total vms

record Counted (p : Pass) : Type 0 where
  committed : p.committed_bytes ≡ total (reclaimed p.log)
  evicted : p.evicted_count ≡ length (reclaimed p.log)
  pending : p.pending_bytes ≡ total p.pending_files
  count : p.pending_count ≡ length p.pending_files

+ℤ_assoc : (a b c : ℤ) → (a +ℤ b) +ℤ c ≡ a +ℤ (b +ℤ c)
+ℤ_assoc a b c =
    eq_of_parts ((a +ℤ b) +ℤ c) (a +ℤ (b +ℤ c))
      (omega (arith, +ℤ_parts a b, +ℤ_parts (a +ℤ b) c, +ℤ_parts b c, +ℤ_parts a (b +ℤ c)))

+ℤ_comm : (a b : ℤ) → a +ℤ b ≡ b +ℤ a
+ℤ_comm a b = eq_of_parts (a +ℤ b) (b +ℤ a) (omega (arith, +ℤ_parts a b, +ℤ_parts b a))

+ℤ_zero : (a : ℤ) → a +ℤ pos 0 ≡ a
+ℤ_zero a = eq_of_parts (a +ℤ pos 0) a (omega (arith, +ℤ_parts a (pos 0)))

total-append : (xs ys : List ValueMessage) → total (xs ++ ys) ≡ total xs +ℤ total ys
total-append [] ys = sym (+ℤ_comm (pos 0) (total ys) ∙ +ℤ_zero (total ys))
total-append (x ∷ xs) ys =
    ap (λ t. x.value_length +ℤ t) (total-append xs ys)
    ∙ sym (+ℤ_assoc x.value_length (total xs) (total ys))

length-reclaimed :
    (vms : List ValueMessage) (log : List Act)
    → length (reclaimed (stage_files vms log)) ≡ length (reclaimed log) + length vms
length-reclaimed [] log = omega arith
length-reclaimed (vm ∷ vms) log = omega (arith, length-reclaimed vms (staged vm ∷ log))

total-reclaimed :
    (vms : List ValueMessage) (log : List Act)
    → total (reclaimed (stage_files vms log)) ≡ total (reclaimed log) +ℤ total vms
total-reclaimed [] log = sym (+ℤ_zero (total (reclaimed log)))
total-reclaimed (vm ∷ vms) log =
    total-reclaimed vms (staged vm ∷ log)
    ∙ ap (λ t. t +ℤ total vms) (+ℤ_comm vm.value_length (total (reclaimed log)))
    ∙ +ℤ_assoc (total (reclaimed log)) vm.value_length (total vms)

commit-Counted : (written : Bool) (p : Pass) → Counted p → Counted (commit written p)
unfolding commit
commit-Counted written p v = elim (Bool-cases (is_empty p.batch)) [
  | inl nil ↦ rw (nil, commit) v
  | inr full ↦ elim (Bool-cases written) [
    | inr failed ↦
        simp (full, failed)
          (record { committed = v.committed; evicted = v.evicted; pending = refl; count = refl })
    | inl done ↦
        simp (full, done)
          (record {
            committed =
                ap (λ t. t +ℤ p.pending_bytes) v.committed
                ∙ ap (λ t. total (reclaimed p.log) +ℤ t) v.pending
                ∙ sym (total-reclaimed p.pending_files (wrote p.batch ∷ p.log));
            evicted = omega (arith, v, length-reclaimed p.pending_files (wrote p.batch ∷ p.log));
            pending = refl;
            count = refl;
          })
  ]
]

evict_key-Counted :
    (meta entry backref : Bytes) (vm : ValueMessage) (p : Pass)
    → Counted p
    → Counted (evict_key meta entry backref vm p)
unfolding evict_key
evict_key-Counted meta entry backref vm p v = record {
  committed = v.committed;
  evicted = v.evicted;
  pending =
      ap (λ t. t +ℤ vm.value_length) v.pending
      ∙ ap (λ t. total p.pending_files +ℤ t) (sym (+ℤ_zero vm.value_length))
      ∙ sym (total-append p.pending_files (vm ∷ []));
  count = omega (arith, v, length-append p.pending_files (vm ∷ []));
}

delete_keys-Counted : (ks : List Bytes) (p : Pass) → Counted p → Counted (delete_keys ks p)
delete_keys-Counted ks p v = record {
  committed = v.committed;
  evicted = v.evicted;
  pending = v.pending;
  count = v.count;
}

bound_batch-Counted : (written : Bool) (p : Pass) → Counted p → Counted (bound_batch written p)
unfolding bound_batch
bound_batch-Counted written p v = elim (Bool-cases (leb 1000 (length p.batch))) [
  | inl full ↦ simp full (commit-Counted written p v)
  | inr small ↦ simp small v
]

visit-Counted :
    (idx : EvictionIndex) (c : Codec) (l : Look) (p : Pass) → Counted p → Counted (visit idx c l p)
visit-Counted idx c l p v = elim (visit-Moves idx c l p) [
  | inl e ↦ subst Counted (sym e) v
  | inr (inl (stray, e)) ↦ subst Counted (sym e) (delete_keys-Counted (l.entry ∷ []) p v)
  | inr (inr (inl (key, bad, e))) ↦
      subst Counted (sym e)
        (delete_keys-Counted (make_metadata_key key ∷ l.entry ∷ idx.backref_key key ∷ []) p v)
  | inr (inr (inr (key, vm, ok, e))) ↦
      subst Counted (sym e)
        (evict_key-Counted (make_metadata_key key) l.entry (idx.backref_key key) vm p v)
]

-- Whatever a pass meets, failing batch writes and an early stop among it, the number of keys that it
-- returns is the number of values whose files it reclaimed, and what it takes off the store's size is the
-- sum of their lengths.
pub evict_by_index-counts :
    (idx : EvictionIndex) (c : Codec) (target : ℤ) (looks : List Look) (written : Bool)
    → let (evicted, (delta, p)) = evict_by_index idx c target looks written in
      (evicted ≡ length (reclaimed p.log)) × (delta ≡ pos 0 -ℤ total (reclaimed p.log))
unfolding evict_by_index
evict_by_index-counts idx c target looks written =
    let start : Counted new_pass = record {
      committed = refl;
      evicted = refl;
      pending = refl;
      count = refl;
    } in
    let v = commit-Counted written (evict_entries idx c target looks new_pass) (
      evict_entries-induction idx c Counted Counted (λ l. Unit) bound_batch-Counted
        (λ l p r. visit-Counted idx c l p) (λ p h. h) target looks new_pass (λ l h. tt) start) in
    (v.evicted, ap (λ t. pos 0 -ℤ t) v.committed)
