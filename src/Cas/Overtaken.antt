-- ===== src/Cas/Overtaken.antt =====
-- storage/cas.go and storage/merge/operator.go: a conditional put whose expected version is no longer that
-- of the row when its operand is merged.
use ocache.Base.{
  Bool-cases, Bytes, List, Option, [], ap, arith, inl, inr, refl, some, ℕ, ◌++◌, ◌<◌, ◌==◌, ◌∙◌,
  ◌∷◌, ◌≡◌, ◌≢◌, ◌⊎◌,
}
use ocache.Base.Int.{eqb_ℤ}
use ocache.Merge.Row.{
  ValueMessage, cas_delete, cas_put, effective_row_version, fence_admits, tombstone_expiry,
}
use ocache.Merge.Operator.{
  adopt, apply_delete, apply_operand, apply_put, put_applies, resolve, tombstone,
}
use ocache.Cas.State.{current_version_of, read_row_for_cas_retry}
use ocache.Cas.Io.{Settings, mismatch}
use ocache.Cas.Put.{PutIo, settle_put}

-- Past the expected version, and not of the stamp.
abbrev pub Past : ℕ → ℕ → ValueMessage → Type 0
Past expected stamp vm = (expected < vm.version) × (vm.version ≢ stamp)

-- The operand of another conditional operation, stamped after the expected version was handed out.
abbrev pub Rival : ℕ → ℕ → ValueMessage → Type 0
Rival expected stamp op =
    ((op.op_type ≡ cas_put) ⊎ (op.op_type ≡ cas_delete)) × Past expected stamp op

abbrev pub AllRival : ℕ → ℕ → List ValueMessage → Type 0
AllRival expected stamp [] = Unit {0}
AllRival expected stamp (op ∷ ops) = Rival expected stamp op × AllRival expected stamp ops

abbrev HeldPast : ℕ → ℕ → Option ValueMessage → Type 0
HeldPast expected stamp row = (vm : ValueMessage) × (row ≡ some vm) × Past expected stamp vm

apply_delete_cases :
    (vm op : ValueMessage)
    → (apply_delete (some vm) op ≡ some (tombstone op.version))
      ⊎ (apply_delete (some vm) op ≡ some vm)
unfolding apply_delete
apply_delete_cases vm op = elim (Bool-cases (eqb_ℤ vm.expiry tombstone_expiry)) [
  | inl dead ↦ elim (Bool-cases (fence_admits vm op.cas_expected_version)) [
    | inl yea ↦ inl (simp (dead, yea))
    | inr nay ↦ inr (simp (dead, nay))
  ]
  | inr live ↦ elim (Bool-cases (effective_row_version (some vm) == op.cas_expected_version)) [
    | inl yea ↦ inl (ground arith)
    | inr nay ↦ inr (ground arith)
  ]
]

apply_operand-HeldPast :
    (expected stamp : ℕ) (vm op : ValueMessage)
    → Past expected stamp vm
    → Rival expected stamp op
    → HeldPast expected stamp (apply_operand (some vm) op)
unfolding apply_operand apply_put adopt apply_delete tombstone
apply_operand-HeldPast expected stamp vm op past (inl put, newer) =
    elim (Bool-cases (put_applies (some vm) op)) [
      | inl wins ↦ (adopt op, rw (put, apply_operand) (simp wins), newer)
      | inr loses ↦ (vm, rw (put, apply_operand) (simp loses), past)
    ]
apply_operand-HeldPast expected stamp vm op past (inr delete, newer) =
    elim (apply_delete_cases vm op) [
      | inl wins ↦ (tombstone op.version, rw (delete, apply_operand) wins, newer)
      | inr loses ↦ (vm, rw (delete, apply_operand) loses, past)
    ]

resolve-HeldPast :
    (expected stamp : ℕ) (vm : ValueMessage) (ops : List ValueMessage)
    → Past expected stamp vm
    → AllRival expected stamp ops
    → HeldPast expected stamp (resolve (some vm) ops)
unfolding resolve
resolve-HeldPast expected stamp vm [] past rivals = (vm, refl, past)
resolve-HeldPast expected stamp vm (op ∷ ops) past rivals =
    let (vm', e, past') = apply_operand-HeldPast expected stamp vm op past rivals.0 in
    rw (e, resolve) (resolve-HeldPast expected stamp vm' ops past' rivals.1)

resolve_cons :
    (row : Option ValueMessage) (op : ValueMessage) (ops : List ValueMessage)
    → resolve row (op ∷ ops) ≡ resolve (apply_operand row op) ops
unfolding resolve
resolve_cons row op ops = refl

resolve-append :
    (row : Option ValueMessage) (xs ys : List ValueMessage)
    → resolve row (xs ++ ys) ≡ resolve (resolve row xs) ys
unfolding resolve
resolve-append row [] ys = refl
resolve-append row (x ∷ xs) ys = resolve-append (apply_operand row x) xs ys

-- The put's own operand is dropped.
apply_operand-dropped :
    (expected stamp : ℕ) (vm op : ValueMessage)
    → 0 < expected
    → Past expected stamp vm
    → op.op_type ≡ cas_put
    → op.cas_expected_version ≡ expected
    → apply_operand (some vm) op ≡ some vm
unfolding apply_operand apply_put put_applies fence_admits effective_row_version
apply_operand-dropped expected stamp vm op given past put e = ground arith

settle_put-lost :
    (cfg : Settings) (io : PutIo) (stamp : ℕ) (op got : ValueMessage) (spilled : Option Bytes)
    (prev : Option ValueMessage)
    → read_row_for_cas_retry io.readback ≡ some (some got)
    → got.version ≢ stamp
    → (v : ℕ) × ((settle_put cfg io stamp op spilled prev).result ≡ mismatch v)
unfolding settle_put
settle_put-lost cfg io stamp op got spilled prev e v = elim (Bool-cases (got.version == stamp)) [
  | inl same ↦ (let h : got.version ≡ stamp = ground arith in absurd (v h))
  | inr other ↦ (current_version_of io.readback_now (some got), rw (e, settle_put) (simp other))
]

-- No lost update: when the row is past the version that a put expects before the put's operand is merged,
-- the put reports a mismatch, whatever conditional operations are merged before its operand, between it
-- and the read-back. The expected version is not 0; the row, and the operations merged around the put,
-- have versions above the expected one and other than the put's stamp; and the row reads back as the merge
-- operator resolves it.
pub settle_put-overtaken :
    (cfg : Settings) (io : PutIo) (expected stamp : ℕ) (vm op : ValueMessage)
    (spilled : Option Bytes) (prev : Option ValueMessage) (before behind : List ValueMessage)
    → 0 < expected
    → Past expected stamp vm
    → AllRival expected stamp before
    → op.op_type ≡ cas_put
    → op.cas_expected_version ≡ expected
    → AllRival expected stamp behind
    → read_row_for_cas_retry io.readback ≡ some (resolve (some vm) (before ++ op ∷ behind))
    → (v : ℕ) × ((settle_put cfg io stamp op spilled prev).result ≡ mismatch v)
settle_put-overtaken cfg io expected stamp vm op spilled prev before behind given past rs put e rs'
      back =
    let (vm₁, e₁, past₁) = resolve-HeldPast expected stamp vm before past rs in
    let (vm₂, e₂, past₂) = resolve-HeldPast expected stamp vm₁ behind past₁ rs' in
    let row : resolve (some vm) (before ++ op ∷ behind) ≡ some vm₂ =
      resolve-append (some vm) before (op ∷ behind)
      ∙ ap (λ r. resolve r (op ∷ behind)) e₁
      ∙ resolve_cons (some vm₁) op behind
      ∙ ap (λ r. resolve r behind) (apply_operand-dropped expected stamp vm₁ op given past₁ put e)
      ∙ e₂ in
    settle_put-lost cfg io stamp op vm₂ spilled prev (back ∙ ap some row) past₂.1
