-- ===== src/Cas/Spill.antt =====
-- storage/cas.go: what becomes of the raw file that a conditional put wrote its value to.
use ocache.Base.{
  Bool, Bool-cases, Bytes, List, Option, Option-cases, [], ap, arith, bytes_eq, bytes_eq_iff,
  bytes_eq_refl, false, if◌then◌else◌, inl, inr, ltb, none, refl, some, subst, sym, true, ℕ, ◌&&◌,
  ◌++◌, ◌+◌, ◌==◌, ◌||◌, ◌∙◌, ◌∷◌, ◌≡◌, ◌≢◌, ◌⊎◌,
}
use ocache.Merge.Row.{ValueMessage, is_raw_file}
use ocache.Cas.State.{cas_classify, current_version_of, read_row_for_cas_retry}
use ocache.Cas.Alone.{admitted}
use ocache.Cas.Agree.{send}
use ocache.Cas.Io.{
  Effect, Failure, Outcome, Settings, after, failed, index_compaction, index_eviction,
  internal_error, merge_row, mismatch, reclaim, reclaim_replaced_value, rocksdb_error, stage_raw,
  succeeded,
}
use ocache.Cas.Put.{
  PutIo, commit_put, finish_won_cas_put, is_medium, settle_put, stage_spill, unreadable_put,
}

abbrev pub stages : Bytes → Effect → Bool
stages p (stage_raw q) = bytes_eq p q
stages p _ = false

-- How often a file is queued for deletion.
abbrev pub times_staged : Bytes → List Effect → ℕ
times_staged p [] = 0
times_staged p (e ∷ es) = (if stages p e then 1 else 0) + times_staged p es

abbrev pub is_merge : Effect → Bool
is_merge (merge_row op) = true
is_merge _ = false

-- Whether the operand reached the row.
abbrev pub landed : List Effect → Bool
landed [] = false
landed (e ∷ es) = is_merge e || landed es

abbrev pub Elsewhere : Bytes → Option ValueMessage → Type 0
Elsewhere p none = Unit {0}
Elsewhere p (some row) = row.raw_file_path ≢ p

times_staged-append :
    (p : Bytes) (xs ys : List Effect)
    → times_staged p (xs ++ ys) ≡ times_staged p xs + times_staged p ys
times_staged-append p [] ys = omega arith
times_staged-append p (x ∷ xs) ys = omega (arith, times_staged-append p xs ys)

times_staged-reclaim :
    (p : Bytes) (row : Option ValueMessage) → Elsewhere p row → times_staged p (reclaim row) ≡ 0
times_staged-reclaim p none h = refl
times_staged-reclaim p (some row) h =
    unfold reclaim_replaced_value in ground (arith, bytes_eq_iff p row.raw_file_path)

-- The four ends of a put whose value lies in the file p.
abbrev pub Fate : PutIo → ℕ → Bytes → Outcome → Type 0
Fate io stamp p o =
    ((o.result ≡ succeeded stamp) × (times_staged p o.effects ≡ 0) × (landed o.effects ≡ true))
    ⊎ ((v : ℕ) × (o.result ≡ mismatch v) × (times_staged p o.effects ≡ 1))
    ⊎ ((f : Failure) × (o.result ≡ failed f)
        × (times_staged p o.effects ≡ 1)
        × (landed o.effects ≡ false))
    ⊎ ((o.result ≡ failed rocksdb_error)
        × (times_staged p o.effects ≡ 0)
        × (landed o.effects ≡ true)
        × (read_row_for_cas_retry io.readback ≡ none))

times_staged-spill : (p : Bytes) → times_staged p (stage_spill (some p)) ≡ 1
times_staged-spill p = rw (bytes_eq_refl p)

times_staged-if :
    (p : Bytes) (b : Bool) (e : Effect)
    → stages p e ≡ false
    → times_staged p (if b then e ∷ [] else []) ≡ 0
times_staged-if p b e h = ground arith

times_staged-finish :
    (p : Bytes) (cfg : Settings) (op : ValueMessage) (prev : Option ValueMessage)
    → Elsewhere p prev
    → times_staged p (finish_won_cas_put cfg op prev) ≡ 0
unfolding finish_won_cas_put
times_staged-finish p cfg op prev h =
    let medium = is_raw_file op.value_type && is_medium cfg op.value_length in
    let capped = ltb 0 cfg.max_disk_usage in
    omega (
      arith,
      times_staged-append p (if medium then index_compaction op.raw_file_path ∷ [] else []) _,
      times_staged-append p (if capped then index_eviction cfg.eviction_policy ∷ [] else []) _,
      times_staged-append p (reclaim prev) _,
      times_staged-if p medium (index_compaction op.raw_file_path) refl,
      times_staged-if p capped (index_eviction cfg.eviction_policy) refl,
      times_staged-reclaim p prev h,
    )

times_staged-unreadable :
    (p : Bytes) (cfg : Settings) (op : ValueMessage) (prev : Option ValueMessage)
    → Elsewhere p prev
    → times_staged p (unreadable_put cfg op (some p) prev).effects ≡ 0
unfolding unreadable_put
times_staged-unreadable p cfg op prev h =
    let medium = is_medium cfg op.value_length in
    omega (
      arith,
      times_staged-append p (if medium then index_compaction p ∷ [] else []) (reclaim prev),
      times_staged-if p medium (index_compaction p) refl,
      times_staged-reclaim p prev h,
    )

settle_put_cases :
    (cfg : Settings) (io : PutIo) (stamp : ℕ) (op : ValueMessage) (spilled : Option Bytes)
    (prev : Option ValueMessage)
    → let o = settle_put cfg io stamp op spilled prev in
      ((read_row_for_cas_retry io.readback ≡ none) × (o ≡ unreadable_put cfg op spilled prev))
      ⊎ ((o.result ≡ succeeded stamp) × (o.effects ≡ finish_won_cas_put cfg op prev))
      ⊎ ((v : ℕ) × (o.result ≡ mismatch v) × (o.effects ≡ stage_spill spilled))
unfolding settle_put
settle_put_cases cfg io stamp op spilled prev =
    elim (Option-cases (read_row_for_cas_retry io.readback)) [
      | inl unread ↦ inl (unread, rw (unread, settle_put) refl)
      | inr (none, e) ↦ inr (
          inr (
            current_version_of io.readback_now none,
            rw (e, settle_put) refl,
            rw (e, settle_put) refl,
          ))
      | inr (some got, e) ↦ elim (Bool-cases (got.version == stamp)) [
        | inl ours ↦ inr (inl (rw (e, settle_put) (simp ours), rw (e, settle_put) (simp ours)))
        | inr theirs ↦ inr (
            inr (
              current_version_of io.readback_now (some got),
              rw (e, settle_put) (simp theirs),
              rw (e, settle_put) (simp theirs),
            ))
      ]
    ]

settle_put-Fate :
    (cfg : Settings) (io : PutIo) (stamp : ℕ) (op : ValueMessage) (p : Bytes)
    (prev : Option ValueMessage)
    → Elsewhere p prev
    → Fate io stamp p (after (merge_row op ∷ []) (settle_put cfg io stamp op (some p) prev))
settle_put-Fate cfg io stamp op p prev h = elim (settle_put_cases cfg io stamp op (some p) prev) [
  | inl (unread, e) ↦ inr (
      inr (
        inr (
          ap (λ o. o.result) e ∙ (unfold unreadable_put in refl),
          omega (
            arith,
            ap (λ o. times_staged p o.effects) e,
            times_staged-unreadable p cfg op prev h,
          ),
          refl,
          unread,
        )))
  | inr (inl (r, e)) ↦
      inl (r, omega (arith, ap (times_staged p) e, times_staged-finish p cfg op prev h), refl)
  | inr (inr (v, r, e)) ↦
      inr (inl (v, r, omega (arith, ap (times_staged p) e, times_staged-spill p)))
]

commit_put_cases :
    (cfg : Settings) (io : PutIo) (expected stamp : ℕ) (op : ValueMessage) (spilled : Option Bytes)
    → let o = commit_put cfg io expected stamp op spilled in
      ((v : ℕ) × (o ≡ record { result = mismatch v; effects = stage_spill spilled }))
      ⊎ ((f : Failure) × (o ≡ record { result = failed f; effects = stage_spill spilled }))
      ⊎ ((prev : Option ValueMessage) × (sent : ValueMessage) × (io.second_read ≡ some prev)
          × (o ≡ after (merge_row sent ∷ []) (settle_put cfg io stamp sent spilled prev)))
unfolding commit_put settle_put
commit_put_cases cfg io expected stamp op spilled = elim (Option-cases io.second_read) [
  | inl unread ↦ inr (inl (rocksdb_error, rw (unread, commit_put) refl))
  | inr (prev, e) ↦ elim (Bool-cases (admitted io.second_now prev expected)) [
    | inr refused ↦ inl ((cas_classify io.second_now prev).1, rw (e, commit_put) (simp refused))
    | inl yea ↦ elim (Bool-cases io.marshalled) [
      | inr fails ↦ inr (inl (internal_error, rw (e, commit_put) (simp (yea, fails))))
      | inl m ↦ elim (Bool-cases io.merged) [
        | inr fails ↦ inr (inl (rocksdb_error, rw (e, commit_put) (simp (yea, m, fails))))
        | inl g ↦ inr (
            inr
              (prev, send io.second_now prev expected op, e, rw (e, commit_put) (simp (yea, m, g))))
      ]
    ]
  ]
]

-- From the second look at the row on, the file that a put wrote its value to has one of four ends: the
-- put succeeds and the file is not queued for deletion; the put reports a mismatch or an error before the
-- merge and the file is queued exactly once; or the merge was sent, its outcome could not be read back,
-- and the file is left alone. The row that the put replaces does not name the file.
pub commit_put-Fate :
    (cfg : Settings) (io : PutIo) (expected stamp : ℕ) (op : ValueMessage) (p : Bytes)
    → ((row : Option ValueMessage) → io.second_read ≡ some row → Elsewhere p row)
    → Fate io stamp p (commit_put cfg io expected stamp op (some p))
commit_put-Fate cfg io expected stamp op p h =
    elim (commit_put_cases cfg io expected stamp op (some p)) [
      | inl (v, e) ↦ inr (
          inl
            (v, ap (λ o. o.result) e, ap (λ o. times_staged p o.effects) e ∙ times_staged-spill p))
      | inr (inl (f, e)) ↦ inr (
          inr (
            inl (
              f,
              ap (λ o. o.result) e,
              ap (λ o. times_staged p o.effects) e ∙ times_staged-spill p,
              ap (λ o. landed o.effects) e,
            )))
      | inr (inr (prev, sent, r, e)) ↦
          subst (Fate io stamp p) (sym e) (settle_put-Fate cfg io stamp sent p prev (h prev r))
    ]
