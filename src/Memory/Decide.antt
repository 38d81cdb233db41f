-- ===== src/Memory/Decide.antt =====
-- client/memory.go against storage/cas.go: the two sides read a key alike, and admit alike.
use ocache.Base.{Bool-cases, Bytes, if◌then◌else◌, inl, inr, none, refl, some, sym, ℕ, ◌≡◌}
use ocache.Base.Assoc.{lookup}
use ocache.Cas.State.{CasRowState, cas_admits, cas_classify, cas_live}
use ocache.Cas.Delete.{delete_refusal}
use ocache.Memory.State.{
  MemoryCache, admits_locked, dead_refusal, fence_allows, live_locked, refusal, stamp_or_legacy,
}
use ocache.Memory.WellFormed.{Ok}
use ocache.Memory.Rows.{store_of}
use ocache.Memory.Written.{cas_classify-row_of, fence_class}

module _ (m : MemoryCache) (ok : Ok m) (key : Bytes) where
  abbrev pub row_class : ℕ → CasRowState × ℕ
  row_class now =
      if live_locked now m key
      then (cas_live, stamp_or_legacy (lookup key m.versions))
      else fence_class (lookup key m.fences)

  pub classified : (now : ℕ) → cas_classify now ((store_of m).rows key) ≡ row_class now
  classified now =
      cas_classify-row_of now m.version_counter (lookup key m.entries) (lookup key m.versions)
        (lookup key m.fences) (ok.expiries key) (ok.fence_stamps key) (ok.separate key)

  -- The admission of a put is storage's.
  pub admits_locked-cas_admits :
      (now later expected : ℕ)
      → live_locked now m key ≡ live_locked later m key
      → admits_locked now later m key expected
        ≡ (cas_admits (row_class now).0 (row_class now).1 expected, (row_class now).1)
  unfolding admits_locked cas_admits fence_allows
  admits_locked-cas_admits now later expected steady = elim (Bool-cases (live_locked now m key)) [
    | inl live ↦ rw (sym steady, live) refl
    | inr dead ↦
        rw dead
          (elim (lookup key m.fences)
            as (λ o.
              fence_allows o expected
              ≡ (cas_admits (fence_class o).0 (fence_class o).1 expected, (fence_class o).1)) [
                | none ↦ refl
                | some f ↦ refl
              ])
  ]

  pub refusal-delete_refusal :
      (now later expected : ℕ)
      → live_locked now m key ≡ live_locked later m key
      → refusal now later m key expected
        ≡ delete_refusal (row_class now).0 (row_class now).1 expected
  unfolding refusal delete_refusal dead_refusal cas_admits
  refusal-delete_refusal now later expected steady = elim (Bool-cases (live_locked now m key)) [
    | inl live ↦ rw (sym steady, live) refl
    | inr dead ↦
        rw dead
          (elim (lookup key m.fences)
            as (λ o.
              dead_refusal o expected
              ≡ delete_refusal (fence_class o).0 (fence_class o).1 expected) [
                | none ↦ refl
                | some f ↦ refl
              ])
  ]
