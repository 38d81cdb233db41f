-- ===== src/Clean/Bounds.antt =====
-- storage/cleaner.go: how much a pass of either limit is asked to evict.
use mathlib.Core.Option.{some-injective}
use ocache.Base.{Bool-cases, arith, false, inl, inr, some, subst, true, ◌&&◌, ◌≡◌, ◌⊎◌}
use ocache.Base.Int.{leb_ℤ, ltb_ℤ, pos, sub-positive, ℤ, ◌-ℤ◌}
use ocache.Clean.Limits.{
  effective_reserve, quot, reserve_evict_slice_fraction, reserve_need, reserve_volume_fraction,
  slice_of,
}

abbrev Below : ℤ → ℤ → Type 0
Below a b = ltb_ℤ a b ≡ true

abbrev AtMost : ℤ → ℤ → Type 0
AtMost a b = leb_ℤ a b ≡ true

above : (a b : ℤ) → leb_ℤ a b ≡ false → Below b a
above a b h = ground arith

effective_reserve-AtMost :
    (disk_reserve_bytes total : ℤ)
    → AtMost (effective_reserve disk_reserve_bytes total) disk_reserve_bytes
      × (AtMost total (pos 0)
          ⊎ AtMost
              (effective_reserve disk_reserve_bytes total)
              (quot total reserve_volume_fraction))
unfolding effective_reserve
effective_reserve-AtMost d t =
    let cap : ℤ = quot t reserve_volume_fraction in
    elim (Bool-cases (ltb_ℤ (pos 0) t && ltb_ℤ cap d)) [
      | inl small ↦ rw small (ground arith, inr (ground arith))
      | inr large ↦ rw large (ground arith, ground arith)
    ]

slice_of-bounds :
    (deficit total_size : ℤ)
    → Below (pos 0) deficit
    → Below (pos 0) (slice_of deficit total_size)
      × AtMost (slice_of deficit total_size) deficit
      × (AtMost (quot total_size reserve_evict_slice_fraction) (pos 0)
          ⊎ AtMost (slice_of deficit total_size) (quot total_size reserve_evict_slice_fraction))
slice_of-bounds d t h =
    let cap : ℤ = quot t reserve_evict_slice_fraction in
    elim (Bool-cases (ltb_ℤ (pos 0) cap && ltb_ℤ cap d)) [
      | inl small ↦ rw small (ground arith, ground arith, inr (ground arith))
      | inr large ↦ rw large (h, ground arith, ground arith)
    ]

-- Where the free space calls for an eviction, it is below the reserve, which is neither above the configured
-- one nor above a tenth of a volume of known size; and the pass is asked for a positive number of bytes, for
-- no more than is missing from the reserve, and for no more than a quarter of the store unless that is 0.
pub reserve_need-bounds :
    (max_disk_usage disk_reserve_bytes free total total_size need : ℤ)
    → reserve_need max_disk_usage disk_reserve_bytes (some (free, total)) total_size ≡ some need
    → (let reserve = effective_reserve disk_reserve_bytes total in
        Below free reserve
        × AtMost reserve disk_reserve_bytes
        × (AtMost total (pos 0) ⊎ AtMost reserve (quot total reserve_volume_fraction))
        × Below (pos 0) need
        × AtMost need (reserve -ℤ free)
        × (AtMost (quot total_size reserve_evict_slice_fraction) (pos 0)
            ⊎ AtMost need (quot total_size reserve_evict_slice_fraction)))
unfolding reserve_need
reserve_need-bounds m d free total size need h =
    let reserve : ℤ = effective_reserve d total in
    elim (Bool-cases (leb_ℤ m (pos 0))) [
      | inl uncapped ↦ absurd ((let no = rw uncapped at h in cc))
      | inr capped ↦ elim (Bool-cases (leb_ℤ reserve free)) [
        | inl enough ↦ absurd ((let no = rw (capped, enough) at h in cc))
        | inr low ↦
            let is_slice : slice_of (reserve -ℤ free) size ≡ need =
              some-injective _ _ (rw (capped, low) at h) in
            let reserved = effective_reserve-AtMost d total in
            let cut = slice_of-bounds (reserve -ℤ free) size (sub-positive reserve free low) in
            subst
              (λ n.
                Below free reserve
                × AtMost reserve d
                × (AtMost total (pos 0) ⊎ AtMost reserve (quot total reserve_volume_fraction))
                × Below (pos 0) n
                × AtMost n (reserve -ℤ free)
                × (AtMost (quot size reserve_evict_slice_fraction) (pos 0)
                    ⊎ AtMost n (quot size reserve_evict_slice_fraction)))
              is_slice (above reserve free low, reserved.0, reserved.1, cut.0, cut.1, cut.2)
      ]
    ]
