-- ===== src/Clean/Limits.antt =====
-- storage/cleaner.go: enforceDiskLimit and enforceFilesystemReserve, which say how much evictByIndex is to
-- evict. `ninety_percent` stands for the float64 product by 0.9, truncated.
use ocache.Base.{Bool, List, Option, if◌then◌else◌, none, some, ℕ, ◌&&◌, ◌+◌, ◌/◌}
use ocache.Base.Int.{leb_ℤ, ltb_ℤ, negsuc, pos, ℤ, ◌+ℤ◌, ◌-ℤ◌}
use ocache.Cas.Io.{EvictionPolicy, fifo, lru}
use ocache.Merge.Codec.{Codec}
use ocache.Evict.Pass.{EvictionIndex, Look, evict_by_index, fifo_eviction_index, lru_eviction_index}

-- The division of int64, towards 0.
abbrev pub quot : ℤ → ℕ → ℤ
quot (pos a) n = pos (a / n)
quot (negsuc a) n = pos 0 -ℤ pos ((a + 1) / n)

abbrev pub reserve_volume_fraction : ℕ
reserve_volume_fraction = 10

abbrev pub reserve_evict_slice_fraction : ℕ
reserve_evict_slice_fraction = 4

-- The number of bytes to evict, where the pass runs.
unfoldable pub disk_limit_need : (ℤ → ℤ) → ℤ → ℤ → Option ℤ
disk_limit_need ninety_percent max_disk_usage current =
    if leb_ℤ current max_disk_usage then none else some (current -ℤ ninety_percent max_disk_usage)

-- The reserve on a volume of `total` bytes.
unfoldable pub effective_reserve : ℤ → ℤ → ℤ
effective_reserve disk_reserve_bytes total =
    let vol_cap : ℤ = quot total reserve_volume_fraction in
    if ltb_ℤ (pos 0) total && ltb_ℤ vol_cap disk_reserve_bytes then vol_cap else disk_reserve_bytes

abbrev pub slice_of : ℤ → ℤ → ℤ
slice_of deficit total_size =
    let max_slice : ℤ = quot total_size reserve_evict_slice_fraction in
    if ltb_ℤ (pos 0) max_slice && ltb_ℤ max_slice deficit then max_slice else deficit

-- `usage` is what statfs answers: the free and the total bytes.
unfoldable pub reserve_need : ℤ → ℤ → Option (ℤ × ℤ) → ℤ → Option ℤ
unfolding effective_reserve
reserve_need max_disk_usage disk_reserve_bytes none total_size = none
reserve_need max_disk_usage disk_reserve_bytes (some (free, total)) total_size =
    let reserve : ℤ = effective_reserve disk_reserve_bytes total in
    if leb_ℤ max_disk_usage (pos 0)
    then none
    else if leb_ℤ reserve free
    then none
    else some (slice_of (reserve -ℤ free) total_size)

abbrev pub eviction_index : EvictionPolicy → EvictionIndex
eviction_index fifo = fifo_eviction_index
eviction_index lru = lru_eviction_index

-- The total behind a pass of either kind.
unfoldable pub enforce : EvictionPolicy → Codec → List Look → Bool → ℤ → Option ℤ → ℤ
unfolding evict_by_index
enforce policy codec looks written total none = total
enforce policy codec looks written total (some need) =
    total +ℤ (evict_by_index (eviction_index policy) codec need looks written).1.0
