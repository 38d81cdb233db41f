-- ===== src/Store/Heal.antt =====
-- storage/storage.go and storage/merge/operator.go: the purge of a Get and the retry that follows it.
use ocache.Base.{
  Bool, Bool-cases, Bytes, [], arith, bytes_eq, false, if◌then◌else◌, inl, inr, is_empty, refl,
  some, true, ℕ, ◌&&◌, ◌<◌, ◌∙◌, ◌∷◌, ◌≡◌, ◌⊎◌,
}
use ocache.Base.Int.{leb_ℤ, ltb_ℤ, pos, ℤ}
use ocache.Merge.Row.{ValueMessage, is_raw_file, raw_file, zero_message}
use ocache.Merge.Operator.{apply_operand, apply_path_cas, apply_purge, resolve, tombstone}
use ocache.Store.Errors.{new_io_retryable_error}
use ocache.Store.Get.{
  Backing, absent_key, file_missing, get_by_type, get_error, get_row, raw_answer, raw_purge,
}

-- The operand of MakeRawFilePurgeOperand.
abbrev pub purge_operand : Bytes → ValueMessage
purge_operand path = record zero_message { value_type = raw_file; raw_file_path = path }

purge_lem :
    (row : ValueMessage) (path : Bytes)
    → is_empty path ≡ false
    → resolve (some row) (purge_operand path ∷ []) ≡ (
        if is_raw_file row.value_type && bytes_eq row.raw_file_path path
        then some (tombstone 0)
        else some row)
unfolding resolve apply_operand apply_path_cas apply_purge
purge_lem row path h = rw h refl

-- A Get of an unexpired large object whose raw file is gone answers an error that may be retried, purges the
-- row, and refreshes its access time exactly where there is an access updater. Where the row still names that file when the purge is merged, the next Get at
-- any time after 1970 finds the key absent; where it has another value by then, the purge leaves it.
pub get_row-heals :
    (threshold : ℤ) (updater : Bool) (now : ℕ) (vm : ValueMessage)
    → ltb_ℤ (pos 0) vm.expiry && leb_ℤ vm.expiry (pos now) ≡ false
    → vm.value_type ≡ raw_file
    → ltb_ℤ threshold vm.value_length ≡ true
    → is_empty vm.raw_file_path ≡ false
    → ((get_row threshold updater now vm file_missing).answer ≡ get_error new_io_retryable_error)
      × ((get_row threshold updater now vm file_missing).purged ≡ some vm.raw_file_path)
      × ((get_row threshold updater now vm file_missing).touched ≡ updater)
      × ((row : ValueMessage)
          → (((after : ValueMessage) × (resolve (some row) (purge_operand vm.raw_file_path ∷ [])
                  ≡ some after)
                × ((later : ℕ) (backing : Backing)
                    → 0 < later
                    → (get_row threshold updater later after backing).answer ≡ absent_key))
              ⊎ ((is_raw_file row.value_type && bytes_eq row.raw_file_path vm.raw_file_path ≡ false)
                  × (resolve (some row) (purge_operand vm.raw_file_path ∷ []) ≡ some row))))
unfolding get_row get_by_type raw_answer raw_purge tombstone
get_row-heals threshold updater now vm live raw large named = (
  rw (live, raw) refl,
  rw (live, raw, large) refl,
  rw (live, raw) refl,
  λ row.
      elim (Bool-cases
        (is_raw_file row.value_type && bytes_eq row.raw_file_path vm.raw_file_path)) [
          | inl same ↦ inl (
            tombstone 0,
            purge_lem row vm.raw_file_path named ∙ rw same refl,
            λ later backing h. ground arith,
          )
          | inr other ↦ inr (other, purge_lem row vm.raw_file_path named ∙ rw other refl)
        ],
)
