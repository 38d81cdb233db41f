-- ===== src/Store/Listing.antt =====
-- storage/storage.go: ListKeysWithPagination and ListKeyValuesWithPagination, which run one loop over the
-- metadata rows. The rows of the snapshot come in the order of their keys, by user key: the prefix that all
-- of them have keeps the order, and rows of other keyspaces end the loop. The clock is read at each row.
use ocache.Base.{
  Bool, Bytes, List, Option, [], bytes_eq, false, if◌then◌else◌, is_empty, leb, length, ltb, none,
  not, some, ℕ, ◌&&◌, ◌++◌, ◌^◌, ◌∷◌,
}
use ocache.Base.Int.{leb_ℤ, ltb_ℤ, pos, ℤ}
use ocache.Keys.Text.{has_prefix}
use ocache.Keys.Order.{lex_lt}
use ocache.Merge.Row.{ValueMessage, ValueType, inline, raw_file, segment, unknown_type}
use ocache.Merge.Codec.{Codec}
use ocache.Wire.Proto.{Protowire}
use ocache.Clean.Strip.{expiry_of_row}
use ocache.Store.Get.{Backing, present}

abbrev pub Rows : Type 0
Rows = List (Bytes × Bytes)

unfoldable pub seek : Bytes → Rows → Rows
seek target [] = []
seek target ((k, v) ∷ rows) =
    let rest = seek target rows in if lex_lt k target then rest else (k, v) ∷ rows

-- A page starts behind the key that the last one ended with.
unfoldable pub skip_start : Bytes → Rows → Rows
skip_start start [] = []
skip_start start ((k, v) ∷ rows) = if bytes_eq k start then rows else (k, v) ∷ rows

unfoldable pub list_start : Bytes → Bytes → Rows → Rows
unfolding seek skip_start
list_start prefix start rows =
    if is_empty start then seek prefix rows else skip_start start (seek start rows)

-- A negative limit is given as 0: no limit.
abbrev pub is_full : ℕ → ℕ → Bool
is_full limit n = ltb 0 limit && leb limit n

pub record Page (A : Type 0) : Type 0 where
  pub entries : List A
  pub last_key : Bytes
  pub has_more : Bool

abbrev pub starts_in : Bytes → Rows → Bool
starts_in prefix [] = false
starts_in prefix ((k, v) ∷ rows) = has_prefix prefix k

module _ {A : Type 0} where
  -- The loop: the entries, the last key, and what the iterator has left. `judge` is `none` for a row that is
  -- passed over.
  unfoldable pub collect :
      (Bytes → Bytes → Option A) → Bytes → ℕ → Rows → List A → Bytes → List A × Bytes × Rows
  collect judge prefix limit [] acc last = (acc, last, [])
  collect judge prefix limit ((k, v) ∷ rows) acc last =
      let passed = collect judge prefix limit rows acc last in
      let taken : A → List A × Bytes × Rows =
        λ a. collect judge prefix limit rows (acc ++ a ∷ []) k in
      if not (has_prefix prefix k)
      then (acc, last, (k, v) ∷ rows)
      else if is_full limit (length acc)
      then (acc, last, (k, v) ∷ rows)
      else elim (judge k v) [ none ↦ passed | some a ↦ taken a ]

  unfoldable pub page_of : Bytes → List A × Bytes × Rows → Page A
  page_of prefix (entries, last, rest) = record {
    entries = entries;
    last_key = if starts_in prefix rest then last else [];
    has_more = starts_in prefix rest;
  }

  unfoldable pub list_page : (Bytes → Bytes → Option A) → Bytes → Bytes → ℕ → Rows → Page A
  unfolding collect page_of list_start
  list_page judge prefix start limit rows =
      page_of prefix (collect judge prefix limit (list_start prefix start rows) [] [])

abbrev pub has_passed : Option ℤ → ℕ → Bool
has_passed none now = false
has_passed (some e) now = ltb_ℤ (pos 0) e && leb_ℤ e (pos now)

-- A row whose expiry cannot be read is listed.
unfoldable pub judge_key : Protowire → (Bytes → ℕ) → Bytes → Bytes → Option Bytes
judge_key pw clock k v = if has_passed (expiry_of_row pw v) (clock k) then none else some k

-- The error of the iterator takes the place of the page.
unfoldable pub list_keys_with_pagination :
    Protowire → (Bytes → ℕ) → Bytes → Bytes → ℕ → Bool → Rows → Option (Page Bytes)
unfolding list_page
list_keys_with_pagination pw clock prefix start limit iterator_failed rows =
    if iterator_failed then none else some (list_page (judge_key pw clock) prefix start limit rows)

unfoldable pub list_keys : Protowire → (Bytes → ℕ) → Bytes → Bool → Rows → Option (List Bytes)
unfolding list_keys_with_pagination
list_keys pw clock prefix iterator_failed rows =
    elim (list_keys_with_pagination pw clock prefix [] 0 iterator_failed rows) [
      | none ↦ none
      | some page ↦ some page.entries
    ]

abbrev pub max_list_value_size : ℤ
max_list_value_size = pos (2 ^ 20)

-- A value that is not read is nil, which is the empty value to the caller.
pub record KeyValue : Type 0 where
  pub key : Bytes
  pub value : Bytes
  pub value_length : ℤ
  pub value_omitted : Bool

abbrev pub read_backing : Backing → Bytes
read_backing (present b) = b
read_backing _ = []

unfoldable pub read_value : (ValueMessage → Backing) → ValueMessage → ValueType → Bytes
read_value read vm inline = vm.body
read_value read vm raw_file = read_backing (read vm)
read_value read vm segment = read_backing (read vm)
read_value read vm (unknown_type n) = []

unfoldable pub key_value : (ValueMessage → Backing) → Bytes → ValueMessage → KeyValue
unfolding read_value
key_value read k vm =
    let too_large : Bool = ltb_ℤ max_list_value_size vm.value_length in
    record {
      key = k;
      value = if too_large then [] else read_value read vm vm.value_type;
      value_length = vm.value_length;
      value_omitted = too_large;
    }

unfoldable pub judge_key_value :
    (ValueMessage → Backing) → (Bytes → ℕ) → Bytes → Option ValueMessage → Option KeyValue
unfolding key_value
judge_key_value read clock k none =
    some (record { key = k; value = []; value_length = pos 0; value_omitted = false })
judge_key_value read clock k (some vm) =
    if has_passed (some vm.expiry) (clock k) then none else some (key_value read k vm)

unfoldable pub list_key_values_with_pagination :
    Codec
    → (ValueMessage → Backing)
    → (Bytes → ℕ)
    → Bytes
    → Bytes
    → ℕ
    → Bool
    → Rows
    → Option (Page KeyValue)
unfolding list_page judge_key_value
list_key_values_with_pagination c read clock prefix start limit iterator_failed rows =
    if iterator_failed
    then none
    else some
        (list_page (λ k v. judge_key_value read clock k (c.unmarshal v)) prefix start limit rows)
