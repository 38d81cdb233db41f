-- ===== src/Segment/Format.antt =====
-- storage/segment/builder.go: the headers of the entries and the footer of a segment file.
use ocache.Base.{
  Bool, Bytes, Option, [], arith, bytes_eq, codes, drop, if◌then◌else◌, leb, length, length-append,
  ltb, none, not, refl, some, suc, take, true, zero, ℕ, ◌%◌, ◌&&◌, ◌*◌, ◌++◌, ◌+◌, ◌-◌, ◌/◌, ◌<◌,
  ◌==◌, ◌^◌, ◌||◌, ◌∙◌, ◌∷◌, ◌≡◌,
}
use native.Mathlib.Nat.{pow-suc}
use ocache.Base.Int.{leb_ℤ, negsuc, pos, ℤ}
use ocache.Keys.Text.{int64_limit, is_digit}

-- binary.BigEndian.PutUint16, PutUint32 and PutUint64, by the width in bytes.
unfoldable pub put_be : ℕ → ℕ → Bytes
put_be zero n = []
put_be (suc w) n = put_be w (n / 256) ++ (n % 256) ∷ []

unfoldable pub get_be : ℕ → Bytes → ℕ
get_be acc [] = acc
get_be acc (c ∷ s) = get_be (acc * 256 + c) s

-- s[from:from+n]
abbrev pub field : ℕ → ℕ → Bytes → Bytes
field from n s = take n (drop from s)

-- int64 of a uint64
abbrev pub to_int64 : ℕ → ℤ
to_int64 n = if ltb n int64_limit then pos n else negsuc (2 ^ 64 - 1 - n)

abbrev pub of_int64 : ℤ → ℕ
of_int64 (pos n) = n % 2 ^ 64
of_int64 (negsuc n) = 2 ^ 64 - 1 - n

abbrev pub value_header_size : ℕ
value_header_size = 18

abbrev pub segment_footer_size : ℕ
segment_footer_size = 20

abbrev pub current_value_header_version : ℕ
current_value_header_version = 1

unfoldable pub build_value_header : Bytes → ℤ → ℕ → ℕ → Bytes
build_value_header key value_len checksum version =
    put_be 8 (of_int64 value_len)
    ++ (put_be 4 (length key) ++ (put_be 4 checksum ++ (put_be 2 version ++ key)))

unfoldable pub calculate_value_header_size : Bytes → ℕ
calculate_value_header_size key = value_header_size + length key

-- The new length and checksum, in place.
unfoldable pub update_value_header : Bytes → ℤ → ℕ → Bytes
update_value_header header value_len checksum =
    put_be 8 (of_int64 value_len) ++ (field 8 4 header ++ (put_be 4 checksum ++ drop 16 header))

pub record ValueHeader : Type 0 where
  pub value_len : ℕ
  pub header_size : ℕ
  pub key_len : ℕ
  pub version : ℕ
  pub checksum : ℕ

pub data HeaderRead : Type 0 where
  header : ValueHeader → HeaderRead
  end_of_file invalid_header : HeaderRead

abbrev pub all_zero : Bytes → Bool
all_zero [] = true
all_zero (c ∷ s) = (c == 0) && all_zero s

-- The fields of 18 bytes: a positive key length, a positive int64 value length, a known version.
unfoldable pub parse_fixed : Bytes → HeaderRead
parse_fixed fixed =
    let value_len : ℕ = get_be 0 (field 0 8 fixed) in
    let key_len : ℕ = get_be 0 (field 8 4 fixed) in
    let version : ℕ = get_be 0 (field 16 2 fixed) in
    if key_len == 0
    then invalid_header
    else if leb_ℤ (to_int64 value_len) (pos 0)
    then invalid_header
    else if leb version 0 || ltb current_value_header_version version
    then invalid_header
    else header (record {
      value_len = value_len;
      header_size = value_header_size + key_len;
      key_len = key_len;
      version = version;
      checksum = get_be 0 (field 12 4 fixed);
    })

-- `fixed` is what one pread of 18 bytes gives, fewer at the end of the file.
unfoldable pub read_value_header_at : Bytes → ℕ → HeaderRead
unfolding parse_fixed
read_value_header_at file offset =
    let fixed : Bytes = field offset value_header_size file in
    if ltb (length fixed) value_header_size
    then end_of_file
    else if all_zero fixed
    then end_of_file
    else parse_fixed fixed

abbrev pub segment_footer_magic_prefix : Bytes
segment_footer_magic_prefix = codes "SEGEOF"

-- Two decimal digits, and 00 for a version that has more.
unfoldable pub version_digits : ℤ → Bytes
version_digits (negsuc n) = codes "00"
version_digits (pos v) =
    if ltb 99 v then codes "00" else (b'0' + v / 10 % 10) ∷ (b'0' + v % 10) ∷ []

unfoldable pub build_segment_footer_with_version : ℤ → ℕ → ℤ → Bytes
unfolding version_digits
build_segment_footer_with_version version entries data_bytes =
    segment_footer_magic_prefix
    ++ (version_digits version ++ (put_be 4 entries ++ put_be 8 (of_int64 data_bytes)))

pub record Footer : Type 0 where
  pub footer_version : ℕ
  pub entries : ℕ
  pub data_bytes : ℤ

unfoldable pub parse_digits : Bytes → Option ℕ
parse_digits (a ∷ b ∷ []) =
    if is_digit a && is_digit b then some ((a - b'0') * 10 + (b - b'0')) else none
parse_digits _ = none

unfoldable pub parse_segment_footer : Bytes → Option Footer
unfolding parse_digits
parse_segment_footer footer =
    if ltb (length footer) segment_footer_size
    then none
    else if not (bytes_eq (field 0 6 footer) segment_footer_magic_prefix)
    then none
    else elim (parse_digits (field 6 2 footer)) [
      | none ↦ none
      | some v ↦ some (record {
        footer_version = v;
        entries = get_be 0 (field 8 4 footer);
        data_bytes = to_int64 (get_be 0 (field 12 8 footer));
      })
    ]

get_be-append : (acc : ℕ) (xs ys : Bytes) → get_be acc (xs ++ ys) ≡ get_be (get_be acc xs) ys
unfolding get_be
get_be-append acc [] ys = refl
get_be-append acc (x ∷ xs) ys = get_be-append (acc * 256 + x) xs ys

pub length-put_be : (w n : ℕ) → length (put_be w n) ≡ w
unfolding put_be
length-put_be zero n = refl
length-put_be (suc w) n =
    length-append (put_be w (n / 256)) _ ∙ omega (arith, length-put_be w (n / 256))

shifted : (a p n : ℕ) → (a * p + n / 256) * 256 + n % 256 ≡ a * (p * 256) + n
shifted a p n = let whole : n / 256 * 256 + n % 256 ≡ n = omega arith in grind arith

get_be-put_be_from : (w acc n : ℕ) → n < 256 ^ w → get_be acc (put_be w n) ≡ acc * 256 ^ w + n
unfolding get_be put_be
get_be-put_be_from zero acc n h = omega arith
get_be-put_be_from (suc w) acc n h =
    get_be-append acc (put_be w (n / 256)) _
    ∙ rw (get_be-put_be_from w acc (n / 256) (omega (arith, pow-suc 256 w)), pow-suc 256 w)
        (shifted acc (256 ^ w) n)

-- What was written with a width is read back, below 256 to that width.
pub get_be-put_be : (w n : ℕ) → n < 256 ^ w → get_be 0 (put_be w n) ≡ n
get_be-put_be w n h = get_be-put_be_from w 0 n h ∙ omega arith
