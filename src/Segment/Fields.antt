-- ===== src/Segment/Fields.antt =====
-- storage/segment/builder.go: the fields of a header that was built.
use mathlib.Core.List.{append_assoc, append-nil}
use ocache.Base.{
  Bool-cases, Bytes, [], ap, arith, drop-append, false, inl, inr, length, length-append, refl, suc,
  sym, take, take-append, true, zero, ℕ, ◌%◌, ◌&&◌, ◌*◌, ◌++◌, ◌+◌, ◌<◌, ◌==◌, ◌^◌, ◌∙◌, ◌∷◌, ◌≡◌,
}
use ocache.Base.Int.{pos}
use ocache.Keys.Text.{int64_limit}
use ocache.Segment.Format.{
  all_zero, build_value_header, field, get_be, get_be-put_be, length-put_be, of_int64, put_be,
  to_int64,
}

-- A field in front, and one behind a prefix of known length.
pub field-front : (n : ℕ) (xs ys : Bytes) → length xs ≡ n → field 0 n (xs ++ ys) ≡ xs
field-front n xs ys h = take-append n xs ys h

pub field-behind : (k n : ℕ) (xs ys : Bytes) → length xs ≡ k → field k n (xs ++ ys) ≡ field 0 n ys
field-behind k n xs ys h = ap (take n) (drop-append k xs ys h)

pub field-skip :
    (j k n : ℕ) (xs ys : Bytes) → length xs ≡ j → field (j + k) n (xs ++ ys) ≡ field k n ys
field-skip zero k n [] ys h = ap (λ i. field i n ys) (omega arith)
field-skip zero k n (x ∷ xs) ys h = absurd (omega arith)
field-skip (suc j) k n [] ys h = absurd (omega arith)
field-skip (suc j) k n (x ∷ xs) ys h =
    let e : suc j + k ≡ suc (j + k) = omega arith in
    ap (λ i. field i n (x ∷ (xs ++ ys))) e ∙ field-skip j k n xs ys (omega arith)

pub of_int64-to_int64 : (n : ℕ) → n < int64_limit → to_int64 n ≡ pos n
of_int64-to_int64 n h = ground arith

all_zero-append : (xs ys : Bytes) → all_zero (xs ++ ys) ≡ (all_zero xs && all_zero ys)
all_zero-append [] ys = refl
all_zero-append (x ∷ xs) ys = elim (Bool-cases (x == 0)) [
  | inl e ↦ rw e (all_zero-append xs ys)
  | inr e ↦ rw e refl
]

get_be-all_zero : (xs : Bytes) → all_zero xs ≡ true → get_be 0 xs ≡ 0
unfolding get_be
get_be-all_zero [] h = refl
get_be-all_zero (x ∷ xs) h = elim (Bool-cases (x == 0)) [
  | inl e ↦
      let z : 0 * 256 + x ≡ 0 = ground arith in
      ap (λ a. get_be a xs) z ∙ get_be-all_zero xs (ground arith)
  | inr e ↦ absurd (ground arith)
]

-- The 18 bytes in front of the key.
abbrev pub fixed_part : ℕ → ℕ → ℕ → ℕ → Bytes
fixed_part value_len key_len checksum version =
    put_be 8 (of_int64 (pos value_len))
    ++ (put_be 4 key_len ++ (put_be 4 checksum ++ put_be 2 version))

pub build_value_header-fixed_part :
    (key : Bytes) (value_len checksum version : ℕ)
    → build_value_header key (pos value_len) checksum version
      ≡ fixed_part value_len (length key) checksum version ++ key
unfolding build_value_header
build_value_header-fixed_part key value_len checksum version =
    let a : Bytes = put_be 8 (of_int64 (pos value_len)) in
    let b : Bytes = put_be 4 (length key) in
    let c : Bytes = put_be 4 checksum in
    let d : Bytes = put_be 2 version in
    sym (
      append_assoc a (b ++ (c ++ d)) key
      ∙ ap (◌++◌ a) (append_assoc b (c ++ d) key ∙ ap (◌++◌ b) (append_assoc c d key)))

pub length-fixed_part :
    (value_len key_len checksum version : ℕ)
    → length (fixed_part value_len key_len checksum version) ≡ 18
length-fixed_part value_len key_len checksum version =
    let a : Bytes = put_be 8 (of_int64 (pos value_len)) in
    let b : Bytes = put_be 4 key_len in
    let c : Bytes = put_be 4 checksum in
    let d : Bytes = put_be 2 version in
    length-append a (b ++ (c ++ d))
    ∙ omega (
      arith,
      length-append b (c ++ d),
      length-append c d,
      length-put_be 8 (of_int64 (pos value_len)),
      length-put_be 4 key_len,
      length-put_be 4 checksum,
      length-put_be 2 version,
    )

module _ (value_len key_len checksum version : ℕ) (small_value : value_len < int64_limit)
    (small_key : key_len < 256 ^ 4) (small_checksum : checksum < 256 ^ 4)
    (small_version : version < 256 ^ 2) where
  abbrev a : Bytes
  a = put_be 8 (of_int64 (pos value_len))

  abbrev b : Bytes
  b = put_be 4 key_len

  abbrev c : Bytes
  c = put_be 4 checksum

  abbrev d : Bytes
  d = put_be 2 version

  abbrev fixed : Bytes
  fixed = fixed_part value_len key_len checksum version

  pub value_field : get_be 0 (field 0 8 fixed) ≡ value_len
  value_field =
      ap (get_be 0) (field-front 8 a (b ++ (c ++ d)) (length-put_be 8 _))
      ∙ get_be-put_be 8 (value_len % 2 ^ 64) (omega arith)
      ∙ omega arith

  pub key_field : get_be 0 (field 8 4 fixed) ≡ key_len
  key_field =
      ap (get_be 0) (
        field-behind 8 4 a (b ++ (c ++ d)) (length-put_be 8 _)
        ∙ field-front 4 b (c ++ d) (length-put_be 4 _))
      ∙ get_be-put_be 4 key_len small_key

  pub checksum_field : get_be 0 (field 12 4 fixed) ≡ checksum
  checksum_field =
      ap (get_be 0) (
        field-skip 8 4 4 a (b ++ (c ++ d)) (length-put_be 8 _)
        ∙ field-behind 4 4 b (c ++ d) (length-put_be 4 _)
        ∙ field-front 4 c d (length-put_be 4 _))
      ∙ get_be-put_be 4 checksum small_checksum

  pub version_field : get_be 0 (field 16 2 fixed) ≡ version
  version_field =
      ap (get_be 0) (
        field-skip 8 8 2 a (b ++ (c ++ d)) (length-put_be 8 _)
        ∙ field-skip 4 4 2 b (c ++ d) (length-put_be 4 _)
        ∙ field-behind 4 2 c d (length-put_be 4 _)
        ∙ ap (field 0 2) (sym (append-nil d))
        ∙ field-front 2 d [] (length-put_be 2 _))
      ∙ get_be-put_be 2 version small_version

  pub not_zero : 0 < key_len → all_zero fixed ≡ false
  not_zero h = elim (Bool-cases (all_zero fixed)) [
    | inr e ↦ e
    | inl e ↦
        let ab = sym (all_zero-append a (b ++ (c ++ d))) ∙ e in
        let bc : all_zero (b ++ (c ++ d)) ≡ true = ground arith in
        let bb = sym (all_zero-append b (c ++ d)) ∙ bc in
        let zb : all_zero b ≡ true = ground arith in
        let zero_key = sym (get_be-put_be 4 key_len small_key) ∙ get_be-all_zero b zb in
        absurd (omega arith)
  ]
