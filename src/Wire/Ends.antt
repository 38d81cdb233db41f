-- ===== src/Wire/Ends.antt =====
-- storage/value_wire.go: the loops of the extractors end, within an iteration for each byte of the text.
use mathlib.Core.Option
use ocache.Base.{
  Bool-cases, Bytes, List, Option, Option-cases, [], ap, arith, drop, inl, inr, length, none, refl,
  some, suc, sym, zero, ℕ, ◌%◌, ◌<◌, ◌^◌, ◌∙◌, ◌∷◌, ◌≡◌, ◌≤◌,
}
use ocache.Wire.Proto.{IsProtowire, Protowire, WireType}
use ocache.Wire.Agree.{
  as_segment_ref, as_size_and_raw_path, decode_value_message_cleanup_fields-agree,
}
use ocache.Wire.Extract.{
  CleanupFields, Field, SegmentRef, SizeAndRawPath, cleanup_field,
  decode_value_message_cleanup_fields, iterate, no_fields, read_path, read_tag, read_varint, scan,
  skip_field, value_message_segment_ref, value_message_size_and_raw_path,
  value_message_varint_field, varint_field,
}

length-drop {ℓ} : {A : Type ℓ} (n : ℕ) (xs : List A) → length (drop n xs) ≤ length xs
length-drop zero xs = omega arith
length-drop (suc n) [] = omega arith
length-drop (suc n) (x ∷ xs) = omega (arith, length-drop n xs)

length-drop_lt {ℓ} :
    {A : Type ℓ} (n : ℕ) (x : A) (xs : List A) → 0 < n → length (drop n (x ∷ xs)) < suc (length xs)
length-drop_lt zero x xs h = absurd (omega arith)
length-drop_lt (suc n) x xs h = omega (arith, length-drop n xs)

read_tag-shrinks :
    (pw : Protowire)
    → IsProtowire pw
    → (b : ℕ) (bs : Bytes) (num : ℕ) (typ : WireType) (rest : Bytes)
    → read_tag pw (b ∷ bs) ≡ some (num, (typ, rest))
    → length rest < suc (length bs)
unfolding read_tag
read_tag-shrinks pw law b bs num typ rest h = elim (Option-cases (pw.consume_tag (b ∷ bs))) [
  | inl e ↦ ground arith
  | inr ((num', (typ', n)), e) ↦
      let pos = length-drop_lt n b bs (law.tag_pos (b ∷ bs) num' typ' n e) in
      elim (Bool-cases (pw.is_valid num')) [ inl good ↦ ground arith | inr bad ↦ ground arith ]
]

module _ {ℓ} {A : Type ℓ} (pw : Protowire) where
  -- A field leaves a text that is no longer than the one it was given.
  abbrev pub Shrinks : Field A → Type ℓ
  Shrinks field =
      (a : A) (num : ℕ) (typ : WireType) (rest : Bytes) (a' : A) (left : Bytes)
      → field a num typ rest ≡ some (a', left)
      → length left ≤ length rest

  iterate-Shrinks :
      (field : Field A)
      → IsProtowire pw
      → Shrinks field
      → (a : A) (b : ℕ) (bs : Bytes) (a' : A) (left : Bytes)
      → iterate pw field a (b ∷ bs) ≡ some (a', left)
      → length left < suc (length bs)
  unfolding iterate
  iterate-Shrinks field law sh a b bs a' left h = elim (Option-cases (read_tag pw (b ∷ bs))) [
    | inl e ↦ ground arith
    | inr ((num, (typ, rest)), e) ↦
        let e' : field a num typ rest ≡ some (a', left) = ground arith in
        omega (arith, read_tag-shrinks pw law b bs num typ rest e, sh a num typ rest a' left e')
  ]

  read_varint-shrinks :
      (put : ℕ → A) (rest : Bytes) (a' : A) (left : Bytes)
      → read_varint pw put rest ≡ some (a', left)
      → length left ≤ length rest
  unfolding read_varint
  read_varint-shrinks put rest a' left h = elim (Option-cases (pw.consume_varint rest)) [
    | inl e ↦ ground arith
    | inr ((v, n), e) ↦ let s = length-drop n rest in ground arith
  ]

  read_path-shrinks :
      (put : Bytes → A) (rest : Bytes) (a' : A) (left : Bytes)
      → read_path pw put rest ≡ some (a', left)
      → length left ≤ length rest
  unfolding read_path
  read_path-shrinks put rest a' left h = elim (Option-cases (pw.consume_bytes rest)) [
    | inl e ↦ ground arith
    | inr ((v, n), e) ↦ let s = length-drop n rest in ground arith
  ]

  skip_field-shrinks :
      (num : ℕ) (typ : WireType) (a : A) (rest : Bytes) (a' : A) (left : Bytes)
      → skip_field pw num typ a rest ≡ some (a', left)
      → length left ≤ length rest
  unfolding skip_field
  skip_field-shrinks num typ a rest a' left h =
      elim (Option-cases (pw.consume_field_value num typ rest)) [
        | inl e ↦ ground arith
        | inr (n, e) ↦ let s = length-drop n rest in ground arith
      ]

  scan-ends :
      (body : A → Bytes → Option (A × Bytes))
      → ((a : A) (b : ℕ) (bs : Bytes) (a' : A) (left : Bytes)
          → body a (b ∷ bs) ≡ some (a', left)
          → length left < suc (length bs))
      → (fuel : ℕ) (a : A) (buf : Bytes) → length buf ≤ fuel
      → (r : Option A) × (scan fuel body a buf ≡ some r)
  unfolding scan
  scan-ends body sh fuel a [] h = (some a, refl)
  scan-ends body sh zero a (b ∷ bs) h = absurd (omega arith)
  scan-ends body sh (suc fuel) a (b ∷ bs) h = elim (Option-cases (body a (b ∷ bs))) [
    | inl e ↦ (none, rw (e, scan) refl)
    | inr ((a', left), e) ↦
        let (r, t) = scan-ends body sh fuel a' left (omega (arith, sh a b bs a' left e)) in
        (r, rw (e, scan) t)
  ]

cleanup_field-Shrinks : (pw : Protowire) → Shrinks pw (cleanup_field pw)
unfolding cleanup_field
cleanup_field-Shrinks pw a num typ rest a' left h = ground (
  arith,
  read_varint-shrinks pw (λ v. record a { value_type = v % 2 ^ 32 }) rest a' left,
  read_varint-shrinks pw (λ v. record a { value_length = v }) rest a' left,
  read_path-shrinks pw (λ p. record a { raw_file_path = p }) rest a' left,
  read_path-shrinks pw (λ p. record a { segment_path = p }) rest a' left,
  skip_field-shrinks pw num typ a rest a' left,
)

varint_field-Shrinks : (pw : Protowire) (want : ℕ) → Shrinks pw (varint_field pw want)
unfolding varint_field
varint_field-Shrinks pw want a num typ rest a' left h = ground (
  arith,
  read_varint-shrinks pw (λ v. v) rest a' left,
  read_path-shrinks pw (λ _. a) rest a' left,
  skip_field-shrinks pw num typ a rest a' left,
)

-- Every extractor ends, on any text: with the fields, or by refusing the text.
pub extractors_end :
    (pw : Protowire)
    → IsProtowire pw
    → (buf : Bytes)
    → ((r : Option CleanupFields) × (decode_value_message_cleanup_fields pw buf ≡ some r))
      × ((r : Option SegmentRef) × (value_message_segment_ref pw buf ≡ some r))
      × ((r : Option SizeAndRawPath) × (value_message_size_and_raw_path pw buf ≡ some r))
      × ((want : ℕ) → (r : Option ℕ) × (value_message_varint_field pw want buf ≡ some r))
unfolding decode_value_message_cleanup_fields value_message_varint_field
extractors_end pw law buf =
    let (r, e) =
      scan-ends pw (iterate pw (cleanup_field pw))
        (iterate-Shrinks pw (cleanup_field pw) law (cleanup_field-Shrinks pw)) (length buf)
        no_fields buf (omega arith) in
    let same = decode_value_message_cleanup_fields-agree pw law buf in
    (
      (r, e),
      (Option.map as_segment_ref r, sym same.0 ∙ ap (Option.map (Option.map as_segment_ref)) e),
      (
        Option.map as_size_and_raw_path r,
        sym same.1 ∙ ap (Option.map (Option.map as_size_and_raw_path)) e,
      ),
      λ want.
          scan-ends pw (iterate pw (varint_field pw want))
            (iterate-Shrinks pw (varint_field pw want) law (varint_field-Shrinks pw want))
            (length buf) 0 buf (omega arith),
    )
