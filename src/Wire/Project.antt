-- ===== src/Wire/Project.antt =====
-- storage/value_wire.go: the extractors agree on the fields that they share.
use mathlib.Core.Option
use ocache.Base.{
  Bool-cases, Bytes, Option, Option-cases, [], ap, inl, inr, refl, suc, sym, zero, ℕ, ◌∙◌, ◌∷◌, ◌≡◌,
}
use ocache.Wire.Proto.{IsProtowire, Protowire, WireType, varint_type}
use ocache.Wire.Extract.{Field, iterate, read_path, read_tag, read_varint, scan, skip_field}

abbrev pub first {ℓ} : {A B : Type ℓ} → (A → B) → A × Bytes → B × Bytes
first f p = (f p.0, p.1)

module _ {ℓ} {A B : Type ℓ} (pw : Protowire) (f : A → B) where
  abbrev pub Simulates : Field A → Field B → Type ℓ
  Simulates field field' =
      (a : A) (num : ℕ) (typ : WireType) (rest : Bytes)
      → Option.map (first f) (field a num typ rest) ≡ field' (f a) num typ rest

  scan-map :
      (body : A → Bytes → Option (A × Bytes)) (body' : B → Bytes → Option (B × Bytes))
      → ((a : A) (buf : Bytes) → Option.map (first f) (body a buf) ≡ body' (f a) buf)
      → (fuel : ℕ) (a : A) (buf : Bytes)
      → Option.map (Option.map f) (scan fuel body a buf) ≡ scan fuel body' (f a) buf
  unfolding scan
  scan-map body body' sim zero a [] = refl
  scan-map body body' sim zero a (b ∷ bs) = refl
  scan-map body body' sim (suc fuel) a [] = refl
  scan-map body body' sim (suc fuel) a (b ∷ bs) = elim (Option-cases (body a (b ∷ bs))) [
    | inl e ↦ let e' = sym (sim a (b ∷ bs)) ∙ ap (Option.map (first f)) e in rw (e, e', scan) refl
    | inr ((a', rest), e) ↦
        let e' = sym (sim a (b ∷ bs)) ∙ ap (Option.map (first f)) e in
        rw (e, e', scan) (scan-map body body' sim fuel a' rest)
  ]

  iterate-map :
      (field : Field A) (field' : Field B)
      → Simulates field field'
      → (a : A) (buf : Bytes)
      → Option.map (first f) (iterate pw field a buf) ≡ iterate pw field' (f a) buf
  unfolding iterate
  iterate-map field field' sim a buf = elim (Option-cases (read_tag pw buf)) [
    | inl e ↦ rw (e, iterate) refl
    | inr ((num, (typ, rest)), e) ↦ rw (e, iterate) (sim a num typ rest)
  ]

  pub scan-iterate-map :
      (field : Field A) (field' : Field B)
      → Simulates field field'
      → (fuel : ℕ) (a : A) (buf : Bytes)
      → Option.map (Option.map f) (scan fuel (iterate pw field) a buf)
        ≡ scan fuel (iterate pw field') (f a) buf
  scan-iterate-map field field' sim fuel a buf =
      scan-map (iterate pw field) (iterate pw field') (iterate-map field field' sim) fuel a buf

  pub read_varint-map :
      (put : ℕ → A) (buf : Bytes)
      → Option.map (first f) (read_varint pw put buf) ≡ read_varint pw (λ v. f (put v)) buf
  unfolding read_varint
  read_varint-map put buf = elim (Option-cases (pw.consume_varint buf)) [
    | inl e ↦ rw (e, read_varint) refl
    | inr ((v, n), e) ↦ rw (e, read_varint) refl
  ]

  pub read_path-map :
      (put : Bytes → A) (put' : Bytes → B) (buf : Bytes)
      → ((p : Bytes) → f (put p) ≡ put' p)
      → Option.map (first f) (read_path pw put buf) ≡ read_path pw put' buf
  unfolding read_path
  read_path-map put put' buf h = elim (Option-cases (pw.consume_bytes buf)) [
    | inl e ↦ rw (e, read_path) refl
    | inr ((v, n), e) ↦ elim (Bool-cases (pw.utf8_valid v)) [
      | inl good ↦ rw (e, read_path) (simp (good, h v))
      | inr bad ↦ rw (e, read_path) (simp bad)
    ]
  ]

  pub skip_field-map :
      (num : ℕ) (typ : WireType) (a : A) (buf : Bytes)
      → Option.map (first f) (skip_field pw num typ a buf) ≡ skip_field pw num typ (f a) buf
  unfolding skip_field
  skip_field-map num typ a buf = elim (Option-cases (pw.consume_field_value num typ buf)) [
    | inl e ↦ rw (e, skip_field) refl
    | inr (n, e) ↦ rw (e, skip_field) refl
  ]

-- A varint that is read and dropped is a varint that is skipped.
pub read_varint-skip {ℓ} :
    {A : Type ℓ} (pw : Protowire)
    → IsProtowire pw
    → (num : ℕ) (a : A) (buf : Bytes)
    → read_varint pw (λ _. a) buf ≡ skip_field pw num varint_type a buf
unfolding read_varint skip_field
read_varint-skip pw law num a buf = elim (Option-cases (pw.consume_varint buf)) [
  | inl e ↦ rw (law.skip_varint num buf, e, read_varint, skip_field) refl
  | inr ((v, n), e) ↦ rw (law.skip_varint num buf, e, read_varint, skip_field) refl
]
