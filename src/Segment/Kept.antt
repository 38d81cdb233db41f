-- ===== src/Segment/Kept.antt =====
-- storage/segment/segment.go: a write adds its entry to a segment, or leaves the entries it held.
use mathlib.Core.List.{append_assoc, append-nil}
use ocache.Base.{
  ==_iff, Bool-cases, Bytes, List, [], ap, arith, inl, inr, length, length-append, refl, subst, sym,
  take, true, ◌++◌, ◌+◌, ◌==◌, ◌||◌, ◌∙◌, ◌∷◌, ◌≡◌,
}
use ocache.Base.Int.{eqb_ℤ, eqb_ℤ_iff, pos}
use ocache.Merge.Row.{ValueMessage, is_raw_file, is_segment}
use ocache.Segment.Format.{
  build_value_header, calculate_value_header_size, current_value_header_version,
}
use ocache.Segment.Write.{
  File, Segment, WriteError, WriteIo, WriteResult, copy_error, counted, header_error, refused,
  roll_back, seek, short_header, truncate, write_entry, write_file, write_open, write_payload,
  write_to, written_at, wrong_length,
}
use ocache.Segment.Content.{
  Entry, Holds, Stands, encode, encode-append, encode_entry, length-encode_entry, take_all,
  total_bytes-append, truncate-Stands, write_file-Stands,
}

-- What a write leaves: the segment as it was, or with the entry behind the others.
abbrev pub Left : List Entry → Entry → WriteResult → Segment → Type 0
Left es e (written_at at) seg = (at ≡ length (encode es)) × Holds (es ++ e ∷ []) seg
Left es e (refused why) seg = Holds es seg

module _ (es : List Entry) (seg : Segment) (h : Holds es seg) (io : WriteIo)
    (truncates : io.truncates ≡ true) (seeks : io.seeks ≡ true) where
  roll_back-Left :
      (e : Entry) (why : WriteError) (s : Bytes) (f : File)
      → Stands (encode es ++ s) f
      → Left es e (roll_back io why f seg).0 (roll_back io why f seg).1
  unfolding roll_back
  roll_back-Left e why s f st =
      rw (truncates, seeks)
        (record {
          open_file = seek seg.size (truncate seg.size f);
          is_open = refl;
          stands =
              subst (λ n. Stands (encode es) (seek n (truncate n f))) (sym h.sized)
                (truncate-Stands (encode es) (s ++ st.rest) f
                  (st.starts ∙ append_assoc (encode es) s st.rest));
          sized = h.sized;
          counts = h.counts;
          weighs = h.weighs;
        })

-- Header and payload are written in full: the entry stands behind the others.
counted-Holds :
    (es : List Entry) (seg : Segment) (e : Entry) (f : File)
    → Holds es seg
    → Stands (encode es ++ encode_entry e) f
    → Holds (es ++ e ∷ []) (counted e.key e.value f seg)
counted-Holds es seg e f h st =
    let longer : encode es ++ encode_entry e ≡ encode (es ++ e ∷ []) =
      sym (encode-append es (e ∷ []) ∙ ap (◌++◌ (encode es)) (append-nil (encode_entry e))) in
    record {
      open_file = f;
      is_open = refl;
      stands = subst (λ xs. Stands xs f) longer st;
      sized =
          ap (◌+ (calculate_value_header_size e.key + length e.value)) h.sized
          ∙ ap (◌+◌ (length (encode es))) (sym (length-encode_entry e))
          ∙ sym (length-append (encode es) (encode_entry e))
          ∙ ap length longer;
      counts = omega (arith, h.counts, length-append es (e ∷ []));
      weighs = omega (arith, h.weighs, total_bytes-append es (e ∷ []));
    }

-- The entry that a write is to leave.
abbrev pub entry_of : WriteIo → Bytes → ValueMessage → Entry
entry_of io key vm = record { key = key; value = io.copied; checksum = vm.checksum }

module _ (es : List Entry) (seg : Segment) (h : Holds es seg) (io : WriteIo)
    (truncates : io.truncates ≡ true) (seeks : io.seeks ≡ true) (key : Bytes)
    (vm : ValueMessage) where
  abbrev hdr : Bytes
  hdr = build_value_header key vm.value_length vm.checksum current_value_header_version

  abbrev Fine : WriteResult × Segment → Type 0
  Fine r = Left es (entry_of io key vm) r.0 r.1

  write_payload-Left :
      (f : File) → Stands (encode es ++ hdr) f → Fine (write_payload io key vm f seg)
  unfolding write_payload
  write_payload-Left f st =
      let both : Stands (encode es ++ (hdr ++ io.copied)) (write_file io.copied f) =
        subst (λ xs. Stands xs (write_file io.copied f)) (append_assoc (encode es) hdr io.copied)
          (write_file-Stands (encode es ++ hdr) io.copied f st) in
      elim (Bool-cases io.copy_failed) [
        | inl e ↦ rw e (
            roll_back-Left es seg h io truncates seeks (entry_of io key vm) copy_error
              (hdr ++ io.copied) (write_file io.copied f) both)
        | inr e ↦ elim (Bool-cases (eqb_ℤ (pos (length io.copied)) vm.value_length)) [
          | inr g ↦
              rw (e, g)
                (roll_back-Left es seg h io truncates seeks (entry_of io key vm) wrong_length
                  (hdr ++ io.copied) (write_file io.copied f) both)
          | inl g ↦
              let same = (eqb_ℤ_iff (pos (length io.copied)) vm.value_length).0 g in
              rw (e, g)
                (
                  h.sized,
                  counted-Holds es seg (entry_of io key vm) (write_file io.copied f) h (
                      subst
                        (λ n.
                          Stands
                            (encode es
                              ++ (build_value_header key n vm.checksum current_value_header_version
                                  ++ io.copied))
                            (write_file io.copied f))
                        (sym same) both),
                )
        ]
      ]

  write_open-Left : (f : File) → Stands (encode es) f → Fine (write_open io key vm f seg)
  unfolding write_open
  write_open-Left f st =
      let f1 : File = write_file (take io.header_written hdr) f in
      let some_header : Stands (encode es ++ take io.header_written hdr) f1 =
        write_file-Stands (encode es) (take io.header_written hdr) f st in
      elim (Bool-cases io.header_failed) [
        | inl e ↦ rw e (
            roll_back-Left es seg h io truncates seeks (entry_of io key vm) header_error
              (take io.header_written hdr) f1 some_header)
        | inr e ↦ elim (Bool-cases (io.header_written == length hdr)) [
          | inr g ↦
              rw (e, g)
                (roll_back-Left es seg h io truncates seeks (entry_of io key vm) short_header
                  (take io.header_written hdr) f1 some_header)
          | inl g ↦
              let full : take io.header_written hdr ≡ hdr =
                ap (λ n. take n hdr) ((==_iff io.header_written (length hdr)).0 g) ∙ take_all hdr in
              rw (e, g)
                (write_payload-Left f1 (subst (λ xs. Stands (encode es ++ xs) f1) full some_header))
        ]
      ]

  write_to-Left : Fine (write_to io key vm seg.file seg)
  unfolding write_to
  write_to-Left =
      subst (λ o. Fine (write_to io key vm o seg)) (sym h.is_open)
        (write_open-Left h.open_file h.stands)

-- Whatever a write of an entry meets, a header or a payload cut short or a payload of the wrong length,
-- where the rollback's own calls succeed: on success the segment holds the entry behind the others, at
-- the offset returned; on an error it holds what it held, with its counts.
pub write_entry-Left :
    (es : List Entry) (seg : Segment) (io : WriteIo) (key : Bytes) (vm : ValueMessage)
    → Holds es seg
    → io.truncates ≡ true
    → io.seeks ≡ true
    → Left es (entry_of io key vm) (write_entry io key vm seg).0 (write_entry io key vm seg).1
unfolding write_entry
write_entry-Left es seg io key vm h truncates seeks =
    elim (Bool-cases (is_raw_file vm.value_type || is_segment vm.value_type)) [
      | inl e ↦ rw e (write_to-Left es seg h io truncates seeks key vm)
      | inr e ↦ rw e h
    ]
