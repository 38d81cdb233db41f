-- ===== src/Segment/Recovered.antt =====
-- storage/segment/manager.go: the scan of validateOpenSegment over the entries that were written.
use mathlib.Core.List.{append_assoc, append-nil}
use ocache.Base.{
  Bytes, List, [], ap, arith, length, length-append, refl, subst, suc, sym, ℕ, ◌%◌, ◌++◌, ◌+◌, ◌<◌,
  ◌^◌, ◌∙◌, ◌∷◌, ◌≡◌,
}
use ocache.Keys.Text.{int64_limit}
use ocache.Segment.Format.{calculate_value_header_size}
use ocache.Segment.Content.{Entry, encode, encode_entry, length-encode_entry, total_bytes}
use ocache.Segment.Recover.{entry_total, scan_entries}
use ocache.Segment.Accept.{All, Sound, Sound-behind, file, head_of, judge_next-entry, next-entry}

module _ (crc : Bytes → ℕ) (before rest : Bytes) (e : Entry) where
  -- One step of the scan, from the start of a sound entry to the start of the next.
  scan_entries-entry :
      (fuel entries data_bytes : ℕ)
      → Sound crc (length rest) e
      → length (before ++ (encode_entry e ++ rest)) < int64_limit
      → scan_entries crc
          (suc fuel)
          (before ++ (encode_entry e ++ rest))
          (length before)
          entries
          data_bytes
        ≡ scan_entries crc fuel
            (before ++ (encode_entry e ++ rest))
            (length (before ++ encode_entry e))
            ((entries + 1) % 2 ^ 32)
            (data_bytes + length e.value)
  unfolding scan_entries calculate_value_header_size
  scan_entries-entry fuel entries data_bytes ok small =
      let at : length before + entry_total (head_of e) ≡ length (before ++ encode_entry e) =
        omega (arith, length-append before (encode_entry e), length-encode_entry e) in
      rw
        (
          next-entry crc before rest e ok,
          judge_next-entry crc before rest e entries data_bytes
              (scan_entries crc fuel (file crc before rest e)
                (length before + entry_total (head_of e)) ((entries + 1) % 2 ^ 32)
                (data_bytes + length e.value))
              ok small,
          at,
        )
        refl

module _ (crc : Bytes → ℕ) (tail : Bytes) where
  -- A run of sound entries is scanned to its end, with the entries and bytes counted.
  pub scan_entries-encode :
      (es : List Entry) (fuel : ℕ) (before : Bytes) (entries data_bytes : ℕ)
      → All (Sound crc (length tail)) es
      → length (before ++ (encode es ++ tail)) < int64_limit
      → entries < 2 ^ 32
      → scan_entries crc
          (length es + fuel)
          (before ++ (encode es ++ tail))
          (length before)
          entries
          data_bytes
        ≡ scan_entries crc fuel
            (before ++ (encode es ++ tail))
            (length (before ++ encode es))
            ((entries + length es) % 2 ^ 32)
            (data_bytes + total_bytes es)
  scan_entries-encode [] fuel before entries data_bytes ok small few =
      let f : 0 + fuel ≡ fuel = omega arith in
      let n : (entries + 0) % 2 ^ 32 ≡ entries = omega arith in
      let b : data_bytes + 0 ≡ data_bytes = omega arith in rw (f, n, b, append-nil before) refl
  scan_entries-encode (e ∷ es) fuel before entries data_bytes (ok, oks) small few =
      let rest : Bytes = encode es ++ tail in
      let further : Bytes = before ++ encode_entry e in
      let f : suc (length es) + fuel ≡ suc (length es + fuel) = omega arith in
      let here =
        Sound-behind crc e (length tail) (length rest)
          (omega (arith, length-append (encode es) tail)) ok in
      let one : before ++ ((encode_entry e ++ encode es) ++ tail)
          ≡ before ++ (encode_entry e ++ rest) =
        ap (◌++◌ before) (append_assoc (encode_entry e) (encode es) tail) in
      let two : before ++ (encode_entry e ++ rest) ≡ further ++ rest =
        sym (append_assoc before (encode_entry e) rest) in
      let ends : further ++ encode es ≡ before ++ (encode_entry e ++ encode es) =
        append_assoc before (encode_entry e) (encode es) in
      let n : ((entries + 1) % 2 ^ 32 + length es) % 2 ^ 32 ≡ (entries + suc (length es)) % 2 ^ 32 =
        omega arith in
      let b : data_bytes + length e.value + total_bytes es
          ≡ data_bytes + (length e.value + total_bytes es) =
        omega arith in
      ap
        (λ k.
          scan_entries crc k (before ++ (encode (e ∷ es) ++ tail)) (length before) entries
            data_bytes)
        f
      ∙ ap (λ x. scan_entries crc (suc (length es + fuel)) x (length before) entries data_bytes) one
      ∙ scan_entries-entry crc before rest e (length es + fuel) entries data_bytes here
          (subst (λ x. length x < int64_limit) one small)
      ∙ ap
          (λ x.
            scan_entries crc (length es + fuel) x (length further) ((entries + 1) % 2 ^ 32)
              (data_bytes + length e.value))
          two
      ∙ scan_entries-encode es fuel further ((entries + 1) % 2 ^ 32) (data_bytes + length e.value)
          oks (subst (λ x. length x < int64_limit) (one ∙ two) small) (omega arith)
      ∙ rw (sym two, sym one, ends, n, b) refl
