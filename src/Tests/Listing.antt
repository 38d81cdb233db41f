-- ===== src/Tests/Listing.antt =====
-- The listings at concrete inputs, over the wire format of one-byte tags, numbers and lengths.
use ocache.Base.{Bytes, [], arith, codes, false, length, refl, some, suc, true, ℕ, ◌∷◌, ◌≡◌}
use ocache.Base.Int.{pos}
use ocache.Keys.Text.{has_prefix}
use ocache.Keys.Order.{lex_lt}
use ocache.Merge.Row.{ValueMessage, zero_message}
use ocache.Merge.Codec.{Codec}
use ocache.Merge.SampleCodec.{sample_codec}
use ocache.Wire.Extract.{
  iterate, read_tag, read_varint, scan, value_message_expiry, value_message_varint_field,
  varint_field,
}
use ocache.Tests.Wire.{short_wire}
use ocache.Clean.Strip.{expiry_of_row}
use ocache.Store.Get.{file_missing}
use ocache.Store.Listing.{
  Rows, collect, judge_key, list_key_values_with_pagination, list_keys_with_pagination, list_page,
  list_start, page_of, seek,
}
use ocache.Store.Pages.{follow_pages, follow_pages-matching, matching}
use ocache.Store.Alike.{SamePage, list_key_values_with_pagination-SamePage}

-- "a/2" has expired, and "b" lacks the prefix "a/".
abbrev rows : Rows
rows =
    (codes "a", [])
    ∷ (codes "a/1", [])
    ∷ (codes "a/2", 24 ∷ 5 ∷ [])
    ∷ (codes "a/3", [])
    ∷ (codes "b", [])
    ∷ []

abbrev clock : Bytes → ℕ
clock k = 10

follow_pages-matching_example :
    (follow_pages (judge_key short_wire clock) (codes "a/") 1 rows (suc (length rows)) []
      ≡ matching (judge_key short_wire clock) (codes "a/") rows)
    × ((list_page (judge_key short_wire clock) (codes "a/") [] 0 rows).entries
        ≡ matching (judge_key short_wire clock) (codes "a/") rows)
    × ((list_page (judge_key short_wire clock) (codes "a/") [] 0 rows).has_more ≡ false)
unfolding lex_lt
follow_pages-matching_example =
    follow_pages-matching (judge_key short_wire clock) (codes "a/") 1 rows (omega arith)
      (
        (refl, (refl, (refl, (refl, tt)))),
        ((refl, (refl, (refl, tt))), ((refl, (refl, tt)), ((refl, tt), (tt, tt)))),
      )
      (refl, (refl, (refl, (refl, (refl, tt)))))

listed : matching (judge_key short_wire clock) (codes "a/") rows ≡ codes "a/1" ∷ codes "a/3" ∷ []
unfolding has_prefix judge_key expiry_of_row value_message_expiry value_message_varint_field scan
    iterate read_tag varint_field read_varint
listed = refl

-- A page can say that there is more although only expired rows are left.
hollow :
    (list_page
      (judge_key short_wire clock)
      (codes "a/")
      []
      1
      ((codes "a/1", []) ∷ (codes "a/2", 24 ∷ 5 ∷ []) ∷ [])).has_more
    ≡ true
unfolding list_page list_start seek lex_lt collect page_of has_prefix judge_key expiry_of_row
    value_message_expiry value_message_varint_field scan iterate read_tag varint_field read_varint
hollow = refl

-- A codec that reads the expiry of these rows.
abbrev read_row : Bytes → ValueMessage
read_row [] = zero_message
read_row (b ∷ bs) = record zero_message { expiry = pos 5; value_length = pos 3 }

abbrev codec : Codec
codec = record sample_codec { unmarshal = λ b. some (read_row b) }

list_key_values_with_pagination-SamePage_example :
    SamePage
      (list_key_values_with_pagination codec
        (λ vm. file_missing)
        clock
        (codes "a/")
        []
        1
        false
        rows)
      (list_keys_with_pagination short_wire clock (codes "a/") [] 1 false rows)
unfolding expiry_of_row value_message_expiry value_message_varint_field scan iterate read_tag
    varint_field read_varint
list_key_values_with_pagination-SamePage_example =
    list_key_values_with_pagination-SamePage short_wire codec (λ vm. file_missing) clock
      (codes "a/") [] 1 false rows (refl, (refl, (refl, (refl, (refl, tt)))))
