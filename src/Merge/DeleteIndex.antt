-- ===== src/Merge/DeleteIndex.antt =====
-- storage/merge: the dead-byte counters of a segment.
use native.Mathlib.Nat.{pow-suc}
use ocache.Base.{
  Bytes, List, [], ap, arith, length, refl, some, suc, zero, ℕ, ◌%◌, ◌++◌, ◌+◌, ◌/◌, ◌<◌, ◌^◌, ◌∙◌,
  ◌∷◌, ◌≡◌,
}
use ocache.Keys.Text.{has_prefix}
use ocache.Keys.Format.{is_delete_index_key, make_delete_index_key}
use ocache.Merge.Codec.{Codec, DeleteIndexEntry, IsCodec}
use ocache.Merge.FullMerge.{
  add_delete_operand, add_delete_operands, full_merge, get_uint, make_delete_index_operand,
  merge_delete_index, put_uint, start_entry, u64,
}

length-put_uint : (w v : ℕ) → length (put_uint w v) ≡ w
unfolding put_uint
length-put_uint zero v = refl
length-put_uint (suc w) v = ap suc (length-put_uint w (v / 256))

get_uint-put_uint : (w v : ℕ) → v < 256 ^ w → get_uint (put_uint w v) ≡ v
unfolding get_uint put_uint
get_uint-put_uint zero v h = omega arith
get_uint-put_uint (suc w) v h =
    let small : v / 256 < 256 ^ w = omega (arith, pow-suc 256 w) in
    omega (arith, get_uint-put_uint w (v / 256) small)

-- A credit: how many entries died, and how many bytes.
abbrev pub Credit : Type 0
Credit = ℕ × ℕ

abbrev pub operands : List Credit → List Bytes
operands [] = []
operands ((n, bytes) ∷ cs) = make_delete_index_operand n bytes ∷ operands cs

abbrev pub entries_in : List Credit → ℕ
entries_in [] = 0
entries_in ((n, bytes) ∷ cs) = n + entries_in cs

abbrev pub bytes_in : List Credit → ℕ
bytes_in [] = 0
bytes_in ((n, bytes) ∷ cs) = bytes + bytes_in cs

abbrev pub AllWords : List Credit → Type 0
AllWords [] = Unit {0}
AllWords ((n, bytes) ∷ cs) = (n < u64) × (bytes < u64) × AllWords cs

add_delete_operand-make :
    (e : DeleteIndexEntry) (n bytes : ℕ)
    → n < u64
    → bytes < u64
    → add_delete_operand e (make_delete_index_operand n bytes) ≡ record {
      deleted_entries = (e.deleted_entries + n) % u64;
      deleted_bytes = (e.deleted_bytes + bytes) % u64;
    }
unfolding add_delete_operand make_delete_index_operand
add_delete_operand-make e n bytes h k =
    cc (get_uint-put_uint 8 n (omega arith), get_uint-put_uint 8 bytes (omega arith))

add_mod-sum : (a n s : ℕ) → ((a + n) % u64 + s) % u64 ≡ (a + (n + s)) % u64
add_mod-sum a n s = omega arith

-- Whatever the order, the counters end as the sums of the credits, modulo 2 ^ 64.
pub add_delete_operands-operands :
    (e : DeleteIndexEntry) (cs : List Credit)
    → e.deleted_entries < u64
    → e.deleted_bytes < u64
    → AllWords cs
    → add_delete_operands e (operands cs) ≡ record {
      deleted_entries = (e.deleted_entries + entries_in cs) % u64;
      deleted_bytes = (e.deleted_bytes + bytes_in cs) % u64;
    }
unfolding add_delete_operands
add_delete_operands-operands e [] h k w = ground arith
add_delete_operands-operands e ((n, bytes) ∷ cs) h k w =
    let next : DeleteIndexEntry = record {
      deleted_entries = (e.deleted_entries + n) % u64;
      deleted_bytes = (e.deleted_bytes + bytes) % u64;
    } in
    ap (λ x. add_delete_operands x (operands cs)) (add_delete_operand-make e n bytes w.0 w.1)
    ∙ add_delete_operands-operands next cs (omega arith) (omega arith) w.2
    ∙ cc (
      add_mod-sum e.deleted_entries n (entries_in cs),
      add_mod-sum e.deleted_bytes bytes (bytes_in cs),
    )

add_delete_operands-append :
    (e : DeleteIndexEntry) (xs ys : List Bytes)
    → add_delete_operands e (xs ++ ys) ≡ add_delete_operands (add_delete_operands e xs) ys
unfolding add_delete_operands
add_delete_operands-append e [] ys = refl
add_delete_operands-append e (x ∷ xs) ys = add_delete_operands-append (add_delete_operand e x) xs ys

module _ (c : Codec) (laws : IsCodec c) where
  start_entry-marshal :
      (e : DeleteIndexEntry) (b : Bytes) → c.marshal_entry e ≡ some b → start_entry c b ≡ e
  unfolding start_entry
  start_entry-marshal e [] h = cc (laws.unmarshal_entry_nil, laws.unmarshal_marshal_entry e [] h)
  start_entry-marshal e (b ∷ bs) h = rw (laws.unmarshal_marshal_entry e (b ∷ bs) h, start_entry)

  -- FullMerge routes a segment's key to these counters, and running it over a prefix of the operands
  -- and later over the rest gives what one run over all of them gives.
  pub full_merge-delete_index :
      (path existing b : Bytes) (xs ys : List Bytes)
      → full_merge c (make_delete_index_key path) existing xs ≡ some b
      → (full_merge c (make_delete_index_key path) b ys
          ≡ full_merge c (make_delete_index_key path) existing (xs ++ ys))
        × (full_merge c (make_delete_index_key path) b ys
            ≡ c.marshal_entry (add_delete_operands (start_entry c existing) (xs ++ ys)))
  unfolding full_merge make_delete_index_key is_delete_index_key has_prefix merge_delete_index
  full_merge-delete_index path existing b xs ys h =
      let again = start_entry-marshal (add_delete_operands (start_entry c existing) xs) b h in
      let whole = add_delete_operands-append (start_entry c existing) xs ys in (cc, cc)
