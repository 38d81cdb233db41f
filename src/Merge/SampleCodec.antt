-- ===== src/Merge/SampleCodec.antt =====
-- A codec that meets the laws, for the examples: each field as a number of its own, lengths in front
-- of the texts, and protobuf's bytes for the two messages that the laws name.
use mathlib.Core.Logic.{ite, if_pos, if_neg}
use mathlib.Core.Option.{some_inj}
use native.Mathlib.Decide.{ℕ_discrete}
use ocache.Base.{
  Bytes, Option, [], ap, bytes_eq, drop, drop-append, if◌then◌else◌, length, none, refl, some,
  subst, suc, sym, take, take-append, zero, ℕ, ◌++◌, ◌∙◌, ◌∷◌, ◌≡◌, ◌≢◌,
}
use ocache.Base.Int.{negsuc, pos, ℤ}
use ocache.Merge.Row.{
  MetaOp, ValueMessage, ValueType, cas_delete, cas_put, inline, op_none, raw_file, segment,
  unknown_op, unknown_type, zero_message,
}
use ocache.Merge.Operator.{tombstone}
use ocache.Merge.Codec.{Codec, DeleteIndexEntry, IsCodec, expired_sentinel}

ValueMessage-discrete : Discrete ValueMessage
ValueMessage-discrete = hlevel ℕ_discrete

abbrev type_code : ValueType → ℕ × ℕ
type_code inline = (0, 0)
type_code raw_file = (1, 0)
type_code segment = (2, 0)
type_code (unknown_type n) = (3, n)

abbrev code_type : ℕ → ℕ → ValueType
code_type zero n = inline
code_type (suc zero) n = raw_file
code_type (suc (suc zero)) n = segment
code_type (suc (suc (suc k))) n = unknown_type n

abbrev op_code : MetaOp → ℕ × ℕ
op_code op_none = (0, 0)
op_code cas_put = (1, 0)
op_code cas_delete = (2, 0)
op_code (unknown_op n) = (3, n)

abbrev code_op : ℕ → ℕ → MetaOp
code_op zero n = op_none
code_op (suc zero) n = cas_put
code_op (suc (suc zero)) n = cas_delete
code_op (suc (suc (suc k))) n = unknown_op n

abbrev int_code : ℤ → ℕ × ℕ
int_code (pos n) = (0, n)
int_code (negsuc n) = (1, n)

abbrev code_int : ℕ → ℕ → ℤ
code_int zero n = pos n
code_int (suc k) n = negsuc n

encode : ValueMessage → Bytes
encode vm =
    255
    ∷ (type_code vm.value_type).0
    ∷ (type_code vm.value_type).1
    ∷ (op_code vm.op_type).0
    ∷ (op_code vm.op_type).1
    ∷ (int_code vm.expiry).0
    ∷ (int_code vm.expiry).1
    ∷ (int_code vm.segment_offset).0
    ∷ (int_code vm.segment_offset).1
    ∷ (int_code vm.value_length).0
    ∷ (int_code vm.value_length).1
    ∷ vm.checksum
    ∷ vm.version
    ∷ vm.cas_expected_version
    ∷ length vm.body
    ∷ length vm.raw_file_path
    ∷ (vm.body ++ (vm.raw_file_path ++ vm.segment_path))

decode : Bytes → Option ValueMessage
decode (_ ∷ tc ∷ tn ∷ oc ∷ on ∷ es ∷ em ∷ os ∷ om ∷ ls ∷ lm ∷ ck ∷ v ∷ cas ∷ nb ∷ nr ∷ rest) =
    some (record {
      value_type = code_type tc tn;
      body = take nb rest;
      expiry = code_int es em;
      raw_file_path = take nr (drop nb rest);
      segment_path = drop nr (drop nb rest);
      segment_offset = code_int os om;
      value_length = code_int ls lm;
      checksum = ck;
      version = v;
      op_type = code_op oc on;
      cas_expected_version = cas;
    })
decode _ = none

marshal : ValueMessage → Option Bytes
marshal vm = some (ite (ValueMessage-discrete vm (tombstone 0)) expired_sentinel (encode vm))

unmarshal : Bytes → Option ValueMessage
unmarshal [] = some zero_message
unmarshal (b ∷ bs) =
    if bytes_eq (b ∷ bs) expired_sentinel then some (tombstone 0) else decode (b ∷ bs)

code_type-code : (t : ValueType) → code_type (type_code t).0 (type_code t).1 ≡ t
code_type-code inline = refl
code_type-code raw_file = refl
code_type-code segment = refl
code_type-code (unknown_type n) = refl

code_op-code : (t : MetaOp) → code_op (op_code t).0 (op_code t).1 ≡ t
code_op-code op_none = refl
code_op-code cas_put = refl
code_op-code cas_delete = refl
code_op-code (unknown_op n) = refl

code_int-code : (a : ℤ) → code_int (int_code a).0 (int_code a).1 ≡ a
code_int-code (pos n) = refl
code_int-code (negsuc n) = refl

decode-encode : (vm : ValueMessage) → decode (encode vm) ≡ some vm
unfolding decode encode
decode-encode vm = cc (
  code_type-code vm.value_type,
  code_op-code vm.op_type,
  code_int-code vm.expiry,
  code_int-code vm.segment_offset,
  code_int-code vm.value_length,
  take-append (length vm.body) vm.body (vm.raw_file_path ++ vm.segment_path) refl,
  drop-append (length vm.body) vm.body (vm.raw_file_path ++ vm.segment_path) refl,
  take-append (length vm.raw_file_path) vm.raw_file_path vm.segment_path refl,
  drop-append (length vm.raw_file_path) vm.raw_file_path vm.segment_path refl,
)

unmarshal-encode : (vm : ValueMessage) → unmarshal (encode vm) ≡ some vm
unfolding unmarshal encode bytes_eq
unmarshal-encode vm = decode-encode vm

marshal-tombstone : marshal (tombstone 0) ≡ some expired_sentinel
unfolding marshal
marshal-tombstone =
    ap some (if_pos (ValueMessage-discrete (tombstone 0) (tombstone 0)) refl expired_sentinel _)

marshal-other : (vm : ValueMessage) → vm ≢ tombstone 0 → marshal vm ≡ some (encode vm)
unfolding marshal
marshal-other vm other =
    ap some (if_neg (ValueMessage-discrete vm (tombstone 0)) other expired_sentinel (encode vm))

unmarshal-marshal : (vm : ValueMessage) (b : Bytes) → marshal vm ≡ some b → unmarshal b ≡ some vm
unmarshal-marshal vm b h = elim (ValueMessage-discrete vm (tombstone 0)) [
  | yes same ↦
      let e : expired_sentinel ≡ b =
        some_inj.0 (sym marshal-tombstone ∙ ap marshal (sym same) ∙ h) in
      subst (λ x. unmarshal x ≡ some vm) e (unfold unmarshal bytes_eq in ap some (sym same))
  | no other ↦
      let e : encode vm ≡ b = some_inj.0 (sym (marshal-other vm other) ∙ h) in
      subst (λ x. unmarshal x ≡ some vm) e (unmarshal-encode vm)
]

encode_entry : DeleteIndexEntry → Option Bytes
encode_entry e = some (1 ∷ e.deleted_entries ∷ e.deleted_bytes ∷ [])

decode_entry : Bytes → Option DeleteIndexEntry
decode_entry [] = some (record { deleted_entries = 0; deleted_bytes = 0 })
decode_entry (t ∷ n ∷ b ∷ _) = some (record { deleted_entries = n; deleted_bytes = b })
decode_entry _ = none

unmarshal-marshal_entry :
    (e : DeleteIndexEntry) (b : Bytes) → encode_entry e ≡ some b → decode_entry b ≡ some e
unfolding encode_entry decode_entry
unmarshal-marshal_entry e b h = subst (λ x. decode_entry x ≡ some e) (some_inj.0 h) refl

unfoldable pub sample_codec : Codec
unfolding marshal unmarshal encode decode encode_entry decode_entry ValueMessage-discrete
sample_codec = record {
  marshal = marshal;
  unmarshal = unmarshal;
  marshal_entry = encode_entry;
  unmarshal_entry = decode_entry;
}

pub sample_codec-IsCodec : IsCodec sample_codec
unfolding sample_codec
sample_codec-IsCodec = record {
  unmarshal_marshal = unmarshal-marshal;
  unmarshal_nil = refl;
  marshal_sentinel = marshal-tombstone;
  unmarshal_marshal_entry = unmarshal-marshal_entry;
  unmarshal_entry_nil = refl;
}
