-- ===== src/NameDb/Record/RoundTrip.antt =====
-- `encodeNameRecord` followed by `decodeNameRecord`, namedb/namedb.go.
use nmcd.Prelude.{
  ℕ, ◌+◌, ◌^◌, ◌≤◌, ◌<◌, ◌≡◌, refl, sym, ◌∙◌, [], ◌++◌, length, append-nil, ltb-eq-false,
}
use nmcd.Prelude.Bytes.{Bytes, le_bytes}
use nmcd.Int.{pos, to_u32, to_u64, IsInt32, IsInt64}
use nmcd.NameDb.{NameRecord}
use nmcd.Result.{ok}
use nmcd.Slices.{At, index_of_drop}
use nmcd.NameDb.Record.{
  DecodeError, value_length, value_data, txhash, outindex, height, expires_at, address_length,
  address_data, write_record_string, encode_name_record, validate_record_version, zero_time,
  decode_name_record_core, decode_name_record,
}
use nmcd.NameDb.Record.Reads.{
  read_uint32-At, read_int32-At, read_fixed_bytes-At, read_string-At, read_optional_timestamp-At,
  read_name_new_height-At,
}

-- The ranges of the Go fields, and the decoder's limit on the strings.
pub record IsEncodable (r : NameRecord) : Type 0 where
  pub value_fits : length r.value ≤ 1024
  pub address_fits : length r.address ≤ 1024
  pub hash_size : length r.tx_hash ≡ 32
  pub out_index_u32 : r.out_index < 2 ^ 32
  pub height_int32 : IsInt32 r.height
  pub expires_at_int32 : IsInt32 r.expires_at
  pub updated_at_int64 : IsInt64 r.updated_at
  pub name_new_height_int32 : IsInt32 r.name_new_height

-- The mandatory fields as they stand in the encoding, followed by `rest`.
abbrev core_bytes : NameRecord → Bytes → Bytes
core_bytes r rest =
    write_record_string r.value
    ++ (r.tx_hash
        ++ (le_bytes 4 r.out_index
            ++ (le_bytes 4 (to_u32 r.height)
                ++ (le_bytes 4 (to_u32 r.expires_at) ++ (write_record_string r.address ++ rest)))))

decode_core-At :
    (payload : Bytes) (o : ℕ) (r : NameRecord) (rest : Bytes)
    → IsEncodable r
    → At payload o (core_bytes r rest)
    → (o' : ℕ) × (decode_name_record_core payload o
        ≡ ok (record r { name = []; updated_at = zero_time; name_new_height = pos 0 }, o'))
      × At payload o' rest
unfolding decode_name_record_core
decode_core-At payload o r rest e a =
    let (q1, a1) = read_string-At payload o value_length value_data r.value _ a e.value_fits in
    let o1 = o + 4 + length r.value in
    let (q2, a2) = read_fixed_bytes-At payload o1 32 txhash r.tx_hash _ a1 e.hash_size in
    let (q3, a3) = read_uint32-At payload (o1 + 32) r.out_index outindex _ a2 e.out_index_u32 in
    let o3 = o1 + 32 + 4 in
    let (q4, a4) = read_int32-At payload o3 r.height height _ a3 e.height_int32 in
    let (q5, a5) = read_int32-At payload (o3 + 4) r.expires_at expires_at _ a4 e.expires_at_int32 in
    let o5 = o3 + 4 + 4 in
    let (q6, a6) =
      read_string-At payload o5 address_length address_data r.address rest a5 e.address_fits in
    (o5 + 4 + length r.address, rw (q1, q2, q3, q4, q5, q6), a6)

-- After the version byte stand the mandatory fields, the timestamp and the height.
encode_name_record-At :
    (r : NameRecord)
    → At
        (encode_name_record r)
        1
        (core_bytes r (le_bytes 8 (to_u64 r.updated_at) ++ le_bytes 4 (to_u32 r.name_new_height)))
unfolding encode_name_record
encode_name_record-At r = record {
  left = refl;
  inside = (index_of_drop {E = DecodeError} (encode_name_record r) 0 refl).2;
}

validate_record_version-encode :
    (r : NameRecord) → validate_record_version (encode_name_record r) ≡ ok 3
unfolding validate_record_version encode_name_record
validate_record_version-encode r =
    let (i, _, b) = index_of_drop {E = DecodeError} (encode_name_record r) 0 refl in
    rw (ltb-eq-false _ _ b, i)

-- A record within its ranges decodes from its encoding, with every field but the name.
pub decode-encode_name_record :
    (r : NameRecord)
    → IsEncodable r
    → decode_name_record (encode_name_record r) ≡ ok (record r { name = [] })
unfolding decode_name_record
decode-encode_name_record r e =
    let payload = encode_name_record r in
    let (o, q, a) = decode_core-At payload 1 r _ e (encode_name_record-At r) in
    let (q1, a1) = read_optional_timestamp-At payload o r.updated_at _ a e.updated_at_int64 in
    let q2 =
      read_name_new_height-At payload (o + 8) r.name_new_height []
        (record { left = a1.left ∙ sym (append-nil _); inside = a1.inside })
        e.name_new_height_int32 in
    rw (validate_record_version-encode r, q, q1, q2)
