-- ===== src/NameDb/Record.antt =====
-- `encodeNameRecord` and `decodeNameRecord` of namedb/namedb.go, with the reader that they use.
pub mod Reads
pub mod Panics
pub mod RoundTrip
use nmcd.Prelude.{
  ℕ, ◌+◌, ◌*◌, [], ◌∷◌, ◌++◌, ltb, leb, ◌==◌, not, ◌&&◌, if◌then◌else◌, length, arith,
}
use nmcd.Prelude.Bytes.{Bytes, le_bytes, le_value}
use nmcd.Int.{ℤ, pos, negsuc, to_u32, to_int32, to_u64, to_int64}
use nmcd.NameDb.{NameRecord}
use nmcd.Result.{Result, ok, err, fail_if, ◌>>=◌, ◌>>◌}
use nmcd.Slices.{index, slice}

abbrev pub tx_hash_size : ℕ
tx_hash_size = 32

abbrev pub max_record_string_len : ℕ
max_record_string_len = 1024

abbrev pub name_record_version : ℕ
name_record_version = 3

-- The length is written as a uint32: `le_bytes 4` keeps its low 32 bits.
pub write_record_string : Bytes → Bytes
write_record_string value = le_bytes 4 (length value) ++ value

-- version + value + txhash + outindex + height + expiresAt + address + timestamp + namenewheight
pub encode_name_record : NameRecord → Bytes
encode_name_record r =
    name_record_version
    ∷ (write_record_string r.value
        ++ (r.tx_hash
            ++ (le_bytes 4 r.out_index
                ++ (le_bytes 4 (to_u32 r.height)
                    ++ (le_bytes 4 (to_u32 r.expires_at)
                        ++ (write_record_string r.address
                            ++ (le_bytes 8 (to_u64 r.updated_at)
                                ++ le_bytes 4 (to_u32 r.name_new_height))))))))

pub data Field : Type 0 where
  value_length value_data txhash outindex height expires_at address_length address_data : Field

pub data DecodeError : Type 0 where
  empty_data missing_name_new_height : DecodeError
  unsupported_version : ℕ → DecodeError
  truncated_at : Field → DecodeError
  length_exceeds_maximum : Field → ℕ → DecodeError

-- The methods of `recordReader`: each takes the data and the offset, and returns the new offset.
pub read_uint32 : Bytes → ℕ → Field → Result DecodeError (ℕ × ℕ)
read_uint32 payload offset field = do
  fail_if (ltb (length payload) (offset + 4)) (truncated_at field)
  b ← slice payload offset (offset + 4)
  ok (le_value b, offset + 4)

pub read_int32 : Bytes → ℕ → Field → Result DecodeError (ℤ × ℕ)
read_int32 payload offset field = do
  (v, offset') ← read_uint32 payload offset field
  ok (to_int32 v, offset')

-- `readString`, with the labels of its length and of its data.
pub read_string : Bytes → ℕ → Field → Field → Result DecodeError (Bytes × ℕ)
read_string payload offset length_field field = do
  (str_len, offset') ← read_uint32 payload offset length_field
  fail_if (ltb max_record_string_len str_len) (length_exceeds_maximum field str_len)
  fail_if (ltb (length payload) (offset' + str_len)) (truncated_at field)
  s ← slice payload offset' (offset' + str_len)
  ok (s, offset' + str_len)

pub read_fixed_bytes : Bytes → ℕ → ℕ → Field → Result DecodeError (Bytes × ℕ)
read_fixed_bytes payload offset n field = do
  fail_if (ltb (length payload) (offset + n)) (truncated_at field)
  b ← slice payload offset (offset + n)
  ok (b, offset + n)

-- `time.Time{}`, the first of January of the year 1.
abbrev pub zero_time : ℤ
zero_time = negsuc 62135596799

pub read_optional_timestamp : Bytes → ℕ → Result DecodeError (ℤ × ℕ)
read_optional_timestamp payload offset =
    if ltb (length payload) (offset + 8)
    then ok (zero_time, offset)
    else do b ← slice payload offset (offset + 8); ok (to_int64 (le_value b), offset + 8)

pub read_name_new_height : Bytes → ℕ → ℕ → Result DecodeError (ℤ × ℕ)
read_name_new_height payload offset version = if ltb version 3 then ok (pos 0, offset) else do
  fail_if (ltb (length payload) (offset + 4)) missing_name_new_height
  b ← slice payload offset (offset + 4)
  ok (to_int32 (le_value b), offset + 4)

pub validate_record_version : Bytes → Result DecodeError ℕ
validate_record_version payload = do
  fail_if (ltb (length payload) 1) empty_data
  version ← index payload 0
  if not (version == 2) && not (version == 3) then err (unsupported_version version) else ok version

-- The mandatory fields; the others have the zero values of a fresh record.
pub decode_name_record_core : Bytes → ℕ → Result DecodeError (NameRecord × ℕ)
decode_name_record_core payload offset = do
  (v, offset1) ← read_string payload offset value_length value_data
  (h, offset2) ← read_fixed_bytes payload offset1 tx_hash_size txhash
  (out, offset3) ← read_uint32 payload offset2 outindex
  (ht, offset4) ← read_int32 payload offset3 height
  (ex, offset5) ← read_int32 payload offset4 expires_at
  (a, offset6) ← read_string payload offset5 address_length address_data
  ok (
    record {
      name = [];
      value = v;
      tx_hash = h;
      out_index = out;
      height = ht;
      expires_at = ex;
      address = a;
      updated_at = zero_time;
      name_new_height = pos 0;
    },
    offset6,
  )

pub decode_name_record : Bytes → Result DecodeError NameRecord
decode_name_record payload = do
  version ← validate_record_version payload
  (core, offset) ← decode_name_record_core payload 1
  (updated, offset') ← read_optional_timestamp payload offset
  (first, _) ← read_name_new_height payload offset' version
  ok (record core { updated_at = updated; name_new_height = first })
