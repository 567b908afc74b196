-- ===== src/NameDb/Record/Panics.antt =====
-- Bounds in `decodeNameRecord` of namedb/namedb.go.
use nmcd.Prelude.{ℕ, arith}
use nmcd.Prelude.Bytes.{Bytes}
use nmcd.Result.{Returns, Returns->>=}
use nmcd.Slices.{slice_lem, index_lem}
use nmcd.NameDb.Record.{
  Field, DecodeError, read_uint32, read_int32, read_string, read_fixed_bytes,
  read_optional_timestamp, read_name_new_height, validate_record_version, decode_name_record_core,
  decode_name_record, value_length, value_data, txhash, outindex, height, expires_at,
  address_length, address_data,
}

module _ (payload : Bytes) where
  read_uint32-Returns : (o : ℕ) (f : Field) → Returns (read_uint32 payload o f)
  unfolding read_uint32
  read_uint32-Returns o f = ground (arith, slice_lem {E = DecodeError} payload o 4)

  read_int32-Returns : (o : ℕ) (f : Field) → Returns (read_int32 payload o f)
  unfolding read_int32
  read_int32-Returns o f = Returns->>= _ _ (read_uint32-Returns o f) λ _ _. tt

  read_fixed_bytes-Returns : (o n : ℕ) (f : Field) → Returns (read_fixed_bytes payload o n f)
  unfolding read_fixed_bytes
  read_fixed_bytes-Returns o n f = ground (arith, slice_lem {E = DecodeError} payload o n)

  read_string-Returns : (o : ℕ) (lf f : Field) → Returns (read_string payload o lf f)
  unfolding read_string
  read_string-Returns o lf f =
      Returns->>= _ _ (read_uint32-Returns o lf)
        λ p _. ground (arith, slice_lem {E = DecodeError} payload p.1 p.0)

  read_optional_timestamp-Returns : (o : ℕ) → Returns (read_optional_timestamp payload o)
  unfolding read_optional_timestamp
  read_optional_timestamp-Returns o = ground (arith, slice_lem {E = DecodeError} payload o 8)

  read_name_new_height-Returns : (o v : ℕ) → Returns (read_name_new_height payload o v)
  unfolding read_name_new_height
  read_name_new_height-Returns o v = ground (arith, slice_lem {E = DecodeError} payload o 4)

  validate_record_version-Returns : Returns (validate_record_version payload)
  unfolding validate_record_version
  validate_record_version-Returns = ground (arith, index_lem {E = DecodeError} payload 0)

  decode_name_record_core-Returns : (o : ℕ) → Returns (decode_name_record_core payload o)
  unfolding decode_name_record_core
  decode_name_record_core-Returns o =
      Returns->>= _ _ (read_string-Returns o value_length value_data) λ v _.
        Returns->>= _ _ (read_fixed_bytes-Returns v.1 32 txhash) λ h _.
          Returns->>= _ _ (read_uint32-Returns h.1 outindex) λ out _.
            Returns->>= _ _ (read_int32-Returns out.1 height) λ ht _.
              Returns->>= _ _ (read_int32-Returns ht.1 expires_at) λ ex _.
                Returns->>= _ _ (read_string-Returns ex.1 address_length address_data) λ _ _. tt

  -- On every byte string the decoder returns a record or an error, and never panics.
  pub decode_name_record-Returns : Returns (decode_name_record payload)
  unfolding decode_name_record
  decode_name_record-Returns = Returns->>= _ _ validate_record_version-Returns λ v _.
      Returns->>= _ _ (decode_name_record_core-Returns 1) λ c _.
        Returns->>= _ _ (read_optional_timestamp-Returns c.1)
          λ t _. Returns->>= _ _ (read_name_new_height-Returns t.1 v) λ _ _. tt
