-- ===== src/NameDb/Record/Reads.antt =====
-- The methods of `recordReader`, namedb/namedb.go, where an encoded field stands.
use nmcd.Prelude.{
  ℕ, ◌+◌, ◌^◌, ◌≤◌, ◌<◌, ◌≡◌, refl, ◌∙◌, ◌++◌, length, arith, ltb-eq-false, append_assoc,
}
use nmcd.Prelude.Bytes.{Bytes, le_bytes, length-le_bytes, le_value-le_bytes}
use nmcd.Int.{
  ℤ, to_u32, to_u64, IsInt32, IsInt64, to_u32-lt, to_u64-lt, to_int32-to_u32, to_int64-to_u64,
}
use nmcd.Result.{ok}
use nmcd.Slices.{slice-At, At}
use nmcd.NameDb.Record.{
  Field, DecodeError, write_record_string, read_uint32, read_int32, read_string, read_fixed_bytes,
  read_optional_timestamp, read_name_new_height,
}

pub read_uint32-At :
    (payload : Bytes) (o v : ℕ) (f : Field) (r : Bytes)
    → At payload o (le_bytes 4 v ++ r)
    → v < 2 ^ 32
    → (read_uint32 payload o f ≡ ok (v, o + 4)) × At payload (o + 4) r
unfolding read_uint32
read_uint32-At payload o v f r a h =
    let (s, t, b) =
      slice-At {E = DecodeError} payload o 4 (le_bytes 4 v) r a (length-le_bytes 4 v) in
    (rw (ltb-eq-false _ _ b, s, le_value-le_bytes 4 v (omega arith)), t)

pub read_int32-At :
    (payload : Bytes) (o : ℕ) (v : ℤ) (f : Field) (r : Bytes)
    → At payload o (le_bytes 4 (to_u32 v) ++ r)
    → IsInt32 v
    → (read_int32 payload o f ≡ ok (v, o + 4)) × At payload (o + 4) r
unfolding read_int32
read_int32-At payload o v f r a h =
    let (s, t) = read_uint32-At payload o (to_u32 v) f r a (to_u32-lt v) in
    (rw (s, to_int32-to_u32 v h), t)

pub read_fixed_bytes-At :
    (payload : Bytes) (o n : ℕ) (f : Field) (d r : Bytes)
    → At payload o (d ++ r)
    → length d ≡ n
    → (read_fixed_bytes payload o n f ≡ ok (d, o + n)) × At payload (o + n) r
unfolding read_fixed_bytes
read_fixed_bytes-At payload o n f d r a e =
    let (s, t, b) = slice-At {E = DecodeError} payload o n d r a e in
    (rw (ltb-eq-false _ _ b, s), t)

pub read_string-At :
    (payload : Bytes) (o : ℕ) (lf f : Field) (d r : Bytes)
    → At payload o (write_record_string d ++ r)
    → length d ≤ 1024
    → (read_string payload o lf f ≡ ok (d, o + 4 + length d)) × At payload (o + 4 + length d) r
unfolding read_string write_record_string
read_string-At payload o lf f d r a h =
    let a' : At payload o (le_bytes 4 (length d) ++ (d ++ r)) = record {
      left = a.left ∙ append_assoc (le_bytes 4 (length d)) d r;
      inside = a.inside;
    } in
    let (s, t) = read_uint32-At payload o (length d) lf (d ++ r) a' (omega arith) in
    let (s', t', b) = slice-At {E = DecodeError} payload (o + 4) (length d) d r t refl in
    (rw (s, ltb-eq-false _ _ h, ltb-eq-false _ _ b, s'), t')

pub read_optional_timestamp-At :
    (payload : Bytes) (o : ℕ) (v : ℤ) (r : Bytes)
    → At payload o (le_bytes 8 (to_u64 v) ++ r)
    → IsInt64 v
    → (read_optional_timestamp payload o ≡ ok (v, o + 8)) × At payload (o + 8) r
unfolding read_optional_timestamp
read_optional_timestamp-At payload o v r a h =
    let (s, t, b) =
      slice-At {E = DecodeError} payload o 8 (le_bytes 8 (to_u64 v)) r a (length-le_bytes 8 _) in
    (
      rw (
        ltb-eq-false _ _ b,
        s,
        le_value-le_bytes 8 (to_u64 v) (omega (arith, to_u64-lt v)),
        to_int64-to_u64 v h,
      ),
      t,
    )

pub read_name_new_height-At :
    (payload : Bytes) (o : ℕ) (v : ℤ) (r : Bytes)
    → At payload o (le_bytes 4 (to_u32 v) ++ r)
    → IsInt32 v
    → read_name_new_height payload o 3 ≡ ok (v, o + 4)
unfolding read_name_new_height
read_name_new_height-At payload o v r a h =
    let (s, t, b) =
      slice-At {E = DecodeError} payload o 4 (le_bytes 4 (to_u32 v)) r a (length-le_bytes 4 _) in
    rw (
      ltb-eq-false _ _ b,
      s,
      le_value-le_bytes 4 (to_u32 v) (omega (arith, to_u32-lt v)),
      to_int32-to_u32 v h,
    )
