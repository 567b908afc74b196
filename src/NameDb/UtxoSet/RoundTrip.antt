-- ===== src/NameDb/UtxoSet/RoundTrip.antt =====
-- Encoding and decoding of unspent outputs, namedb/utxo.go.
use nmcd.Prelude.{
  ◌+◌, ◌≤◌, ◌≡◌, refl, sym, ◌∙◌, [], ◌∷◌, ◌++◌, length, arith, append-nil, ltb-eq-false,
}
use nmcd.Prelude.Bytes.{Bytes, be_bytes, length-be_bytes, be_value-be_bytes}
use nmcd.Int.{
  to_u32, to_u64, IsInt32, IsInt64, to_u32-lt, to_u64-lt, to_int32-to_u32, to_int64-to_u64,
}
use nmcd.NameDb.{Utxo}
use nmcd.Result.{ok, ◌>>=◌}
use nmcd.Slices.{slice-At, index-At}
use nmcd.NameDb.UtxoSet.{UtxoError, encode_utxo, decode_utxo}

-- The encoder's limits, and the ranges of the Go fields.
pub record IsStorable (u : Utxo) : Type 0 where
  pub address_fits : length u.address ≤ 255
  pub script_fits : length u.pk_script ≤ 65535
  pub value_int64 : IsInt64 u.value
  pub height_int32 : IsInt32 u.height

abbrev pub layout : Utxo → Bytes
layout u =
    be_bytes 8 (to_u64 u.value)
    ++ (be_bytes 4 (to_u32 u.height)
        ++ (length u.address ∷ (u.address ++ (be_bytes 2 (length u.pk_script) ++ u.pk_script))))

pub encode_utxo_lem : (u : Utxo) → IsStorable u → encode_utxo u ≡ ok (layout u)
unfolding encode_utxo
encode_utxo_lem u s = rw (ltb-eq-false _ _ s.address_fits, ltb-eq-false _ _ s.script_fits)

pub decode_utxo_lem :
    (u : Utxo) → IsStorable u → decode_utxo u.tx_hash u.out_index (layout u) ≡ ok u
unfolding decode_utxo
decode_utxo_lem u s =
    let payload = layout u in
    let n = length u.address in
    let m = length u.pk_script in
    let (q1, a1, _) =
      slice-At {E = UtxoError} payload 0 8 (be_bytes 8 (to_u64 u.value)) _
        (record { left = refl; inside = omega arith }) (length-be_bytes 8 _) in
    let (q2, a2, _) =
      slice-At {E = UtxoError} payload 8 4 (be_bytes 4 (to_u32 u.height)) _ a1
        (length-be_bytes 4 _) in
    let (q3, a3, b3) = index-At {E = UtxoError} payload 12 n _ a2 in
    let (q4, a4, _) = slice-At {E = UtxoError} payload 13 n u.address _ a3 refl in
    let (q5, a5, b5) =
      slice-At {E = UtxoError} payload (13 + n) 2 (be_bytes 2 m) _ a4 (length-be_bytes 2 _) in
    let (q6, _, b6) =
      slice-At {E = UtxoError} payload (13 + n + 2) m u.pk_script []
        (record { left = a5.left ∙ sym (append-nil _); inside = a5.inside }) refl in
    let k = be_value-be_bytes 2 m (omega (arith, s.script_fits)) in
    let v = be_value-be_bytes 8 (to_u64 u.value) (omega (arith, to_u64-lt u.value)) in
    let h = be_value-be_bytes 4 (to_u32 u.height) (omega (arith, to_u32-lt u.height)) in
    rw (
      ltb-eq-false (length payload) 13 (omega arith),
      q1,
      q2,
      q3,
      ltb-eq-false _ _ b5,
      q4,
      q5,
      k,
      ltb-eq-false _ _ b6,
      q6,
      v,
      h,
      to_int64-to_u64 u.value s.value_int64,
      to_int32-to_u32 u.height s.height_int32,
    )

-- An output whose address has at most 255 bytes and whose script has at most 65535, with a value
-- and a height in their Go ranges, is encoded, and the encoding decodes to the same output.
pub decode-encode_utxo :
    (u : Utxo) → IsStorable u → (encode_utxo u >>= λ d. decode_utxo u.tx_hash u.out_index d) ≡ ok u
decode-encode_utxo u s = rw (encode_utxo_lem u s) (decode_utxo_lem u s)
