-- ===== src/Tests/Records.antt =====
-- Records, outputs and keys that are stored and read back.
use nmcd.Prelude.{◌≡◌, refl, [], ◌∷◌, some, arith}
use nmcd.Int.{pos, negsuc}
use nmcd.NameDb.{NameRecord, Utxo}
use nmcd.NameDb.Record.{encode_name_record, decode_name_record}
use nmcd.NameDb.Record.Panics.{decode_name_record-Returns}
use nmcd.NameDb.Record.RoundTrip.{IsEncodable, decode-encode_name_record}
use nmcd.NameDb.UtxoSet.{
  encode_utxo, decode_utxo, make_utxo_address_key, make_spent_utxo_height_key,
  parse_address_index_key, parse_spent_utxo_height_key,
}
use nmcd.NameDb.UtxoSet.Keys.{parse-make_utxo_address_key, parse-make_spent_utxo_height_key}
use nmcd.NameDb.UtxoSet.Panics.{decode_utxo-Returns}
use nmcd.NameDb.UtxoSet.RoundTrip.{decode-encode_utxo}
use nmcd.Result.{ok, ◌>>=◌, Returns}
use nmcd.Tests.{hash_a, domain, braces, payment}

abbrev pub stored_record : NameRecord
stored_record = record {
  name = domain;
  value = braces;
  tx_hash = hash_a;
  out_index = 1;
  height = pos 4000;
  expires_at = pos 40000;
  address = b'N' ∷ [];
  updated_at = pos 1700000000;
  name_new_height = negsuc 0;
}

pub stored_record-IsEncodable : IsEncodable stored_record
stored_record-IsEncodable = record {
  value_fits = omega arith;
  address_fits = omega arith;
  hash_size = refl;
  out_index_u32 = omega arith;
  height_int32 = (omega arith, omega arith);
  expires_at_int32 = (omega arith, omega arith);
  updated_at_int64 = (omega arith, omega arith);
  name_new_height_int32 = (omega arith, omega arith);
}

decode-encode_name_record_example :
    decode_name_record (encode_name_record stored_record) ≡ ok (record stored_record { name = [] })
decode-encode_name_record_example =
    decode-encode_name_record stored_record stored_record-IsEncodable

decode_name_record-Returns_example : Returns (decode_name_record (3 ∷ 255 ∷ 255 ∷ 0 ∷ 0 ∷ []))
decode_name_record-Returns_example = decode_name_record-Returns (3 ∷ 255 ∷ 255 ∷ 0 ∷ 0 ∷ [])

abbrev pub stored_utxo : Utxo
stored_utxo = record {
  tx_hash = hash_a;
  out_index = 1;
  value = pos 1000000;
  address = b'N' ∷ [];
  pk_script = payment;
  height = pos 4000;
}

decode-encode_utxo_example :
    (encode_utxo stored_utxo >>= λ d. decode_utxo hash_a 1 d) ≡ ok stored_utxo
decode-encode_utxo_example = decode-encode_utxo stored_utxo (record {
  address_fits = omega arith;
  script_fits = omega arith;
  value_int64 = (omega arith, omega arith);
  height_int32 = (omega arith, omega arith);
})

decode_utxo-Returns_example : Returns (decode_utxo hash_a 1 (0 ∷ 0 ∷ 200 ∷ []))
decode_utxo-Returns_example = decode_utxo-Returns (0 ∷ 0 ∷ 200 ∷ []) hash_a 1

parse-make_utxo_address_key_example :
    parse_address_index_key domain (make_utxo_address_key domain hash_a 7) ≡ some (hash_a, 7)
parse-make_utxo_address_key_example =
    parse-make_utxo_address_key domain hash_a 7
      (record { hash_size = refl; index_u32 = omega arith })

parse-make_spent_utxo_height_key_example :
    parse_spent_utxo_height_key (make_spent_utxo_height_key (pos 5000) hash_a 7) ≡ some (hash_a, 7)
parse-make_spent_utxo_height_key_example =
    parse-make_spent_utxo_height_key (pos 5000) hash_a 7
      (record { hash_size = refl; index_u32 = omega arith })
