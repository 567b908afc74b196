-- ===== src/Script/Build.antt =====
-- The script builders of wallet/wallet.go.
pub mod RoundTrip
use nmcd.Prelude.{
  ℕ, ◌+◌, ◌-◌, ◌*◌, [], ◌∷◌, ◌++◌, List, Option, none, some, ltb, leb, ◌==◌, not, ◌&&◌, ◌||◌,
  if◌then◌else◌, length,
}
use nmcd.Prelude.Bytes.{Bytes}
use nmcd.Result.{Result, ok, err, fail_if, ◌>>=◌, ◌>>◌}
use nmcd.Script.{
  op_name_new, op_name_first_update, op_name_update, op_drop, op_2drop, Field, hash, name, rand,
  value,
}
use nmcd.Script.PushData.{push_data}

pub data BuildError : Type 0 where
  invalid_name_length value_too_large invalid_pubkey_hash_length : BuildError
  invalid_hash_length rand_hex_empty invalid_rand_hex : BuildError
  failed_to_push : Field → BuildError

abbrev pub max_value_length_ui : ℕ
max_value_length_ui = 520

pub validate_name_script_params : Bytes → Bytes → Bytes → Result BuildError (Unit {0})
validate_name_script_params name_bytes value_bytes pub_key_hash = do
  fail_if (length name_bytes == 0 || ltb 255 (length name_bytes)) invalid_name_length
  fail_if (ltb max_value_length_ui (length value_bytes)) value_too_large
  fail_if (not (length pub_key_hash == 20)) invalid_pubkey_hash_length
  ok tt

-- OP_DUP OP_HASH160, a push of 20 bytes, OP_EQUALVERIFY OP_CHECKSIG.
pub append_p2pkh_script : Bytes → Bytes → Bytes
append_p2pkh_script script pub_key_hash =
    ((script ++ 0x76 ∷ 0xa9 ∷ []) ++ 0x14 ∷ []) ++ pub_key_hash ++ 0x88 ∷ 0xac ∷ []

-- The loop over the pushes.
pub append_pushes : Bytes → List (Field × Bytes) → Result BuildError Bytes
append_pushes script [] = ok script
append_pushes script ((label, payload) ∷ pushes) = elim (push_data payload) [
  | none ↦ err (failed_to_push label)
  | some encoded ↦ append_pushes (script ++ encoded) pushes
]

pub build_name_script : ℕ → Bytes → Bytes → List (Field × Bytes) → Result BuildError Bytes
build_name_script op pub_key_hash drops pushes = do
  script ← append_pushes (op ∷ []) pushes
  ok (append_p2pkh_script (script ++ drops) pub_key_hash)

pub build_name_update_script : Bytes → Bytes → Bytes → Result BuildError Bytes
build_name_update_script name_bytes value_bytes pub_key_hash = do
  validate_name_script_params name_bytes value_bytes pub_key_hash
  build_name_script op_name_update pub_key_hash (op_2drop ∷ op_drop ∷ [])
      ((name, name_bytes) ∷ (value, value_bytes) ∷ [])

pub build_name_new_script : Bytes → Bytes → Result BuildError Bytes
build_name_new_script hash_bytes pub_key_hash = do
  fail_if (not (length hash_bytes == 20)) invalid_hash_length
  fail_if (not (length pub_key_hash == 20)) invalid_pubkey_hash_length
  build_name_script op_name_new pub_key_hash (op_2drop ∷ []) ((hash, hash_bytes) ∷ [])

-- `hex.DecodeString`: an even number of hexadecimal digits.
unfoldable pub hex_digit : ℕ → Option ℕ
hex_digit c =
    if leb b'0' c && leb c b'9'
    then some (c - b'0')
    else if leb b'a' c && leb c b'f'
    then some (c - b'a' + 10)
    else if leb b'A' c && leb c b'F'
    then some (c - b'A' + 10)
    else none

hex_pair : Option ℕ → Option ℕ → Option Bytes → Option Bytes
hex_pair (some hi) (some lo) (some rest) = some ((hi * 16 + lo) ∷ rest)
hex_pair _ _ _ = none

unfoldable pub hex_decode : Bytes → Option Bytes
unfolding hex_pair hex_digit
hex_decode [] = some []
hex_decode (c ∷ []) = none
hex_decode (c ∷ d ∷ rest) = hex_pair (hex_digit c) (hex_digit d) (hex_decode rest)

pub or_invalid_hex : Option Bytes → Result BuildError Bytes
or_invalid_hex none = err invalid_rand_hex
or_invalid_hex (some b) = ok b

pub build_name_first_update_script : Bytes → Bytes → Bytes → Bytes → Result BuildError Bytes
build_name_first_update_script name_bytes rand_hex value_bytes pub_key_hash = do
  validate_name_script_params name_bytes value_bytes pub_key_hash
  fail_if (length rand_hex == 0) rand_hex_empty
  rand_bytes ← or_invalid_hex (hex_decode rand_hex)
  build_name_script op_name_first_update pub_key_hash (op_2drop ∷ op_2drop ∷ [])
      ((name, name_bytes) ∷ (rand, rand_bytes) ∷ (value, value_bytes) ∷ [])
