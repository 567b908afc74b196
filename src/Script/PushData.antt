-- ===== src/Script/PushData.antt =====
-- `readPushData` of chain/name_script.go and `pushData` of wallet/wallet.go.
pub mod Laws
pub mod Reads
pub mod Writes
use nmcd.Prelude.{
  ℕ, ◌+◌, ◌-◌, ◌*◌, ◌%◌, ◌/◌, ◌^◌, ◌&&◌, Option, none, some, [], ◌∷◌, ltb, leb, ◌==◌, if◌then◌else◌,
  length,
}
use nmcd.Prelude.Bytes.{Bytes}
use nmcd.Result.{Result, ok, err, fail_if, ◌>>=◌, ◌>>◌}
use nmcd.Script.{
  PushError, offset_beyond_script, missing_length, data_exceeds_script, length_exceeds_maximum,
  unexpected_opcode, op_push_data1, op_push_data2, op_push_data4,
}
use nmcd.Slices.{index, slice}

-- The three length prefixes. The shifted bytes of a little-endian length do not overlap, so `|`
-- is a sum.
unfoldable pub length1 : Bytes → ℕ → Result PushError (ℕ × ℕ)
length1 script offset = do
  fail_if (leb (length script) offset) missing_length
  n ← index script offset
  ok (n, offset + 1)

unfoldable pub length2 : Bytes → ℕ → Result PushError (ℕ × ℕ)
length2 script offset = do
  fail_if (leb (length script) (offset + 1)) missing_length
  b0 ← index script offset
  b1 ← index script (offset + 1)
  ok (b0 + b1 * 2 ^ 8, offset + 2)

unfoldable pub length4 : Bytes → ℕ → Result PushError (ℕ × ℕ)
length4 script offset = do
  fail_if (leb (length script) (offset + 3)) missing_length
  b0 ← index script offset
  b1 ← index script (offset + 1)
  b2 ← index script (offset + 2)
  b3 ← index script (offset + 3)
  let len_u32 = b0 + b1 * 2 ^ 8 + b2 * 2 ^ 16 + b3 * 2 ^ 24
  fail_if (ltb 0x7FFFFFFF len_u32) (length_exceeds_maximum len_u32)
  ok (len_u32, offset + 4)

-- The cases of the switch: the length that the opcode announces, and the offset behind it.
unfoldable pub push_length : Bytes → ℕ → ℕ → Result PushError (ℕ × ℕ)
push_length script opcode offset =
    if opcode == 0x00
    then ok (0, offset)
    else if leb 0x01 opcode && leb opcode 0x4b
    then ok (opcode, offset)
    else if opcode == op_push_data1
    then length1 script offset
    else if opcode == op_push_data2
    then length2 script offset
    else if opcode == op_push_data4
    then length4 script offset
    else err (unexpected_opcode opcode (offset - 1))

-- The data and the offset behind it.
unfoldable pub read_push_data : Bytes → ℕ → Result PushError (Bytes × ℕ)
read_push_data script offset = do
  fail_if (leb (length script) offset) offset_beyond_script
  opcode ← index script offset
  (data_len, offset') ← push_length script opcode (offset + 1)
  fail_if (ltb (length script) (offset' + data_len)) data_exceeds_script
  found ← slice script offset' (offset' + data_len)
  ok (found, offset' + data_len)

-- `pushData`: the bytes that push `data`. `byte(l >> 8)` keeps the low eight bits.
unfoldable pub push_data : Bytes → Option Bytes
push_data payload =
    let l = length payload in
    if l == 0
    then some (0x00 ∷ [])
    else if leb l 75
    then some ((l % 256) ∷ payload)
    else if leb l 255
    then some (0x4c ∷ (l % 256) ∷ payload)
    else if leb l 65535
    then some (0x4d ∷ (l % 256) ∷ (l / 2 ^ 8 % 256) ∷ payload)
    else if leb l 0xFFFFFFFF
    then some
        (0x4e ∷ (l % 256) ∷ (l / 2 ^ 8 % 256) ∷ (l / 2 ^ 16 % 256) ∷ (l / 2 ^ 24 % 256) ∷ payload)
    else none
