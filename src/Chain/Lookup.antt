-- ===== src/Chain/Lookup.antt =====
-- `ParseNameOperationsFromTx` of chain/name_script.go, and the expiration height of chain/blockchain.go.
pub mod Listed
use nmcd.Prelude.{
  ℕ, ◌+◌, ◌-◌, ◌^◌, ◌<◌, ◌≡◌, ◌⊎◌, inl, inr, refl, [], ◌∷◌, List, Bool, true, false, if◌then◌else◌,
  arith, All, ltb,
}
use nmcd.Prelude.Bytes.{Bytes}
use nmcd.Int.{ℤ, pos, ltb_ℤ, ◌≤ℤ◌, ◌+ℤ◌, ◌-ℤ◌, add_int32, sub_int32, to_u32, to_int32}
use nmcd.Config.{name_expiration_blocks}
use nmcd.Result.{ok, err, panic, Result-split}
use nmcd.Script.{NameOperation, name_new, name_first_update, name_update, Parsed}
use nmcd.Script.Parse.{parse_name_script_full}
use nmcd.Chain.{TxOut, MsgTx}
use nmcd.Chain.Block.Safety.{operation-cases}

pub record NameOperationInfo : Type 0 where
  pub op_type : NameOperation
  pub name : Bytes
  pub value : Bytes
  pub tx_hash : Bytes
  pub output_index : ℕ

-- What is appended for an output: the hash of the transaction and the index of the output stand beside the fields.
abbrev pub info_of : Bytes → ℕ → Parsed → NameOperationInfo
info_of h i p = record {
  op_type = p.op_type;
  name = p.name;
  value = p.value;
  tx_hash = h;
  output_index = i;
}

-- `opType != namedb.NameOperation(0)`: 0 is NameNew.
abbrev pub is_listed : NameOperation → Bool
is_listed name_new = false
is_listed name_first_update = true
is_listed name_update = true

unfoldable pub list_operations : Bytes → ℕ → List TxOut → List NameOperationInfo
list_operations h i [] = []
list_operations h i (o ∷ outs) =
    let rest = list_operations h (i + 1) outs in
    elim (parse_name_script_full o.pk_script) [
      | err _ ↦ rest
      | panic ↦ rest
      | ok p ↦ if is_listed p.op_type then info_of h i p ∷ rest else rest
    ]

unfoldable pub parse_name_operations_from_tx : (MsgTx → Bytes) → MsgTx → List NameOperationInfo
unfolding list_operations
parse_name_operations_from_tx tx_hash tx = list_operations (tx_hash tx) 0 tx.tx_out

unfoldable pub safe_calc_expires_at : ℤ → ℤ
safe_calc_expires_at block_height =
    if ltb_ℤ (sub_int32 (pos (2 ^ 31 - 1)) name_expiration_blocks) block_height
    then pos (2 ^ 31 - 1)
    else add_int32 block_height name_expiration_blocks

-- For an int32 height that is not negative, the expiration height is the sum with 36000 blocks where
-- that is an int32, and the largest int32 otherwise; it is never before the height.
pub safe_calc_expires_at-saturates :
    (h : ℕ)
    → h < 2 ^ 31
    → (safe_calc_expires_at (pos h)
        ≡ (if ltb (h + 36000) (2 ^ 31) then pos (h + 36000) else pos (2 ^ 31 - 1)))
      × (pos h ≤ℤ safe_calc_expires_at (pos h))
unfolding safe_calc_expires_at add_int32 sub_int32 to_u32 to_int32 ◌+ℤ◌ ◌-ℤ◌
safe_calc_expires_at-saturates h l = ground arith
