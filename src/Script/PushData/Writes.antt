-- ===== src/Script/PushData/Writes.antt =====
-- `pushData` of wallet/wallet.go.
use nmcd.Prelude.{
  ◌+◌, ◌/◌, ◌%◌, ◌^◌, ◌≤◌, ◌≡◌, refl, [], ◌∷◌, ◌++◌, length, drop-append, arith, some, inl, inr,
  le-or-lt,
}
use nmcd.Prelude.Bytes.{Bytes}
use nmcd.Result.{ok}
use nmcd.Script.Grammar.{Push, op_0, direct, push_data1, push_data2, push_data4}
use nmcd.Script.PushData.{read_push_data, push_data}
use nmcd.Script.PushData.Reads.{read_push_data_of_Push}

-- The five forms, each with the range of lengths that it is used for.
pub push_data-Push :
    (d : Bytes) → length d ≤ 0x7FFFFFFF → (e : Bytes) × (push_data d ≡ some e) × Push d e
unfolding push_data
push_data-Push [] h = (0x00 ∷ [], refl, op_0)
push_data-Push (x ∷ xs) h =
    let d : Bytes = x ∷ xs in
    let l = length (x ∷ xs) in
    elim (le-or-lt l 75) [
      | inl a ↦ (
        (l % 256) ∷ d,
        ground arith,
        direct (l % 256) d (omega arith) (omega arith) (omega arith),
      )
      | inr b ↦ elim (le-or-lt l 255) [
        | inl a ↦ (0x4c ∷ (l % 256) ∷ d, ground arith, push_data1 (l % 256) d (omega arith))
        | inr b ↦ elim (le-or-lt l 65535) [
          | inl a ↦ (
            0x4d ∷ (l % 256) ∷ (l / 2 ^ 8 % 256) ∷ d,
            ground arith,
            push_data2 (l % 256) (l / 2 ^ 8 % 256) d (omega arith),
          )
          | inr b ↦ (
            0x4e ∷ (l % 256) ∷ (l / 2 ^ 8 % 256) ∷ (l / 2 ^ 16 % 256) ∷ (l / 2 ^ 24 % 256) ∷ d,
            ground arith,
            push_data4 (l % 256) (l / 2 ^ 8 % 256) (l / 2 ^ 16 % 256) (l / 2 ^ 24 % 256) d
                (omega arith) (omega arith),
          )
        ]
      ]
    ]

-- On data of at most 0x7FFFFFFF bytes `pushData` succeeds, and `readPushData`, started where the
-- pushed bytes stand in a script, returns the data and the offset behind them.
pub read_push_data-push_data :
    (front d rest : Bytes)
    → length d ≤ 0x7FFFFFFF
    → (e : Bytes) × (push_data d ≡ some e)
      × (read_push_data (front ++ (e ++ rest)) (length front) ≡ ok (d, length front + length e))
read_push_data-push_data front d rest h =
    let (e, p, push) = push_data-Push d h in
    (
      e,
      p,
      read_push_data_of_Push (front ++ (e ++ rest)) (length front) rest push
          (drop-append front (e ++ rest)),
    )
