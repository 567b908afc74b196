-- ===== src/Script/Grammar.antt =====
-- The scripts that the consensus rules allow, as relations that mention no offset.
use nmcd.Prelude.{ℕ, ◌+◌, ◌*◌, ◌^◌, ◌≤◌, ◌≡◌, [], ◌∷◌, ◌++◌, length}
use nmcd.Prelude.Bytes.{Bytes}
use nmcd.Script.{NameOperation, name_new, name_first_update, name_update, Parsed}

-- `Push d e`: the bytes `e` push the data `d`.
pub data Push : Bytes → Bytes → Type 0 where
  op_0 : Push [] (0x00 ∷ [])
  direct : (n : ℕ) (d : Bytes) → 1 ≤ n → n ≤ 75 → length d ≡ n → Push d (n ∷ d)
  push_data1 : (n : ℕ) (d : Bytes) → length d ≡ n → Push d (0x4c ∷ n ∷ d)
  push_data2 : (b0 b1 : ℕ) (d : Bytes) → length d ≡ b0 + b1 * 2 ^ 8 → Push d (0x4d ∷ b0 ∷ b1 ∷ d)
  push_data4 :
      (b0 b1 b2 b3 : ℕ) (d : Bytes)
      → length d ≡ b0 + b1 * 2 ^ 8 + b2 * 2 ^ 16 + b3 * 2 ^ 24
      → length d ≤ 0x7FFFFFFF
      → Push d (0x4e ∷ b0 ∷ b1 ∷ b2 ∷ b3 ∷ d)

-- The pushes behind the opcode of a name operation, and what they hold.
pub data Fields : Parsed → ℕ → Bytes → Type 0 where
  new :
      {h e : Bytes}
      → Push h e
      → Fields (record { op_type = name_new; name = []; value = []; extra = h }) 0xd0 e
  first_update :
      {n en r er v ev : Bytes}
      → Push n en
      → Push r er
      → Push v ev
      → Fields
          (record { op_type = name_first_update; name = n; value = v; extra = r })
          0xd1
          (en ++ (er ++ ev))
  update :
      {n en v ev : Bytes}
      → Push n en
      → Push v ev
      → Fields (record { op_type = name_update; name = n; value = v; extra = [] }) 0xd2 (en ++ ev)

-- OP_2DROP is 0x6d, OP_DROP is 0x75.
abbrev pub drop_ops : NameOperation → Bytes
drop_ops name_new = 0x6d ∷ []
drop_ops name_first_update = 0x6d ∷ 0x6d ∷ []
drop_ops name_update = 0x6d ∷ 0x75 ∷ []

-- A name script: the opcode, the pushes, the drop opcodes, and 25 bytes or more.
pub record NameScript (p : Parsed) (script : Bytes) : Type 0 where
  pub opcode : ℕ
  pub pushes : Bytes
  pub suffix : Bytes
  pub fields : Fields p opcode pushes
  pub long : 25 ≤ length suffix
  pub shape : script ≡ opcode ∷ (pushes ++ (drop_ops p.op_type ++ suffix))
