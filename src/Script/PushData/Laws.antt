-- ===== src/Script/PushData/Laws.antt =====
-- `readPushData` of chain/name_script.go and the pushes of the grammar.
use nmcd.Prelude.{
  append_assoc, length-append, leb-eq-false, length-eq-zero, ◌∙◌, ◌==◌, ==_iff, ◌&&◌, le-or-lt, ℕ,
  ◌+◌, ◌*◌, ◌^◌, ◌≤◌, ◌<◌, ◌≡◌, ap, sym, [], ◌∷◌, ◌++◌, length, drop, arith, Bool-cases, ltb, leb,
  inl, inr,
}
use nmcd.Prelude.Bytes.{Bytes}
use nmcd.Result.{Result, ok, ◌>>=◌, ◌>>◌, Returns, Returns->>=, Result-cases, fail_if}
use nmcd.Script.{PushError, data_exceeds_script}
use nmcd.Script.Grammar.{Push, op_0, direct, push_data1, push_data2, push_data4}
use nmcd.Script.PushData.{length1, length2, length4, push_length, read_push_data}
use nmcd.Slices.{index-Returns, slice-Returns, index, slice, index_lem, slice_lem, slice-eq-ok}

length1-Returns : (script : Bytes) (offset : ℕ) → Returns (length1 script offset)
unfolding length1
length1-Returns script offset = ground (arith, index_lem {E = PushError} script offset)

length2-Returns : (script : Bytes) (offset : ℕ) → Returns (length2 script offset)
unfolding length2
length2-Returns script offset =
    ground (
      arith,
      index_lem {E = PushError} script offset,
      index_lem {E = PushError} script (offset + 1),
    )

length4-Returns : (script : Bytes) (offset : ℕ) → Returns (length4 script offset)
unfolding length4
length4-Returns script offset = ground (
  arith,
  index_lem {E = PushError} script offset,
  index_lem {E = PushError} script (offset + 1),
  index_lem {E = PushError} script (offset + 2),
  index_lem {E = PushError} script (offset + 3),
)

push_length-Returns :
    (script : Bytes) (opcode offset : ℕ) → Returns (push_length script opcode offset)
unfolding push_length
push_length-Returns script opcode offset = ground (
  arith,
  length1-Returns script offset,
  length2-Returns script offset,
  length4-Returns script offset,
)

pub read_push_data-Returns : (script : Bytes) (offset : ℕ) → Returns (read_push_data script offset)
unfolding read_push_data
read_push_data-Returns script offset = elim (Bool-cases (leb (length script) offset)) [
  | inl out ↦ rw out tt
  | inr inside ↦ rw inside (
      Returns->>= (index script offset) _ (index-Returns PushError script offset (ground arith))
        λ opcode e.
          Returns->>= (push_length script opcode (offset + 1)) _
            (push_length-Returns script opcode (offset + 1))
            λ p e'. ground (arith, slice-Returns PushError script p.1 p.0))
]

-- What a successful length prefix says of the bytes that are left.
length1-eq-ok :
    (script : Bytes) (offset : ℕ) {n o : ℕ}
    → length1 script offset ≡ ok (n, o)
    → (drop offset script ≡ n ∷ drop o script) × (o ≡ offset + 1)
unfolding length1
length1-eq-ok script offset h = ground (arith, index_lem {E = PushError} script offset)

length2-eq-ok :
    (script : Bytes) (offset : ℕ) {n o : ℕ}
    → length2 script offset ≡ ok (n, o)
    → (b0 b1 : ℕ) × (drop offset script ≡ b0 ∷ b1 ∷ drop o script)
      × (n ≡ b0 + b1 * 2 ^ 8)
      × (o ≡ offset + 2)
unfolding length2
length2-eq-ok script offset {n} {o} h = elim (le-or-lt (length script) (offset + 1)) [
  | inl short ↦ absurd (ground arith)
  | inr fits ↦
      let (b0, e0, d0) = index_lem {E = PushError} script offset (omega arith) in
      let (b1, e1, d1) = index_lem {E = PushError} script (offset + 1) fits in
      (b0, b1, ground arith, ground arith, ground arith)
]

length4-eq-ok :
    (script : Bytes) (offset : ℕ) {n o : ℕ}
    → length4 script offset ≡ ok (n, o)
    → (b0 b1 b2 b3 : ℕ) × (drop offset script ≡ b0 ∷ b1 ∷ b2 ∷ b3 ∷ drop o script)
      × (n ≡ b0 + b1 * 2 ^ 8 + b2 * 2 ^ 16 + b3 * 2 ^ 24)
      × (n ≤ 0x7FFFFFFF)
      × (o ≡ offset + 4)
unfolding length4
length4-eq-ok script offset {n} {o} h = elim (le-or-lt (length script) (offset + 3)) [
  | inl short ↦ absurd (ground arith)
  | inr fits ↦
      let (b0, e0, d0) = index_lem {E = PushError} script offset (omega arith) in
      let (b1, e1, d1) = index_lem {E = PushError} script (offset + 1) (omega arith) in
      let (b2, e2, d2) = index_lem {E = PushError} script (offset + 2) (omega arith) in
      let (b3, e3, d3) = index_lem {E = PushError} script (offset + 3) fits in
      (b0, b1, b2, b3, ground arith, ground arith, ground arith, ground arith)
]

Push-head : (opcode c : ℕ) (d t : Bytes) → opcode ≡ c → Push d (c ∷ t) → Push d (opcode ∷ t)
Push-head opcode c d t e p = rw e p

-- The bytes from the opcode to the end of the length, put before their data, are a push of it.
push_length-Push :
    (script : Bytes) (opcode offset n o : ℕ) (d : Bytes)
    → push_length script opcode offset ≡ ok (n, o)
    → length d ≡ n
    → (e : Bytes) × (opcode ∷ drop offset script ≡ e ++ drop o script)
      × Push d (e ++ d)
      × (o + 1 ≡ offset + length e)
unfolding push_length
push_length-Push script opcode offset n o d h l = elim (Bool-cases (opcode == 0x00)) [
  | inl e ↦
      let z : d ≡ [] = length-eq-zero d (ground arith) in
      (
        opcode ∷ [],
        ground arith,
        Push-head opcode 0x00 d d ((==_iff opcode 0).0 e) (rw z op_0),
        ground arith,
      )
  | inr e0 ↦ elim (Bool-cases (leb 0x01 opcode && leb opcode 0x4b)) [
    | inl e ↦ (
      opcode ∷ [],
      ground arith,
      direct opcode d (ground arith) (ground arith) (ground arith),
      ground arith,
    )
    | inr e1 ↦ elim (Bool-cases (opcode == 0x4c)) [
      | inl e ↦
          let q : length1 script offset ≡ ok (n, o) = ground arith in
          let (a, b) = length1-eq-ok script offset q in
          (
            opcode ∷ n ∷ [],
            ground arith,
            Push-head opcode 0x4c d (n ∷ d) ((==_iff opcode 0x4c).0 e) (push_data1 n d l),
            ground arith,
          )
      | inr e2 ↦ elim (Bool-cases (opcode == 0x4d)) [
        | inl e ↦
            let q : length2 script offset ≡ ok (n, o) = ground arith in
            let (b0, b1, a, m, b) = length2-eq-ok script offset q in
            (
              opcode ∷ b0 ∷ b1 ∷ [],
              ground arith,
              Push-head opcode 0x4d d (b0 ∷ b1 ∷ d) ((==_iff opcode 0x4d).0 e)
                  (push_data2 b0 b1 d (l ∙ m)),
              ground arith,
            )
        | inr e3 ↦ elim (Bool-cases (opcode == 0x4e)) [
          | inl e ↦
              let q : length4 script offset ≡ ok (n, o) = ground arith in
              let (b0, b1, b2, b3, a, m, k, b) = length4-eq-ok script offset q in
              (
                opcode ∷ b0 ∷ b1 ∷ b2 ∷ b3 ∷ [],
                ground arith,
                Push-head opcode 0x4e d (b0 ∷ b1 ∷ b2 ∷ b3 ∷ d) ((==_iff opcode 0x4e).0 e)
                    (push_data4 b0 b1 b2 b3 d (l ∙ m) (omega arith)),
                ground arith,
              )
          | inr e4 ↦ absurd (ground arith)
        ]
      ]
    ]
  ]
]

-- The last steps of `readPushData`: the bounds test and the slice.
unfoldable pub take_data : Bytes → ℕ → ℕ → Result PushError (Bytes × ℕ)
take_data script o n = do
  fail_if (ltb (length script) (o + n)) data_exceeds_script
  found ← slice script o (o + n)
  ok (found, o + n)

take_data-eq-ok :
    (script : Bytes) (o n : ℕ) {d : Bytes} {o' : ℕ}
    → take_data script o n ≡ ok (d, o')
    → (drop o script ≡ d ++ drop o' script) × (length d ≡ n) × (o' ≡ o + n) × (o' ≤ length script)
unfolding take_data
take_data-eq-ok script o n {d} {o'} h = elim (le-or-lt (o + n) (length script)) [
  | inr short ↦ absurd (ground arith)
  | inl fits ↦
      let l : slice {E = PushError} script o (o + n) ≡ ok d =
        ground (arith, slice_lem {E = PushError} script o n) in
      let (split, len) = slice-eq-ok script o n l in
      (
        ground arith,
        len,
        ground (arith, slice_lem {E = PushError} script o n),
        ground (arith, slice_lem {E = PushError} script o n),
      )
]

pub read_push_data_steps :
    (script : Bytes) (offset opcode n o : ℕ)
    → index {E = PushError} script offset ≡ ok opcode
    → offset < length script
    → push_length script opcode (offset + 1) ≡ ok (n, o)
    → read_push_data script offset ≡ take_data script o n
unfolding read_push_data take_data
read_push_data_steps script offset opcode n o i b p = rw (leb-eq-false _ _ b, i, p)

-- A successful read finds a push of the data at the offset, and returns the offset behind it.
pub read_push_data-Push :
    (script : Bytes) (offset : ℕ) {d : Bytes} {o : ℕ}
    → read_push_data script offset ≡ ok (d, o)
    → (e : Bytes) × (drop offset script ≡ e ++ drop o script)
      × Push d e
      × (o ≡ offset + length e)
      × (o ≤ length script)
read_push_data-Push script offset {d} {o} h = elim (le-or-lt (length script) offset) [
  | inl short ↦ absurd (unfold read_push_data in ground arith)
  | inr inside ↦
      let (opcode, i, head) = index_lem {E = PushError} script offset inside in
      elim (Result-cases (push_length script opcode (offset + 1)) (push_length-Returns _ _ _)) [
        | inr (x, p) ↦ absurd (unfold read_push_data in ground arith)
        | inl ((n, o'), p) ↦
            let t =
              take_data-eq-ok script o' n
                (sym (read_push_data_steps script offset opcode n o' i inside p) ∙ h) in
            let (e, split, push, len) = push_length-Push script opcode (offset + 1) n o' d p t.1 in
            (
              e ++ d,
              head ∙ split ∙ ap (◌++◌ e) t.0 ∙ sym (append_assoc e d (drop o script)),
              push,
              omega (arith, t.1, t.2, len, length-append e d),
              t.3,
            )
      ]
]
