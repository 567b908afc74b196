-- ===== src/Script/PushData/Reads.antt =====
-- `readPushData` of chain/name_script.go where a push of the grammar stands.
use nmcd.Prelude.{
  ℕ, ◌+◌, ◌*◌, ◌^◌, ◌≤◌, ◌<◌, ◌≡◌, refl, ◌∙◌, ◌∷◌, ◌++◌, length, drop, arith, ltb-eq-false,
  leb-eq-false,
}
use nmcd.Prelude.Bytes.{Bytes}
use nmcd.Result.{ok}
use nmcd.Script.{PushError}
use nmcd.Script.Grammar.{Push, op_0, direct, push_data1, push_data2, push_data4}
use nmcd.Script.PushData.{length1, length2, length4, push_length, read_push_data}
use nmcd.Script.PushData.Laws.{take_data, read_push_data_steps}
use nmcd.Slices.{index, index_of_drop, slice_of_drop}

take_data_of_drop :
    (script : Bytes) (o : ℕ) (d r : Bytes)
    → drop o script ≡ d ++ r
    → o ≤ length script
    → take_data script o (length d) ≡ ok (d, o + length d)
unfolding take_data
take_data_of_drop script o d r h b =
    let (s, _, fits) = slice_of_drop {E = PushError} script o d r h b in
    rw (ltb-eq-false _ _ fits, s)

length2_of_drop :
    (script : Bytes) (o b0 b1 : ℕ) (t : Bytes)
    → drop o script ≡ b0 ∷ b1 ∷ t
    → (length2 script o ≡ ok (b0 + b1 * 2 ^ 8, o + 2))
      × (drop (o + 2) script ≡ t)
      × (o + 2 ≤ length script)
unfolding length2
length2_of_drop script o b0 b1 t h =
    let (i0, t0, _) = index_of_drop {E = PushError} script o h in
    let (i1, t1, fits) = index_of_drop {E = PushError} script (o + 1) t0 in
    (rw (leb-eq-false _ _ fits, i0, i1), ground arith, omega arith)

length4_of_drop :
    (script : Bytes) (o b0 b1 b2 b3 : ℕ) (t : Bytes)
    → drop o script ≡ b0 ∷ b1 ∷ b2 ∷ b3 ∷ t
    → b0 + b1 * 2 ^ 8 + b2 * 2 ^ 16 + b3 * 2 ^ 24 ≤ 0x7FFFFFFF
    → (length4 script o ≡ ok (b0 + b1 * 2 ^ 8 + b2 * 2 ^ 16 + b3 * 2 ^ 24, o + 4))
      × (drop (o + 4) script ≡ t)
      × (o + 4 ≤ length script)
unfolding length4
length4_of_drop script o b0 b1 b2 b3 t h m =
    let (i0, t0, _) = index_of_drop {E = PushError} script o h in
    let (i1, t1, _) = index_of_drop {E = PushError} script (o + 1) t0 in
    let (i2, t2, _) = index_of_drop {E = PushError} script (o + 1 + 1) t1 in
    let (i3, t3, fits) = index_of_drop {E = PushError} script (o + 1 + 1 + 1) t2 in
    (ground arith, ground arith, omega arith)

-- What one push looks like to the loop-free reader: its opcode, its length, and its data.
record Seen (script : Bytes) (offset : ℕ) (d e r : Bytes) : Type 0 where
  opcode : ℕ
  o : ℕ
  first : index {E = PushError} script offset ≡ ok opcode
  inside : offset < length script
  prefix : push_length script opcode (offset + 1) ≡ ok (length d, o)
  rest : drop o script ≡ d ++ r
  end : o + length d ≡ offset + length e
  bound : o ≤ length script

see :
    (script : Bytes) (offset : ℕ) {d e : Bytes} (r : Bytes)
    → Push d e
    → drop offset script ≡ e ++ r
    → Seen script offset d e r
unfolding push_length length1
see script offset r op_0 h =
    let (i, t, b) = index_of_drop {E = PushError} script offset h in
    record {
      opcode = 0x00;
      o = offset + 1;
      first = i;
      inside = b;
      prefix = refl;
      rest = t;
      end = omega arith;
      bound = omega arith;
    }
see script offset r (direct n d lo hi l) h =
    let (i, t, b) = index_of_drop {E = PushError} script offset h in
    record {
      opcode = n;
      o = offset + 1;
      first = i;
      inside = b;
      prefix = ground arith;
      rest = t;
      end = omega arith;
      bound = omega arith;
    }
see script offset r (push_data1 n d l) h =
    let (i, t, b) = index_of_drop {E = PushError} script offset h in
    let (i1, t1, b1) = index_of_drop {E = PushError} script (offset + 1) t in
    record {
      opcode = 0x4c;
      o = offset + 1 + 1;
      first = i;
      inside = b;
      prefix = rw (leb-eq-false _ _ b1, i1, l);
      rest = t1;
      end = omega arith;
      bound = omega arith;
    }
see script offset r (push_data2 b0 b1 d l) h =
    let (i, t, b) = index_of_drop {E = PushError} script offset h in
    let (q, t2, b2) = length2_of_drop script (offset + 1) b0 b1 (d ++ r) t in
    record {
      opcode = 0x4d;
      o = offset + 1 + 2;
      first = i;
      inside = b;
      prefix = rw (q, l);
      rest = t2;
      end = omega arith;
      bound = b2;
    }
see script offset r (push_data4 b0 b1 b2 b3 d l m) h =
    let (i, t, b) = index_of_drop {E = PushError} script offset h in
    let (q, t4, b4) = length4_of_drop script (offset + 1) b0 b1 b2 b3 (d ++ r) t (omega arith) in
    record {
      opcode = 0x4e;
      o = offset + 1 + 4;
      first = i;
      inside = b;
      prefix = rw (q, l);
      rest = t4;
      end = omega arith;
      bound = b4;
    }

pub read_push_data_of_Push :
    (script : Bytes) (offset : ℕ) {d e : Bytes} (r : Bytes)
    → Push d e
    → drop offset script ≡ e ++ r
    → read_push_data script offset ≡ ok (d, offset + length e)
read_push_data_of_Push script offset {d} {e} r p h =
    let s = see script offset r p h in
    read_push_data_steps script offset s.opcode (length d) s.o s.first s.inside s.prefix
    ∙ take_data_of_drop script s.o d r s.rest s.bound
    ∙ rw s.end
