-- ===== src/Chain/Lookup/Listed.antt =====
-- `ParseNameOperationsFromTx` of chain/name_script.go: which operations are listed.
use nmcd.Prelude.{ℕ, ◌+◌, ◌≡◌, List, some, get_elem?}
use nmcd.Prelude.Bytes.{Bytes}
use nmcd.Result.{ok}
use nmcd.Script.{Parsed}
use nmcd.Script.Parse.{parse_name_script_full}
use nmcd.Chain.{TxOut}
use nmcd.Chain.Lookup.{NameOperationInfo, info_of}

-- The information stands somewhere in the list.
abbrev pub Listed : NameOperationInfo → List NameOperationInfo → Type 0
Listed i list = (n : ℕ) × (get_elem? list n ≡ some i)

-- The output at a position parses to an operation with this information; the first output has the index `k`.
abbrev pub Holds : Bytes → ℕ → List TxOut → NameOperationInfo → Type 0
Holds h k outs i =
    (n : ℕ) × (o : TxOut) × (p : Parsed) × (get_elem? outs n ≡ some o)
    × (parse_name_script_full o.pk_script ≡ ok p)
    × (i ≡ info_of h (k + n) p)
