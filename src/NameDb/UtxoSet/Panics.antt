-- ===== src/NameDb/UtxoSet/Panics.antt =====
-- Bounds in `decodeUTXO` of namedb/utxo.go.
use nmcd.Prelude.{ℕ, ◌+◌, ◌≡◌, length, arith, refl, Bool, ltb, true, false}
use nmcd.Prelude.Bytes.{Bytes, be_value}
use nmcd.Result.{Result, ◌>>◌, fail_if, Returns, Returns->>=}
use nmcd.Slices.{index-Returns, slice-Returns}
use nmcd.NameDb.UtxoSet.{UtxoError, decode_utxo}

fail_if-Returns :
    {B : Type 0} (b : Bool) (e : UtxoError) (k : Result UtxoError B)
    → (b ≡ false → Returns k)
    → Returns (fail_if b e >> k)
fail_if-Returns true e k h = tt
fail_if-Returns false e k h = h refl

-- Decoding returns an output or an error, whatever the data.
pub decode_utxo-Returns :
    (payload tx_hash : Bytes) (out_index : ℕ) → Returns (decode_utxo tx_hash out_index payload)
unfolding decode_utxo
decode_utxo-Returns payload tx_hash out_index =
    fail_if-Returns (ltb (length payload) 13) _ _ λ fits.
      Returns->>= _ _ (slice-Returns UtxoError payload 0 8 (ground arith)) λ _ _.
        Returns->>= _ _ (slice-Returns UtxoError payload 8 4 (ground arith)) λ _ _.
          Returns->>= _ _ (index-Returns UtxoError payload 12 (ground arith)) λ n _.
            fail_if-Returns (ltb (length payload) (13 + n + 2)) _ _ λ address_fits.
              Returns->>= _ _ (slice-Returns UtxoError payload 13 n (ground arith)) λ _ _.
                Returns->>= _ _ (slice-Returns UtxoError payload (13 + n) 2 (ground arith)) λ l _.
                  fail_if-Returns (ltb (length payload) (13 + n + 2 + be_value l)) _ _
                    λ script_fits.
                      Returns->>= _ _
                        (slice-Returns UtxoError payload (13 + n + 2) (be_value l) (ground arith))
                        λ _ _. tt
