-- ===== src/Database/Commitments.antt =====
-- namedb/namedb.go: the NAME_NEW commitments, each with the height of its block.
pub mod Once
use nmcd.Prelude.{ℕ, Option, none, some, Bool, true, false, ltb, length, take}
use nmcd.Prelude.Bytes.{Bytes, le_bytes, le_value}
use nmcd.Int.{ℤ, to_u32, to_int32}
use nmcd.Database.{
  Bbolt, Buckets, DbError, NameDatabase, Answer, update, commitment_exists, commitment_not_found,
  corrupt_name_new, storing,
}
use nmcd.Result.{Result, ok, err, panic, map_err, fail_if, ◌>>=◌, ◌>>◌}

pub record NameNewRecord : Type 0 where
  pub hash : Bytes
  pub height : ℤ

module _ (B : Bbolt) where
  -- `RestoreNameNew` overwrites.
  unfoldable pub restore_name_new_tx :
      Bytes → ℤ → Buckets B.Bucket → Result (DbError B.StoreError) (Unit {0} × Buckets B.Bucket)
  restore_name_new_tx hash height b = do
    name_new' ← map_err storing (B.store hash (le_bytes 4 (to_u32 height)) b.name_new)
    ok (tt, record b { name_new = name_new' })

  -- `PutNameNew` does not.
  unfoldable pub put_name_new_tx :
      Bytes → ℤ → Buckets B.Bucket → Result (DbError B.StoreError) (Unit {0} × Buckets B.Bucket)
  put_name_new_tx hash height b = elim (B.find hash b.name_new) [
    | some payload ↦ err commitment_exists
    | none ↦ do
      name_new' ← map_err storing (B.store hash (le_bytes 4 (to_u32 height)) b.name_new)
      ok (tt, record b { name_new = name_new' })
  ]

  unfoldable pub put_name_new : Bytes → ℤ → NameDatabase B → Answer B (Unit {0})
  put_name_new hash height d = update (put_name_new_tx hash height) d

  unfoldable pub restore_name_new : Bytes → ℤ → NameDatabase B → Answer B (Unit {0})
  restore_name_new hash height d = update (restore_name_new_tx hash height) d

  -- `GetNameNew`
  unfoldable pub get_name_new : Bytes → NameDatabase B → Result (DbError B.StoreError) NameNewRecord
  get_name_new commit_hash d = elim (B.find commit_hash d.db.name_new) [
    | none ↦ err commitment_not_found
    | some payload ↦ do
      fail_if (ltb (length payload) 4) corrupt_name_new
      ok (record { hash = commit_hash; height = to_int32 (le_value (take 4 payload)) })
  ]

  unfoldable pub delete_name_new_tx :
      Bytes → Buckets B.Bucket → Result (DbError B.StoreError) (Unit {0} × Buckets B.Bucket)
  delete_name_new_tx hash b = do
    name_new' ← map_err storing (B.erase hash b.name_new)
    ok (tt, record b { name_new = name_new' })

  unfoldable pub delete_name_new : Bytes → NameDatabase B → Answer B (Unit {0})
  delete_name_new hash d = update (delete_name_new_tx hash) d
