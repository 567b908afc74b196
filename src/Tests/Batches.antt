-- ===== src/Tests/Batches.antt =====
-- A batch of two pending writes that is committed, on concrete contents.
use nmcd.Prelude.{ℕ, ◌≡◌, ◌≢◌, refl, [], ◌∷◌, ◌⊎◌, List, arith}
use nmcd.Prelude.Bytes.{Bytes}
use nmcd.Database.Names.{get_name}
use nmcd.Database.Names.Coherent.{Coherent}
use nmcd.Database.Names.Reachable.{Reachable-IsCoherent, opened}
use nmcd.Database.Batch.{BatchWriter, commit}
use nmcd.Database.Batch.Loads.{lookup, after_put, after_delete}
use nmcd.Database.Batch.Committed.{IsPending, RangeLaws, get_name-commit}
use nmcd.Result.{ok}
use nmcd.Tests.{domain, braces}
use nmcd.Tests.Records.{stored_record, stored_record-IsEncodable}
use nmcd.Tests.Databases.{empty_buckets, fresh}
use nmcd.Tests.Store.{list_bbolt, list_bbolt-BboltLaws}

abbrev batch : BatchWriter
batch = record {
  names = (domain, stored_record) ∷ [];
  deleted_names = (braces, tt) ∷ [];
  history = [];
  name_news = [];
  utxos = [];
  deleted_utxos = [];
  batch_size = 2;
  max_batch_size = 0;
}

-- The order of insertion.
abbrev in_order : ℕ → (A : Type 0) → List (Bytes × A) → List (Bytes × A)
in_order n A m = m

in_order-RangeLaws : RangeLaws in_order
in_order-RangeLaws = record {
  same_lookup = λ n A m j. refl;
  distinct = λ n A m d. d;
  all = λ n A P m h. h;
}

batch-IsPending : IsPending batch
unfolding lookup
batch-IsPending = record {
  names_distinct = (refl, tt);
  deleted_distinct = (refl, tt);
  encodable = (stored_record-IsEncodable, tt);
  counted = λ z. absurd (omega (arith, z));
}

get_name-commit_example :
    (((commit list_bbolt in_order batch fresh).0 ≡ ok tt)
      × ((get_name list_bbolt domain (commit list_bbolt in_order batch fresh).1.1).0
          ≡ after_delete
              (lookup domain batch.deleted_names)
              (after_put domain (lookup domain batch.names) (get_name list_bbolt domain fresh).0))
      × Coherent list_bbolt
          (commit list_bbolt in_order batch fresh).1.1.db.names
          (commit list_bbolt in_order batch fresh).1.1.cache
      × ((commit list_bbolt in_order batch fresh).1.0.batch_size ≡ 0))
    ⊎ (((commit list_bbolt in_order batch fresh).0 ≢ ok tt)
        × ((commit list_bbolt in_order batch fresh).1 ≡ (batch, fresh)))
get_name-commit_example =
    get_name-commit list_bbolt list_bbolt-BboltLaws in_order in_order-RangeLaws batch
      batch-IsPending fresh domain
      (Reachable-IsCoherent list_bbolt list_bbolt-BboltLaws fresh (opened empty_buckets))
