-- ===== src/Tests/Databases.antt =====
-- The cache and the name database on concrete contents.
use nmcd.Prelude.{◌≡◌, ◌≢◌, refl, [], ◌∷◌, some, none, true, arith, ◌⊎◌, length, All, take}
use nmcd.Int.{pos}
use nmcd.NameDb.Cache.{Element, LruCache, new_lru_cache, back}
use nmcd.NameDb.Cache
use nmcd.NameDb.Cache.Lookup.{IsValid, cached}
use nmcd.NameDb.Cache.Bounded.{put_lem, new_lru_cache-IsValid}
use nmcd.Database.{Buckets, NameDatabase, commitment_exists, commitment_not_found, name_not_found}
use nmcd.Database.Names.{load_name, get_name, put_name, delete_name, with_name}
use nmcd.Database.Names.Reachable.{
  Reachable, new_name_database, opened, put_one, get_name-Reachable, get_name-put_name,
  get_name-delete_name,
}
use nmcd.Database.History.{add_history, get_history, hashes, or_empty, split_hashes}
use nmcd.Database.History.Appends.{get_history-add_history}
use nmcd.Database.Commitments.{get_name_new, put_name_new}
use nmcd.Database.Commitments.Once.{get_name_new-put_name_new}
use nmcd.NameDb.Cache.Recency.{recent, without, used, cached-put-IsValid}
use nmcd.Result.{ok, err}
use nmcd.Tests.{hash_a, domain, braces}
use nmcd.Tests.Records.{stored_record, stored_record-IsEncodable}
use nmcd.Tests.Store.{list_bbolt, find_entry, list_bbolt-BboltLaws, Entries}

-- One entry, for the domain, in a cache that has room for one.
abbrev small_cache : LruCache
small_cache = (Cache.put domain stored_record (new_lru_cache (pos 1))).0

-- The other name evicts it.
cached-put-IsValid_example :
    IsValid (Cache.put braces stored_record small_cache).0
    × (cached braces (Cache.put braces stored_record small_cache).0 ≡ some stored_record)
    × (recent (Cache.put braces stored_record small_cache).0
        ≡ take small_cache.capacity (braces ∷ without braces (recent small_cache)))
    × (recent (Cache.get braces small_cache).1
        ≡ used (cached braces small_cache) braces (recent small_cache))
    × ((domain ≡ braces)
        ⊎ (cached domain (Cache.put braces stored_record small_cache).0 ≡ cached domain small_cache)
        ⊎ ((e : Element) × ((Cache.put braces stored_record small_cache).1 ≡ true)
            × (back small_cache.list ≡ some e)
            × (length small_cache.list ≡ small_cache.capacity)
            × (e.key ≡ domain)
            × (domain ≢ braces)
            × (cached domain (Cache.put braces stored_record small_cache).0 ≡ none)))
cached-put-IsValid_example =
    cached-put-IsValid small_cache
      (put_lem domain stored_record (new_lru_cache (pos 1)) (new_lru_cache-IsValid (pos 1))).0
      braces stored_record domain

abbrev pub empty_buckets : Buckets Entries
empty_buckets = record {
  names = [];
  history = [];
  history_index = [];
  expiration = [];
  name_new = [];
  utxo = [];
  utxo_addr = [];
  spent_utxo = [];
  spent_utxo_idx = [];
  expired_names = [];
  expired_names_idx = [];
  expired_hist = [];
  expired_hist_idx = [];
}

abbrev pub fresh : NameDatabase list_bbolt
fresh = new_name_database empty_buckets

abbrev with_domain : NameDatabase list_bbolt
with_domain = (put_name list_bbolt domain stored_record fresh).1

with_domain-Reachable : Reachable list_bbolt with_domain
with_domain-Reachable =
    put_one domain stored_record fresh stored_record-IsEncodable (opened empty_buckets)

get_name-Reachable_example :
    ((get_name list_bbolt domain with_domain).0 ≡ load_name list_bbolt domain with_domain.db.names)
    × ((get_name list_bbolt domain with_domain).1.db ≡ with_domain.db)
get_name-Reachable_example =
    get_name-Reachable list_bbolt list_bbolt-BboltLaws with_domain with_domain-Reachable domain

get_name-put_name_example :
    (((put_name list_bbolt domain stored_record with_domain).0 ≡ ok tt)
      × ((get_name list_bbolt domain (put_name list_bbolt domain stored_record with_domain).1).0
          ≡ ok (with_name domain stored_record))
      × ((braces ≡ domain)
          ⊎ ((get_name list_bbolt braces (put_name list_bbolt domain stored_record with_domain).1).0
              ≡ (get_name list_bbolt braces with_domain).0)))
    ⊎ (((put_name list_bbolt domain stored_record with_domain).0 ≢ ok tt)
        × ((put_name list_bbolt domain stored_record with_domain).1 ≡ with_domain))
get_name-put_name_example =
    get_name-put_name list_bbolt list_bbolt-BboltLaws with_domain with_domain-Reachable domain
      stored_record stored_record-IsEncodable (λ q. absurd (cc q)) braces

get_name-delete_name_example :
    (((delete_name list_bbolt domain with_domain).0 ≡ ok tt)
      × ((get_name list_bbolt domain (delete_name list_bbolt domain with_domain).1).0
          ≡ err name_not_found)
      × ((braces ≡ domain)
          ⊎ ((get_name list_bbolt braces (delete_name list_bbolt domain with_domain).1).0
              ≡ (get_name list_bbolt braces with_domain).0)))
    ⊎ (((delete_name list_bbolt domain with_domain).0 ≢ ok tt)
        × ((delete_name list_bbolt domain with_domain).1 ≡ with_domain))
get_name-delete_name_example =
    get_name-delete_name list_bbolt list_bbolt-BboltLaws with_domain with_domain-Reachable domain
      braces

get_name_new-put_name_new_example :
    (((put_name_new list_bbolt hash_a (pos 7) fresh).0 ≡ ok tt)
      × (get_name_new list_bbolt hash_a fresh ≡ err commitment_not_found)
      × (get_name_new list_bbolt hash_a (put_name_new list_bbolt hash_a (pos 7) fresh).1
          ≡ ok (record { hash = hash_a; height = pos 7 }))
      × (put_name_new list_bbolt hash_a (pos 9) (put_name_new list_bbolt hash_a (pos 7) fresh).1
          ≡ (err commitment_exists, (put_name_new list_bbolt hash_a (pos 7) fresh).1))
      × ((domain ≡ hash_a)
          ⊎ (get_name_new list_bbolt domain (put_name_new list_bbolt hash_a (pos 7) fresh).1
              ≡ get_name_new list_bbolt domain fresh)))
    ⊎ (((put_name_new list_bbolt hash_a (pos 7) fresh).0 ≢ ok tt)
        × ((put_name_new list_bbolt hash_a (pos 7) fresh).1 ≡ fresh))
get_name_new-put_name_new_example =
    get_name_new-put_name_new list_bbolt list_bbolt-BboltLaws fresh hash_a (pos 7) (pos 9) domain
      (omega arith, omega arith)

no_history : get_history list_bbolt stored_record.name fresh ≡ (ok tt, [])
unfolding get_history new_name_database find_entry
no_history = refl

no_hashes :
    All
      (λ j. j ≢ hash_a)
      (hashes (or_empty (list_bbolt.find stored_record.name fresh.db.history_index)))
unfolding new_name_database find_entry hashes or_empty split_hashes
no_hashes = tt

get_history-add_history_example :
    (((add_history list_bbolt hash_a stored_record fresh).0 ≡ ok tt)
      × (get_history list_bbolt domain (add_history list_bbolt hash_a stored_record fresh).1
          ≡ (ok tt, stored_record ∷ [])))
    ⊎ (((add_history list_bbolt hash_a stored_record fresh).0 ≢ ok tt)
        × ((add_history list_bbolt hash_a stored_record fresh).1 ≡ fresh))
get_history-add_history_example =
    get_history-add_history list_bbolt list_bbolt-BboltLaws fresh hash_a stored_record [] refl
      stored_record-IsEncodable no_hashes no_history
