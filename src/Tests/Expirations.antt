-- ===== src/Tests/Expirations.antt =====
-- An index of expirations with two names.
use nmcd.Prelude.{ℕ, ◌≡◌, refl, [], ◌∷◌, List, map, arith}
use nmcd.Prelude.Bytes.{Bytes, be_bytes}
use nmcd.Int.{pos, to_u32}
use nmcd.Database.{NameDatabase}
use nmcd.Database.Names.{get_expired_names, make_expiration_key, bytes_ltb}
use nmcd.Database.Names.Expirations.{Sorted, entry_of, expired_before, get_expired_names-exact}
use nmcd.Tests.{domain, braces}
use nmcd.Tests.Databases.{empty_buckets, fresh}
use nmcd.Tests.Store.{list_bbolt}

abbrev two_names : List (ℕ × Bytes)
two_names = (41000, domain) ∷ (42000, braces) ∷ []

abbrev with_index : NameDatabase list_bbolt
with_index = record fresh { db = record empty_buckets { expiration = map entry_of two_names } }

two_names-Sorted : Sorted (map entry_of two_names)
unfolding bytes_ltb make_expiration_key be_bytes to_u32
two_names-Sorted = ((refl, tt), (tt, tt))

two_names_example : expired_before (pos 41001) two_names ≡ domain ∷ []
unfolding expired_before
two_names_example = refl

get_expired_names-exact_example :
    get_expired_names list_bbolt (pos 41001) with_index ≡ expired_before (pos 41001) two_names
get_expired_names-exact_example =
    get_expired_names-exact list_bbolt with_index (pos 41001) two_names
      (omega arith, (omega arith, tt)) refl two_names-Sorted
