-- ===== src/Engine/Batch.antt =====
-- src/engine.rs: what the batch methods share: the duplicate check with a `HashSet` of the keys
-- seen, a write's mutation, and the versions that a batch of writes makes.
use nexir_mvcc_core.Prelude.{Bool, false, ◌||◌, Option, none, some, List, [], ◌∷◌, if◌then◌else◌}
use nexir_mvcc_core.Ord.{bytes_eq}
use nexir_mvcc_core.Types.{
  Timestamp, Key, Value, Mutation, put, delete, PhysicalWrite, CommittedVersion,
}
use nexir_mvcc_core.Exec.{Exec, pure, raise}

-- `set.contains(key)`
unfoldable pub contains : List Key → Key → Bool
contains [] key = false
contains (k ∷ seen) key = bytes_eq k key || contains seen key

-- the first key for which `key_set.insert(key)` returns `false`
unfoldable pub first_duplicate : List Key → List Key → Option Key
unfolding contains
first_duplicate seen [] = none
first_duplicate seen (key ∷ rest) =
    let later = first_duplicate (key ∷ seen) rest in if contains seen key then some key else later

module _ {S E : Type 0} where
  abbrev pub reject_some : (Key → E) → Option Key → Exec S E (Unit {0})
  reject_some wrap none = pure tt
  reject_some wrap (some key) = raise (wrap key)

  unfoldable pub reject_duplicates : (Key → E) → List Key → Exec S E (Unit {0})
  unfolding first_duplicate
  reject_duplicates wrap keys = reject_some wrap (first_duplicate [] keys)

abbrev pub keys_of : List PhysicalWrite → List Key
keys_of [] = []
keys_of (w ∷ ws) = w.key ∷ keys_of ws

-- `if let Some(v) = value { Mutation::Put(v) } else { Mutation::Delete }`
abbrev pub mutation_of : Option Value → Mutation
mutation_of none = delete
mutation_of (some v) = put v

abbrev pub version_of : Timestamp → PhysicalWrite → CommittedVersion
version_of commit_ts w = record { key = w.key; commit_ts = commit_ts; value = w.value }

abbrev pub versions_of : Timestamp → List PhysicalWrite → List CommittedVersion
versions_of commit_ts [] = []
versions_of commit_ts (w ∷ ws) = version_of commit_ts w ∷ versions_of commit_ts ws
