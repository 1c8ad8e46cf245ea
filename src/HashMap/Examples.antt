-- ===== src/HashMap/Examples.antt =====
-- The theorems on kernel/util/hash.h at a map with one number as its key.
use jsd_os.Prelude.{ℕ, ◌≡◌, Bool, not, ◌&&◌, none, some, if◌then◌else◌, ◌==◌, arith}
use jsd_os.HashMap.{HashMap, hash_map, hash_number, lookup, contains, emplace, remove}
use jsd_os.HashMap.Buckets.{Compares}
use jsd_os.HashMap.Laws.{IsMap, lookup-emplace, lookup-remove, operations-IsMap}

abbrev equal_numbers : ℕ → ℕ → Bool
equal_numbers a b = a == b

numbers : Compares equal_numbers
numbers = record { itself = λ a. ground arith; equal = λ a b e. ground arith }

abbrev empty : HashMap ℕ ℕ
empty = hash_map 16

abbrev one_key : HashMap ℕ ℕ
one_key = (emplace equal_numbers hash_number 7 70 empty).1

empty-IsMap : IsMap equal_numbers numbers hash_number empty
unfolding hash_map
empty-IsMap i = tt

one_key-IsMap : IsMap equal_numbers numbers hash_number one_key
one_key-IsMap = (operations-IsMap equal_numbers numbers hash_number 7 70 empty empty-IsMap).0

lookup-emplace_example :
    ((emplace equal_numbers hash_number 8 80 one_key).0
      ≡ not (contains equal_numbers hash_number 8 one_key))
    × (lookup equal_numbers hash_number 7 (emplace equal_numbers hash_number 8 80 one_key).1 ≡ (
        if equal_numbers 7 8 && not (contains equal_numbers hash_number 8 one_key)
        then some 80
        else lookup equal_numbers hash_number 7 one_key))
lookup-emplace_example = lookup-emplace equal_numbers numbers hash_number 8 7 80 one_key

lookup-remove_example :
    lookup equal_numbers hash_number 7 (remove equal_numbers hash_number 7 one_key)
    ≡ (if equal_numbers 7 7 then none else lookup equal_numbers hash_number 7 one_key)
lookup-remove_example = lookup-remove equal_numbers numbers hash_number 7 7 one_key one_key-IsMap

operations-IsMap_example :
    IsMap equal_numbers numbers hash_number (emplace equal_numbers hash_number 9 90 one_key).1
    × IsMap equal_numbers numbers hash_number (remove equal_numbers hash_number 9 one_key)
operations-IsMap_example =
    operations-IsMap equal_numbers numbers hash_number 9 90 one_key one_key-IsMap
