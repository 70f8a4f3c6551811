-- ===== src/Tests/Tables.antt =====
-- `HashTableT` on small tables of numbers: three slots, where every key has the index 0.
use fvploader.Prelude.{
  ℕ, zero, suc, ◌<◌, ◌≡◌, ◌≢◌, refl, sym, ap, inl, inr, true, Option, none, some, [], ◌∷◌, arith,
  get_elem?,
}
use fvploader.Container.HashTable.{
  HashValue, Entry, Table, reset_hash, new_table, probe, lookup_entry, lookup_element, place,
  remove_element, add_element,
}
use fvploader.Container.HashTable.Probe.{slot, IsBusy, StopsAt, key_at}
use fvploader.Container.HashTable.Insert.{Placed, place-Placed}
use fvploader.Container.HashTable.Probed.{IsProbed}
use fvploader.Container.HashTable.Add.{Added, add_element-Added, new_table-IsValid}
use fvploader.Container.HashTable.Remove.{lookup-remove_self, lookup-remove_lost}
use fvploader.Container.Prime.{
  factor_twos, power_mod, square_rounds, miller_rabin, none_divides, is_prime, next_prime,
  get_table_size,
}

abbrev hash_of : ℕ → HashValue
hash_of k = record { index = 0; key = k }

abbrev home : ℕ → ℕ
home k = 0

abbrev two_keys : Table ℕ
two_keys = record {
  entries =
      record { hash = hash_of 1; element = 10 }
      ∷ record { hash = hash_of 2; element = 20 }
      ∷ record { hash = reset_hash; element = 0 }
      ∷ [];
  table_size = 3;
  table_used_size = 2;
}

index_of_entry : Option (Entry ℕ) → ℕ
index_of_entry o = elim o [ none ↦ 0 | some e ↦ e.hash.index ]

all_home : (j : ℕ) (e : Entry ℕ) → get_elem? two_keys.entries j ≡ some e → e.hash.index ≡ 0
unfolding index_of_entry
all_home zero e g = sym (ap index_of_entry g)
all_home (suc zero) e g = sym (ap index_of_entry g)
all_home (suc (suc zero)) e g = sym (ap index_of_entry g)
all_home (suc (suc (suc j))) e g = sym (ap index_of_entry g)

second_stops : StopsAt two_keys.entries 3 0 2 1
second_stops = record { within = omega arith; stop = inl refl; busy = busy }
  where
    busy : IsBusy two_keys.entries 3 0 2 1
    busy zero h = (omega arith, omega arith)
    busy (suc i) h = absurd (omega arith)

all_reached :
    (j : ℕ)
    → j < 3
    → key_at two_keys.entries j ≢ 0
    → (d : ℕ) × StopsAt two_keys.entries 3 0 (key_at two_keys.entries j) d × (slot 3 0 d ≡ j)
all_reached zero lt nz =
    (0, record { within = omega arith; stop = inl refl; busy = λ i h. absurd (omega arith) }, refl)
all_reached (suc zero) lt nz = (1, second_stops, refl)
all_reached (suc (suc zero)) lt nz = absurd (nz refl)
all_reached (suc (suc (suc j))) lt nz = absurd (omega arith)

two_keys-IsProbed : IsProbed home two_keys.entries 3
two_keys-IsProbed = record {
  width = refl;
  homes = λ j e g nz. all_home j e g;
  reached = all_reached;
}

-- the program that the tests run
program : Unit {0}
unfolding probe lookup_entry lookup_element place remove_element add_element factor_twos power_mod
    square_rounds miller_rabin none_divides is_prime next_prime get_table_size
program = tt

-- `GetTableSize` of the first size, which is a prime, and of an even number and an odd one.
first_size : get_table_size 8 521 ≡ some 521
unfolding program
first_size = refl

next_sizes : (get_table_size 8 24 ≡ some 29) × (get_table_size 8 33 ≡ some 37)
unfolding program
next_sizes = (refl, refl)

place-Placed_example :
    (t' : Table ℕ) × (place two_keys (hash_of 3) 30 ≡ some t')
    × Placed home two_keys (hash_of 3) 30 t'
place-Placed_example =
    place-Placed two_keys two_keys-IsProbed (omega arith) (hash_of 3) (omega arith) refl 30

add_element-Added_example :
    (t' : Table ℕ) × (add_element (λ n. true) (get_table_size 8) 0 2 new_table (hash_of 7) 70
      ≡ some t')
    × Added home new_table (hash_of 7) 70 t'
unfolding new_table
add_element-Added_example =
    add_element-Added (λ n. true) (get_table_size 8) 0 home new_table (new_table-IsValid home)
      (hash_of 7) 70 (omega arith) refl (inr (521, first_size, omega arith, refl))

lookup-remove_self_example : lookup_element (remove_element two_keys (hash_of 2)) (hash_of 2) ≡ none
lookup-remove_self_example =
    lookup-remove_self home two_keys two_keys-IsProbed (hash_of 2) (omega arith) refl

lookup-remove_lost_example : lookup_element (remove_element two_keys (hash_of 1)) (hash_of 2) ≡ none
lookup-remove_lost_example =
    lookup-remove_lost home two_keys two_keys-IsProbed (hash_of 1) (hash_of 2) 0
      (record { hash = hash_of 1; element = 10 }) 0 1 (omega arith) refl (omega arith) refl refl
      refl second_stops (omega arith) refl

-- The key that is lost was there.
lookup_before_remove : lookup_element two_keys (hash_of 2) ≡ some 20
unfolding program
lookup_before_remove = refl
