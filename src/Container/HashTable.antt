-- ===== src/Container/HashTable.antt =====
-- `HashTableT<TYPE>` of source/NativeLib/my.h: open addressing with linear probing, the cache of
-- text metrics. `nullptr` among the entries is `none`; a table of size 0 has no entries.
pub mod Probe
pub mod Probed
pub mod Insert
pub mod Resize
pub mod Add
pub mod Remove
use fvploader.Prelude.{
  ℕ, zero, suc, ◌+◌, ◌-◌, ◌*◌, ◌/◌, Bool, true, false, not, ◌==◌, ltb, if◌then◌else◌, ◌%◌, ◌^◌,
  Option, none, some, List, [], ◌∷◌, get_elem?, set, replicate,
}

-- `HASH_VALUE`; `key` is `Key.QuadPart`.
pub record HashValue : Type 0 where
  pub index : ℕ
  pub key : ℕ

pub record Entry {ℓ} (V : Type ℓ) : Type ℓ where
  pub hash : HashValue
  pub element : V

pub record Table {ℓ} (V : Type ℓ) : Type ℓ where
  pub entries : List (Entry V)
  pub table_size : ℕ
  pub table_used_size : ℕ

-- `HASH_VALUE::Valid`
abbrev pub valid : HashValue → Bool
valid h = not (h.key == 0)

-- what `HASH_VALUE::Reset` leaves
abbrev pub reset_hash : HashValue
reset_hash = record { index = 0; key = 0 }

abbrev pub initial_table_size : ℕ
initial_table_size = 521

pub data Status : Type 0 where
  success no_memory : Status

-- `++Index`, back to 0 at the end of the table
abbrev pub step_index : ℕ → ℕ → ℕ
step_index n i = if i + 1 == n then 0 else i + 1

module _ {ℓ} {V : Type ℓ} where
  -- The constructor `HashTableT()`; `Initialize` fills `CalcTable`, which `Hash` models.
  unfoldable pub new_table : Table V
  new_table = record { entries = []; table_size = 0; table_used_size = 0 }

  -- The do-while loops of `LookupEntry`, at most `rounds` times; `empty` selects the loop.
  unfoldable pub probe : ℕ → List (Entry V) → ℕ → ℕ → ℕ → ℕ → Bool → Option ℕ
  probe zero es n key start i empty = none
  probe (suc rounds) es n key start i empty =
      let rest : Option ℕ = probe rounds es n key start (step_index n i) empty in
      elim (get_elem? es i) [
        | none ↦ none
        | some e ↦
            if e.hash.key == key
            then some i
            else if not (valid e.hash)
            then (if empty then some i else none)
            else if step_index n i == start
            then none
            else rest
      ]

  -- `LookupEntry`: the loop comes back to its start after `TableSize` rounds.
  unfoldable pub lookup_entry : Table V → HashValue → Bool → Option ℕ
  lookup_entry t h empty =
      let n = t.table_size in
      let start = h.index % n in
      if n == 0 then none else probe n t.entries n h.key start start empty

  -- `LookupElement`
  unfoldable pub lookup_element : Table V → HashValue → Option V
  unfolding lookup_entry
  lookup_element t h = elim (lookup_entry t h false) [
    | none ↦ none
    | some i ↦ elim (get_elem? t.entries i) [ none ↦ none | some e ↦ some e.element ]
  ]

  -- The end of `AddElement`, after `IncreaseCapacity`: `none` is a write through `nullptr`.
  unfoldable pub place : Table V → HashValue → V → Option (Table V)
  unfolding lookup_entry
  place t h v = elim (lookup_entry t h true) [
    | none ↦ none
    | some i ↦ some (record {
      entries = set t.entries i (record { hash = h; element = v });
      table_size = t.table_size;
      table_used_size = t.table_used_size + 1;
    })
  ]

  -- `RemoveElement`; the destructor leaves the bytes of the element, and `--TableUsedSize` wraps.
  unfoldable pub remove_element : Table V → HashValue → Table V
  unfolding lookup_entry
  remove_element t h = elim (lookup_entry t h false) [
    | none ↦ t
    | some i ↦ elim (get_elem? t.entries i) [
      | none ↦ t
      | some e ↦ record {
        entries = set t.entries i (record { hash = reset_hash; element = e.element });
        table_size = t.table_size;
        table_used_size = (t.table_used_size + 2 ^ 32 - 1) % 2 ^ 32;
      }
    ]
  ]

  -- The loop of `IncreaseCapacity` over the old entries, calling `AddElement`.
  unfoldable pub re_add :
      (Table V → HashValue → V → Option (Table V)) → List (Entry V) → Table V → Option (Table V)
  re_add add [] t = some t
  re_add add (e ∷ es) t = elim (if valid e.hash then add t e.hash e.element else some t) [
    | none ↦ none
    | some t' ↦ re_add add es t'
  ]

  -- What the table takes from outside: whether an allocation of so many entries succeeds, the
  -- size that `GetTableSize` finds, and a default-constructed element.
  module _ (alloc : ℕ → Bool) (get_table_size : ℕ → Option ℕ) (blank : V) where
    -- `IncreaseCapacity`; `GrowthFactor` is 1.3, and the cast drops the fraction.
    unfoldable pub increase_capacity :
        (Table V → HashValue → V → Option (Table V)) → Table V → Option (Status × Table V)
    unfolding re_add
    increase_capacity add t =
        if ltb t.table_used_size (t.table_size * 3 / 4)
        then some (success, t)
        else elim (get_table_size
            (if t.table_size == 0 then initial_table_size else t.table_size * 13 / 10)) [
              | none ↦ none
              | some n ↦
                  if not (alloc n)
                  then some (no_memory, t)
                  else let fresh : Table V = record {
                    entries = replicate n (record { hash = reset_hash; element = blank });
                    table_size = n;
                    table_used_size = 0;
                  } in
                    if t.table_size == 0
                    then some (success, fresh)
                    else elim (re_add add t.entries fresh) [
                      | none ↦ none
                      | some t' ↦ some (success, t')
                    ]
            ]

    -- `AddElement`, which `IncreaseCapacity` calls in turn: `depth` bounds the nesting. The status
    -- of `IncreaseCapacity` is dropped.
    unfoldable pub add_element : ℕ → Table V → HashValue → V → Option (Table V)
    unfolding increase_capacity place
    add_element zero t h v = none
    add_element (suc depth) t h v = elim (increase_capacity (add_element depth) t) [
      | none ↦ none
      | some (s, t') ↦ place t' h v
    ]
