-- ===== src/Container/HashTable/Add.antt =====
-- `AddElement` as a whole: the cache maps each hash to the element that was added last.
use fvploader.Prelude.{
  ℕ, suc, ◌*◌, ◌/◌, ◌≤◌, ◌<◌, ◌≡◌, ◌≢◌, refl, sym, ap, ◌∙◌, ◌⊎◌, inl, inr, Bool, true, false, ◌==◌,
  ltb, if◌then◌else◌, Option, none, some, replicate, arith, ℕ_discrete, dec_lt,
}
use fvploader.Container.HashTable.{
  HashValue, Table, Status, success, reset_hash, initial_table_size, lookup_entry, lookup_element,
  place, increase_capacity, add_element, new_table,
}
use fvploader.Container.HashTable.Insert.{place-Placed}
use fvploader.Container.HashTable.Probed.{count_valid, IsProbed, lookup_element_absent}
use fvploader.Container.HashTable.Resize.{
  stored, stored-lookup, key_at-replicate, count_valid-replicate, replicate-IsProbed, IsValid,
  room_below_load, re_add_lem,
}

-- the size that `IncreaseCapacity` asks `GetTableSize` for
abbrev pub wanted_size {ℓ} : {V : Type ℓ} → Table V → ℕ
wanted_size t = if t.table_size == 0 then initial_table_size else t.table_size * 13 / 10

module _ {ℓ} {V : Type ℓ} where
  -- an empty table of `n` slots
  abbrev fresh : ℕ → V → Table V
  fresh n blank = record {
    entries = replicate n (record { hash = reset_hash; element = blank });
    table_size = n;
    table_used_size = 0;
  }

  -- `t` holds what `before` said, and `v` under `h`.
  pub record Added (home : ℕ → ℕ) (t : Table V) (h : HashValue) (v : V) (t' : Table V)
      : Type ℓ where
    pub valid : IsValid home t'
    pub reads :
        (q : HashValue)
        → q.key ≢ 0
        → q.index ≡ home q.key
        → lookup_element t' q ≡ (if q.key == h.key then some v else lookup_element t q)

  -- A table that `IncreaseCapacity` left: below its load, and with the lookups of `t`.
  record Roomy (home : ℕ → ℕ) (t u : Table V) : Type ℓ where
    probed : IsProbed home u.entries u.table_size
    counted : count_valid u.entries ≤ u.table_used_size
    below : u.table_used_size < u.table_size * 3 / 4
    large : initial_table_size ≤ u.table_size
    same :
        (q : HashValue) → q.key ≢ 0 → q.index ≡ home q.key → lookup_element u q ≡ lookup_element t q

  module _ (alloc : ℕ → Bool) (get_table_size : ℕ → Option ℕ) (blank : V) (home : ℕ → ℕ) where
    -- `GetTableSize` finds a size that is no smaller, and the allocation succeeds.
    abbrev pub CanGrow : Table V → Type 0
    CanGrow t =
        (n : ℕ) × (get_table_size (wanted_size t) ≡ some n) × (wanted_size t ≤ n) × (alloc n ≡ true)

    fresh_absent :
        (n : ℕ) (q : HashValue)
        → q.key ≢ 0
        → q.index ≡ home q.key
        → lookup_element (fresh n blank) q ≡ none
    fresh_absent n q nz hq =
        lookup_element_absent home (fresh n blank) (replicate-IsProbed home n blank) q nz hq
          (λ j e. nz (sym e ∙ key_at-replicate n blank j))

    lookup_empty : (t : Table V) (q : HashValue) → t.table_size ≡ 0 → lookup_element t q ≡ none
    unfolding lookup_element lookup_entry
    lookup_empty t q z = ground arith

    -- The first allocation.
    grow_empty :
        (t : Table V)
        → IsValid home t
        → t.table_size ≡ 0
        → CanGrow t
        → (s : Status) × (u : Table V) × (increase_capacity alloc get_table_size blank
              (add_element alloc get_table_size blank 1)
              t
            ≡ some (s, u))
          × Roomy home t u
    unfolding increase_capacity
    grow_empty t v z (n, found, le, ok) = (
      success,
      fresh n blank,
      ground arith,
      record {
        probed = replicate-IsProbed home n blank;
        counted = omega (arith, count_valid-replicate n blank);
        below = ground arith;
        large = ground arith;
        same = λ q nz hq. fresh_absent n q nz hq ∙ sym (lookup_empty t q z);
      },
    )

    -- The table is copied into a larger one.
    grow_full :
        (t : Table V)
        → IsValid home t
        → t.table_size ≢ 0
        → ltb t.table_used_size (t.table_size * 3 / 4) ≡ false
        → CanGrow t
        → (s : Status) × (u : Table V) × (increase_capacity alloc get_table_size blank
              (add_element alloc get_table_size blank 1)
              t
            ≡ some (s, u))
          × Roomy home t u
    unfolding increase_capacity
    grow_full t v nz full (n, found, le, ok) =
        let wide : t.table_size * 13 / 10 ≤ n = ground arith in
        let big : initial_table_size ≤ t.table_size = omega arith in
        let (u, run, r) =
          re_add_lem alloc get_table_size blank home t.entries (fresh n blank)
            (replicate-IsProbed home n blank) (omega (arith, count_valid-replicate n blank))
            (omega (arith, v.counted, v.load)) v.probed.homes in
        (
          success,
          u,
          ground (arith, run),
          record {
            probed = r.probed;
            counted = r.counted;
            below = omega (arith, r.used, r.size, v.counted, v.load);
            large = omega (arith, r.size);
            same = λ q nzq hq.
                r.reads q nzq hq
                ∙ ap (stored q.key t.entries) (fresh_absent n q nzq hq)
                ∙ stored-lookup t v.probed q nzq hq;
          },
        )

    -- Whatever `IncreaseCapacity` does, it leaves room.
    increase_capacity-Roomy :
        (t : Table V)
        → IsValid home t
        → (t.table_used_size < t.table_size * 3 / 4) ⊎ CanGrow t
        → (s : Status) × (u : Table V) × (increase_capacity alloc get_table_size blank
              (add_element alloc get_table_size blank 1)
              t
            ≡ some (s, u))
          × Roomy home t u
    unfolding increase_capacity
    increase_capacity-Roomy t v g = elim (dec_lt t.table_used_size (t.table_size * 3 / 4)) [
      | yes p ↦ (
        success,
        t,
        ground arith,
        record {
          probed = v.probed;
          counted = v.counted;
          below = p;
          large = omega (arith, v.sized);
          same = λ q nz hq. refl;
        },
      )
      | no p ↦ elim g [
        | inl q ↦ absurd (p q)
        | inr c ↦ elim (ℕ_discrete t.table_size 0) [
          | yes z ↦ grow_empty t v z c
          | no nz ↦ grow_full t v nz (ground arith) c
        ]
      ]
    ]

    place-Added :
        (t u : Table V) (h : HashValue) (v : V)
        → Roomy home t u
        → h.key ≢ 0
        → h.index ≡ home h.key
        → (t' : Table V) × (place u h v ≡ some t') × Added home t h v t'
    place-Added t u h v r nz hq =
        let (t', run, w) =
          place-Placed u r.probed (room_below_load u r.counted r.below) h nz hq v in
        (
          t',
          run,
          record {
            valid = record {
              probed = rw w.size w.probed;
              counted = omega (arith, w.used, w.count, r.counted);
              load = omega (arith, w.used, w.size, r.below);
              sized = inr (rw w.size r.large);
            };
            reads = λ q nzq hqq.
                w.reads q nzq hqq
                ∙ ap (λ o. if q.key == h.key then some v else o) (r.same q nzq hqq);
          },
        )

    -- `AddElement` of a key that is not 0 and has its own index, into a valid table that
    -- has room or can grow, succeeds: the table stays valid, and its lookup changes at that
    -- key alone. Two levels of nested calls are enough.
    pub add_element-Added :
        (t : Table V)
        → IsValid home t
        → (h : HashValue) (v : V) → h.key ≢ 0
        → h.index ≡ home h.key
        → (t.table_used_size < t.table_size * 3 / 4) ⊎ CanGrow t
        → (t' : Table V) × (add_element alloc get_table_size blank 2 t h v ≡ some t')
          × Added home t h v t'
    unfolding add_element
    add_element-Added t valid h v nz hq g =
        let (s, u, grown, r) = increase_capacity-Roomy t valid g in
        let (t', run, a) = place-Added t u h v r nz hq in (t', ground (arith, grown, run), a)

  pub new_table-IsValid : (home : ℕ → ℕ) → IsValid home (new_table {V = V})
  unfolding new_table
  new_table-IsValid home = record {
    probed = record {
      width = refl;
      homes = λ j e get nz. cc;
      reached = λ j lt nz. absurd (omega arith);
    };
    counted = omega arith;
    load = omega arith;
    sized = inl refl;
  }

  -- The first `AddElement` writes through `nullptr` where the allocation of the size that
  -- `GetTableSize` found fails.
  add_element-no_memory :
      (alloc : ℕ → Bool) (get_table_size : ℕ → Option ℕ) (blank : V) (h : HashValue) (v : V)
      (n depth : ℕ)
      → get_table_size initial_table_size ≡ some n
      → alloc n ≡ false
      → add_element alloc get_table_size blank (suc depth) new_table h v ≡ none
  unfolding add_element increase_capacity new_table place lookup_entry
  add_element-no_memory alloc get_table_size blank h v n depth found fails = ground arith
