-- ===== src/Container/HashTable/Resize.antt =====
-- `AddElement` with `IncreaseCapacity`: growing a `HashTableT` keeps what it holds.
use fvploader.Prelude.{
  ℕ, zero, suc, ◌+◌, ◌*◌, ◌/◌, ◌≤◌, ◌<◌, ◌≡◌, ◌≢◌, refl, sym, ap, ◌∙◌, ◌⊎◌, inl, inr, Bool, ◌==◌,
  if◌then◌else◌, Option, none, some, List, [], ◌∷◌, get_elem?, replicate, arith, ℕ_discrete, dec_lt,
  length-replicate, ne→==_false,
}
use fvploader.Container.HashTable.{
  HashValue, Entry, Table, reset_hash, initial_table_size, lookup_element, place, re_add,
  increase_capacity, add_element,
}
use fvploader.Container.HashTable.Probe.{key_at, slot}
use fvploader.Container.HashTable.Insert.{Placed, place-Placed}
use fvploader.Container.HashTable.Probed.{
  count_valid, key_at-eq, key_at_past, slot_cases, IsProbed, way_to, lookup_element_present,
  lookup_element_absent,
}

module _ {ℓ} {V : Type ℓ} where
  -- what the entries say of a key, the last one first, over an earlier answer
  pub stored : ℕ → List (Entry V) → Option V → Option V
  stored k [] before = before
  stored k (e ∷ es) before = stored k es (if k == e.hash.key then some e.element else before)

  stored_absent :
      (k : ℕ) (es : List (Entry V)) (before : Option V)
      → ((j : ℕ) → key_at es j ≢ k)
      → stored k es before ≡ before
  unfolding stored
  stored_absent k [] before a = refl
  stored_absent k (e ∷ es) before a =
      rw (ne→==_false k e.hash.key (λ p. a 0 (sym p))) (stored_absent k es before (λ j. a (suc j)))

  stored_present :
      (k : ℕ) (es : List (Entry V)) (before : Option V) (j : ℕ) (e : Entry V)
      → get_elem? es j ≡ some e
      → e.hash.key ≡ k
      → ((i : ℕ) → i ≢ j → key_at es i ≢ k)
      → stored k es before ≡ some e.element
  unfolding stored
  stored_present k [] before j e get same a = cc
  stored_present k (x ∷ es) before zero e get same a =
      rw
        (stored_absent k es (if k == x.hash.key then some x.element else before)
          (λ i. a (suc i) (omega arith)))
        (ground arith)
  stored_present k (x ∷ es) before (suc j) e get same a =
      stored_present k es _ j e get same (λ i ne. a (suc i) (omega arith))

  -- No two slots hold one key.
  pub key_at_unique :
      {home : ℕ → ℕ} {es : List (Entry V)} {n : ℕ}
      → IsProbed home es n
      → (i j k : ℕ) → k ≢ 0
      → key_at es i ≡ k
      → key_at es j ≡ k
      → i ≡ j
  key_at_unique {es} {n} inv i j k nz hi hj =
      let (c, w, there) = way_to inv i k hi nz (inside i hi) in
      let (d, s, here) = way_to inv j k hj nz (inside j hj) in
      elim (dec_lt c d) [
        | yes p ↦ absurd ((s.busy c p).1 (rw there hi))
        | no np ↦ elim (dec_lt d c) [
          | yes p ↦ absurd ((w.busy d p).1 (rw here hj))
          | no nq ↦ let e : c ≡ d = omega arith in sym there ∙ ap (slot n _) e ∙ here
        ]
      ]
    where
      inside : (i : ℕ) → key_at es i ≡ k → i < n
      inside i h = elim (dec_lt i n) [
        | yes p ↦ p
        | no p ↦ absurd (nz (sym h ∙ key_at_past es i (omega (arith, inv.width))))
      ]

  -- The entries of a table, replayed over nothing, say what its lookup says.
  pub stored-lookup :
      {home : ℕ → ℕ} (t : Table V)
      → IsProbed home t.entries t.table_size
      → (q : HashValue) → q.key ≢ 0
      → q.index ≡ home q.key
      → stored q.key t.entries none ≡ lookup_element t q
  stored-lookup {home} t inv q nz hq = elim (slot_cases t.entries q.key nz) [
    | inl (j, e, get, same) ↦
        stored_present q.key t.entries none j e get same
          (λ i ne h. ne (key_at_unique inv i j q.key nz h ((key_at-eq t.entries j e get).1 ∙ same)))
        ∙ sym (lookup_element_present home t inv q nz hq j e get same)
    | inr a ↦
        stored_absent q.key t.entries none a ∙ sym (lookup_element_absent home t inv q nz hq a)
  ]

  -- A table of free slots.
  pub key_at-replicate :
      (n : ℕ) (blank : V) (j : ℕ)
      → key_at (replicate n (record { hash = reset_hash; element = blank })) j ≡ 0
  key_at-replicate zero blank j = refl
  key_at-replicate (suc n) blank zero = refl
  key_at-replicate (suc n) blank (suc j) = key_at-replicate n blank j

  pub count_valid-replicate :
      (n : ℕ) (blank : V)
      → count_valid (replicate n (record { hash = reset_hash; element = blank })) ≡ 0
  count_valid-replicate zero blank = refl
  count_valid-replicate (suc n) blank = omega (arith, count_valid-replicate n blank)

  -- The representation invariant: entries in place, counted, and at most three quarters full.
  pub record IsValid (home : ℕ → ℕ) (t : Table V) : Type ℓ where
    pub probed : IsProbed home t.entries t.table_size
    pub counted : count_valid t.entries ≤ t.table_used_size
    pub load : t.table_used_size ≤ t.table_size * 3 / 4
    pub sized : (t.table_size ≡ 0) ⊎ (initial_table_size ≤ t.table_size)

  pub replicate-IsProbed :
      (home : ℕ → ℕ) (n : ℕ) (blank : V)
      → IsProbed home (replicate n (record { hash = reset_hash; element = blank })) n
  replicate-IsProbed home n blank = record {
    width = length-replicate n _;
    homes = λ j e get ne. absurd (
        ne (
          sym (key_at-eq (replicate n (record { hash = reset_hash; element = blank })) j e get).1
          ∙ key_at-replicate n blank j));
    reached = λ j lt ne. absurd (ne (key_at-replicate n blank j));
  }

  -- A valid table has a free slot whenever it is below its load.
  pub room_below_load :
      (t : Table V)
      → count_valid t.entries ≤ t.table_used_size
      → t.table_used_size < t.table_size * 3 / 4
      → count_valid t.entries < t.table_size
  room_below_load t c l = omega arith

  module _ (alloc : ℕ → Bool) (get_table_size : ℕ → Option ℕ) (blank : V) (home : ℕ → ℕ) where
    -- Below the load `AddElement` writes into the table as it is.
    pub add_element_below :
        (depth : ℕ) (t : Table V) (h : HashValue) (v : V)
        → t.table_used_size < t.table_size * 3 / 4
        → add_element alloc get_table_size blank (suc depth) t h v ≡ place t h v
    unfolding add_element increase_capacity
    add_element_below depth t h v l = ground arith

    -- What the loop over the old entries leaves.
    pub record ReAdded (es : List (Entry V)) (t t' : Table V) : Type ℓ where
      pub probed : IsProbed home t'.entries t'.table_size
      pub size : t'.table_size ≡ t.table_size
      pub used : t'.table_used_size ≡ t.table_used_size + count_valid es
      pub counted : count_valid t'.entries ≤ t'.table_used_size
      pub reads :
          (q : HashValue)
          → q.key ≢ 0
          → q.index ≡ home q.key
          → lookup_element t' q ≡ stored q.key es (lookup_element t q)

    ReAdded-free :
        (e : Entry V) (es : List (Entry V)) (t t' : Table V)
        → e.hash.key ≡ 0
        → ReAdded es t t'
        → ReAdded (e ∷ es) t t'
    unfolding stored
    ReAdded-free e es t t' z r = record {
      probed = r.probed;
      size = r.size;
      used = ground arith;
      counted = r.counted;
      reads = λ q nz hq. rw (ne→==_false q.key e.hash.key (λ p. nz (p ∙ z))) (r.reads q nz hq);
    }

    ReAdded-cons :
        (e : Entry V) (es : List (Entry V)) (t u t' : Table V)
        → e.hash.key ≢ 0
        → Placed home t e.hash e.element u
        → ReAdded es u t'
        → ReAdded (e ∷ es) t t'
    unfolding stored
    ReAdded-cons e es t u t' nz w r = record {
      probed = r.probed;
      size = r.size ∙ w.size;
      used = ground (arith, w.used, r.used);
      counted = r.counted;
      reads = λ q nzq hq. r.reads q nzq hq ∙ ap (stored q.key es) (w.reads q nzq hq);
    }

    re_add_free :
        (add : Table V → HashValue → V → Option (Table V)) (e : Entry V) (es : List (Entry V))
        (t : Table V)
        → e.hash.key ≡ 0
        → re_add add (e ∷ es) t ≡ re_add add es t
    unfolding re_add
    re_add_free add e es t z = ground arith

    re_add_cons :
        (add : Table V → HashValue → V → Option (Table V)) (e : Entry V) (es : List (Entry V))
        (t u : Table V)
        → e.hash.key ≢ 0
        → add t e.hash e.element ≡ some u
        → re_add add (e ∷ es) t ≡ re_add add es u
    unfolding re_add
    re_add_cons add e es t u nz h = ground arith

    abbrev pub HaveHomes : List (Entry V) → Type ℓ
    HaveHomes es =
        (j : ℕ) (e : Entry V)
        → get_elem? es j ≡ some e
        → e.hash.key ≢ 0
        → e.hash.index ≡ home e.hash.key

    abbrev pub add_one : Table V → HashValue → V → Option (Table V)
    add_one = add_element alloc get_table_size blank 1

    pub re_add_lem :
        (es : List (Entry V)) (t : Table V)
        → IsProbed home t.entries t.table_size
        → count_valid t.entries ≤ t.table_used_size
        → t.table_used_size + count_valid es ≤ t.table_size * 3 / 4
        → HaveHomes es
        → (t' : Table V) × (re_add add_one es t ≡ some t') × ReAdded es t t'
    unfolding re_add stored
    re_add_lem [] t inv counted load homes = (
      t,
      refl,
      record {
        probed = inv;
        size = refl;
        used = omega arith;
        counted = counted;
        reads = λ q nz hq. refl;
      },
    )
    re_add_lem (e ∷ es) t inv counted load homes = elim (ℕ_discrete e.hash.key 0) [
      | yes p ↦
          let (t', run, r) = re_add_lem es t inv counted (ground arith) (λ j. homes (suc j)) in
          (t', re_add_free add_one e es t p ∙ run, ReAdded-free e es t t' p r)
      | no p ↦
          let below : t.table_used_size < t.table_size * 3 / 4 = ground arith in
          let (u, wrote, w) =
            place-Placed t inv (room_below_load t counted below) e.hash p (homes 0 e refl p)
              e.element in
          let (t', run, r) =
            re_add_lem es u (probed_after t u w) (omega (arith, w.count, w.used))
              (load_after t u w p load) (λ j. homes (suc j)) in
          (
            t',
            re_add_cons add_one e es t u p (add_element_below 0 t e.hash e.element below ∙ wrote)
                ∙ run,
            ReAdded-cons e es t u t' p w r,
          )
    ]
      where
        probed_after :
            (t u : Table V)
            → Placed home t e.hash e.element u
            → IsProbed home u.entries u.table_size
        probed_after t u w = rw w.size w.probed

        load_after :
            (t u : Table V)
            → Placed home t e.hash e.element u
            → e.hash.key ≢ 0
            → t.table_used_size + count_valid (e ∷ es) ≤ t.table_size * 3 / 4
            → u.table_used_size + count_valid es ≤ u.table_size * 3 / 4
        load_after t u w nz load = ground (arith, w.used, w.size)
