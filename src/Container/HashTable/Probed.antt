-- ===== src/Container/HashTable/Probed.antt =====
-- `LookupElement` in a `HashTableT` from which nothing was removed.
use fvploader.Prelude.{
  ℕ, zero, suc, ◌+◌, ◌%◌, ◌≤◌, ◌<◌, ◌≡◌, ◌≢◌, refl, sym, ap, subst, ◌∙◌, ◌⊎◌, inl, inr, false,
  if◌then◌else◌, none, some, List, [], ◌∷◌, get_elem?, set, length, arith, ℕ_discrete,
}
use fvploader.Container.HashTable.{HashValue, Entry, Table, valid, lookup_entry, lookup_element}
use fvploader.Container.HashTable.Probe.{key_at, slot, StopsAt, probe_found, probe_absent}

module _ {ℓ} {V : Type ℓ} where
  -- how many slots are taken
  abbrev pub count_valid : List (Entry V) → ℕ
  count_valid [] = 0
  count_valid (e ∷ es) = (if valid e.hash then 1 else 0) + count_valid es

  pub key_at-eq :
      (es : List (Entry V)) (j : ℕ) (e : Entry V)
      → get_elem? es j ≡ some e
      → (j < length es) × (key_at es j ≡ e.hash.key)
  key_at-eq [] j e h = cc
  key_at-eq (x ∷ es) zero e h = ground arith
  key_at-eq (x ∷ es) (suc j) e h = let r = key_at-eq es j e h in (omega arith, r.1)

  pub key_at_past : (es : List (Entry V)) (j : ℕ) → length es ≤ j → key_at es j ≡ 0
  key_at_past [] j h = refl
  key_at_past (x ∷ es) zero h = absurd (omega arith)
  key_at_past (x ∷ es) (suc j) h = key_at_past es j (omega arith)

  pub key_at-set_self :
      (es : List (Entry V)) (i : ℕ) (e : Entry V)
      → i < length es
      → key_at (set es i e) i ≡ e.hash.key
  key_at-set_self [] i e h = absurd (omega arith)
  key_at-set_self (x ∷ es) zero e h = refl
  key_at-set_self (x ∷ es) (suc i) e h = key_at-set_self es i e (omega arith)

  pub key_at-set_ne :
      (es : List (Entry V)) (i j : ℕ) (e : Entry V) → i ≢ j → key_at (set es i e) j ≡ key_at es j
  key_at-set_ne [] i j e h = refl
  key_at-set_ne (x ∷ es) zero zero e h = absurd (h refl)
  key_at-set_ne (x ∷ es) zero (suc j) e h = refl
  key_at-set_ne (x ∷ es) (suc i) zero e h = refl
  key_at-set_ne (x ∷ es) (suc i) (suc j) e h = key_at-set_ne es i j e (λ q. h (ap suc q))

  pub count_valid-set :
      (es : List (Entry V)) (i : ℕ) (e : Entry V) → count_valid (set es i e) ≤ count_valid es + 1
  count_valid-set [] i e = omega arith
  count_valid-set (x ∷ es) zero e = ground arith
  count_valid-set (x ∷ es) (suc i) e = ground (arith, count_valid-set es i e)

  -- A table that is not full has a free slot.
  pub free_slot :
      (es : List (Entry V))
      → count_valid es < length es
      → (j : ℕ) × (j < length es) × (key_at es j ≡ 0)
  free_slot [] h = absurd (omega arith)
  free_slot (x ∷ es) h = elim (ℕ_discrete x.hash.key 0) [
    | yes p ↦ (0, omega arith, p)
    | no p ↦ let (j, lt, e) = free_slot es (ground arith) in (suc j, omega arith, e)
  ]

  -- A key is in some slot or in none.
  pub slot_cases :
      (es : List (Entry V)) (k : ℕ)
      → k ≢ 0
      → ((j : ℕ) × (e : Entry V) × (get_elem? es j ≡ some e) × (e.hash.key ≡ k))
        ⊎ ((j : ℕ) → key_at es j ≢ k)
  slot_cases [] k h = inr (λ j e. h (sym e))
  slot_cases (x ∷ es) k h = elim (ℕ_discrete x.hash.key k) [
    | yes p ↦ inl (0, x, refl, p)
    | no p ↦ elim (slot_cases es k h) [
      | inl (j, e, q, r) ↦ inl (suc j, e, q, r)
      | inr a ↦ inr (elim [ zero ↦ p | suc j ↦ a j ])
    ]
  ]

  -- Every entry is on the way from its home, with no free slot and no equal key before it.
  -- `home` is the index that belongs to a key.
  pub record IsProbed (home : ℕ → ℕ) (es : List (Entry V)) (n : ℕ) : Type ℓ where
    pub width : length es ≡ n
    pub homes :
        (j : ℕ) (e : Entry V)
        → get_elem? es j ≡ some e
        → e.hash.key ≢ 0
        → e.hash.index ≡ home e.hash.key
    pub reached :
        (j : ℕ)
        → j < n
        → key_at es j ≢ 0
        → (d : ℕ) × StopsAt es n (home (key_at es j) % n) (key_at es j) d
          × (slot n (home (key_at es j) % n) d ≡ j)

  -- the way to the slot `j` of the key `k`
  pub way_to :
      {home : ℕ → ℕ} {es : List (Entry V)} {n : ℕ}
      → IsProbed home es n
      → (j k : ℕ) → key_at es j ≡ k
      → k ≢ 0
      → j < n
      → (d : ℕ) × StopsAt es n (home k % n) k d × (slot n (home k % n) d ≡ j)
  way_to {home} {es} {n} inv j k e ne lt =
      subst (λ (q : ℕ). (d : ℕ) × StopsAt es n (home q % n) q d × (slot n (home q % n) d ≡ j)) e
        (inv.reached j lt (λ z. ne (sym e ∙ z)))

  module _ (home : ℕ → ℕ) (t : Table V) (inv : IsProbed home t.entries t.table_size) (h : HashValue)
      (proper : h.key ≢ 0) (at_home : h.index ≡ home h.key) where
    -- A lookup gives the element of the slot that holds the key.
    pub lookup_element_present :
        (j : ℕ) (e : Entry V)
        → get_elem? t.entries j ≡ some e
        → e.hash.key ≡ h.key
        → lookup_element t h ≡ some e.element
    unfolding lookup_element lookup_entry
    lookup_element_present j e q r =
        let (lt, same) = key_at-eq t.entries j e q in
        let (d, s, there) = way_to inv j h.key (same ∙ r) proper (omega (arith, inv.width)) in
        let start : h.index % t.table_size ≡ home h.key % t.table_size =
          ap (λ i. i % t.table_size) at_home in
        ground (
          arith,
          q,
          there,
          start,
          probe_found t.entries t.table_size inv.width (home h.key % t.table_size) h.key
              (omega arith) proper d false s (rw there (same ∙ r)),
        )

    -- A lookup of a key that no slot holds gives nothing.
    pub lookup_element_absent : ((j : ℕ) → key_at t.entries j ≢ h.key) → lookup_element t h ≡ none
    unfolding lookup_element lookup_entry
    lookup_element_absent a = elim (ℕ_discrete t.table_size 0) [
      | yes p ↦ ground arith
      | no p ↦ ground (
        arith,
        probe_absent t.entries t.table_size inv.width (h.index % t.table_size) h.key (omega arith)
            proper a,
      )
    ]
