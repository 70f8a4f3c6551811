-- ===== src/Container/HashTable/Remove.antt =====
-- `RemoveElement`: the key that is removed is gone, and keys further along its way are lost.
use fvploader.Prelude.{
  ℕ, ◌%◌, ◌<◌, ◌≡◌, ◌≢◌, sym, ap, ◌∙◌, inl, inr, false, none, some, get_elem?, set, length, arith,
  ℕ_discrete, length-set,
}
use fvploader.Container.HashTable.{
  HashValue, Entry, Table, reset_hash, lookup_entry, lookup_element, remove_element,
}
use fvploader.Container.HashTable.Probe.{
  key_at, slot, slot-injective, StopsAt, probe_found, probe_free, probe_absent,
}
use fvploader.Container.HashTable.Probed.{
  key_at-eq, key_at-set_self, key_at-set_ne, slot_cases, IsProbed, way_to, lookup_element_absent,
}
use fvploader.Container.HashTable.Resize.{key_at_unique}

module _ {ℓ} {V : Type ℓ} (home : ℕ → ℕ) (t : Table V)
    (inv : IsProbed home t.entries t.table_size) where
  -- `LookupEntry` gives the slot of a key that is there.
  lookup_entry_present :
      (h : HashValue) (j : ℕ) (e : Entry V)
      → h.key ≢ 0
      → h.index ≡ home h.key
      → get_elem? t.entries j ≡ some e
      → e.hash.key ≡ h.key
      → lookup_entry t h false ≡ some j
  unfolding lookup_entry
  lookup_entry_present h j e nz hq get same =
      let (lt, k) = key_at-eq t.entries j e get in
      let (d, s, there) = way_to inv j h.key (k ∙ same) nz (omega (arith, inv.width)) in
      let start : h.index % t.table_size ≡ home h.key % t.table_size =
        ap (λ i. i % t.table_size) hq in
      ground (
        arith,
        there,
        start,
        probe_found t.entries t.table_size inv.width (home h.key % t.table_size) h.key (omega arith)
            nz d false s (rw there (k ∙ same)),
      )

  -- The entry that `RemoveElement` leaves in the slot.
  freed : Entry V → Entry V
  freed e = record { hash = reset_hash; element = e.element }

  entries-remove :
      (h : HashValue) (j : ℕ) (e : Entry V)
      → h.key ≢ 0
      → h.index ≡ home h.key
      → get_elem? t.entries j ≡ some e
      → e.hash.key ≡ h.key
      → ((remove_element t h).entries ≡ set t.entries j (freed e))
        × ((remove_element t h).table_size ≡ t.table_size)
  unfolding remove_element freed
  entries-remove h j e nz hq get same =
      ground (arith, lookup_entry_present h j e nz hq get same, get)

  -- A key that no slot holds is not found, whatever the order of the slots.
  lookup_nowhere :
      (u : Table V) (q : HashValue)
      → length u.entries ≡ u.table_size
      → q.key ≢ 0
      → ((j : ℕ) → key_at u.entries j ≢ q.key)
      → lookup_element u q ≡ none
  unfolding lookup_element lookup_entry
  lookup_nowhere u q wide nz a = elim (ℕ_discrete u.table_size 0) [
    | yes p ↦ ground arith
    | no p ↦ ground (
      arith,
      probe_absent u.entries u.table_size wide (q.index % u.table_size) q.key (omega arith) nz a,
    )
  ]

  -- With the slot of the key freed, no slot holds it.
  gone :
      (h : HashValue) (j : ℕ) (e : Entry V)
      → h.key ≢ 0
      → j < length t.entries
      → key_at t.entries j ≡ h.key
      → (i : ℕ) → key_at (set t.entries j (freed e)) i ≢ h.key
  unfolding freed
  gone h j e nz lt k i z = elim (ℕ_discrete j i) [
    | yes p ↦ nz (sym z ∙ rw (← p) (key_at-set_self t.entries j (freed e) lt))
    | no p ↦
        p (key_at_unique inv j i h.key nz k (sym (key_at-set_ne t.entries j i (freed e) p) ∙ z))
  ]

  remove_nowhere :
      (h : HashValue) → h.key ≢ 0 → ((j : ℕ) → key_at t.entries j ≢ h.key) → remove_element t h ≡ t
  unfolding remove_element lookup_entry
  remove_nowhere h nz a = elim (ℕ_discrete t.table_size 0) [
    | yes p ↦ ground arith
    | no p ↦ ground (
      arith,
      probe_absent t.entries t.table_size inv.width (h.index % t.table_size) h.key (omega arith) nz
          a,
    )
  ]

  -- After `RemoveElement` of a key that is not 0 and has its own index, from a table whose
  -- entries are in place, the key is not found.
  pub lookup-remove_self :
      (h : HashValue)
      → h.key ≢ 0
      → h.index ≡ home h.key
      → lookup_element (remove_element t h) h ≡ none
  lookup-remove_self h nz hq = elim (slot_cases t.entries h.key nz) [
    | inl (j, e, get, same) ↦
        let (es, size) = entries-remove h j e nz hq get same in
        let (lt, k) = key_at-eq t.entries j e get in
        lookup_nowhere (remove_element t h) h (rw (es, size, length-set) inv.width) nz
          (λ i. rw es (gone h j e nz lt (k ∙ same) i))
    | inr a ↦ rw (remove_nowhere h nz a) (lookup_element_absent home t inv h nz hq a)
  ]

  -- Up to the freed slot the way of another key is as it was, and stops there.
  freed-StopsAt :
      (q j c d : ℕ) (e : Entry V)
      → j < length t.entries
      → c < d
      → 0 < t.table_size
      → StopsAt t.entries t.table_size (home q % t.table_size) q d
      → slot t.table_size (home q % t.table_size) c ≡ j
      → StopsAt (set t.entries j (freed e)) t.table_size (home q % t.table_size) q c
  unfolding freed
  freed-StopsAt q j c d e lt before room s at = record {
    within = omega (arith, s.within);
    stop = inr (rw at (key_at-set_self t.entries j (freed e) lt));
    busy = λ i li.
        let n = t.table_size in
        let b = s.busy i (omega arith) in
        let off : j ≢ slot n (home q % n) i = λ z. absurd (
          omega (
            arith,
            slot-injective n (home q % n) c i (omega arith) (omega (arith, s.within))
                (omega (arith, s.within)) (at ∙ z),
          )) in
        rw (key_at-set_ne t.entries j (slot n (home q % n) i) (freed e) off) b;
  }

  -- Where the key `h` stands in a slot on the way to another key `q`, in a table whose
  -- entries are in place, removing `h` loses `q`: the lookup stops at the free slot.
  pub lookup-remove_lost :
      (h q : HashValue) (j : ℕ) (e : Entry V) (c d : ℕ)
      → h.key ≢ 0
      → h.index ≡ home h.key
      → q.key ≢ 0
      → q.index ≡ home q.key
      → get_elem? t.entries j ≡ some e
      → e.hash.key ≡ h.key
      → StopsAt t.entries t.table_size (home q.key % t.table_size) q.key d
      → c < d
      → slot t.table_size (home q.key % t.table_size) c ≡ j
      → lookup_element (remove_element t h) q ≡ none
  unfolding lookup_element lookup_entry
  lookup-remove_lost h q j e c d nz hq nzq hqq get same s before at =
      let (es, size) = entries-remove h j e nz hq get same in
      let (lt, k) = key_at-eq t.entries j e get in
      let room : 0 < t.table_size = omega (arith, inv.width) in
      let w = freed-StopsAt q.key j c d e lt before room s at in
      let start : q.index % t.table_size ≡ home q.key % t.table_size =
        ap (λ i. i % t.table_size) hqq in
      ground (
        arith,
        es,
        size,
        start,
        probe_free (set t.entries j (freed e)) t.table_size (rw length-set inv.width)
            (home q.key % t.table_size) q.key (omega arith) nzq c false w
            (rw at (unfold freed in key_at-set_self t.entries j (freed e) lt)),
      )
