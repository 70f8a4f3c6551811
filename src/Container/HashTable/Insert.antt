-- ===== src/Container/HashTable/Insert.antt =====
-- The write of `AddElement` in a `HashTableT` from which nothing was removed.
use fvploader.Prelude.{
  ℕ, ◌+◌, ◌%◌, ◌≤◌, ◌<◌, ◌≡◌, ◌≢◌, refl, sym, ap, ◌∙◌, inl, inr, true, ◌==◌, if◌then◌else◌, some,
  List, get_elem?, set, length, arith, ℕ_discrete, dec_lt, length-set, get_elem?-set_self,
  get_elem?-set_ne, ==_iff, ne→==_false,
}
use fvploader.Container.HashTable.{HashValue, Entry, Table, lookup_entry, lookup_element, place}
use fvploader.Container.HashTable.Probe.{
  key_at, slot, slot-lt, slot_onto, slot-injective, IsBusy, StopsAt, search-IsBusy, probe_found,
  probe_free,
}
use fvploader.Container.HashTable.Probed.{
  count_valid, key_at-eq, key_at-set_self, key_at-set_ne, count_valid-set, free_slot, slot_cases,
  IsProbed, way_to, lookup_element_present, lookup_element_absent,
}

module _ {ℓ} {V : Type ℓ} where
  -- What `AddElement` leaves where it wrote `v` under `h` into `t`.
  pub record Placed (home : ℕ → ℕ) (t : Table V) (h : HashValue) (v : V) (t' : Table V)
      : Type ℓ where
    pub probed : IsProbed home t'.entries t.table_size
    pub size : t'.table_size ≡ t.table_size
    pub used : t'.table_used_size ≡ t.table_used_size + 1
    pub count : count_valid t'.entries ≤ count_valid t.entries + 1
    pub reads :
        (q : HashValue)
        → q.key ≢ 0
        → q.index ≡ home q.key
        → lookup_element t' q ≡ (if q.key == h.key then some v else lookup_element t q)

  module _ {home : ℕ → ℕ} {es : List (Entry V)} {n : ℕ} (inv : IsProbed home es n) (h : HashValue)
      (proper : h.key ≢ 0) (at_home : h.index ≡ home h.key) (v : V) (d : ℕ)
      (s : StopsAt es n (home h.key % n) h.key d) (room : 0 < n) where
    target : ℕ
    target = slot n (home h.key % n) d

    written : Entry V
    written = record { hash = h; element = v }

    target-lt : target < length es
    unfolding target
    target-lt =
        let a = slot-lt n (home h.key % n) d (omega arith) s.within in omega (arith, inv.width)

    -- The write changes no slot on the way to another entry into a free one.
    written-IsBusy :
        (start k c : ℕ)
        → k ≢ h.key
        → IsBusy es n start k c
        → IsBusy (set es target written) n start k c
    unfolding written
    written-IsBusy start k c ne b i li = elim (ℕ_discrete target (slot n start i)) [
      | yes p ↦ rw (← p, key_at-set_self es target written target-lt) (proper, λ e. ne (sym e))
      | no p ↦ rw (key_at-set_ne es target (slot n start i) written p) (b i li)
    ]

    -- The entry itself keeps its way.
    target-IsBusy : IsBusy (set es target written) n (home h.key % n) h.key d
    unfolding target
    target-IsBusy i li =
        let b = s.busy i li in
        let ne : target ≢ slot n (home h.key % n) i = λ e. absurd (
          omega (
            arith,
            slot-injective n (home h.key % n) d i (omega arith) s.within (omega (arith, s.within))
                e,
          )) in
        rw (key_at-set_ne es target (slot n (home h.key % n) i) written ne) b

    -- No other slot holds the key that is written.
    only_target : (j : ℕ) → j < n → j ≢ target → key_at es j ≢ h.key
    unfolding target
    only_target j lt ne e =
        let (c, w, there) = way_to inv j h.key e proper lt in
        elim (dec_lt c d) [
          | yes p ↦ (s.busy c p).1 (rw there e)
          | no np ↦ elim (ℕ_discrete c d) [
            | yes p ↦ ne (sym there ∙ ap (slot n (home h.key % n)) p)
            | no nq ↦
                let b = w.busy d (omega arith) in elim s.stop [ inl k ↦ b.1 k | inr z ↦ b.0 z ]
          ]
        ]

    written-IsProbed : IsProbed home (set es target written) n
    unfolding written target
    written-IsProbed = record {
      width = length-set es target written ∙ inv.width;
      homes = λ j e q ne. elim (ℕ_discrete target j) [
        | yes p ↦ ground (arith, get_elem?-set_self es target written target-lt, at_home)
        | no p ↦ inv.homes j e (sym (get_elem?-set_ne es written p) ∙ q) ne
      ];
      reached = λ j lt ne. elim (ℕ_discrete target j) [
        | yes p ↦
            rw (← p, key_at-set_self es target written target-lt)
              (
                d,
                record {
                  within = s.within;
                  stop = inl (key_at-set_self es target written target-lt);
                  busy = target-IsBusy;
                },
                refl,
              )
        | no p ↦
            let same = key_at-set_ne es target j written p in
            let other = only_target j lt (λ e. p (sym e)) in
            let (c, w, there) = inv.reached j lt (rw same at ne) in
            rw same (
              c,
              record {
                within = w.within;
                stop = inl (rw there same);
                busy = written-IsBusy (home (key_at es j) % n) (key_at es j) c other w.busy;
              },
              there,
            )
      ];
    }

  module _ {home : ℕ → ℕ} (t : Table V) (inv : IsProbed home t.entries t.table_size)
      (room : count_valid t.entries < t.table_size) (h : HashValue) (proper : h.key ≢ 0)
      (at_home : h.index ≡ home h.key) where
    -- A table that is not full has a place for every key.
    stop_exists : (d : ℕ) × StopsAt t.entries t.table_size (home h.key % t.table_size) h.key d
    stop_exists =
        let n = t.table_size in
        let start = home h.key % n in
        let (j, lt, free) = free_slot t.entries (omega (arith, inv.width)) in
        let (d, within, there) = slot_onto n start j (omega arith) (omega (arith, inv.width)) in
        elim (search-IsBusy t.entries n start h.key (d + 1) (omega arith)) [
          | inl (c, _, s) ↦ (c, s)
          | inr b ↦ absurd ((b d (omega arith)).0 (rw there free))
        ]

    module _ (v : V) (d : ℕ)
        (s : StopsAt t.entries t.table_size (home h.key % t.table_size) h.key d) where
      spot : ℕ
      spot = slot t.table_size (home h.key % t.table_size) d

      after : Table V
      unfolding spot
      after = record {
        entries = set t.entries spot (record { hash = h; element = v });
        table_size = t.table_size;
        table_used_size = t.table_used_size + 1;
      }

      place-after : place t h v ≡ some after
      unfolding place lookup_entry after spot
      place-after =
          let start : h.index % t.table_size ≡ home h.key % t.table_size =
            ap (λ i. i % t.table_size) at_home in
          elim s.stop [
            | inl k ↦ ground (
              arith,
              start,
              probe_found t.entries t.table_size inv.width (home h.key % t.table_size) h.key
                  (omega arith) proper d true s k,
            )
            | inr z ↦ ground (
              arith,
              start,
              probe_free t.entries t.table_size inv.width (home h.key % t.table_size) h.key
                  (omega arith) proper d true s z,
            )
          ]

      after-IsProbed : IsProbed home after.entries after.table_size
      unfolding after spot written target
      after-IsProbed = written-IsProbed inv h proper at_home v d s (omega arith)

      spot-lt : spot < length t.entries
      unfolding spot target
      spot-lt = target-lt inv h proper at_home v d s (omega arith)

      spot_key : (k : ℕ) → k ≢ 0 → k ≢ h.key → key_at t.entries spot ≢ k
      unfolding spot
      spot_key k nz ne e = elim s.stop [ inl p ↦ ne (sym e ∙ p) | inr p ↦ nz (sym e ∙ p) ]

      -- The slot of another key is not the one that was written.
      written_ne_slot :
          (k j : ℕ) (e : Entry V)
          → get_elem? after.entries j ≡ some e
          → e.hash.key ≡ k
          → k ≢ h.key
          → spot ≢ j
      unfolding after
      written_ne_slot k j e get same ne z = ne (
          sym same
          ∙ sym (key_at-eq (set t.entries spot _) j e get).1
          ∙ rw (← z) (key_at-set_self t.entries spot _ spot-lt))

      -- A key that is nowhere after the write, and is not the written one, was nowhere before.
      absent_before :
          (k : ℕ)
          → k ≢ 0
          → k ≢ h.key
          → ((j : ℕ) → key_at after.entries j ≢ k)
          → (j : ℕ) → key_at t.entries j ≢ k
      unfolding after
      absent_before k nz ne a j = elim (ℕ_discrete spot j) [
        | yes p ↦ rw (← p) (spot_key k nz ne)
        | no p ↦ λ e. a j (key_at-set_ne t.entries spot j _ p ∙ e)
      ]

      after_reads :
          (q : HashValue)
          → q.key ≢ 0
          → q.index ≡ home q.key
          → lookup_element after q ≡ (if q.key == h.key then some v else lookup_element t q)
      unfolding after
      after_reads q nz hq = elim (ℕ_discrete q.key h.key) [
        | yes p ↦ rw ((==_iff q.key h.key).1 p) (
            lookup_element_present home after after-IsProbed q nz hq spot _
              (get_elem?-set_self t.entries spot _ spot-lt) (sym p))
        | no ne ↦ elim (slot_cases after.entries q.key nz) [
          | inl (j, e, get, k) ↦
              let off : spot ≢ j = λ z. written_ne_slot q.key j e get k ne z in
              let old : get_elem? t.entries j ≡ some e =
                sym (get_elem?-set_ne t.entries _ off) ∙ get in
              rw (ne→==_false q.key h.key ne) (
                lookup_element_present home after after-IsProbed q nz hq j e get k
                ∙ sym (lookup_element_present home t inv q nz hq j e old k))
          | inr a ↦ rw (ne→==_false q.key h.key ne) (
              lookup_element_absent home after after-IsProbed q nz hq a
              ∙ sym (lookup_element_absent home t inv q nz hq (absent_before q.key nz ne a)))
        ]
      ]

    -- The write of `AddElement` of a key that is not 0 and has its own index, into a table
    -- with a free slot whose entries are in place, succeeds, leaves the entries in place,
    -- and changes the lookup of that key alone.
    pub place-Placed : (v : V) → (t' : Table V) × (place t h v ≡ some t') × Placed home t h v t'
    unfolding after
    place-Placed v =
        let (d, s) = stop_exists in
        (
          after v d s,
          place-after v d s,
          record {
            probed = after-IsProbed v d s;
            size = refl;
            used = refl;
            count = count_valid-set t.entries (spot v d s) _;
            reads = after_reads v d s;
          },
        )
