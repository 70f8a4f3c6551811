-- ===== src/Container/HashTable/Probe.antt =====
-- The probe sequence of a `HashTableT`: where `LookupEntry` stops.
use fvploader.Prelude.{
  ℕ, zero, suc, ◌+◌, ◌-◌, ◌≤◌, ◌<◌, ◌≡◌, ◌≢◌, refl, sym, ap, ◌∙◌, ◌⊎◌, inl, inr, Bool, false, ◌==◌,
  if◌then◌else◌, leb, none, some, List, [], ◌∷◌, get_elem?, length, arith, dec_lt, ℕ_discrete,
}
use fvploader.Container.HashTable.{Entry, probe, step_index}

module _ {ℓ} {V : Type ℓ} where
  -- the key of a slot; 0 is a free slot
  abbrev pub key_at : List (Entry V) → ℕ → ℕ
  key_at [] i = 0
  key_at (e ∷ es) zero = e.hash.key
  key_at (e ∷ es) (suc i) = key_at es i

  pub get_elem?-key_at :
      (es : List (Entry V)) (i : ℕ)
      → i < length es
      → (e : Entry V) × (get_elem? es i ≡ some e) × (e.hash.key ≡ key_at es i)
  get_elem?-key_at [] i h = absurd (omega arith)
  get_elem?-key_at (e ∷ es) zero h = (e, refl, refl)
  get_elem?-key_at (e ∷ es) (suc i) h = get_elem?-key_at es i (omega arith)

-- `d` steps from `start`, round a table of `n` slots; both below `n`
abbrev pub slot : ℕ → ℕ → ℕ → ℕ
slot n start d = if leb n (start + d) then start + d - n else start + d

pub slot-lt : (n start d : ℕ) → start < n → d < n → slot n start d < n
slot-lt n start d h k = ground arith

pub step_index-slot :
    (n start d : ℕ) → start < n → d < n → step_index n (slot n start d) ≡ slot n start (d + 1)
step_index-slot n start d h k = ground arith

-- a slot before the last step is not the start again
pub slot-ne_start :
    (n start d : ℕ) → start < n → suc d < n → (slot n start (d + 1) == start) ≡ false
slot-ne_start n start d h k = ground arith

-- every slot is on the way
pub slot_onto : (n start j : ℕ) → start < n → j < n → (d : ℕ) × (d < n) × (slot n start d ≡ j)
slot_onto n start j h k = elim (dec_lt j start) [
  | yes p ↦ (j + n - start, omega arith, ground arith)
  | no p ↦ (j - start, omega arith, ground arith)
]

pub slot-injective :
    (n start c d : ℕ) → start < n → c < n → d < n → slot n start c ≡ slot n start d → c ≡ d
slot-injective n start c d h hc hd e = ground arith

module _ {ℓ} {V : Type ℓ} (es : List (Entry V)) (n : ℕ) where
  -- no slot of the first `d` on the way from `start` is free or holds `key`
  abbrev pub IsBusy : ℕ → ℕ → ℕ → Type 0
  IsBusy start key d =
      (i : ℕ) → i < d → (key_at es (slot n start i) ≢ 0) × (key_at es (slot n start i) ≢ key)

  -- the way from `start` first meets `key` or a free slot after `d` steps
  pub record StopsAt (start key d : ℕ) : Type 0 where
    pub within : d < n
    pub stop : (key_at es (slot n start d) ≡ key) ⊎ (key_at es (slot n start d) ≡ 0)
    pub busy : IsBusy start key d

  -- The way stops within `d` steps, or all `d` slots are busy.
  pub search-IsBusy :
      (start key d : ℕ) → d ≤ n → ((c : ℕ) × (c < d) × StopsAt start key c) ⊎ IsBusy start key d
  search-IsBusy start key zero h = inr (λ i lt. absurd (omega arith))
  search-IsBusy start key (suc d) h = elim (search-IsBusy start key d (omega arith)) [
    | inl (c, lt, s) ↦ inl (c, omega arith, s)
    | inr b ↦ elim (ℕ_discrete (key_at es (slot n start d)) key) [
      | yes p ↦ inl (d, omega arith, record { within = h; stop = inl p; busy = b })
      | no np ↦ elim (ℕ_discrete (key_at es (slot n start d)) 0) [
        | yes q ↦ inl (d, omega arith, record { within = h; stop = inr q; busy = b })
        | no nq ↦
            inr
              (λ i lt. elim (ℕ_discrete i d) [ yes e ↦ rw e (nq, np) | no ne ↦ b i (omega arith) ])
      ]
    ]
  ]

  module _ (wide : length es ≡ n) (start key : ℕ) (inside : start < n) (proper : key ≢ 0) where
    -- One round at a busy slot goes on.
    probe_busy :
        (rounds i : ℕ) (empty : Bool)
        → i < n
        → key_at es i ≢ 0
        → key_at es i ≢ key
        → (step_index n i == start) ≡ false
        → probe (suc rounds) es n key start i empty
          ≡ probe rounds es n key start (step_index n i) empty
    unfolding probe
    probe_busy rounds i empty lt a b c =
        let (e, he, hk) = get_elem?-key_at es i (omega arith) in ground arith

    probe_stop_key :
        (rounds i : ℕ) (empty : Bool)
        → i < n
        → key_at es i ≡ key
        → probe (suc rounds) es n key start i empty ≡ some i
    unfolding probe
    probe_stop_key rounds i empty lt a =
        let (e, he, hk) = get_elem?-key_at es i (omega arith) in ground arith

    probe_stop_free :
        (rounds i : ℕ) (empty : Bool)
        → i < n
        → key_at es i ≡ 0
        → probe (suc rounds) es n key start i empty ≡ (if empty then some i else none)
    unfolding probe
    probe_stop_free rounds i empty lt a =
        let (e, he, hk) = get_elem?-key_at es i (omega arith) in ground arith

    -- The loop comes to the stop, `d` steps from the start, with enough rounds left.
    probe_stops :
        (rounds c d : ℕ) (empty : Bool)
        → StopsAt start key d
        → c + rounds ≡ n
        → c ≤ d
        → probe rounds es n key start (slot n start c) empty
          ≡ probe (n - d) es n key start (slot n start d) empty
    probe_stops zero c d empty s e h = absurd (omega (arith, s.within))
    probe_stops (suc rounds) c d empty s e h = elim (ℕ_discrete c d) [
      | yes p ↦ let q : n - d ≡ suc rounds = omega arith in rw (q, p)
      | no p ↦
          let lt : c < d = omega arith in
          let b = s.busy c lt in
          probe_busy rounds (slot n start c) empty
            (slot-lt n start c inside (omega (arith, s.within))) b.0 b.1
            (rw (step_index-slot n start c inside (omega (arith, s.within)))
              (slot-ne_start n start c inside (omega (arith, s.within))))
          ∙ rw (step_index-slot n start c inside (omega (arith, s.within)))
              (probe_stops rounds (c + 1) d empty s (omega arith) (omega arith))
    ]

    slot-zero : slot n start 0 ≡ start
    slot-zero = ground arith

    probe_reaches :
        (d : ℕ) (empty : Bool)
        → StopsAt start key d
        → probe n es n key start start empty
          ≡ probe (suc (n - d - 1)) es n key start (slot n start d) empty
    probe_reaches d empty s =
        let q : n - d ≡ suc (n - d - 1) = omega (arith, s.within) in
        ap (λ i. probe n es n key start i empty) (sym slot-zero)
        ∙ probe_stops n 0 d empty s (omega arith) (omega arith)
        ∙ ap (λ r. probe r es n key start (slot n start d) empty) q

    -- `LookupEntry` finds the key that the way stops at.
    pub probe_found :
        (d : ℕ) (empty : Bool)
        → StopsAt start key d
        → key_at es (slot n start d) ≡ key
        → probe n es n key start start empty ≡ some (slot n start d)
    probe_found d empty s e =
        probe_reaches d empty s
        ∙ probe_stop_key (n - d - 1) (slot n start d) empty (slot-lt n start d inside s.within) e

    -- `LookupEntry` finds the free slot that the way stops at, if it looks for one.
    pub probe_free :
        (d : ℕ) (empty : Bool)
        → StopsAt start key d
        → key_at es (slot n start d) ≡ 0
        → probe n es n key start start empty ≡ (if empty then some (slot n start d) else none)
    probe_free d empty s e =
        probe_reaches d empty s
        ∙ probe_stop_free (n - d - 1) (slot n start d) empty (slot-lt n start d inside s.within) e

    -- With no slot of this key the loop finds nothing.
    probe_absent_from :
        (rounds i : ℕ)
        → i < n
        → ((j : ℕ) → key_at es j ≢ key)
        → probe rounds es n key start i false ≡ none
    unfolding probe
    probe_absent_from zero i lt a = refl
    probe_absent_from (suc rounds) i lt a =
        let (e, he, hk) = get_elem?-key_at es i (omega arith) in
        let ne = a i in ground (arith, probe_absent_from rounds (step_index n i))

    pub probe_absent : ((j : ℕ) → key_at es j ≢ key) → probe n es n key start start false ≡ none
    probe_absent a = probe_absent_from n start inside a
