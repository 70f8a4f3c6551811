-- ===== src/Gdi/Enumeration/Remembered.antt =====
-- What the cache of text metrics does to later enumerations.
use fvploader.Prelude.{
  ℕ, ◌*◌, ◌/◌, ◌<◌, ◌≡◌, ◌≢◌, refl, sym, ap, subst, ◌∙◌, ◌⊎◌, true, false, Option, none, some, List,
  arith,
}
use fvploader.Container.HashTable.{Table, lookup_element}
use fvploader.Container.HashTable.Resize.{IsValid}
use fvploader.Container.HashTable.Add.{CanGrow, add_element-Added}
use fvploader.Gdi.FontNames.{FontStatus, EnumLogFont, adjust_names, localize}
use fvploader.Gdi.Metrics.{TextMetrics, TextMetricInternal, verify_magic}
use fvploader.Gdi.Enumeration.{
  HookEnv, left_out, called, is_refused, adjust_font_data, adjust_font_data_internal, cache_key,
  get_text_metric_from_cache, add_text_metric_to_cache, adjusted_charset, report_font,
  le_enum_font_callback_w,
}

-- `LeEnumFontCallbackW` leaves fonts out only before it looks for names of the language.
localize_kept :
    (table : List ℕ) (size locale_id : ℕ) (names : List ℕ) (s : FontStatus) (names' : List ℕ)
    → localize table size locale_id names ≡ some (s, names')
    → is_refused s ≡ false
unfolding localize
localize_kept table size locale_id names s names' run = ground arith

adjust_names_refused :
    (table : List ℕ) (size original locale_id : ℕ) (lf : EnumLogFont) (s : FontStatus)
    (lf' : EnumLogFont)
    → adjust_names table size original locale_id lf ≡ some (s, lf')
    → is_refused s ≡ true
    → lf' ≡ lf
unfolding adjust_names
adjust_names_refused table size original locale_id lf s lf' run refused =
    ground (arith, localize_kept table size locale_id lf.names s)

module _ {ℓ} {W : Type ℓ} (env : HookEnv W) where
  internal_refused :
      (lf : EnumLogFont) (w : W) (s : FontStatus) (lf' : EnumLogFont)
      → adjust_font_data_internal env lf w ≡ some (s, lf')
      → is_refused s ≡ true
      → lf' ≡ lf
  unfolding adjust_font_data_internal
  internal_refused lf w s lf' run refused = grind (arith, adjust_names_refused)

  -- A font that is left out keeps its names.
  adjust_refused :
      (lf : EnumLogFont) (m : TextMetricInternal) (w : W) (s : FontStatus) (lf' : EnumLogFont)
      (m' : TextMetricInternal) (w' : W)
      → adjust_font_data env lf m w ≡ some ((s, lf', m'), w')
      → is_refused s ≡ true
      → lf' ≡ lf
  unfolding adjust_font_data
  adjust_refused lf m w s lf' m' w' run refused = grind (arith, internal_refused)

  -- What a key has to be for the cache, and what room the cache has to have.
  abbrev pub IsCachable : (ℕ → ℕ) → EnumLogFont → Table TextMetricInternal → Type 0
  IsCachable home lf cache =
      IsValid home cache
      × ((cache_key env lf).key ≢ 0)
      × ((cache_key env lf).index ≡ home (cache_key env lf).key)
      × ((cache.table_used_size < cache.table_size * 3 / 4)
          ⊎ CanGrow env.alloc env.get_table_size env.blank home cache)

  -- What is added is found again, and nothing else changes.
  record Cached (home : ℕ → ℕ) (lf : EnumLogFont) (m : TextMetricInternal)
      (cache cache' : Table TextMetricInternal) : Type 0 where
    valid : IsValid home cache'
    found : get_text_metric_from_cache env lf cache' ≡ some m
    kept :
        (q : EnumLogFont)
        → (cache_key env q).key ≢ 0
        → (cache_key env q).index ≡ home (cache_key env q).key
        → (cache_key env q).key ≢ (cache_key env lf).key
        → get_text_metric_from_cache env q cache' ≡ get_text_metric_from_cache env q cache

  add_text_metric_to_cache-Cached :
      (home : ℕ → ℕ) (lf : EnumLogFont) (m : TextMetricInternal) (cache : Table TextMetricInternal)
      → IsCachable home lf cache
      → (cache' : Table TextMetricInternal) × (add_text_metric_to_cache env lf m cache
          ≡ some cache')
        × Cached home lf m cache cache'
  unfolding add_text_metric_to_cache get_text_metric_from_cache
  add_text_metric_to_cache-Cached home lf m cache (valid, nz, hq, room) =
      let (cache', run, a) =
        add_element-Added env.alloc env.get_table_size env.blank home cache valid (cache_key env lf)
          m nz hq room in
      (
        cache',
        run,
        record {
          valid = a.valid;
          found = ground (arith, a.reads (cache_key env lf) nz hq);
          kept = λ q nzq hqq ne. ground (arith, a.reads (cache_key env q) nzq hqq);
        },
      )

  -- The cache reads keys alone.
  same_key :
      (cache : Table TextMetricInternal) (lf lf2 : EnumLogFont) {o : Option TextMetricInternal}
      → cache_key env lf ≡ cache_key env lf2
      → get_text_metric_from_cache env lf2 cache ≡ o
      → get_text_metric_from_cache env lf cache ≡ o
  unfolding get_text_metric_from_cache
  same_key cache lf lf2 e found = ap (lookup_element cache) e ∙ found

module _ {ℓ} {W : Type ℓ} (env : HookEnv W) (wanted : ℕ) where
  -- A font whose metrics in the cache have no magic is left out.
  left_out_again :
      (local : TextMetricInternal) (lf : EnumLogFont) (tm : TextMetrics)
      (cache : Table TextMetricInternal) (w : W) (m : TextMetricInternal)
      → get_text_metric_from_cache env lf cache ≡ some m
      → verify_magic m ≡ false
      → le_enum_font_callback_w env wanted local lf tm cache w ≡ some (left_out, cache, w)
  unfolding le_enum_font_callback_w
  left_out_again local lf tm cache w m found bad = ground arith

  -- A font with metrics in the cache is reported with the names and the character set of GDI.
  called_again :
      (local : TextMetricInternal) (lf : EnumLogFont) (tm : TextMetrics)
      (cache : Table TextMetricInternal) (w : W) (m : TextMetricInternal)
      → get_text_metric_from_cache env lf cache ≡ some m
      → verify_magic m ≡ true
      → m.filled ≡ true
      → le_enum_font_callback_w env wanted local lf tm cache w
        ≡ some (
          called lf (record local {
            text_metric_a = m.text_metric_a;
            text_metric_w = m.text_metric_w;
            filled = true;
          }),
          cache,
          w,
        )
  unfolding le_enum_font_callback_w report_font
  called_again local lf tm cache w m found good filled = ground arith

module _ {ℓ} {W : Type ℓ} (env : HookEnv W) (wanted : ℕ) where
  -- A font that is not in the cache, and that `AdjustFontData` refuses, is left out and put into the
  -- cache. Every enumeration of this font, with any character set wanted, for which the cache holds what
  -- was put there, leaves it out without a call of GDI or a change of the cache; and fonts of other
  -- keys are in the cache as before. The hashes of the keys are such that the cache can hold them, and the
  -- cache is valid and has room.
  pub le_enum_font_callback_w-refused :
      (home : ℕ → ℕ) (local : TextMetricInternal) (lf : EnumLogFont) (tm : TextMetrics)
      (cache : Table TextMetricInternal) (w : W) (s : FontStatus) (lf2 : EnumLogFont)
      (m : TextMetricInternal) (w' : W)
      → IsCachable env home lf cache
      → get_text_metric_from_cache env lf cache ≡ none
      → adjust_font_data env
          (record lf { char_set = adjusted_charset env wanted lf.char_set })
          local
          w
        ≡ some ((s, lf2, m), w')
      → is_refused s ≡ true
      → (cache' : Table TextMetricInternal) × (le_enum_font_callback_w env wanted local lf tm cache
            w
          ≡ some (left_out, cache', w'))
        × ((wanted2 : ℕ) (local2 : TextMetricInternal) (tm2 : TextMetrics)
              (cache2 : Table TextMetricInternal) (w2 : W)
            → get_text_metric_from_cache env lf cache2 ≡ get_text_metric_from_cache env lf cache'
            → le_enum_font_callback_w env wanted2 local2 lf tm2 cache2 w2
              ≡ some (left_out, cache2, w2))
        × ((q : EnumLogFont)
            → (cache_key env q).key ≢ 0
            → (cache_key env q).index ≡ home (cache_key env q).key
            → (cache_key env q).key ≢ (cache_key env lf).key
            → get_text_metric_from_cache env q cache' ≡ get_text_metric_from_cache env q cache)
  unfolding le_enum_font_callback_w
  le_enum_font_callback_w-refused home local lf tm cache w s lf2 m w' ok missing run refused =
      let lf1 : EnumLogFont = record lf { char_set = adjusted_charset env wanted lf.char_set } in
      let kept : lf2 ≡ lf1 = adjust_refused env lf1 local w s lf2 m w' run refused in
      let (cache', added, c) =
        add_text_metric_to_cache-Cached env home lf (record m { magic = 0 }) cache ok in
      let captured : EnumLogFont = record lf2 { char_set = lf.char_set } in
      let same : captured ≡ lf =
        ap (λ (l : EnumLogFont). record l { char_set = lf.char_set }) kept in
      let added2 : add_text_metric_to_cache env captured (record m { magic = 0 }) cache
          ≡ some cache' =
        subst (λ l. add_text_metric_to_cache env l (record m { magic = 0 }) cache ≡ some cache')
          (sym same) added in
      (
        cache',
        ground arith,
        λ wanted2 local2 tm2 cache2 w2 still.
            left_out_again env wanted2 local2 lf tm2 cache2 w2 (record m { magic = 0 })
              (still ∙ c.found) refl,
        c.kept,
      )

  -- What a font is in the cache under, once it is adjusted.
  abbrev pub captured : EnumLogFont → EnumLogFont → EnumLogFont
  captured lf lf2 = record lf2 { char_set = lf.char_set }

  -- An adjusted font whose metrics were read is reported with its adjusted names and character set
  -- the first time. If its adjusted full name has the hash of its own full name, every
  -- enumeration of this font, with any character set wanted, for which the cache holds what was put there
  -- reports it with the names and the character set of GDI and the metrics of the cache; if the hashes differ, the cache does not hold the font afterwards either. The font is not in the
  -- cache before, both hashes are such that the cache can hold them, and it is valid and has room.
  pub le_enum_font_callback_w-adjusted :
      (home : ℕ → ℕ) (local : TextMetricInternal) (lf : EnumLogFont) (tm : TextMetrics)
      (cache : Table TextMetricInternal) (w : W) (s : FontStatus) (lf2 : EnumLogFont)
      (m : TextMetricInternal) (w' : W)
      → IsCachable env home lf cache
      → IsCachable env home (captured lf lf2) cache
      → get_text_metric_from_cache env lf cache ≡ none
      → adjust_font_data env
          (record lf { char_set = adjusted_charset env wanted lf.char_set })
          local
          w
        ≡ some ((s, lf2, m), w')
      → is_refused s ≡ false
      → verify_magic m ≡ true
      → m.filled ≡ true
      → (cache' : Table TextMetricInternal) × (le_enum_font_callback_w env wanted local lf tm cache
            w
          ≡ some (called lf2 m, cache', w'))
        × (cache_key env lf ≡ cache_key env (captured lf lf2)
            → (wanted2 : ℕ) (local2 : TextMetricInternal) (tm2 : TextMetrics)
              (cache2 : Table TextMetricInternal) (w2 : W)
            → get_text_metric_from_cache env lf cache2 ≡ get_text_metric_from_cache env lf cache'
            → le_enum_font_callback_w env wanted2 local2 lf tm2 cache2 w2
              ≡ some (
                called lf (record local2 {
                  text_metric_a = m.text_metric_a;
                  text_metric_w = m.text_metric_w;
                  filled = true;
                }),
                cache2,
                w2,
              ))
        × ((cache_key env lf).key ≢ (cache_key env (captured lf lf2)).key
            → get_text_metric_from_cache env lf cache' ≡ none)
  unfolding le_enum_font_callback_w report_font
  le_enum_font_callback_w-adjusted home local lf tm cache w s lf2 m w' (v, nz, hq, room) ok missing
        run kept good filled =
      let (cache', added, c) =
        add_text_metric_to_cache-Cached env home (captured lf lf2) m cache ok in
      (
        cache',
        ground arith,
        λ e wanted2 local2 tm2 cache2 w2 still.
            called_again env wanted2 local2 lf tm2 cache2 w2 m
              (still ∙ same_key env cache' lf (captured lf lf2) e c.found) good filled,
        λ ne. c.kept lf nz hq ne ∙ missing,
      )
