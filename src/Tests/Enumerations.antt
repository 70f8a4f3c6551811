-- ===== src/Tests/Enumerations.antt =====
-- Fonts that are enumerated over a small GDI: it has room for one more font.
use fvploader.Prelude.{
  ℕ, ◌+◌, ◌%◌, drop, ◌≡◌, ◌≢◌, refl, Bool, true, false, ◌==◌, ◌||◌, if◌then◌else◌, Option, none,
  some, List, [], ◌∷◌, ◌++◌, take, replicate, arith, inl, inr,
}
use fvploader.Container.HashTable.{Table, new_table}
use fvploader.Container.HashTable.Add.{new_table-IsValid}
use fvploader.Gdi.NameTable.{name_found, get_name_record}
use fvploader.Gdi.FontNames.{
  FontStatus, font_success, object_name_not_found, EnumLogFont, vertical, matches_face,
  adjust_names,
}
use fvploader.Text.Compare.{compare_loop, differs, cleared, order_of, converted}
use fvploader.Gdi.FontNames.Localized.{IsText, adjust_names-IsText}
use fvploader.Gdi.Metrics.{TextMetrics, TextMetricInternal, new_text_metric}
use fvploader.Gdi.Enumeration.{
  Gdi, HookEnv, adjust_font_data, cache_key, adjusted_charset, get_text_metric_from_cache, left_out,
  called, le_enum_font_callback_w,
}
use fvploader.Gdi.Enumeration.Released.{GdiLaws, IsSameGdi, adjust_font_data-released}
use fvploader.Gdi.Enumeration.Remembered.{
  IsCachable, le_enum_font_callback_w-refused, le_enum_font_callback_w-adjusted,
}

-- The fonts 1 and 2: which exist, and which of them is selected.
data World : Type 0 where
  only_first only_second both_first both_second : World

abbrev world_chosen : World → ℕ
world_chosen only_first = 1
world_chosen both_first = 1
world_chosen _ = 2

abbrev world_fonts : World → ℕ → Bool
world_fonts only_first h = h == 1
world_fonts only_second h = h == 2
world_fonts _ h = h == 1 || h == 2

abbrev create_font : World → ℕ × World
create_font only_first = (2, both_first)
create_font only_second = (1, both_second)
create_font w = (0, w)

abbrev select_font : ℕ → World → ℕ × World
select_font f both_first =
    if f == 1 then (1, both_first) else if f == 2 then (1, both_second) else (0, both_first)
select_font f both_second =
    if f == 1 then (2, both_first) else if f == 2 then (2, both_second) else (0, both_second)
select_font f only_first = if f == 1 then (1, only_first) else (0, only_first)
select_font f only_second = if f == 2 then (2, only_second) else (0, only_second)

abbrev delete_font : ℕ → World → World
delete_font f both_first = if f == 2 then only_first else both_first
delete_font f both_second = if f == 1 then only_second else both_second
delete_font f w = w

abbrev some_metrics : TextMetrics
some_metrics = record {
  height = 16;
  ascent = 12;
  descent = 4;
  internal_leading = 0;
  external_leading = 0;
  ave_char_width = 8;
  max_char_width = 16;
  weight = 400;
  overhang = 0;
  digitized_aspect_x = 96;
  digitized_aspect_y = 96;
  first_char = 32;
  last_char = 255;
  default_char = 31;
  break_char = 32;
  italic = 0;
  underlined = 0;
  struck_out = 0;
  pitch_and_family = 0;
  metrics_char_set = 128;
}

abbrev small_gdi : Option (List ℕ) → Gdi World
small_gdi table = record {
  create_font_indirect = λ lf w. create_font w;
  select_object = select_font;
  delete_object = delete_font;
  font_data_size = λ w. elim table [ none ↦ none | some t ↦ some 64 ];
  font_data = λ n w. elim table [ none ↦ none | some t ↦ some (38, t) ];
  get_text_metrics_a = λ w. some some_metrics;
  get_text_metrics_w = λ w. some some_metrics;
}

small_gdi-GdiLaws : (table : Option (List ℕ)) → GdiLaws (small_gdi table) world_chosen world_fonts
small_gdi-GdiLaws table = record {
  create_selected = λ lf w. ground arith;
  create_exists = λ lf w h nz. ground arith;
  create_new = λ lf w nz. ground arith;
  create_failed = λ lf w h z. ground arith;
  select_result = λ f w nz. ground arith;
  select_failed = λ f w z. ground arith;
  select_back = λ f w nz. ground arith;
  select_exists = λ f w h. ground arith;
  delete_selected = λ f w. ground arith;
  selected_exists = λ w. ground arith;
  delete_exists = λ f w h ne. ground arith;
}

-- Two records in English, the face name "AB" and the full name "AC".
abbrev font_table : List ℕ
font_table =
    0 ∷ 0 ∷ 0 ∷ 2 ∷ 0 ∷ 30 ∷ 0 ∷ 3 ∷ 0 ∷ 1 ∷ 4 ∷ 9 ∷ 0 ∷ 1 ∷ 0 ∷ 4 ∷ 0 ∷ 0 ∷ 0 ∷ 3 ∷ 0 ∷ 1 ∷ 4 ∷ 9
    ∷ 0 ∷ 4 ∷ 0 ∷ 4 ∷ 0 ∷ 4 ∷ 0 ∷ b'A' ∷ 0 ∷ b'B' ∷ 0 ∷ b'A' ∷ 0 ∷ b'C' ∷ []

-- a font of the names "ab"
abbrev font_names : List ℕ
font_names = b'a' ∷ 0 ∷ b'b' ∷ 0 ∷ (replicate 60 0 ++ b'a' ∷ 0 ∷ b'b' ∷ 0 ∷ replicate 252 0)

abbrev small_font : EnumLogFont
small_font = record { other = []; char_set = 0; names = font_names }

names_found :
    (get_name_record font_table 38 0x0100 0x0411 64 ≡ some (name_found 4 (b'A' ∷ b'B' ∷ 0 ∷ [])))
    × (get_name_record font_table 38 0x0400 0x0411 128 ≡ some (name_found 4 (b'A' ∷ b'C' ∷ 0 ∷ [])))
    × (vertical font_names ≡ 0)
unfolding get_name_record vertical
names_found = (refl, refl, refl)

-- a font of the names "@ab", for vertical writing
abbrev vertical_font : EnumLogFont
vertical_font = record {
  other = [];
  char_set = 0;
  names =
      b'@'
      ∷ 0
      ∷ b'a'
      ∷ 0
      ∷ b'b'
      ∷ 0
      ∷ (replicate 58 0 ++ b'@' ∷ 0 ∷ b'a' ∷ 0 ∷ b'b' ∷ 0 ∷ replicate 250 0);
}

vertical_face_matches : matches_face font_table 38 0x0409 vertical_font.names ≡ some true
unfolding matches_face compare_loop differs cleared order_of converted
vertical_face_matches = refl

adjust_names-IsText_example :
    (names' : List ℕ) × (adjust_names font_table 38 0x0409 0x0411 vertical_font
      ≡ some (font_success, record vertical_font { names = names' }))
    × (take 2 names' ≡ take 2 vertical_font.names)
    × IsText (b'A' ∷ b'B' ∷ []) (drop 2 names')
    × IsText (b'A' ∷ b'C' ∷ []) (drop 66 names')
adjust_names-IsText_example =
    adjust_names-IsText font_table 38 0x0409 0x0411 1 (b'A' ∷ b'B' ∷ []) (0 ∷ []) (b'A' ∷ b'C' ∷ [])
      (0 ∷ []) vertical_font (inl (refl, refl)) vertical_face_matches names_found.0 names_found.1
      (omega arith) (omega arith) (omega arith) (omega arith, (omega arith, tt))
      (omega arith, (omega arith, tt))

abbrev local_metric : TextMetricInternal
local_metric = new_text_metric some_metrics some_metrics

abbrev small_env : Option (List ℕ) → HookEnv World
small_env table = record {
  gdi = small_gdi table;
  format_key = λ us cs. take 2 us ++ b'@' ∷ (b'0' + cs % 10) ∷ [];
  calc_table = [];
  alloc = λ n. true;
  get_table_size = λ n. some n;
  blank = local_metric;
  original_locale_id = 0x0409;
  locale_id = 0x0411;
  original_charset = 0;
}

-- the metrics once they are read
abbrev read_metric : TextMetricInternal
read_metric = record local_metric { filled = true }

abbrev refused_run : Option ((FontStatus × EnumLogFont × TextMetricInternal) × World)
refused_run =
    adjust_font_data (small_env none) (record small_font { char_set = 128 }) local_metric only_first

refused_runs :
    refused_run
    ≡ some ((object_name_not_found, record small_font { char_set = 128 }, read_metric), only_first)
unfolding adjust_font_data
refused_runs = refl

adjust_font_data-released_example : IsSameGdi world_chosen world_fonts only_first only_first
adjust_font_data-released_example =
    adjust_font_data-released (small_env none) world_chosen world_fonts (small_gdi-GdiLaws none)
      (record small_font { char_set = 128 }) local_metric only_first
      (object_name_not_found, record small_font { char_set = 128 }, read_metric) only_first
      refused_runs

-- The keys of the font by its own names and by those of the table.
abbrev adjusted_names : List ℕ
adjusted_names = b'A' ∷ 0 ∷ b'B' ∷ 0 ∷ (replicate 60 0 ++ b'A' ∷ 0 ∷ b'C' ∷ 0 ∷ replicate 252 0)

abbrev adjusted_font : ℕ → EnumLogFont
adjusted_font cs = record { other = []; char_set = cs; names = adjusted_names }

abbrev some_env : HookEnv World
some_env = small_env (some font_table)

small_keys :
    (((cache_key (small_env none) small_font).key == 0) ≡ false)
    × (((cache_key some_env small_font).key == 0) ≡ false)
    × (((cache_key some_env (adjusted_font 0)).key == 0) ≡ false)
    × (((cache_key some_env (adjusted_font 0)).key == (cache_key some_env small_font).key) ≡ false)
unfolding cache_key
small_keys = (refl, refl, refl, refl)

-- the indices of two fonts by their keys
abbrev home_of : HookEnv World → EnumLogFont → EnumLogFont → ℕ → ℕ
home_of env lf lf2 key =
    if key == (cache_key env lf).key then (cache_key env lf).index else (cache_key env lf2).index

adjusted_runs :
    adjust_font_data some_env (record small_font { char_set = 128 }) local_metric only_first
    ≡ some ((font_success, adjusted_font 128, read_metric), only_first)
unfolding adjust_font_data compare_loop differs cleared order_of converted
adjusted_runs = refl

no_cache :
    (env : HookEnv World) (lf : EnumLogFont) → get_text_metric_from_cache env lf new_table ≡ none
unfolding get_text_metric_from_cache new_table
no_cache env lf = refl

charset_of : (env : HookEnv World) → adjusted_charset env 1 0 ≡ 128
unfolding adjusted_charset
charset_of env = refl

adjusted_by :
    (env : HookEnv World) (r : Option ((FontStatus × EnumLogFont × TextMetricInternal) × World))
    → adjust_font_data env (record small_font { char_set = 128 }) local_metric only_first ≡ r
    → adjust_font_data env
        (record small_font { char_set = adjusted_charset env 1 0 })
        local_metric
        only_first
      ≡ r
adjusted_by env r run = rw (charset_of env) run

empty-IsCachable :
    (table : Option (List ℕ)) (home : ℕ → ℕ) (lf : EnumLogFont)
    → (cache_key (small_env table) lf).key ≢ 0
    → (cache_key (small_env table) lf).index ≡ home (cache_key (small_env table) lf).key
    → IsCachable (small_env table) home lf new_table
unfolding new_table
empty-IsCachable table home lf nz hq =
    (new_table-IsValid home, nz, hq, inr (521, refl, omega arith, refl))

le_enum_font_callback_w-refused_example :
    (cache' : Table TextMetricInternal) × (le_enum_font_callback_w
        (small_env none)
        1
        local_metric
        small_font
        some_metrics
        new_table
        only_first
      ≡ some (left_out, cache', only_first))
    × ((wanted2 : ℕ) (local2 : TextMetricInternal) (tm2 : TextMetrics)
          (cache2 : Table TextMetricInternal) (w2 : World)
        → get_text_metric_from_cache (small_env none) small_font cache2
          ≡ get_text_metric_from_cache (small_env none) small_font cache'
        → le_enum_font_callback_w (small_env none) wanted2 local2 small_font tm2 cache2 w2
          ≡ some (left_out, cache2, w2))
    × ((q : EnumLogFont)
        → (cache_key (small_env none) q).key ≢ 0
        → (cache_key (small_env none) q).index
          ≡ home_of (small_env none) small_font small_font (cache_key (small_env none) q).key
        → (cache_key (small_env none) q).key ≢ (cache_key (small_env none) small_font).key
        → get_text_metric_from_cache (small_env none) q cache'
          ≡ get_text_metric_from_cache (small_env none) q new_table)
le_enum_font_callback_w-refused_example =
    le_enum_font_callback_w-refused (small_env none) 1
      (home_of (small_env none) small_font small_font) local_metric small_font some_metrics
      new_table only_first object_name_not_found (record small_font { char_set = 128 }) read_metric
      only_first
      (empty-IsCachable none (home_of (small_env none) small_font small_font) small_font
        (ground (arith, small_keys.0)) (ground arith))
      (no_cache (small_env none) small_font) (adjusted_by (small_env none) _ refused_runs) refl

le_enum_font_callback_w-adjusted_example :
    (cache' : Table TextMetricInternal) × (le_enum_font_callback_w some_env 1 local_metric
        small_font some_metrics new_table only_first
      ≡ some (called (adjusted_font 128) read_metric, cache', only_first))
    × (cache_key some_env small_font ≡ cache_key some_env (adjusted_font 0)
        → (wanted2 : ℕ) (local2 : TextMetricInternal) (tm2 : TextMetrics)
          (cache2 : Table TextMetricInternal) (w2 : World)
        → get_text_metric_from_cache some_env small_font cache2
          ≡ get_text_metric_from_cache some_env small_font cache'
        → le_enum_font_callback_w some_env wanted2 local2 small_font tm2 cache2 w2
          ≡ some (
            called small_font (record local2 {
              text_metric_a = some_metrics;
              text_metric_w = some_metrics;
              filled = true;
            }),
            cache2,
            w2,
          ))
    × ((cache_key some_env small_font).key ≢ (cache_key some_env (adjusted_font 0)).key
        → get_text_metric_from_cache some_env small_font cache' ≡ none)
le_enum_font_callback_w-adjusted_example =
    le_enum_font_callback_w-adjusted some_env 1 (home_of some_env small_font (adjusted_font 0))
      local_metric small_font some_metrics new_table only_first font_success (adjusted_font 128)
      read_metric only_first
      (empty-IsCachable (some font_table) (home_of some_env small_font (adjusted_font 0)) small_font
        (ground (arith, small_keys.1)) (ground arith))
      (empty-IsCachable (some font_table) (home_of some_env small_font (adjusted_font 0))
        (adjusted_font 0) (ground (arith, small_keys.2)) (ground (arith, small_keys.3)))
      (no_cache some_env small_font) (adjusted_by some_env _ adjusted_runs) refl refl refl
