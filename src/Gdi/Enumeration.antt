-- ===== src/Gdi/Enumeration.antt =====
-- The enumeration of fonts: `AdjustFontData`, the cache of text metrics, `LeEnumFontCallbackW` and
-- `LeEnumFontCallbackAFromW` of source/FVPKernel/Gdi32Hook.cpp. GDI is a parameter: its calls on a
-- device context, whose state is a `W`.
pub mod Released
pub mod Remembered
use fvploader.Prelude.{
  ℕ, ◌-◌, Bool, true, false, not, ◌==◌, ◌&&◌, leb, if◌then◌else◌, Option, none, some, List, map,
  take, drop, overlay, ◌*◌, [], ◌∷◌,
}
use fvploader.Container.Hash.{hash_string}
use fvploader.Container.HashTable.{HashValue, Table, lookup_element, add_element}
use fvploader.Gdi.FontNames.{
  FontStatus, object_name_not_found, context_mismatch, unsuccessful, EnumLogFont, face_bytes,
  full_bytes, units_of_bytes, adjust_names,
}
use fvploader.Gdi.Metrics.{
  TextMetrics, TextMetricInternal, verify_magic, convert_unicode_text_metric_to_ansi,
}

-- The calls of GDI; a null handle is 0, and the results that are errors are `none`.
pub record Gdi {ℓ} (W : Type ℓ) : Type ℓ where
  -- `CreateFontIndirectBypassW`
  pub create_font_indirect : EnumLogFont → W → ℕ × W
  pub select_object : ℕ → W → ℕ × W
  pub delete_object : ℕ → W → W
  -- `GetFontData` of the table `name`, first for its size, then into a buffer
  pub font_data_size : W → Option ℕ
  pub font_data : ℕ → W → Option (ℕ × List ℕ)
  pub get_text_metrics_a : W → Option TextMetrics
  pub get_text_metrics_w : W → Option TextMetrics

-- What the callbacks take from outside and from `HookKernel`: `wsprintfW` of the key, the hash
-- table's `CalcTable`, its allocations and `GetTableSize`, and a default-constructed element.
pub record HookEnv {ℓ} (W : Type ℓ) : Type ℓ where
  pub gdi : Gdi W
  pub format_key : List ℕ → ℕ → List ℕ
  pub calc_table : List ℕ
  pub alloc : ℕ → Bool
  pub get_table_size : ℕ → Option ℕ
  pub blank : TextMetricInternal
  pub original_locale_id : ℕ
  pub locale_id : ℕ
  pub original_charset : ℕ

abbrev pub ansi_charset : ℕ
ansi_charset = 0

abbrev pub default_charset : ℕ
default_charset = 1

abbrev pub shiftjis_charset : ℕ
shiftjis_charset = 128

-- `CHAR_UPPER`
abbrev pub char_upper : ℕ → ℕ
char_upper ch = if leb b'a' ch && leb ch b'z' then ch - 0x20 else ch

-- `StringUpperW`, of a text of the length that it is given
abbrev pub string_upper_w : List ℕ → List ℕ
string_upper_w text = map char_upper text

-- `GetTextMetricsA(DC, ...) && GetTextMetricsW(DC, ...)`
unfoldable pub fill_metric {ℓ} : {W : Type ℓ} → Gdi W → W → TextMetricInternal → TextMetricInternal
fill_metric gdi w m = elim (gdi.get_text_metrics_a w) [
  | none ↦ m
  | some a ↦ elim (gdi.get_text_metrics_w w) [
    | none ↦ record m { text_metric_a = a }
    | some u ↦ record m { text_metric_a = a; text_metric_w = u; filled = true }
  ]
]

-- whether the callback leaves a font out
abbrev pub is_refused : FontStatus → Bool
is_refused object_name_not_found = true
is_refused context_mismatch = true
is_refused _ = false

abbrev pub is_mismatch : FontStatus → Bool
is_mismatch context_mismatch = true
is_mismatch _ = false

-- what `LeEnumFontCallbackW` does: it returns TRUE, or it calls the application with a font, its
-- metrics and the internal metrics that they are a member of
pub data Outcome : Type 0 where
  left_out : Outcome
  called : EnumLogFont → TextMetricInternal → Outcome

module _ {ℓ} {W : Type ℓ} (env : HookEnv W) where
  -- `AdjustFontDataInternal`; `AdjustData` is zeroed and its `FontType` stays 0, so that the test for
  -- a raster font fails.
  unfoldable pub adjust_font_data_internal : EnumLogFont → W → Option (FontStatus × EnumLogFont)
  unfolding adjust_names
  adjust_font_data_internal lf w = elim (env.gdi.font_data_size w) [
    | none ↦ some (object_name_not_found, lf)
    | some n ↦ elim (env.gdi.font_data n w) [
      | none ↦ some (object_name_not_found, lf)
      | some (table_size, table) ↦
          adjust_names table table_size env.original_locale_id env.locale_id lf
    ]
  ]

  -- `AdjustFontData`, with the font that it selects for the time being
  unfoldable pub adjust_font_data :
      EnumLogFont
      → TextMetricInternal
      → W
      → Option ((FontStatus × EnumLogFont × TextMetricInternal) × W)
  unfolding adjust_font_data_internal fill_metric
  adjust_font_data lf m w =
      let (font, w1) = env.gdi.create_font_indirect lf w in
      let (old, w2) = env.gdi.select_object font w1 in
      if font == 0
      then some ((unsuccessful, lf, m), w1)
      else if old == 0
      then some ((unsuccessful, lf, m), env.gdi.delete_object font w2)
      else elim (adjust_font_data_internal lf w2) [
        | none ↦ none
        | some (status, adjusted) ↦
            let m' = if is_mismatch status then m else fill_metric env.gdi w2 m in
            let (font', w3) = env.gdi.select_object old w2 in
            some ((status, adjusted, m'), env.gdi.delete_object font w3)
      ]

  -- the hash of the key in `GetTextMetricFromCache` and `AddTextMetricToCache`
  unfoldable pub cache_key : EnumLogFont → HashValue
  unfolding units_of_bytes hash_string
  cache_key lf = hash_string env.calc_table (
      string_upper_w
        (env.format_key (units_of_bytes (take full_bytes (drop face_bytes lf.names))) lf.char_set))

  unfoldable pub get_text_metric_from_cache :
      EnumLogFont → Table TextMetricInternal → Option TextMetricInternal
  unfolding cache_key lookup_element
  get_text_metric_from_cache lf cache = lookup_element cache (cache_key lf)

  unfoldable pub add_text_metric_to_cache :
      EnumLogFont
      → TextMetricInternal
      → Table TextMetricInternal
      → Option (Table TextMetricInternal)
  unfolding cache_key add_element
  add_text_metric_to_cache lf m cache =
      add_element env.alloc env.get_table_size env.blank 2 cache (cache_key lf) m

  -- `lfCharSet` that the font is adjusted with
  unfoldable pub adjusted_charset : ℕ → ℕ → ℕ
  adjusted_charset wanted charset =
      if not (wanted == default_charset)
      then charset
      else if not (charset == ansi_charset)
          && (not (charset == default_charset) && not (charset == env.original_charset))
      then charset
      else shiftjis_charset

-- The end of `LeEnumFontCallbackW`: the font and the metrics that the application gets.
unfoldable pub report_font : ℕ → TextMetrics → EnumLogFont → TextMetricInternal → Outcome
report_font log_font_charset text_metric_w lf m =
    if m.filled
    then called lf m
    else called (record lf { char_set = log_font_charset })
        (record m { text_metric_w = text_metric_w; magic = 0 })

module _ {ℓ} {W : Type ℓ} (env : HookEnv W) (wanted : ℕ) where
  -- `LeEnumFontCallbackW`, for `EnumParam->Charset` `wanted`
  unfoldable pub le_enum_font_callback_w :
      TextMetricInternal
      → EnumLogFont
      → TextMetrics
      → Table TextMetricInternal
      → W
      → Option (Outcome × Table TextMetricInternal × W)
  unfolding get_text_metric_from_cache add_text_metric_to_cache adjust_font_data adjusted_charset
      report_font
  le_enum_font_callback_w local lf text_metric_w cache w =
      elim (get_text_metric_from_cache env lf cache) [
        | some cached ↦
            if not (verify_magic cached)
            then some (left_out, cache, w)
            else some (
              report_font lf.char_set text_metric_w lf (
                  if cached.filled
                  then record local {
                    text_metric_a = cached.text_metric_a;
                    text_metric_w = cached.text_metric_w;
                    filled = true;
                  }
                  else local),
              cache,
              w,
            )
        | none ↦
            let lf1 = record lf { char_set = adjusted_charset env wanted lf.char_set } in
            elim (adjust_font_data env lf1 local w) [
              | none ↦ none
              | some ((status, lf2, m), w') ↦
                  let captured = record lf2 { char_set = lf.char_set } in
                  let stored = if is_refused status then record m { magic = 0 } else m in
                  elim (add_text_metric_to_cache env captured stored cache) [
                    | none ↦ none
                    | some cache' ↦
                        if is_refused status
                        then some (left_out, cache', w')
                        else some (report_font lf.char_set text_metric_w lf2 m, cache', w')
                  ]
            ]
      ]

-- `ENUMLOGFONTEXA`, of which the names are bytes
pub record EnumLogFontA : Type 0 where
  pub other_a : List ℕ
  pub char_set_a : ℕ
  pub face_name_a : List ℕ
  pub full_name_a : List ℕ
  pub script_a : List ℕ
  pub style_a : List ℕ

-- `SJISIndentor`
abbrev pub sjis_indentor : List ℕ
sjis_indentor = 0x93 ∷ 0xFA ∷ 0x96 ∷ 0x7B ∷ 0x8C ∷ 0xEA ∷ 0 ∷ []

-- the metrics that `LeEnumFontCallbackAFromW` hands on
unfoldable pub metrics_for_ansi : TextMetricInternal → TextMetrics
unfolding convert_unicode_text_metric_to_ansi
metrics_for_ansi m =
    if not (verify_magic m)
    then convert_unicode_text_metric_to_ansi m.text_metric_w
    else m.text_metric_a

-- `LeEnumFontCallbackAFromW`: what the application gets. `wide_char_to_multi_byte` is the system's
-- conversion of a name into a buffer of so many bytes, for the code page 932.
unfoldable pub le_enum_font_callback_a_from_w :
    (List ℕ → ℕ → List ℕ) → EnumLogFont → TextMetricInternal → EnumLogFontA × TextMetrics
unfolding metrics_for_ansi units_of_bytes
le_enum_font_callback_a_from_w wide_char_to_multi_byte lf m =
    let field : ℕ → ℕ → List ℕ = λ offset size.
      wide_char_to_multi_byte (units_of_bytes (take (size * 2) (drop offset lf.names))) size in
    let script = field 256 32 in
    (
      record {
        other_a = lf.other;
        char_set_a = lf.char_set;
        face_name_a = field 0 32;
        full_name_a = field 64 64;
        script_a = overlay sjis_indentor script;
        style_a = field 192 32;
      },
      metrics_for_ansi m,
    )
