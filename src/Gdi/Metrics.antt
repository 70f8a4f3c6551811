-- ===== src/Gdi/Metrics.antt =====
-- The text metrics of source/FVPKernel/Gdi32Hook.cpp and FVPKernel.h: what the cache holds, and
-- `ConvertUnicodeTextMetricToAnsi`.
use fvploader.Prelude.{ℕ, Bool, false, ◌==◌, ltb, if◌then◌else◌, ◌%◌}

-- `TEXTMETRICA` and `TEXTMETRICW`, which differ in the width of four characters
pub record TextMetrics : Type 0 where
  pub height : ℕ
  pub ascent : ℕ
  pub descent : ℕ
  pub internal_leading : ℕ
  pub external_leading : ℕ
  pub ave_char_width : ℕ
  pub max_char_width : ℕ
  pub weight : ℕ
  pub overhang : ℕ
  pub digitized_aspect_x : ℕ
  pub digitized_aspect_y : ℕ
  pub first_char : ℕ
  pub last_char : ℕ
  pub default_char : ℕ
  pub break_char : ℕ
  pub italic : ℕ
  pub underlined : ℕ
  pub struck_out : ℕ
  pub pitch_and_family : ℕ
  pub metrics_char_set : ℕ

-- `ConvertUnicodeTextMetricToAnsi`; the cast to a byte cuts the two characters that it does not bound.
unfoldable pub convert_unicode_text_metric_to_ansi : TextMetrics → TextMetrics
convert_unicode_text_metric_to_ansi w = record w {
  first_char = w.struck_out;
  last_char = if ltb 0xFF w.last_char then 0xFF else w.last_char;
  default_char = w.default_char % 256;
  break_char = w.break_char % 256;
}

-- `TEXT_METRIC_INTERNAL`
pub record TextMetricInternal : Type 0 where
  pub magic : ℕ
  pub filled : Bool
  pub text_metric_a : TextMetrics
  pub text_metric_w : TextMetrics

-- `TAG4('TMIN')`
abbrev pub tag_tmin : ℕ
tag_tmin = 0x4E494D54

-- The constructor; it leaves the metrics as the memory is.
abbrev pub new_text_metric : TextMetrics → TextMetrics → TextMetricInternal
new_text_metric a w = record {
  magic = tag_tmin;
  filled = false;
  text_metric_a = a;
  text_metric_w = w;
}

-- `VerifyMagic`
abbrev pub verify_magic : TextMetricInternal → Bool
verify_magic m = m.magic == tag_tmin
