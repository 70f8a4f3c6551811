-- ===== src/Tests/Stock.antt =====
-- Stock fonts whose handles are 100 and more.
use fvploader.Prelude.{ℕ, ◌+◌, ◌≡◌, refl, false, Option, none, some, [], arith}
use fvploader.Gdi.StockFonts.{
  StockState, LogFont, get_font_from_font, fill_stock, initialize_stock, le_get_stock_object,
  le_delete_object,
}
use fvploader.Gdi.StockFonts.Kept.{le_get_stock_object-le_delete_object}

abbrev system_stock : ℕ → ℕ
system_stock i = 100 + i

-- Every handle is that of a font; the state of GDI is the number of fonts that were made.
abbrev some_object : ℕ → ℕ → Option LogFont
some_object font w = some (record { other = []; char_set = 0 })

abbrev next_font : LogFont → ℕ → ℕ × ℕ
next_font lf w = (1000 + w, w + 1)

abbrev new_stock : StockState
new_stock = record { stock_object_initialized = false; stock_object = λ _. 0 }

abbrev filled_stock : StockState
filled_stock = (initialize_stock system_stock some_object next_font new_stock 0).0

system_font :
    le_get_stock_object system_stock some_object next_font 13 new_stock 0
    ≡ some (1005, filled_stock, 7)
unfolding le_get_stock_object initialize_stock fill_stock get_font_from_font
system_font = refl

own_font : filled_stock.stock_object 13 ≡ 1005
unfolding initialize_stock fill_stock get_font_from_font
own_font = refl

le_get_stock_object-le_delete_object_example :
    (1005 ≡ filled_stock.stock_object 13)
    × (le_get_stock_object system_stock some_object next_font 13 filled_stock 9
        ≡ some (1005, filled_stock, 9))
    × (le_delete_object 1005 filled_stock ≡ false)
le_get_stock_object-le_delete_object_example =
    le_get_stock_object-le_delete_object system_stock some_object next_font 13 new_stock
      filled_stock 0 7 9 1005 (omega arith) system_font (λ e. ground (arith, own_font))

-- The number behind the last is read in the array.
behind_the_array : le_get_stock_object system_stock some_object next_font 20 new_stock 0 ≡ none
unfolding le_get_stock_object
behind_the_array = refl
