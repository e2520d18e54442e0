-- ===== src/Graphics/Panel.antt =====
-- The panel of src/lcd/er-tft371-1.h, which is 240 pixels wide and 960 high.
use lcdpico_34401a.Common.{ℕ}

abbrev pub lcd_width : ℕ
lcd_width = 240

abbrev pub lcd_height : ℕ
lcd_height = 960

abbrev pub lcd_vbpd : ℕ
lcd_vbpd = 11

abbrev pub lcd_vfpd : ℕ
lcd_vfpd = 5

abbrev pub lcd_vspw : ℕ
lcd_vspw = 5

abbrev pub lcd_hbpd : ℕ
lcd_hbpd = 128

abbrev pub lcd_hfpd : ℕ
lcd_hfpd = 5

abbrev pub lcd_hspw : ℕ
lcd_hspw = 5
