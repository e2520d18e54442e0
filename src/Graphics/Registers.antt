-- ===== src/Graphics/Registers.antt =====
-- The numbers of the LT7680's registers, from src/lt7680.h. A word takes its number and the next.
use lcdpico_34401a.Common.{ℕ}

abbrev pub srr_reg : ℕ
srr_reg = 0

abbrev pub ccr_reg : ℕ
ccr_reg = 1

abbrev pub macr_reg : ℕ
macr_reg = 2

abbrev pub icr_reg : ℕ
icr_reg = 3

abbrev pub plllc1_reg : ℕ
plllc1_reg = 5

abbrev pub plllc2_reg : ℕ
plllc2_reg = 6

abbrev pub mpllc1_reg : ℕ
mpllc1_reg = 7

abbrev pub mpllc2_reg : ℕ
mpllc2_reg = 8

abbrev pub cpllc1_reg : ℕ
cpllc1_reg = 9

abbrev pub cpllc2_reg : ℕ
cpllc2_reg = 10

abbrev pub mpwctr_reg : ℕ
mpwctr_reg = 16

abbrev pub dpcr_reg : ℕ
dpcr_reg = 18

abbrev pub pcsr_reg : ℕ
pcsr_reg = 19

abbrev pub hdwr_reg : ℕ
hdwr_reg = 20

abbrev pub hdwrftr_reg : ℕ
hdwrftr_reg = 21

abbrev pub hndr_reg : ℕ
hndr_reg = 22

abbrev pub hndrftr_reg : ℕ
hndrftr_reg = 23

abbrev pub hstr_reg : ℕ
hstr_reg = 24

abbrev pub hpwr_reg : ℕ
hpwr_reg = 25

abbrev pub vhdr_reg : ℕ
vhdr_reg = 26

abbrev pub vndr_reg : ℕ
vndr_reg = 28

abbrev pub vstr_reg : ℕ
vstr_reg = 30

abbrev pub vpwr_reg : ℕ
vpwr_reg = 31

abbrev pub misa_reg : ℕ
misa_reg = 32

abbrev pub miw_reg : ℕ
miw_reg = 36

abbrev pub mwulx_reg : ℕ
mwulx_reg = 38

abbrev pub mwuly_reg : ℕ
mwuly_reg = 40

abbrev pub cvssa_reg : ℕ
cvssa_reg = 80

abbrev pub cvsimwth_reg : ℕ
cvsimwth_reg = 84

abbrev pub awulx_reg : ℕ
awulx_reg = 86

abbrev pub awuly_reg : ℕ
awuly_reg = 88

abbrev pub awwth_reg : ℕ
awwth_reg = 90

abbrev pub awht_reg : ℕ
awht_reg = 92

abbrev pub aw_color_reg : ℕ
aw_color_reg = 94

abbrev pub curh_reg : ℕ
curh_reg = 95

abbrev pub curv_reg : ℕ
curv_reg = 97

abbrev pub f_curx_reg : ℕ
f_curx_reg = 99

abbrev pub f_cury_reg : ℕ
f_cury_reg = 101

abbrev pub dlhsr_reg : ℕ
dlhsr_reg = 104

abbrev pub dlvsr_reg : ℕ
dlvsr_reg = 106

abbrev pub dlher_reg : ℕ
dlher_reg = 108

abbrev pub dlver_reg : ℕ
dlver_reg = 110

abbrev pub dtph_reg : ℕ
dtph_reg = 112

abbrev pub dtpv_reg : ℕ
dtpv_reg = 114

abbrev pub dcr1_reg : ℕ
dcr1_reg = 118

abbrev pub blt_ctrl0_reg : ℕ
blt_ctrl0_reg = 144

abbrev pub blt_ctrl1_reg : ℕ
blt_ctrl1_reg = 145

abbrev pub blt_colr_reg : ℕ
blt_colr_reg = 146

abbrev pub s0_str_reg : ℕ
s0_str_reg = 147

abbrev pub s0_wth_reg : ℕ
s0_wth_reg = 151

abbrev pub s0_x_reg : ℕ
s0_x_reg = 153

abbrev pub s0_y_reg : ℕ
s0_y_reg = 155

abbrev pub s1_str_reg : ℕ
s1_str_reg = 157

abbrev pub s1_wth_reg : ℕ
s1_wth_reg = 161

abbrev pub s1_x_reg : ℕ
s1_x_reg = 163

abbrev pub s1_y_reg : ℕ
s1_y_reg = 165

abbrev pub dt_str_reg : ℕ
dt_str_reg = 167

abbrev pub dt_wth_reg : ℕ
dt_wth_reg = 171

abbrev pub dt_x_reg : ℕ
dt_x_reg = 173

abbrev pub dt_y_reg : ℕ
dt_y_reg = 175

abbrev pub blt_wth_reg : ℕ
blt_wth_reg = 177

abbrev pub blt_hig_reg : ℕ
blt_hig_reg = 179

abbrev pub fgcr_reg : ℕ
fgcr_reg = 210

abbrev pub fgcg_reg : ℕ
fgcg_reg = 211

abbrev pub fgcb_reg : ℕ
fgcb_reg = 212

abbrev pub bgcr_reg : ℕ
bgcr_reg = 213

abbrev pub bgcg_reg : ℕ
bgcg_reg = 214

abbrev pub bgcb_reg : ℕ
bgcb_reg = 215

abbrev pub sdrar_reg : ℕ
sdrar_reg = 224

abbrev pub sdrmd_reg : ℕ
sdrmd_reg = 225

abbrev pub sdrref_reg : ℕ
sdrref_reg = 226

abbrev pub sdrcr_reg : ℕ
sdrcr_reg = 228
