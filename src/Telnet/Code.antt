-- ===== src/Telnet/Code.antt =====
-- hc/core/hc/telnet.h: the codes of telnet.
use hc.Base.{ℕ}

abbrev pub se : ℕ
se = 240

abbrev pub nop : ℕ
nop = 241

abbrev pub go_ahead : ℕ
go_ahead = 249

abbrev pub sb : ℕ
sb = 250

abbrev pub will : ℕ
will = 251

abbrev pub do_it : ℕ
do_it = 253

abbrev pub dont : ℕ
dont = 254

abbrev pub iac : ℕ
iac = 255

abbrev pub opt_echo : ℕ
opt_echo = 1

abbrev pub opt_sga : ℕ
opt_sga = 3

abbrev pub opt_naws : ℕ
opt_naws = 31
