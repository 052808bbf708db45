-- ===== src/Device/Primitive.antt =====
-- The SATA primitives of bench/cpp/satasim.h.
use wbsata.Common.{ℕ}

abbrev pub align_p : ℕ
align_p = 0xBC4A4A7B

abbrev pub sync_p : ℕ
sync_p = 0x7C95B5B5

abbrev pub xrdy_p : ℕ
xrdy_p = 0x7CB55757

abbrev pub rrdy_p : ℕ
rrdy_p = 0x7C954A4A

abbrev pub ok_p : ℕ
ok_p = 0x7CB53535

abbrev pub err_p : ℕ
err_p = 0x7CB55656

abbrev pub wtrm_p : ℕ
wtrm_p = 0x7CB55858

abbrev pub sof_p : ℕ
sof_p = 0x7CB53737

abbrev pub eof_p : ℕ
eof_p = 0x7CB5D5D5

abbrev pub r_ip_p : ℕ
r_ip_p = 0x7CB55555
