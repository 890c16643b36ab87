-- ===== src/Telegram/TgSize.antt =====
-- `tg_size` of Project/libsmoke/libs/sknx/src/shared/knx/telegram.h
use lib_smoke.Base.{ℕ}

abbrev pub max : ℕ
max = 22

abbrev pub hdr : ℕ
hdr = 6

abbrev pub payload : ℕ
payload = 15
