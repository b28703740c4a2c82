-- ===== src/Esp32/Ota.antt =====
-- firmware/esp32/main/ota.c: the answer to the `ota` command.
use textreaderrpi.Common.{[]}
use textreaderrpi.Machine.{Trace}

-- It writes a line to the log, and does nothing else.
abbrev pub ota_trigger : Trace
ota_trigger = []
