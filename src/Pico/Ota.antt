-- ===== src/Pico/Ota.antt =====
-- firmware/pico/src/ota.c: the answer to the `ota` command.
use textreaderrpi.Common.{Bool, true, [], ◌∷◌, if◌then◌else◌}
use textreaderrpi.Machine.{Trace, Setup, setup}

-- `picowota_reboot(true)` where the boot loader is part of the build, or else a plain reboot.
unfoldable pub ota_trigger : (picowota_available : Bool) → Trace
ota_trigger picowota_available =
    setup (if picowota_available then Setup.picowota_reboot true else Setup.watchdog_reboot 10) ∷ []
