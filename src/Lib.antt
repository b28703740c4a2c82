-- ===== src/Lib.antt =====
-- Verification library of the TextReader firmware: the programs under firmware/ that run on an
-- ESP32 or a Pico, receive texts over a WebSocket and show them on one of several displays.
--
-- The program's parts. Each board has one driver compiled in, which implements `display_init`,
-- `display_clear` and `display_text(text, effect, speed_ms, blink_period_ms, fade_steps)`. The network
-- client hands every message to `display_text`, which blocks until the effect is over. Without
-- credentials the board opens an access point whose portal asks for them: a DNS task sends every
-- name to the board, and a form handler decodes and saves what the user typed.
--
-- Conventions. A byte is a number below 256, a C string the list of its bytes before the NUL. An
-- array is a list, and an access outside it gives `none` (Memory). A driver's operation has the type
-- `M A` of Machine: `none` is undefined behaviour, else the result comes with the trace of its bus
-- transfers, pin writes, waits and set-up calls, in order. A wait records the milliseconds that the
-- code asks for; rounding to ticks and the time that transfers take are not modelled. The loops are
-- recursion on the number of rounds left, computed from the loop's own test, so no bound or fuel
-- is chosen; only the wait for the e-paper's BUSY pin depends on the world, and runs on a fuel that the
-- theorems compare with the pin's readings. A conversion to ticks that wraps at 2 ^ 32, for a
-- `blink_period_ms` of many hours on the MAX7219 of the ESP32, is not modelled either. A negative
-- `int` is a `ℤ`: it occurs in the parameters, which are positive once clamped, and in the position of
-- a text that has moved left of a panel.
--
--   Common, Common/*     names of the library, lists, the `int` of C, string literals
--   Memory               loads, stores and copies with their bounds
--   Machine              actions, traces and the monad of the drivers
--   Font                 firmware/common/font/font5x8.h and the lookup in it
--   Bitmap               `build_text_bitmap` (firmware/*/driver/*.c), with its specification in Spec
--   Driver               the clamping, the loops and the reversed copy that drivers share; Script composes
--                        operations that carry out a list of items
--   Max7219              firmware/esp32/main/driver/max7219.c and firmware/pico/src/driver/max7219.c, one
--                        program over the number of devices and the transfer. Spec says what is sent,
--                        from the columns of the text alone; Laws, Registers, Timing and Overflow
--                        are about it
--   Oled                 ssd1306.c, ssd1309.c and sh1106.c of both boards, one program over a `Panel`
--                        (how a command and a page are sent); Spec, Laws and Timing likewise
--   Ht16k33              ht16k33.c of both boards; Char draws a glyph, Spec and Laws likewise
--   Pcd8544              pcd8544.c of both boards; Row has its arrays, Spec and Laws likewise
--   Tft                  ili9225.c, st7735.c and st7789.c of both boards, one program over the size of the panel,
--                        its `fill_rect` and the actions with which BLINK hides and shows the text.
--                        Draw has `draw_char` and `render_text`, Picture the text pixel by pixel; Spec,
--                        Laws and Timing likewise
--   Pixels, Raster       the colours that rectangles leave, and the loops that draw a text's pixels into a
--                        frame buffer; Dots has its pixels, Surface what a frame buffer must offer
--   Ssd1680              ssd1680.c of both boards over the readings of the BUSY pin; Frame has the frame
--                        buffer, Busy the wait, Spec the script of each effect, Laws the proofs
--   Ssd1327              ssd1327.c of both boards; Frame has the frame buffer, Spec the script of each effect,
--                        Runs and Laws the proofs
--   Message              json_parser.c, which both boards share; Answer says what a message asks for
--   Esp32/*, Pico/*      the two boards: pins, bus calls and set-up of each driver, the instances of
--                        the programs above; Esp32/Portal and Esp32/Wifi, the portal and the start of
--                        the network in firmware/esp32/main/captive_portal.c; Esp32/Client, ws_client.c;
--                        Esp32/Main and Esp32/Ota, main.c and ota.c; Pico/Credentials, the form handler, the polling
--                        loop, the write to flash and the start-up of firmware/pico/src/captive_portal.c
--                        and main.c; Pico/Client, firmware/pico/src/ws_client.c, with the course of a
--                        connection in Course; and Pico/Main and Pico/Ota, main.c and ota.c
--   Tests/*              runs on concrete inputs, one for each theorem with conditions
--
-- Parameters. `num_devices`, `transmit`, `Panel` and `write` are arguments of the shared programs; the
-- files of the boards fill them. The bus, pin and timer calls of ESP-IDF and the Pico SDK are actions
-- of the trace and are taken to succeed, as the code takes them. `httpd_req_recv` and `recvfrom` are the
-- arguments of the two handlers. On the Pico `mg_match` and `mg_http_get_var` are functions, and the
-- flash is a record of its three operations, of which the restart's theorems assume that an erased
-- sector that is programmed reads back; on the ESP32 the NVS library is such a record. cJSON is a
-- record of a parser, a lookup and the conversion of numbers. A message's memory on the ESP32 is the list of
-- bytes up to the end of the client library's buffer. The loop that polls and the events of the
-- station are explicit lists of events.
--
-- Not modelled: the start of the access points and of the web servers, the pages, the client libraries'
-- configuration, and the network stack's set-up, which are calls into ESP-IDF, mongoose and the SDK with
-- constant arguments; the server names of the two config.h, which only the platform reads;
-- firmware/pico/lib/mongoose, a copy of another project; and the server under src/main/kotlin, which is
-- another program in another language. The answer of the ESP32's form handler, and the half second and
-- the restart after it, are collapsed into the outcome `saved`; `go_on` ends where the Pico's portal
-- begins, which Pico/Credentials/Serving goes on with.
--
-- The parameters `blink_period_ms` and `fade_steps` are read by the MAX7219 driver only. The other drivers
-- ignore them, so their programs here have no such parameters, and their specifications say what the
-- code does, which is not what the effects tables of the two README.md say: BLINK takes its pace from
-- the speed, FADE has a fixed number of steps, and on the SSD1327 and the SSD1680 REVERSE is a still
-- frame.

pub mod Common
pub mod Memory
pub mod Machine
pub mod Font
pub mod Bitmap
pub mod Driver
pub mod Message
pub mod Max7219
pub mod Oled
pub mod Ht16k33
pub mod Pcd8544
pub mod Esp32
pub mod Pico
pub mod Tests
pub mod Pixels
pub mod Raster
pub mod Ssd1680
pub mod Ssd1327
pub mod Tft
