-- ===== src/Message.antt =====
-- `parse_message`, which is the same in firmware/esp32/main/json_parser.c and
-- firmware/pico/src/json_parser.c: a JSON text becomes a call of the display or of the updater.
pub mod Laws
pub mod Answer
use textreaderrpi.Common.{ℕ, List, [], Option, none, some, Bool, false, if◌then◌else◌}
use textreaderrpi.Common.Int.{ℤ, pos}
use textreaderrpi.Common.Text.{codes, same_text}
use textreaderrpi.Machine.{M, Trace, pure, emit, lift, ◌>>◌, ◌>>=◌}

-- What `cJSON_GetObjectItemCaseSensitive` gives for a key: a string, a number, or neither, an
-- absent item included.
pub data Item (Double : Type 0) : Type 0 where
  string : (valuestring : List ℕ) → Item Double
  number : (valuedouble : Double) → Item Double
  other : Item Double

-- cJSON: `cJSON_Parse` fails with `none`; `to_int` is the C conversion of a `double` to `int`, which
-- is undefined where the value does not fit.
pub record Json : Type 1 where
  pub Root : Type 0
  pub Double : Type 0
  pub parse : List ℕ → Option Root
  pub get_item : Root → List ℕ → Item Double
  pub to_int : Double → Option ℤ

-- `cJSON_IsString(cmd) && strcmp(cmd->valuestring, "ota") == 0`
unfoldable pub is_ota : {Double : Type 0} → Item Double → Bool
is_ota (Item.string v) = same_text v (codes "ota")
is_ota (Item.number d) = false
is_ota Item.other = false

-- `cJSON_IsString(item) ? item->valuestring : fallback`
unfoldable pub text_or : {Double : Type 0} → Item Double → List ℕ → List ℕ
text_or (Item.string v) fallback = v
text_or (Item.number d) fallback = fallback
text_or Item.other fallback = fallback

module _ (json : Json) where
  open json use {Root, Double, parse, get_item, to_int}

  -- `cJSON_IsNumber(item) ? (int)item->valuedouble : fallback`
  unfoldable pub int_or : Item Double → ℤ → M ℤ
  int_or (Item.string v) fallback = pure fallback
  int_or (Item.number d) fallback = lift (to_int d)
  int_or Item.other fallback = pure fallback

  -- The driver's state, `display_text`, and what `ota_trigger` does.
  module _ {S : Type 0} (display : S → List ℕ → List ℕ → ℤ → ℤ → ℤ → M S)
      (ota_trigger : Trace) where
    unfoldable pub show_fields : Root → S → M S
    show_fields root s = do
      speed ← int_or (get_item root (codes "speed")) (pos 50)
      blink_period ← int_or (get_item root (codes "blinkPeriod")) (pos 500)
      fade_steps ← int_or (get_item root (codes "fadeSteps")) (pos 8)
      display s (text_or (get_item root (codes "text")) [])
          (text_or (get_item root (codes "effect")) (codes "SCROLL")) speed blink_period fade_steps

    unfoldable pub on_root : Option Root → S → M S
    on_root none s = pure s
    on_root (some root) s =
        if is_ota (get_item root (codes "command"))
        then (emit ota_trigger >> pure s)
        else show_fields root s

    unfoldable pub parse_message : List ℕ → S → M S
    parse_message data_text s = on_root (parse data_text) s
