-- ===== src/Message/Answer.antt =====
-- What a message of firmware/*/json_parser.c asks a display for.
use textreaderrpi.Common.{
  ℕ, ◌≡◌, ◌≢◌, ◌∙◌, refl, List, [], none, some, false, Bool-cases, inl, inr, ap, append-nil,
}
use textreaderrpi.Common.Int.{ℤ, pos}
use textreaderrpi.Common.Text.{codes, same_text, same_text→≡}
use textreaderrpi.Machine.{M, Trace, after-nil, pure}
use textreaderrpi.Message.{Json, Item, int_or, is_ota, text_or, show_fields, on_root, parse_message}

-- The text that a field stands for: its string, or the default where the message has none there.
pub data TextField {Double : Type 0} : Item Double → (default value : List ℕ) → Type 0 where
  given : (value default : List ℕ) → TextField (Item.string value) default value
  not_a_string : (d : Double) (default : List ℕ) → TextField (Item.number d) default default
  missing : (default : List ℕ) → TextField Item.other default default

-- The number that a field stands for, if it fits into `int`, or the default where the message has none
-- there.
pub data NumberField (json : Json) : Item json.Double → (default value : ℤ) → Type 0 where
  given :
      (d : json.Double) (default value : ℤ)
      → json.to_int d ≡ some value
      → NumberField json (Item.number d) default value
  not_a_number : (v : List ℕ) (default : ℤ) → NumberField json (Item.string v) default default
  missing : (default : ℤ) → NumberField json Item.other default default

-- What the fields of a message ask for.
pub record Wish : Type 0 where
  pub text : List ℕ
  pub effect : List ℕ
  pub speed : ℤ
  pub blink_period : ℤ
  pub fade_steps : ℤ

-- A message that asks for an effect: JSON without the command `ota`, whose numbers fit into `int`. A field
-- that is missing or of another type has its default.
pub record Asks (json : Json) (message : List ℕ) (wish : Wish) : Type 0 where
  pub root : json.Root
  pub parsed : json.parse message ≡ some root
  pub no_ota : json.get_item root (codes "command") ≢ Item.string (codes "ota")
  pub has_text : TextField (json.get_item root (codes "text")) [] wish.text
  pub has_effect : TextField (json.get_item root (codes "effect")) (codes "SCROLL") wish.effect
  pub has_speed : NumberField json (json.get_item root (codes "speed")) (pos 50) wish.speed
  pub has_blink :
      NumberField json (json.get_item root (codes "blinkPeriod")) (pos 500) wish.blink_period
  pub has_fade : NumberField json (json.get_item root (codes "fadeSteps")) (pos 8) wish.fade_steps

-- What a display sends for a text, an effect and the three numbers.
abbrev pub Answer : Type 0
Answer = List ℕ → List ℕ → ℤ → ℤ → ℤ → Trace

-- In every state the display succeeds and sends `answer`.
abbrev pub Follows : {S : Type 0} → (S → List ℕ → List ℕ → ℤ → ℤ → ℤ → M S) → Answer → Type 0
Follows {S} display answer =
    (s : S) (text effect : List ℕ) (speed blink_period fade_steps : ℤ)
    → (s' : S) × (display s text effect speed blink_period fade_steps
        ≡ some (s', answer text effect speed blink_period fade_steps))

-- What is to be sent for a message that is no command: the effect that it asks for, or nothing if it is not
-- JSON.
pub data Replies (json : Json) (answer : Answer) : List ℕ → Trace → Type 0 where
  not_json : (message : List ℕ) → json.parse message ≡ none → Replies json answer message []
  asked :
      (message : List ℕ) (wish : Wish)
      → Asks json message wish
      → Replies json answer message
          (answer wish.text wish.effect wish.speed wish.blink_period wish.fade_steps)

-- What is to be done for any message: the command `ota` has no other effect.
pub data Means (json : Json) (answer : Answer) (ota_trigger : Trace) : List ℕ → Trace → Type 0 where
  replied :
      (message : List ℕ) (t : Trace)
      → Replies json answer message t
      → Means json answer ota_trigger message t
  update :
      (message : List ℕ) (root : json.Root)
      → json.parse message ≡ some root
      → json.get_item root (codes "command") ≡ Item.string (codes "ota")
      → Means json answer ota_trigger message ota_trigger

text_or-TextField :
    {Double : Type 0} (item : Item Double) (default value : List ℕ)
    → TextField item default value
    → text_or item default ≡ value
unfolding text_or
text_or-TextField item default value (given _ _) = refl
text_or-TextField item default value (not_a_string d _) = refl
text_or-TextField item default value (missing _) = refl

int_or-NumberField :
    (json : Json) (item : Item json.Double) (default value : ℤ)
    → NumberField json item default value
    → int_or json item default ≡ pure value
unfolding int_or
int_or-NumberField json item default value (given d _ _ fits) = rw fits refl
int_or-NumberField json item default value (not_a_number v _) = refl
int_or-NumberField json item default value (missing _) = refl

is_ota-false :
    {Double : Type 0} (item : Item Double) → item ≢ Item.string (codes "ota") → is_ota item ≡ false
unfolding is_ota
is_ota-false (Item.string v) other = elim (Bool-cases (same_text v (codes "ota"))) [
  | inl same ↦ absurd (other (ap Item.string (same_text→≡ v (codes "ota") same)))
  | inr differs ↦ differs
]
is_ota-false (Item.number d) other = refl
is_ota-false Item.other other = refl

module _ (json : Json) (answer : Answer) {S : Type 0}
    (display : S → List ℕ → List ℕ → ℤ → ℤ → ℤ → M S) (follows : Follows display answer)
    (ota_trigger : Trace) where
  parse_message-Asks :
      (message : List ℕ) (wish : Wish) (s : S)
      → Asks json message wish
      → parse_message json display ota_trigger message s
        ≡ display s wish.text wish.effect wish.speed wish.blink_period wish.fade_steps
  unfolding parse_message on_root show_fields
  parse_message-Asks message wish s asks =
      rw
        (
          asks.parsed,
          is_ota-false _ asks.no_ota,
          int_or-NumberField json _ _ _ asks.has_speed,
          int_or-NumberField json _ _ _ asks.has_blink,
          int_or-NumberField json _ _ _ asks.has_fade,
          text_or-TextField _ _ _ asks.has_text,
          text_or-TextField _ _ _ asks.has_effect,
        )
        (after-nil _ ∙ after-nil _ ∙ after-nil _)

  pub parse_message-Replies :
      (message : List ℕ) (t : Trace) (s : S)
      → Replies json answer message t
      → (s' : S) × (parse_message json display ota_trigger message s ≡ some (s', t))
  unfolding parse_message on_root
  parse_message-Replies message t s (not_json _ fails) = (s, rw fails refl)
  parse_message-Replies message t s (asked _ wish asks) =
      let shown = follows s wish.text wish.effect wish.speed wish.blink_period wish.fade_steps in
      (shown.0, parse_message-Asks message wish s asks ∙ shown.1)

  -- If the display sends `answer` in every state: `parse_message` succeeds, and a text that is not JSON
  -- has no effect, the command `ota` the updater's and no other, and any other message, if its
  -- numbers fit into `int`, exactly the display's for its fields, where each that is missing or of
  -- another type counts as its default: "", SCROLL, 50, 500 or 8.
  pub parse_message-Means :
      (message : List ℕ) (t : Trace) (s : S)
      → Means json answer ota_trigger message t
      → (s' : S) × (parse_message json display ota_trigger message s ≡ some (s', t))
  unfolding parse_message on_root is_ota
  parse_message-Means message t s (replied _ _ replies) = parse_message-Replies message t s replies
  parse_message-Means message t s (update _ root parsed command) =
      (s, rw (parsed, command) (ap (λ u. some (s, u)) (append-nil ota_trigger)))
