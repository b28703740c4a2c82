-- ===== src/Message/Laws.antt =====
-- When `parse_message` of firmware/*/json_parser.c succeeds.
use textreaderrpi.Message.{
  Json, int_or, number, ℤ, Item, show_fields, on_root, parse_message, codes, pos, is_ota, text_or,
}
use textreaderrpi.Machine.{M, Trace, pure}
use textreaderrpi.Common.{
  ℕ, List, [], Option, none, some, ◌≡◌, refl, Bool-cases, inl, ap, append-nil, inr,
}

-- A computation that succeeds, with some state and some actions.
abbrev pub Succeeds : {S : Type 0} → M S → Type 0
Succeeds {S} m = (s : S) × (t : Trace) × (m ≡ some (s, t))

-- Every number of a message fits into `int`.
abbrev pub Fits : Json → Type 0
Fits json =
    (root : json.Root) (key : List ℕ) (d : json.Double)
    → json.get_item root key ≡ number d
    → (z : ℤ) × (json.to_int d ≡ some z)

abbrev pub Shows : {S : Type 0} → (S → List ℕ → List ℕ → ℤ → ℤ → ℤ → M S) → Type 0
Shows {S} display =
    (s : S) (text effect : List ℕ) (speed blink_period fade_steps : ℤ)
    → Succeeds (display s text effect speed blink_period fade_steps)

int_or-pure :
    (json : Json) (item : Item json.Double) (fallback : ℤ)
    → ((d : json.Double) → item ≡ number d → (z : ℤ) × (json.to_int d ≡ some z))
    → (z : ℤ) × (int_or json item fallback ≡ pure z)
unfolding int_or
int_or-pure json (Item.string v) fallback fits = (fallback, refl)
int_or-pure json (Item.number d) fallback fits = let (z, e) = fits d refl in (z, rw e refl)
int_or-pure json Item.other fallback fits = (fallback, refl)

module _ (json : Json) (fits : Fits json) {S : Type 0}
    (display : S → List ℕ → List ℕ → ℤ → ℤ → ℤ → M S) (shows : Shows display)
    (ota_trigger : Trace) where
  field :
      (root : json.Root) (key : List ℕ) (fallback : ℤ)
      → (z : ℤ) × (int_or json (json.get_item root key) fallback ≡ pure z)
  field root key fallback = int_or-pure json (json.get_item root key) fallback (fits root key)

  show_fields-Succeeds :
      (root : json.Root) (s : S) → Succeeds (show_fields json display ota_trigger root s)
  unfolding show_fields
  show_fields-Succeeds root s =
      let speed = field root (codes "speed") (pos 50) in
      let blink_period = field root (codes "blinkPeriod") (pos 500) in
      let fade_steps = field root (codes "fadeSteps") (pos 8) in
      let shown =
        shows s (text_or (json.get_item root (codes "text")) [])
          (text_or (json.get_item root (codes "effect")) (codes "SCROLL")) speed.0 blink_period.0
          fade_steps.0 in
      (shown.0, shown.1, rw (speed.1, blink_period.1, fade_steps.1, shown.2) refl)

  on_root-Succeeds :
      (root : Option json.Root) (s : S) → Succeeds (on_root json display ota_trigger root s)
  unfolding on_root
  on_root-Succeeds none s = (s, [], refl)
  on_root-Succeeds (some root) s =
      elim (Bool-cases (is_ota (json.get_item root (codes "command")))) [
        | inl t ↦ (s, ota_trigger, rw t (ap (λ u. some (s, u)) (append-nil ota_trigger)))
        | inr f ↦ let shown = show_fields-Succeeds root s in (shown.0, shown.1, rw f shown.2)
      ]

  -- If the numbers of a message fit into `int` and the display shows everything, `parse_message`
  -- succeeds for every text, JSON or not.
  pub parse_message-Succeeds :
      (data_text : List ℕ) (s : S) → Succeeds (parse_message json display ota_trigger data_text s)
  unfolding parse_message
  parse_message-Succeeds data_text s = on_root-Succeeds (json.parse data_text) s
