-- ===== src/Machine.antt =====
-- What the firmware does to the outside, and the monad of a computation that does it.
-- `none` is undefined behaviour of the C code: an access outside an array or a signed overflow.

pub mod Trace
use textreaderrpi.Common.{
  if_both, if◌then◌else◌, Bool, ℕ, ◌≡◌, refl, Option, none, some, List, [], ◌++◌,
}

-- Calls of the platform's libraries that set it up or restart it, with the arguments that the source chooses.
pub data Setup : Type 0 where
  i2c_param_config : (sda scl clock : ℕ) → Setup
  i2c_driver_install : Setup
  spi_bus_initialize : (mosi clk : ℕ) → Setup
  spi_bus_add_device : (clock cs queue : ℕ) → Setup
  -- A device without a chip select of the bus.
  spi_bus_add_manual_device : (clock queue : ℕ) → Setup
  i2c_init : (clock : ℕ) → Setup
  spi_init : (clock : ℕ) → Setup
  gpio_i2c_function : (pin : ℕ) → Setup
  gpio_spi_function : (pin : ℕ) → Setup
  gpio_pull_up : (pin : ℕ) → Setup
  gpio_init : (pin : ℕ) → Setup
  gpio_output : (pin : ℕ) → Setup
  gpio_input : (pin : ℕ) → Setup
  stdio_init_all : Setup
  watchdog_reboot : (delay_ms : ℕ) → Setup
  picowota_reboot : (to_bootloader : Bool) → Setup

-- A call that reaches the bus, a pin, the clock or a one-time set-up.
pub data Action : Type 0 where
  i2c_write : (addr : ℕ) (bytes : List ℕ) → Action
  spi_write : (bytes : List ℕ) → Action
  gpio_put : (pin level : ℕ) → Action
  delay : (ms : ℕ) → Action
  setup : Setup → Action

abbrev pub Trace : Type 0
Trace = List Action

-- A result with the actions in the order in which they are made.
abbrev pub M : Type 0 → Type 0
M A = Option (A × Trace)

abbrev pub pure : {A : Type 0} → A → M A
pure a = some (a, [])

-- A step in memory: no action, and a fault if an access is out of bounds.
abbrev pub lift : {A : Type 0} → Option A → M A
lift none = none
lift (some a) = some (a, [])

abbrev pub emit : Trace → M (Unit {0})
emit t = some (tt, t)

abbrev pub after : {A : Type 0} → Trace → M A → M A
after t none = none
after t (some (a, u)) = some (a, t ++ u)

infixl 5 ◌>>=◌ ◌>>◌
abbrev pub ◌>>=◌ : {A B : Type 0} → M A → (A → M B) → M B
none >>= f = none
some (a, t) >>= f = after t (f a)

abbrev pub ◌>>◌ : {B : Type 0} → M (Unit {0}) → M B → M B
m >> k = m >>= λ _. k

pub after-nil : {A : Type 0} (m : M A) → after [] m ≡ m
after-nil none = refl
after-nil (some p) = refl

pub if_emit :
    (b : Bool) {m m' : M (Unit {0})} {t t' : Trace}
    → m ≡ emit t
    → m' ≡ emit t'
    → (if b then m else m') ≡ emit (if b then t else t')
if_emit = if_both (λ m t. m ≡ emit t)
