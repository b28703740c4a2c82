-- ===== src/Esp32/Client/Laws.antt =====
-- What the display is sent for the events of the connection.
use textreaderrpi.Common.{
  ◌∙◌, ℕ, ◌≡◌, ◌≢◌, refl, List, [], ◌∷◌, ◌++◌, none, some, false, arith, ◌==◌,
}
use textreaderrpi.Common.Int.{ℤ, pos}
use textreaderrpi.Common.Text.{codes, IsCString}
use textreaderrpi.Machine.{M, Trace, after-nil}
use textreaderrpi.Message.Answer.{Answer, Follows, Means, parse_message-Means}
use textreaderrpi.Message.{Json, parse_message}
use textreaderrpi.Esp32.Client.{Event, read_string, on_data, ws_event_handler, handle_all}

-- A buffer in which the message ends with a NUL.
abbrev pub terminated : (message rest : List ℕ) → List ℕ
terminated message rest = message ++ 0 ∷ rest

read_string-terminated :
    (message rest : List ℕ)
    → IsCString message
    → read_string (terminated message rest) ≡ some message
unfolding read_string
read_string-terminated [] rest t = refl
read_string-terminated (b ∷ message) rest t =
    rw (different, read_string-terminated message rest t.1) refl
  where
    different : (b == 0) ≡ false
    different = ground arith

read_string-none : (memory : List ℕ) → IsCString memory → read_string memory ≡ none
unfolding read_string
read_string-none [] t = refl
read_string-none (b ∷ memory) t = rw (different, read_string-none memory t.1) refl
  where
    different : (b == 0) ≡ false
    different = ground arith

module _ {S : Type 0} (display : S → List ℕ → List ℕ → ℤ → ℤ → ℤ → M S)
    (parse : List ℕ → S → M S) where
  -- A text event whose buffer has no NUL byte is undefined behaviour: the message is read past the
  -- end of the buffer.
  pub ws_event_handler-none :
      (memory : List ℕ) (s : S)
      → IsCString memory
      → ws_event_handler display parse (Event.received 1 memory) s ≡ none
  unfolding ws_event_handler on_data
  ws_event_handler-none memory s no_nul = rw (read_string-none memory no_nul) refl

-- What is to be done for an event: what a message means that ends within the buffer, nothing for
-- a frame that is not text, and a notice when the connection is lost.
pub data Calls (json : Json) (answer : Answer) (ota_trigger : Trace) : Event → Trace → Type 0 where
  text_message :
      (message rest : List ℕ) (t : Trace)
      → IsCString message
      → Means json answer ota_trigger message t
      → Calls json answer ota_trigger (Event.received 1 (terminated message rest)) t
  other_frame :
      (op_code : ℕ) (memory : List ℕ)
      → op_code ≢ 1
      → Calls json answer ota_trigger (Event.received op_code memory) []
  lost :
      Calls json answer ota_trigger Event.disconnected
        (answer (codes "Connecting...") (codes "SCROLL") (pos 80) (pos 0) (pos 0))
  back : Calls json answer ota_trigger Event.connected []

pub data CallsAll (json : Json) (answer : Answer) (ota_trigger : Trace)
    : List Event → Trace → Type 0 where
  no_event : CallsAll json answer ota_trigger [] []
  then_event :
      (e : Event) (events : List Event) (t u : Trace)
      → Calls json answer ota_trigger e t
      → CallsAll json answer ota_trigger events u
      → CallsAll json answer ota_trigger (e ∷ events) (t ++ u)

module _ (json : Json) (answer : Answer) {S : Type 0}
    (display : S → List ℕ → List ℕ → ℤ → ℤ → ℤ → M S) (follows : Follows display answer)
    (ota_trigger : Trace) where
  abbrev handler : Event → S → M S
  handler = ws_event_handler display (parse_message json display ota_trigger)

  handler-Calls :
      (e : Event) (t : Trace) (s : S)
      → Calls json answer ota_trigger e t
      → (s' : S) × (handler e s ≡ some (s', t))
  unfolding ws_event_handler on_data
  handler-Calls e t s (text_message message rest _ is_string means) =
      let run = parse_message-Means json answer display follows ota_trigger message t s means in
      (run.0, rw (read_string-terminated message rest is_string) (after-nil _ ∙ run.1))
  handler-Calls e t s (other_frame op_code memory other) = (s, rw (different op_code other) refl)
    where
      different : (op_code : ℕ) → op_code ≢ 1 → (op_code == 1) ≡ false
      different op_code other = ground arith
  handler-Calls e t s lost =
      follows s (codes "Connecting...") (codes "SCROLL") (pos 80) (pos 0) (pos 0)
  handler-Calls e t s back = (s, refl)

  -- If the display sends `answer` in every state: for every sequence of events whose text messages end
  -- within their buffers, and in which the numbers of the messages fit into `int`, the handlers
  -- succeed, and the actions are exactly those that the messages mean, with the defaults of
  -- missing fields, and the notices of lost connections, in order.
  pub handle_all-CallsAll :
      (events : List Event) (t : Trace) (s : S)
      → CallsAll json answer ota_trigger events t
      → (s' : S) × (handle_all display (parse_message json display ota_trigger) events s
          ≡ some (s', t))
  unfolding handle_all
  handle_all-CallsAll events t s no_event = (s, refl)
  handle_all-CallsAll events t s (then_event e events' t' u call calls) =
      let first = handler-Calls e t' s call in
      let rest = handle_all-CallsAll events' u first.0 calls in (rest.0, rw (first.1, rest.1) refl)
