-- ===== src/Pico/Client/Course.antt =====
-- What the Pico's display is sent over the course of the connection.
use textreaderrpi.Common.{
  ℕ, suc, ◌≤◌, ◌≡◌, ◌∙◌, refl, ap, List, [], ◌∷◌, ◌++◌, some, Bool, true, false, if◌then◌else◌,
  take, take_all, length, append-nil,
}
use textreaderrpi.Common.Int.{ℤ, pos}
use textreaderrpi.Common.Text.{codes, IsCString, c_string, c_string_lem}
use textreaderrpi.Machine.{M, Trace, after, delay}
use textreaderrpi.Message.{Json, parse_message}
use textreaderrpi.Message.Answer.{Answer, Follows, Replies, parse_message-Replies}
use textreaderrpi.Pico.Client.Laws.{at}
use textreaderrpi.Pico.Client.{Event, Client, ws_handler, reconnect, poll, round, rounds}

-- The events of one poll: from the value of `s_connected` before them to the one after them, with what is
-- sent. A message fits into the buffer and is no command; it gets its effect.
pub data Polls (json : Json) (answer : Answer) : Bool → List Event → Bool → Trace → Type 0 where
  quiet : (online : Bool) → Polls json answer online [] online []
  opened :
      (online last : Bool) (events : List Event) (t : Trace)
      → Polls json answer true events last t
      → Polls json answer online (Event.ws_open ∷ events) last t
  closed :
      (online last : Bool) (events : List Event) (t : Trace)
      → Polls json answer false events last t
      → Polls json answer online (Event.close ∷ events) last t
  told :
      (online last : Bool) (events : List Event) (t u : Trace) (message : List ℕ)
      → length message ≤ 511
      → IsCString message
      → Replies json answer message u
      → Polls json answer online events last t
      → Polls json answer online (Event.ws_msg message ∷ events) last (u ++ t)

-- What a round sends before its poll: a notice and a pause, while the client is offline.
unfoldable pub notice : Answer → (online : Bool) → Trace
notice answer online =
    if online
    then []
    else answer (codes "Connecting...") (codes "BLINK") (pos 500) (pos 500) (pos 8)
      ++ delay 5000 ∷ []

pub data Course (json : Json) (answer : Answer) : Bool → List (List Event) → Trace → Type 0 where
  stopped : (online : Bool) → Course json answer online [] []
  then_round :
      (online last : Bool) (events : List Event) (polls : List (List Event)) (t u : Trace)
      → Polls json answer online events last t
      → Course json answer last polls u
      → Course json answer online
          (events ∷ polls)
          ((notice answer online ++ (t ++ delay 1 ∷ [])) ++ u)

fits :
    (message : List ℕ)
    → length message ≤ 511
    → IsCString message
    → c_string (take 511 message) ≡ message
fits message short is_string =
    ap c_string (take_all 511 message short) ∙ c_string_lem message is_string

module _ (json : Json) (answer : Answer) {S : Type 0}
    (display : S → List ℕ → List ℕ → ℤ → ℤ → ℤ → M S) (follows : Follows display answer)
    (ota_trigger : Trace) where
  abbrev parse : List ℕ → S → M S
  parse = parse_message json display ota_trigger

  poll-Polls :
      (online last : Bool) (n : ℕ) (events : List Event) (t : Trace) (panel : S)
      → Polls json answer online events last t
      → (panel' : S) × (poll display parse events (at online n panel) ≡ some (at last n panel', t))
  unfolding poll ws_handler
  poll-Polls online last n events t panel (quiet _) = (panel, refl)
  poll-Polls online last n events t panel (opened _ _ events' t' polls) =
      let rest = poll-Polls true last n events' t' panel polls in (rest.0, rw (rest.1) refl)
  poll-Polls online last n events t panel (closed _ _ events' t' polls) =
      let rest = poll-Polls false last n events' t' panel polls in (rest.0, rw (rest.1) refl)
  poll-Polls online last n events t panel
        (told _ _ events' t' u message short is_string replies polls) =
      let shown =
        parse_message-Replies json answer display follows ota_trigger message u panel replies in
      let rest = poll-Polls online last n events' t' shown.0 polls in
      (
        rest.0,
        rw (fits message short is_string, shown.1, rest.1)
            (ap (λ w. after w (some (at last n rest.0, t'))) (append-nil u)),
      )

  round-Polls :
      (online last : Bool) (n : ℕ) (events : List Event) (t : Trace) (panel : S)
      → Polls json answer online events last t
      → (n' : ℕ) × (panel' : S) × (round display parse events (at online n panel)
          ≡ some (at last n' panel', notice answer online ++ (t ++ delay 1 ∷ [])))
  unfolding round reconnect notice
  round-Polls true last n events t panel polls =
      let polled = poll-Polls true last n events t panel polls in (n, polled.0, rw (polled.1) refl)
  round-Polls false last n events t panel polls =
      let shown =
        follows panel (codes "Connecting...") (codes "BLINK") (pos 500) (pos 500) (pos 8) in
      let polled = poll-Polls false last (suc n) events t shown.0 polls in
      (suc n, polled.0, rw (shown.1, polled.1) refl)

  -- If the display sends `answer` in every state, and the messages fit into the buffer and are no
  -- commands: the loop succeeds however long it runs, and the display is sent the notice and the
  -- pause of each round that begins offline, the effects of the messages in order, and nothing else.
  pub rounds-Course :
      (online : Bool) (n : ℕ) (polls : List (List Event)) (t : Trace) (panel : S)
      → Course json answer online polls t
      → (c : Client S) × (rounds display parse polls (at online n panel) ≡ some (c, t))
  unfolding rounds
  rounds-Course online n polls t panel (stopped _) = (at online n panel, refl)
  rounds-Course online n polls t panel (then_round _ last events polls' t' u polled course) =
      let first = round-Polls online last n events t' panel polled in
      let rest = rounds-Course last (first.0) polls' u (first.1) course in
      (rest.0, rw (first.2, rest.1) refl)
