-- ===== src/Pico/Client/Laws.antt =====
-- How often the loop of firmware/pico/src/ws_client.c connects, over sequences of events.
use textreaderrpi.Message.Laws.{Shows, Succeeds}
use textreaderrpi.Pico.Client.{
  Client, Event, ℤ, poll, ws_handler, c_string, round, rounds, reconnect, codes, pos,
}
use textreaderrpi.Machine.{M, Trace, delay}
use textreaderrpi.Common.{
  suc, length, if◌then◌else◌, ap, arith, true, false, ℕ, List, [], ◌∷◌, ◌≡◌, refl, Bool, some, take,
  ◌++◌, ◌+◌,
}

-- A state, given by its parts.
abbrev pub at : {S : Type 0} → Bool → ℕ → S → Client S
at online n panel = record { s_connected = online; connections = n; panel = panel }

-- The outcome of a run: it succeeds, and the client is connected or not, after some connections.
abbrev pub Reaches : {S : Type 0} → M (Client S) → Bool → ℕ → Type 0
Reaches {S} m online n =
    (panel : S) × (t : Trace) × (m
      ≡ some (record { s_connected = online; connections = n; panel = panel }, t))

-- An event that leaves a client as it is: no opening while offline, no closing while online.
abbrev pub Keeps : Event → Bool → Type 0
Keeps Event.ws_open true = Unit
Keeps Event.ws_open false = ⊥
Keeps (Event.ws_msg bytes) online = Unit
Keeps Event.close true = ⊥
Keeps Event.close false = Unit

abbrev pub Quiet : Bool → List Event → Type 0
Quiet online [] = Unit
Quiet online (e ∷ events) = Keeps e online × Quiet online events

abbrev pub AllQuiet : Bool → List (List Event) → Type 0
AllQuiet online [] = Unit
AllQuiet online (events ∷ polls) = Quiet online events × AllQuiet online polls

module _ {S : Type 0} (display : S → List ℕ → List ℕ → ℤ → ℤ → ℤ → M S) (shows : Shows display)
    (parse_message : List ℕ → S → M S)
    (parses : (text : List ℕ) (s : S) → Succeeds (parse_message text s)) where
  poll-Reaches :
      (online : Bool) (n : ℕ) (events : List Event) (panel : S)
      → Quiet online events
      → Reaches (poll display parse_message events (at online n panel)) online n
  unfolding poll ws_handler
  poll-Reaches online n [] panel q = (panel, [], refl)
  poll-Reaches true n (Event.ws_open ∷ events) panel q =
      let rest = poll-Reaches true n events panel q.1 in (rest.0, rest.1, rw (rest.2) refl)
  poll-Reaches false n (Event.ws_open ∷ events) panel q = absurd q.0
  poll-Reaches online n (Event.ws_msg bytes ∷ events) panel q =
      let shown = parses (c_string (take 511 bytes)) panel in
      let rest = poll-Reaches online n events shown.0 q.1 in
      (rest.0, (shown.1 ++ []) ++ rest.1, rw (shown.2, rest.2) refl)
  poll-Reaches true n (Event.close ∷ events) panel q = absurd q.0
  poll-Reaches false n (Event.close ∷ events) panel q =
      let rest = poll-Reaches false n events panel q.1 in (rest.0, rest.1, rw (rest.2) refl)

  round-Reaches :
      (online : Bool) (n : ℕ) (events : List Event) (panel : S)
      → Quiet online events
      → Reaches
          (round display parse_message events (at online n panel))
          online
          (if online then n else suc n)
  unfolding round reconnect
  round-Reaches true n events panel q =
      let polled = poll-Reaches true n events panel q in
      (polled.0, polled.1 ++ delay 1 ∷ [], rw (polled.2) refl)
  round-Reaches false n events panel q =
      let shown = shows panel (codes "Connecting...") (codes "BLINK") (pos 500) (pos 500) (pos 8) in
      let polled = poll-Reaches false (suc n) events shown.0 q in
      (
        polled.0,
        (shown.1 ++ delay 5000 ∷ []) ++ (polled.1 ++ delay 1 ∷ []),
        rw (shown.2, polled.2) refl,
      )

  -- If the display shows everything and every message is handled: however long the loop runs, it
  -- calls `mg_ws_connect` never while the client is online and no connection closes, and exactly
  -- once a round while it is offline and no connection opens.
  pub rounds-Reaches :
      (online : Bool) (n : ℕ) (polls : List (List Event)) (panel : S)
      → AllQuiet online polls
      → Reaches
          (rounds display parse_message polls (at online n panel))
          online
          (if online then n else length polls + n)
  unfolding rounds
  rounds-Reaches true n [] panel q = (panel, [], refl)
  rounds-Reaches true n (events ∷ polls) panel q =
      let first = round-Reaches true n events panel q.0 in
      let rest = rounds-Reaches true n polls first.0 q.1 in
      (rest.0, first.1 ++ rest.1, rw (first.2, rest.2) refl)
  rounds-Reaches false n [] panel q = (panel, [], ap (λ k. some (at false k panel, [])) none_yet)
    where
      none_yet : n ≡ 0 + n
      none_yet = omega arith
  rounds-Reaches false n (events ∷ polls) panel q =
      let first = round-Reaches false n events panel q.0 in
      let rest = rounds-Reaches false (suc n) polls first.0 q.1 in
      (
        rest.0,
        first.1 ++ rest.1,
        rw (first.2, rest.2)
            (ap (λ k. some (at false k rest.0, first.1 ++ rest.1)) (one_more (length polls))),
      )
    where
      one_more : (k : ℕ) → k + suc n ≡ suc k + n
      one_more k = omega arith
