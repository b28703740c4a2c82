-- ===== src/Esp32/Portal/Dns/Laws.antt =====
-- The reply of `dns_task` to a query.
use textreaderrpi.Common.{
  ℕ, ◌+◌, ◌≤◌, ◌≡◌, refl, List, [], ◌∷◌, ◌++◌, some, length, replicate, ◌-◌, ap, le→not_ltb, ◌<◌,
  arith, ◌∙◌, sym, lt→ltb, replicate-add, length-replicate, append_assoc, length-append,
}
use textreaderrpi.Memory.{write_all}
use textreaderrpi.Memory.Laws.{write_all_lem, load_prefix_lem}
use textreaderrpi.Esp32.Portal.Dns.{answer, respond, ignored, sent}

-- The response buffer as three parts.
buffer_parts :
    (n : ℕ)
    → n ≤ 492
    → replicate {A = ℕ} 512 0 ≡ replicate n 0 ++ (replicate 16 0 ++ replicate (496 - n) 0)
buffer_parts n h =
    let e : 512 ≡ n + (16 + (496 - n)) = omega arith in
    ap (λ k. replicate {A = ℕ} k 0) e
    ∙ replicate-add n (16 + (496 - n)) 0
    ∙ ap (λ l. replicate n 0 ++ l) (replicate-add 16 (496 - n) 0)

-- The two runs of writes, each over the part of the buffer that it meets.
copy_query :
    (q : List ℕ)
    → length q ≤ 492
    → write_all q (replicate 512 0) 0
      ≡ some (q ++ (replicate 16 0 ++ replicate (496 - length q) 0), length q)
copy_query q h =
    ap (λ l. write_all q l 0) (buffer_parts (length q) h)
    ∙ write_all_lem [] q (replicate (length q) 0) _ (length-replicate {A = ℕ} (length q) 0)
    ∙ ap (λ n. some (q ++ (replicate 16 0 ++ replicate (496 - length q) 0), n)) (omega arith)

append_answer :
    (q post : List ℕ)
    → write_all answer (q ++ (replicate 16 0 ++ post)) (length q)
      ≡ some (q ++ answer ++ post, length (q ++ answer))
append_answer q post =
    ap (λ l. write_all answer l (length q)) (sym (append_assoc q (replicate 16 0) post))
    ∙ write_all_lem q answer (replicate 16 0) post refl
    ∙ ap (λ n. some (q ++ answer ++ post, n)) (omega (arith, length-append q answer))

-- A query of 12 to 492 bytes, the most that `recvfrom` is given, is answered by itself with the
-- flags of a response and an answer count of one, followed by the fixed record; no write is
-- outside the response buffer.
pub respond-query :
    (b0 b1 b2 b3 b4 b5 b6 b7 b8 b9 b10 b11 : ℕ) (rest : List ℕ)
    → length rest ≤ 480
    → respond (b0 ∷ b1 ∷ b2 ∷ b3 ∷ b4 ∷ b5 ∷ b6 ∷ b7 ∷ b8 ∷ b9 ∷ b10 ∷ b11 ∷ rest)
      ≡ some
          (sent ((b0 ∷ b1 ∷ 0x81 ∷ 0x80 ∷ b4 ∷ b5 ∷ b6 ∷ 1 ∷ b8 ∷ b9 ∷ b10 ∷ b11 ∷ rest) ++ answer))
unfolding respond
respond-query b0 b1 b2 b3 b4 b5 b6 b7 b8 b9 b10 b11 rest h =
    let query = b0 ∷ b1 ∷ b2 ∷ b3 ∷ b4 ∷ b5 ∷ b6 ∷ b7 ∷ b8 ∷ b9 ∷ b10 ∷ b11 ∷ rest in
    let reply = b0 ∷ b1 ∷ 0x81 ∷ 0x80 ∷ b4 ∷ b5 ∷ b6 ∷ 1 ∷ b8 ∷ b9 ∷ b10 ∷ b11 ∷ rest in
    rw (
      le→not_ltb (length query) 12 (omega arith),
      copy_query query (omega arith),
      append_answer reply (replicate (496 - length query) 0),
      load_prefix_lem (reply ++ answer) (replicate (496 - length query) 0),
    )

-- Shorter datagrams get no answer.
pub respond_short : (buf : List ℕ) → length buf < 12 → respond buf ≡ some ignored
unfolding respond
respond_short buf h = rw (lt→ltb (length buf) 12 h)
