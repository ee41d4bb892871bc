-- ===== src/Realtime/Playout/Turns.antt =====
-- Every turn keeps the invariant of a playback.
use isales_engine.Realtime.Playout.Stream.{
  Streams, moved-Streams, take_chunk-Streams, finish-Streams,
}
use isales_engine.Realtime.Playout.Frames.{frames}
use isales_engine.Realtime.Playout.{
  Bytes, queue_size, Playout, feed_turn, Push, pushed, not_joined, push_failed, after_push,
  pump_turn, Turn, feeds, pumps, stops, turn, run,
}
use isales_engine.Prelude.{
  ltb, if◌then◌else◌, ltb→lt, Bool-cases, length, length-append, nat_eq, text_eq, ◌+◌, ◌-◌, ◌≡◌,
  refl, sym, ap, ◌∙◌, inl, inr, Bool, true, false, List, [], ◌∷◌, ◌++◌, append_assoc, arith,
}

feed_turn-Streams :
    (chunks outbox coming : List Bytes) (p : Playout)
    → p.outbox ≡ outbox
    → p.chunks ≡ coming
    → Streams chunks p
    → Streams chunks (feed_turn outbox coming p)
unfolding feed_turn frames
feed_turn-Streams chunks (frame ∷ rest) coming p put same h =
    elim (Bool-cases (ltb (length p.items) queue_size)) [
      | inl room ↦ simp room (
          moved-Streams chunks p
            (record p {
              outbox = rest;
              items = p.items ++ frame ∷ [];
              unfinished = p.unfinished + 1;
            })
            (ap (λ xs. p.taken ++ xs) (append_assoc p.items (frame ∷ []) (rest ++ p.cushion))
              ∙ ap (λ xs. p.taken ++ (p.items ++ (xs ++ p.cushion))) (sym put))
            refl refl refl refl refl (omega (arith, h.counted, length-append p.items (frame ∷ [])))
            (omega
              (arith, ltb→lt (length p.items) queue_size room, length-append p.items (frame ∷ [])))
            h)
      | inr full ↦ simp full h
    ]
feed_turn-Streams chunks [] (chunk ∷ rest) p put same h =
    take_chunk-Streams chunks chunk rest p same h
feed_turn-Streams chunks [] [] p put same h = elim (Bool-cases p.ended) [
  | inl over ↦ simp over h
  | inr going ↦ simp going (finish-Streams chunks p same put going h)
]

after_push-Streams :
    (chunks : List Bytes) (push : Push) (p : Playout)
    → Streams chunks p
    → Streams chunks (after_push push p)
unfolding after_push frames
after_push-Streams chunks pushed p h =
    moved-Streams chunks p (record p { pump_ts = p.pump_ts + 10 }) refl refl refl refl refl refl
      h.counted h.bounded h
after_push-Streams chunks not_joined p h =
    moved-Streams chunks p (record p { running = false }) refl refl refl refl refl refl h.counted
      h.bounded h
after_push-Streams chunks push_failed p h = h

either-Streams :
    (chunks : List Bytes) (b : Bool) (p q : Playout)
    → Streams chunks p
    → Streams chunks q
    → Streams chunks (if b then p else q)
either-Streams chunks true p q h h' = h
either-Streams chunks false p q h h' = h'

pump_turn-Streams :
    (chunks : List Bytes) (push : Push) (items : List Bytes) (p : Playout)
    → p.items ≡ items
    → Streams chunks p
    → Streams chunks (pump_turn push items p)
unfolding pump_turn frames
pump_turn-Streams chunks push [] p same h =
    either-Streams chunks p.running _ p (after_push-Streams chunks push p h) h
pump_turn-Streams chunks push (frame ∷ rest) p same h =
    let q : Playout = record p {
      items = rest;
      unfinished = p.unfinished - 1;
      taken = p.taken ++ frame ∷ [];
    } in
    let moved : Streams chunks q =
      moved-Streams chunks p q
        (append_assoc p.taken (frame ∷ []) (rest ++ (p.outbox ++ p.cushion))
          ∙ ap (λ xs. p.taken ++ (xs ++ (p.outbox ++ p.cushion))) (sym same))
        refl refl refl refl refl (omega (arith, h.counted, ap (λ xs. length xs) same))
        (omega (arith, h.bounded, ap (λ xs. length xs) same)) h in
    either-Streams chunks p.running _ p (after_push-Streams chunks push q moved) h

pub turn-Streams :
    (chunks : List Bytes) (t : Turn) (p : Playout) → Streams chunks p → Streams chunks (turn t p)
unfolding turn frames
turn-Streams chunks feeds p h = feed_turn-Streams chunks p.outbox p.chunks p refl refl h
turn-Streams chunks (pumps push) p h = pump_turn-Streams chunks push p.items p refl h
turn-Streams chunks stops p h =
    moved-Streams chunks p (record p { running = false }) refl refl refl refl refl refl h.counted
      h.bounded h

pub run-Streams :
    (chunks : List Bytes) (turns : List Turn) (p : Playout)
    → Streams chunks p
    → Streams chunks (run turns p)
unfolding run
run-Streams chunks [] p h = h
run-Streams chunks (t ∷ turns) p h = run-Streams chunks turns (turn t p) (turn-Streams chunks t p h)
