-- ===== src/Realtime/Playout/Progress.antt =====
-- When `feed_playout` returns.
use isales_engine.Realtime.Playout.{
  Bytes, queue_size, Playout, start_playout, slice, offer, offer_all, take_chunk, padded, finish,
  feed_turn, Push, pushed, not_joined, push_failed, after_push, pump_turn, Turn, feeds, pumps,
  stops, turn, run, has_returned,
}
use isales_engine.Realtime.Playout.Frames.{slice-count, offer_all-Kept}
use isales_engine.Realtime.Playout.Stream.{Streams, start_playout-Streams}
use isales_engine.Realtime.Playout.Turns.{run-Streams, turn-Streams}
use isales_engine.Prelude.{
  ltb, if◌then◌else◌, Bool-cases, length, concat, All, length-append, nat_eq, text_eq, ℕ, zero, suc,
  ◌+◌, ◌-◌, ◌*◌, ◌≤◌, ◌<◌, min, ◌≡◌, refl, sym, ap, ◌∙◌, subst, ◌≢◌, ◌⊎◌, inl, inr, Bool, true,
  false, List, [], ◌∷◌, ◌++◌, arith,
}

-- What is still to be done for a playback to return.
abbrev pub work : Playout → ℕ
work p =
    length p.chunks
    + 2 * (length (concat p.chunks) + length p.leftover)
    + 2 * (length p.cushion + length p.outbox)
    + length p.items
    + (if p.ended then 0 else 1)

-- A turn of each task.
abbrev pub round : Playout → Playout
round p = turn (pumps pushed) (turn feeds p)

offer-length :
    (f : Bytes) (p : Playout)
    → length (offer f p).cushion + length (offer f p).outbox
      ≡ suc (length p.cushion + length p.outbox)
unfolding offer
offer-length f p = ground (
  arith,
  length-append p.cushion (f ∷ []),
  length-append p.outbox (f ∷ []),
  length-append p.outbox (p.cushion ++ f ∷ []),
)

offer_all-length :
    (fs : List Bytes) (p : Playout)
    → length (offer_all fs p).cushion + length (offer_all fs p).outbox
      ≡ length fs + (length p.cushion + length p.outbox)
unfolding offer_all
offer_all-length [] p = omega arith
offer_all-length (f ∷ fs) p = omega (arith, offer_all-length fs (offer f p), offer-length f p)

take_chunk-work :
    (chunk : Bytes) (rest : List Bytes) (p : Playout)
    → p.chunks ≡ chunk ∷ rest
    → work (take_chunk chunk rest p) < work p
unfolding take_chunk
take_chunk-work chunk rest p same =
    let buf = p.leftover ++ chunk in
    let cut = slice (length buf) buf in
    let (i, u, e, on) = offer_all-Kept cut.0 p in
    omega (
      arith,
      ap (λ xs. length xs) same,
      ap (λ xs. length (concat xs)) same,
      ap (λ xs. length xs) i,
      ap {B = ℕ} (λ b. if b then 0 else 1) e,
      offer_all-length cut.0 p,
      slice-count (length buf) buf,
      length-append p.leftover chunk,
      length-append chunk (concat rest),
    )

padded-few : (buf : Bytes) → length (padded buf) ≤ length buf
unfolding padded
padded-few [] = omega arith
padded-few (b ∷ bs) = omega arith

finish-work : (p : Playout) → p.outbox ≡ [] → p.ended ≡ false → work (finish p) < work p
unfolding finish padded
finish-work p put going =
    let few : length (padded p.leftover) ≤ length p.leftover = padded-few p.leftover in
    omega (
      arith,
      few,
      length-append p.cushion (padded p.leftover),
      ap (λ xs. length xs) put,
      ap {B = ℕ} (λ b. if b then 0 else 1) going,
    )

none_or_some : (n : ℕ) → (n ≤ 0) ⊎ (0 < n)
none_or_some zero = inl (omega arith)
none_or_some (suc n) = inr (omega arith)

-- A turn of feeding does something, or waits for a pump that has frames, or all is done.
feed_turn-work :
    (outbox chunks : List Bytes) (p : Playout)
    → p.outbox ≡ outbox
    → p.chunks ≡ chunks
    → length p.items ≤ queue_size
    → (p.ended ≡ true → (p.leftover ≡ []) × (p.cushion ≡ []))
    → (work (feed_turn outbox chunks p) < work p)
      ⊎ ((feed_turn outbox chunks p ≡ p) × (work p ≤ 0 ⊎ 0 < length p.items))
unfolding feed_turn
feed_turn-work (frame ∷ rest) chunks p put same few closed =
    elim (Bool-cases (ltb (length p.items) queue_size)) [
      | inl room ↦
          simp room
            (inl (omega (arith, ap (λ xs. length xs) put, length-append p.items (frame ∷ []))))
      | inr full ↦ simp full (inr (refl, inr (ground (arith, full))))
    ]
feed_turn-work [] (chunk ∷ rest) p put same few closed = inl (take_chunk-work chunk rest p same)
feed_turn-work [] [] p put same few closed = elim (Bool-cases p.ended) [
  | inl over ↦
      let (l, cu) = closed over in
      inr (
        ap (λ b. if b then p else finish p) over,
        elim (none_or_some (length p.items)) [
          | inl nothing ↦ inl (
              omega (
                arith,
                ap (λ xs. length xs) put,
                ap (λ xs. length xs) same,
                ap (λ xs. length (concat xs)) same,
                ap (λ xs. length xs) l,
                ap (λ xs. length xs) cu,
                ap {B = ℕ} (λ b. if b then 0 else 1) over,
              ))
          | inr more ↦ inr more
        ],
      )
  | inr going ↦ inl (
      subst (λ q. work q < work p) (sym (ap (λ b. if b then p else finish p) going))
        (finish-work p put going))
]

pump_turn-work :
    (items : List Bytes) (p : Playout)
    → p.items ≡ items
    → p.running ≡ true
    → work (pump_turn pushed items p) ≡ work p - min 1 (length p.items)
unfolding pump_turn after_push
pump_turn-work [] p same on = simp on (omega (arith, ap (λ xs. length xs) same))
pump_turn-work (frame ∷ rest) p same on = simp on (omega (arith, ap (λ xs. length xs) same))

-- Feeding does not touch the pump, and no turn of a joined pump ends it.
pub feed_turn-running :
    (outbox chunks : List Bytes) (p : Playout) → (feed_turn outbox chunks p).running ≡ p.running
unfolding feed_turn take_chunk finish
feed_turn-running (frame ∷ rest) chunks p = ground arith
feed_turn-running [] (chunk ∷ rest) p =
    let buf = p.leftover ++ chunk in (offer_all-Kept (slice (length buf) buf).0 p).3
feed_turn-running [] [] p = ground arith

pump_turn-running :
    (push : Push) (items : List Bytes) (p : Playout)
    → push ≢ not_joined
    → p.running ≡ true
    → (pump_turn push items p).running ≡ true
unfolding pump_turn after_push
pump_turn-running pushed [] p up on = ground arith
pump_turn-running pushed (f ∷ rest) p up on = ground arith
pump_turn-running push_failed [] p up on = ground arith
pump_turn-running push_failed (f ∷ rest) p up on = ground arith
pump_turn-running not_joined items p up on = absurd (up refl)

-- A turn that leaves the channel joined and the pump running.
abbrev pub IsUp : Turn → Type 0
IsUp feeds = Unit
IsUp (pumps push) = push ≢ not_joined
IsUp stops = ⊥

turn-running : (t : Turn) (p : Playout) → IsUp t → p.running ≡ true → (turn t p).running ≡ true
unfolding turn
turn-running feeds p up on = feed_turn-running p.outbox p.chunks p ∙ on
turn-running (pumps push) p up on = pump_turn-running push p.items p up on
turn-running stops p up on = absurd up

run-running :
    (turns : List Turn) (p : Playout)
    → All IsUp turns
    → p.running ≡ true
    → (run turns p).running ≡ true
unfolding run
run-running [] p up on = on
run-running (t ∷ turns) p up on = run-running turns (turn t p) up.1 (turn-running t p up.0 on)

round-work :
    (chunks : List Bytes) (p : Playout)
    → Streams chunks p
    → p.running ≡ true
    → work (round p) ≤ work p - 1
unfolding turn
round-work chunks p h on =
    let q : Playout = feed_turn p.outbox p.chunks p in
    let pumped : work (pump_turn pushed q.items q) ≡ work q - min 1 (length q.items) =
      pump_turn-work q.items q refl (feed_turn-running p.outbox p.chunks p ∙ on) in
    elim (feed_turn-work p.outbox p.chunks p refl refl h.bounded
      (λ r. let (c, l, cu) = h.closed r in (l, cu))) [
        | inl less ↦ omega (arith, pumped, less)
        | inr (same, inl nothing) ↦ omega (arith, pumped, nothing, ap work same)
        | inr (same, inr more) ↦
            omega (arith, pumped, more, ap work same, ap (λ x. length x.items) same)
      ]

-- As many turns of the two tasks, one after the other.
abbrev pub rounds : ℕ → List Turn
rounds zero = []
rounds (suc n) = feeds ∷ pumps pushed ∷ rounds n

run-rounds :
    (n : ℕ) (chunks : List Bytes) (p : Playout)
    → Streams chunks p
    → p.running ≡ true
    → work (run (rounds n) p) ≤ work p - n
unfolding run
run-rounds zero chunks p h on = omega arith
run-rounds (suc n) chunks p h on =
    let fed = turn feeds p in
    let on' = turn-running feeds p tt on in
    omega (
      arith,
      round-work chunks p h on,
      run-rounds n chunks (round p)
          (turn-Streams chunks (pumps pushed) fed (turn-Streams chunks feeds p h))
          (turn-running (pumps pushed) fed (λ e. cc) on'),
    )

run-append : (xs ys : List Turn) (p : Playout) → run (xs ++ ys) p ≡ run ys (run xs p)
unfolding run
run-append [] ys p = refl
run-append (t ∷ xs) ys p = run-append xs ys (turn t p)

returned_of_work :
    (chunks : List Bytes) (p : Playout) → Streams chunks p → work p ≤ 0 → has_returned p ≡ true
unfolding has_returned
returned_of_work chunks p h nothing = elim (Bool-cases p.ended) [
  | inl over ↦
      let put : length p.outbox ≤ 0 = omega (arith, nothing) in
      let joined : p.unfinished ≤ 0 = omega (arith, nothing, h.counted) in
      ground (arith, over, put, joined)
  | inr going ↦ absurd (omega (arith, ap {B = ℕ} (λ b. if b then 0 else 1) going))
]

-- While the pump is up, playback cannot get stuck: whatever turns were taken, as many further turns
-- of feeding and the pump as there is work left let `feed_playout` return.
pub run-rounds_return :
    (ambient_active : Bool) (chunks : List Bytes) (turns : List Turn)
    → All IsUp turns
    → (let p = run turns (start_playout ambient_active chunks) in
        has_returned (run (turns ++ rounds (work p)) (start_playout ambient_active chunks)) ≡ true)
run-rounds_return ambient_active chunks turns up =
    let p0 = start_playout ambient_active chunks in
    let p = run turns p0 in
    let h = run-Streams chunks turns p0 (start_playout-Streams ambient_active chunks) in
    let on = run-running turns p0 up (unfold start_playout in refl) in
    rw (run-append turns (rounds (work p)) p0) (
      returned_of_work chunks (run (rounds (work p)) p) (run-Streams chunks (rounds (work p)) p h)
        (omega (arith, run-rounds (work p) chunks p h on)))
