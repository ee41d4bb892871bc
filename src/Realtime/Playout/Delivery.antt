-- ===== src/Realtime/Playout/Delivery.antt =====
-- What the caller of `feed_playout` can rely on.
use isales_engine.Realtime.Playout.{
  Bytes, frame_bytes, queue_size, Playout, start_playout, Turn, run, has_returned,
}
use isales_engine.Realtime.Playout.Frames.{IsFrame, frames}
use isales_engine.Realtime.Playout.Stream.{Streams, speech, concat_behind, start_playout-Streams}
use isales_engine.Realtime.Playout.Turns.{run-Streams}
use isales_engine.Prelude.{
  length, replicate, concat, All, nat_eq, text_eq, ℕ, ◌≤◌, ◌<◌, ◌≡◌, refl, sym, ◌∙◌, Bool, true,
  List, [], ◌∷◌, ◌++◌, arith,
}

-- What a listener and the caller of `feed_playout` can rely on.
pub record IsPlayed (chunks : List Bytes) (p : Playout) : Type 0 where
  pub framed : All IsFrame p.taken
  pub bounded : length p.items ≤ queue_size
  pub padding : ℕ
  pub padding_short : padding < frame_bytes
  pub coming : Bytes
  pub in_order : concat p.taken ++ coming ≡ concat chunks ++ replicate padding 0
  pub complete : has_returned p ≡ true → coming ≡ []

All-before {ℓ κ} : {A : Type ℓ} (P : A → Type κ) (xs ys : List A) → All P (xs ++ ys) → All P xs
All-before P [] ys h = tt
All-before P (x ∷ xs) ys h = (h.0, All-before P xs ys h.1)

nil_of_length {ℓ} : {A : Type ℓ} (xs : List A) → length xs ≤ 0 → xs ≡ []
nil_of_length [] h = refl
nil_of_length (x ∷ xs) h = absurd (omega arith)

returned_tests :
    (p : Playout)
    → has_returned p ≡ true
    → (p.ended ≡ true) × (length p.outbox ≤ 0) × (p.unfinished ≤ 0)
unfolding has_returned
returned_tests p r = ground (arith, r)

-- A playback that has returned left nothing anywhere.
returned-empty :
    (chunks : List Bytes) (p : Playout)
    → Streams chunks p
    → has_returned p ≡ true
    → concat (p.items ++ (p.outbox ++ p.cushion)) ++ (p.leftover ++ concat p.chunks) ≡ []
returned-empty chunks p h r =
    let (over, put, joined) = returned_tests p r in
    let (c, l, cu) = h.closed over in
    let o : p.outbox ≡ [] = nil_of_length p.outbox put in
    let i : p.items ≡ [] = nil_of_length p.items (omega (arith, h.counted)) in
    rw i (rw o (rw cu (rw l (rw c refl))))

-- In whatever order feeding, the pump and its end take their turns and however the chunks are cut,
-- the pump has taken whole frames that are a beginning of the speech padded with less than a frame of
-- zeros, the queue keeps its bound, and once `feed_playout` has returned nothing is missing.
pub run-IsPlayed :
    (ambient_active : Bool) (chunks : List Bytes) (turns : List Turn)
    → IsPlayed chunks (run turns (start_playout ambient_active chunks))
unfolding speech frames
run-IsPlayed ambient_active chunks turns =
    let p = run turns (start_playout ambient_active chunks) in
    let h = run-Streams chunks turns _ (start_playout-Streams ambient_active chunks) in
    let behind : List Bytes = p.items ++ (p.outbox ++ p.cushion) in
    record {
      framed = All-before IsFrame p.taken behind h.framed;
      bounded = h.bounded;
      padding = h.padding;
      padding_short = h.padding_short;
      coming = concat behind ++ (p.leftover ++ concat p.chunks);
      in_order = sym (concat_behind p.taken behind (p.leftover ++ concat p.chunks)) ∙ h.speech;
      complete = returned-empty chunks p h;
    }
