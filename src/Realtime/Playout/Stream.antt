-- ===== src/Realtime/Playout/Stream.antt =====
-- The invariant of a playback, and that the steps of feeding keep it.
use isales_engine.Realtime.Playout.Frames.{
  IsFrame, frames, slice-concat, slice-IsFrame, slice-short, append_last, offer_all-Loose,
  offer_all-frames, offer_all-Kept,
}
use isales_engine.Realtime.Playout.{
  Bytes, frame_bytes, queue_size, Playout, start_playout, slice, offer_all, take_chunk, padded,
  finish,
}
use isales_engine.Prelude.{
  length, replicate, concat, All, length-append, length-replicate, All-append, concat-append,
  nat_eq, text_eq, ℕ, ◌-◌, ◌≤◌, ◌<◌, ◌≡◌, refl, sym, ap, ◌∙◌, subst, Bool, true, false, List, [],
  ◌∷◌, ◌++◌, append-nil, append_assoc, arith,
}

-- The speech in order, from what the pump has taken to what is still to come.
unfoldable pub speech : Playout → Bytes
speech p = concat (frames p) ++ (p.leftover ++ concat p.chunks)

pub record Streams (chunks : List Bytes) (p : Playout) : Type 0 where
  pub padding : ℕ
  pub speech : speech p ≡ concat chunks ++ replicate padding 0
  pub padding_short : padding < frame_bytes
  pub unpadded : p.ended ≡ false → padding ≡ 0
  pub framed : All IsFrame (frames p)
  pub loose : p.primed ≡ true → p.cushion ≡ []
  pub leftover_short : length p.leftover < frame_bytes
  pub counted : p.unfinished ≡ length p.items
  pub bounded : length p.items ≤ queue_size
  pub closed : p.ended ≡ true → (p.chunks ≡ []) × (p.leftover ≡ []) × (p.cushion ≡ [])

pub start_playout-Streams :
    (ambient_active : Bool) (chunks : List Bytes)
    → Streams chunks (start_playout ambient_active chunks)
unfolding start_playout speech frames
start_playout-Streams ambient_active chunks = record {
  padding = 0;
  speech = sym (append-nil (concat chunks));
  padding_short = omega arith;
  unpadded = λ h. refl;
  framed = tt;
  loose = λ h. refl;
  leftover_short = omega arith;
  counted = refl;
  bounded = omega arith;
  closed = λ h. cc;
}

-- A turn that only moves frames on.
pub moved-Streams :
    (chunks : List Bytes) (p q : Playout)
    → frames q ≡ frames p
    → q.chunks ≡ p.chunks
    → q.leftover ≡ p.leftover
    → q.cushion ≡ p.cushion
    → q.primed ≡ p.primed
    → q.ended ≡ p.ended
    → q.unfinished ≡ length q.items
    → length q.items ≤ queue_size
    → Streams chunks p
    → Streams chunks q
unfolding speech
moved-Streams chunks p q same c l cu pr e counted bounded h = record {
  padding = h.padding;
  speech =
      ap (λ xs. concat xs ++ (q.leftover ++ concat q.chunks)) same
      ∙ ap (λ xs. concat (frames p) ++ (xs ++ concat q.chunks)) l
      ∙ ap (λ xs. concat (frames p) ++ (p.leftover ++ concat xs)) c
      ∙ h.speech;
  padding_short = h.padding_short;
  unpadded = λ r. h.unpadded (sym e ∙ r);
  framed = subst (λ xs. All IsFrame xs) (sym same) h.framed;
  loose = λ r. cu ∙ h.loose (sym pr ∙ r);
  leftover_short = omega (arith, ap (λ xs. length xs) l, h.leftover_short);
  counted = counted;
  bounded = bounded;
  closed = λ r. let (a, b, d) = h.closed (sym e ∙ r) in (c ∙ a, l ∙ b, cu ∙ d);
}

pub concat_behind {ℓ} :
    {A : Type ℓ} (xs ys : List (List A)) (zs : List A)
    → concat (xs ++ ys) ++ zs ≡ concat xs ++ (concat ys ++ zs)
concat_behind xs ys zs =
    ap (λ ws. ws ++ zs) (concat-append xs ys) ∙ append_assoc (concat xs) (concat ys) zs

pub take_chunk-Streams :
    (chunks : List Bytes) (chunk : Bytes) (rest : List Bytes) (p : Playout)
    → p.chunks ≡ chunk ∷ rest
    → Streams chunks p
    → Streams chunks (take_chunk chunk rest p)
unfolding take_chunk speech frames
take_chunk-Streams chunks chunk rest p same h =
    let buf = p.leftover ++ chunk in
    let cut = slice (length buf) buf in
    let q = offer_all cut.0 p in
    let more = offer_all-frames cut.0 p h.loose in
    let (i, u, e, on) = offer_all-Kept cut.0 p in
    record {
      padding = h.padding;
      speech =
          ap (λ xs. concat xs ++ (cut.1 ++ concat rest)) more
          ∙ concat_behind (frames p) cut.0 (cut.1 ++ concat rest)
          ∙ ap (λ xs. concat (frames p) ++ xs)
              (sym (append_assoc (concat cut.0) cut.1 (concat rest))
                ∙ ap (λ xs. xs ++ concat rest) (slice-concat (length buf) buf)
                ∙ append_assoc p.leftover chunk (concat rest)
                ∙ ap (λ xs. p.leftover ++ concat xs) (sym same))
          ∙ h.speech;
      padding_short = h.padding_short;
      unpadded = λ r. h.unpadded (sym e ∙ r);
      framed =
          subst (λ xs. All IsFrame xs) (sym more)
            (All-append IsFrame (frames p) cut.0 h.framed (slice-IsFrame (length buf) buf));
      loose = offer_all-Loose cut.0 p h.loose;
      leftover_short = slice-short (length buf) buf (omega arith);
      counted = u ∙ h.counted ∙ ap (λ xs. length xs) (sym i);
      bounded = omega (arith, ap (λ xs. length xs) i, h.bounded);
      closed = λ r. let (a, b, d) = h.closed (sym e ∙ r) in absurd (cc);
    }

-- The padding fills the last frame.
padded-concat :
    (buf : Bytes)
    → length buf < frame_bytes
    → (n : ℕ) × (n < frame_bytes)
      × (concat (padded buf) ≡ buf ++ replicate n 0)
      × All IsFrame (padded buf)
unfolding padded
padded-concat [] short = (0, omega arith, refl, tt)
padded-concat (b ∷ bs) short =
    let n = frame_bytes - length (b ∷ bs) in
    (
      n,
      omega arith,
      append-nil (b ∷ bs ++ replicate n 0),
      (omega (arith, length-append bs (replicate n 0), length-replicate {A = ℕ} n 0), tt),
    )

pub finish-Streams :
    (chunks : List Bytes) (p : Playout)
    → p.chunks ≡ []
    → p.outbox ≡ []
    → p.ended ≡ false
    → Streams chunks p
    → Streams chunks (finish p)
unfolding finish speech frames
finish-Streams chunks p over put going h =
    let (n, short, fill, whole) = padded-concat p.leftover h.leftover_short in
    let more : frames (finish p) ≡ frames p ++ padded p.leftover =
      ap (λ xs. p.taken ++ (p.items ++ xs)) (append-nil (p.cushion ++ padded p.leftover))
      ∙ sym (append_last p.taken p.items p.cushion (padded p.leftover))
      ∙ ap (λ xs. (p.taken ++ (p.items ++ (xs ++ p.cushion))) ++ padded p.leftover) (sym put) in
    let before : concat (frames p) ++ p.leftover ≡ concat chunks =
      ap (λ xs. concat (frames p) ++ xs) (sym (append-nil p.leftover))
      ∙ ap (λ xs. concat (frames p) ++ (p.leftover ++ concat xs)) (sym over)
      ∙ h.speech
      ∙ ap (λ k. concat chunks ++ replicate k 0) (h.unpadded going)
      ∙ append-nil (concat chunks) in
    record {
      padding = n;
      speech =
          ap (λ xs. concat xs ++ concat p.chunks) more
          ∙ ap (λ xs. concat (frames p ++ padded p.leftover) ++ concat xs) over
          ∙ concat_behind (frames p) (padded p.leftover) []
          ∙ ap (λ xs. concat (frames p) ++ xs) (append-nil (concat (padded p.leftover)) ∙ fill)
          ∙ sym (append_assoc (concat (frames p)) p.leftover (replicate n 0))
          ∙ ap (λ xs. xs ++ replicate n 0) before;
      padding_short = short;
      unpadded = λ r. cc;
      framed =
          subst (λ xs. All IsFrame xs) (sym more)
            (All-append IsFrame (frames p) (padded p.leftover) h.framed whole);
      loose = λ r. refl;
      leftover_short = omega arith;
      counted = h.counted;
      bounded = h.bounded;
      closed = λ r. (over, refl, refl);
    }
