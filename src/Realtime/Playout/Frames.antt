-- ===== src/Realtime/Playout/Frames.antt =====
-- What cutting a chunk into frames and holding them in the cushion do.
use isales_engine.Realtime.Playout.{
  Bytes, frame_bytes, playout_prebuffer_frames, Playout, slice, offer, offer_all,
}
use isales_engine.Prelude.{
  leb, leb→le, Bool-cases, length, take, drop, concat, All, length-take, length-drop,
  take-append-drop, nat_eq, text_eq, ℕ, zero, suc, ◌+◌, ◌≤◌, ◌<◌, ◌≡◌, refl, sym, ap, ◌∙◌, inl, inr,
  true, List, [], ◌∷◌, ◌++◌, append-nil, append_assoc, arith,
}

abbrev pub IsFrame : Bytes → Type 0
IsFrame frame = length frame ≡ frame_bytes

-- All frames of the speech so far, in order.
unfoldable pub frames : Playout → List Bytes
frames p = p.taken ++ (p.items ++ (p.outbox ++ p.cushion))

pub slice-concat : (n : ℕ) (buf : Bytes) → concat (slice n buf).0 ++ (slice n buf).1 ≡ buf
unfolding slice
slice-concat zero buf = refl
slice-concat (suc n) buf = elim (Bool-cases (leb frame_bytes (length buf))) [
  | inl more ↦ simp more (
      append_assoc (take frame_bytes buf) (concat (slice n (drop frame_bytes buf)).0)
        (slice n (drop frame_bytes buf)).1
      ∙ ap (λ xs. take frame_bytes buf ++ xs) (slice-concat n (drop frame_bytes buf))
      ∙ take-append-drop frame_bytes buf)
  | inr less ↦ simp less refl
]

pub slice-IsFrame : (n : ℕ) (buf : Bytes) → All IsFrame (slice n buf).0
unfolding slice
slice-IsFrame zero buf = tt
slice-IsFrame (suc n) buf = elim (Bool-cases (leb frame_bytes (length buf))) [
  | inl more ↦ simp more (
      (
        omega (arith, length-take frame_bytes buf, leb→le frame_bytes (length buf) more),
        slice-IsFrame n (drop frame_bytes buf),
      ))
  | inr less ↦ simp less tt
]

-- The fuel is enough: less than a frame is left.
pub slice-short : (n : ℕ) (buf : Bytes) → length buf ≤ n → length (slice n buf).1 < frame_bytes
unfolding slice
slice-short zero buf few = omega arith
slice-short (suc n) buf few = elim (Bool-cases (leb frame_bytes (length buf))) [
  | inl more ↦ simp more (
      slice-short n (drop frame_bytes buf)
        (omega (arith, length-drop frame_bytes buf, leb→le frame_bytes (length buf) more)))
  | inr less ↦ simp less (ground (arith, less))
]

-- A primed playback holds no frame back.
abbrev pub Loose : Playout → Type 0
Loose p = p.primed ≡ true → p.cushion ≡ []

pub append_last {ℓ} :
    {A : Type ℓ} (xs ys zs ws : List A) → (xs ++ (ys ++ zs)) ++ ws ≡ xs ++ (ys ++ (zs ++ ws))
append_last xs ys zs ws =
    append_assoc xs (ys ++ zs) ws ∙ ap (λ vs. xs ++ vs) (append_assoc ys zs ws)

offer-frames : (f : Bytes) (p : Playout) → Loose p → frames (offer f p) ≡ frames p ++ f ∷ []
unfolding offer frames
offer-frames f p loose = elim (Bool-cases p.primed) [
  | inl free ↦
      let empty : p.cushion ≡ [] = loose free in
      simp (free, empty)
        (ap (λ xs. p.taken ++ (p.items ++ xs)) (append-nil (p.outbox ++ f ∷ []))
          ∙ sym (append_last p.taken p.items p.outbox (f ∷ []))
          ∙ ap (λ xs. (p.taken ++ (p.items ++ xs)) ++ f ∷ []) (sym (append-nil p.outbox)))
  | inr held ↦
      let last : p.taken ++ (p.items ++ (p.outbox ++ (p.cushion ++ f ∷ []))) ≡ frames p ++ f ∷ [] =
        sym (
          append_last p.taken p.items (p.outbox ++ p.cushion) (f ∷ [])
          ∙ ap (λ xs. p.taken ++ (p.items ++ xs)) (append_assoc p.outbox p.cushion (f ∷ []))) in
      elim (Bool-cases (leb playout_prebuffer_frames (length (p.cushion ++ f ∷ [])))) [
        | inl full ↦
            simp (held, full)
              (ap (λ xs. p.taken ++ (p.items ++ xs))
                  (append-nil (p.outbox ++ (p.cushion ++ f ∷ [])))
                ∙ last)
        | inr room ↦ simp (held, room) last
      ]
]

offer-Loose : (f : Bytes) (p : Playout) → Loose p → Loose (offer f p)
unfolding offer
offer-Loose f p loose = ground (arith, loose)

pub offer_all-Loose : (fs : List Bytes) (p : Playout) → Loose p → Loose (offer_all fs p)
unfolding offer_all
offer_all-Loose [] p loose = loose
offer_all-Loose (f ∷ fs) p loose = offer_all-Loose fs (offer f p) (offer-Loose f p loose)

pub offer_all-frames :
    (fs : List Bytes) (p : Playout) → Loose p → frames (offer_all fs p) ≡ frames p ++ fs
unfolding offer_all
offer_all-frames [] p loose = sym (append-nil (frames p))
offer_all-frames (f ∷ fs) p loose =
    offer_all-frames fs (offer f p) (offer-Loose f p loose)
    ∙ ap (λ xs. xs ++ fs) (offer-frames f p loose)
    ∙ append_assoc (frames p) (f ∷ []) fs

-- What cutting a chunk leaves as it is.
abbrev pub Kept : Playout → Playout → Type 0
Kept p q =
    (q.items ≡ p.items)
    × (q.unfinished ≡ p.unfinished)
    × (q.ended ≡ p.ended)
    × (q.running ≡ p.running)

offer-Kept : (f : Bytes) (p : Playout) → Kept p (offer f p)
unfolding offer
offer-Kept f p = ground arith

pub offer_all-Kept : (fs : List Bytes) (p : Playout) → Kept p (offer_all fs p)
unfolding offer_all
offer_all-Kept [] p = (refl, refl, refl, refl)
offer_all-Kept (f ∷ fs) p =
    let (i, u, e, r) = offer_all-Kept fs (offer f p) in
    let (i', u', e', r') = offer-Kept f p in (i ∙ i', u ∙ u', e ∙ e', r ∙ r')

pub slice-count :
    (n : ℕ) (buf : Bytes) → length (slice n buf).0 + length (slice n buf).1 ≤ length buf
unfolding slice
slice-count zero buf = omega arith
slice-count (suc n) buf = elim (Bool-cases (leb frame_bytes (length buf))) [
  | inl more ↦ simp more (
      omega (
        arith,
        slice-count n (drop frame_bytes buf),
        length-drop frame_bytes buf,
        leb→le frame_bytes (length buf) more,
      ))
  | inr less ↦ simp less (omega arith)
]
