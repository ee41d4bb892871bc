-- ===== src/RunLoop/Laws/Remainder.antt =====
-- What a barge-in leaves of a reply.
use isales_engine.RunLoop.Playing.{Reply, StreamKind, put_job, producer_turn, produced, captured}
use isales_engine.Prelude.{
  length, concat, take_all, nat_eq, text_eq, Text, strip, ℕ, zero, suc, ◌≤◌, ◌≡◌, refl, true, none,
  some, List, [], ◌∷◌, append-nil, append_assoc, arith,
}

-- A producer that holds a job and finds the queue full goes on waiting.
produced-full :
    (n : ℕ) (a b held : Text) (coming : List Text)
    → produced n (record { queue = a ∷ b ∷ []; pending = some held; coming = coming })
      ≡ record { queue = a ∷ b ∷ []; pending = some held; coming = coming }
unfolding produced producer_turn put_job
produced-full zero a b held coming = refl
produced-full (suc n) a b held coming = produced-full n a b held coming

-- After three turns the producer has filled the queue and holds the third sentence.
produced-three :
    (n : ℕ) (a b held : Text) (after : List Text)
    → 3 ≤ n
    → produced n (record { queue = []; pending = none; coming = a ∷ b ∷ held ∷ after })
      ≡ record { queue = a ∷ b ∷ []; pending = some held; coming = after }
unfolding produced producer_turn put_job
produced-three zero a b held after far = absurd (omega arith)
produced-three (suc zero) a b held after far = absurd (omega arith)
produced-three (suc (suc zero)) a b held after far = absurd (omega arith)
produced-three (suc (suc (suc n))) a b held after far = produced-full n a b held after

-- In an eager stream, once the producer has had three turns or more at the sentences behind the one
-- that plays, a barge-in keeps the interrupted sentence, the two that are queued and the buffered
-- ones after the third, and loses the third, which the producer holds.
pub captured-held :
    (kind : StreamKind) (reply : Reply) (current first second held : Text) (after : List Text)
    → kind.is_eager ≡ true
    → 3 ≤ reply.turns
    → length after ≤ reply.buffered
    → captured kind reply current (first ∷ second ∷ held ∷ after)
      ≡ strip (concat (current ∷ first ∷ second ∷ after))
unfolding captured
captured-held kind reply current first second held after eager far enough =
    rw
      (
        eager,
        produced-three reply.turns first second held after far,
        take_all reply.buffered after enough,
        append-nil second,
        append_assoc first second (concat after),
      )
      refl
