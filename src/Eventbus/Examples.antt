-- ===== src/Eventbus/Examples.antt =====
-- A bus with one handler that posts once more, and the theorems on isales_engine/eventbus.py at it.
use isales_engine.Eventbus.{
  Bus, lossy, posts, Reaction, returned, raised, cancelled, lane_for, handlers_of, deliver, aclose,
}
use isales_engine.Eventbus.Lanes.{post_all, lane_of, lossy_queue-post_all}
use isales_engine.Eventbus.Delivery.{
  calm_call, OnlyPosts, visit_all, deliver-isolated, aclose-drains,
}
use isales_engine.Prelude.{
  if◌then◌else◌, length, All, newest, nat_eq, text_eq, ◌==◌, Text, text, ℕ, ◌+◌, ◌-◌, ◌≡◌, refl,
  ◌≢◌, true, false, List, [], ◌∷◌, ◌++◌, arith,
}

-- An event is its type's name, a handler a number, the world the list of what was handled.
abbrev World : Type 0
World = List (ℕ × Text)

abbrev name_of : Text → Text
name_of event = event

abbrev call : ℕ → Text → World → Reaction Text ℕ World
call h event world = record {
  outcome = if h == 0 then raised else returned;
  acts = posts (text "SpeakRequested") ∷ [];
  world = world ++ (h, event) ∷ [];
}

abbrev partial : Text
partial = text "AsrPartial"

abbrev final : Text
final = text "AsrFinal"

abbrev bus : Bus Text ℕ
bus = record {
  lossless_queue = [];
  lossy_queue = [];
  lossy_maxsize = 2;
  lanes = (partial, lossy) ∷ [];
  handlers = (final, 0 ∷ 1 ∷ []) ∷ [];
  running = true;
  closed = false;
  dropped = 0;
}

abbrev waiting : Bus Text ℕ
waiting = record bus { lossless_queue = final ∷ final ∷ [] }

uncancelled : (h : ℕ) (x : Text) (w : World) → (call h x w).outcome ≢ cancelled
uncancelled h x w e = ground arith

only : (h : ℕ) (x : Text) (w : World) → OnlyPosts (call h x w).acts
only h x w = tt

partials_are_lossy :
    All (λ event. lane_of name_of bus event ≡ lossy) (partial ∷ partial ∷ partial ∷ [])
unfolding lane_for
partials_are_lossy = (refl, (refl, (refl, tt)))

lossy_queue-post_all_example :
    ((post_all name_of (partial ∷ partial ∷ partial ∷ []) bus).lossy_queue
      ≡ newest 2 ([] ++ partial ∷ partial ∷ partial ∷ []))
    × ((post_all name_of (partial ∷ partial ∷ partial ∷ []) bus).dropped
        ≡ 0 + (length {A = Text} ([] ++ partial ∷ partial ∷ partial ∷ []) - 2))
lossy_queue-post_all_example =
    lossy_queue-post_all name_of (partial ∷ partial ∷ partial ∷ []) bus refl (omega arith)
      (omega arith) partials_are_lossy

deliver-isolated_example :
    deliver name_of call final bus [] ≡ deliver name_of (calm_call call) final bus []
deliver-isolated_example = deliver-isolated name_of call final bus []

aclose-drains_example : aclose name_of call waiting [] ≡ (
  false,
  record waiting { lossless_queue = []; closed = true; running = false },
  visit_all name_of call uncancelled only (λ t. handlers_of t waiting) (final ∷ final ∷ []) [],
)
aclose-drains_example = aclose-drains name_of call uncancelled only waiting [] refl
