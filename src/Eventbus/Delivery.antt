-- ===== src/Eventbus/Delivery.antt =====
-- What a delivery and `aclose` do, whatever the handlers are.
use isales_engine.Prelude.{
  length, Eq, nat_eq, text_eq, Text, ◌≡◌, refl, ap, ◌∙◌, ◌≢◌, ◌⊎◌, inl, inr, true, false, List, [],
  ◌∷◌, ◌++◌,
}
use isales_engine.Eventbus.Lanes.{post-closed, keeps-post}
use isales_engine.Eventbus.{
  Bus, Act, posts, subscribes, unsubscribes, Reaction, Outcome, returned, raised, cancelled,
  handlers_of, perform, deliver_to, deliver, drain, stop_tasks, aclose, go_on,
}

-- The same outcome with every exception turned into a return.
abbrev pub calm : Outcome → Outcome
calm returned = returned
calm raised = returned
calm cancelled = cancelled

abbrev pub calm_call : {E H W : Type 0} → (H → E → W → Reaction E H W) → H → E → W → Reaction E H W
calm_call call h event world = record (call h event world) {
  outcome = calm (call h event world).outcome;
}

Outcome-cases : (o : Outcome) → (o ≡ returned) ⊎ ((o ≡ raised) ⊎ (o ≡ cancelled))
Outcome-cases returned = inl refl
Outcome-cases raised = inr (inl refl)
Outcome-cases cancelled = inr (inr refl)

-- The handler does not change who is subscribed.
abbrev pub OnlyPosts : {E H : Type 0} → List (Act E H) → Type 0
OnlyPosts [] = Unit
OnlyPosts (posts x ∷ acts) = OnlyPosts acts
OnlyPosts (subscribes t h ∷ acts) = ⊥
OnlyPosts (unsubscribes t h ∷ acts) = ⊥

module _ {E H W : Type 0} ⦃e : Eq H⦄ (type_of : E → Text) (call : H → E → W → Reaction E H W) where
  -- An exception in a handler changes nothing for the bus, the world and the other handlers:
  -- a delivery ends as if each handler that raises had returned.
  pub deliver-isolated :
      (event : E) (bus : Bus E H) (world : W)
      → deliver type_of call event bus world ≡ deliver type_of (calm_call call) event bus world
  unfolding deliver
  deliver-isolated event bus world = go _ bus world
    where
      go :
          (hs : List H) (b : Bus E H) (w : W)
          → deliver_to type_of call hs event b w ≡ deliver_to type_of (calm_call call) hs event b w
      go [] b w = refl
      go (h ∷ hs) b w = elim (Outcome-cases (call h event w).outcome) [
        | inl done ↦ rw (done, deliver_to) (go hs _ _)
        | inr (inl failed) ↦ rw (failed, deliver_to) (go hs _ _)
        | inr (inr stopped) ↦ rw (stopped, deliver_to)
      ]

  -- All the handlers in turn, with no regard to how each ends: the acts and the last world.
  abbrev pub visit : List H → E → W → List (Act E H) × W
  visit [] event world = ([], world)
  visit (h ∷ hs) event world =
      let r = call h event world in let rest = visit hs event r.world in (r.acts ++ rest.0, rest.1)

  perform-append :
      (acts more : List (Act E H)) (bus : Bus E H)
      → perform type_of (acts ++ more) bus ≡ perform type_of more (perform type_of acts bus)
  unfolding perform
  perform-append [] more bus = refl
  perform-append (posts x ∷ acts) more bus = perform-append acts more _
  perform-append (subscribes t h ∷ acts) more bus = perform-append acts more _
  perform-append (unsubscribes t h ∷ acts) more bus = perform-append acts more _

  perform-closed :
      (acts : List (Act E H)) (bus : Bus E H)
      → bus.closed ≡ true
      → OnlyPosts acts
      → perform type_of acts bus ≡ bus
  unfolding perform
  perform-closed [] bus c o = refl
  perform-closed (posts x ∷ acts) bus c o =
      perform-closed acts _ ((keeps-post type_of x bus).1 ∙ c) o
      ∙ post-closed type_of (x ∷ []) bus c
  perform-closed (subscribes t h ∷ acts) bus c o = absurd o
  perform-closed (unsubscribes t h ∷ acts) bus c o = absurd o

  module _ (uncancelled : (h : H) (x : E) (w : W) → (call h x w).outcome ≢ cancelled) where
    deliver_to-eq-visit :
        (hs : List H) (event : E) (bus : Bus E H) (world : W)
        → deliver_to type_of call hs event bus world
          ≡ (false, perform type_of (visit hs event world).0 bus, (visit hs event world).1)
    unfolding deliver_to
    deliver_to-eq-visit [] event bus world = unfold perform in refl
    deliver_to-eq-visit (h ∷ hs) event bus world =
        let r = call h event world in
        let rest = deliver_to-eq-visit hs event (perform type_of r.acts bus) r.world in
        let joined = perform-append r.acts (visit hs event r.world).0 bus in
        elim (Outcome-cases (call h event world).outcome) [
          | inl done ↦ rw (done, deliver_to) (rw joined rest)
          | inr (inl failed) ↦ rw (failed, deliver_to) (rw joined rest)
          | inr (inr stopped) ↦ absurd (uncancelled h event world stopped)
        ]

    -- With no cancellation a delivery calls each handler of the snapshot once, in the order of
    -- subscription, whatever the others do, and then the bus holds what they did to it.
    pub deliver-eq-visit :
        (event : E) (bus : Bus E H) (world : W)
        → deliver type_of call event bus world ≡ (
          false,
          perform type_of (visit (handlers_of (type_of event) bus) event world).0 bus,
          (visit (handlers_of (type_of event) bus) event world).1,
        )
    unfolding deliver
    deliver-eq-visit event bus world =
        deliver_to-eq-visit (handlers_of (type_of event) bus) event bus world

    module _ (only : (h : H) (x : E) (w : W) → OnlyPosts (call h x w).acts) where
      OnlyPosts-append : (a b : List (Act E H)) → OnlyPosts a → OnlyPosts b → OnlyPosts (a ++ b)
      OnlyPosts-append [] b ha hb = hb
      OnlyPosts-append (posts x ∷ a) b ha hb = OnlyPosts-append a b ha hb
      OnlyPosts-append (subscribes t h ∷ a) b ha hb = absurd ha
      OnlyPosts-append (unsubscribes t h ∷ a) b ha hb = absurd ha

      visit-OnlyPosts : (hs : List H) (event : E) (world : W) → OnlyPosts (visit hs event world).0
      visit-OnlyPosts [] event world = tt
      visit-OnlyPosts (h ∷ hs) event world =
          OnlyPosts-append (call h event world).acts _ (only h event world)
            (visit-OnlyPosts hs event (call h event world).world)

      -- The events of the queue, one after the other, each to the handlers of its type.
      abbrev pub visit_all : (Text → List H) → List E → W → W
      visit_all handlers [] world = world
      visit_all handlers (event ∷ events) world =
          visit_all handlers events (visit (handlers (type_of event)) event world).1

      deliver-closed :
          (event : E) (bus : Bus E H) (world : W)
          → bus.closed ≡ true
          → deliver type_of call event bus world
            ≡ (false, bus, (visit (handlers_of (type_of event) bus) event world).1)
      deliver-closed event bus world c =
          deliver-eq-visit event bus world
          ∙ ap
              (λ (b : Bus E H). (false, b, (visit (handlers_of (type_of event) bus) event world).1))
              (perform-closed _ bus c (visit-OnlyPosts _ event world))

      drain-eq-visit_all :
          (events : List E) (bus : Bus E H) (world : W)
          → bus.closed ≡ true
          → drain type_of call (length events) (record bus { lossless_queue = events }) world ≡ (
            false,
            record bus { lossless_queue = [] },
            visit_all (λ t. handlers_of t bus) events world,
          )
      unfolding drain handlers_of
      drain-eq-visit_all [] bus world c = refl
      drain-eq-visit_all (event ∷ events) bus world c =
          ap (go_on type_of call (drain type_of call (length events)))
            (deliver-closed event (record bus { lossless_queue = events }) world c)
          ∙ drain-eq-visit_all events bus _ c

      -- If no handler suspends, is cancelled or changes the subscriptions, closing an open bus
      -- delivers exactly the events that the lossless lane held, in order, to the handlers subscribed,
      -- and leaves the lane empty: what a handler posts meanwhile is ignored, so the drain ends. The
      -- lossy lane is left as it was and the dispatchers stop.
      pub aclose-drains :
          (bus : Bus E H) (world : W)
          → bus.closed ≡ false
          → aclose type_of call bus world ≡ (
            false,
            record bus { lossless_queue = []; closed = true; running = false },
            visit_all (λ t. handlers_of t bus) bus.lossless_queue world,
          )
      unfolding aclose handlers_of
      aclose-drains bus world unclosed =
          rw (unclosed, aclose)
            (rw (
              drain-eq-visit_all bus.lossless_queue (record bus { closed = true }) world refl,
              stop_tasks,
            ))
