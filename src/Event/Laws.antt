-- ===== src/Event/Laws.antt =====
-- Which callbacks an event reaches.
use aio4c.Prelude.{ℕ, zero, suc, ◌≡◌, refl, ap, ◌∙◌, List, [], ◌∷◌, if◌then◌else◌, arith}
use aio4c.Event.Kind.{Event, same_self}
use aio4c.Event.{Pointer, EventHandler, EventQueue, set_list, handle_loop, event_handle}

-- The handlers that stay after their event.
unfoldable pub lasting : List EventHandler → List EventHandler
lasting [] = []
lasting (h ∷ hs) = if h.once then lasting hs else h ∷ lasting hs

module _ {ℓ} {W : Type ℓ} (run : Pointer → Event → Pointer → Pointer → W → W) where
  -- The callbacks of a list, called first to last.
  unfoldable pub call_each : Event → Pointer → List EventHandler → W → W
  call_each e source [] w = w
  call_each e source (h ∷ hs) w = call_each e source hs (run h.callback e source h.arg w)

  handle_loop-eq :
      (e : Event) (source : Pointer) (hs : List EventHandler) (w : W)
      → handle_loop run e source hs w ≡ (lasting hs, call_each e source hs w)
  unfolding handle_loop lasting call_each
  handle_loop-eq e source [] w = refl
  handle_loop-eq e source (h ∷ hs) w =
      rw (handle_loop-eq e source hs (run h.callback e source h.arg w))

  lasting-lasting : (hs : List EventHandler) → lasting (lasting hs) ≡ lasting hs
  unfolding lasting
  lasting-lasting [] = refl
  lasting-lasting (h ∷ hs) = ground (arith, lasting-lasting hs)

  -- The same event, again and again.
  pub handle_times : ℕ → EventQueue → Event → Pointer → W → EventQueue × W
  handle_times zero q e source w = (q, w)
  handle_times (suc n) q e source w =
      let (q', w') = event_handle run q e source w in handle_times n q' e source w'

  unfoldable pub call_times : ℕ → Event → Pointer → List EventHandler → W → W
  call_times zero e source hs w = w
  call_times (suc n) e source hs w = call_times n e source hs (call_each e source hs w)

  set_list_self : (q : EventQueue) (e : Event) (hs : List EventHandler) → set_list q e hs e ≡ hs
  set_list_self q e hs = rw (same_self e)

  pub event_handle-eq :
      (q : EventQueue) (e : Event) (source : Pointer) (w : W)
      → event_handle run q e source w ≡ (set_list q e (lasting (q e)), call_each e source (q e) w)
  unfolding event_handle
  event_handle-eq q e source w = rw (handle_loop-eq e source (q e) w)

  handle_times-lasting :
      (n : ℕ) (q : EventQueue) (hs : List EventHandler) (e : Event) (source : Pointer) (w : W)
      → q e ≡ hs
      → lasting hs ≡ hs
      → (handle_times n q e source w).1 ≡ call_times n e source hs w
  unfolding handle_times call_times
  handle_times-lasting zero q hs e source w at h = refl
  handle_times-lasting (suc n) q hs e source w at h =
      ap (λ (p : EventQueue × W). (handle_times n p.0 e source p.1).1)
        (event_handle-eq q e source w)
      ∙ handle_times-lasting n (set_list q e (lasting (q e))) hs e source
          (call_each e source (q e) w)
          (set_list_self q e (lasting (q e)) ∙ ap (λ t. lasting t) at ∙ h) h
      ∙ ap (λ t. call_times n e source hs (call_each e source t w)) at

  -- Of an event that comes n + 1 times, every handler gets the first, in the order of the handlers in the list
  -- of the event; the others reach just the handlers that were not registered for once, in the same order.
  pub event_handle-once :
      (n : ℕ) (q : EventQueue) (e : Event) (source : Pointer) (w : W)
      → (handle_times (suc n) q e source w).1
        ≡ call_times n e source (lasting (q e)) (call_each e source (q e) w)
  unfolding handle_times
  event_handle-once n q e source w =
      ap (λ (p : EventQueue × W). (handle_times n p.0 e source p.1).1)
        (event_handle-eq q e source w)
      ∙ handle_times-lasting n (set_list q e (lasting (q e))) (lasting (q e)) e source
          (call_each e source (q e) w) (set_list_self q e (lasting (q e))) (lasting-lasting (q e))
