-- ===== src/Core/Event/Delivery.antt =====
-- What a subscriber of the bus gets. About internal/core/event.go.
use mathlib.Core.List.{append_assoc, append-nil}
use headless_csms.Prelude.{
  ℕ, zero, suc, ◌+◌, ◌-◌, ◌%◌, ◌^◌, ◌≤◌, ◌<◌, ◌≡◌, refl, sym, ap, ◌∙◌, List, [], ◌∷◌, ◌++◌, map,
  lt→ltb, length, length-append, take, arith, All, subst,
}
use headless_csms.Core.Event.{
  Event, Subscriber, Bus, subscriber_buffer, offer, publish, publish_all,
}

-- One subscriber's side of `publish_all`.
deliver : List Event → Subscriber → Subscriber
deliver [] s = s
deliver (e ∷ es) s = deliver es (offer e s)

map-deliver :
    (e : Event) (es : List Event) (ss : List Subscriber)
    → map (deliver es) (map (offer e) ss) ≡ map (deliver (e ∷ es)) ss
unfolding deliver
map-deliver e es [] = refl
map-deliver e es (s ∷ ss) = ap (◌∷◌ (deliver es (offer e s))) (map-deliver e es ss)

map_self : (ss : List Subscriber) → map (deliver []) ss ≡ ss
unfolding deliver
map_self [] = refl
map_self (s ∷ ss) = ap (◌∷◌ s) (map_self ss)

publish_all-deliver :
    (es : List Event) (b : Bus) → publish_all es b ≡ record b { subs = map (deliver es) b.subs }
unfolding publish_all publish
publish_all-deliver [] b = cc (map_self b.subs)
publish_all-deliver (e ∷ es) b = cc (publish_all-deliver es (publish e b), map-deliver e es b.subs)

offer_room :
    (e : Event) (s : Subscriber)
    → length s.ch < subscriber_buffer
    → offer e s ≡ record s { ch = s.ch ++ e ∷ [] }
unfolding offer
offer_room e s h = rw (lt→ltb _ _ h, offer) refl

offer_full :
    (e : Event) (s : Subscriber)
    → length s.ch ≡ subscriber_buffer
    → offer e s ≡ record s { drops = (s.drops + 1) % 2 ^ 64 }
unfolding offer
offer_full e s h = ground arith

deliver-ch :
    (es : List Event) (k : ℕ) (s : Subscriber)
    → length s.ch + k ≡ subscriber_buffer
    → (deliver es s).ch ≡ s.ch ++ take k es
unfolding deliver
deliver-ch [] zero s h = sym (append-nil s.ch)
deliver-ch [] (suc k) s h = sym (append-nil s.ch)
deliver-ch (e ∷ es) zero s h =
    rw (offer_full e s (omega arith), deliver)
      (deliver-ch es zero (record s { drops = (s.drops + 1) % 2 ^ 64 }) (omega arith))
deliver-ch (e ∷ es) (suc k) s h =
    rw (offer_room e s (omega arith), deliver)
      (deliver-ch es k (record s { ch = s.ch ++ e ∷ [] })
          (omega (arith, length-append s.ch (e ∷ [])))
        ∙ append_assoc s.ch (e ∷ []) (take k es))

deliver-drops :
    (es : List Event) (k : ℕ) (s : Subscriber)
    → length s.ch + k ≡ subscriber_buffer
    → s.drops < 2 ^ 64
    → (deliver es s).drops ≡ (s.drops + (length es - k)) % 2 ^ 64
unfolding deliver
deliver-drops [] k s h d = omega arith
deliver-drops (e ∷ es) zero s h d =
    rw (offer_full e s (omega arith), deliver)
      (deliver-drops es zero (record s { drops = (s.drops + 1) % 2 ^ 64 }) (omega arith)
          (omega arith)
        ∙ omega arith)
deliver-drops (e ∷ es) (suc k) s h d =
    rw (offer_room e s (omega arith), deliver)
      (deliver-drops es k (record s { ch = s.ch ++ e ∷ [] })
          (omega (arith, length-append s.ch (e ∷ []))) d
        ∙ omega arith)

-- What a subscriber holds after a batch has been published: its channel goes on with as much of the
-- batch as there was room for, in order, and its counter has gone up by the rest.
pub record IsDelivered (es : List Event) (s t : Subscriber) : Type 0 where
  pub ch : t.ch ≡ s.ch ++ take (subscriber_buffer - length s.ch) es
  pub drops : t.drops ≡ (s.drops + (length es - (subscriber_buffer - length s.ch))) % 2 ^ 64
  pub bounded : length t.ch ≤ subscriber_buffer

abbrev pub IsWithin : Subscriber → Type 0
IsWithin s = (length s.ch ≤ subscriber_buffer) × (s.drops < 2 ^ 64)

abbrev pub Delivered : List Event → List Subscriber → List Subscriber → Type 0
Delivered es [] ts = ts ≡ []
Delivered es (s ∷ ss) [] = ⊥
Delivered es (s ∷ ss) (t ∷ ts) = IsDelivered es s t × Delivered es ss ts

length-take-le : (k : ℕ) (es : List Event) → length (take k es) ≤ k
length-take-le zero es = omega arith
length-take-le (suc k) [] = omega arith
length-take-le (suc k) (e ∷ es) = omega (arith, length-take-le k es)

deliver-IsDelivered :
    (es : List Event) (s : Subscriber) → IsWithin s → IsDelivered es s (deliver es s)
deliver-IsDelivered es s (h, d) =
    let ch = deliver-ch es (subscriber_buffer - length s.ch) s (omega arith) in
    record {
      ch = ch;
      drops = deliver-drops es (subscriber_buffer - length s.ch) s (omega arith) d;
      bounded = rw ch (
          omega (
            arith,
            length-append s.ch (take (subscriber_buffer - length s.ch) es),
            length-take-le (subscriber_buffer - length s.ch) es,
          ));
    }

map-Delivered :
    (es : List Event) (ss : List Subscriber)
    → All IsWithin ss
    → Delivered es ss (map (deliver es) ss)
map-Delivered es [] h = refl
map-Delivered es (s ∷ ss) h = (deliver-IsDelivered es s h.0, map-Delivered es ss h.1)

-- Publishing a batch of events to subscribers within their bounds gives each of them the events in
-- order behind what it has not read yet, up to a channel of 256; what does not fit is counted as
-- dropped, modulo 2^64.
pub publish_all-Delivered :
    (es : List Event) (b : Bus) → All IsWithin b.subs → Delivered es b.subs (publish_all es b).subs
publish_all-Delivered es b h =
    subst (Delivered es b.subs) (sym (ap (λ (c : Bus). c.subs) (publish_all-deliver es b)))
      (map-Delivered es b.subs h)
