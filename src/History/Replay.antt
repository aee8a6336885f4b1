-- ===== src/History/Replay.antt =====
-- How a replay goes on with one more event.
use hh_game_market_backend.Base.{◌≡◌, refl, ap, Option, none, some, List, [], ◌∷◌, ◌++◌}
use hh_game_market_backend.Model.{EventData, OrderEvent}
use hh_game_market_backend.History.{Past, apply_payload, apply_events, begin, replay}

apply_events-append :
    (p : Past) (es fs : List OrderEvent)
    → apply_events p (es ++ fs) ≡ apply_events (apply_events p es) fs
unfolding apply_events
apply_events-append p [] fs = refl
apply_events-append p (e ∷ es) fs =
    apply_events-append (apply_payload e.payload e.order_item_id p) es fs

begin-append :
    (d : EventData) (es fs : List OrderEvent) (p : Past)
    → begin d es ≡ some p
    → begin d (es ++ fs) ≡ some (apply_events p fs)
begin-append (EventData.order_created a c items) es fs p h =
    rw (apply_events-append _ es fs)
      (ap (λ o. elim o as (λ _. Option Past) [ none ↦ none | some q ↦ some (apply_events q fs) ]) h)
begin-append (EventData.order_status from to x d) es fs p h = cc
begin-append (EventData.item_status from to x d) es fs p h = cc

-- A history that has begun goes on from where it stands.
pub replay-append :
    (es fs : List OrderEvent) (p : Past)
    → replay es ≡ some p
    → replay (es ++ fs) ≡ some (apply_events p fs)
unfolding replay
replay-append [] fs p h = cc
replay-append (e ∷ es) fs p h = begin-append e.payload es fs p h
