-- ===== src/Webhook/Replay.antt =====
-- Stripe delivers an event more than once; only the first delivery has an effect.
use asb_cloud_api.Base.{
  ◌≡◌, refl, ◌⊎◌, inl, inr, String, true, some, List, [], ◌∷◌, contains, All, arith, string_eq,
  option_eq,
}
use asb_cloud_api.Webhook.{Event, State, truthy, record_event_once, handle_event}

-- A delivery: the event, and the random token at hand.
abbrev pub Delivery : Type 0
Delivery = Event × String

pub deliver : List Delivery → State → State
deliver [] s = s
deliver ((e, token) ∷ ds) s = deliver ds (handle_event token e s).1

-- The event has an identifier, which is among those recorded.
abbrev pub IsRecorded : List String → Event → Type 0
IsRecorded events e = (id : String) × (truthy e.id ≡ some id) × (contains events id ≡ true)

-- The events of some deliveries.
abbrev pub IsAmong : List Delivery → Event → Type 0
IsAmong [] e = ⊥
IsAmong ((first, _) ∷ ds) e = (first.id ≡ e.id) ⊎ IsAmong ds e

handle_event-same :
    (token : String) (e : Event) (s : State)
    → IsRecorded s.events e
    → (handle_event token e s).1 ≡ s
unfolding handle_event record_event_once
handle_event-same token e s (id, named, there) = ground arith

handle_event-keeps :
    (token : String) (e : Event) (s : State) (id : String)
    → contains s.events id ≡ true
    → contains (handle_event token e s).1.events id ≡ true
unfolding handle_event record_event_once
handle_event-keeps token e s id there = ground arith

handle_event-records :
    (token : String) (e : Event) (s : State) (id : String)
    → truthy e.id ≡ some id
    → contains (handle_event token e s).1.events id ≡ true
unfolding handle_event record_event_once
handle_event-records token e s id named = ground arith

deliver-keeps :
    (ds : List Delivery) (s : State) (id : String)
    → contains s.events id ≡ true
    → contains (deliver ds s).events id ≡ true
unfolding deliver
deliver-keeps [] s id there = there
deliver-keeps ((e, token) ∷ ds) s id there =
    deliver-keeps ds (handle_event token e s).1 id (handle_event-keeps token e s id there)

deliver-records :
    (ds : List Delivery) (s : State) (e : Event) (id : String)
    → truthy e.id ≡ some id
    → IsAmong ds e
    → contains (deliver ds s).events id ≡ true
unfolding deliver
deliver-records [] s e id named among = elim among [ ]
deliver-records ((first, token) ∷ ds) s e id named (inl same) =
    deliver-keeps ds (handle_event token first s).1 id
      (handle_event-records token first s id (rw same named))
deliver-records ((first, token) ∷ ds) s e id named (inr later) =
    deliver-records ds (handle_event token first s).1 e id named later

deliver-same :
    (ds : List Delivery) (s : State) → All (λ d. IsRecorded s.events d.0) ds → deliver ds s ≡ s
unfolding deliver
deliver-same [] s all = refl
deliver-same ((e, token) ∷ ds) s (one, rest) =
    rw (handle_event-same token e s one) (deliver-same ds s rest)

-- A repeated delivery: of an event with an identifier that was delivered before.
abbrev pub IsRepeat : List Delivery → Delivery → Type 0
IsRepeat ds d = (id : String) × (truthy d.0.id ≡ some id) × IsAmong ds d.0

All-IsRecorded :
    (ds again : List Delivery) (s : State)
    → All (IsRepeat ds) again
    → All (λ d. IsRecorded (deliver ds s).events d.0) again
All-IsRecorded ds [] s all = tt
All-IsRecorded ds (d ∷ again) s ((id, named, among), rest) =
    ((id, named, deliver-records ds s d.0 id named among), All-IsRecorded ds again s rest)

-- Repeated deliveries change nothing, in any number and any order: not the accounts and not the
-- record of events.
pub deliver_repeats :
    (ds again : List Delivery) (s : State)
    → All (IsRepeat ds) again
    → deliver again (deliver ds s) ≡ deliver ds s
deliver_repeats ds again s all = deliver-same again (deliver ds s) (All-IsRecorded ds again s all)
