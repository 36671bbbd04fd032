-- ===== src/Client/Place.antt =====
-- Events and the place of a client in the stream, in packages/client-core/src/index.ts: applying
-- events neither reads nor moves it.
use j_messenger.Common.{ℕ, ◌≡◌, refl, ap, ◌∙◌, List, [], ◌∷◌, ◌++◌, some, String, arith}
use j_messenger.Client.{
  Client, Event, current, merge_message, merge_valid, apply_payload, apply_event, apply_events,
}

-- The client at another place of the stream.
abbrev pub place : String → ℕ → Client → Client
place cursor position c = record c {
  snapshot = record c.snapshot { sync_cursor = some cursor; snapshot_position = position };
}

apply_payload-place :
    (g : ℕ) (e : Event) (cursor : String) (position : ℕ) (c : Client)
    → apply_payload e.payload g (place cursor position c)
      ≡ place cursor position (apply_payload e.payload g c)
unfolding apply_payload merge_message merge_valid
apply_payload-place g e cursor position c = ground arith

apply_event-place :
    (g : ℕ) (e : Event) (cursor : String) (position : ℕ) (c : Client)
    → apply_event g e (place cursor position c) ≡ place cursor position (apply_event g e c)
unfolding apply_event
apply_event-place g e cursor position c = ground (arith, apply_payload-place g e cursor position c)

pub apply_events-place :
    (g : ℕ) (es : List Event) (cursor : String) (position : ℕ) (c : Client)
    → apply_events g es (place cursor position c) ≡ place cursor position (apply_events g es c)
unfolding apply_events
apply_events-place g [] cursor position c = refl
apply_events-place g (e ∷ es) cursor position c =
    ap (apply_events g es) (apply_event-place g e cursor position c)
    ∙ apply_events-place g es cursor position (apply_event g e c)

pub apply_events-append :
    (g : ℕ) (es fs : List Event) (c : Client)
    → apply_events g (es ++ fs) c ≡ apply_events g fs (apply_events g es c)
unfolding apply_events
apply_events-append g [] fs c = refl
apply_events-append g (e ∷ es) fs c = apply_events-append g es fs (apply_event g e c)

apply_event-current :
    (g h : ℕ) (e : Event) (c : Client) → current h (apply_event g e c) ≡ current h c
unfolding apply_event apply_payload merge_message merge_valid
apply_event-current g h e c = ground arith

pub apply_events-current :
    (g h : ℕ) (es : List Event) (c : Client) → current h (apply_events g es c) ≡ current h c
unfolding apply_events
apply_events-current g h [] c = refl
apply_events-current g h (e ∷ es) c =
    apply_events-current g h es (apply_event g e c) ∙ apply_event-current g h e c
