-- ===== src/Client/Deletion.antt =====
-- Events that tell of a deletion, and those that follow it, in packages/client-core/src/index.ts.
use j_messenger.Common.{
  ℕ, ◌≡◌, true, List, [], ◌∷◌, Option, none, String, arith, All, All-map, subst, sym,
}
use j_messenger.Messages.{MessageOutput}
use j_messenger.Client.{
  Client, Event, EventData, is_deleted, current, merge_message, merge_valid, apply_payload,
  apply_event, apply_events,
}
use j_messenger.Client.Cache.{IsGood, IsHidden, apply_events-IsGood}

-- What is known to be deleted stays so.
apply_event-is_deleted :
    (id g : ℕ) (e : Event) (c : Client)
    → is_deleted id c.message_tombstones ≡ true
    → is_deleted id (apply_event g e c).message_tombstones ≡ true
unfolding apply_event apply_payload merge_message merge_valid
apply_event-is_deleted id g e c known = ground arith

apply_events-is_deleted :
    (id g : ℕ) (es : List Event) (c : Client)
    → is_deleted id c.message_tombstones ≡ true
    → is_deleted id (apply_events g es c).message_tombstones ≡ true
unfolding apply_events
apply_events-is_deleted id g [] c known = known
apply_events-is_deleted id g (e ∷ es) c known =
    apply_events-is_deleted id g es (apply_event g e c) (apply_event-is_deleted id g e c known)

apply_deletion-is_deleted :
    (id g : ℕ) (files : Option (List String)) (e : Event) (c : Client)
    → e.payload ≡ EventData.message_deleted id files
    → current g c ≡ true
    → is_deleted id (apply_event g e c).message_tombstones ≡ true
unfolding apply_event apply_payload
apply_deletion-is_deleted id g files e c deletes now =
    let known : is_deleted id (apply_payload e.payload g c).message_tombstones ≡ true =
      ground arith in
    ground arith

-- A message with this id shows no text.
abbrev pub IsGone : ℕ → MessageOutput → Type 0
IsGone id m = m.id ≡ id → m.text ≡ none

-- Once a client whose messages are in good order has applied the deletion of a message, whatever
-- events it applies next, a late copy of the message among them, it shows no text of that message.
pub apply_events-IsGone :
    (id g : ℕ) (files : Option (List String)) (e : Event) (es : List Event) (c : Client)
    → IsGood c
    → current g c ≡ true
    → e.payload ≡ EventData.message_deleted id files
    → All (IsGone id) (apply_events g (e ∷ es) c).snapshot.messages
unfolding apply_events
apply_events-IsGone id g files e es c good now deletes =
    let end = apply_events g (e ∷ es) c in
    let known =
      apply_events-is_deleted id g es (apply_event g e c)
        (apply_deletion-is_deleted id g files e c deletes now) in
    let gone : (m : MessageOutput) → IsHidden end.message_tombstones m → IsGone id m =
      λ m h same_id.
        (h (subst (λ i. is_deleted i end.message_tombstones ≡ true) (sym same_id) known)).0 in
    All-map (IsHidden end.message_tombstones) (IsGone id) gone end.snapshot.messages
      (apply_events-IsGood g (e ∷ es) c good).hidden
