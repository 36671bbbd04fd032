-- ===== src/Client/Cache.antt =====
-- What the handlers of packages/client-core/src/index.ts keep of the list of messages: its order by
-- id, and that a deleted message shows no text.
use j_messenger.Common.{
  ℕ, ◌≡◌, refl, Bool, true, false, List, [], ◌∷◌, map, Option, none, String, arith, update, All,
}
use j_messenger.Common.Sorting.{sort, sorted, insert, sort-sorted}
use j_messenger.Messages.{MessageOutput}
use j_messenger.Client.{
  Client, EventData, Event, id_le, is_deleted, put_message, merge_valid, merge_message,
  apply_payload, apply_event, apply_events, hide_message, has_id, without_file, live_files,
}
use j_messenger.Client.Wire.{MessageList, put_by_id, put_page, put_pages, loaded}

-- A message of which it is known that it was deleted has no text.
abbrev pub IsHidden : List ℕ → MessageOutput → Type 0
IsHidden gone m = is_deleted m.id gone ≡ true → (m.text ≡ none) × (m.content_expired ≡ true)

-- The messages of the snapshot: in the order of their ids, and the deleted ones without a text.
pub record IsGood (c : Client) : Type 0 where
  pub in_order : sorted id_le c.snapshot.messages ≡ true
  pub hidden : All (IsHidden c.message_tombstones) c.snapshot.messages

pub id_le_total : (x y : MessageOutput) → id_le x y ≡ false → id_le y x ≡ true
id_le_total x y h = ground arith

pub sort_messages-sorted : (ms : List MessageOutput) → sorted id_le (sort id_le ms) ≡ true
sort_messages-sorted ms = sort-sorted id_le id_le_total ms

module _ {κ} (P : MessageOutput → Type κ) where
  All-insert :
      (m : MessageOutput) (xs : List MessageOutput) → P m → All P xs → All P (insert id_le m xs)
  unfolding insert
  All-insert m [] p h = (p, tt)
  All-insert m (x ∷ xs) p h = ground (arith, All-insert m xs p h.1)

  pub All-sort : (xs : List MessageOutput) → All P xs → All P (sort id_le xs)
  unfolding sort
  All-sort [] h = tt
  All-sort (x ∷ xs) h = All-insert x (sort id_le xs) h.0 (All-sort xs h.1)

  pub All-put_message :
      (m : MessageOutput) (xs : List MessageOutput) → P m → All P xs → All P (put_message m xs)
  unfolding put_message
  All-put_message m [] p h = (p, tt)
  All-put_message m (x ∷ xs) p h = ground (arith, All-put_message m xs p h.1)

  All-put_by_id :
      (m : MessageOutput) (xs : List MessageOutput) → P m → All P xs → All P (put_by_id m xs)
  unfolding put_by_id
  All-put_by_id m [] p h = (p, tt)
  All-put_by_id m (x ∷ xs) p h = ground (arith, All-put_by_id m xs p h.1)

  module _ (c : Client) (every_loaded : (m : MessageOutput) → P (loaded c m)) where
    All-put_page : (ms xs : List MessageOutput) → All P xs → All P (put_page c xs ms)
    unfolding put_page
    All-put_page [] xs h = h
    All-put_page (m ∷ ms) xs h =
        All-put_page ms (put_by_id (loaded c m) xs)
          (All-put_by_id (loaded c m) xs (every_loaded m) h)

    pub All-put_pages :
        (ps : List MessageList) (xs : List MessageOutput) → All P xs → All P (put_pages c xs ps)
    unfolding put_pages
    All-put_pages [] xs h = h
    All-put_pages (p ∷ ps) xs h =
        All-put_pages ps (put_page c xs p.items) (All-put_page p.items xs h)

pub loaded-IsHidden : (c : Client) (m : MessageOutput) → IsHidden c.message_tombstones (loaded c m)
loaded-IsHidden c m gone = ground arith

-- A change of a message that keeps its id keeps the order.
module _ (f : MessageOutput → MessageOutput) (keeps : (m : MessageOutput) → (f m).id ≡ m.id) where
  update-in_order :
      (p : MessageOutput → Bool) (xs : List MessageOutput)
      → sorted id_le xs ≡ true
      → sorted id_le (update p f xs) ≡ true
  update-in_order p [] s = refl
  update-in_order p (x ∷ []) s = refl
  update-in_order p (x ∷ y ∷ ys) s = ground (arith, keeps x, keeps y, update-in_order p (y ∷ ys))

  map-in_order : (xs : List MessageOutput) → sorted id_le xs ≡ true → sorted id_le (map f xs) ≡ true
  map-in_order [] s = refl
  map-in_order (x ∷ []) s = refl
  map-in_order (x ∷ y ∷ ys) s = ground (arith, keeps x, keeps y, map-in_order (y ∷ ys))

hide-IsHidden :
    (id : ℕ) (files : Option (List String)) (gone : List ℕ) (xs : List MessageOutput)
    → All (IsHidden gone) xs
    → All (IsHidden (id ∷ gone)) (update (has_id id) (hide_message files) xs)
hide-IsHidden id files gone [] h = tt
hide-IsHidden id files gone (x ∷ xs) h =
    (λ d. ground (arith, h.0), hide-IsHidden id files gone xs h.1)

without_file-IsHidden :
    (f : String) (gone : List ℕ) (xs : List MessageOutput)
    → All (IsHidden gone) xs
    → All (IsHidden gone) (map (without_file f) xs)
without_file-IsHidden f gone [] h = tt
without_file-IsHidden f gone (x ∷ xs) h = (h.0, without_file-IsHidden f gone xs h.1)

merge_valid-IsGood :
    (m : MessageOutput) (c : Client)
    → is_deleted m.id c.message_tombstones ≡ false
    → IsGood c
    → IsGood (merge_valid m c)
unfolding merge_valid
merge_valid-IsGood m c live good =
    let merged = record m { file_ids = live_files c.file_tombstones m.file_ids } in
    let next = put_message merged c.snapshot.messages in
    record {
      in_order = sort_messages-sorted next;
      hidden = All-sort (IsHidden c.message_tombstones) next (
          All-put_message (IsHidden c.message_tombstones) merged c.snapshot.messages
            (λ d. ground arith) good.hidden);
    }

pub merge_message-IsGood :
    (m : MessageOutput) (g : ℕ) (c : Client) → IsGood c → IsGood (merge_message m g c)
unfolding merge_message
merge_message-IsGood m g c good = ground (arith, merge_valid-IsGood m c)

apply_payload-IsGood :
    (d : EventData) (g : ℕ) (c : Client) → IsGood c → IsGood (apply_payload d g c)
unfolding apply_payload
apply_payload-IsGood (EventData.message_created m) g c good = merge_message-IsGood m g c good
apply_payload-IsGood (EventData.conversation_created v) g c good = record {
  in_order = good.in_order;
  hidden = good.hidden;
}
apply_payload-IsGood (EventData.message_deleted id files) g c good = record {
  in_order =
      update-in_order (hide_message files) (λ m. refl) (has_id id) c.snapshot.messages
        good.in_order;
  hidden = hide-IsHidden id files c.message_tombstones c.snapshot.messages good.hidden;
}
apply_payload-IsGood (EventData.file_deleted f) g c good = record {
  in_order = map-in_order (without_file f) (λ m. refl) c.snapshot.messages good.in_order;
  hidden = without_file-IsHidden f c.message_tombstones c.snapshot.messages good.hidden;
}
apply_payload-IsGood EventData.other g c good = good

pub apply_event-IsGood : (g : ℕ) (e : Event) (c : Client) → IsGood c → IsGood (apply_event g e c)
unfolding apply_event
apply_event-IsGood g e c good =
    let applied = apply_payload-IsGood e.payload g c good in
    ground (arith, applied.in_order, applied.hidden)

pub apply_events-IsGood :
    (g : ℕ) (es : List Event) (c : Client) → IsGood c → IsGood (apply_events g es c)
unfolding apply_events
apply_events-IsGood g [] c good = good
apply_events-IsGood g (e ∷ es) c good =
    apply_events-IsGood g es (apply_event g e c) (apply_event-IsGood g e c good)
