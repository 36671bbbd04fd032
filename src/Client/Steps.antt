-- ===== src/Client/Steps.antt =====
-- The client of packages/client-core/src/index.ts as a state machine: a step is what one handler
-- does between two awaits, and the runs of its functions are sequences of steps.
use j_messenger.Common.{ℕ, ◌≡◌, refl, Bool, false, List, [], ◌∷◌, Option, String, arith, if_intro}
use j_messenger.Messages.{MessageOutput}
use j_messenger.Client.{
  Client, Snapshot, Pending, User, CurrentUser, Event, current, publish, new_client, empty_snapshot,
  merge_message, apply_event, id_le,
}
use j_messenger.Client.Wire.{
  ConversationList, MessageList, SyncPage, show_conversations, show_messages, put_pages,
}
use j_messenger.Client.Catchup.{
  begin_generation, clear_session, begin_reset, take_page, apply_buffered, apply_above, set_cursor,
}
use j_messenger.Client.Session.{Connection, on_event, start_stream, connect, set_user, dispose}
use j_messenger.Conversations.{ConversationDto}
use j_messenger.Client.Lists.{add_users, add_conversations, add_conversation}
use j_messenger.Client.Send.{mark_failed, schedule_message_retry, add_pending}
use j_messenger.Client.Cache.{
  IsGood, IsHidden, All-sort, All-put_pages, loaded-IsHidden, sort_messages-sorted,
  merge_message-IsGood, apply_event-IsGood, apply_events-IsGood,
}

pub data Step : Client → Client → Type 0 where
  -- A reply: a message, a page of events, the two halves of a load, the user
  merged : (m : MessageOutput) (g : ℕ) (c : Client) → Step c (merge_message m g c)
  paged : (g : ℕ) (r : SyncPage) (c : Client) → Step c (take_page g r c)
  listed : (l : ConversationList) (c : Client) → Step c (show_conversations l c)
  loaded :
      (l : ConversationList) (ps : List MessageList) (c : Client) → Step c (show_messages l ps c)
  told_users : (us : List User) (c : Client) → Step c (add_users us c)
  told_conversations : (vs : List ConversationDto) (c : Client) → Step c (add_conversations vs c)
  told_conversation : (v : ConversationDto) (c : Client) → Step c (add_conversation v c)
  entered : (u : CurrentUser) (c : Client) → Step c (set_user u c)
  -- The socket
  framed : (k : Connection) (e : Event) (c : Client) → Step c (on_event k e c)
  drained : (g : ℕ) (c : Client) → Step c (apply_buffered g c)
  streamed : (sockets : Bool) (g : ℕ) (c : Client) → Step c (start_stream sockets g c)
  connected : (sockets : Bool) (g : ℕ) (c : Client) → Step c (connect sockets g c)
  closed : (c : Client) → Step c (record c { socket = false })
  blocked : (b : Bool) (c : Client) → Step c (record c { bootstrapping = b })
  -- The place in the stream, and a reset
  moved : (cursor : Option String) (c : Client) → Step c (set_cursor cursor c)
  placed :
      (p : ℕ) (c : Client)
      → Step c (record c { snapshot = record c.snapshot { snapshot_position = p } })
  restarted : (g : ℕ) (c : Client) → Step c (begin_reset g c)
  -- A session's beginning and end
  begun : (c : Client) → Step c (begin_generation c)
  cleared : (c : Client) → Step c (clear_session c)
  emptied : (g : ℕ) (c : Client) → Step c (publish (empty_snapshot g) c)
  disposed : (c : Client) → Step c (dispose c)
  -- Messages on their way
  added : (p : Pending) (c : Client) → Step c (add_pending p c)
  failed : (k : String) (c : Client) → Step c (mark_failed k c)
  scheduled : (p : Pending) (now : ℕ) (c : Client) → Step c (schedule_message_retry p now c)
  timed : (ks : List String) (c : Client) → Step c (record c { message_retry_timers = ks })

-- Any number of steps.
pub data Reach : Client → Client → Type 0 where
  stop : (c : Client) → Reach c c
  next : {b c d : Client} → Reach b c → Step c d → Reach b d

pub Reach-trans : {b c d : Client} → Reach b c → Reach c d → Reach b d
Reach-trans p (stop _) = p
Reach-trans p (next q s) = next (Reach-trans p q) s

apply_above-IsGood : (g : ℕ) (es : List Event) (c : Client) → IsGood c → IsGood (apply_above g es c)
unfolding apply_above
apply_above-IsGood g [] c good = good
apply_above-IsGood g (e ∷ es) c good =
    apply_above-IsGood g es _ (if_intro IsGood _ (λ a. apply_event-IsGood g e c good) (λ a. good))

show_messages-IsGood :
    (l : ConversationList) (ps : List MessageList) (c : Client) → IsGood (show_messages l ps c)
unfolding show_messages
show_messages-IsGood l ps c =
    let hidden = IsHidden c.message_tombstones in
    record {
      in_order = sort_messages-sorted (put_pages c [] ps);
      hidden =
          All-sort hidden (put_pages c [] ps) (All-put_pages hidden c (loaded-IsHidden c) ps [] tt);
    }

on_event-IsGood : (k : Connection) (e : Event) (c : Client) → IsGood c → IsGood (on_event k e c)
unfolding on_event
on_event-IsGood k e c good =
    let applied = apply_event-IsGood k.generation e c good in
    ground (arith, applied.in_order, applied.hidden)

-- The same messages, and the same deletions known.
pub record SameCache (c d : Client) : Type 0 where
  pub messages : d.snapshot.messages ≡ c.snapshot.messages
  pub tombstones : d.message_tombstones ≡ c.message_tombstones

SameCache-IsGood : (c d : Client) → SameCache c d → IsGood c → IsGood d
SameCache-IsGood c d alike good =
    ground (arith, alike.messages, alike.tombstones, good.in_order, good.hidden)

start_stream-SameCache :
    (sockets : Bool) (g : ℕ) (c : Client) → SameCache c (start_stream sockets g c)
unfolding start_stream connect j_messenger.Client.Catchup.disconnect
start_stream-SameCache sockets g c = record { messages = ground arith; tombstones = ground arith }

connect-SameCache : (sockets : Bool) (g : ℕ) (c : Client) → SameCache c (connect sockets g c)
unfolding connect j_messenger.Client.Catchup.disconnect
connect-SameCache sockets g c = record { messages = ground arith; tombstones = ground arith }

schedule_message_retry-SameCache :
    (p : Pending) (now : ℕ) (c : Client) → SameCache c (schedule_message_retry p now c)
unfolding schedule_message_retry mark_failed
schedule_message_retry-SameCache p now c = record {
  messages = ground arith;
  tombstones = ground arith;
}

step-IsGood : {c d : Client} → Step c d → IsGood c → IsGood d
unfolding take_page show_conversations apply_buffered begin_generation clear_session begin_reset
    mark_failed empty_snapshot dispose add_users add_conversations add_conversation
    j_messenger.Client.Catchup.disconnect
step-IsGood (merged m g c) good = merge_message-IsGood m g c good
step-IsGood (paged g r c) good =
    let x = apply_events-IsGood g r.events c good in
    record { in_order = x.in_order; hidden = x.hidden }
step-IsGood (loaded l ps c) good = show_messages-IsGood l ps c
step-IsGood (framed k e c) good = on_event-IsGood k e c good
step-IsGood (drained g c) good =
    apply_above-IsGood g _ (record c { buffered = [] })
      (record { in_order = good.in_order; hidden = good.hidden })
step-IsGood (streamed sockets g c) good =
    SameCache-IsGood c (start_stream sockets g c) (start_stream-SameCache sockets g c) good
step-IsGood (connected sockets g c) good =
    SameCache-IsGood c (connect sockets g c) (connect-SameCache sockets g c) good
step-IsGood (scheduled p now c) good =
    SameCache-IsGood c (schedule_message_retry p now c) (schedule_message_retry-SameCache p now c)
      good
step-IsGood (restarted g c) good = record { in_order = refl; hidden = tt }
step-IsGood (begun c) good = record { in_order = refl; hidden = tt }
step-IsGood (cleared c) good = record { in_order = refl; hidden = tt }
step-IsGood (emptied g c) good = record { in_order = refl; hidden = tt }
step-IsGood (listed l c) good = record { in_order = good.in_order; hidden = good.hidden }
step-IsGood (entered u c) good = record { in_order = good.in_order; hidden = good.hidden }
step-IsGood (told_users us c) good = record { in_order = good.in_order; hidden = good.hidden }
step-IsGood (told_conversations vs c) good = record {
  in_order = good.in_order;
  hidden = good.hidden;
}
step-IsGood (told_conversation v c) good = record { in_order = good.in_order; hidden = good.hidden }
step-IsGood (closed c) good = record { in_order = good.in_order; hidden = good.hidden }
step-IsGood (blocked b c) good = record { in_order = good.in_order; hidden = good.hidden }
step-IsGood (moved cursor c) good = record { in_order = good.in_order; hidden = good.hidden }
step-IsGood (placed p c) good = record { in_order = good.in_order; hidden = good.hidden }
step-IsGood (disposed c) good = record { in_order = good.in_order; hidden = good.hidden }
step-IsGood (added p c) good = record { in_order = good.in_order; hidden = good.hidden }
step-IsGood (failed k c) good = record { in_order = good.in_order; hidden = good.hidden }
step-IsGood (timed ks c) good = record { in_order = good.in_order; hidden = good.hidden }

pub Reach-IsGood : {c d : Client} → Reach c d → IsGood c → IsGood d
Reach-IsGood (stop c) good = good
Reach-IsGood (next p s) good = step-IsGood s (Reach-IsGood p good)

-- However the handlers of a new client interleave, its messages are in the order of their ids, and
-- a message of which it knows that it was deleted shows no text and counts as expired.
pub Reach-new_client-IsGood : {c : Client} → Reach new_client c → IsGood c
unfolding new_client empty_snapshot
Reach-new_client-IsGood p = Reach-IsGood p (record { in_order = refl; hidden = tt })
