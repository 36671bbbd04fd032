-- ===== src/Examples/Streams.antt =====
-- A client that follows the stream of a server.
use j_messenger.Common.{
  ℕ, zero, suc, ◌+◌, ◌*◌, ◌≡◌, refl, ap, Bool, true, false, List, [], ◌∷◌, Option, none, some,
  String, arith, same, ◌≤◌, ◌<◌,
}
use j_messenger.Common.Results.{Result, ok, ErrorCode}
use j_messenger.Stream.{EventRow, EventType, EntityType, EntityReference, Stream, append, window}
use j_messenger.Stream.Invariant.{IsOrdered, append-IsOrdered}
use j_messenger.Stream.Scan.{window-append}
use j_messenger.Sync.{Claims, Sealer, Options, Views, claims, decode_token}
use j_messenger.Sync.Pages.{hydrate_all}
use j_messenger.Sync.Pull.{IsUnchanged, IsSteady}
use j_messenger.Client.{Client, Event, EventData, new_client, current}
use j_messenger.Client.Wire.{Network, lost}
use j_messenger.Client.Catchup.{sync_through}
use j_messenger.Client.Follow.{IsReader, IsFollowed, served_by, sync_through_complete}
use j_messenger.Examples.{ann, server, empty_stream}

-- A sealer for ann's cursors: the token of a position is a text that is one longer.
abbrev tally : ℕ → String
tally zero = "x"
tally (suc n) = String.◌∷◌ "x" (tally n)

abbrev ticks : String → ℕ
ticks String.[] = 0
ticks (String.◌∷◌ c String.[]) = 0
ticks (String.◌∷◌ c (String.◌∷◌ d s)) = suc (ticks (String.◌∷◌ d s))

ticks-tally : (n : ℕ) → ticks (tally n) ≡ n
ticks-tally zero = refl
ticks-tally (suc zero) = refl
ticks-tally (suc (suc n)) = ap suc (ticks-tally (suc n))

abbrev anns_claims : ℕ → Claims
anns_claims position = record {
  server_id = server;
  user_id = 1;
  epoch = "epoch";
  position = position;
  expires_at = 604800100;
}

abbrev options : Options String
options = record {
  sealer = record {
    seal = λ k. tally k.position;
    unseal = λ t. some (anns_claims (ticks t));
    units = λ t. 300;
  };
  cursor_days = 7;
  scan_limit = 2;
}

abbrev row : ℕ → EventRow
row id = record {
  id = id;
  event = record {
    type = EventType.message_created;
    occurred_at = 10;
    server_id = server;
    conversation_id = some 5;
    entity_id = EntityReference.id id;
    payload_ref = record { entity_type = EntityType.message; entity_id = EntityReference.id id };
    recipient_user_ids = 1 ∷ 2 ∷ [];
  };
}

abbrev stream : Stream
stream = record empty_stream { rows = row 1 ∷ row 2 ∷ row 3 ∷ []; seq = 3 }

abbrev views : Views
views = record { begun = stream; marked = stream; ended = stream }

stream-IsOrdered : IsOrdered stream
stream-IsOrdered = (ground arith, (ground arith, (ground arith, ground arith)))

-- The event of a message, with the row's id for the message's
abbrev hydrate : EventRow → Result (Option Event)
hydrate r = ok (
    some (record {
      event_id = r.id;
      conversation_id = some 5;
      payload = EventData.message_deleted r.id none;
    }))

-- After the first request an event is appended.
abbrev grown : Stream
grown = append (row 4).event stream

abbrev growing : ℕ → Views
growing zero = views
growing (suc n) = record { begun = grown; marked = grown; ended = grown }

growing-IsSteady : (n : ℕ) → IsSteady hydrate options 3 "epoch" (growing n)
unfolding append
growing-IsSteady zero = record {
  marked = refl;
  ended = refl;
  some_rows = ground arith;
  few_rows = ground arith;
  in_stream = ground arith;
  representable = ground arith;
}
growing-IsSteady (suc n) = record {
  marked = refl;
  ended = refl;
  some_rows = ground arith;
  few_rows = ground arith;
  in_stream = ground arith;
  representable = ground arith;
}

growing-IsOrdered : (n : ℕ) → IsOrdered (growing n).marked
growing-IsOrdered zero = stream-IsOrdered
growing-IsOrdered (suc n) = append-IsOrdered (row 4).event stream stream-IsOrdered

growing-IsUnchanged : (n : ℕ) → IsUnchanged server 3 stream.rows (growing n)
growing-IsUnchanged zero a b le = refl
growing-IsUnchanged (suc n) a b le = window-append server a b (row 4).event stream le

unpruned : (n : ℕ) → (growing n).marked.min_valid_position ≤ 1
unfolding append
unpruned zero = ground arith
unpruned (suc n) = ground arith

growing_begun : (n : ℕ) → (growing n).begun.epoch ≡ "epoch"
unfolding append
growing_begun zero = refl
growing_begun (suc n) = refl

abbrev rest : Network
rest = record {
  sync_page = λ n q c. record { client = c; reply = lost };
  conversations = λ n c. record { client = c; reply = lost };
  messages = λ n ids c. record { client = c; reply = lost };
}

abbrev status : ErrorCode → ℕ
status e = 409

reader : IsReader hydrate options ann 100 growing status rest "epoch" 3
unfolding j_messenger.Sync.valid_claims j_messenger.Names.valid_server_id
    j_messenger.Names.utf16_length
reader = record {
  opens = λ position le. ap (λ p. some (anns_claims p)) (ticks-tally position);
  fits = λ position le. ground arith;
  days = ground arith;
  valid = refl;
  begun = growing_begun;
}

-- A client at position 1, with its cursor.
abbrev device : Client
device = record new_client {
  snapshot = record new_client.snapshot { sync_cursor = some "xx"; snapshot_position = 1 };
}

device-current : current 0 device ≡ true
unfolding new_client
device-current = refl

from_given : same "xx" "" ≡ false
unfolding j_messenger.Common.text_dec
from_given = refl

to_given : same "xxxx" "" ≡ false
unfolding j_messenger.Common.text_dec
to_given = refl

from_opens : decode_token options.sealer "xx" ann "epoch" 100 ≡ ok 1
unfolding decode_token j_messenger.Common.text_dec j_messenger.Names.utf16_length
from_opens = refl

to_opens : decode_token options.sealer "xxxx" ann "epoch" 100 ≡ ok 3
unfolding decode_token j_messenger.Common.text_dec j_messenger.Names.utf16_length
to_opens = refl

sync_through_complete_example :
    (es : List Event) × (hydrate_all hydrate (window server 1 3 stream.rows) ≡ ok es)
    × IsFollowed hydrate options ann 100 growing status rest "epoch" 3 reader 0 es device (
        sync_through
          (served_by hydrate options ann 100 growing status rest)
          0
          0
          "xx"
          "xxxx"
          3
          device)
sync_through_complete_example =
    sync_through_complete hydrate options ann 100 growing status rest "epoch" 3 reader 0 "xxxx"
      to_given to_opens growing-IsOrdered stream.rows 0 1 "xx" device growing-IsSteady
      growing-IsUnchanged
      (λ r. (
        some (record {
          event_id = r.id;
          conversation_id = some 5;
          payload = EventData.message_deleted r.id none;
        }),
        refl,
      ))
      device-current (ground arith) from_given from_opens (ground arith) unpruned (ground arith)
