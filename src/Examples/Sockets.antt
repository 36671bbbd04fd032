-- ===== src/Examples/Sockets.antt =====
-- A socket that two events are sent to.
use j_messenger.Common.{
  ℕ, ◌≡◌, refl, Bool, true, false, List, [], ◌∷◌, Option, none, some, String, arith,
}
use j_messenger.Common.Results.{Result, ok}
use j_messenger.Stream.{EventAppend, EventRow, EventType, EntityType, EntityReference, Stream}
use j_messenger.Realtime.{
  Limits, Peer, Frame, ready_frame, event_frame, Wire, new_peer, ready_peer, poll_peer,
  valid_limits,
}
use j_messenger.Realtime.Delivery.{IsQuiet, IsSent, poll_peer-IsSent}
use j_messenger.Examples.{ann, server, empty_stream, chat_store}

abbrev limits : Limits
limits = record {
  poll_ms = 250;
  heartbeat_ms = 25000;
  heartbeat_timeout_ms = 60000;
  max_buffered_bytes = 1000000;
}

limits_accepted : valid_limits limits ≡ true
unfolding valid_limits
limits_accepted = refl

-- Frames of a hundred bytes, which the socket takes
abbrev wire : Wire ℕ
wire = record { byte_length = λ f. 100; throws = λ f. false }

abbrev row : ℕ → EventRow
row id = record {
  id = id;
  event = record {
    type = EventType.message_created;
    occurred_at = 10;
    server_id = server;
    conversation_id = some 5;
    entity_id = EntityReference.id id;
    payload_ref = record { entity_type = EntityType.message; entity_id = EntityReference.id id };
    recipient_user_ids = 1 ∷ 2 ∷ [];
  };
}

abbrev stream : Stream
stream = record empty_stream { rows = row 1 ∷ row 2 ∷ row 3 ∷ []; seq = 3 }

-- The second event is hidden from ann.
abbrev hydrate : EventRow → Result (Option ℕ)
hydrate r = elim (j_messenger.Common.◌==◌ r.id 2) [ true ↦ ok none | false ↦ ok (some r.id) ]

abbrev meanwhile : ℕ → Peer ℕ → Peer ℕ
meanwhile n p = p

abbrev peer : Peer ℕ
peer = ready_peer limits wire (ok ("c", 0)) (new_peer ann 100)

abbrev polled : Peer ℕ
polled = poll_peer limits wire hydrate meanwhile chat_store stream stream 200 peer

polled_sent : polled.sent ≡ ready_frame "c" 0 ∷ event_frame 1 ∷ event_frame 3 ∷ []
unfolding poll_peer ready_peer j_messenger.Realtime.send j_messenger.Identity.session_active
    j_messenger.Names.valid_server_id j_messenger.Common.text_dec j_messenger.Stream.high_watermark
    j_messenger.Realtime.send_page j_messenger.Stream.scan j_messenger.Realtime.settle
    j_messenger.Realtime.deliver
polled_sent = refl

polled_unclosed : polled.closed ≡ none
unfolding poll_peer ready_peer j_messenger.Realtime.send j_messenger.Identity.session_active
    j_messenger.Names.valid_server_id j_messenger.Common.text_dec j_messenger.Stream.high_watermark
    j_messenger.Realtime.send_page j_messenger.Stream.scan j_messenger.Realtime.settle
    j_messenger.Realtime.deliver
polled_unclosed = refl

polled_open : polled.is_open ≡ true
unfolding poll_peer ready_peer j_messenger.Realtime.send j_messenger.Identity.session_active
    j_messenger.Names.valid_server_id j_messenger.Common.text_dec j_messenger.Stream.high_watermark
    j_messenger.Realtime.send_page j_messenger.Stream.scan j_messenger.Realtime.settle
    j_messenger.Realtime.deliver
polled_open = refl

meanwhile-IsQuiet : IsQuiet meanwhile
meanwhile-IsQuiet = record { sent = λ n p. refl; position = λ n p. refl; context = λ n p. refl }

poll_peer-IsSent_example :
    IsSent limits wire hydrate meanwhile meanwhile-IsQuiet stream.rows peer polled
poll_peer-IsSent_example =
    poll_peer-IsSent limits wire hydrate meanwhile meanwhile-IsQuiet chat_store stream stream 200
      peer (record { unclosed = polled_unclosed; socket_open = polled_open })
