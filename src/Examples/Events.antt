-- ===== src/Examples/Events.antt =====
-- The outbox, and pages of it.
use j_messenger.Common.{
  ℕ, zero, suc, ◌≤◌, ◌<◌, ◌≡◌, ◌≢◌, refl, ◌⊎◌, inl, inr, Bool, true, false, List, [], ◌∷◌, Option,
  none, some, String, arith, same, ltb, ◌&&◌, ◌+◌, ◌*◌, if◌then◌else◌,
}
use j_messenger.Common.Results.{Result, ok, err, bad_request, sync_reset_required}
use j_messenger.Store.{day}
use j_messenger.Stream.{
  EventAppend, append, EventRow, Stream, ScanPage, EventType, EntityType, EntityReference, scan,
  prune_events, consumer_position, window,
}
use j_messenger.Stream.Invariant.{IsOrdered, append-IsOrdered}
use j_messenger.Stream.Scan.{IsPage, scan-IsPage, window-append}
use j_messenger.Sync.{
  Claims, Sealer, Options, Views, Input, Response, Page, page, sync, encode, decode_token,
  encode_claims, claims,
}
use j_messenger.Sync.Cursor.{IsSealer, decode_token-encode, decode_token-other}
use j_messenger.Sync.Limits.{sync-over_limit}
use j_messenger.Sync.Pages.{IsExact, page-IsExact, hydrate_all}
use j_messenger.Sync.Pull.{IsUnchanged, IsSteady, pull, pull_complete}
use j_messenger.Examples.{ann, bob, empty_stream, result_or, server}

-- An event of some server.
abbrev event : String → EventAppend
event s = record {
  type = EventType.message_created;
  occurred_at = 10;
  server_id = s;
  conversation_id = some 5;
  entity_id = EntityReference.id 8;
  payload_ref = record { entity_type = EntityType.message; entity_id = EntityReference.id 8 };
  recipient_user_ids = 1 ∷ 2 ∷ [];
}

abbrev row : ℕ → String → EventRow
row id s = record { id = id; event = event s }

-- Three events, the second of another server.
abbrev three : Stream
three = record empty_stream {
  rows = row 1 server ∷ row 2 "other" ∷ row 3 server ∷ [];
  seq = 3;
  consumers = ("push", 1) ∷ [];
}

three-IsOrdered : IsOrdered three
three-IsOrdered = (ground arith, (ground arith, (ground arith, ground arith)))

abbrev pruned : ℕ × Stream
pruned = result_or (prune_events 1 three) (0, three)

pruned_ok : prune_events 1 three ≡ ok pruned
unfolding prune_events
pruned_ok = refl

position_found : consumer_position "push" three.consumers ≡ some 1
unfolding consumer_position j_messenger.Common.text_dec
position_found = refl

abbrev scanned : ScanPage
scanned =
    result_or (scan server 0 3 2 three)
      (record { rows = []; scanned_through = 0; has_more = false })

scanned_ok : scan server 0 3 2 three ≡ ok scanned
unfolding scan
scanned_ok = refl

scan-IsPage_example : IsPage server 0 3 three scanned
scan-IsPage_example = scan-IsPage server 0 3 2 three scanned (ground arith) scanned_ok

-- A sealer whose tokens are the claims themselves.
abbrev options : Options Claims
options = record {
  sealer = record { seal = λ k. k; unseal = some; units = λ t. 300 };
  cursor_days = 7;
  scan_limit = 2;
}

abbrev views : Views
views = record { begun = three; marked = three; ended = three }

abbrev hydrate : EventRow → Result (Option ℕ)
hydrate r = ok (some r.id)

abbrev first_page : Page hydrate
first_page =
    result_or (page hydrate options ann 1 0 3 "epoch" views)
      (record { events = []; has_more = false; scanned_through = 0 })

first_page_ok : page hydrate options ann 1 0 3 "epoch" views ≡ ok first_page
unfolding page j_messenger.Common.text_dec scan j_messenger.Sync.collect
first_page_ok = refl

page-IsExact_example : IsExact hydrate server 0 3 1 three first_page
page-IsExact_example =
    page-IsExact hydrate options ann 1 0 3 "epoch" views first_page (ground arith) three-IsOrdered
      first_page_ok

steady : IsSteady hydrate options 3 "epoch" views
steady = record {
  marked = refl;
  ended = refl;
  some_rows = ground arith;
  few_rows = ground arith;
  in_stream = ground arith;
  representable = ground arith;
}

-- After the first request an event is appended.
abbrev grown : Stream
grown = append (event server) three

abbrev growing : ℕ → Views
growing zero = views
growing (suc n) = record { begun = grown; marked = grown; ended = grown }

growing-IsSteady : (n : ℕ) → IsSteady hydrate options 3 "epoch" (growing n)
unfolding append
growing-IsSteady zero = steady
growing-IsSteady (suc n) = record {
  marked = refl;
  ended = refl;
  some_rows = ground arith;
  few_rows = ground arith;
  in_stream = ground arith;
  representable = ground arith;
}

growing-IsOrdered : (n : ℕ) → IsOrdered (growing n).marked
growing-IsOrdered zero = three-IsOrdered
growing-IsOrdered (suc n) = append-IsOrdered (event server) three three-IsOrdered

growing-IsUnchanged : (n : ℕ) → IsUnchanged server 3 three.rows (growing n)
growing-IsUnchanged zero a b le = refl
growing-IsUnchanged (suc n) a b le = window-append server a b (event server) three le

unpruned : (n : ℕ) → (growing n).marked.min_valid_position ≤ 0
unfolding append
unpruned zero = ground arith
unpruned (suc n) = ground arith

pull_complete_example :
    (es : List ℕ) × (pull hydrate options ann 1 3 "epoch" growing 4 0 0 ≡ ok es)
    × (hydrate_all hydrate (window server 0 3 three.rows) ≡ ok es)
pull_complete_example =
    pull_complete hydrate (λ r. (some r.id, refl)) options ann 1 3 "epoch" growing growing-IsSteady
      growing-IsOrdered (ground arith) three.rows 4 0 0 growing-IsUnchanged (ground arith) unpruned
      (ground arith)

options_IsSealer : IsSealer options.sealer
options_IsSealer = record { opens = λ k valid. refl; fits = λ k valid small. ground arith }

abbrev ann_token : Claims
ann_token = claims options ann 3 "epoch" 100

token_ok : encode options ann 3 "epoch" 100 ≡ ok ann_token
unfolding encode encode_claims j_messenger.Sync.valid_claims j_messenger.Names.valid_server_id
    j_messenger.Names.utf16_length
token_ok = refl

decode_token-encode_example :
    decode_token options.sealer ann_token ann "epoch" 200
    ≡ (if same "epoch" "epoch" && ltb 200 (100 + 7 * day) then ok 3 else err sync_reset_required)
decode_token-encode_example =
    decode_token-encode options ann 3 100 200 "epoch" "epoch" ann_token options_IsSealer
      (ground arith) token_ok

decode_token-other_example : decode_token options.sealer ann_token bob "epoch" 200 ≡ err bad_request
decode_token-other_example =
    decode_token-other options ann bob 3 100 200 "epoch" "epoch" ann_token options_IsSealer
      (inl (ground arith)) token_ok

sync-over_limit_example :
    sync hydrate
      (record options { scan_limit = 5000 })
      ann
      (record { after = none; through = none; limit = 1 })
      100
      views
    ≢ ok (record {
      page = first_page;
      next_cursor = ann_token;
      through = ann_token;
      through_position = 3;
    })
sync-over_limit_example =
    sync-over_limit hydrate (record options { scan_limit = 5000 }) ann
      (record { after = none; through = none; limit = 1 }) 100 views
      (record {
        page = first_page;
        next_cursor = ann_token;
        through = ann_token;
        through_position = 3;
      })
      (ground arith)
