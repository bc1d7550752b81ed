-- ===== src/Relay/Tests.antt =====
-- Runs of the Relay's stores and handlers, services/relay/relay, on small inputs.
use Prim.Native.String.{String, ◌++◌}
use enishi.Prelude.{
  ◌≢◌, Option, ℕ, ◌≡◌, refl, true, none, some, List, [], ◌∷◌, arith, ◌≤◌, ◌↔◌, any, ◌==◌, inl,
}
use enishi.Relay.Types.{
  Limits, CursorCodec, receiver_messages, delivered, exceeded, page, count_of, StoredMessage,
}
use enishi.Relay.Sqlite
use enishi.Relay.Runs.{
  call_allow_send, call_put, call_fetch, call_ack, call_pending_stats, Reply, History, InOrder,
  memory_replies, sqlite_replies, sqlite_step, sqlite_run, new_memory, new_sqlite, stores_agree,
}
use enishi.Relay.Delivery.{Has, fetched_until_acked}
use enishi.Relay.Credentials.{Credentials, bearer, require_agent, authenticate, matching}
use enishi.Relay.Authentic.{Proves, require_agent_exact}
use enishi.Relay.Bounds.{Within, store-Within}
use enishi.Relay.Answers.{answered, refused, unauthorized}
use enishi.Relay.Json.{
  Json, text, number, array, object, no_items, item, no_members, member, JsonLimits,
  validate_json_shape, visit,
}
use enishi.Relay.Shape.{Shaped, items_of, validate_json_shape_exact}
use enishi.Relay.Requests.{MailboxBackend, RelayEnvelope, RelaySettings, post_message, sender_of}
use enishi.Relay.Posts.{passes, Accepted, post_message_exact}

-- An envelope is its length here.
abbrev small_limits : Limits
small_limits = record {
  ttl_seconds = 10;
  rate_limit_per_minute = 2;
  max_pending_messages_per_receiver = 2;
  max_pending_bytes_per_receiver = 100;
  max_total_pending_bytes = 150;
}

abbrev size_itself : ℕ → ℕ
size_itself n = n

abbrev pair_codec : CursorCodec
pair_codec = record {
  Cursor = ℕ × ℕ;
  encode = λ t i. (t, i);
  decode = λ c. some c;
  decode-encode = λ t i. refl;
}

abbrev busy_day : History size_itself small_limits pair_codec
busy_day =
    (1, call_allow_send 7)
    ∷ (1, call_put 4 9 40 (some 40))
    ∷ (2, call_put 5 9 30 none)
    ∷ (3, call_put 6 9 10 none)
    ∷ (4, call_fetch 9 1 none)
    ∷ (5, call_fetch 9 1 (some (1, 4)))
    ∷ (6, call_ack 9 4)
    ∷ (10000002, call_fetch 9 5 none)
    ∷ (10000003, call_pending_stats)
    ∷ []

busy_day-InOrder : InOrder size_itself small_limits pair_codec 0 busy_day
busy_day-InOrder =
    let later : InOrder size_itself small_limits pair_codec 3 (
        (4, call_fetch 9 1 none)
        ∷ (5, call_fetch 9 1 (some (1, 4)))
        ∷ (6, call_ack 9 4)
        ∷ (10000002, call_fetch 9 5 none)
        ∷ (10000003, call_pending_stats)
        ∷ []) =
      (
        omega arith,
        omega arith,
        (
          omega arith,
          omega arith,
          (omega arith, tt, (omega arith, omega arith, (omega arith, tt, tt))),
        ),
      ) in
    (omega arith, tt, (omega arith, refl, (omega arith, refl, (omega arith, refl, later))))

-- The mailbox is full at the third message; a cursor gives the second page; what is acknowledged or
-- expired is gone.
busy_day_replies :
    sqlite_replies size_itself small_limits pair_codec busy_day
      (new_sqlite size_itself small_limits pair_codec)
    ≡ Reply.allowed true
      ∷ Reply.put_reply (delivered 4)
      ∷ Reply.put_reply (delivered 5)
      ∷ Reply.put_reply (exceeded receiver_messages)
      ∷ Reply.fetched
          (page (record { delivery_id = 4; envelope = 40; stored_at = 1 } ∷ []) (some (1, 4)))
      ∷ Reply.fetched (page (record { delivery_id = 5; envelope = 30; stored_at = 2 } ∷ []) none)
      ∷ Reply.acknowledged
      ∷ Reply.fetched (page [] none)
      ∷ Reply.stats (0, 0)
      ∷ []
unfolding sqlite_replies sqlite_step Sqlite.allow_send Sqlite.put Sqlite.fetch Sqlite.ack
    Sqlite.pending_stats count_of
busy_day_replies = refl

stores_agree_example :
    memory_replies size_itself small_limits pair_codec busy_day
      (new_memory size_itself small_limits pair_codec)
    ≡ sqlite_replies size_itself small_limits pair_codec busy_day
        (new_sqlite size_itself small_limits pair_codec)
stores_agree_example = stores_agree size_itself small_limits pair_codec busy_day busy_day-InOrder

store-Within_example : Within size_itself small_limits (
    sqlite_run size_itself small_limits pair_codec busy_day
      (new_sqlite size_itself small_limits pair_codec))
store-Within_example = store-Within size_itself small_limits pair_codec busy_day

abbrev shape_limits : JsonLimits
shape_limits = record { max_json_depth = 3; max_string_length = 5; max_json_items = 4 }

-- `{"ab": [1.5, "cde"]}`
abbrev nested_json : Json
nested_json = object (member 2 (array (item (number true) (item (text 3) no_items))) no_members)

validate_json_shape_exact_example :
    (validate_json_shape shape_limits nested_json ≡ answered (items_of nested_json))
    ↔ (Shaped shape_limits 1 nested_json × (items_of nested_json ≤ shape_limits.max_json_items))
validate_json_shape_exact_example = validate_json_shape_exact shape_limits nested_json

abbrev posted : RelayEnvelope
posted = record {
  sender_agent_id = 7;
  receiver_agent_id = 9;
  sender_node_id = some 17;
  receiver_node_id = some 19;
  json = nested_json;
  json_bytes = 60;
  compact_bytes = 50;
}

abbrev relay_settings : RelaySettings
relay_settings = record {
  known_agents = 17 ∷ 19 ∷ [];
  max_message_bytes = 64;
  fetch_default_limit = 10;
  fetch_max_limit = 20;
  json_limits = shape_limits;
}

abbrev compact : RelayEnvelope → ℕ
compact e = e.compact_bytes

abbrev sqlite_backend :
    MailboxBackend (Sqlite.SqliteMailboxStore RelayEnvelope) RelayEnvelope (ℕ × ℕ)
sqlite_backend = record {
  allow_send = λ now sender s. Sqlite.allow_send compact small_limits now sender s;
  put = λ now i r e size s. Sqlite.put compact small_limits now i r e size s;
  fetch = λ now r limit c s. Sqlite.fetch compact small_limits now pair_codec r limit c s;
  ack = λ now r i s. Sqlite.ack compact small_limits now r i s;
}

abbrev no_messages : Sqlite.SqliteMailboxStore RelayEnvelope
no_messages = record { messages = []; rate_limits = [] }

post_message_exact_example :
    ((post_message sqlite_backend relay_settings 1 4 17 posted no_messages).0 ≡ answered 4) ↔ (
      (passes sqlite_backend relay_settings (validate_json_shape shape_limits nested_json) ≡ true)
      × (sender_of posted ≡ 17)
      × (any (λ a. a == 19) (17 ∷ 19 ∷ []) ≡ true)
      × (posted.json_bytes ≤ relay_settings.max_message_bytes)
      × Accepted sqlite_backend relay_settings 1 4 posted no_messages 4)
post_message_exact_example =
    post_message_exact sqlite_backend relay_settings 1 4 17 posted no_messages 4

post_taken : (post_message sqlite_backend relay_settings 1 4 17 posted no_messages).0 ≡ answered 4
unfolding post_message visit validate_json_shape Sqlite.allow_send Sqlite.put count_of
post_taken = refl

abbrev first_row : Sqlite.Row ℕ
first_row = record {
  delivery_id = 4;
  receiver = 9;
  envelope = 40;
  stored_at = 1;
  envelope_bytes = 40;
}

abbrev one_row : Sqlite.SqliteMailboxStore ℕ
one_row = record { messages = first_row ∷ []; rate_limits = [] }

abbrev quiet_day : History size_itself small_limits pair_codec
quiet_day = (2, call_fetch 9 5 none) ∷ (3, call_ack 9 6) ∷ []

fetched_until_acked_example :
    (items : List (StoredMessage ℕ)) × ((Sqlite.fetch size_itself small_limits 4 pair_codec 9 5 none
        (sqlite_run size_itself small_limits pair_codec quiet_day one_row)).0
      ≡ page items none)
    × Has (Sqlite.message_of first_row) items
unfolding sqlite_run sqlite_step Sqlite.fetch Sqlite.ack Sqlite.rows_of
fetched_until_acked_example =
    fetched_until_acked size_itself small_limits pair_codec first_row quiet_day one_row 4 5
      (inl refl) (refl, ((refl, refl), tt)) refl (omega arith)

-- One agent has its token in clear, the other a hash.
abbrev two_agents : Credentials
two_agents = record { plaintext = (17, "five") ∷ []; hashed = (19, "six#") ∷ [] }

abbrev marked : String → String
marked s = s ++ "#"

require_agent_exact_example :
    (require_agent marked two_agents (some "Bearer six") ≡ answered 19) ↔ (
      (token : String) × (◌≡◌ {A = Option String} (some "Bearer six") (some (bearer ++ token)))
      × (token ≢ "")
      × Proves marked two_agents 19 token)
require_agent_exact_example = require_agent_exact marked two_agents (some "Bearer six") 19

hashed_agent : require_agent marked two_agents (some "Bearer six") ≡ answered 19
unfolding require_agent authenticate matching
hashed_agent = refl

-- Neither a request without a header nor another scheme is an agent's.
no_header : require_agent marked two_agents none ≡ refused unauthorized
unfolding require_agent authenticate matching
no_header = refl

other_scheme : require_agent marked two_agents (some "Basic six") ≡ refused unauthorized
unfolding require_agent authenticate matching
other_scheme = refl
