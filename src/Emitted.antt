-- ===== src/Emitted.antt =====
-- backend/src/services/confidential-token-transfer.ts, `fetchEmittedConfidentialEventPayload`: the event of a
-- transfer, found among those that the network reports.
pub mod Found
pub mod Payload
pub mod Laws
use nyxfinance.Common.{
  ℕ, ◌-◌, max, String, Bool, false, not, ◌&&◌, Option, none, some, List, [], ◌∷◌, ◌==◌, eqb,
  if◌then◌else◌, or_else, get_or, any,
}
use nyxfinance.Json.{str, Fields, end, field}
use nyxfinance.Result.{Result, ok, err}
use nyxfinance.Hex.{strip_0x, all_hex}

-- `RpcEvent`; the server may write a name in either of two ways.
pub record RpcEvent : Type 0 where
  pub contract_id_camel : Option String
  pub contract_id_snake : Option String
  pub topics : Option (List String)
  pub topic : Option (List String)
  pub value : Option String
  pub tx_hash_camel : Option String
  pub tx_hash_snake : Option String

-- What `scValToNative` makes of a value: a text, bytes by their hexadecimal text, or something else; and arrays of these.
pub data Scalar : Type 0 where
  text bytes : String → Scalar
  other : Scalar

pub data Native : Type 0 where
  scalar : Scalar → Native
  array : List Scalar → Native

-- `rpcRequest(…, "getEvents", …)` by its start ledger and contract, the field `events` of the result; and
-- `decodeScVal`, which throws on a text that is no XDR.
pub record EventSource : Type 0 where
  pub get_events : ℕ → String → Result (Option (List RpcEvent))
  pub decode_sc_val : String → Result Native

-- `decodeTopic`
abbrev pub text_of : Result Native → Option String
text_of (ok (scalar (text t))) = some t
text_of (ok (scalar (bytes h))) = none
text_of (ok (scalar other)) = none
text_of (ok (array vs)) = none
text_of (err e) = none

unfoldable pub decode_topic : EventSource → String → Option String
decode_topic source topic = text_of (source.decode_sc_val topic)

-- /^(0x)?[0-9a-fA-F]+$/
abbrev pub is_hex_text : String → Bool
is_hex_text t = not (strip_0x t == "") && all_hex (strip_0x t)

unfoldable pub bytes_like_to_hex : Option Scalar → Option String
bytes_like_to_hex (some (bytes h)) = some h
bytes_like_to_hex (some (text t)) = if is_hex_text t then some (strip_0x t) else none
bytes_like_to_hex (some other) = none
bytes_like_to_hex none = none

abbrev pub event_keys : String → List String
event_keys event_name =
    if event_name == "spender_transfer"
    then "r_e" ∷ "v_tilde" ∷ "sigma_a" ∷ "v_aud_r" ∷ "r_aud_r" ∷ "v_aud_s" ∷ "a_aud_s" ∷ []
    else "r_e" ∷ "v_tilde" ∷ "sigma" ∷ "b_tilde" ∷ "v_aud_r" ∷ "r_aud_r" ∷ "v_aud_s" ∷ "b_aud_s"
      ∷ []

abbrev pub with_entry : String → Option String → Fields → Fields
with_entry key none rest = rest
with_entry key (some hex) rest = field key (str hex) rest

-- `Object.fromEntries(fields.map(…).filter(…))`: the values by position.
unfoldable pub entries : List String → List Scalar → Fields
unfolding bytes_like_to_hex
entries [] values = end
entries (key ∷ keys) [] = end
entries (key ∷ keys) (value ∷ values) =
    with_entry key (bytes_like_to_hex (some value)) (entries keys values)

abbrev decoded : String → Result Native → Result (Option Fields)
decoded event_name (err e) = err e
decoded event_name (ok (scalar v)) = ok none
decoded event_name (ok (array vs)) = ok (some (entries (event_keys event_name) vs))

unfoldable pub decode_event_value : EventSource → String → Option String → Result (Option Fields)
unfolding entries
decode_event_value source event_name none = ok none
decode_event_value source event_name (some value) =
    if value == "" then ok none else decoded event_name (source.decode_sc_val value)

abbrev pub is_text : String → Option String → Bool
is_text t none = false
is_text t (some s) = s == t

unfoldable pub is_event_of : EventSource → String → String → String → RpcEvent → Bool
unfolding decode_topic
is_event_of source token tx_hash event_name candidate =
    is_text tx_hash (or_else candidate.tx_hash_camel candidate.tx_hash_snake)
    && is_text token (or_else candidate.contract_id_camel candidate.contract_id_snake)
    && any (λ topic. is_text event_name (decode_topic source topic))
        (get_or (or_else candidate.topics candidate.topic) [])

-- `events.find(…)`
unfoldable pub find_event : (RpcEvent → Bool) → List RpcEvent → Option RpcEvent
find_event p [] = none
find_event p (e ∷ events) = if p e then some e else find_event p events

abbrev value_of : EventSource → String → Option RpcEvent → Result (Option Fields)
value_of source event_name none = ok none
value_of source event_name (some event) = decode_event_value source event_name event.value

abbrev pub among :
    EventSource
    → String
    → String
    → String
    → Result (Option (List RpcEvent))
    → Result (Option Fields)
among source token tx_hash event_name (err e) = err e
among source token tx_hash event_name (ok events) =
    value_of source event_name
      (find_event (is_event_of source token tx_hash event_name) (get_or events []))

-- `Math.max(1, input.ledger - 1)`
abbrev pub events_from : ℕ → ℕ
events_from ledger = max 1 (ledger - 1)

-- A ledger that is absent or 0 is falsy.
unfoldable pub fetch_emitted_confidential_event_payload :
    EventSource → String → String → Option ℕ → String → Result (Option Fields)
unfolding decode_event_value is_event_of find_event
fetch_emitted_confidential_event_payload source token tx_hash none event_name = ok none
fetch_emitted_confidential_event_payload source token tx_hash (some ledger) event_name =
    if eqb ledger 0
    then ok none
    else among source token tx_hash event_name (source.get_events (events_from ledger) token)
