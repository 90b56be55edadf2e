-- ===== src/Emitted/Laws.antt =====
-- The event of a transfer, of backend/src/services/confidential-token-transfer.ts: which event is decoded, and
-- what its payload holds.
use mathlib.Core.List.{Memᴰ}
use mathlib.Core.Path.{subst}
use nyxfinance.Common.{
  ℕ, ◌-◌, max, String, ◌≡◌, ◌≢◌, ◌⊎◌, refl, sym, inl, inr, Option, none, some, List, [], ◌==◌,
  arith, eq_iff, eqb, taken, skipped, Bool-cases, or_else, get_or,
}
use nyxfinance.Json.{Fields}
use nyxfinance.Result.{Result, ok, err, OnOk}
use nyxfinance.Emitted.{
  RpcEvent, Scalar, text, Native, scalar, array, EventSource, event_keys, entries, decoded,
  decode_event_value, is_event_of, find_event, value_of, among, events_from,
  fetch_emitted_confidential_event_payload,
}
use nyxfinance.Emitted.Payload.{spender_names, transfer_names, Holds, entries-Holds}
use nyxfinance.Emitted.Found.{
  IsEventOf, find_event_sound, is_event_of-IsEventOf, IsEventOf-is_event_of, find_event-none,
}

spender-Holds :
    (event_name : String) (values : List Scalar)
    → event_name ≡ "spender_transfer"
    → Holds spender_names values (entries (event_keys event_name) values)
spender-Holds event_name values same =
    subst (λ names. Holds spender_names values (entries names values))
      (sym (taken _ _ ((eq_iff event_name "spender_transfer").1 same)))
      (entries-Holds spender_names values
        (refl, (refl, (refl, (refl, (refl, (refl, (refl, tt))))))))

transfer-Holds :
    (event_name : String) (values : List Scalar)
    → event_name ≢ "spender_transfer"
    → Holds transfer_names values (entries (event_keys event_name) values)
transfer-Holds event_name values differs = elim (Bool-cases (event_name == "spender_transfer")) [
  | inl same ↦ absurd (differs ((eq_iff event_name "spender_transfer").0 same))
  | inr not_same ↦
      subst (λ names. Holds transfer_names values (entries names values))
        (sym (skipped _ _ not_same))
        (entries-Holds transfer_names values
          (refl, (refl, (refl, (refl, (refl, (refl, (refl, (refl, tt)))))))))
]

-- A payload comes from an event that is reported from the ledger before the transfer's on, of the same contract and
-- transaction, one of whose topics is the name of the event; its value is an array, and the payload holds what the
-- array has at the places of the names.
abbrev pub IsPayloadOf : EventSource → String → String → ℕ → String → Fields → Type 0
IsPayloadOf source token tx_hash ledger event_name fields =
    (events : List RpcEvent) × (event : RpcEvent) × (topic value : String) × (values : List Scalar)
    × (source.get_events (max 1 (ledger - 1)) token ≡ ok (some events))
    × Memᴰ event events
    × (or_else event.tx_hash_camel event.tx_hash_snake ≡ some tx_hash)
    × (or_else event.contract_id_camel event.contract_id_snake ≡ some token)
    × Memᴰ topic (get_or (or_else event.topics event.topic) [])
    × (source.decode_sc_val topic ≡ ok (scalar (text event_name)))
    × (event.value ≡ some value)
    × (source.decode_sc_val value ≡ ok (array values))
    × (event_name ≡ "spender_transfer" → Holds spender_names values fields)
    × (event_name ≢ "spender_transfer" → Holds transfer_names values fields)

-- A value without a payload: it is absent or empty, or decodes to something that is no array.
abbrev pub HasNoArray : EventSource → Option String → Type 0
HasNoArray source none = Unit
HasNoArray source (some value) =
    (value ≡ "") ⊎ ((v : Scalar) × (source.decode_sc_val value ≡ ok (scalar v)))

-- There is nothing to fetch: the ledger is 0, or no events are reported, or none of them is the transfer's, or the one
-- that is has no array as value.
abbrev pub HasNoPayload : EventSource → String → String → ℕ → String → Type 0
HasNoPayload source token tx_hash ledger event_name =
    (ledger ≡ 0)
    ⊎ ((source.get_events (max 1 (ledger - 1)) token ≡ ok none)
        ⊎ ((events : List RpcEvent) × (source.get_events (max 1 (ledger - 1)) token
              ≡ ok (some events))
            × (((event : RpcEvent)
                  → Memᴰ event events
                  → ¬ IsEventOf source token tx_hash event_name event)
                ⊎ ((event : RpcEvent) × Memᴰ event events
                    × IsEventOf source token tx_hash event_name event
                    × HasNoArray source event.value))))

module _ (source : EventSource) (token tx_hash : String) (ledger : ℕ) (event_name : String) where
  abbrev pub Says : Option Fields → Type 0
  Says none = HasNoPayload source token tx_hash ledger event_name
  Says (some fields) = IsPayloadOf source token tx_hash ledger event_name fields

  module _ (events : List RpcEvent) (event : RpcEvent)
      (reported : source.get_events (events_from ledger) token ≡ ok (some events))
      (found : find_event (is_event_of source token tx_hash event_name) events ≡ some event) where
    no_array : HasNoArray source event.value → HasNoPayload source token tx_hash ledger event_name
    no_array lacks =
        let p = is_event_of source token tx_hash event_name in
        let (says, m) = find_event_sound p events event found in
        let is_it = is_event_of-IsEventOf source token tx_hash event_name event says in
        inr (inr (events, reported, inr (event, m, is_it, lacks)))

    by_native :
        (value : String) (r : Result Native)
        → event.value ≡ some value
        → source.decode_sc_val value ≡ r
        → OnOk Says (decoded event_name r)
    by_native value (err e) holds decodes = tt
    by_native value (ok (scalar v)) holds decodes =
        no_array (subst (HasNoArray source) (sym holds) (inr (v, decodes)))
    by_native value (ok (array vs)) holds decodes =
        let p = is_event_of source token tx_hash event_name in
        let (says, m) = find_event_sound p events event found in
        let (topic, of_tx, of_token, among_topics, named) =
          is_event_of-IsEventOf source token tx_hash event_name event says in
        (
          events,
          event,
          topic,
          value,
          vs,
          reported,
          m,
          of_tx,
          of_token,
          among_topics,
          named,
          holds,
          decodes,
          spender-Holds event_name vs,
          transfer-Holds event_name vs,
        )

    by_value :
        (o : Option String) → event.value ≡ o → OnOk Says (decode_event_value source event_name o)
    unfolding decode_event_value
    by_value none holds = no_array (subst (HasNoArray source) (sym holds) tt)
    by_value (some value) holds = elim (Bool-cases (value == "")) [
      | inl empty ↦
          rw empty
            (no_array (subst (HasNoArray source) (sym holds) (inl ((eq_iff value "").0 empty))))
      | inr full ↦ rw full (by_native value (source.decode_sc_val value) holds refl)
    ]

  by_event :
      (events : List RpcEvent) (o : Option RpcEvent)
      → source.get_events (events_from ledger) token ≡ ok (some events)
      → find_event (is_event_of source token tx_hash event_name) events ≡ o
      → OnOk Says (value_of source event_name o)
  by_event events none reported found = inr (
      inr (
        events,
        reported,
        inl (λ event m is_it.
            let p = is_event_of source token tx_hash event_name in
            let says = IsEventOf-is_event_of source token tx_hash event_name event is_it in
            absurd (ground (arith, says, find_event-none p events event found m))),
      ))
  by_event events (some event) reported found =
      by_value events event reported found event.value refl

  by_answer :
      (r : Result (Option (List RpcEvent)))
      → source.get_events (events_from ledger) token ≡ r
      → OnOk Says (among source token tx_hash event_name r)
  unfolding find_event
  by_answer (err e) reported = tt
  by_answer (ok none) reported = inr (inl reported)
  by_answer (ok (some events)) reported = by_event events _ reported refl

  -- What is fetched for a transfer, if anything is, is the payload of an event that the network reports from
  -- the ledger before the transfer's on, with the same token contract and transaction hash and a topic
  -- that decodes to the name of the event. The event's value is an array, and the payload holds, under each of the
  -- seven names for `spender_transfer` and the eight names for any other event, the hexadecimal text of the
  -- array's value at the place of the name, if there is one, and nothing under other names. Nothing is fetched only
  -- if the ledger is 0, no events are reported, none of them is such an event, or one that is has no array as value.
  pub fetch_emitted-IsPayloadOf :
      OnOk Says
        (fetch_emitted_confidential_event_payload source token tx_hash (some ledger) event_name)
  unfolding fetch_emitted_confidential_event_payload
  fetch_emitted-IsPayloadOf = elim (Bool-cases (eqb ledger 0)) [
    | inl no_ledger ↦ rw no_ledger (inl (ground (arith, no_ledger)))
    | inr given_ledger ↦
        rw given_ledger (by_answer (source.get_events (events_from ledger) token) refl)
  ]
