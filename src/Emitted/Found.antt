-- ===== src/Emitted/Found.antt =====
-- Which event `fetchEmittedConfidentialEventPayload` of
-- backend/src/services/confidential-token-transfer.ts finds.
use mathlib.Core.List.{Memᴰ}
use mathlib.Core.List.Memᴰ.{head, tail}
use mathlib.Core.Path.{subst}
use nyxfinance.Common.{
  String, ◌≡◌, refl, sym, ap, ◌∙◌, inl, inr, Bool, true, false, ◌&&◌, Option, none, some, List, [],
  ◌∷◌, arith, eq_iff, taken, skipped, Bool-cases, any_sound, any_complete, eq_refl, some-injective,
  or_else, get_or,
}
use nyxfinance.Result.{Result, ok, err}
use nyxfinance.Emitted.{
  RpcEvent, text, bytes, other, Native, scalar, array, EventSource, decode_topic, text_of, is_text,
  is_event_of, find_event,
}

pub find_event_sound :
    (p : RpcEvent → Bool) (events : List RpcEvent) (e : RpcEvent)
    → find_event p events ≡ some e
    → (p e ≡ true) × Memᴰ e events
unfolding find_event
find_event_sound p [] e h = absurd (ground arith)
find_event_sound p (f ∷ events) e h = elim (Bool-cases (p f)) [
  | inl yes' ↦
      let same = some-injective (sym (taken _ _ yes') ∙ h) in
      (subst (λ x. p x ≡ true) same yes', head (sym same))
  | inr no' ↦
      let (good, more) = find_event_sound p events e (sym (skipped _ _ no') ∙ h) in
      (good, tail more)
]

is_text-some : (t : String) (o : Option String) → is_text t o ≡ true → o ≡ some t
is_text-some t none h = absurd (ground (arith, h))
is_text-some t (some s) h = ap some ((eq_iff s t).0 h)

text_of-some : (r : Result Native) (t : String) → text_of r ≡ some t → r ≡ ok (scalar (text t))
text_of-some (ok (scalar (text s))) t h = ap (λ x. ok (scalar (text x))) (some-injective h)
text_of-some (ok (scalar (bytes s))) t h = absurd (ground arith)
text_of-some (ok (scalar other)) t h = absurd (ground arith)
text_of-some (ok (array vs)) t h = absurd (ground arith)
text_of-some (err e) t h = absurd (ground arith)

-- An event of a transfer: of its transaction and its contract, with the name of the event as a topic.
abbrev pub IsEventOf : EventSource → String → String → String → RpcEvent → Type 0
IsEventOf source token tx_hash event_name event =
    (topic : String) × (or_else event.tx_hash_camel event.tx_hash_snake ≡ some tx_hash)
    × (or_else event.contract_id_camel event.contract_id_snake ≡ some token)
    × Memᴰ topic (get_or (or_else event.topics event.topic) [])
    × (source.decode_sc_val topic ≡ ok (scalar (text event_name)))

both : (a b : Bool) → (a && b) ≡ true → (a ≡ true) × (b ≡ true)
both true b h = (refl, h)
both false b h = absurd (ground (arith, h))

pub is_event_of-IsEventOf :
    (source : EventSource) (token tx_hash event_name : String) (event : RpcEvent)
    → is_event_of source token tx_hash event_name event ≡ true
    → IsEventOf source token tx_hash event_name event
unfolding is_event_of decode_topic
is_event_of-IsEventOf source token tx_hash event_name event h =
    let of_tx = is_text tx_hash (or_else event.tx_hash_camel event.tx_hash_snake) in
    let of_token = is_text token (or_else event.contract_id_camel event.contract_id_snake) in
    let (first_two, third) = both (of_tx && of_token) _ h in
    let (first, second) = both of_tx of_token first_two in
    let (topic, m, named) =
      any_sound (λ topic. is_text event_name (decode_topic source topic))
        (get_or (or_else event.topics event.topic) []) third in
    (
      topic,
      is_text-some tx_hash _ first,
      is_text-some token _ second,
      m,
      text_of-some _ event_name (is_text-some event_name _ named),
    )

pub IsEventOf-is_event_of :
    (source : EventSource) (token tx_hash event_name : String) (event : RpcEvent)
    → IsEventOf source token tx_hash event_name event
    → is_event_of source token tx_hash event_name event ≡ true
unfolding is_event_of decode_topic
IsEventOf-is_event_of source token tx_hash event_name event h =
    let (topic, of_tx, of_token, m, named) = h in
    let decodes : is_text event_name (decode_topic source topic) ≡ true =
      ap (λ r. is_text event_name (text_of r)) named ∙ eq_refl event_name in
    let found =
      any_complete (λ topic. is_text event_name (decode_topic source topic))
        (get_or (or_else event.topics event.topic) []) topic m decodes in
    let first = ap (is_text tx_hash) of_tx ∙ eq_refl tx_hash in
    let second = ap (is_text token) of_token ∙ eq_refl token in ground (arith, first, second, found)

not_first :
    (p : RpcEvent → Bool) (f : RpcEvent) (events : List RpcEvent)
    → find_event p (f ∷ events) ≡ none
    → (p f ≡ false) × (find_event p events ≡ none)
unfolding find_event
not_first p f events h = elim (Bool-cases (p f)) [
  | inl yes' ↦ absurd (none_not_some (sym h ∙ taken _ _ yes'))
  | inr no' ↦ (no', sym (skipped _ _ no') ∙ h)
]
  where
    none_not_some : {a : RpcEvent} → none ≡ some a → ⊥
    none_not_some k = cc

pub find_event-none :
    (p : RpcEvent → Bool) (events : List RpcEvent) (e : RpcEvent)
    → find_event p events ≡ none
    → Memᴰ e events
    → p e ≡ false
find_event-none p [] e h m = elim m [ ]
find_event-none p (f ∷ events) e h (head same) = ap p same ∙ (not_first p f events h).0
find_event-none p (f ∷ events) e h (tail later) =
    find_event-none p events e (not_first p f events h).1 later
