-- ===== src/DemoFlow/State/Laws.antt =====
-- The stored state of backend/src/services/demo-flow.ts: what is written is read back.
use nyxfinance.Common.{
  ℕ, String, ◌≡◌, refl, ap, ◌∙◌, false, Option, none, some, ◌==◌, if◌then◌else◌, skipped,
  read_digits-decimal,
}
use nyxfinance.Json.{Json, Fields, obj, get, spread, of_option}
use nyxfinance.Sql.Keys.{find-upsert_by, merged}
use nyxfinance.Db.{Db, Quote, Snapshot}
use nyxfinance.Db.Snapshots.{snapshot_row, snapshot_update, upsert_snapshot, get_snapshot}
use nyxfinance.DemoFlow.State.{
  DemoState, ProofRef, OpenRef, DrawRef, RepayRef, HistoryRef, blank_state, number_or_null,
  text_or_null, read_number, read_or_null, or_null, quote_fields, read_quote, proof_fields,
  read_proof, open_fields, read_open, draw_fields, read_draw, repay_fields, read_repay,
  history_fields, read_history, state_fields, read_state, restored, stored_state, get_stored_state,
  snapshot_key,
}

text_back : (o : Option String) → text_or_null (some (of_option o)) ≡ o
text_back none = refl
text_back (some t) = refl

number_back : (o : Option ℕ) → read_number (some (number_or_null o)) ≡ o
number_back none = refl
number_back (some n) = ap some (read_digits-decimal n)

or_null_back :
    {A : Type 0} (write : A → Fields) (read : Fields → A)
    → ((a : A) → read (write a) ≡ a)
    → (o : Option A) → read_or_null read (some (or_null write o)) ≡ o
or_null_back write read back none = refl
or_null_back write read back (some a) = ap some (back a)

ruleset back = (text_back, number_back, read_digits-decimal)

quote_back : (q : Quote) → read_quote (quote_fields q) ≡ q
unfolding get
quote_back q = simp back

proof_back : (p : ProofRef) → read_proof (proof_fields p) ≡ p
unfolding get
proof_back p = simp back

open_back : (o : OpenRef) → read_open (open_fields o) ≡ o
unfolding get
open_back o = simp back

draw_back : (d : DrawRef) → read_draw (draw_fields d) ≡ d
unfolding get
draw_back d = simp back

repay_back : (r : RepayRef) → read_repay (repay_fields r) ≡ r
unfolding get
repay_back r = simp back

history_back : (h : HistoryRef) → read_history (history_fields h) ≡ h
unfolding get
history_back h = simp back

-- The blank state under it makes no difference.
state_back :
    (now : ℕ) (s : DemoState)
    → read_state (spread (state_fields (blank_state now)) (state_fields s)) ≡ s
unfolding read_state spread state_fields blank_state get
state_back now s = simp (
  back,
  or_null_back quote_fields read_quote quote_back,
  or_null_back proof_fields read_proof proof_back,
  or_null_back open_fields read_open open_back,
  or_null_back draw_fields read_draw draw_back,
  or_null_back repay_fields read_repay repay_back,
  or_null_back history_fields read_history history_back,
)

-- The row of a key after a write.
abbrev pub written : String → Json → ℕ → Option Snapshot → Snapshot
written key payload now old =
    let new = snapshot_row key payload "live" now in
    merged (λ r. r.key) (snapshot_update new) new old

pub get-upsert_snapshot :
    (key : String) (payload : Json) (now : ℕ) (db : Db) (j : String)
    → get_snapshot j (upsert_snapshot key payload "live" now db) ≡ (
        if key == j
        then some (written key payload now (get_snapshot key db))
        else get_snapshot j db)
unfolding get_snapshot upsert_snapshot
get-upsert_snapshot key payload now db j =
    let new = snapshot_row key payload "live" now in
    find-upsert_by (λ r. r.key) (snapshot_update new) new db.snapshots j (λ r. refl)

restored-written :
    (now later : ℕ) (s : DemoState) (key : String) (old : Option Snapshot)
    → restored later (some (written key (obj (state_fields s)) now old)) ≡ s
restored-written now later s key none = state_back later s
restored-written now later s key (some row) = state_back later s

-- The state that a step of the flow stores is the state that the next step reads, at whatever time, with the
-- time of the write; the snapshots of other keys and all other tables are as before.
pub get-stored_state :
    (now later : ℕ) (s : DemoState) (db : Db)
    → (get_stored_state later (stored_state now s db) ≡ record s { updated_at = now })
      × ((key : String)
          → (snapshot_key == key) ≡ false
          → get_snapshot key (stored_state now s db) ≡ get_snapshot key db)
      × (record (stored_state now s db) { snapshots = db.snapshots } ≡ db)
unfolding get_stored_state stored_state upsert_snapshot
get-stored_state now later s db =
    let payload = obj (state_fields (record s { updated_at = now })) in
    (
      ap (restored later) (get-upsert_snapshot snapshot_key payload now db snapshot_key)
          ∙ restored-written now later (record s { updated_at = now }) snapshot_key
              (get_snapshot snapshot_key db),
      λ key other. get-upsert_snapshot snapshot_key payload now db key ∙ skipped _ _ other,
      refl,
    )
