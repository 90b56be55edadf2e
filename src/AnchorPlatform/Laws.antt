-- ===== src/AnchorPlatform/Laws.antt =====
-- Customer statuses of backend/src/services/anchor-platform.ts and the policy contract.
use nyxfinance.Common.{ℕ, String, ◌≡◌, refl, Bool, true, false, Option, none, some}
use nyxfinance.Status.{CustomerStatus, accepted, rejected, pending, needs_info, customer_text}
use nyxfinance.Db.Anchor.{CustomerInput, upsert_customer_status}
use nyxfinance.Config.{AppConfig}
use nyxfinance.World.{World, Chain}
use nyxfinance.World.Laws.{pure_after}
use nyxfinance.PolicySync.Laws.{SyncedWorld, reason_code, sync-SyncedWorld}
use nyxfinance.AnchorPlatform.{
  sync_decided, decision, raw_or_request, CustomerStatusRequest, record_customer_status,
}

-- A decided status may reach the policy contract, with the decision; another one does nothing.
abbrev pub Decided : Chain → AppConfig → String → Option Bool → World → World → Type 0
Decided chain config account none w w' = w' ≡ w
Decided chain config account (some approved) w w' =
    SyncedWorld chain config account approved (reason_code approved) w w'

pub sync_decided-Decided :
    (chain : Chain) (config : AppConfig) (reason account : String) (d : Option Bool) (w : World)
    → Decided chain config account d w (sync_decided chain config reason account d w).0
unfolding sync_decided
sync_decided-Decided chain config reason account none w = refl
sync_decided-Decided chain config reason account (some approved) w =
    sync-SyncedWorld chain config account approved w

-- What becomes of the chain by the status of a customer: an accepted one is approved, with reason 1, a rejected
-- one is refused, with reason 9, and nothing is done for the others.
abbrev pub SyncedBy : Chain → AppConfig → String → CustomerStatus → World → World → Type 0
SyncedBy chain config account accepted w w' = SyncedWorld chain config account true 1 w w'
SyncedBy chain config account rejected w w' = SyncedWorld chain config account false 9 w w'
SyncedBy chain config account pending w w' = w' ≡ w
SyncedBy chain config account needs_info w w' = w' ≡ w

Decided-SyncedBy :
    (chain : Chain) (config : AppConfig) (account : String) (s : CustomerStatus) (w w' : World)
    → Decided chain config account (decision s) w w'
    → SyncedBy chain config account s w w'
Decided-SyncedBy chain config account accepted w w' h = h
Decided-SyncedBy chain config account rejected w w' h = h
Decided-SyncedBy chain config account pending w w' h = h
Decided-SyncedBy chain config account needs_info w w' h = h

-- The row that `recordCustomerStatus` writes: its raw value is the given one, or else the request.
abbrev pub status_row : CustomerStatusRequest → CustomerInput
status_row input = record {
  customer_id = input.customer_id;
  account = input.account;
  status = customer_text input.status;
  memo = input.memo;
  reason = input.reason;
  raw = raw_or_request input;
}

-- A KYB status is stored whatever becomes of the chain, and nothing else of the database changes. For an
-- accepted customer one call is made, of the configured policy's `set_participant`, which the configured
-- operator signs alone, that approves the customer's account; for a rejected one, one such call that refuses
-- the account. None is made only if the policy is not configured, the operator has no usable key, or an address is refused.
-- For a pending customer and one that lacks information nothing more is done.
pub record_customer_status-SyncedBy :
    (chain : Chain) (config : AppConfig) (now : ℕ) (input : CustomerStatusRequest) (w : World)
    → SyncedBy chain config input.account input.status
        (record w { db = upsert_customer_status (status_row input) now w.db })
        (record_customer_status chain config now input w).0
unfolding record_customer_status
record_customer_status-SyncedBy chain config now input w =
    let stored = record w { db = upsert_customer_status (status_row input) now w.db } in
    let reason : String = "KYB status does not require on-chain sync" in
    Decided-SyncedBy chain config input.account input.status stored _ (
      pure_after (Decided chain config input.account (decision input.status) stored) _ _
        (sync_decided-Decided chain config reason input.account (decision input.status) stored))
