-- ===== src/Status.antt =====
-- backend/src/types/status.ts and backend/src/types/anchor.ts, and the normalisation of statuses
-- of backend/src/services/anchor-platform.ts.
pub mod Laws
use nyxfinance.Common.{Option, some, String, ◌==◌, if◌then◌else◌}
use nyxfinance.Json.{Json, str}

pub data SepStatus : Type 0 where
  pending_sender pending_stellar pending_receiver pending_external : SepStatus
  completed refunded expired error : SepStatus

pub data ProductStatus : Type 0 where
  prefunding_required credit_quote_ready proof_pending proof_verified : ProductStatus
  credit_drawn repaid defaulted closed : ProductStatus

pub data CustomerStatus : Type 0 where
  accepted rejected pending needs_info : CustomerStatus

-- The text of a status.
unfoldable pub sep_text : SepStatus → String
sep_text pending_sender = "pending_sender"
sep_text pending_stellar = "pending_stellar"
sep_text pending_receiver = "pending_receiver"
sep_text pending_external = "pending_external"
sep_text completed = "completed"
sep_text refunded = "refunded"
sep_text expired = "expired"
sep_text error = "error"

unfoldable pub product_text : ProductStatus → String
product_text prefunding_required = "prefunding_required"
product_text credit_quote_ready = "credit_quote_ready"
product_text proof_pending = "proof_pending"
product_text proof_verified = "proof_verified"
product_text credit_drawn = "credit_drawn"
product_text repaid = "repaid"
product_text defaulted = "defaulted"
product_text closed = "closed"

unfoldable pub customer_text : CustomerStatus → String
customer_text accepted = "accepted"
customer_text rejected = "rejected"
customer_text pending = "pending"
customer_text needs_info = "needs_info"

-- The comparisons of `normalizeSepStatus`.
unfoldable pub parse_sep : String → SepStatus
parse_sep raw =
    if raw == "pending_sender"
    then pending_sender
    else if raw == "pending_stellar"
    then pending_stellar
    else if raw == "pending_receiver"
    then pending_receiver
    else if raw == "pending_external"
    then pending_external
    else if raw == "completed"
    then completed
    else if raw == "refunded"
    then refunded
    else if raw == "expired"
    then expired
    else if raw == "error"
    then error
    else pending_sender

-- `typeof value === "string" ? value : "pending_sender"`
abbrev pub status_word : Option Json → String
status_word (some (str s)) = s
status_word _ = "pending_sender"

unfoldable pub normalize_sep_status : Option Json → SepStatus
unfolding parse_sep
normalize_sep_status value = parse_sep (status_word value)

unfoldable pub normalize_product_status : SepStatus → ProductStatus
normalize_product_status sep_status = prefunding_required
