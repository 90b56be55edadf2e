-- ===== src/Sep31/Updated.antt =====
-- `updateSep31TransactionStatus` of backend/src/services/sep31.ts: the row that it leaves, column by column.
use nyxfinance.Common.{
  ℕ, String, ◌≡◌, ◌≢◌, refl, ◌∙◌, false, Option, none, some, ◌==◌, eq_iff, arith, if◌then◌else◌,
  or_else,
}
use nyxfinance.Json.{Json, null, bool, num, arr, str, obj, get, as_string, Fields, spread}
use nyxfinance.Json.Laws.{last, get-spread}
use nyxfinance.Status.{SepStatus, normalize_sep_status, sep_text}
use nyxfinance.Result.{ok}
use nyxfinance.Db.{Db, AnchorTransaction}
use nyxfinance.Db.Anchor.{get_anchor_transaction_by_id}
use nyxfinance.Config.{AppConfig}
use nyxfinance.World.{World}
use nyxfinance.Sep31.{map_row, record_or_empty, update_sep31_transaction_status, updated_raw}
use nyxfinance.Sep31.Laws.{changed, update_found}

-- The raw object after an update: the new status and its origin, and under every other name the update's value, or else
-- the old one.
abbrev pub Merges : SepStatus → Fields → Json → Fields → Type 0
Merges sep raw_update old raw =
    (get "status" raw ≡ some (str (sep_text sep)))
    × (get "updated_via" raw ≡ some (str "SEP-31"))
    × ((key : String)
        → (key == "status") ≡ false
        → (key == "updated_via") ≡ false
        → get key raw ≡ or_else (last key raw_update) (get key (record_or_empty (some old))))

updated_raw-Merges :
    (old : Json) (raw_update : Fields) (sep : SepStatus)
    → Merges sep raw_update old (updated_raw old raw_update sep)
unfolding updated_raw last
updated_raw-Merges old raw_update sep = (
  get-spread "status" (spread (record_or_empty (some old)) raw_update) _,
  get-spread "updated_via" (spread (record_or_empty (some old)) raw_update) _,
  λ key not_status not_via.
      get-spread key (spread (record_or_empty (some old)) raw_update) _
      ∙ ground (
        arith,
        not_status,
        not_via,
        eq_iff key "status",
        eq_iff "status" key,
        eq_iff key "updated_via",
        eq_iff "updated_via" key,
        get-spread key (record_or_empty (some old)) raw_update,
      ),
)

-- The Stellar transaction id after an update: the given text, or the old one if no text is given.
abbrev pub NamesStellar : Option Json → Option String → Option String → Type 0
NamesStellar update old new =
    ((t : String) → update ≡ some (str t) → new ≡ some t)
    × (((t : String) → update ≢ some (str t)) → new ≡ old)

as_string-NamesStellar :
    (update : Option Json) (old : Option String)
    → NamesStellar update old (or_else (as_string update) old)
as_string-NamesStellar update old = (λ t h. rw h refl, λ differs. no_text update differs)
  where
    no_text :
        (o : Option Json) → ((t : String) → o ≢ some (str t)) → or_else (as_string o) old ≡ old
    no_text none differs = refl
    no_text (some (str t)) differs = absurd (differs t refl)
    no_text (some null) differs = refl
    no_text (some (bool b)) differs = refl
    no_text (some (num t)) differs = refl
    no_text (some (arr vs)) differs = refl
    no_text (some (obj fs)) differs = refl

-- The row after an update.
abbrev pub Updates : ℕ → String → Fields → AnchorTransaction → AnchorTransaction → Type 0
Updates now status raw_update row after =
    let sep = normalize_sep_status (some (str status)) in
    (stellar : Option String) × (raw : Fields) × NamesStellar
      (get "stellar_transaction_id" raw_update) row.stellar_transaction_id stellar
    × Merges sep raw_update row.raw raw
    × (after ≡ record row {
      sep_status = sep;
      stellar_transaction_id = stellar;
      raw = obj raw;
      updated_at = now;
    })

-- A status update of a known transaction succeeds and answers with its new row. The row has the new status, and the
-- Stellar transaction id of the update if it is a text and the old one otherwise; its raw object has the
-- status, "SEP-31" as its origin, and under every other name the value of the update or else the old one; its other
-- columns but the time are as before. Every other transaction is as before.
pub update_sep31-Updates :
    (config : AppConfig) (now : ℕ) (id status : String) (raw_update : Fields) (w : World)
    (row : AnchorTransaction)
    → get_anchor_transaction_by_id id w.db ≡ some row
    → (db : Db) × (after : AnchorTransaction) × Updates now status raw_update row after
      × (update_sep31_transaction_status config now id status raw_update w
          ≡ (record w { db = db }, ok (map_row config after)))
      × ((j : String)
          → get_anchor_transaction_by_id j db
            ≡ (if id == j then some after else get_anchor_transaction_by_id j w.db))
update_sep31-Updates config now id status raw_update w row found =
    let sep = normalize_sep_status (some (str status)) in
    let (db, done, reads) = update_found config now id status raw_update w row found in
    (
      db,
      changed now status raw_update row,
      (
        _,
        updated_raw row.raw raw_update sep,
        as_string-NamesStellar (get "stellar_transaction_id" raw_update) row.stellar_transaction_id,
        updated_raw-Merges row.raw raw_update sep,
        refl,
      ),
      done,
      reads,
    )
