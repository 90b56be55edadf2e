-- ===== src/Status/Laws.antt =====
-- Statuses and their texts.
use nyxfinance.Common.{Option, some, String, sym, ap, ◌∙◌, ◌≡◌, refl, arith, ◌≢◌, eq_iff, ◌↔◌}
use nyxfinance.Json.{Json, str}
use nyxfinance.Status.{
  SepStatus, pending_sender, pending_stellar, sep_text, parse_sep, status_word,
  normalize_sep_status,
}

-- The text of a status is read back as the same status.
pub parse_sep-sep_text : (s : SepStatus) → parse_sep (sep_text s) ≡ s
unfolding parse_sep sep_text
parse_sep-sep_text pending_sender = refl
parse_sep-sep_text pending_stellar = refl
parse_sep-sep_text _ = refl

-- Any status but `pending_sender` comes from its own text.
pub parse_sep_inv :
    (t : String) (s : SepStatus) → s ≢ pending_sender → parse_sep t ≡ s → t ≡ sep_text s
unfolding parse_sep sep_text
parse_sep_inv t s h e = ground (
  arith,
  eq_iff t "pending_stellar",
  eq_iff t "pending_receiver",
  eq_iff t "pending_external",
  eq_iff t "completed",
  eq_iff t "refunded",
  eq_iff t "expired",
  eq_iff t "error",
)

word_inv :
    (v : Option Json) (t : String) → t ≢ "pending_sender" → status_word v ≡ t → v ≡ some (str t)
word_inv (some (str s)) t h e = cc
word_inv _ t h e = absurd (h (sym e))

sep_text-ne : (s : SepStatus) → s ≢ pending_sender → sep_text s ≢ "pending_sender"
unfolding parse_sep
sep_text-ne s h e = h (sym (parse_sep-sep_text s) ∙ ap parse_sep e)

-- A SEP status other than `pending_sender` is the normal form of a value exactly when the value is
-- the string that spells it; every other value, `undefined` included, is normalised to
-- `pending_sender`.
pub normalize_sep_status_iff :
    (v : Option Json) (s : SepStatus)
    → s ≢ pending_sender
    → (normalize_sep_status v ≡ s) ↔ (v ≡ some (str (sep_text s)))
unfolding normalize_sep_status
normalize_sep_status_iff v s h = (
  λ e. word_inv v (sep_text s) (sep_text-ne s h) (parse_sep_inv (status_word v) s h e),
  λ e. ap (λ w. parse_sep (status_word w)) e ∙ parse_sep-sep_text s,
)
