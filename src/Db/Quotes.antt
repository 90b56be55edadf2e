-- ===== src/Db/Quotes.antt =====
-- backend/src/db/sqlite.ts: the table quotes.
use nyxfinance.Common.{ℕ, Bool, true, Option, String, ◌==◌}
use mathlib.Core.Option
use nyxfinance.Sql.{find, insert, latest}
use nyxfinance.Result.{Result}
use nyxfinance.Db.{Db, Quote, QuoteRow, stored}

abbrev pub has_quote_id : String → QuoteRow → Bool
has_quote_id id r = r.quote.id == id

abbrev pub quote_row : Quote → ℕ → QuoteRow
quote_row quote now = record { quote = quote; created_at = now }

unfoldable pub insert_quote : Quote → ℕ → Db → Result Db
unfolding insert
insert_quote quote now db =
    stored "quotes" (λ rows. record db { quotes = rows })
      (insert (has_quote_id quote.id) (quote_row quote now) db.quotes)

-- `mapQuoteRow`
abbrev pub map_quote_row : QuoteRow → Quote
map_quote_row row = row.quote

unfoldable pub get_quote_by_id : String → Db → Option Quote
unfolding find
get_quote_by_id id db = Option.map map_quote_row (find (has_quote_id id) db.quotes)

unfoldable pub get_latest_quote : Db → Option Quote
unfolding latest
get_latest_quote db = Option.map map_quote_row (latest (λ _. true) (λ r. r.created_at) db.quotes)

pub get_latest_quote_id : Db → Option String
unfolding get_latest_quote
get_latest_quote_id db = Option.map (λ q. q.id) (get_latest_quote db)
