-- ===== src/Store/Lists.antt =====
-- rca_agent/webapp/db.py: the worklist of tickets with an RCA.
use rca_claude_agent.Store.Table.{Reviews}
use rca_claude_agent.Store.Row.{Row}
use rca_claude_agent.Prelude.{
  refl, ◌&&◌, arith, ◌≡◌, leb, [], count, if◌then◌else◌, Bool, is_some, ◌∷◌, keep,
}

abbrev pub insert_newest : Row → Reviews → Reviews
insert_newest r [] = r ∷ []
insert_newest r (s ∷ rows) =
    let rest = insert_newest r rows in
    if leb s.updated_at r.updated_at then r ∷ s ∷ rows else s ∷ rest

abbrev pub newest_first : Reviews → Reviews
newest_first [] = []
newest_first (r ∷ rows) = insert_newest r (newest_first rows)

-- `get_tickets_with_rca`; rows of one time in the table's order
unfoldable pub get_tickets_with_rca : Reviews → Reviews
get_tickets_with_rca rows = newest_first (keep (λ r. is_some r.bot_rca_json) rows)

count-insert_newest :
    (p : Row → Bool) (r : Row) (rows : Reviews)
    → count p (insert_newest r rows) ≡ count p (r ∷ rows)
count-insert_newest p r [] = refl
count-insert_newest p r (s ∷ rows) = ground (arith, count-insert_newest p r rows)

count-newest_first : (p : Row → Bool) (rows : Reviews) → count p (newest_first rows) ≡ count p rows
count-newest_first p [] = refl
count-newest_first p (r ∷ rows) =
    ground (arith, count-insert_newest p r (newest_first rows), count-newest_first p rows)

count-keep :
    (p q : Row → Bool) (rows : Reviews) → count p (keep q rows) ≡ count (λ r. q r && p r) rows
count-keep p q [] = refl
count-keep p q (r ∷ rows) = ground (arith, count-keep p q rows)

-- The worklist holds each row that has an RCA as often as the table does, and no other row.
count-get_tickets_with_rca :
    (p : Row → Bool) (rows : Reviews)
    → count p (get_tickets_with_rca rows) ≡ count (λ r. is_some r.bot_rca_json && p r) rows
unfolding get_tickets_with_rca
count-get_tickets_with_rca p rows = ground (
  arith,
  count-newest_first p (keep (λ (r : Row). is_some r.bot_rca_json) rows),
  count-keep p (λ r. is_some r.bot_rca_json) rows,
)
