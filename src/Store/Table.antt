-- ===== src/Store/Table.antt =====
-- The SQL that webapp/db.py uses on a table with the primary key `key`: the row of a key, a keyed
-- UPDATE with its `rowcount`, an UPDATE of many rows, and what they do to the row of a key.
use rca_claude_agent.Prelude.{
  ℕ, ◌+◌, String, ◌≡◌, refl, Bool, false, ◌&&◌, Option, none, some, List, [], ◌∷◌, arith, ◌==◌,
  eq_iff, ltb, if◌then◌else◌,
}
use rca_claude_agent.Store.Row.{Row}

abbrev pub Reviews : Type 0
Reviews = List Row

-- `SELECT * FROM reviews WHERE key = ?`, `fetchone`
unfoldable pub get_ticket : String → Reviews → Option Row
get_ticket k [] = none
get_ticket k (r ∷ rows) = if r.key == k then some r else get_ticket k rows

-- `UPDATE reviews SET f WHERE p`
unfoldable pub update_where : (Row → Bool) → (Row → Row) → Reviews → Reviews
update_where p f [] = []
update_where p f (r ∷ rows) = (if p r then f r else r) ∷ update_where p f rows

-- the number of the rows that an UPDATE changes, or that a COUNT counts
unfoldable pub count_where : (Row → Bool) → Reviews → ℕ
count_where p [] = 0
count_where p (r ∷ rows) = (if p r then 1 else 0) + count_where p rows

-- `WHERE key = k AND p`
abbrev pub keyed : String → (Row → Bool) → Row → Bool
keyed k p r = (r.key == k) && p r

abbrev pub update_key : String → (Row → Bool) → (Row → Row) → Reviews → Reviews
update_key k p f = update_where (keyed k p) f

-- `cur.rowcount > 0` after `update_key k p f`
abbrev pub hits_key : String → (Row → Bool) → Reviews → Bool
hits_key k p rows = ltb 0 (count_where (keyed k p) rows)

-- The primary key.
abbrev pub UniqueKeys : Reviews → Type 0
UniqueKeys [] = Unit
UniqueKeys (r ∷ rows) = (get_ticket r.key rows ≡ none) × UniqueKeys rows

abbrev pub KeepsKey : (Row → Row) → Type 0
KeepsKey f = (r : Row) → (f r).key ≡ r.key

abbrev pub map_row : (Row → Row) → Option Row → Option Row
map_row f none = none
map_row f (some r) = some (f r)

-- whether the row is there and passes a test
abbrev pub holds_at : (Row → Bool) → Option Row → Bool
holds_at p none = false
holds_at p (some r) = p r

pub get_ticket-key :
    (k : String) (rows : Reviews) (r : Row) → get_ticket k rows ≡ some r → r.key ≡ k
unfolding get_ticket
get_ticket-key k [] r h = ground arith
get_ticket-key k (x ∷ rows) r h = ground (arith, eq_iff x.key k, get_ticket-key k rows r)

pub get-update_where :
    (k : String) (p : Row → Bool) (f : Row → Row) (rows : Reviews)
    → KeepsKey f
    → get_ticket k (update_where p f rows)
      ≡ map_row (λ r. if p r then f r else r) (get_ticket k rows)
unfolding get_ticket update_where
get-update_where k p f [] h = refl
get-update_where k p f (r ∷ rows) h = ground (arith, h r, get-update_where k p f rows h)

-- An UPDATE of one key: its row changes if it passes, and no other row does.
pub get-update_key :
    (j k : String) (p : Row → Bool) (f : Row → Row) (rows : Reviews)
    → KeepsKey f
    → get_ticket j (update_key k p f rows)
      ≡ map_row (λ r. if (k == j) && p r then f r else r) (get_ticket j rows)
unfolding get_ticket update_where
get-update_key j k p f [] h = refl
get-update_key j k p f (r ∷ rows) h =
    ground (arith, h r, eq_iff r.key j, eq_iff r.key k, eq_iff k j, get-update_key j k p f rows h)

count-keyed_absent :
    (k : String) (p : Row → Bool) (rows : Reviews)
    → get_ticket k rows ≡ none
    → count_where (keyed k p) rows ≡ 0
unfolding get_ticket count_where
count-keyed_absent k p [] h = refl
count-keyed_absent k p (r ∷ rows) h = ground (arith, count-keyed_absent k p rows)

-- At most one row has the key, so `rowcount` says whether that row passes.
pub count-keyed :
    (k : String) (p : Row → Bool) (rows : Reviews)
    → UniqueKeys rows
    → count_where (keyed k p) rows ≡ (if holds_at p (get_ticket k rows) then 1 else 0)
unfolding get_ticket count_where
count-keyed k p [] u = refl
count-keyed k p (r ∷ rows) u =
    ground (arith, eq_iff r.key k, count-keyed_absent k p rows, count-keyed k p rows u.1)

pub hits_key_lem :
    (k : String) (p : Row → Bool) (rows : Reviews)
    → UniqueKeys rows
    → hits_key k p rows ≡ holds_at p (get_ticket k rows)
hits_key_lem k p rows u = ground (arith, count-keyed k p rows u)

-- An UPDATE that keeps the keys keeps them unique.
pub update_where-UniqueKeys :
    (p : Row → Bool) (f : Row → Row) (rows : Reviews)
    → KeepsKey f
    → UniqueKeys rows
    → UniqueKeys (update_where p f rows)
unfolding update_where
update_where-UniqueKeys p f [] h u = tt
update_where-UniqueKeys p f (r ∷ rows) h u =
    ground (arith, h r, get-update_where r.key p f rows h, update_where-UniqueKeys p f rows h u.1)
