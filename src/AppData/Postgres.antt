-- ===== src/AppData/Postgres.antt =====
-- rca_agent/app_db.py: the guard of a SELECT, the masking of its rows, and `query_postgres`.
use Prim.Native.Char.{code}
use rca_claude_agent.AppData.Mask.{mask_value, is_pii_column, Masks}
use rca_claude_agent.Review.World.{Outcome, returned, raised}
use rca_claude_agent.Prelude.{
  [], ◌∷◌, map, length, ◌||◌, not, none, length, ◌&&◌, some, map, is_space, ◌=ℕ◌, ◌==◌, Option,
  ◌<>◌, ℕ, lower, Bool, if◌then◌else◌, cut, List, strip, String,
}
use rca_claude_agent.Graph.Search.{occurs_in}

-- a cell of a result: NULL, a text, or another value by its `str`
pub data Cell : Type 0 where
  null_cell : Cell
  text_cell : String → Cell
  other_cell : String → Cell

-- `"<present>" if str(value).strip() else "<empty>"`
abbrev pub presence_of : String → Cell
presence_of s = if strip s == "" then text_cell "<empty>" else text_cell "<present>"

-- `_mask_cell`
unfoldable pub mask_cell : Masks → String → Cell → Cell
unfolding is_pii_column mask_value strip
mask_cell M column null_cell = null_cell
mask_cell M column (text_cell s) =
    if is_pii_column M column then presence_of s else text_cell (mask_value M s)
mask_cell M column (other_cell s) = if is_pii_column M column then presence_of s else other_cell s

-- `s.rstrip(";")`
unfoldable pub strip_semicolons : String → String
strip_semicolons String.[] = String.[]
strip_semicolons (String.◌∷◌ c s) =
    let rest = strip_semicolons s in
    if (code c =ℕ 59) && (rest == String.[]) then String.[] else String.◌∷◌ c rest

-- `s.split(None, 1)[0]` of a text that begins with no space
unfoldable pub first_word : String → String
first_word String.[] = String.[]
first_word (String.◌∷◌ c s) =
    let rest = String.◌∷◌ c (first_word s) in if is_space (code c) then String.[] else rest

-- What the query asks of the world: the variable, the two regular expressions (whether `_FORBIDDEN`
-- is found in a text, and whether it ends in a LIMIT), whether psycopg can be imported, and what the
-- database answers to a text: its columns and rows, or an exception.
pub record Postgres : Type 0 where
  pub app_pg_dsn : String
  pub has_forbidden : String → Bool
  pub ends_in_limit : String → Bool
  pub has_psycopg : Bool
  pub execute : String → Outcome (List String × List (List Cell))

-- `_assert_select_only`: the text of its ValueError
unfoldable pub assert_select_only : Postgres → String → Option String
unfolding strip strip_semicolons first_word lower
assert_select_only W sql =
    let stripped = strip (strip_semicolons (strip sql)) in
    let head = lower (first_word stripped) in
    if stripped == ""
    then some "empty query"
    else if occurs_in ";" stripped
    then some "multiple statements are not allowed"
    else if not ((head == "select") || (head == "with"))
    then some "only SELECT (or WITH ... SELECT) queries are allowed"
    else if W.has_forbidden stripped
    then some "query contains a forbidden (non-read) keyword"
    else none

-- `_cap_rows`
unfoldable pub cap_rows : Postgres → String → String
unfolding strip strip_semicolons
cap_rows W sql =
    let stripped = strip_semicolons (strip sql) in
    if W.ends_in_limit stripped then stripped else stripped <> " LIMIT 50"

pub data PostgresAnswer : Type 0 where
  postgres_error : String → PostgresAnswer
  result_rows : (columns : List String) (rows : List (List Cell)) (rowcount : ℕ) → PostgresAnswer

-- one row: a cell by the column at its place
unfoldable pub mask_row : Masks → List String → List Cell → List Cell
unfolding mask_cell
mask_row M (c ∷ cs) (v ∷ vs) = mask_cell M c v ∷ mask_row M cs vs
mask_row M _ _ = []

abbrev pub masked_rows : Masks → Outcome (List String × List (List Cell)) → PostgresAnswer
unfolding mask_row cut
masked_rows M (raised type text) =
    postgres_error ("Postgres query failed: " <> type <> ": " <> cut 200 text)
masked_rows M (returned (cols, rows)) = result_rows cols (map (mask_row M cols) rows) (length rows)

-- with the verdict of `_assert_select_only`
abbrev pub run_select : Masks → Postgres → String → Option String → PostgresAnswer × Option String
unfolding masked_rows cap_rows
run_select M W sql (some e) = (postgres_error ("rejected: " <> e), none)
run_select M W sql none =
    if not W.has_psycopg
    then (postgres_error "psycopg not installed (pip install 'psycopg[binary]')", none)
    else (masked_rows M (W.execute (cap_rows W sql)), some (cap_rows W sql))

-- `query_postgres`: the answer, and the text that was run for it, if one was
unfoldable pub query_postgres : Masks → Postgres → String → PostgresAnswer × Option String
unfolding run_select assert_select_only strip
query_postgres M W sql =
    if strip W.app_pg_dsn == ""
    then (
      postgres_error
          "Postgres not configured — set APP_PG_DSN in .env (point it at a READ REPLICA with a read-only user)",
      none,
    )
    else run_select M W sql (assert_select_only W sql)
