-- ===== src/Fix/Build.antt =====
-- rca_agent/fix_agent.py: the data classes, `_check_file` and `_build_files`.
use rca_claude_agent.Fix.Edits.{Edit, Proposed, apply_edits}
use rca_claude_agent.Prelude.{
  [], not, false, ◌++◌, ◌&&◌, true, map, if◌then◌else◌, none, ◌∷◌, ◌==◌, ◌<>◌, some, List, cut,
  Option, Bool, String,
}
use rca_claude_agent.Trace.Frames.{ends_with}

pub record FileFix : Type 0 where
  pub file : String
  pub project : String
  pub ref : String
  pub diff : String
  pub syntax_ok : Option Bool
  pub syntax_note : String
  pub edits : List Edit

pub record FixSuggestion : Type 0 where
  pub fixable : Bool
  pub rationale : String
  pub files : List FileFix
  pub reason : String
  pub caveats : List String

-- What `_check_file` asks of the standard library: the message of the SyntaxError that `compile`
-- raises on a text, if it raises one; and the unified diff of two texts, under two names.
pub record Python : Type 0 where
  pub syntax_error : String → Option String
  pub unified_diff : String → String → String → String → String

-- the outcome of `compile`
abbrev pub syntax_result : Option String → Option Bool × String
syntax_result none = (some true, "patched file parses (py_compile OK)")
syntax_result (some e) = (some false, "patched file has a syntax error: " <> cut 120 e)

-- `_check_file`
unfoldable pub check_file : Python → String → String → String → String × (Option Bool × String)
unfolding cut
check_file python orig new path = (
  python.unified_diff orig new ("a/" <> path) ("b/" <> path),
  if ends_with path ".py"
      then syntax_result (python.syntax_error new)
      else (none, "syntax check skipped (not a Python file)"),
)

-- the key `(project, file)` of an edit
abbrev pub Place : Type 0
Place = String × String

abbrev pub same_key : Place → Place → Bool
same_key a b = (a.0 == b.0) && (a.1 == b.1)

abbrev pub place_of : Proposed → Place
place_of e = (e.project, e.file)

-- `by_key.setdefault(key, []).append(e)`, in the order in which the keys came
abbrev pub add_to {ℓ κ} :
    {K : Type ℓ} {A : Type κ} → (K → K → Bool) → K → A → List (K × List A) → List (K × List A)
add_to same k x [] = (k, x ∷ []) ∷ []
add_to same k x ((j, xs) ∷ rest) =
    let further = (j, xs) ∷ add_to same k x rest in
    if same j k then (j, xs ++ x ∷ []) ∷ rest else further

-- the loop that groups the edits
unfoldable pub group_edits :
    List (Place × List Proposed) → List Proposed → List (Place × List Proposed)
group_edits groups [] = groups
group_edits groups (e ∷ es) = group_edits (add_to same_key (place_of e) e groups) es

-- the files that were fetched: for a place its ref and its text
abbrev pub Fetched : Type 0
Fetched = List (Place × (String × String))

abbrev pub fetched_at : Place → Fetched → Option (String × String)
fetched_at k [] = none
fetched_at k ((j, f) ∷ rest) = if same_key j k then some f else fetched_at k rest

abbrev pub not_fetched : Proposed → Edit
not_fetched e = record {
  before = e.before;
  after = e.after;
  applied = false;
  error = "could not fetch this file to apply/verify the change";
}

-- the check of a text that the edits changed
abbrev pub checked : Python → String → String → String → String × (Option Bool × String)
unfolding check_file
checked python path raw cur =
    if not (cur == raw)
    then check_file python raw cur path
    else ("", (none, "no snippet applied (all refused)"))

-- one file of the loop, as it was fetched
unfoldable pub build_file : Python → Place → Option (String × String) → List Proposed → FileFix
unfolding apply_edits check_file
build_file python (project, path) none eds = record {
  file = path;
  project = project;
  ref = "";
  diff = "";
  syntax_ok = none;
  syntax_note = "";
  edits = map not_fetched eds;
}
build_file python (project, path) (some (ref, raw)) eds =
    let done = apply_edits raw eds in
    let check = checked python path raw done.0 in
    record {
      file = path;
      project = project;
      ref = ref;
      diff = check.0;
      syntax_ok = check.1.0;
      syntax_note = check.1.1;
      edits = done.1;
    }

-- `_build_files`
unfoldable pub build_files : Python → List Proposed → Fetched → List FileFix
unfolding group_edits build_file
build_files python edits fetched =
    map (λ group. build_file python group.0 (fetched_at group.0 fetched) group.1)
      (group_edits [] edits)
