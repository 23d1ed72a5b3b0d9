-- ===== src/Fix/Samples.antt =====
-- A fix, a GitLab and a model's answer for the tests.
use rca_claude_agent.Verdict.Samples.{fault}
use rca_claude_agent.Review.World.{Outcome, returned, raised}
use rca_claude_agent.Prelude.{
  ◌<>◌, none, false, some, ◌==◌, [], true, if◌then◌else◌, ◌∷◌, ℕ, String,
}
use rca_claude_agent.Verdict.Schema.{Verdict}
use rca_claude_agent.Fix.Suggest.{run_result, assistant_texts, FixWorld}
use rca_claude_agent.Fix.Build.{FixSuggestion}
use rca_claude_agent.Fix.Edits.{Proposed}
use rca_claude_agent.Fix.Raise.{Remote}

-- the sample verdict, with a link to the file of its crash site
abbrev pub pinned : Verdict
pinned = record fault {
  evidence_chain =
      record {
        kind = "file_content";
        ref = "tax.py:8";
        detail = "adds the tax again";
        url = "blob";
      }
      ∷ [];
}

-- an edit of one file
abbrev pub edit : String → String → Proposed
edit before after = record { project = ""; file = "tax.py"; before = before; after = after }

abbrev pub tax_file : String
tax_file = "t = a + b\nt = t + tax\nreturn t\n"

-- a project with one file
abbrev pub file_of : String → Outcome String
file_of path = if path == "tax.py" then returned tax_file else raised "GitLabError" "file not found"

abbrev pub fix_world : FixWorld
fix_world = record {
  messages = λ prompt.
      assistant_texts ("Reading." ∷ [])
      ∷ assistant_texts ("```json\n{}\n```" ∷ [])
      ∷ run_result (some "success") "" false
      ∷ [];
  loads = λ s. some (record {
    fixable = true;
    reason = none;
    rationale = "Count the tax once.";
    edits = edit "t + tax" "t" ∷ edit "missing" "x" ∷ edit "t = " "s = " ∷ [];
  });
  parse_blob_url = λ url. some ("acme/billing", "main", "tax.py");
  default_ref = λ project. returned "main";
  get_file = λ project ref path. file_of path;
  python = record { syntax_error = λ s. none; unified_diff = λ a b f t. f <> "," <> t };
}

abbrev pub tax_fix : FixSuggestion
tax_fix = record {
  fixable = true;
  rationale = "Count the tax once.";
  files =
      record {
        file = "tax.py";
        project = "acme/billing";
        ref = "main";
        diff = "a/tax.py,b/tax.py";
        syntax_ok = some true;
        syntax_note = "patched file parses (py_compile OK)";
        edits =
            record { before = "t + tax"; after = "t"; applied = true; error = "" }
            ∷ record { before = "missing"; after = "x"; applied = false; error = "drifted" }
            ∷ [];
      }
      ∷ [];
  reason = "";
  caveats = [];
}

-- a GitLab that answers every POST with the status
abbrev pub answering : ℕ → Remote
answering status = record {
  post = λ sent q. returned (record {
    status_code = status;
    text = "Branch already exists";
    web_url = some "mr-7";
    iid = some 7;
  });
  default_ref = λ project. returned "main";
  get_file = λ project ref path. file_of path;
}
