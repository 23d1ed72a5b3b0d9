-- ===== src/Gitlab/Tests.antt =====
-- The GitLab client at a concrete server, and the theorems of Gitlab at it.
use rca_claude_agent.Gitlab.Server.{Branch, Page, CommitJson, get_json, Reply, Server}
use rca_claude_agent.Review.World.{Outcome, returned, raised}
use rca_claude_agent.Gitlab.Reads.{get_file_lines, slice_of, file_text, get_file}
use rca_claude_agent.Prelude.{
  map, map, cut, rstrip, lstrip, strip, lower, ◌==◌, Each, ◌∙◌, ap, Option, true, false, ◌=ℕ◌, refl,
  if◌then◌else◌, arith, [], none, ◌≡◌, ◌∷◌, some, ℕ, String,
}
use rca_claude_agent.Gitlab.Pages.{branches_of, fault_of, after_page, paged, list_branches}
use rca_claude_agent.Gitlab.Reads.{split_lines}
use rca_claude_agent.Gitlab.Paging.{list_branches_ends, IsWithin, IsPaged}
use rca_claude_agent.Gitlab.Commits.{enriched, blame_line}
use rca_claude_agent.Gitlab.Lines.{get_file_lines_lem, IsLine, blame_line_owner}
use rca_claude_agent.Gitlab.Fixtures.{
  fixture_commit, fixture_ref, fixture_span, meta, fixture_search, fixture_branches, fixture_blame,
  Fixtures,
}

abbrev commit : String → CommitJson
commit id = record {
  id = id;
  short_id = none;
  title = some "Move tax";
  author_name = none;
  authored_date = none;
  message = none;
}

abbrev ok : {A : Type 0} → A → Outcome (Reply A)
ok a = returned (record { status_code = 200; text = "a\nb\r\nc"; body = some a })

abbrev page_of : ℕ → Page Branch
page_of n = record {
  status_code = 200;
  text = "";
  rows =
      if n =ℕ 1
      then record { name = "qa"; is_default = false } ∷ []
      else record { name = "main"; is_default = true } ∷ [];
  next_page = if n =ℕ 1 then some 2 else none;
}

-- a server with three lines of two commits, and two pages of branches
abbrev server : Server
server = record {
  quote = λ s. s;
  project = λ p. ok (some "main");
  raw_file = λ p ref. ok tt;
  commit = λ p. ok (commit "c1");
  blame = λ p ref. ok (
      record { commit = commit "c1"; lines = 2 } ∷ record { commit = commit "c2"; lines = 1 } ∷ []);
  commit_mrs = λ p. ok [];
  merge_request = λ p. raised "HTTPError" "503";
  search = λ p query ref. ok [];
  projects = λ search per_page. ok [];
  tree = λ p ref page. raised "HTTPError" "503";
  branches = λ p search page. returned (page_of page);
}

two_pages : list_branches 2 server "acme" "" 100 ≡ some (returned ("main" ∷ "qa" ∷ []))
unfolding list_branches paged after_page fault_of branches_of
two_pages = refl

three_lines : split_lines "a\nb\r\nc" ≡ "a" ∷ "b" ∷ "c" ∷ []
unfolding split_lines
three_lines = refl

blame_line_owner_example :
    blame_line server "acme" "main" "tax.py" 3 ≡ enriched server "acme" (some (commit "c2"))
unfolding get_json
blame_line_owner_example = blame_line_owner server "acme" "main" "tax.py" 3 _ refl (omega arith)

get_file_lines_lem_example :
    let slice = slice_of "tax.py" "main" 2 9 (split_lines "a\nb\r\nc") in
    (get_file_lines server "acme" "main" "tax.py" 2 9 ≡ returned slice)
    × (slice.start_line ≡ 2)
    × (slice.end_line ≡ 3)
    × Each (IsLine (split_lines "a\nb\r\nc") 2 9) slice.numbered_lines
    × (map (λ p. p.0) slice.numbered_lines ≡ 2 ∷ 3 ∷ [])
unfolding get_file file_text split_lines slice_of
get_file_lines_lem_example = get_file_lines_lem server "acme" "main" "tax.py" "a\nb\r\nc" 2 9 refl

abbrev next_of : Outcome (Page Branch) → Option ℕ
next_of (returned r) = r.next_page
next_of (raised type text) = none

pages-IsPaged : IsPaged 2 (λ page. returned (page_of page))
pages-IsPaged page n r e h =
    let next : (if page =ℕ 1 then some 2 else none) ≡ some n = ap next_of e ∙ h in
    ground (arith, next)

list_branches_ends_example : IsWithin 100 (list_branches 2 server "acme" "" 100)
list_branches_ends_example =
    list_branches_ends 2 2 server "acme" "" 100 pages-IsPaged (omega arith) (omega arith)

-- a project with one recorded blame
abbrev fixtures : Fixtures
fixtures = record {
  meta_of = λ project.
      if project == "acme"
      then some (record {
        ref = some "main";
        branches = "main" ∷ "qa" ∷ [];
        blame =
            (
              "tax.py",
              record { commit = "c1"; count = some 2; lines = 0 }
                  ∷ record { commit = "c2"; count = none; lines = 3 }
                  ∷ [],
            )
            ∷ [];
        commits =
            (
              "c2",
              record {
                id = "c2";
                short_id = none;
                title = "Move tax";
                author_name = "Ann";
                authored_date = "2026-01-02";
                message = none;
              },
            )
            ∷ [];
        commit_mrs = [];
      })
      else none;
  files_of = λ project. some (("tax.py", "t = a\nt = t + tax") ∷ []);
}

recorded_blame :
    fixture_blame fixtures "acme" "tax.py" 5
    ≡ returned (
        some (record {
          id = "c2";
          short_id = "c2";
          title = "Move tax";
          author_name = "Ann";
          authored_date = "2026-01-02";
          message = "Move tax";
        }))
unfolding fixture_blame meta fixture_span fixture_commit cut
recorded_blame = refl

found_branches : fixture_branches fixtures "acme" "Q" 5 ≡ "qa" ∷ []
unfolding fixture_branches meta fixture_ref lower
found_branches = refl

found_line : fixture_search fixtures "acme" "TAX" 20 ≡ ("tax.py", (2, "t = t + tax")) ∷ []
unfolding fixture_search lower strip lstrip rstrip split_lines
found_line = refl
