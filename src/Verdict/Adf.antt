-- ===== src/Verdict/Adf.antt =====
-- rca_agent/schema.py: `verdict_to_adf`, the Jira comment of a verdict.
use rca_claude_agent.Prelude.{
  ◌+◌, ◌++◌, ◌<>◌, ℕ, ◌==◌, decimal, if◌then◌else◌, ◌∷◌, [], List, String,
}
use rca_claude_agent.Verdict.Schema.{plain_status, verdict_label, EvidenceLink, Verdict}

pub data Mark : Type 0 where
  strong em : Mark
  link : String → Mark

-- A text node with its marks, and a block: a paragraph, or the collapsible `expand` of paragraphs.
pub record Text : Type 0 where
  pub text : String
  pub marks : List Mark

pub data Block : Type 0 where
  paragraph : List Text → Block
  expand : String → List (List Text) → Block

abbrev plain : String → Text
plain s = record { text = s; marks = [] }

abbrev marked : Mark → String → Text
marked m s = record { text = s; marks = m ∷ [] }

-- `a or b`
abbrev or_text : String → String → String
or_text a b = if a == "" then b else a

abbrev evidence_ref : EvidenceLink → Text
evidence_ref e = if e.url == "" then plain e.ref else marked (link e.url) (or_text e.ref "open")

-- the evidence, numbered from `i`
unfoldable pub evidence_blocks : ℕ → List EvidenceLink → List (List Text)
unfolding decimal
evidence_blocks i [] = []
evidence_blocks i (e ∷ es) =
    (plain (decimal i <> ". [" <> e.kind <> "] " <> e.detail <> " ") ∷ evidence_ref e ∷ [])
    ∷ evidence_blocks (i + 1) es

-- `"; ".join(xs)`
unfoldable pub join_semicolons : List String → String
join_semicolons [] = ""
join_semicolons (x ∷ []) = x
join_semicolons (x ∷ (y ∷ ys)) = x <> "; " <> join_semicolons (y ∷ ys)

abbrev retest : List String → List (List Text)
retest [] = []
retest (b ∷ bs) = (plain ("Retest: " <> join_semicolons (b ∷ bs)) ∷ []) ∷ []

-- the collapsed part
unfoldable pub detail_blocks : Verdict → List (List Text)
unfolding evidence_blocks join_semicolons
detail_blocks v =
    evidence_blocks 1 v.evidence_chain
    ++ retest v.blast_radius
    ++ (if v.suggested_next_action == ""
        then []
        else (plain ("Next action: " <> v.suggested_next_action) ∷ []) ∷ [])

-- `DISCLAIMER`
abbrev pub disclaimer : String
disclaimer = "Automated RCA — verify before acting"

-- `verdict_to_adf`: the content of the document
unfoldable pub verdict_to_adf : Verdict → List Block
unfolding detail_blocks verdict_label plain_status
verdict_to_adf v =
    paragraph (marked strong ("⚠ " <> disclaimer) ∷ [])
    ∷ paragraph (marked strong "VERDICT: " ∷ marked strong (verdict_label v) ∷ [])
    ∷ paragraph (marked strong (or_text v.headline v.probable_root_cause) ∷ [])
    ∷ paragraph (plain v.plain_summary ∷ [])
    ∷ paragraph (marked em (plain_status v) ∷ [])
    ∷ expand "RCA details — evidence trail" (detail_blocks v)
    ∷ []
