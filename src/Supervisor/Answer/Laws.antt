-- ===== src/Supervisor/Answer/Laws.antt =====
-- Which answers of a model internal/supervisor/openai_reviewer.go lets through.
use cyber_foreman.Prelude.{String, str_eq, false, ◌≡◌, [], ◌⊎◌, inr, arith}
use cyber_foreman.Supervisor.Semantic.{
  SemanticVerdict, SemanticReviewPhase, SemanticReview, pass, redirect, uncertain, attention, final,
  mid_turn,
}
use cyber_foreman.Supervisor.Answer.{
  is_none_of, bounded_review, by_own_verdict, normalize_review, validate_semantic_review_evidence,
  validated, decoded_answer,
}

-- What a verdict must bring with it, and what it may not.
unfoldable pub Supported : SemanticVerdict → SemanticReviewPhase → SemanticReview → Type 0
Supported pass phase r =
    ((phase ≡ mid_turn) ⊎ (is_none_of r.evidence ≡ false))
    × (r.follow_up ≡ "")
    × (r.unmet_requirements ≡ [])
    × (r.missing_evidence ≡ [])
Supported redirect phase r =
    (is_none_of r.evidence ≡ false)
    × (is_none_of r.unmet_requirements ≡ false)
    × (str_eq r.follow_up "" ≡ false)
    × (r.missing_evidence ≡ [])
Supported uncertain phase r =
    (is_none_of r.missing_evidence ≡ false) × (r.follow_up ≡ "") × (r.unmet_requirements ≡ [])
Supported attention phase r = ⊥

module _ (trim : String → String) where
  by_own_verdict-Supported :
      (v : SemanticVerdict) (phase : SemanticReviewPhase) (r : SemanticReview) {x : SemanticReview}
      → validated (by_own_verdict trim v (record r { verdict = v })) phase ≡ inr x
      → (x.verdict ≡ v) × Supported v phase x × (str_eq x.reason "" ≡ false)
  unfolding Supported validate_semantic_review_evidence
  by_own_verdict-Supported attention phase r h = absurd (cc h)
  by_own_verdict-Supported pass mid_turn r {x} h = ground arith
  by_own_verdict-Supported pass final r {x} h = ground arith
  by_own_verdict-Supported redirect phase r {x} h = ground arith
  by_own_verdict-Supported uncertain phase r {x} h = ground arith

  -- An answer that is let through gives a reason and has what its verdict asks for: a pass of a finished turn has
  -- evidence; a redirect has evidence, unmet requirements and a follow-up; an uncertain one names the evidence that
  -- is missing; and none asks for the operator's attention. It has nothing that its verdict does not allow.
  pub decoded_answer-Supported :
      (r : SemanticReview) (phase : SemanticReviewPhase) {x : SemanticReview}
      → decoded_answer trim r phase ≡ inr x
      → (x.verdict ≡ r.verdict) × Supported r.verdict phase x × (str_eq x.reason "" ≡ false)
  unfolding decoded_answer normalize_review
  decoded_answer-Supported r phase h =
      by_own_verdict-Supported r.verdict phase (bounded_review trim r) h
