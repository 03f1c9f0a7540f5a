-- ===== src/Supervisor/Answer.antt =====
-- internal/supervisor/openai_reviewer.go: what is made of a model's answer once its JSON is decoded. `trim` is
-- Go's `strings.TrimSpace`.
pub mod Laws
use Prim.Native.String.{count}
use cyber_foreman.Prelude.{
  ℕ, ◌+◌, ◌-◌, String, str_eq, append, Bool, true, false, not, ◌||◌, ◌≡◌, refl, List, [], ◌∷◌, ◌++◌,
  map, keep, length, take, drop, if◌then◌else◌, leb, ltb, ◌⊎◌, inl, inr, arith, Bool-cases,
}
use cyber_foreman.Supervisor.Semantic.{
  SemanticVerdict, SemanticReviewPhase, SemanticReviewRequest, SemanticReview, pass, redirect,
  uncertain, attention, final, mid_turn,
}
use cyber_foreman.App.Prompt.Texts.{take_runes}

abbrev pub max_review_field_runes : ℕ
max_review_field_runes = 2_048

abbrev pub max_review_input_runes : ℕ
max_review_input_runes = 12_288

abbrev pub max_review_evidence_runes : ℕ
max_review_evidence_runes = 512

abbrev pub is_none_of : List String → Bool
is_none_of [] = true
is_none_of (x ∷ xs) = false

module _ (trim : String → String) where
  -- `boundedText`.
  unfoldable pub bounded_text : String → ℕ → String
  bounded_text value limit =
      if leb (count (trim value)) limit
      then trim value
      else append (take_runes limit (trim value)) "\n(truncated)"

  -- `boundedReviewList`.
  unfoldable pub bounded_review_list : List String → List String
  bounded_review_list values =
      keep (λ item. not (str_eq item ""))
        (map (λ value. bounded_text value max_review_evidence_runes) (take 8 values))

  -- `boundedInstructions`: the first one and the last seven, where there are more than eight.
  unfoldable pub bounded_instructions : List String → List String
  bounded_instructions values =
      map (λ value. bounded_text value max_review_field_runes)
        (if ltb 8 (length values) then take 1 values ++ drop (length values - 7) values else values)

  abbrev pub bounded_review : SemanticReview → SemanticReview
  bounded_review r = record r {
    reason = bounded_text (trim r.reason) max_review_field_runes;
    follow_up = bounded_text (trim r.follow_up) max_review_field_runes;
    evidence = bounded_review_list r.evidence;
    unmet_requirements = bounded_review_list r.unmet_requirements;
    missing_evidence = bounded_review_list r.missing_evidence;
  }

  abbrev pub with_reason : SemanticReview → String ⊎ SemanticReview
  with_reason r = if str_eq r.reason "" then inl "semantic review reason is required" else inr r

  abbrev pub by_own_verdict : SemanticVerdict → SemanticReview → String ⊎ SemanticReview
  by_own_verdict pass r =
      with_reason (record r { follow_up = ""; unmet_requirements = []; missing_evidence = [] })
  by_own_verdict redirect r =
      if str_eq r.follow_up ""
      then inl "redirect review requires follow_up"
      else with_reason (record r { missing_evidence = [] })
  by_own_verdict uncertain r = with_reason (record r { follow_up = ""; unmet_requirements = [] })
  by_own_verdict attention r = inl "invalid semantic review verdict"

  -- `parseSemanticReview`, after the decoding.
  unfoldable pub normalize_review : SemanticReview → String ⊎ SemanticReview
  normalize_review r = by_own_verdict r.verdict (bounded_review r)

abbrev pub by_evidence :
    SemanticVerdict → SemanticReviewPhase → SemanticReview → String ⊎ SemanticReview
by_evidence pass mid_turn r = inr r
by_evidence pass final r =
    if is_none_of r.evidence then inl "final pass review requires evidence" else inr r
by_evidence redirect phase r =
    if is_none_of r.evidence || is_none_of r.unmet_requirements
    then inl "redirect review requires evidence and unmet_requirements"
    else inr r
by_evidence uncertain phase r =
    if is_none_of r.missing_evidence
    then inl "uncertain review requires missing_evidence"
    else inr r
by_evidence attention phase r =
    if is_none_of r.evidence then inl "operator attention review requires evidence" else inr r

-- `validateSemanticReviewEvidence`.
unfoldable pub validate_semantic_review_evidence :
    SemanticReview → SemanticReviewPhase → String ⊎ SemanticReview
validate_semantic_review_evidence r phase = by_evidence r.verdict phase r

abbrev pub validated : String ⊎ SemanticReview → SemanticReviewPhase → String ⊎ SemanticReview
validated (inl e) phase = inl e
validated (inr r) phase = validate_semantic_review_evidence r phase

-- The end of `OpenAIReviewer.Review`, for a decoded answer.
unfoldable pub decoded_answer :
    (String → String) → SemanticReview → SemanticReviewPhase → String ⊎ SemanticReview
decoded_answer trim r phase = validated (normalize_review trim r) phase

-- What `semanticReviewInput` encodes as JSON for the model.
pub record SemanticReviewInput : Type 0 where
  pub phase : SemanticReviewPhase
  pub trusted_instructions : List String
  pub acceptance_criteria : List String
  pub current_instruction : String
  pub agent_response : String
  pub verification : String

unfoldable pub semantic_review_input :
    (String → String) → SemanticReviewRequest → SemanticReviewInput
semantic_review_input trim r = record {
  phase = r.phase;
  trusted_instructions = bounded_instructions trim r.trusted_instructions;
  acceptance_criteria = bounded_review_list trim r.acceptance_criteria;
  current_instruction = bounded_text trim r.current_instruction max_review_field_runes;
  agent_response = bounded_text trim r.agent_response max_review_input_runes;
  verification = bounded_text trim r.verification_summary max_review_field_runes;
}
