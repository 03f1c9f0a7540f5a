-- ===== src/App/Review/Laws.antt =====
-- What reviews of internal/app/semantic_review.go see and what they can change.
use Prim.Native.String.{count}
use text.Mathlib.TextLemmas.{
  cons-append, nil-append, append-nil, append_assoc, length-nil, length-cons, length-append,
}
use cyber_foreman.Prelude.{
  ℕ, zero, suc, ◌-◌, ◌≤◌, String, str_eq, eq_iff, append, Bool, true, false, ◌≡◌, refl, sym, ap,
  ◌∙◌, List, [], ◌∷◌, Option, none, some, leb, ◌⊎◌, inl, inr, arith, Bool-cases,
}
use cyber_foreman.Domain.{semantic_review_start, semantic_review_end}
use cyber_foreman.Event.{Event}
use cyber_foreman.Event.Bus.Defs.{Env, Bus, publish}
use cyber_foreman.Supervisor.Semantic.{
  SemanticReview, SemanticReviewPhase, SemanticReviewerDescriptor, attention, is_verdict,
}
use cyber_foreman.App.Types.{Service}
use cyber_foreman.App.Prompt.Texts.{concat_texts, take_runes, drop_runes}
use cyber_foreman.App.Prompt.Texts.Bounds.{
  take_runes-drop_runes, count-take_runes, take_runes-whole,
}
use cyber_foreman.App.Review.{
  Reviewer, ReviewSubject, append_within, append_bounded_response,
  max_observed_agent_response_runes, admitted_review, is_final, reviewed, review_with,
  review_agent_turn,
}

take_of_nil : (n : ℕ) → take_runes n "" ≡ ""
take_of_nil zero = refl
take_of_nil (suc n) = refl

take_runes-append :
    (n : ℕ) (s t : String)
    → take_runes n (append s t) ≡ append (take_runes n s) (take_runes (n - count s) t)
take_runes-append n String.[] t =
    let e : n - count "" ≡ n = omega (arith, length-nil) in
    rw (nil-append, take_of_nil, e, nil-append) refl
take_runes-append zero (String.◌∷◌ c s) t =
    let e : 0 - count (String.◌∷◌ c s) ≡ 0 = omega arith in rw (nil-append, e) refl
take_runes-append (suc n) (String.◌∷◌ c s) t =
    let e : suc n - count (String.◌∷◌ c s) ≡ n - count s = omega (arith, length-cons c s) in
    rw (cons-append, cons-append, e, take_runes-append n s t) refl

-- The response that is kept of the chunks so far, and its count.
abbrev kept : ℕ → String → String × ℕ
kept n s = (take_runes n s, count (take_runes n s))

append_within-kept :
    (n : ℕ) (s chunk : String) → append_within n (kept n s) chunk ≡ kept n (append s chunk)
unfolding append_within
append_within-kept n s chunk = elim (Bool-cases (leb n (count (take_runes n s)))) [
  | inl y ↦
      let long : n ≤ count s = ground (
        arith,
        length-append (take_runes n s) (drop_runes n s),
        ap count (take_runes-drop_runes n s),
      ) in
      let e : n - count s ≡ 0 = omega arith in
      let q : take_runes n (append s chunk) ≡ take_runes n s =
        take_runes-append n s chunk ∙ rw (e, append-nil) refl in
      rw (y, q) refl
  | inr m ↦
      let short : count s ≤ n = elim (Bool-cases (leb n (count s))) [
        | inl l ↦ absurd (ground (arith, count-take_runes n s (ground arith)))
        | inr l ↦ ground arith
      ] in
      elim (Bool-cases (str_eq chunk "")) [
        | inl e ↦ rw (m, e, (eq_iff chunk "").0 e, append-nil) refl
        | inr f ↦ rw (m, f, take_runes-append, take_runes-whole n s short, length-append) refl
      ]
]

-- The chunks of a turn, one after the other.
unfoldable pub append_each :
    (String × ℕ → String → String × ℕ) → List String → String × ℕ → String × ℕ
append_each f [] r = r
append_each f (c ∷ cs) r = append_each f cs (f r c)

append_each-kept :
    (n : ℕ) (s : String) (cs : List String)
    → append_each (append_within n) cs (kept n s) ≡ kept n (append s (concat_texts cs))
unfolding append_each
append_each-kept n s [] = ap (kept n) (sym (append-nil s))
append_each-kept n s (c ∷ cs) =
    ap (append_each (append_within n) cs) (append_within-kept n s c)
    ∙ append_each-kept n (append s c) cs
    ∙ ap (kept n) (append_assoc s c (concat_texts cs))

append_each-within :
    (n : ℕ) (cs : List String) → append_each (append_within n) cs ("", 0) ≡ kept n (concat_texts cs)
append_each-within n cs =
    let e : kept n "" ≡ ("", 0) = rw (take_of_nil, length-nil) refl in
    ap (append_each (append_within n) cs) (sym e)
    ∙ append_each-kept n "" cs
    ∙ ap (kept n) (nil-append (concat_texts cs))

-- Whatever the chunks of a turn, the response that is kept is exactly the first 16384 characters of all of
-- them in a row, and the count that is kept is its count.
pub append_each_lem :
    (cs : List String)
    → append_each append_bounded_response cs ("", 0) ≡ (
      take_runes max_observed_agent_response_runes (concat_texts cs),
      count (take_runes max_observed_agent_response_runes (concat_texts cs)),
    )
unfolding append_bounded_response
append_each_lem cs = append_each-within max_observed_agent_response_runes cs

-- An answer that asks for the operator's attention.
abbrev pub asks_attention : Option SemanticReview → Bool
asks_attention none = false
asks_attention (some r) = is_verdict r.verdict attention

admitted_review-attention :
    (d : SemanticReviewerDescriptor) (phase : SemanticReviewPhase)
    (answer : String ⊎ SemanticReview)
    → asks_attention (reviewed (admitted_review d phase answer)) ≡ true
    → (d.allow_attention ≡ true) × (is_final phase ≡ true)
unfolding admitted_review
admitted_review-attention d phase (inl e) h = absurd (ground arith)
admitted_review-attention d phase (inr r) h = ground arith

-- The bus is as it was, or was handed the start and the end of a review of the task, and nothing else.
abbrev pub Told : {J : Type 0} → Env J → String → Bus J → Bus J → Type 0
Told env id b b' =
    (b' ≡ b)
    ⊎ ((started : Event) × (ended : Event) × (started.task_id ≡ id)
        × (started.type ≡ semantic_review_start)
        × (ended.task_id ≡ id)
        × (ended.type ≡ semantic_review_end)
        × (b' ≡ publish env ended (publish env started b)))

-- What a review leaves of a service.
abbrev pub Unmoved : {J S : Type 0} → Env J → String → Service J S → Service J S → Type 0
Unmoved env id s s' =
    (s'.tasks ≡ s.tasks)
    × (s'.runtimes ≡ s.runtimes)
    × (s'.store ≡ s.store)
    × (s'.session_calls ≡ s.session_calls)
    × Told env id s.bus s'.bus

module _ {J S W : Type 0} (env : Env J) (trim : String → String) where
  -- If a review comes back with a request for the operator's attention, then it is a final one, of a reviewer
  -- that may ask for attention.
  pub review_agent_turn-attention :
      (reviewer : Option (Reviewer W)) (q : ReviewSubject) (now : ℕ) (s : Service J S) (w : W)
      → asks_attention (review_agent_turn env trim reviewer q now s w).0 ≡ true
      → (v : Reviewer W) × (reviewer ≡ some v)
        × (v.descriptor.allow_attention ≡ true)
        × (is_final q.phase ≡ true)
  unfolding review_agent_turn review_with
  review_agent_turn-attention none q now s w h = absurd (ground arith)
  review_agent_turn-attention (some v) q now s w h =
      elim (Bool-cases (str_eq (trim q.response) "")) [
        | inl y ↦ absurd (ground arith)
        | inr n ↦
            let (a, b) = admitted_review-attention v.descriptor q.phase _ (rw n at h) in
            (v, refl, a, b)
      ]
