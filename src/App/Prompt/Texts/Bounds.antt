-- ===== src/App/Prompt/Texts/Bounds.antt =====
-- How the texts for agents of internal/app/prompt.go are cut.

use Prim.Native.String.{count}
use text.Mathlib.TextLemmas.{cons-append, nil-append, length-nil, length-cons}
use cyber_foreman.Prelude.{
  ℕ, zero, suc, ◌-◌, ◌≤◌, ◌<◌, String, append, ◌≡◌, refl, sym, ap, ◌∙◌, List, [], ◌∷◌, ◌++◌, leb,
  ltb, length, take, drop, take-drop, length-drop, ◌⊎◌, inl, inr, arith, Bool-cases,
}
use cyber_foreman.Domain.{ConversationMessageData}
use cyber_foreman.App.Prompt.Texts.{
  take_runes, drop_runes, max_recovery_runes, bound_recovery_text, replayed, max_feedback_runes,
  limit_verification_feedback,
}

-- A text is what is taken of it and what is dropped.
pub take_runes-drop_runes : (n : ℕ) (s : String) → append (take_runes n s) (drop_runes n s) ≡ s
take_runes-drop_runes zero s = nil-append s
take_runes-drop_runes (suc n) String.[] = nil-append ""
take_runes-drop_runes (suc n) (String.◌∷◌ c s) = rw (cons-append, take_runes-drop_runes n s) refl

pub count-take_runes : (n : ℕ) (s : String) → n ≤ count s → count (take_runes n s) ≡ n
count-take_runes zero s h = length-nil
count-take_runes (suc n) String.[] h = omega (arith, length-nil)
count-take_runes (suc n) (String.◌∷◌ c s) h = omega (
  arith,
  length-cons c s,
  length-cons c (take_runes n s),
  count-take_runes n s (omega (arith, length-cons c s)),
)

pub count-take_runes-least : (n : ℕ) (s : String) → count (take_runes n s) ≤ n
count-take_runes-least zero s = omega (arith, length-nil)
count-take_runes-least (suc n) String.[] = omega (arith, length-nil)
count-take_runes-least (suc n) (String.◌∷◌ c s) =
    omega (arith, length-cons c (take_runes n s), count-take_runes-least n s)

pub take_runes-whole : (n : ℕ) (s : String) → count s ≤ n → take_runes n s ≡ s
take_runes-whole zero String.[] h = refl
take_runes-whole zero (String.◌∷◌ c s) h = absurd (omega (arith, length-cons c s))
take_runes-whole (suc n) String.[] h = refl
take_runes-whole (suc n) (String.◌∷◌ c s) h =
    ap (String.◌∷◌ c) (take_runes-whole n s (omega (arith, length-cons c s)))

pub count-drop_runes : (n : ℕ) (s : String) → count (drop_runes n s) ≡ count s - n
count-drop_runes zero s = omega arith
count-drop_runes (suc n) String.[] = omega (arith, length-nil)
count-drop_runes (suc n) (String.◌∷◌ c s) = omega (arith, length-cons c s, count-drop_runes n s)

-- An instruction of at most 2048 characters is replayed as it is, and of a longer one exactly the first 2048
-- are, with a note.
pub bound_recovery_text_cases :
    (v : String)
    → ((count v ≤ max_recovery_runes) × (bound_recovery_text v ≡ v))
      ⊎ ((head : String) × (rest : String) × (v ≡ append head rest)
          × (count head ≡ max_recovery_runes)
          × (max_recovery_runes < count v)
          × (bound_recovery_text v ≡ append head "\n（该指令已截断）"))
unfolding bound_recovery_text
bound_recovery_text_cases v = elim (Bool-cases (leb (count v) max_recovery_runes)) [
  | inl y ↦ inl (ground arith, rw y refl)
  | inr n ↦
      let h : max_recovery_runes < count v = ground arith in
      inr (
        take_runes max_recovery_runes v,
        drop_runes max_recovery_runes v,
        sym (take_runes-drop_runes max_recovery_runes v),
        count-take_runes max_recovery_runes v (omega arith),
        h,
        rw n refl,
      )
]

-- Of the trimmed output of a verification, at most the last 8192 characters are fed back: all of it, or exactly
-- these, with a note.
pub limit_verification_feedback_cases :
    (trim : String → String) (v : String)
    → ((count (trim v) ≤ max_feedback_runes) × (limit_verification_feedback trim v ≡ trim v))
      ⊎ ((front : String) × (tail : String) × (trim v ≡ append front tail)
          × (count tail ≡ max_feedback_runes)
          × (max_feedback_runes < count (trim v))
          × (limit_verification_feedback trim v ≡ append tail "\n（仅保留末尾验证输出）"))
unfolding limit_verification_feedback
limit_verification_feedback_cases trim v =
    elim (Bool-cases (leb (count (trim v)) max_feedback_runes)) [
      | inl y ↦ inl (ground arith, rw y refl)
      | inr n ↦
          let h : max_feedback_runes < count (trim v) = ground arith in
          let k = count (trim v) - max_feedback_runes in
          inr (
            take_runes k (trim v),
            drop_runes k (trim v),
            sym (take_runes-drop_runes k (trim v)),
            count-drop_runes k (trim v) ∙ omega arith,
            h,
            rw n refl,
          )
    ]

-- Of at most eight trusted messages all are replayed, and of more exactly the first one and the last seven.
pub replayed_cases :
    (ms : List ConversationMessageData)
    → ((length ms ≤ 8) × (replayed ms ≡ ms))
      ⊎ ((m : ConversationMessageData) × (middle : List ConversationMessageData) × (end : List
            ConversationMessageData)
          × (ms ≡ m ∷ middle ++ end)
          × (length end ≡ 7)
          × (8 < length ms)
          × (replayed ms ≡ m ∷ end))
unfolding replayed
replayed_cases [] = inl (omega arith, refl)
replayed_cases (m ∷ ms) = elim (Bool-cases (ltb 8 (length (m ∷ ms)))) [
  | inr n ↦ inl (ground arith, rw n refl)
  | inl y ↦
      let n = length ms - 7 in
      let h : 8 < length (m ∷ ms) = ground arith in
      let e : length (m ∷ ms) - 7 ≡ suc n = omega arith in
      inr (
        m,
        take n ms,
        drop n ms,
        ap (λ xs. m ∷ xs) (sym (take-drop n ms)),
        length-drop n ms ∙ omega arith,
        h,
        rw (y, e) refl,
      )
]
