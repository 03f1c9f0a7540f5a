-- ===== src/App/Prompt/Texts/Laws.antt =====
-- What the texts for agents of internal/app/prompt.go keep of what operators and verifiers have written.
use Prim.Native.Char.{Char, code}
use text.Mathlib.TextEquality.{Char-path}
use text.Mathlib.TextLemmas.{cons-append, nil-append}
use cyber_foreman.Prelude.{
  ℕ, zero, suc, String, append, Bool, true, not, ◌&&◌, ◌||◌, ◌≡◌, refl, ap, ◌∙◌, if◌then◌else◌,
  ◌==◌, inl, inr, arith, Bool-cases,
}
use cyber_foreman.App.Prompt.Texts.{escape_rune, escape_recovery_text}

-- The first character's code, or 0.
abbrev head_code : String → ℕ
head_code String.[] = 0
head_code (String.◌∷◌ c s) = code c

-- A reader of the four entities, which skips the first `n` characters: the entity that begins with `&` is told
-- by its next character.
unfoldable pub unescape_from : ℕ → String → String
unescape_from n String.[] = ""
unescape_from (suc n) (String.◌∷◌ c s) = unescape_from n s
unescape_from zero (String.◌∷◌ c s) =
    let plain = unescape_from 0 s in
    let after_3 = unescape_from 3 s in
    let after_4 = unescape_from 4 s in
    let after_5 = unescape_from 5 s in
    if not (code c == 38)
    then String.◌∷◌ c plain
    else if head_code s == 97
    then String.◌∷◌ "&" after_4
    else if head_code s == 108
    then String.◌∷◌ "<" after_3
    else if head_code s == 103
    then String.◌∷◌ ">" after_3
    else String.◌∷◌ "\"" after_5

-- Whether no character of a text could begin or end a tag or a quoted attribute.
unfoldable pub no_markup : String → Bool
no_markup String.[] = true
no_markup (String.◌∷◌ c s) = not (code c == 60 || (code c == 62 || code c == 34)) && no_markup s

append_4 :
    (a b c d : Char) (s : String)
    → append (String.◌∷◌ a (String.◌∷◌ b (String.◌∷◌ c (String.◌∷◌ d "")))) s
      ≡ String.◌∷◌ a (String.◌∷◌ b (String.◌∷◌ c (String.◌∷◌ d s)))
append_4 a b c d s = simp (cons-append, nil-append)

append_5 :
    (a b c d e : Char) (s : String)
    → append (String.◌∷◌ a (String.◌∷◌ b (String.◌∷◌ c (String.◌∷◌ d (String.◌∷◌ e ""))))) s
      ≡ String.◌∷◌ a (String.◌∷◌ b (String.◌∷◌ c (String.◌∷◌ d (String.◌∷◌ e s))))
append_5 a b c d e s = cons-append a _ s ∙ ap (String.◌∷◌ a) (append_4 b c d e s)

append_6 :
    (a b c d e f : Char) (s : String)
    → append
        (String.◌∷◌ a (String.◌∷◌ b (String.◌∷◌ c (String.◌∷◌ d (String.◌∷◌ e (String.◌∷◌ f ""))))))
        s
      ≡ String.◌∷◌ a (String.◌∷◌ b (String.◌∷◌ c (String.◌∷◌ d (String.◌∷◌ e (String.◌∷◌ f s)))))
append_6 a b c d e f s = cons-append a _ s ∙ ap (String.◌∷◌ a) (append_5 b c d e f s)

-- The entities, written out before what follows them.
entity_amp :
    (s : String)
    → append "&amp;" s
      ≡ String.◌∷◌ "&" (String.◌∷◌ "a" (String.◌∷◌ "m" (String.◌∷◌ "p" (String.◌∷◌ ";" s))))
entity_amp s = append_5 "&" "a" "m" "p" ";" s

entity_lt :
    (s : String)
    → append "&lt;" s ≡ String.◌∷◌ "&" (String.◌∷◌ "l" (String.◌∷◌ "t" (String.◌∷◌ ";" s)))
entity_lt s = append_4 "&" "l" "t" ";" s

entity_gt :
    (s : String)
    → append "&gt;" s ≡ String.◌∷◌ "&" (String.◌∷◌ "g" (String.◌∷◌ "t" (String.◌∷◌ ";" s)))
entity_gt s = append_4 "&" "g" "t" ";" s

entity_quot :
    (s : String)
    → append "&quot;" s
      ≡ String.◌∷◌ "&"
          (String.◌∷◌ "q" (String.◌∷◌ "u" (String.◌∷◌ "o" (String.◌∷◌ "t" (String.◌∷◌ ";" s)))))
entity_quot s = append_6 "&" "q" "u" "o" "t" ";" s

code_of : (c : Char) (n : ℕ) → (code c == n) ≡ true → code c ≡ n
code_of c n h = ground arith

-- What an escaped character is read as.
escape_rune-cases :
    (c : Char) (s : String)
    → (unescape_from 0 (append (escape_rune c) s) ≡ String.◌∷◌ c (unescape_from 0 s))
      × (no_markup (append (escape_rune c) s) ≡ no_markup s)
unfolding escape_rune unescape_from no_markup
escape_rune-cases c s = elim (Bool-cases (code c == 38)) [
  | inl y ↦ rw (Char-path c "&" (code_of c 38 y), entity_amp) (refl, refl)
  | inr a ↦ elim (Bool-cases (code c == 60)) [
    | inl y ↦ rw (Char-path c "<" (code_of c 60 y), entity_lt) (refl, refl)
    | inr b ↦ elim (Bool-cases (code c == 62)) [
      | inl y ↦ rw (Char-path c ">" (code_of c 62 y), entity_gt) (refl, refl)
      | inr d ↦ elim (Bool-cases (code c == 34)) [
        | inl y ↦ rw (Char-path c "\"" (code_of c 34 y), entity_quot) (refl, refl)
        | inr e ↦ rw (a, b, d, e, cons-append, nil-append, a, b, d, e) (refl, refl)
      ]
    ]
  ]
]

-- An escaped text holds no character that opens or closes a tag or a quoted attribute, and reading its entities
-- gives the text back.
pub unescape_from-escape_recovery_text :
    (s : String)
    → (unescape_from 0 (escape_recovery_text s) ≡ s) × (no_markup (escape_recovery_text s) ≡ true)
unfolding escape_recovery_text unescape_from no_markup
unescape_from-escape_recovery_text String.[] = (refl, refl)
unescape_from-escape_recovery_text (String.◌∷◌ c s) =
    let (e, f) = unescape_from-escape_recovery_text s in
    let (g, h) = escape_rune-cases c (escape_recovery_text s) in (g ∙ ap (String.◌∷◌ c) e, h ∙ f)
