-- ===== src/Verification/Tail/Laws.antt =====
-- What the tail buffer of internal/verification/command.go holds after a row of writes.
use cyber_foreman.Prelude.{
  ℕ, ◌+◌, ◌-◌, ◌≤◌, ◌≡◌, refl, sym, ap, subst, ◌∙◌, false, List, [], ◌∷◌, ◌++◌, ltb, leb, length,
  drop, length-append, length-drop, drop-append, drop_past, drop-drop, drop-nil, leb→le, false≢true,
  append_assoc, append-nil, inl, inr, arith, Bool-cases,
}
use cyber_foreman.Verification.Tail.{TailBuffer, new_tail_buffer, write, write_all}

-- The last `n` elements of a list, or all of them.
abbrev pub last_of : ℕ → List ℕ → List ℕ
last_of n xs = drop (length xs - n) xs

abbrev pub concat : List (List ℕ) → List ℕ
concat [] = []
concat (p ∷ ps) = p ++ concat ps

-- The buffer holds the end of what was printed, and all of it if it says so.
abbrev IsTail : TailBuffer → List ℕ → Type 0
IsTail b printed = (b.kept ≡ last_of b.limit printed) × (b.truncated ≡ false → b.kept ≡ printed)

last_of-long : (n : ℕ) (xs p : List ℕ) → n ≤ length p → drop (length p - n) p ≡ last_of n (xs ++ p)
last_of-long n xs p h =
    let e : length xs + (length p - n) ≡ length (xs ++ p) - n = omega (arith, length-append xs p) in
    sym (drop_past (length p - n) xs p) ∙ ap (λ k. drop k (xs ++ p)) e

last_of-over :
    (n : ℕ) (xs p : List ℕ)
    → length p ≤ n
    → drop (length (last_of n xs) + length p - n) (last_of n xs) ++ p ≡ last_of n (xs ++ p)
last_of-over n xs p h =
    let e : length xs - n + (length (last_of n xs) + length p - n) ≡ length (xs ++ p) - n =
      omega (arith, length-append xs p, length-drop (length xs - n) xs) in
    ap (λ l. l ++ p) (drop-drop (length xs - n) (length (last_of n xs) + length p - n) xs)
    ∙ sym (
        drop-append (length xs - n + (length (last_of n xs) + length p - n)) xs p
          (omega (arith, length-drop (length xs - n) xs)))
    ∙ ap (λ k. drop k (xs ++ p)) e

last_of-under :
    (n : ℕ) (xs p : List ℕ)
    → length (last_of n xs) + length p ≤ n
    → last_of n xs ++ p ≡ last_of n (xs ++ p)
last_of-under n xs p h =
    let e : length xs - n ≡ length (xs ++ p) - n =
      omega (arith, length-append xs p, length-drop (length xs - n) xs) in
    sym (drop-append (length xs - n) xs p (omega arith)) ∙ ap (λ k. drop k (xs ++ p)) e

write-IsTail : (b : TailBuffer) (xs p : List ℕ) → IsTail b xs → IsTail (write p b) (xs ++ p)
unfolding write
write-IsTail b xs p (d, w) = elim (Bool-cases (leb b.limit (length p))) [
  | inl y ↦
      rw y
        (last_of-long b.limit xs p (leb→le b.limit (length p) y), λ e. absurd (false≢true (sym e)))
  | inr n ↦
      let short : length p ≤ b.limit = ground arith in
      elim (Bool-cases (ltb b.limit (length b.kept + length p))) [
        | inl o ↦
            rw (n, o) (rw d (last_of-over b.limit xs p short), λ e. absurd (false≢true (sym e)))
        | inr f ↦
            rw (n, f)
              (
                ap (λ l. l ++ p) d ∙ last_of-under b.limit xs p (fits d (ground arith)),
                λ e. ap (λ l. l ++ p) (w e),
              )
      ]
]
  where
    fits :
        b.kept ≡ last_of b.limit xs
        → length b.kept + length p ≤ b.limit
        → length (last_of b.limit xs) + length p ≤ b.limit
    fits e h = subst (λ l. length l + length p ≤ b.limit) e h

write-limit : (p : List ℕ) (b : TailBuffer) → (write p b).limit ≡ b.limit
unfolding write
write-limit p b = elim (Bool-cases (leb b.limit (length p))) [
  | inl y ↦ rw y refl
  | inr n ↦ elim (Bool-cases (ltb b.limit (length b.kept + length p))) [
    | inl o ↦ rw (n, o) refl
    | inr f ↦ rw (n, f) refl
  ]
]

write_all-limit : (ps : List (List ℕ)) (b : TailBuffer) → (write_all ps b).limit ≡ b.limit
unfolding write_all
write_all-limit [] b = refl
write_all-limit (p ∷ ps) b = write_all-limit ps (write p b) ∙ write-limit p b

write_all-IsTail :
    (ps : List (List ℕ)) (b : TailBuffer) (xs : List ℕ)
    → IsTail b xs
    → IsTail (write_all ps b) (xs ++ concat ps)
unfolding write_all
write_all-IsTail [] b xs h = subst (IsTail b) (sym (append-nil xs)) h
write_all-IsTail (p ∷ ps) b xs h =
    subst (IsTail (write_all ps (write p b))) (append_assoc xs p (concat ps))
      (write_all-IsTail ps (write p b) (xs ++ p) (write-IsTail b xs p h))

new_tail_buffer-IsTail : (limit : ℕ) → IsTail (new_tail_buffer limit) []
unfolding new_tail_buffer
new_tail_buffer-IsTail limit = (sym (drop-nil (0 - limit)), λ e. refl)

-- However the output of a process is cut into writes, the buffer holds its last bytes, as many as the limit
-- allows.
pub write_all-last :
    (limit : ℕ) (ps : List (List ℕ))
    → (write_all ps (new_tail_buffer limit)).kept ≡ last_of limit (concat ps)
unfolding new_tail_buffer
write_all-last limit ps =
    (write_all-IsTail ps (new_tail_buffer limit) [] (new_tail_buffer-IsTail limit)).0
    ∙ ap (λ n. last_of n (concat ps)) (write_all-limit ps (new_tail_buffer limit))

-- A buffer that does not say that it is truncated holds the whole output.
pub write_all_whole :
    (limit : ℕ) (ps : List (List ℕ))
    → (write_all ps (new_tail_buffer limit)).truncated ≡ false
    → (write_all ps (new_tail_buffer limit)).kept ≡ concat ps
write_all_whole limit ps h =
    (write_all-IsTail ps (new_tail_buffer limit) [] (new_tail_buffer-IsTail limit)).1 h
