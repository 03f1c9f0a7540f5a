-- ===== src/Verification/Tail.antt =====
-- internal/verification/command.go: `tailBuffer`, which keeps the end of what a process prints. A byte
-- is a natural number.
pub mod Laws
use cyber_foreman.Prelude.{
  ℕ, ◌+◌, ◌-◌, Bool, true, false, List, [], ◌∷◌, ◌++◌, if◌then◌else◌, ltb, leb, length, drop,
}

pub record TailBuffer : Type 0 where
  pub limit : ℕ
  pub kept : List ℕ
  pub truncated : Bool

-- `newTailBuffer`.
unfoldable pub new_tail_buffer : ℕ → TailBuffer
new_tail_buffer limit = record { limit = limit; kept = []; truncated = false }

-- `tailBuffer.Write`, which always takes the whole payload.
unfoldable pub write : List ℕ → TailBuffer → TailBuffer
write payload b =
    if leb b.limit (length payload)
    then record b { kept = drop (length payload - b.limit) payload; truncated = true }
    else if ltb b.limit (length b.kept + length payload)
    then record b {
      kept = drop (length b.kept + length payload - b.limit) b.kept ++ payload;
      truncated = true;
    }
    else record b { kept = b.kept ++ payload }

unfoldable pub write_all : List (List ℕ) → TailBuffer → TailBuffer
write_all [] b = b
write_all (p ∷ ps) b = write_all ps (write p b)
