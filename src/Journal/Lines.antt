-- ===== src/Journal/Lines.antt =====
-- About journal.rs: the lines of a log that grows by whole lines.
use polymarket_watch_rust.Base.Lists.{All, length, take}
use polymarket_watch_rust.Base.Tests.{List, [], ap, arith, refl, ℕ, ⊤, ◌++◌, ◌∷◌, ◌≡◌, ◌≢◌}
use polymarket_watch_rust.Journal.{Bytes}
use polymarket_watch_rust.Journal.Reading.{lines, push_first}

-- A file that is empty, or ends in a line feed.
abbrev pub IsWhole : Bytes → Type 0
IsWhole [] = ⊤
IsWhole (b ∷ []) = b ≡ 10
IsWhole (b ∷ c ∷ bs) = IsWhole (c ∷ bs)

-- Neither line feeds nor carriage returns.
abbrev pub IsOneLine : Bytes → Type 0
IsOneLine line = All (λ b. (b ≢ 10) × (b ≢ 13)) line

push_first-nonempty : (b : ℕ) (ls : List Bytes) → push_first b ls ≢ []
push_first-nonempty b [] h = cc
push_first-nonempty b (l ∷ ls) h = cc

push_first-append :
    (b : ℕ) (ls more : List Bytes) → ls ≢ [] → push_first b (ls ++ more) ≡ push_first b ls ++ more
push_first-append b [] more h = absurd (h refl)
push_first-append b (l ∷ ls) more h = refl

lines-nonempty : (b : ℕ) (bs : Bytes) → IsWhole (b ∷ bs) → lines (b ∷ bs) ≢ []
unfolding lines
lines-nonempty b [] h = grind (arith, h, push_first-nonempty b [])
lines-nonempty b (c ∷ bs) h =
    grind (arith, lines-nonempty c bs h, push_first-nonempty b (lines (c ∷ bs)))

pub lines-append : (log more : Bytes) → IsWhole log → lines (log ++ more) ≡ lines log ++ lines more
unfolding lines
lines-append [] more h = refl
lines-append (b ∷ []) more h = grind (arith, h)
lines-append (b ∷ c ∷ bs) more h = grind (
  arith,
  lines-append (c ∷ bs) more h,
  push_first-append b (lines (c ∷ bs)) (lines more) (lines-nonempty c bs h),
)

pub lines-line : (line : Bytes) → IsOneLine line → lines (line ++ 10 ∷ []) ≡ line ∷ []
unfolding lines
lines-line [] h = refl
lines-line (b ∷ []) h = grind (arith, h.0.0, h.0.1)
lines-line (b ∷ c ∷ bs) h = grind (arith, h.0.0, h.0.1, h.1.0.0, lines-line (c ∷ bs) h.1)

pub IsWhole-append : (log line : Bytes) → IsWhole (log ++ (line ++ 10 ∷ []))
IsWhole-append [] [] = refl
IsWhole-append [] (b ∷ []) = refl
IsWhole-append [] (b ∷ c ∷ bs) = IsWhole-append [] (c ∷ bs)
IsWhole-append (b ∷ []) [] = refl
IsWhole-append (b ∷ []) (c ∷ bs) = IsWhole-append [] (c ∷ bs)
IsWhole-append (b ∷ c ∷ bs) line = IsWhole-append (c ∷ bs) line

pub take-length {ℓ} : {A : Type ℓ} (xs ys : List A) → take (length xs) (xs ++ ys) ≡ xs
take-length [] [] = refl
take-length [] (y ∷ ys) = refl
take-length (x ∷ xs) ys = ap (λ zs. x ∷ zs) (take-length xs ys)
