-- ===== src/Stream/Lines.antt =====
-- The lines of a text of stream.py: splitting, joining, and what both keep.
use gpt_trace_extractor_for.Base.{
  ◌≡◌, ◌≢◌, refl, sym, ◌∙◌, ap, List, [], ◌∷◌, ◌++◌, arith, All, nat_eq, ℕ, ◌==◌, true, inl, inr,
  Bool-cases,
}
use gpt_trace_extractor_for.Stream.{
  Chars, newline, carriage_return, normalized, split_lines, join_lines, add_to_first,
}

-- The text has no line break in it.
abbrev pub IsOneLine : Chars → Type 0
IsOneLine = All (λ c. (c ≢ newline) × (c ≢ carriage_return))

pub normalized_id : (text : Chars) → All (λ c. c ≢ carriage_return) text → normalized text ≡ text
unfolding normalized
normalized_id [] h = refl
normalized_id (c ∷ []) h = ground (arith, h.0)
normalized_id (c ∷ d ∷ rest) h = ground (arith, h.0, normalized_id (d ∷ rest) h.1)

split-line :
    (line rest : Chars)
    → IsOneLine line
    → split_lines (line ++ newline ∷ rest) ≡ line ∷ split_lines rest
unfolding split_lines
split-line [] rest h = refl
split-line (c ∷ line) rest h = ground (arith, h.0, split-line line rest h.1)

split-last : (line : Chars) → IsOneLine line → split_lines line ≡ line ∷ []
unfolding split_lines
split-last [] h = refl
split-last (c ∷ line) h = ground (arith, h.0, split-last line h.1)

split-join :
    (line : Chars) (lines : List Chars)
    → All IsOneLine (line ∷ lines)
    → split_lines (join_lines (line ∷ lines)) ≡ line ∷ lines
unfolding join_lines
split-join line [] h = split-last line h.0
split-join line (next ∷ lines) h =
    split-line line (join_lines (next ∷ lines)) h.0
    ∙ ap (λ ls. line ∷ ls) (split-join next lines h.1)

no_return-append :
    (xs ys : Chars)
    → All (λ c. c ≢ carriage_return) xs
    → All (λ c. c ≢ carriage_return) ys
    → All (λ c. c ≢ carriage_return) (xs ++ ys)
no_return-append [] ys h k = k
no_return-append (x ∷ xs) ys h k = (h.0, no_return-append xs ys h.1 k)

no_return-line : (line : Chars) → IsOneLine line → All (λ c. c ≢ carriage_return) line
no_return-line [] h = tt
no_return-line (c ∷ line) h = (h.0.1, no_return-line line h.1)

pub no_return-join :
    (lines : List Chars) → All IsOneLine lines → All (λ c. c ≢ carriage_return) (join_lines lines)
unfolding join_lines
no_return-join [] h = tt
no_return-join (line ∷ []) h = no_return-line line h.0
no_return-join (line ∷ next ∷ lines) h =
    no_return-append line (newline ∷ join_lines (next ∷ lines)) (no_return-line line h.0)
      (omega arith, no_return-join (next ∷ lines) h.1)

pub All-append {ℓ κ} :
    {A : Type ℓ} (P : A → Type κ) (xs ys : List A) → All P xs → All P ys → All P (xs ++ ys)
All-append P [] ys h k = k
All-append P (x ∷ xs) ys h k = (h.0, All-append P xs ys h.1 k)

pub split-frames :
    (lines : List Chars) → lines ≢ [] → All IsOneLine lines → split_lines (join_lines lines) ≡ lines
split-frames [] n h = absurd (n refl)
split-frames (line ∷ lines) n h = split-join line lines h

add_to_first-IsOneLine :
    (c : ℕ) (lines : List Chars)
    → (c ≢ newline) × (c ≢ carriage_return)
    → All IsOneLine lines
    → All IsOneLine (add_to_first c lines)
add_to_first-IsOneLine c [] h k = ((h, tt), tt)
add_to_first-IsOneLine c (line ∷ lines) h k = ((h, k.0), k.1)

pub split_lines-IsOneLine :
    (text : Chars) → All (λ c. c ≢ carriage_return) text → All IsOneLine (split_lines text)
unfolding split_lines
split_lines-IsOneLine [] h = (tt, tt)
split_lines-IsOneLine (c ∷ rest) h = elim (Bool-cases (c == newline)) [
  | inl e ↦ rw e (tt, split_lines-IsOneLine rest h.1)
  | inr d ↦ rw d (
      add_to_first-IsOneLine c (split_lines rest) (ground (arith, d), h.0)
        (split_lines-IsOneLine rest h.1))
]

pub split_lines-ne-nil : (text : Chars) → split_lines text ≢ []
unfolding split_lines
split_lines-ne-nil [] e = cc
split_lines-ne-nil (c ∷ rest) e = ground arith

join-first :
    (lines : List Chars) → lines ≢ [] → join_lines ([] ∷ lines) ≡ newline ∷ join_lines lines
unfolding join_lines
join-first [] n = absurd (n refl)
join-first (line ∷ lines) n = refl

join-add_to_first :
    (c : ℕ) (lines : List Chars) → join_lines (add_to_first c lines) ≡ c ∷ join_lines lines
unfolding join_lines
join-add_to_first c [] = refl
join-add_to_first c (line ∷ []) = refl
join-add_to_first c (line ∷ next ∷ lines) = refl

pub join-split : (text : Chars) → join_lines (split_lines text) ≡ text
unfolding split_lines
join-split [] = unfold join_lines in refl
join-split (c ∷ rest) = elim (Bool-cases (c == newline)) [
  | inl e ↦ rw e (
      join-first (split_lines rest) (split_lines-ne-nil rest)
      ∙ ap (λ l. newline ∷ l) (join-split rest)
      ∙ ap (λ d. d ∷ rest) (sym (line_end e)))
  | inr d ↦ rw d (join-add_to_first c (split_lines rest) ∙ ap (λ l. c ∷ l) (join-split rest))
]
  where
    line_end : {c : ℕ} → (c == newline) ≡ true → c ≡ newline
    line_end e = ground (arith, e)
