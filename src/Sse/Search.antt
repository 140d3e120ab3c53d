-- ===== src/Sse/Search.antt =====
-- internal/sse/sse.go, `splitFrames`: where the first blank line of some bytes is.
use openresponses.Prelude.{
  ℕ, zero, suc, ◌+◌, ◌==◌, ◌≡◌, refl, ap, ◌∙◌, false, Option, none, some, [], ◌∷◌, ◌++◌, length,
  arith, ◌⊎◌, inl, inr,
}
use openresponses.Sse.Frame.{Bytes, after_first, index, take, two_lf, two_crlf, lines, first_with}

-- A text of one line: no line feed and no carriage return.
abbrev pub OneLine : Bytes → Type 0
OneLine [] = Unit
OneLine (b ∷ bs) = ((b == 10) ≡ false) × ((b == 13) ≡ false) × OneLine bs

pub OneLine-append : (xs bs : Bytes) → OneLine xs → OneLine bs → OneLine (xs ++ bs)
OneLine-append [] bs h g = g
OneLine-append (a ∷ xs) bs (p, q, h) g = (p, q, OneLine-append xs bs h g)

flip : (a b : ℕ) → (b == a) ≡ false → (a == b) ≡ false
flip a b h = ground arith

-- `n` more.
unfoldable pub plus : ℕ → Option ℕ → Option ℕ
plus zero o = o
plus (suc n) o = after_first (plus n o)

-- No blank line begins inside a line.
pub index-line :
    (xs bs : Bytes) → OneLine xs → index two_lf (xs ++ bs) ≡ plus (length xs) (index two_lf bs)
unfolding plus
index-line [] bs h = refl
index-line (a ∷ xs) bs (p, q, h) =
    let n : (10 == a) ≡ false = flip 10 a p in rw n (ap after_first (index-line xs bs h))

-- A line feed in front of another byte is no blank line.
pub index-break :
    (b : ℕ) (bs : Bytes)
    → (b == 10) ≡ false
    → index two_lf (10 ∷ b ∷ bs) ≡ after_first (index two_lf (b ∷ bs))
index-break b bs h = let n : (10 == b) ≡ false = flip 10 b h in rw n refl

-- No carriage return.
abbrev pub NoReturn : Bytes → Type 0
NoReturn [] = Unit
NoReturn (b ∷ bs) = ((b == 13) ≡ false) × NoReturn bs

pub OneLine-NoReturn : (bs : Bytes) → OneLine bs → NoReturn bs
OneLine-NoReturn [] h = tt
OneLine-NoReturn (b ∷ bs) (p, q, h) = (q, OneLine-NoReturn bs h)

pub NoReturn-append : (xs bs : Bytes) → NoReturn xs → NoReturn bs → NoReturn (xs ++ bs)
NoReturn-append [] bs h g = g
NoReturn-append (a ∷ xs) bs (q, h) g = (q, NoReturn-append xs bs h g)

pub index-return :
    (xs bs : Bytes) → NoReturn xs → index two_crlf (xs ++ bs) ≡ plus (length xs) (index two_crlf bs)
unfolding plus
index-return [] bs h = refl
index-return (a ∷ xs) bs (q, h) =
    let n : (13 == a) ≡ false = flip 13 a q in rw n (ap after_first (index-return xs bs h))

pub plus-some : (n i : ℕ) → plus n (some i) ≡ some (n + i)
unfolding plus
plus-some zero i = ap some (omega arith)
plus-some (suc n) i = ap after_first (plus-some n i) ∙ ap some (omega arith)

plus-none : (n : ℕ) → plus n none ≡ none
unfolding plus
plus-none zero = refl
plus-none (suc n) = ap after_first (plus-none n)

pub plus-late : (n : ℕ) (o : Option ℕ) → (plus n o ≡ none) ⊎ ((j : ℕ) × (plus n o ≡ some (n + j)))
plus-late n none = inl (plus-none n)
plus-late n (some j) = inr (j, plus-some n j)

pub take-append : (xs bs : Bytes) → take (length xs) (xs ++ bs) ≡ xs
take-append [] bs = refl
take-append (a ∷ xs) bs = ap (λ x. a ∷ x) (take-append xs bs)

-- The lines of a line and what follows a line feed.
pub lines-break : (xs bs : Bytes) → OneLine xs → lines (xs ++ 10 ∷ bs) ≡ xs ∷ lines bs
lines-break [] bs h = refl
lines-break (a ∷ xs) bs (p, q, h) = rw p (ap (first_with a) (lines-break xs bs h))

pub lines-last : (xs : Bytes) → OneLine xs → lines xs ≡ xs ∷ []
lines-last [] h = refl
lines-last (a ∷ xs) (p, q, h) = rw p (ap (first_with a) (lines-last xs h))
