-- ===== src/Sse/RoundTrip.antt =====
-- sse.go, `sseWriter.WriteEvent`, against internal/sse/sse.go, `splitFrames` and `parseFrame`.
use openresponses.Prelude.{
  ℕ, suc, ◌+◌, ltb, ◌≡◌, refl, sym, ap, subst, ◌∙◌, Bool, true, Option, none, some, [], ◌∷◌, ◌++◌,
  length, length-append, append_assoc, arith, ◌⊎◌, inl, inr,
}
use openresponses.Sse.Frame.{
  Bytes, index, take, two_lf, two_crlf, after_first, choose_split, split_frames, trim_last, trim_cr,
  parse_line, parse_lines, frame_of, parse_frame, event_prefix, data_prefix, frame_body,
  write_event,
}
use openresponses.Sse.Search.{
  OneLine, OneLine-append, OneLine-NoReturn, NoReturn, NoReturn-append, plus, plus-some, plus-late,
  index-line, index-break, index-return, take-append, lines-break, lines-last,
}

trim_last-line : (b : ℕ) (bs : Bytes) → OneLine (b ∷ bs) → trim_last b bs ≡ b ∷ bs
trim_last-line b [] (p, q, h) = rw q refl
trim_last-line b (c ∷ bs) (p, q, h) = ap (λ x. b ∷ x) (trim_last-line c bs h)

trim_cr-line : (bs : Bytes) → OneLine bs → trim_cr bs ≡ bs
trim_cr-line [] h = refl
trim_cr-line (b ∷ bs) h = trim_last-line b bs h

less_later : (a j : ℕ) → ltb a ((a + 2) + j) ≡ true
less_later a j = ground arith

-- The blank line at `lf` comes first.
split_at :
    (lf : ℕ) (o : Option ℕ) (eof : Bool) (bytes : Bytes)
    → (o ≡ none) ⊎ ((j : ℕ) × (o ≡ some ((lf + 2) + j)))
    → choose_split (some lf) o eof bytes ≡ some (lf + 2, take lf bytes)
split_at lf o eof bytes (inl h) = rw h refl
split_at lf o eof bytes (inr (j, h)) = rw (h, less_later lf j) refl

module _ (event payload : Bytes) (one : OneLine event) (two : OneLine payload) where
  first_line : OneLine (event_prefix ++ event)
  first_line =
      OneLine-append event_prefix event
        (
          refl,
          refl,
          (refl, refl, (refl, refl, (refl, refl, (refl, refl, (refl, refl, (refl, refl, tt)))))),
        )
        one

  second_line : OneLine (data_prefix ++ payload)
  second_line =
      OneLine-append data_prefix payload
        (refl, refl, (refl, refl, (refl, refl, (refl, refl, (refl, refl, (refl, refl, tt)))))) two

  index-frame :
      (rest : Bytes)
      → index two_lf (frame_body event payload ++ 10 ∷ 10 ∷ rest)
        ≡ some (length (frame_body event payload))
  unfolding plus
  index-frame rest =
      let l1 = event_prefix ++ event in
      let l2 = data_prefix ++ payload in
      ap (index two_lf) (append_assoc l1 (10 ∷ l2) (10 ∷ 10 ∷ rest))
      ∙ index-line l1 (10 ∷ (l2 ++ 10 ∷ 10 ∷ rest)) first_line
      ∙ ap (plus (length l1)) (
          index-break 100 (97 ∷ 116 ∷ 97 ∷ 58 ∷ 32 ∷ (payload ++ 10 ∷ 10 ∷ rest)) refl
          ∙ ap after_first (index-line l2 (10 ∷ 10 ∷ rest) second_line ∙ plus-some (length l2) 0))
      ∙ plus-some (length l1) (suc (length l2 + 0))
      ∙ ap some (omega (arith, length-append l1 (10 ∷ l2)))

  whole_frame : NoReturn (frame_body event payload ++ 10 ∷ 10 ∷ [])
  whole_frame =
      NoReturn-append (frame_body event payload) (10 ∷ 10 ∷ [])
        (NoReturn-append (event_prefix ++ event) (10 ∷ (data_prefix ++ payload))
          (OneLine-NoReturn (event_prefix ++ event) first_line)
          (refl, OneLine-NoReturn (data_prefix ++ payload) second_line))
        (refl, (refl, tt))

  late_return :
      (rest : Bytes)
      → (index two_crlf (write_event event payload ++ rest) ≡ none)
        ⊎ ((j : ℕ) × (index two_crlf (write_event event payload ++ rest)
              ≡ some ((length (frame_body event payload) + 2) + j)))
  unfolding write_event
  late_return rest =
      let w = frame_body event payload ++ 10 ∷ 10 ∷ [] in
      let size : length w ≡ length (frame_body event payload) + 2 =
        length-append (frame_body event payload) (10 ∷ 10 ∷ []) in
      subst (λ o. (o ≡ none) ⊎ ((j : ℕ) × (o ≡ some ((length (frame_body event payload) + 2) + j))))
        (sym (index-return w rest whole_frame))
        (subst
          (λ n.
            (plus (length w) (index two_crlf rest) ≡ none)
            ⊎ ((j : ℕ) × (plus (length w) (index two_crlf rest) ≡ some (n + j))))
          size (plus-late (length w) (index two_crlf rest)))

  split-write_event :
      (rest : Bytes) (at_eof : Bool)
      → split_frames (write_event event payload ++ rest) at_eof
        ≡ some (length (write_event event payload), frame_body event payload)
  unfolding split_frames write_event
  split-write_event rest at_eof =
      let body = frame_body event payload in
      let w = body ++ 10 ∷ 10 ∷ [] in
      let apart : w ++ rest ≡ body ++ 10 ∷ 10 ∷ rest = append_assoc body (10 ∷ 10 ∷ []) rest in
      ap (λ o. choose_split o (index two_crlf (w ++ rest)) at_eof (w ++ rest))
        (ap (index two_lf) apart ∙ index-frame rest)
      ∙ split_at (length body) (index two_crlf (w ++ rest)) at_eof (w ++ rest) (late_return rest)
      ∙ ap (λ n. some (n, take (length body) (w ++ rest))) (sym (length-append body (10 ∷ 10 ∷ [])))
      ∙ ap (λ t. some (length w, t))
          (ap (take (length body)) apart ∙ take-append body (10 ∷ 10 ∷ rest))

  parse-frame_body :
      parse_frame (frame_body event payload) ≡ some (record { event = event; payload = payload })
  unfolding parse_frame
  parse-frame_body =
      let l1 = event_prefix ++ event in
      let l2 = data_prefix ++ payload in
      ap (λ ls. frame_of (parse_lines ls ([], [])))
        (lines-break l1 l2 first_line ∙ ap (λ ls. l1 ∷ ls) (lines-last l2 second_line))
      ∙ ap (λ x. frame_of (parse_line (trim_cr l2) (parse_line x ([], []))))
          (trim_cr-line l1 first_line)
      ∙ ap (λ x. frame_of (parse_line x (parse_line l1 ([], [])))) (trim_cr-line l2 second_line)

-- The frame that `WriteEvent` writes for an event name and a payload without line ends is the first
-- one that the scanner splits off, whatever follows it, and it is read back as it was.
pub read-write_event :
    (event payload rest : Bytes) (at_eof : Bool)
    → OneLine event
    → OneLine payload
    → (split_frames (write_event event payload ++ rest) at_eof
        ≡ some (length (write_event event payload), frame_body event payload))
      × (parse_frame (frame_body event payload)
          ≡ some (record { event = event; payload = payload }))
read-write_event event payload rest at_eof one two =
    (split-write_event event payload one two rest at_eof, parse-frame_body event payload one two)
