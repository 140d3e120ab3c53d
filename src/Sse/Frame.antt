-- ===== src/Sse/Frame.antt =====
-- sse.go, `sseWriter.WriteEvent`; internal/sse/sse.go, `splitFrames` and `parseFrame`. A byte is a
-- natural number, and a Go string or byte slice the list of its bytes.
use openresponses.Prelude.{
  ℕ, zero, suc, ◌+◌, ◌==◌, ltb, if◌then◌else◌, Bool, true, false, ◌&&◌, Option, none, some, List,
  [], ◌∷◌, ◌++◌, length,
}

abbrev pub Bytes : Type 0
Bytes = List ℕ

abbrev pub same_bytes : Bytes → Bytes → Bool
same_bytes [] [] = true
same_bytes (a ∷ xs) (b ∷ bs) = (a == b) && same_bytes xs bs
same_bytes _ _ = false

abbrev pub has_prefix : Bytes → Bytes → Bool
has_prefix [] bs = true
has_prefix (a ∷ xs) [] = false
has_prefix (a ∷ xs) (b ∷ bs) = (a == b) && has_prefix xs bs

abbrev pub after_first : Option ℕ → Option ℕ
after_first none = none
after_first (some i) = some (suc i)

abbrev pub found_here : Bool → Option ℕ → Option ℕ
found_here true later = some 0
found_here false later = after_first later

-- `bytes.Index`, for a pattern that is not empty.
abbrev pub index : Bytes → Bytes → Option ℕ
index pat [] = none
index pat (b ∷ bs) = found_here (has_prefix pat (b ∷ bs)) (index pat bs)

abbrev pub take : ℕ → Bytes → Bytes
take zero bs = []
take (suc n) [] = []
take (suc n) (b ∷ bs) = b ∷ take n bs

-- "\n\n" and "\r\n\r\n".
abbrev pub two_lf : Bytes
two_lf = 10 ∷ 10 ∷ []

abbrev pub two_crlf : Bytes
two_crlf = 13 ∷ 10 ∷ 13 ∷ 10 ∷ []

-- What a split function returns: the bytes to go on by, and the token. `none` asks for more data.
abbrev pub Split : Type 0
Split = Option (ℕ × Bytes)

abbrev pub at_end : Bool → Bytes → Split
at_end true [] = none
at_end true (b ∷ bs) = some (length (b ∷ bs), b ∷ bs)
at_end false payload = none

abbrev pub earlier : Bool → ℕ → ℕ → Bytes → Split
earlier true lf crlf payload = some (lf + 2, take lf payload)
earlier false lf crlf payload = some (crlf + 4, take crlf payload)

abbrev pub choose_split : Option ℕ → Option ℕ → Bool → Bytes → Split
choose_split (some lf) none at_eof payload = some (lf + 2, take lf payload)
choose_split (some lf) (some crlf) at_eof payload = earlier (ltb lf crlf) lf crlf payload
choose_split none (some crlf) at_eof payload = some (crlf + 4, take crlf payload)
choose_split none none at_eof payload = at_end at_eof payload

-- `splitFrames`.
unfoldable pub split_frames : Bytes → Bool → Split
split_frames payload at_eof =
    choose_split (index two_lf payload) (index two_crlf payload) at_eof payload

-- `bytes.Split(raw, "\n")`.
abbrev pub first_with : ℕ → List Bytes → List Bytes
first_with b [] = (b ∷ []) ∷ []
first_with b (l ∷ ls) = (b ∷ l) ∷ ls

abbrev pub at_byte : Bool → ℕ → List Bytes → List Bytes
at_byte true b ls = [] ∷ ls
at_byte false b ls = first_with b ls

abbrev pub lines : Bytes → List Bytes
lines [] = [] ∷ []
lines (b ∷ bs) = at_byte (b == 10) b (lines bs)

-- `bytes.TrimSuffix(line, "\r")`.
abbrev pub trim_last : ℕ → Bytes → Bytes
trim_last b [] = if b == 13 then [] else b ∷ []
trim_last b (c ∷ bs) = b ∷ trim_last c bs

abbrev pub trim_cr : Bytes → Bytes
trim_cr [] = []
trim_cr (b ∷ bs) = trim_last b bs

-- `bytes.Cut(line, ":")`: what stands before and behind the first colon.
abbrev pub cut_at : Bool → ℕ → Bytes → Bytes × Bytes → Bytes × Bytes
cut_at true b bs rest = ([], bs)
cut_at false b bs (field, value) = (b ∷ field, value)

abbrev pub cut : Bytes → Bytes × Bytes
cut [] = ([], [])
cut (b ∷ bs) = cut_at (b == 58) b bs (cut bs)

-- `bytes.TrimPrefix(value, " ")`.
abbrev pub trim_space : Bytes → Bytes
trim_space [] = []
trim_space (b ∷ bs) = if b == 32 then bs else b ∷ bs

pub record Frame : Type 0 where
  pub event : Bytes
  pub payload : Bytes

-- "event" and "data".
abbrev pub event_name : Bytes
event_name = 101 ∷ 118 ∷ 101 ∷ 110 ∷ 116 ∷ []

abbrev pub data_name : Bytes
data_name = 100 ∷ 97 ∷ 116 ∷ 97 ∷ []

-- The frame's event, and its data lines so far.
abbrev pub Parsed : Type 0
Parsed = Bytes × List Bytes

abbrev pub on_field : Bytes → Bytes → Parsed → Parsed
on_field field value (event, payload) =
    if same_bytes field event_name
    then (value, payload)
    else if same_bytes field data_name
    then (event, payload ++ value ∷ [])
    else (event, payload)

abbrev pub is_comment : Bytes → Bool
is_comment [] = true
is_comment (b ∷ bs) = b == 58

abbrev pub parse_line : Bytes → Parsed → Parsed
parse_line line p =
    if is_comment line then p else on_field ((cut line).0) (trim_space ((cut line).1)) p

abbrev pub parse_lines : List Bytes → Parsed → Parsed
parse_lines [] p = p
parse_lines (l ∷ ls) p = parse_lines ls (parse_line (trim_cr l) p)

-- `strings.Join(dataLines, "\n")`.
abbrev pub join_lines : Bytes → List Bytes → Bytes
join_lines l [] = l
join_lines l (m ∷ ls) = l ++ 10 ∷ join_lines m ls

abbrev pub frame_of : Parsed → Option Frame
frame_of (event, []) = none
frame_of (event, l ∷ ls) = some (record { event = event; payload = join_lines l ls })

-- `parseFrame`.
unfoldable pub parse_frame : Bytes → Option Frame
parse_frame raw = frame_of (parse_lines (lines raw) ([], []))

-- `WriteEvent`: "event: ", the event, "\ndata: ", the data, and a blank line.
abbrev pub event_prefix : Bytes
event_prefix = 101 ∷ 118 ∷ 101 ∷ 110 ∷ 116 ∷ 58 ∷ 32 ∷ []

abbrev pub data_prefix : Bytes
data_prefix = 100 ∷ 97 ∷ 116 ∷ 97 ∷ 58 ∷ 32 ∷ []

abbrev pub frame_body : Bytes → Bytes → Bytes
frame_body event payload = (event_prefix ++ event) ++ 10 ∷ (data_prefix ++ payload)

unfoldable pub write_event : Bytes → Bytes → Bytes
write_event event payload = frame_body event payload ++ 10 ∷ 10 ∷ []
