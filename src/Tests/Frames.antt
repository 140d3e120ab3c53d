-- ===== src/Tests/Frames.antt =====
-- The theorem on server-sent events, on a concrete frame.
use openresponses.Prelude.{◌≡◌, refl, true, some, [], ◌∷◌, ◌++◌, length}
use openresponses.Sse.Frame.{Bytes, split_frames, parse_frame, frame_body, write_event}
use openresponses.Sse.RoundTrip.{read-write_event}

-- "ping", "{ }" and the beginning of another frame.
abbrev ping : Bytes
ping = 112 ∷ 105 ∷ 110 ∷ 103 ∷ []

abbrev an_object : Bytes
an_object = 123 ∷ 32 ∷ 125 ∷ []

abbrev what_follows : Bytes
what_follows = 101 ∷ 118 ∷ []

read-write_event_example :
    (split_frames (write_event ping an_object ++ what_follows) true
      ≡ some (length (write_event ping an_object), frame_body ping an_object))
    × (parse_frame (frame_body ping an_object)
        ≡ some (record { event = ping; payload = an_object }))
read-write_event_example =
    read-write_event ping an_object what_follows true
      (refl, refl, (refl, refl, (refl, refl, (refl, refl, tt))))
      (refl, refl, (refl, refl, (refl, refl, tt)))
