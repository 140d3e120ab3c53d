-- ===== src/WebSocket/Answers.antt =====
-- websocket/websocket.go, `session.turn` and `session.run`: every message of a client is answered.
use openresponses.Prelude.{
  String, str_eq, ◌≡◌, refl, sym, subst, if◌then◌else◌, Bool, true, false, Option, none, some, List,
  [], ◌∷◌, length, arith,
}
use openresponses.Item.{Items}
use openresponses.Response.{Response, complete_response}
use openresponses.Event.{StreamEvent, terminal_response}
use openresponses.EventSink.{SendError, Act, ◌>>◌, skip}
use openresponses.Errors.{AnyError, as_error, error_status, payload}
use openresponses.Accumulator.State.{response}
use openresponses.Store.Memory.{MemoryStore}
use openresponses.Store.Continuation.{
  Continuation, Resolution, ResolveError, resolve_continuation, history,
}
use openresponses.Handler.SseSink.{response_or}
use openresponses.Handler.Running.{indexed}
use openresponses.Handler.History.{is_failed}
use openresponses.WebSocket.Sink.{
  ErrorFrame, Exchange, nothing_written, TurnSink, new_turn_sink, send_all,
}
use openresponses.WebSocket.Answered.{Answered, AllAnswered, Wrote, with_error, without_error}
use openresponses.WebSocket.Written.{Sent, send-Sent, send_all-Sent}
use openresponses.WebSocket.Turn.{
  Decoded, CreateFrame, TurnRequest, ResponseStore, Externals, Message, Session, add_error,
  write_error, forget, report_save, save_shared, save_cached, remember, first_forbidden,
  invalid_request,
}
use openresponses.WebSocket.Serve.{
  writes_events, after_completed, conclude, after_adapter, after_stream, stream, is_final_miss,
  on_error, stores_of, on_valid, on_request, on_forbidden, on_head, turn, on_message, run,
  unless_unusable,
}

module _ {S : Type 0} (store : Option (ResponseStore S)) (x : Externals)
    (encoded : (ev : StreamEvent) → x.encodes ev ≡ true)
    (taken : (e : Exchange) → x.takes_write e ≡ true)
    (sends : (req : TurnRequest) → indexed (x.create_stream req).0 ≡ true) where
  abbrev Settled : Session S × Option SendError → Type 0
  Settled r = (r.1 ≡ none) × Answered r.0.exchange

  abbrev Settles : Bool → Act (Session S) → Type 0
  Settles t m = (s : Session S) → Wrote t s.exchange → Settled (m s)

  write_error-Settles : (t : Bool) (e : AnyError) → Settles t (write_error store x e)
  unfolding write_error
  write_error-Settles t e s w =
      let f : ErrorFrame = record {
        status = error_status (as_error e);
        error = payload (as_error e);
      } in
      subst (λ b. Settled (add_error store x b f s)) (sym (taken s.exchange))
        (refl, with_error t s.exchange f w)

  skip-Settles : Settles true skip
  skip-Settles s w = (refl, without_error s.exchange w)

  if-Settles :
      (t b : Bool) (m l : Act (Session S))
      → Settles t m
      → Settles t l
      → Settles t (if b then m else l)
  if-Settles t true m l h g = h
  if-Settles t false m l h g = g

  forgotten :
      (b : Bool) (s : Session S) (m : MemoryStore)
      → (if b then record s { cache = m } else s).exchange ≡ s.exchange
  forgotten true s m = refl
  forgotten false s m = refl

  forget-Settles :
      (t : Bool) (c : Continuation) (l : Act (Session S))
      → Settles t l
      → Settles t (forget store x c >> l)
  forget-Settles t c l h s w =
      h (forget store x c s).0 (subst (Wrote t) (sym (forgotten c.resolved s _)) w)

  forget_last-Settles : (c : Continuation) → Settles true (forget store x c)
  forget_last-Settles c s w =
      (refl, without_error _ (subst (Wrote true) (sym (forgotten c.resolved s _)) w))

  report_save-Settles :
      (id : String) (o : Option AnyError) → Settles true (report_save store x id o)
  report_save-Settles id none = skip-Settles
  report_save-Settles id (some e) = write_error-Settles true _

  save_shared-Settles :
      (o : Option (ResponseStore S)) (stored : Bool) (id : String) (items : Items)
      → Settles true (save_shared store x o stored id items)
  save_shared-Settles none stored id items s w = skip-Settles s w
  save_shared-Settles (some k) false id items s w = skip-Settles s w
  save_shared-Settles (some k) true id items s w =
      report_save-Settles id _ (record s { shared = (k.save s.shared id items).0 }) w

  remember-Settles :
      (req : TurnRequest) (c : Continuation) (o : Option Response)
      → Settles true (remember store x req c o)
  unfolding remember
  remember-Settles req c none = skip-Settles
  remember-Settles req c (some r) = if-Settles true (str_eq r.id "") _ _ skip-Settles (
      if-Settles true (is_failed r.status) _ _ (forget_last-Settles c) (λ s w.
        save_shared-Settles store req.stored r.id (history req.request.input r)
          (save_cached store x r.id (history req.request.input r) s).0 w))

  Sent-Wrote :
      (t : Bool) (k : TurnSink) (s : Session S)
      → Sent t k
      → s.exchange.errors ≡ []
      → Wrote t (writes_events store x k s).exchange
  Sent-Wrote t k s h e = record { counted = h.counted; ending = h.ending; no_error = e }

  after_completed-Settled :
      (req : TurnRequest) (c : Continuation) (r : Response) (k : TurnSink × Option SendError)
      (s : Session S)
      → (k.1 ≡ none) × Sent true k.0
      → s.exchange.errors ≡ []
      → Settled (after_completed store x req c r k s)
  after_completed-Settled req c r (k, o) s (p, h) e =
      subst (λ z. Settled (after_completed store x req c r (k, z) s)) (sym p)
        (remember-Settles req c (some r) (writes_events store x k s) (Sent-Wrote true k s h e))

  conclude-Settled :
      (t : Bool) (req : TurnRequest) (c : Continuation) (k : TurnSink) (s : Session S)
      → Sent t k
      → s.exchange.errors ≡ []
      → Settled (conclude store x t req c k s)
  unfolding terminal_response
  conclude-Settled true req c k s h e =
      remember-Settles req c (response k.acc) (writes_events store x k s) (Sent-Wrote true k s h e)
  conclude-Settled false req c k s h e =
      let r = complete_response x.now (response_or (x.new_response req) (response k.acc)) in
      after_completed-Settled req c r _ s
        (send-Sent x.encodes x.takes_write encoded taken k (StreamEvent.response_completed (some r))
          true h refl refl)
        e

  after_adapter-Settled :
      (o : Option AnyError) (t : Bool) (req : TurnRequest) (c : Continuation) (k : TurnSink)
      (s : Session S)
      → Sent t k
      → s.exchange.errors ≡ []
      → Settled (after_adapter store x o t req c k s)
  after_adapter-Settled none t req c k s h e = conclude-Settled t req c k s h e
  after_adapter-Settled (some err) true req c k s h e = conclude-Settled true req c k s h e
  after_adapter-Settled (some err) false req c k s h e =
      forget-Settles false c (write_error store x err) (write_error-Settles false err)
        (writes_events store x k s) (Sent-Wrote false k s h e)

  stream-Settled :
      (req : TurnRequest) (c : Continuation) (s : Session S)
      → s.exchange.errors ≡ []
      → Settled (stream store x req c s)
  unfolding stream
  stream-Settled req c s e =
      let r = x.create_stream req in
      let k = send_all x.encodes x.takes_write (new_turn_sink c.id) r.0 in
      let (t, h) =
        send_all-Sent x.encodes x.takes_write encoded taken r.0 (new_turn_sink c.id) false
          (record { sound = refl; same = refl; counted = refl; next = refl; ending = refl })
          (sends req) in
      subst (λ o. Settled (after_stream store x o r.1 req c k s)) (sym h.sound)
        (subst (λ b. Settled (after_adapter store x r.1 b req c k s)) (sym h.same)
          (after_adapter-Settled r.1 t req c k s h e))

  on_error-Settles :
      (o : Option ResolveError) (stored : Bool) (r : Resolution)
      → Settles false (on_error store x o stored r)
  on_error-Settles (some e) stored r =
      forget-Settles false r.continuation (write_error store x (x.resolve_error e))
        (write_error-Settles false (x.resolve_error e))
  on_error-Settles none stored r =
      if-Settles false (is_final_miss store x stored r.continuation) _ _
        (write_error-Settles false _) (λ s w. stream-Settled _ r.continuation s w.no_error)

  on_valid-Settles :
      (o : Option AnyError) (req : TurnRequest) → Settles false (on_valid store x o req)
  on_valid-Settles (some e) req s w = write_error-Settles false e s w
  on_valid-Settles none req s w =
      let r = resolve_continuation req.request (stores_of store x s) in
      on_error-Settles r.error req.stored r s w

  on_request-Settles : (d : Decoded TurnRequest) → Settles false (on_request store x d)
  on_request-Settles (Decoded.invalid m) = write_error-Settles false _
  on_request-Settles (Decoded.valid req) = on_valid-Settles (x.validate req) req

  on_forbidden-Settles :
      (o : Option String) (body : String) → Settles false (on_forbidden store x o body)
  on_forbidden-Settles (some field) body = write_error-Settles false _
  on_forbidden-Settles none body = on_request-Settles (x.request body)

  on_head-Settles :
      (d : Decoded CreateFrame) (body : String) → Settles false (on_head store x d body)
  on_head-Settles (Decoded.invalid m) body = write_error-Settles false _
  on_head-Settles (Decoded.valid h) body =
      if-Settles false (str_eq h.type "response.create") _ _
        (on_forbidden-Settles (first_forbidden h) body) (write_error-Settles false _)

  on_message-Settles : (m : Message) → Settles false (on_message store x m)
  unfolding turn
  on_message-Settles Message.binary =
      write_error-Settles false (invalid_request "invalid_message" "expected a text frame" "")
  on_message-Settles (Message.text body) = on_head-Settles (x.head body) body

  -- Whatever messages a client sends, the session answers each one: with events that count from
  -- zero and of which the last and only the last is a terminal one, and at most one error frame
  -- behind it; or without a terminal event and with one error frame at the end. Events can be
  -- encoded, frames can be written, and the adapter sends no index that makes `Add` panic.
  pub run-Answered :
      (ms : List Message) (cache : MemoryStore) (shared : S)
      → (length (run store x ms cache shared) ≡ length ms)
        × AllAnswered (run store x ms cache shared)
  unfolding run
  run-Answered [] cache shared = (refl, tt)
  run-Answered (m ∷ ms) cache shared =
      let r =
        on_message store x m
          (record { cache = cache; shared = shared; exchange = nothing_written }) in
      let (p, a) =
        on_message-Settles m (record { cache = cache; shared = shared; exchange = nothing_written })
          (record { counted = refl; ending = refl; no_error = refl }) in
      let (l, rest) = run-Answered ms r.0.cache r.0.shared in
      subst
        (λ o.
          (length (r.0.exchange ∷ unless_unusable store x o (run store x ms r.0.cache r.0.shared))
            ≡ length (m ∷ ms))
          × (Answered r.0.exchange
              × AllAnswered (unless_unusable store x o (run store x ms r.0.cache r.0.shared))))
        (sym p) (omega (arith, l), (a, rest))
