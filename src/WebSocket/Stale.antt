-- ===== src/WebSocket/Stale.antt =====
-- websocket/websocket.go, `session.turn`: the shared store fails to save a response, after its
-- terminal event went out.
use openresponses.Prelude.{
  String, str_eq, str_append, ◌≡◌, ap, ◌∙◌, if◌then◌else◌, Bool, true, false, none, some, List, [],
  ◌∷◌, ◌++◌,
}
use openresponses.Item.{Items}
use openresponses.Response.{Response}
use openresponses.Errors.{AnyError, as_error, error_status, payload, err}
use openresponses.Accumulator.State.{Accumulator, empty}
use openresponses.Accumulator.Add.{add_all, on_error}
use openresponses.Streamtest.Accepted.{ends_once}
use openresponses.Store.Continuation.{Continuation, history}
use openresponses.Emitter.Folded.{events_of}
use openresponses.Handler.History.{is_failed}
use openresponses.WebSocket.Sink.{ErrorFrame, Exchange}
use openresponses.WebSocket.Turn.{
  TurnRequest, ResponseStore, Externals, Session, wrap, add_error, write_error, report_save,
  save_shared, save_cached, remember_named, remember, forget,
}
use openresponses.WebSocket.Conn.{Delivered, TurnError, returns, conn_turn}
use openresponses.WebSocket.InStep.{
  received, error_received, errors_received, no_error_event, turn_from-ends_once, turn_from-error,
}

module _ {S : Type 0} (k : ResponseStore S) (x : Externals)
    (taken : (e : Exchange) → x.takes_write e ≡ true) where
  -- The error frame for a save that failed.
  abbrev pub save_frame : String → AnyError → ErrorFrame
  save_frame id e =
      let f = as_error (wrap (str_append "save response " (str_append (x.quoted id) ": ")) e) in
      record { status = error_status f; error = payload f }

  report_save-exchange :
      (id : String) (e : AnyError) (s : Session S)
      → (report_save (some k) x id (some e) s).0.exchange
        ≡ record s.exchange { errors = s.exchange.errors ++ save_frame id e ∷ [] }
  unfolding write_error
  report_save-exchange id e s =
      ap (λ b. (add_error (some k) x b (save_frame id e) s).0.exchange) (taken s.exchange)

  save_shared-exchange :
      (stored : Bool) (id : String) (items : Items) (e : AnyError) (s : Session S)
      → stored ≡ true
      → (k.save s.shared id items).1 ≡ some e
      → (save_shared (some k) x (some k) stored id items s).0.exchange
        ≡ record s.exchange { errors = s.exchange.errors ++ save_frame id e ∷ [] }
  save_shared-exchange false id items e s stored fails = cc
  save_shared-exchange true id items e s stored fails =
      ap
        (λ o.
          (report_save (some k) x id o
            (record s { shared = (k.save s.shared id items).0 })).0.exchange)
        fails
      ∙ report_save-exchange id e _

  remember-exchange :
      (req : TurnRequest) (c : Continuation) (r : Response) (s : Session S) (e : AnyError)
      → str_eq r.id "" ≡ false
      → is_failed r.status ≡ false
      → req.stored ≡ true
      → (k.save s.shared r.id (history req.request.input r)).1 ≡ some e
      → (remember (some k) x req c (some r) s).0.exchange
        ≡ record s.exchange { errors = s.exchange.errors ++ save_frame r.id e ∷ [] }
  unfolding remember
  remember-exchange req c r s e named sound stored fails =
      ap (λ b. ((if b then (λ z. (z, none)) else remember_named (some k) x req c r) s).0.exchange)
        named
      ∙ ap
          (λ b.
            ((if b then forget (some k) x c else (λ z.
                save_shared (some k) x (some k) req.stored r.id (history req.request.input r)
                  (save_cached (some k) x r.id (history req.request.input r) z).0))
              s).0.exchange)
          sound
      ∙ save_shared-exchange req.stored r.id (history req.request.input r) e _ stored fails

  -- When the shared store fails to save a response whose stream ended, the client's Turn returns
  -- without an error and leaves the error frame unread; the next Turn, whatever is sent to it,
  -- returns that error, and leaves its own answer unread. The response has an id and did not fail,
  -- the request is stored, the connection takes all writes, no event is an error event, and the
  -- fold of the events does not panic.
  pub stale-error :
      (req : TurnRequest) (c : Continuation) (r : Response) (s : Session S) (e : AnyError)
      (later : List Delivered) (a : Accumulator)
      → str_eq r.id "" ≡ false
      → is_failed r.status ≡ false
      → req.stored ≡ true
      → (k.save s.shared r.id (history req.request.input r)).1 ≡ some e
      → ends_once s.exchange.events ≡ true
      → s.exchange.errors ≡ []
      → no_error_event s.exchange.events ≡ true
      → add_all empty (events_of s.exchange.events) ≡ some a
      → let f = save_frame r.id e in
        (conn_turn (received (remember (some k) x req c (some r) s).0.exchange later)
          ≡ returns a none (error_received f ∷ later))
        × (conn_turn (error_received f ∷ later)
            ≡ returns
                (on_error empty f.error)
                (some (TurnError.of_server (err f.error f.status)))
                later)
  stale-error req c r s e later a named sound stored fails ended none_left n h = (
    ap (λ t. conn_turn (received t later)) (remember-exchange req c r s e named sound stored fails)
        ∙ turn_from-ends_once s.exchange.events _ empty a ended n h
        ∙ ap (λ fs. returns a none (errors_received (fs ++ save_frame r.id e ∷ []) later))
            none_left,
    turn_from-error (save_frame r.id e) later empty,
  )
