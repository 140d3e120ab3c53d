-- ===== src/WebSocket/Remembered.antt =====
-- websocket/websocket.go, `session.turn`: what a connection remembers of a response.
use openresponses.Prelude.{
  String, str_eq, ◌≡◌, refl, ap, ◌∙◌, if◌then◌else◌, Bool, true, false, Option, none, some, [], ◌∷◌,
  ◌++◌,
}
use openresponses.Item.{Items}
use openresponses.Response.{Response}
use openresponses.Errors.{AnyError}
use openresponses.Store.Memory.{save}
use openresponses.Store.WellFormed.{WellFormed}
use openresponses.Store.Continuation.{
  Continuation, check_function_call_outputs, resolve_continuation, history,
}
use openresponses.Store.Resolve.{loads, resolve-save_first}
use openresponses.Handler.History.{is_failed}
use openresponses.WebSocket.Sink.{ErrorFrame}
use openresponses.WebSocket.Turn.{
  TurnRequest, ResponseStore, Externals, Session, add_error, write_error, report_save, save_shared,
  save_cached, remember_named, remember, forget,
}
use openresponses.WebSocket.Serve.{stores_of, shared_load}

module _ {S : Type 0} (store : Option (ResponseStore S)) (x : Externals) where
  add_error-cache :
      (b : Bool) (f : ErrorFrame) (s : Session S) → (add_error store x b f s).0.cache ≡ s.cache
  add_error-cache true f s = refl
  add_error-cache false f s = refl

  report_save-cache :
      (id : String) (o : Option AnyError) (s : Session S)
      → (report_save store x id o s).0.cache ≡ s.cache
  unfolding write_error
  report_save-cache id none s = refl
  report_save-cache id (some e) s = add_error-cache (x.takes_write s.exchange) _ s

  save_shared-cache :
      (o : Option (ResponseStore S)) (stored : Bool) (id : String) (items : Items) (s : Session S)
      → (save_shared store x o stored id items s).0.cache ≡ s.cache
  save_shared-cache none stored id items s = refl
  save_shared-cache (some k) false id items s = refl
  save_shared-cache (some k) true id items s = report_save-cache id _ _

  remember-cache :
      (req : TurnRequest) (c : Continuation) (r : Response) (s : Session S)
      → str_eq r.id "" ≡ false
      → is_failed r.status ≡ false
      → (remember store x req c (some r) s).0.cache
        ≡ save s.cache r.id (history req.request.input r)
  unfolding remember
  remember-cache req c r s named sound =
      ap (λ b. ((if b then (λ z. (z, none)) else remember_named store x req c r) s).0.cache) named
      ∙ ap
          (λ b.
            ((if b then forget store x c else (λ z.
                save_shared store x store req.stored r.id (history req.request.input r)
                  (save_cached store x r.id (history req.request.input r) z).0))
              s).0.cache)
          sound
      ∙ save_shared-cache store req.stored r.id _ _

  -- After a turn ended with a response that has an id and did not fail, the next turn of the
  -- connection that names it is resolved to the earlier input, the earlier output and its own
  -- input, if the connection's memory is well-formed and these pass the check of the function call
  -- outputs: also when the response is not stored, whatever the shared store holds, and also when
  -- a write to it or to the connection failed.
  pub remember-continues :
      (req : TurnRequest) (c : Continuation) (r : Response) (s : Session S) (next : Items)
      → WellFormed s.cache
      → str_eq r.id "" ≡ false
      → is_failed r.status ≡ false
      → check_function_call_outputs ((req.request.input ++ r.output) ++ next) ≡ none
      → resolve_continuation
          (record { input = next; previous_response_id = r.id })
          (stores_of store x (remember store x req c (some r) s).0)
        ≡ record {
          request = record {
            input = (req.request.input ++ r.output) ++ next;
            previous_response_id = "";
          };
          continuation = record { id = r.id; resolved = true };
          error = none;
        }
  remember-continues req c r s next w named sound checked =
      let after = (remember store x req c (some r) s).0 in
      ap
        (λ m.
          resolve_continuation (record { input = next; previous_response_id = r.id })
            (some (loads m) ∷ shared_load store x store after.shared ∷ []))
        (remember-cache req c r s named sound)
      ∙ resolve-save_first s.cache r.id req.request.input next r _ w named checked
