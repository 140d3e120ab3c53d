-- ===== src/Handler/History.antt =====
-- handler.go, `Handler.save` and `Handler.resolve` on a `MemoryStore`.
use openresponses.Prelude.{
  String, str_eq, ◌≡◌, ap, ◌∙◌, Bool, true, false, not, ◌&&◌, Option, none, some, [], ◌∷◌, ◌++◌,
  arith,
}
use openresponses.Item.{Items}
use openresponses.Response.{Response, ResponseStatus, terminal}
use openresponses.Store.Memory.{MemoryStore, load, save}
use openresponses.Store.WellFormed.{WellFormed}
use openresponses.Store.Continuation.{
  Request, Resolution, ResolveError, check_function_call_outputs, history, resolve_continuation,
}
use openresponses.Store.Resolve.{loads, resolve-save}

abbrev pub is_failed : ResponseStatus → Bool
is_failed ResponseStatus.failed = true
is_failed _ = false

-- Whether `save` records the response: it is stored, it has an id, and it is completed or incomplete.
abbrev pub is_saved : Bool → Response → Bool
is_saved stored r = stored && not (str_eq r.id "") && terminal r.status && not (is_failed r.status)

abbrev pub save_if : Bool → MemoryStore → Items → Response → MemoryStore
save_if true m input r = save m r.id (history input r)
save_if false m input r = m

-- `Handler.save`; `stored` is `req.Stored()`, and the final response may be nil.
unfoldable pub save_response : Bool → MemoryStore → Items → Option Response → MemoryStore
unfolding save history terminal
save_response stored m input none = m
save_response stored m input (some r) = save_if (is_saved stored r) m input r

-- `Handler.resolve` with a store: an id that the store does not have is an error.
pub data RequestError : Type 0 where
  unresolvable : ResolveError → RequestError
  not_found : String → RequestError

abbrev pub found_or : Resolution → Option ResolveError → Bool → Request × Option RequestError
found_or r (some e) b = (r.request, some (RequestError.unresolvable e))
found_or r none true = (r.request, some (RequestError.not_found r.continuation.id))
found_or r none false = (r.request, none)

unfoldable pub resolve : MemoryStore → Request → Request × Option RequestError
unfolding load resolve_continuation
resolve m req =
    let r = resolve_continuation req (some (loads m) ∷ []) in
    found_or r r.error (not (str_eq r.continuation.id "") && not r.continuation.resolved)

id_of_saved : (a b c d : Bool) → (a && not b && c && d) ≡ true → b ≡ false
id_of_saved a b c d h = ground arith

resolved_found : (b : Bool) → (not b && not true) ≡ false
resolved_found b = ground arith

-- A response that `save` records in a well-formed store can be continued: the next request that names
-- it is resolved to the earlier input, the earlier output and its own input, if these pass the check
-- of the function call outputs.
pub resolve-save_response :
    (m : MemoryStore) (input next : Items) (r : Response)
    → WellFormed m
    → is_saved true r ≡ true
    → check_function_call_outputs ((input ++ r.output) ++ next) ≡ none
    → resolve
        (save_response true m input (some r))
        (record { input = next; previous_response_id = r.id })
      ≡ (record { input = (input ++ r.output) ++ next; previous_response_id = "" }, none)
unfolding resolve save_response
resolve-save_response m input next r w saved checked =
    let named : str_eq r.id "" ≡ false = id_of_saved true (str_eq r.id "") _ _ saved in
    ap (λ b. resolve (save_if b m input r) (record { input = next; previous_response_id = r.id }))
      saved
    ∙ ap
        (λ x. found_or x x.error (not (str_eq x.continuation.id "") && not x.continuation.resolved))
        (resolve-save m r.id input next r w named checked)
    ∙ ap
        (found_or
          (record {
            request = record { input = (input ++ r.output) ++ next; previous_response_id = "" };
            continuation = record { id = r.id; resolved = true };
            error = none;
          })
          none)
        (resolved_found (str_eq r.id ""))

-- A failed response is not recorded, stored or not.
pub failed-unsaved :
    (m : MemoryStore) (input : Items) (r : Response) (stored : Bool)
    → r.status ≡ ResponseStatus.failed
    → save_response stored m input (some r) ≡ m
unfolding save_response terminal
failed-unsaved m input r stored h =
    ap (λ b. save_if b m input r)
      (ap (λ s. stored && not (str_eq r.id "") && terminal s && not (is_failed s)) h
        ∙ never stored (not (str_eq r.id "")))
  where
    never : (a b : Bool) → (a && b && true && false) ≡ false
    never a b = ground arith
