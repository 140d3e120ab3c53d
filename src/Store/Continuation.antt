-- ===== src/Store/Continuation.antt =====
-- store.go, `ResolveContinuation`, `History` and `StampPreviousID`; request.go,
-- `checkFunctionCallOutputs`. A store is its `Load`: `none` is an error of the store.
use openresponses.Prelude.{
  ℕ, suc, String, str_eq, if◌then◌else◌, Bool, true, false, not, ◌&&◌, ◌||◌, Option, none, some,
  List, [], ◌∷◌, ◌++◌,
}
use openresponses.Item.{Item, Items}
use openresponses.Response.{Response}
use openresponses.Event.{StreamEvent}

abbrev pub mem : String → List String → Bool
mem id [] = false
mem id (k ∷ ks) = str_eq k id || mem id ks

-- `checkFunctionCallOutputs`: `none`, or the position of the output that answers no earlier call.
-- A nil entry is of no kind.
abbrev pub reject_if : Bool → ℕ → Option ℕ → Option ℕ
reject_if true i rest = some i
reject_if false i rest = rest

abbrev pub check_outputs : List String → Bool → ℕ → Items → Option ℕ
check_outputs calls opaque i [] = none
check_outputs calls opaque i (some (Item.function_call c) ∷ items) =
    check_outputs (c.call_id ∷ calls) opaque (suc i) items
check_outputs calls opaque i (some (Item.function_call_output o) ∷ items) =
    reject_if (not (mem o.call_id calls) && not opaque) i (check_outputs calls opaque (suc i) items)
check_outputs calls opaque i (some (Item.compaction _) ∷ items) =
    check_outputs calls true (suc i) items
check_outputs calls opaque i (some (Item.item_reference _) ∷ items) =
    check_outputs calls true (suc i) items
check_outputs calls opaque i (some (Item.unknown_item _) ∷ items) =
    check_outputs calls true (suc i) items
check_outputs calls opaque i (_ ∷ items) = check_outputs calls opaque (suc i) items

unfoldable pub check_function_call_outputs : Items → Option ℕ
check_function_call_outputs items = check_outputs [] false 0 items

-- The fields of a request that the continuation reads and writes.
pub record Request : Type 0 where
  pub input : Items
  pub previous_response_id : String

pub record Continuation : Type 0 where
  pub id : String
  pub resolved : Bool

pub data ResolveError : Type 0 where
  load_failed : ResolveError
  invalid_output : ℕ → ResolveError

-- A store's `Load`: an error, or what was found.
abbrev pub Load : Type 0
Load = String → Option (Option Items)

pub record Resolution : Type 0 where
  pub request : Request
  pub continuation : Continuation
  pub error : Option ResolveError

abbrev pub merged : Request → Items → Option ℕ → Resolution
merged req input (some i) = record {
  request = req;
  continuation = record { id = req.previous_response_id; resolved = true };
  error = some (ResolveError.invalid_output i);
}
merged req input none = record {
  request = record { input = input; previous_response_id = "" };
  continuation = record { id = req.previous_response_id; resolved = true };
  error = none;
}

abbrev pub unresolved : Request → Option ResolveError → Resolution
unresolved req e = record {
  request = req;
  continuation = record { id = req.previous_response_id; resolved = false };
  error = e;
}

abbrev pub on_load : Request → Option (Option Items) → Resolution → Resolution
on_load req none next = unresolved req (some ResolveError.load_failed)
on_load req (some none) next = next
on_load req (some (some history)) next =
    merged req (history ++ req.input) (check_outputs [] false 0 (history ++ req.input))

-- The loop of `ResolveContinuation`; a nil store is `none`.
abbrev pub resolve_in : Request → List (Option Load) → Resolution
resolve_in req [] = unresolved req none
resolve_in req (none ∷ stores) = resolve_in req stores
resolve_in req (some load ∷ stores) =
    on_load req (load req.previous_response_id) (resolve_in req stores)

-- `ResolveContinuation`.
unfoldable pub resolve_continuation : Request → List (Option Load) → Resolution
resolve_continuation req stores =
    if str_eq req.previous_response_id "" then unresolved req none else resolve_in req stores

-- `History`.
unfoldable pub history : Items → Response → Items
history input resp = input ++ resp.output

-- `StampPreviousID`.
abbrev pub or_id : Option String → String → Option String
or_id none id = some id
or_id (some old) id = some old

abbrev pub stamp_response : String → Option Response → Option Response
stamp_response id none = none
stamp_response id (some r) =
    some (record r { previous_response_id = or_id r.previous_response_id id })

abbrev pub stamp : StreamEvent → String → StreamEvent
stamp (StreamEvent.response_created r) id = StreamEvent.response_created (stamp_response id r)
stamp (StreamEvent.response_queued r) id = StreamEvent.response_queued (stamp_response id r)
stamp (StreamEvent.response_in_progress r) id =
    StreamEvent.response_in_progress (stamp_response id r)
stamp (StreamEvent.response_completed r) id = StreamEvent.response_completed (stamp_response id r)
stamp (StreamEvent.response_failed r) id = StreamEvent.response_failed (stamp_response id r)
stamp (StreamEvent.response_incomplete r) id = StreamEvent.response_incomplete (stamp_response id r)
stamp ev id = ev

unfoldable pub stamp_previous_id : StreamEvent → String → StreamEvent
stamp_previous_id ev id = if str_eq id "" then ev else stamp ev id
