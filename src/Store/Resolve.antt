-- ===== src/Store/Resolve.antt =====
-- store.go, `ResolveContinuation`, `History` and `StampPreviousID`: how a conversation goes on.
use openresponses.Prelude.{
  ℕ, String, str_eq, if◌then◌else◌, Bool, true, false, Option, none, some, List, [], ◌∷◌, ◌++◌, ◌≡◌,
  refl, sym, ap, ◌∙◌, ◌⊎◌, inl, inr,
}
use openresponses.Item.{Items}
use openresponses.Response.{Response}
use openresponses.Event.{StreamEvent}
use openresponses.Store.Memory.{MemoryStore, load, save}
use openresponses.Store.WellFormed.{WellFormed}
use openresponses.Store.Eviction.{load-save}
use openresponses.Store.Continuation.{
  check_outputs, check_function_call_outputs, Request, Load, Resolution, merged, unresolved,
  on_load, resolve_in, resolve_continuation, history, or_id, stamp_response, stamp,
  stamp_previous_id,
}

-- Either the request is as it was, or it has become self-contained: its input is some history and
-- then the input that was sent, the outputs in it have been checked, and it names no response.
abbrev pub Outcome : Request → Resolution → Type 0
Outcome req r =
    (r.request ≡ req)
    ⊎ ((r.error ≡ none)
        × (r.continuation.resolved ≡ true)
        × (r.request.previous_response_id ≡ "")
        × ((past : Items) × (r.request.input ≡ past ++ req.input))
        × (check_function_call_outputs r.request.input ≡ none))

merged-Outcome :
    (req : Request) (past : Items) (o : Option ℕ)
    → check_outputs [] false 0 (past ++ req.input) ≡ o
    → Outcome req (merged req (past ++ req.input) o)
unfolding check_function_call_outputs
merged-Outcome req past none h = inr (refl, refl, refl, (past, refl), h)
merged-Outcome req past (some i) h = inl refl

on_load-Outcome :
    (req : Request) (o : Option (Option Items)) (next : Resolution)
    → Outcome req next
    → Outcome req (on_load req o next)
on_load-Outcome req none next h = inl refl
on_load-Outcome req (some none) next h = h
on_load-Outcome req (some (some past)) next h = merged-Outcome req past _ refl

resolve_in-Outcome :
    (req : Request) (stores : List (Option Load)) → Outcome req (resolve_in req stores)
resolve_in-Outcome req [] = inl refl
resolve_in-Outcome req (none ∷ stores) = resolve_in-Outcome req stores
resolve_in-Outcome req (some l ∷ stores) =
    on_load-Outcome req (l req.previous_response_id) _ (resolve_in-Outcome req stores)

-- `ResolveContinuation`, with any stores: a miss and an error leave the request as it was, and a hit
-- makes it self-contained.
pub resolve-Outcome :
    (req : Request) (stores : List (Option Load)) → Outcome req (resolve_continuation req stores)
unfolding resolve_continuation
resolve-Outcome req stores = split (str_eq req.previous_response_id "")
  where
    split : (b : Bool) → Outcome req (if b then unresolved req none else resolve_in req stores)
    split true = inl refl
    split false = resolve_in-Outcome req stores

abbrev pub loads : MemoryStore → Load
loads m id = some (load m id)

-- The input of the next request, and the conversation before it.
abbrev next_request : Items → String → Request
next_request input id = record { input = input; previous_response_id = id }

-- A history that was saved to the first of the stores comes back from it, whatever the others hold.
pub resolve-save_first :
    (m : MemoryStore) (id : String) (input next : Items) (r : Response)
    (others : List (Option Load))
    → WellFormed m
    → str_eq id "" ≡ false
    → check_function_call_outputs ((input ++ r.output) ++ next) ≡ none
    → resolve_continuation
        (record { input = next; previous_response_id = id })
        (some (loads (save m id (history input r))) ∷ others)
      ≡ record {
        request = record { input = (input ++ r.output) ++ next; previous_response_id = "" };
        continuation = record { id = id; resolved = true };
        error = none;
      }
unfolding resolve_continuation check_function_call_outputs history
resolve-save_first m id input next r others w named checked =
    let req = next_request next id in
    ap
      (λ b.
        if b
        then unresolved req none
        else resolve_in req (some (loads (save m id (history input r))) ∷ others))
      named
    ∙ ap (λ o. on_load req (some o) (resolve_in req others)) (load-save m id (history input r) w)
    ∙ ap (merged req ((input ++ r.output) ++ next)) checked

-- A response's history that `Save` puts into a well-formed store comes back in front of the next
-- request that names the response: the earlier input, the earlier output, and the new input. Its id
-- is not empty, and the whole passes the check of the function call outputs.
pub resolve-save :
    (m : MemoryStore) (id : String) (input next : Items) (r : Response)
    → WellFormed m
    → str_eq id "" ≡ false
    → check_function_call_outputs ((input ++ r.output) ++ next) ≡ none
    → resolve_continuation
        (record { input = next; previous_response_id = id })
        (some (loads (save m id (history input r))) ∷ [])
      ≡ record {
        request = record { input = (input ++ r.output) ++ next; previous_response_id = "" };
        continuation = record { id = id; resolved = true };
        error = none;
      }
resolve-save m id input next r w named checked =
    resolve-save_first m id input next r [] w named checked

or_id-twice : (o : Option String) (id id' : String) → or_id (or_id o id) id' ≡ or_id o id
or_id-twice none id id' = refl
or_id-twice (some old) id id' = refl

stamp_response-twice :
    (id id' : String) (r : Option Response)
    → stamp_response id' (stamp_response id r) ≡ stamp_response id r
stamp_response-twice id id' none = refl
stamp_response-twice id id' (some r) =
    ap (λ o. some (record r { previous_response_id = o }))
      (or_id-twice r.previous_response_id id id')

stamp-twice : (ev : StreamEvent) (id id' : String) → stamp (stamp ev id) id' ≡ stamp ev id
stamp-twice (StreamEvent.response_created r) id id' =
    ap StreamEvent.response_created (stamp_response-twice id id' r)
stamp-twice (StreamEvent.response_queued r) id id' =
    ap StreamEvent.response_queued (stamp_response-twice id id' r)
stamp-twice (StreamEvent.response_in_progress r) id id' =
    ap StreamEvent.response_in_progress (stamp_response-twice id id' r)
stamp-twice (StreamEvent.response_completed r) id id' =
    ap StreamEvent.response_completed (stamp_response-twice id id' r)
stamp-twice (StreamEvent.response_failed r) id id' =
    ap StreamEvent.response_failed (stamp_response-twice id id' r)
stamp-twice (StreamEvent.response_incomplete r) id id' =
    ap StreamEvent.response_incomplete (stamp_response-twice id id' r)
stamp-twice _ id id' = refl

-- The first id that is stamped on an event stays: a later stamp changes nothing, if the first id is
-- not empty.
pub stamp-first :
    (ev : StreamEvent) (id id' : String)
    → str_eq id "" ≡ false
    → stamp_previous_id (stamp_previous_id ev id) id' ≡ stamp_previous_id ev id
unfolding stamp_previous_id
stamp-first ev id id' named =
    ap
      (λ b.
        if str_eq id' ""
        then (if b then ev else stamp ev id)
        else stamp (if b then ev else stamp ev id) id')
      named
    ∙ split (str_eq id' "")
    ∙ ap (λ b. if b then ev else stamp ev id) (sym named)
  where
    split : (b : Bool) → (if b then stamp ev id else stamp (stamp ev id) id') ≡ stamp ev id
    split true = refl
    split false = stamp-twice ev id id'
