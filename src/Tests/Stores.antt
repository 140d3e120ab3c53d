-- ===== src/Tests/Stores.antt =====
-- The theorems on the store of responses and on continuation, on concrete histories.
use openresponses.Prelude.{String, ◌≡◌, refl, true, ◌||◌, none, some, List, [], ◌∷◌, pos, arith}
use openresponses.Item.{Item, Items, Status, FunctionCall, FunctionCallOutput}
use openresponses.Response.{Response, ResponseStatus}
use openresponses.Accumulator.State.{bare_response}
use openresponses.Store.Memory.{MemoryStore, new_memory_store, load, save, put}
use openresponses.Store.Entries.{keys, newest}
use openresponses.Store.WellFormed.{WellFormed, StoreCall, apply_all, save-newest, new-WellFormed}
use openresponses.Store.Eviction.{load-save, save-evicts}
use openresponses.Store.Continuation.{
  check_function_call_outputs, Request, resolve_continuation, history,
}
use openresponses.Store.Outputs.{called, hidden, output_of, check-answered}
use openresponses.Store.Resolve.{Outcome, loads, resolve-Outcome, resolve-save}

abbrev a_reference : Items
a_reference = some (Item.item_reference "msg_0") ∷ []

-- A store for two histories that holds two.
abbrev full : MemoryStore
full = record {
  capacity = 2;
  order = "resp_1" ∷ "resp_2" ∷ [];
  items = ("resp_1", a_reference) ∷ ("resp_2", []) ∷ [];
}

full-WellFormed : WellFormed full
full-WellFormed = record {
  in_step = refl;
  distinct = ((refl, tt), (tt, tt));
  fits = omega arith;
  has_room = omega arith;
}

load-save_example : load (save full "resp_3" a_reference) "resp_3" ≡ some a_reference
load-save_example = load-save full "resp_3" a_reference full-WellFormed

save-evicts_example :
    (load (save full "resp_3" a_reference) "resp_1" ≡ none)
    × (load (save full "resp_3" a_reference) "resp_2" ≡ load full "resp_2")
unfolding load
save-evicts_example =
    save-evicts full "resp_3" "resp_1" "resp_2" ("resp_2" ∷ []) a_reference full-WellFormed refl
      refl refl refl refl

save-newest_example : save full "resp_3" a_reference ≡ record full {
  order = keys (newest 2 (put full.items "resp_3" a_reference));
  items = newest 2 (put full.items "resp_3" a_reference);
}
save-newest_example = save-newest full "resp_3" a_reference full-WellFormed

abbrev some_calls : List StoreCall
some_calls =
    StoreCall.saves "resp_1" [] ∷ StoreCall.saves "resp_2" [] ∷ StoreCall.deletes "resp_1" ∷ []

new-WellFormed_example : WellFormed (apply_all (new_memory_store (pos 1)) some_calls)
new-WellFormed_example = new-WellFormed (pos 1) some_calls

abbrev a_call : FunctionCall
a_call = record {
  id = "fc_1";
  status = Status.completed;
  call_id = "call_1";
  name = "weather";
  arguments = "{}";
  extra = [];
}

abbrev answer : String → FunctionCallOutput
answer call_id = record {
  id = "fco_1";
  status = Status.completed;
  call_id = call_id;
  text = "sunny";
  parts = none;
  extra = [];
}

check-answered_example :
    (called "call_1" (some (Item.function_call a_call) ∷ [])
      || hidden (some (Item.function_call a_call) ∷ []))
    ≡ true
unfolding check_function_call_outputs
check-answered_example =
    check-answered (some (Item.function_call a_call) ∷ []) (answer "call_1") [] refl

abbrev unanswered : Items
unanswered = some (Item.function_call a_call) ∷ output_of (answer "call_2") ∷ []

abbrev a_request : Request
a_request = record { input = output_of (answer "call_1") ∷ []; previous_response_id = "resp_1" }

resolve-Outcome_example :
    Outcome a_request (resolve_continuation a_request (none ∷ some (loads full) ∷ []))
resolve-Outcome_example = resolve-Outcome a_request (none ∷ some (loads full) ∷ [])

-- A response that called a function.
abbrev calling : Response
calling = record (bare_response ResponseStatus.completed) {
  output = some (Item.function_call a_call) ∷ [];
}

resolve-save_example :
    resolve_continuation
      (record { input = output_of (answer "call_1") ∷ []; previous_response_id = "resp_3" })
      (some (loads (save full "resp_3" (history [] calling))) ∷ [])
    ≡ record {
      request = record {
        input = some (Item.function_call a_call) ∷ output_of (answer "call_1") ∷ [];
        previous_response_id = "";
      };
      continuation = record { id = "resp_3"; resolved = true };
      error = none;
    }
unfolding check_function_call_outputs
resolve-save_example =
    resolve-save full "resp_3" [] (output_of (answer "call_1") ∷ []) calling full-WellFormed refl
      refl
