-- ===== src/Emitter/Lifecycle/CallCalls.antt =====
-- emitter.go, the methods of `FunctionCallWriter`, against the checker of streamtest/streamtest.go.
use openresponses.Prelude.{
  ℕ, suc, String, eq_refl, ◌≡◌, refl, sym, subst, Bool, true, false, none, some, List, [], ◌∷◌,
  ◌++◌, pos, arith,
}
use openresponses.Item.{Item, ItemType, item_type, item_identity}
use openresponses.Event.{StreamEvent}
use openresponses.EventSink.{EventSink, writer_closed}
use openresponses.Streamtest.Validator.{Validator, ItemState, ok}
use openresponses.Streamtest.Step.{with_open, on_arguments_delta, on_arguments_done, on_item_done}
use openresponses.Streamtest.Check.{handle}
use openresponses.Streamtest.Checked.{CheckedSink, Succeeds, Succeeds-fail_if}
use openresponses.Emitter.Parts.{FunctionCallWriter, append_arguments, finish_call}
use openresponses.Emitter.Writer.{call_arguments, close_call, close_call_unless}
use openresponses.Emitter.Lifecycle.Sends.{emit_last, emit_then}
use openresponses.Emitter.Lifecycle.Done.{ItemDone}

-- The checker has the writer's call open; `finished` is whether it has seen the arguments done.
pub record CallSim (items : List ItemState) (count : ℕ) (finished : Bool) (w : FunctionCallWriter)
    (v : Validator) (st : ItemState) : Type 0 where
  pub running : v.terminal ≡ false
  pub calm : v.error_seen ≡ false
  pub strict : v.allow_reuse ≡ false
  pub items_kept : v.items ≡ items
  pub count_kept : v.indexes ≡ count
  pub opened : v.open_item ≡ some st
  pub index : st.index ≡ pos w.index
  pub id : st.id ≡ w.call.id
  pub typ : st.typ ≡ ItemType.function_call
  pub no_part : st.part ≡ none
  pub no_summary : st.summary ≡ none
  pub arguments : st.args_done ≡ finished
  pub not_open : finished ≡ true → st.text_open ≡ false

module _ (items : List ItemState) (count : ℕ) (f : Bool) (w : FunctionCallWriter) (v : Validator)
    (n : ℕ) (st : ItemState) (h : CallSim items count f w v st) where
  handle-arguments_delta :
      f ≡ false
      → on_arguments_delta v w.call.id (pos w.index)
        ≡ ok (with_open v (record st { text_open = true }))
  unfolding on_arguments_delta
  handle-arguments_delta e = ground (arith, eq_refl w.call.id)

  handle-arguments_done :
      f ≡ false
      → on_arguments_done v w.call.id (pos w.index)
        ≡ ok (with_open v (record st { args_done = true; text_open = false }))
  unfolding on_arguments_done
  handle-arguments_done e = ground (arith, eq_refl w.call.id)

  handle-call_done :
      f ≡ true
      → on_item_done v (pos w.index) (some (Item.function_call w.call))
        ≡ ok (record v {
          items = v.items ++ record st { item = Item.function_call w.call; done = true } ∷ [];
          open_item = none;
        })
  unfolding on_item_done item_type item_identity
  handle-call_done e = ground (arith, eq_refl w.call.id, h.not_open e)

module _ {S : Type 0} {k : EventSink S} (c : CheckedSink k) (items : List ItemState)
    (count : ℕ) where
  abbrev pub Calling : Bool → FunctionCallWriter × S → Type 0
  Calling f (w, s) =
      (v : Validator) × (n : ℕ) × (st : ItemState) × c.At v n s × CallSim items count f w v st

  abbrev pub Called : FunctionCallWriter × S → Type 0
  Called (w, s) =
      (v : Validator) × (n : ℕ) × (st : ItemState) × c.At v n s
      × ItemDone items count w.call.id ItemType.function_call v st
      × (w.closed ≡ true)

  -- The writer stays open, with its index and its id.
  abbrev pub StillCalling : FunctionCallWriter → FunctionCallWriter × S → Type 0
  StillCalling w x =
      Calling false x × (x.0.closed ≡ false) × (x.0.index ≡ w.index) × (x.0.call.id ≡ w.call.id)

  pub call_arguments-Calling :
      (d : String) (w : FunctionCallWriter) (s : S)
      → Calling false (w, s)
      → w.closed ≡ false
      → Succeeds (StillCalling w) (call_arguments k d (w, s))
  unfolding call_arguments handle
  call_arguments-Calling d w s (v, n, st, at, h) e =
      Succeeds-fail_if (StillCalling w) w.closed writer_closed _ (w, s) e
        (emit_last c (StillCalling w)
          (λ w'. StreamEvent.function_call_arguments_delta w'.call.id (pos w'.index) d)
          (append_arguments d w) s v n _ at h.running h.calm refl
          (handle-arguments_delta items count false w v n st h refl)
          (λ s' a. ((_, suc n, record st { text_open = true }, a, ground arith), e, refl, refl)))

  close_open_call :
      (w : FunctionCallWriter) (s : S)
      → Calling false (w, s)
      → Succeeds Called (close_call_unless k false (w, s))
  unfolding handle
  close_open_call w s (v, n, st, at, h) =
      let w1 = record w { closed = true } in
      let st1 = record st { args_done = true; text_open = false } in
      let h2 : CallSim items count true (finish_call w1) (with_open v st1) st1 = ground arith in
      emit_then c Called
        (λ w'. StreamEvent.function_call_arguments_done w'.call.id (pos w'.index) w'.call.arguments)
        w1 s v n _ at h.running h.calm refl
        (handle-arguments_done items count false w v n st h refl) _
        (λ s' a.
          emit_last c Called
            (λ w'. StreamEvent.output_item_done (pos w'.index) (some (Item.function_call w'.call)))
            (finish_call w1) s' _ (suc n) _ a h.running h.calm refl
            (handle-call_done items count true (finish_call w1) _ (suc n) st1 h2 refl)
            (λ s2 b. (
              _,
              suc (suc n),
              record st1 { item = Item.function_call (finish_call w1).call; done = true },
              b,
              ground arith,
              refl,
            )))

  pub close_call-Calling :
      (w : FunctionCallWriter) (s : S)
      → Calling false (w, s)
      → w.closed ≡ false
      → Succeeds Called (close_call k (w, s))
  unfolding close_call
  close_call-Calling w s wr e =
      subst (λ b. Succeeds Called (close_call_unless k b (w, s))) (sym e) (close_open_call w s wr)
