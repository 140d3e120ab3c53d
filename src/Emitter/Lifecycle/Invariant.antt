-- ===== src/Emitter/Lifecycle/Invariant.antt =====
-- emitter.go, `Emitter`: when the checker of streamtest/streamtest.go is in step with the emitter.
use openresponses.Prelude.{
  ℕ, suc, String, ◌≡◌, Bool, true, false, Option, none, some, List, [], ◌∷◌, ◌++◌, length, ◌⊎◌, sym,
  subst,
}
use openresponses.Item.{Items}
use openresponses.Event.{StreamEvent}
use openresponses.EventSink.{EventSink, Act, ◌>>◌, continue}
use openresponses.Streamtest.Validator.{Validator, ItemState, ok}
use openresponses.Streamtest.Check.{handle}
use openresponses.Accumulator.Panics.{has_indexes}
use openresponses.Streamtest.Checked.{CheckedSink, Succeeds}
use openresponses.Emitter.State.{Writer, Emitter, item_of}
use openresponses.Emitter.Calls.{emits}
use openresponses.Emitter.Lifecycle.Message.{MessageSim}
use openresponses.Emitter.Lifecycle.CallCalls.{CallSim}
use openresponses.Emitter.Lifecycle.Reasoning.{ReasoningSim}
use openresponses.Emitter.Lifecycle.Items.{Matches}

-- Between items: every item so far is done, and the next index is the length of the output.
pub record Idle (out : Items) (v : Validator) : Type 0 where
  pub running : v.terminal ≡ false
  pub calm : v.error_seen ≡ false
  pub strict : v.allow_reuse ≡ false
  pub next : v.indexes ≡ length out
  pub none_open : v.open_item ≡ none
  pub matches : Matches out v.items

-- An open writer, behind the items `items`.
abbrev pub OpenSim : Writer → List ItemState → ℕ → Validator → ItemState → Type 0
OpenSim (Writer.message w) items n v st = MessageSim items n w v st × (w.closed ≡ false)
OpenSim (Writer.call w) items n v st = CallSim items n false w v st × (w.closed ≡ false)
OpenSim (Writer.reasoning w) items n v st =
    ReasoningSim items n w v st × (w.closed ≡ false) × (w.text_done ≡ false)

abbrev pub is_closed : Writer → Bool
is_closed (Writer.message w) = w.closed
is_closed (Writer.call w) = w.closed
is_closed (Writer.reasoning w) = w.closed

abbrev pub summary_of : Writer → Option String
summary_of (Writer.reasoning w) = w.summary
summary_of _ = none

-- The emitter's last writer, behind the output `out`: none, an open one, or one that its `Close` was
-- called on.
abbrev pub WriterSim : Items → Option Writer → Validator → Type 0
WriterSim out none v = Idle out v
WriterSim out (some w) v =
    ((items : List ItemState) × (st : ItemState) × Matches out items
      × OpenSim w items (suc (length out)) v st)
    ⊎ (Idle (out ++ some (item_of w) ∷ []) v × (is_closed w ≡ true) × (summary_of w ≡ none))

-- Before `Start` nothing was sent; after a terminal event no writer is open, and the checker wants
-- nothing more.
abbrev pub Phase : Bool → Bool → Option Writer → Items → Validator → ℕ → Type 0
Phase started true w out v n = (v.terminal ≡ true) × (w ≡ none) × (started ≡ true)
Phase true false w out v n = WriterSim out w v
Phase false false w out v n = (n ≡ 0) × (w ≡ none) × (out ≡ []) × Idle [] v

module _ {S : Type 0} {k : EventSink S} (c : CheckedSink k) where
  abbrev pub Inv : Emitter S → Type 0
  Inv e =
      (v : Validator) × (n : ℕ) × c.At v n e.sink
      × Phase e.started e.terminal e.open_writer e.resp.output v n

  -- Started, and not ended.
  abbrev pub Ready : Emitter S → Type 0
  Ready e =
      (v : Validator) × (n : ℕ) × c.At v n e.sink
      × WriterSim e.resp.output e.open_writer v
      × (e.started ≡ true)
      × (e.terminal ≡ false)

  -- Started, not ended, and every item done.
  abbrev pub Between : Emitter S → Type 0
  Between e =
      (v : Validator) × (n : ℕ) × c.At v n e.sink
      × Idle e.resp.output v
      × (e.open_writer ≡ none)
      × (e.started ≡ true)
      × (e.terminal ≡ false)

  Ready-Phase :
      (started terminal : Bool) (w : Option Writer) (out : Items) (v : Validator) (n : ℕ)
      → WriterSim out w v
      → started ≡ true
      → terminal ≡ false
      → Phase started terminal w out v n
  Ready-Phase true false w out v n h s t = h
  Ready-Phase true true w out v n h s t = cc
  Ready-Phase false _ w out v n h s t = cc

  pub Ready-Inv : (e : Emitter S) → Ready e → Inv e
  Ready-Inv e (v, n, at, h, s, t) =
      (v, n, at, Ready-Phase e.started e.terminal e.open_writer e.resp.output v n h s t)

  pub Between-Ready : (e : Emitter S) → Between e → Ready e
  Between-Ready e (v, n, at, h, w, s, t) =
      (v, n, at, subst (λ o. WriterSim e.resp.output o v) (sym w) h, s, t)

module _ {κ} {S : Type 0} {k : EventSink S} (c : CheckedSink k) (Q : Emitter S → Type κ)
    (ev : Emitter S → StreamEvent) (e : Emitter S) (v : Validator) (n : ℕ) (v' : Validator)
    (at : c.At v n e.sink) (running : v.terminal ≡ false) (calm : v.error_seen ≡ false)
    (indexes : has_indexes (ev e) ≡ true) (handled : handle v n (ev e) ≡ ok v') where
  -- The sends of the emitter itself.
  pub emits_last :
      ((s' : S) → c.At v' (suc n) s' → Q (record e { sink = s' })) → Succeeds Q (emits k ev e)
  emits_last next =
      let h = c.takes v n e.sink (ev e) v' at running calm indexes handled in (h.0, next _ h.1)

  pub emits_then :
      (l : Act (Emitter S))
      → ((s' : S) → c.At v' (suc n) s' → Succeeds Q (l (record e { sink = s' })))
      → Succeeds Q ((emits k ev >> l) e)
  emits_then l next =
      let h = c.takes v n e.sink (ev e) v' at running calm indexes handled in
      subst (λ o. Succeeds Q (continue (record e { sink = (k.send e.sink (ev e)).0 }) o l))
        (sym h.0) (next _ h.1)
