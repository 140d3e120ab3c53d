-- ===== src/Emitter/Lifecycle/Sends.antt =====
-- The rules for the sends of a writer, over a sink that keeps what `CheckedSink` promises.
use mathlib.Core.Path.{subst⁻¹}
use openresponses.Prelude.{ℕ, suc, ◌≡◌, refl, true, false}
use openresponses.Event.{StreamEvent}
use openresponses.EventSink.{EventSink, Act, ◌>>◌}
use openresponses.Streamtest.Validator.{Validator, ok}
use openresponses.Streamtest.Check.{handle}
use openresponses.Accumulator.Panics.{has_indexes}
use openresponses.Streamtest.Checked.{CheckedSink, Succeeds, Succeeds-then}
use openresponses.Emitter.Writer.{emit}

module _ {ℓ κ} {S : Type 0} {k : EventSink S} (c : CheckedSink k) {W : Type ℓ} (Q : W × S → Type κ)
    (ev : W → StreamEvent) (w : W) (s : S) (v : Validator) (n : ℕ) (v' : Validator)
    (at : c.At v n s) (running : v.terminal ≡ false) (calm : v.error_seen ≡ false)
    (indexes : has_indexes (ev w) ≡ true) (handled : handle v n (ev w) ≡ ok v') where
  -- The last send of a call.
  pub emit_last : ((s' : S) → c.At v' (suc n) s' → Q (w, s')) → Succeeds Q (emit k ev (w, s))
  emit_last next =
      let h = c.takes v n s (ev w) v' at running calm indexes handled in (h.0, next _ h.1)

  -- A send with more to come.
  pub emit_then :
      (l : Act (W × S))
      → ((s' : S) → c.At v' (suc n) s' → Succeeds Q (l (w, s')))
      → Succeeds Q ((emit k ev >> l) (w, s))
  emit_then l next =
      let h = c.takes v n s (ev w) v' at running calm indexes handled in
      Succeeds-then (λ x. (x.0 ≡ w) × c.At v' (suc n) x.1) Q (emit k ev) l (w, s) (h.0, (refl, h.1))
        (λ x g. subst⁻¹ (λ w'. Succeeds Q (l (w', x.1))) g.0 (next x.1 g.1))
