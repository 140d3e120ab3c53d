-- ===== src/Adapter/Keeps.antt =====
-- The steps of an adapter: the properties of the emitter that the calls that do not end the response
-- keep.
use openresponses.Prelude.{
  ℕ, suc, String, ◌≡◌, Bool, if◌then◌else◌, true, false, Option, none, some, List, [], ◌∷◌,
}
use openresponses.EventSink.{EventSink}
use openresponses.Emitter.State.{Emitter}
use openresponses.Emitter.Calls.{Call, perform}
use openresponses.Emitter.Running.{is_ending}
use openresponses.Adapter.Steps.{
  AdapterError, Feed, Step, proceed, ◌>>◌, skip, stop, when, updates, sets_model, sets_usage, each,
  calls, calls_new,
}

-- A property that these calls, and changes of the model and the usage, keep.
pub record Lasting {S : Type 0} (k : EventSink S) (P : Emitter S → Type 0) : Type 0 where
  pub performed :
      (call : Call) (e : Emitter S) → is_ending call ≡ false → P e → P (perform k call e).0
  pub model_set :
      (m : String) (e : Emitter S) → P e → P (record e { resp = record e.resp { model = m } })
  pub usage_set :
      (u : String) (e : Emitter S) → P e → P (record e { resp = record e.resp { usage = some u } })

module _ {D S : Type 0} {k : EventSink S} {P : Emitter S → Type 0} (h : Lasting k P) where
  pub record Keeps (m : Step (Feed D S)) : Type 0 where
    pub kept : (x : Feed D S) → P x.emitter → P (m x).0.emitter

  pub proceed-Keeps :
      (x : Feed D S) (o : Option AdapterError) (l : Step (Feed D S))
      → P x.emitter
      → Keeps l
      → P (proceed x o l).0.emitter
  proceed-Keeps x none l p a = a.kept x p
  proceed-Keeps x (some e) l p a = p

  pub then-Keeps : {m l : Step (Feed D S)} → Keeps m → Keeps l → Keeps (m >> l)
  then-Keeps {m} {l} a b = record { kept = λ x p. proceed-Keeps (m x).0 (m x).1 l (a.kept x p) b }

  pub skip-Keeps : Keeps skip
  skip-Keeps = record { kept = λ x p. p }

  pub stop-Keeps : (e : AdapterError) → Keeps (stop e)
  stop-Keeps e = record { kept = λ x p. p }

  pub updates-Keeps : (f : D → D) → Keeps (updates f)
  updates-Keeps f = record { kept = λ x p. p }

  -- A step that depends on the state before it.
  pub reads-Keeps :
      {A : Type 0} (read : Feed D S → A) (m : A → Step (Feed D S))
      → ((a : A) → Keeps (m a))
      → Keeps (λ x. m (read x) x)
  reads-Keeps read m a = record { kept = λ x p. (a (read x)).kept x p }

  pub when-Keeps : (b : Bool) {m : Step (Feed D S)} → Keeps m → Keeps (when b m)
  when-Keeps true a = a
  when-Keeps false a = skip-Keeps

  pub if-Keeps : (b : Bool) {m l : Step (Feed D S)} → Keeps m → Keeps l → Keeps (if b then m else l)
  if-Keeps true a c = a
  if-Keeps false a c = c

  pub calls-Keeps : (c : Call) → is_ending c ≡ false → Keeps (calls k c)
  calls-Keeps c e = record { kept = λ x p. h.performed c x.emitter e p }

  pub calls_new-Keeps :
      (ids : ℕ → String) (c : String → String → Call)
      → ((s t : String) → is_ending (c s t) ≡ false)
      → Keeps (calls_new k ids c)
  calls_new-Keeps ids c e = record {
    kept = λ x p.
        h.performed (c (ids x.made) (ids (suc x.made))) x.emitter
          (e (ids x.made) (ids (suc x.made))) p;
  }

  pub sets_model-Keeps : (m : String) → Keeps (sets_model m)
  sets_model-Keeps m = record { kept = λ x p. h.model_set m x.emitter p }

  pub sets_usage-Keeps : (u : String) → Keeps (sets_usage u)
  sets_usage-Keeps u = record { kept = λ x p. h.usage_set u x.emitter p }

  pub each-Keeps :
      {A : Type 0} (f : A → Step (Feed D S))
      → ((a : A) → Keeps (f a))
      → (l : List A) → Keeps (each f l)
  unfolding each
  each-Keeps f a [] = skip-Keeps
  each-Keeps f a (y ∷ l) = then-Keeps (a y) (each-Keeps f a l)
