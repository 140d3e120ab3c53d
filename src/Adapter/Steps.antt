-- ===== src/Adapter/Steps.antt =====
-- What the adapters that stream from a provider (chatcompletions, providers/anthropic and
-- providers/gemini) have in common: a decoder that folds the provider's events into calls of an
-- emitter, and stops at the first error.
use openresponses.Prelude.{ℕ, suc, String, Bool, true, false, Option, none, some, List, [], ◌∷◌}
use openresponses.EventSink.{EventSink, SendError}
use openresponses.Errors.{Error}
use openresponses.Item.{Content, Contents}
use openresponses.Emitter.Parts.{message_of}
use openresponses.Emitter.State.{Writer, Emitter}
use openresponses.Emitter.Calls.{Call, perform}

-- The error of a call of the emitter, the adapter's own, a panic of its code, or that of a context
-- that was cancelled.
pub data AdapterError : Type 0 where
  of_send : SendError → AdapterError
  of_adapter : Error → AdapterError
  panicked cancelled : AdapterError

-- `ServerError` and `ModelError` of errors.go.
abbrev pub new_error : String → String → String → AdapterError
new_error type code message =
    AdapterError.of_adapter
      (record { status_code = 0; type = type; code = code; message = message; param = "" })

abbrev pub server_error : String → String → AdapterError
server_error code message = new_error "server_error" code message

abbrev pub model_error : String → String → AdapterError
model_error code message = new_error "model_error" code message

-- The text of the last part, if that is an output text.
unfoldable pub last_text : Contents → String
last_text [] = ""
last_text (some (Content.output_text p) ∷ []) = p.text
last_text (_ ∷ []) = ""
last_text (_ ∷ c ∷ rest) = last_text (c ∷ rest)

-- `messageText` of the emitter's open writer (providers/anthropic and providers/gemini).
unfoldable pub message_text : Option Writer → String
unfolding last_text
message_text (some (Writer.message w)) = last_text (message_of w).content
message_text _ = ""

-- The decoder's own state, the emitter, and how many random identifiers were made.
pub record Feed (D S : Type 0) : Type 0 where
  pub decoder : D
  pub emitter : Emitter S
  pub made : ℕ

abbrev pub Step : Type 0 → Type 0
Step X = X → X × Option AdapterError

abbrev pub proceed : {X : Type 0} → X → Option AdapterError → Step X → X × Option AdapterError
proceed x none l = l x
proceed x (some e) l = (x, some e)

infixr 5 ◌>>◌
-- `if err := m(); err != nil { return err }; l()`.
abbrev pub ◌>>◌ : {X : Type 0} → Step X → Step X → Step X
◌>>◌ m l x = proceed (m x).0 (m x).1 l

abbrev pub skip : {X : Type 0} → Step X
skip x = (x, none)

abbrev pub stop : {X : Type 0} → AdapterError → Step X
stop e x = (x, some e)

abbrev pub when : {X : Type 0} → Bool → Step X → Step X
when true m = m
when false m = skip

abbrev pub sent : Option SendError → Option AdapterError
sent none = none
sent (some e) = some (AdapterError.of_send e)

module _ {D S : Type 0} where
  abbrev pub updates : (D → D) → Step (Feed D S)
  updates f x = (record x { decoder = f x.decoder }, none)

  -- An assignment to the live response.
  abbrev pub sets_model : String → Step (Feed D S)
  sets_model m x =
      (record x { emitter = record x.emitter { resp = record x.emitter.resp { model = m } } }, none)

  abbrev pub sets_usage : String → Step (Feed D S)
  sets_usage u x = (
    record x { emitter = record x.emitter { resp = record x.emitter.resp { usage = some u } } },
    none,
  )

  -- A loop over a slice that returns at the first error.
  unfoldable pub each : {A : Type 0} → (A → Step (Feed D S)) → List A → Step (Feed D S)
  each f [] = skip
  each f (a ∷ rest) = f a >> each f rest

module _ {D S : Type 0} (k : EventSink S) where
  -- A call of the emitter, or of the writer that it opened last.
  abbrev pub calls : Call → Step (Feed D S)
  calls c x = let r = perform k c x.emitter in (record x { emitter = r.0 }, sent r.1)

  -- A call that takes new identifiers, at most two, of those that `NewID` makes.
  abbrev pub calls_new : (ℕ → String) → (String → String → Call) → Step (Feed D S)
  calls_new ids c x =
      calls (c (ids x.made) (ids (suc x.made))) (record x { made = suc (suc x.made) })
