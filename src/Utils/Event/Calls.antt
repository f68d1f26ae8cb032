-- ===== src/Utils/Event/Calls.antt =====
-- Which callbacks an event calls.
use zero_lan_com.Base.{ℕ, List, [], ◌∷◌, ◌++◌, ◌≡◌, refl, ap, sym, ◌∙◌}
use mathlib.Core.List.{append_assoc, append-nil}
use zero_lan_com.Base.Result.{Result, ok, err}
use zero_lan_com.Utils.Event.{Event, call_each, trigger}

module _ {W A : Type 0}
    (call : ℕ → A → Event (List ℕ × W) → Result (Unit {0}) × Event (List ℕ × W)) where
  -- The state has the log of the calls, to which each callback adds itself and nothing else.
  abbrev pub IsLogging : Type 0
  IsLogging =
      (c : ℕ) (args : A) (e : Event (List ℕ × W)) → (call c args e).1.state.0 ≡ e.state.0 ++ c ∷ []

  -- These callbacks were called one after another, and none of them threw.
  abbrev pub AllReturned : List ℕ → A → Event (List ℕ × W) → Event (List ℕ × W) → Type 0
  AllReturned [] args e e' = e ≡ e'
  AllReturned (c ∷ cs) args e e' =
      (next : Event (List ℕ × W)) × (call c args e ≡ (ok tt, next)) × AllReturned cs args next e'

  -- What the calls of these callbacks come to: all were called and returned; or those up to the first
  -- that threw, whose exception is the result.
  abbrev pub Called :
      List ℕ → A → Event (List ℕ × W) → Result (Unit {0}) × Event (List ℕ × W) → Type 0
  Called cs args e (ok done, e') = AllReturned cs args e e' × (e'.state.0 ≡ e.state.0 ++ cs)
  Called cs args e (err thrown, e') =
      (before : List ℕ) × (c : ℕ) × (after : List ℕ) × (cs ≡ before ++ c ∷ after)
      × ((v : Event (List ℕ × W)) × AllReturned before args e v
          × (call c args v ≡ (err thrown, e')))
      × (e'.state.0 ≡ e.state.0 ++ (before ++ c ∷ []))

  module _ (args : A) where
    Called-cons :
        (c : ℕ) (cs : List ℕ) (e e' : Event (List ℕ × W))
        (r : Result (Unit {0}) × Event (List ℕ × W))
        → call c args e ≡ (ok tt, e')
        → e'.state.0 ≡ e.state.0 ++ c ∷ []
        → Called cs args e' r
        → Called (c ∷ cs) args e r
    Called-cons c cs e e' (ok done, e'') returned first h = (
      (e', returned, h.0),
      h.1 ∙ ap (λ log. log ++ cs) first ∙ append_assoc e.state.0 (c ∷ []) cs,
    )
    Called-cons c cs e e' (err thrown, e'') returned first
          (before, d, after, split, (v, quiet, threw), log) =
        (
          c ∷ before,
          d,
          after,
          ap (◌∷◌ c) split,
          (v, (e', returned, quiet), threw),
          log
              ∙ ap (λ l. l ++ (before ++ d ∷ [])) first
              ∙ append_assoc e.state.0 (c ∷ []) (before ++ d ∷ []),
        )

    -- The first call, and what its outcome calls for.
    Called-first :
        (c : ℕ) (cs : List ℕ) (e : Event (List ℕ × W))
        (rest : Event (List ℕ × W) → Result (Unit {0}) × Event (List ℕ × W))
        (r : Result (Unit {0}) × Event (List ℕ × W))
        → call c args e ≡ r
        → ((e' : Event (List ℕ × W)) → Called cs args e' (rest e'))
        → r.1.state.0 ≡ e.state.0 ++ c ∷ []
        → Called (c ∷ cs) args e (elim r.0 [ ok done ↦ rest r.1 | err thrown ↦ (err thrown, r.1) ])
    Called-first c cs e rest (ok done, e') outcome later h =
        Called-cons c cs e e' (rest e') outcome h (later e')
    Called-first c cs e rest (err thrown, e') outcome later h =
        ([], c, cs, refl, (e, refl, outcome), h)

  module _ (logging : IsLogging) where
    call_each-Called :
        (cs : List ℕ) (args : A) (e : Event (List ℕ × W))
        → Called cs args e (call_each call cs args e)
    unfolding call_each
    call_each-Called [] args e = (refl, sym (append-nil e.state.0))
    call_each-Called (c ∷ cs) args e =
        Called-first args c cs e (call_each call cs args) (call c args e) refl
          (call_each-Called cs args) (logging c args e)

    -- An event calls the callbacks that had subscribed when it was triggered, each once and in the
    -- order of subscription, whatever the callbacks do to the event meanwhile. It returns when all of
    -- them have returned; the first that throws is the last that is called, and what it throws is
    -- thrown by the event. Each callback logs its call.
    pub trigger-Called :
        (args : A) (e : Event (List ℕ × W)) → Called e.callbacks args e (trigger call args e)
    unfolding trigger
    trigger-Called args e = call_each-Called e.callbacks args e
