-- ===== src/Summaries/Confirmed.antt =====
-- The bucket's signals in the key events that are stored.
use panoptic.Common.{
  ◌≡◌, refl, sym, ap, ◌∙◌, Bool, true, not, ◌&&◌, List, [], ◌∷◌, ◌++◌, every, ◌||◌, Bool-cases, inl,
  inr, arith,
}
use mathlib.Core.List.{append_assoc}
use panoptic.Float.{Float}
use panoptic.Jobs.Model.{Text}
use panoptic.Auth.Laws.{text_eq_refl}
use panoptic.Signals.{MarkerKey}
use panoptic.Summaries.{KeyEvent, labelled}
use panoptic.Summaries.Llm.{
  Signal, signals, has_family, has_label, inject_event, inject_events, injected, LlmSummaryOutput,
}

-- A signal is among the events, if its family is among the bucket's markers.
abbrev pub is_confirmed : List MarkerKey → List KeyEvent → Signal → Bool
is_confirmed markers events s = not (has_family s.family markers) || has_label s.label events

confirmed :
    (markers : List MarkerKey) (events : List KeyEvent) (s : Signal)
    → (has_family s.family markers ≡ true → has_label s.label events ≡ true)
    → is_confirmed markers events s ≡ true
confirmed markers events s h = elim (Bool-cases (has_family s.family markers)) [
  | inl e ↦ rw (e, h e) refl
  | inr e ↦ rw e refl
]

module _ (markers : List MarkerKey) (existing : List KeyEvent) where
  inject_event_keeps :
      (s : Signal) (l : Text) (events : List KeyEvent)
      → has_label l events ≡ true
      → has_label l (inject_event markers existing s events) ≡ true
  unfolding inject_event has_label
  inject_event_keeps s l events h = ground arith

  inject_events_keep :
      (ss : List Signal) (l : Text) (events : List KeyEvent)
      → has_label l events ≡ true
      → has_label l (inject_events markers existing ss events) ≡ true
  unfolding inject_events
  inject_events_keep [] l events h = h
  inject_events_keep (s ∷ ss) l events h =
      inject_events_keep ss l (inject_event markers existing s events)
        (inject_event_keeps s l events h)

  inject_event_own :
      (s : Signal) (events : List KeyEvent)
      → (has_label s.label existing ≡ true → has_label s.label events ≡ true)
      → has_family s.family markers ≡ true
      → has_label s.label (inject_event markers existing s events) ≡ true
  unfolding inject_event
  inject_event_own s events old h = elim (Bool-cases (has_label s.label existing)) [
    | inl e ↦ rw (h, e) (old e)
    | inr e ↦ rw (h, e) (unfold has_label in (rw (text_eq_refl s.label) refl))
  ]

  inject_events-Confirms :
      (ss : List Signal) (events : List KeyEvent)
      → ((l : Text) → has_label l existing ≡ true → has_label l events ≡ true)
      → every (is_confirmed markers (inject_events markers existing ss events)) ss ≡ true
  unfolding inject_events
  inject_events-Confirms [] events old = refl
  inject_events-Confirms (s ∷ ss) events old =
      let next = inject_event markers existing s events in
      let own =
        confirmed markers (inject_events markers existing ss next) s
          (λ h. inject_events_keep ss s.label next (inject_event_own s events (old s.label) h)) in
      rw own (inject_events-Confirms ss next (λ l h. inject_event_keeps s l events (old l h)))

  inject_event-suffix :
      (s : Signal) (events : List KeyEvent)
      → (added : List KeyEvent) × (inject_event markers existing s events ≡ added ++ events)
  unfolding inject_event
  inject_event-suffix s events =
      elim (Bool-cases (has_family s.family markers && not (has_label s.label existing))) [
        | inl e ↦ (labelled s.label ∷ [], rw e refl)
        | inr e ↦ ([], rw e refl)
      ]

  inject_events-suffix :
      (ss : List Signal) (events : List KeyEvent)
      → (added : List KeyEvent) × (inject_events markers existing ss events ≡ added ++ events)
  unfolding inject_events
  inject_events-suffix [] events = ([], refl)
  inject_events-suffix (s ∷ ss) events =
      let (one, e) = inject_event-suffix s events in
      let (more, es) = inject_events-suffix ss (inject_event markers existing s events) in
      (more ++ one, es ∙ ap (λ l. more ++ l) e ∙ sym (append_assoc more one events))

module _ (F : Float) (lower : Text → Text) (markers : List MarkerKey)
    (out : LlmSummaryOutput F) where
  -- Every signal whose family is among the bucket's markers has its label among the key events that are
  -- stored, whatever the model answered; the model's own events follow the added ones, in their order,
  -- and the confidence stays the model's.
  pub injected-Confirms :
      (every (is_confirmed markers (injected F lower markers out).key_events) signals ≡ true)
      × ((added : List KeyEvent) × ((injected F lower markers out).key_events
            ≡ added ++ out.key_events))
      × ((injected F lower markers out).confidence ≡ out.confidence)
  unfolding injected
  injected-Confirms = (
    inject_events-Confirms markers out.key_events signals out.key_events (λ l h. h),
    inject_events-suffix markers out.key_events signals out.key_events,
    refl,
  )
