-- ===== src/Events/Rows.antt =====
-- What the INSERT keeps of the table of events.
use panoptic.Common.{
  ℕ, ◌≡◌, refl, Bool, true, false, ◌||◌, List, [], ◌∷◌, ◌++◌, any, ◌==◌, ==_refl, Bool-cases, All,
  inl, inr,
}
use panoptic.Float.{Float}
use panoptic.Events.{EventRow, insert_event, insert_events}

module _ (F : Float) where
  -- Some event has the id.
  abbrev pub has_event : ℕ → List (EventRow F) → Bool
  has_event k = any (λ e. e.event_id == k)

  -- No two events have one id.
  abbrev pub IsUnique : List (EventRow F) → Type 0
  IsUnique [] = Unit
  IsUnique (e ∷ es) = (has_event e.event_id es ≡ false) × IsUnique es

  has_event-append :
      (k : ℕ) (xs ys : List (EventRow F))
      → has_event k (xs ++ ys) ≡ (has_event k xs || has_event k ys)
  has_event-append k [] ys = refl
  has_event-append k (x ∷ xs) ys = elim (Bool-cases (x.event_id == k)) [
    | inl e ↦ rw e refl
    | inr e ↦ rw e (has_event-append k xs ys)
  ]

  -- An insert keeps the ids that are there, and its own is there after it.
  pub insert_event-has_event :
      (k : ℕ) (row : EventRow F) (es : List (EventRow F))
      → has_event k es ≡ true
      → has_event k (insert_event F row es) ≡ true
  unfolding insert_event
  insert_event-has_event k row es h = elim (Bool-cases (has_event row.event_id es)) [
    | inl e ↦ rw e h
    | inr e ↦ rw (e, has_event-append k es (row ∷ []), h) refl
  ]

  pub insert_event-own :
      (row : EventRow F) (es : List (EventRow F))
      → has_event row.event_id (insert_event F row es) ≡ true
  unfolding insert_event
  insert_event-own row es = elim (Bool-cases (has_event row.event_id es)) [
    | inl e ↦ rw e e
    | inr e ↦ rw (e, has_event-append row.event_id es (row ∷ []), ==_refl row.event_id) (rw e refl)
  ]

  pub insert_events-has_event :
      (k : ℕ) (rows es : List (EventRow F))
      → has_event k es ≡ true
      → has_event k (insert_events F rows es) ≡ true
  unfolding insert_events
  insert_events-has_event k [] es h = h
  insert_events-has_event k (row ∷ rows) es h =
      insert_events-has_event k rows (insert_event F row es) (insert_event-has_event k row es h)

  -- After the inserts every row's id is there.
  pub insert_events-own :
      (rows es : List (EventRow F))
      → All (λ r. has_event r.event_id (insert_events F rows es) ≡ true) rows
  unfolding insert_events
  insert_events-own [] es = tt
  insert_events-own (row ∷ rows) es = (
    insert_events-has_event row.event_id rows _ (insert_event-own row es),
    insert_events-own rows (insert_event F row es),
  )

  pub insert_present :
      (row : EventRow F) (es : List (EventRow F))
      → has_event row.event_id es ≡ true
      → insert_event F row es ≡ es
  unfolding insert_event
  insert_present row es h = rw h refl

  -- Inserting rows whose ids are there changes nothing.
  pub insert_events_present :
      (rows es : List (EventRow F))
      → All (λ r. has_event r.event_id es ≡ true) rows
      → insert_events F rows es ≡ es
  unfolding insert_events
  insert_events_present [] es h = refl
  insert_events_present (row ∷ rows) es h =
      rw (insert_present row es h.0) (insert_events_present rows es h.1)
