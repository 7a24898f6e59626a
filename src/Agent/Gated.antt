-- ===== src/Agent/Gated.antt =====
-- What a run of the agent keeps to, whatever the model says.
use panoptic.Common.{
  ℕ, zero, suc, ◌+◌, ◌≤◌, ◌≡◌, refl, ap, Bool, true, false, not, ◌&&◌, ◌||◌, Option, none, some,
  List, [], ◌∷◌, length, length-append, All, All-append, map, Bool-cases, inl, inr, arith,
}
use panoptic.Citations.{Answer, collect_known_ids}
use panoptic.Citations.Sound.{IsSound, verify_citations-IsSound}
use panoptic.Agent.{
  Tool, is_write, is_known, Action, tool_call, answer, unknown_action, Message, Session, Backend,
  new_trace, dispatches, dispatch_one, note_failure, use_tool, act, take_turn, start_turn,
  agent_loop, run_agent,
}

module _ (B : Backend) (allow_write : Bool) where
  -- The write tool only where it is allowed.
  abbrev pub IsAllowed : Tool × ℕ → Type 0
  IsAllowed r = (not (is_write r.0) || allow_write) ≡ true

  -- The counters agree, the turns fit the iterations, and each request was allowed.
  pub record IsWithin (max_iterations : ℕ) (s : Session) : Type 0 where
    pub capped : s.trace.iterations ≤ max_iterations
    pub called : s.trace.llm_calls ≡ s.trace.iterations
    pub counted : s.trace.tool_call_count ≡ length s.trace.tool_calls
    pub spent : s.trace.tool_call_count + s.trace.parse_failures ≤ s.trace.iterations
    pub requested : length s.requests ≤ s.trace.tool_call_count
    pub allowed : All IsAllowed s.requests

  allowed_of : (a b c : Bool) → (a && (b && c)) ≡ true → c ≡ true
  allowed_of true true c h = h
  allowed_of true false c h = ground arith
  allowed_of false b c h = ground arith

  dispatch_one-IsAllowed :
      (tool : Tool) (input : ℕ) (requests : List (Tool × ℕ))
      → All IsAllowed requests
      → All IsAllowed (dispatch_one B allow_write tool input requests).1
  unfolding dispatch_one dispatches
  dispatch_one-IsAllowed tool input requests h =
      elim (Bool-cases (dispatches B allow_write tool input)) [
        | inl e ↦ rw e (
            All-append IsAllowed requests ((tool, input) ∷ []) h (
              allowed_of (is_known tool) (B.has_keys tool input)
                  (not (is_write tool) || allow_write) e,
              tt,
            ))
        | inr e ↦ rw e h
      ]

  dispatch_one-length :
      (tool : Tool) (input : ℕ) (requests : List (Tool × ℕ))
      → length (dispatch_one B allow_write tool input requests).1 ≤ length requests + 1
  unfolding dispatch_one
  dispatch_one-length tool input requests =
      elim (Bool-cases (dispatches B allow_write tool input)) [
        | inl e ↦ rw e (omega (arith, length-append requests ((tool, input) ∷ [])))
        | inr e ↦ rw e (omega arith)
      ]

  module _ (m : ℕ) where
    -- One turn that is not yet spent.
    abbrev HasTurn : Session → Type 0
    HasTurn s = s.trace.tool_call_count + s.trace.parse_failures + 1 ≤ s.trace.iterations

    start_turn-IsWithin :
        (s : Session)
        → s.trace.iterations + 1 ≤ m
        → IsWithin m s
        → IsWithin m (start_turn B allow_write s) × HasTurn (start_turn B allow_write s)
    unfolding start_turn
    start_turn-IsWithin s room w = (
      record {
        capped = room;
        called = ap (λ i. i + 1) w.called;
        counted = w.counted;
        spent = omega (arith, w.spent);
        requested = w.requested;
        allowed = w.allowed;
      },
      omega (arith, w.spent),
    )

    note_failure-IsWithin :
        (nudge : Message) (s : Session)
        → IsWithin m s
        → HasTurn s
        → IsWithin m (note_failure B allow_write nudge s)
    unfolding note_failure
    note_failure-IsWithin nudge s w room = record {
      capped = w.capped;
      called = w.called;
      counted = w.counted;
      spent = omega (arith, room);
      requested = w.requested;
      allowed = w.allowed;
    }

    use_tool-IsWithin :
        (tool : Tool) (input : ℕ) (s : Session)
        → IsWithin m s
        → HasTurn s
        → IsWithin m (use_tool B allow_write tool input s)
    unfolding use_tool
    use_tool-IsWithin tool input s w room =
        let call = (dispatch_one B allow_write tool input s.requests).0 in
        record {
          capped = w.capped;
          called = w.called;
          counted = omega (arith, w.counted, length-append s.trace.tool_calls (call ∷ []));
          spent = omega (arith, room);
          requested = omega (arith, w.requested, dispatch_one-length tool input s.requests);
          allowed = dispatch_one-IsAllowed tool input s.requests w.allowed;
        }

    module _ (i : ℕ) (turns : Session → Option Answer × Session)
        (rest : (s : Session)
          → s.trace.iterations ≡ i
          → IsWithin m s
          → IsWithin m (turns s).1) where
      act-IsWithin :
          (a : Option Action) (s : Session)
          → s.trace.iterations ≡ i
          → IsWithin m s
          → HasTurn s
          → IsWithin m (act B allow_write turns a s).1
      unfolding act note_failure use_tool
      act-IsWithin none s e w room = rest _ e (note_failure-IsWithin _ s w room)
      act-IsWithin (some (tool_call tool input)) s e w room =
          rest _ e (use_tool-IsWithin tool input s w room)
      act-IsWithin (some (answer a)) s e w room = w
      act-IsWithin (some unknown_action) s e w room = rest _ e (note_failure-IsWithin _ s w room)

      take_turn-IsWithin :
          (content : Option ℕ) (s : Session)
          → s.trace.iterations ≡ i
          → IsWithin m s
          → HasTurn s
          → IsWithin m (take_turn B allow_write turns content s).1
      unfolding take_turn
      take_turn-IsWithin none s e w room = w
      take_turn-IsWithin (some content) s e w room =
          act-IsWithin (B.parse_action content) _ e
            (record {
              capped = w.capped;
              called = w.called;
              counted = w.counted;
              spent = w.spent;
              requested = w.requested;
              allowed = w.allowed;
            })
            room

    agent_loop-IsWithin :
        (n : ℕ) (s : Session)
        → s.trace.iterations + n ≤ m
        → IsWithin m s
        → IsWithin m (agent_loop B allow_write n s).1
    unfolding agent_loop start_turn
    agent_loop-IsWithin zero s h w = w
    agent_loop-IsWithin (suc n) s h w =
        let (w', room) = start_turn-IsWithin s (omega (arith, h)) w in
        take_turn-IsWithin (s.trace.iterations + 1) (agent_loop B allow_write n)
          (λ s' e w''. agent_loop-IsWithin n s' (omega (arith, e, h)) w'') (B.generate s.messages)
          (start_turn B allow_write s) refl w' room

  -- Whatever the model answers, a run takes at most max_iterations turns, each for one call of the
  -- model and for at most one tool call or parse failure; the trace counts its tool calls; the search
  -- API gets at most one request for each, and one for the write tool only where the question allows
  -- it; and the citations are sound for the outputs that the trace holds.
  pub run_agent-IsWithin :
      (max_iterations q : ℕ)
      → let result = run_agent B allow_write max_iterations q in
        IsWithin max_iterations result.session
        × IsSound
            (collect_known_ids (map (λ c. c.output_json) result.session.trace.tool_calls) [])
            (result.citations.cited, result.citations.unverified_citations)
  unfolding run_agent new_trace
  run_agent-IsWithin max_iterations q = (
    agent_loop-IsWithin max_iterations max_iterations _ (omega arith) (record {
      capped = omega arith;
      called = refl;
      counted = refl;
      spent = omega arith;
      requested = omega arith;
      allowed = tt;
    }),
    (verify_citations-IsSound _ _).0,
  )
