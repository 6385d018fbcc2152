-- ===== src/Sandbox/Turns.antt =====
-- What the tool loop of an agent promises.
use evalai.Base.{
  if◌then◌else◌, ℕ, zero, suc, ◌+◌, ◌≤◌, String, Bool, true, false, Option, none, List, [], ◌∷◌,
  ◌++◌, ◌≡◌, refl, ap, arith, ◌⊎◌, inl, inr, length,
}
use evalai.Base.Json.{Json, Fields}
use evalai.Retry.{range_from}
use evalai.Sandbox.{Contract, Sandbox, new_sandbox}
use evalai.Sandbox.Safety.{IsSound, call-IsSound, new-IsSound}
use evalai.Sandbox.Agent.{
  ToolUse, Message, Turn, Ending, text_or, use_tools, agent_loop, execute_agent,
}

-- The turns ran out while the target still asked for tools.
abbrev pub is_truncated : Ending → Bool
is_truncated (Ending.finished text truncated) = truncated
is_truncated (Ending.broken status error) = false

module _ (schema_errors : Fields → Fields → List String) (same : Json → Json → Bool)
    (show : Json → String) where
  use_tools-IsSound :
      (us : List ToolUse) (s : Sandbox) (messages : List Message)
      → IsSound schema_errors same show s
      → IsSound schema_errors same show (use_tools schema_errors same show us (s, messages)).0
  unfolding use_tools
  use_tools-IsSound [] s messages v = v
  use_tools-IsSound (u ∷ us) s messages v =
      use_tools-IsSound us _ _ (call-IsSound schema_errors same show u.tool u.arguments u.id s v)

  module _ (target : ℕ → List Message → Turn) where
    Turn-cases :
        (t : Turn)
        → ((status : String) × (error : Option Fields) × (t ≡ Turn.failed status error))
          ⊎ (((text : Option String) × (t ≡ Turn.answered text []))
              ⊎ ((text : Option String) × (u : ToolUse) × (us : List ToolUse) × (t
                    ≡ Turn.answered text (u ∷ us))))
    Turn-cases (Turn.failed status error) = inl (status, error, refl)
    Turn-cases (Turn.answered text []) = inr (inl (text, refl))
    Turn-cases (Turn.answered text (u ∷ us)) = inr (inr (text, u, us, refl))

    loop-IsSound :
        (left turn : ℕ) (text : Option String) (s : Sandbox) (messages : List Message)
        → IsSound schema_errors same show s
        → IsSound schema_errors same show
            (agent_loop schema_errors same show target left turn text s messages).sandbox
    unfolding agent_loop
    loop-IsSound zero turn text s messages v = v
    loop-IsSound (suc left) turn text s messages v = elim (Turn-cases (target turn messages)) [
      | inl (status, error, e) ↦ rw (e, agent_loop) v
      | inr (inl (text', e)) ↦ rw (e, agent_loop) v
      | inr (inr (text', u, us, e)) ↦
          rw (e, agent_loop)
            (loop-IsSound left (turn + 1) text' _ _ (use_tools-IsSound (u ∷ us) s _ v))
    ]

    -- Whatever the target answers, the effects that an agent's run shows are those of its calls, and each
    -- call is refused without an effect or performs the declared effects of a declared tool, whose schema
    -- accepts the arguments, and which the arguments confirm if it asks for that.
    pub execute_agent-IsSound :
        (contracts : List Contract) (messages : List Message) (max_turns : ℕ)
        → IsSound schema_errors same show
            (execute_agent schema_errors same show target contracts messages max_turns).sandbox
    unfolding execute_agent
    execute_agent-IsSound contracts messages max_turns =
        loop-IsSound max_turns 0 none (new_sandbox contracts) messages
          (new-IsSound schema_errors same show contracts)

    used_up :
        (b : Bool) (n left : ℕ)
        → (if b then n else left) ≡ left
        → (if b then suc n else suc left) ≡ suc left
    used_up true n left h = ap suc h
    used_up false n left h = refl

    loop-turns :
        (left turn : ℕ) (text : Option String) (s : Sandbox) (messages : List Message)
        → let r = agent_loop schema_errors same show target left turn text s messages in
          (length r.turns ≤ left)
          × (r.turns ≡ range_from turn (length r.turns))
          × ((if is_truncated r.ending then length r.turns else left) ≡ left)
    unfolding agent_loop
    loop-turns zero turn text s messages = (omega arith, refl, refl)
    loop-turns (suc left) turn text s messages = elim (Turn-cases (target turn messages)) [
      | inl (status, error, e) ↦ rw (e, agent_loop) (omega arith, refl, refl)
      | inr (inl (text', e)) ↦ rw (e, agent_loop) (omega arith, refl, refl)
      | inr (inr (text', u, us, e)) ↦
          let state =
            use_tools schema_errors same show (u ∷ us)
              (s, messages ++ Message.assistant (text_or text') (u ∷ us) ∷ []) in
          let (few, order, all_used) = loop-turns left (turn + 1) text' state.0 state.1 in
          rw (e, agent_loop)
            (
              omega (arith, few),
              ap (λ l. turn ∷ l) order,
              used_up
                  (is_truncated
                    (agent_loop schema_errors same show target left (turn + 1) text' state.0
                      state.1).ending)
                  _ left all_used,
            )
    ]

    -- The target is called for the turns 0, 1, and so on, at most `max_turns` of them, and a run is marked
    -- as truncated only if it used them all.
    pub execute_agent-turns :
        (contracts : List Contract) (messages : List Message) (max_turns : ℕ)
        → let r = execute_agent schema_errors same show target contracts messages max_turns in
          (length r.turns ≤ max_turns)
          × (r.turns ≡ range_from 0 (length r.turns))
          × ((if is_truncated r.ending then length r.turns else max_turns) ≡ max_turns)
    unfolding execute_agent
    execute_agent-turns contracts messages max_turns =
        loop-turns max_turns 0 none (new_sandbox contracts) messages
