-- ===== src/Mcp/Calls/Gate.antt =====
-- When a tool's handler runs, and with which client (`ServerToolToGoSdkTool` of pkg/mcp/gosdk.go).
use kube_mcp_server.Base.{
  String, ◌⊎◌, inl, inr, Option, none, some, ◌≡◌, refl, sym, ap, ◌∙◌, subst, arith, Option-cases,
}
use mathlib.Core.List.{Memᴰ}
use kube_mcp_server.Confirmation.{
  ConfirmationRule, CheckError, ElicitReply, merge_matched_rules, match_tool_level_rules,
}
use kube_mcp_server.Confirmation.Matching.{AppliesToTool}
use kube_mcp_server.Confirmation.Gate.{LetsThrough, check_tool_rules_gate}
use kube_mcp_server.Mcp.{Tool}
use kube_mcp_server.Mcp.Calls.{
  ToolCallRequest, RequestParams, CallError, to_tool_call_request, get_string, new_text_result,
  confirmation_text, Surroundings, ToolHandlerParams, Handler, session_elicit, Outcome, finish,
  run_handler, after_confirmation, call_of, confirm, with_request, tool_handler,
}

module _ {J X K W : Type 0} (env : Surroundings J X K W) where
  -- The call is let through to its tool: its parameters decode, the confirmation lets it pass, and the
  -- provider has a client for the target that the arguments name, or for the default target.
  pub record IsCleared (tool : Tool) (ctx : X) (params : RequestParams) (w : W)
      (given : ToolHandlerParams J X K) (asked : W) : Type 0 where
    pub request : ToolCallRequest J
    pub confirmed : W
    pub client : K
    pub decoded : to_tool_call_request env.unmarshal params ≡ inr request
    pub passed : confirm env tool ctx w ≡ (none, confirmed)
    pub derived :
        env.get_derived_kubernetes ctx
          (get_string request (env.target_parameter_name confirmed) (env.default_target confirmed))
          confirmed
        ≡ (inr client, asked)
    pub handed : given ≡ record { ctx = ctx; client = client; request = request }

  -- A call that is not let through ends in an error of the protocol, or in the refusal of the
  -- confirmation as a result that is an error.
  abbrev pub Stopped : Outcome env → Type 0
  Stopped r =
      ((e : CallError) × (r.0 ≡ inl e))
      ⊎ ((e : CheckError) × (r.0 ≡ inr (new_text_result "" (some (confirmation_text e)))))

  -- What a call ends in, as a function of the tool's handler: the call is cleared and the handler runs,
  -- or it is not cleared and the handler does not run.
  abbrev pub Gated : Tool → X → RequestParams → W → (Handler J X K W → Outcome env) → Type 0
  Gated tool ctx params w run =
      ((given : ToolHandlerParams J X K) × (asked : W) × IsCleared tool ctx params w given asked
        × ((handler : Handler J X K W) → run handler ≡ finish env (handler given asked)))
      ⊎ ((r : Outcome env) × Stopped r
          × ((given : ToolHandlerParams J X K) (asked : W)
              → ¬ IsCleared tool ctx params w given asked)
          × ((handler : Handler J X K W) → run handler ≡ r))

  run_handler-Gated :
      (tool : Tool) (ctx : X) (params : RequestParams) (w w' : W) (request : ToolCallRequest J)
      (made : (String ⊎ K) × W)
      → to_tool_call_request env.unmarshal params ≡ inr request
      → confirm env tool ctx w ≡ (none, w')
      → env.get_derived_kubernetes ctx
          (get_string request (env.target_parameter_name w') (env.default_target w'))
          w'
        ≡ made
      → Gated tool ctx params w (λ handler. run_handler env handler ctx request made)
  run_handler-Gated tool ctx params w w' request (inl e, w2) decoded passed derived = inr (
    (inl (CallError.failed_with e), w2),
    inl (CallError.failed_with e, refl),
    (λ given asked h. unserved given asked h),
    λ handler. refl,
  )
    where
      unserved :
          (given : ToolHandlerParams J X K) (asked : W) → ¬ IsCleared tool ctx params w given asked
      unserved given asked h =
          let same : request ≡ h.request = cc (decoded, h.decoded) in
          let behind : w' ≡ h.confirmed = ap (λ v. v.1) (sym passed ∙ h.passed) in
          let answer : env.get_derived_kubernetes ctx
                (get_string request (env.target_parameter_name w') (env.default_target w')) w'
              ≡ (inr h.client, asked) =
            rw (same, behind) h.derived in
          ground (arith, ap (λ v. v.0) (sym derived ∙ answer))
  run_handler-Gated tool ctx params w w' request (inr client, w2) decoded passed derived = inl (
    record { ctx = ctx; client = client; request = request },
    w2,
    record {
      request = request;
      confirmed = w';
      client = client;
      decoded = decoded;
      passed = passed;
      derived = derived;
      handed = refl;
    },
    λ handler. refl,
  )

  after_confirmation-Gated :
      (tool : Tool) (ctx : X) (params : RequestParams) (w : W) (request : ToolCallRequest J)
      (verdict : Option CheckError × W)
      → to_tool_call_request env.unmarshal params ≡ inr request
      → confirm env tool ctx w ≡ verdict
      → Gated tool ctx params w (λ handler. after_confirmation env handler ctx request verdict)
  after_confirmation-Gated tool ctx params w request (some e, w') decoded passed = inr (
    (inr (new_text_result "" (some (confirmation_text e))), w'),
    inr (e, refl),
    (λ given asked h. ground (arith, ap (λ v. v.0) (sym h.passed ∙ passed))),
    λ handler. refl,
  )
  after_confirmation-Gated tool ctx params w request (none, w') decoded passed =
      run_handler-Gated tool ctx params w w' request
        (env.get_derived_kubernetes ctx
          (get_string request (env.target_parameter_name w') (env.default_target w')) w')
        decoded passed refl

  with_request-Gated :
      (tool : Tool) (ctx : X) (params : RequestParams) (w : W)
      (decoded : CallError ⊎ ToolCallRequest J)
      → to_tool_call_request env.unmarshal params ≡ decoded
      → Gated tool ctx params w (λ handler. with_request env tool handler ctx decoded w)
  with_request-Gated tool ctx params w (inl e) decoded = inr (
    (inl e, w),
    inl (e, refl),
    (λ given asked h. ground (arith, sym decoded ∙ h.decoded)),
    λ handler. refl,
  )
  with_request-Gated tool ctx params w (inr request) decoded =
      after_confirmation-Gated tool ctx params w request (confirm env tool ctx w) decoded refl

  -- A tool's handler runs exactly for a call that is cleared: one whose parameters decode, that the
  -- confirmation lets pass, and for whose target (the argument under the provider's parameter name, or
  -- the default target) the provider has a client. It is handed that client and the decoded request
  -- and its outcome is the call's. A call that is not cleared ends in the same error whatever the
  -- handler is.
  pub tool_handler-Gated :
      (tool : Tool) (ctx : X) (params : RequestParams) (w : W)
      → Gated tool ctx params w (λ handler. tool_handler env tool handler ctx params w)
  unfolding tool_handler
  tool_handler-Gated tool ctx params w =
      with_request-Gated tool ctx params w (to_tool_call_request env.unmarshal params) refl

  -- A destructive call that the user declines never reaches the cluster: where a rule applies to the
  -- tool and the reply to the merged prompt does not let the call through, the call's result is the
  -- refusal, in the world behind the prompt, with no client derived, whatever the handler is.
  pub declined_call-stops :
      (tool : Tool) (handler : Handler J X K W) (ctx : X) (params : RequestParams) (w : W)
      (request : ToolCallRequest J) (r : ConfirmationRule) (asked : ElicitReply × W)
      → to_tool_call_request env.unmarshal params ≡ inr request
      → Memᴰ r (env.rules w)
      → AppliesToTool r (call_of env tool)
      → session_elicit env ctx
          (merge_matched_rules
            (match_tool_level_rules (env.rules w) (call_of env tool))
            (env.fallback w)).0
          w
        ≡ asked
      → ¬ LetsThrough (env.fallback w) asked.0
      → (e : CheckError) × (tool_handler env tool handler ctx params w
          ≡ (inr (new_text_result "" (some (confirmation_text e))), asked.1))
  unfolding tool_handler
  declined_call-stops tool handler ctx params w request r asked decoded listed applies prompted
        declined =
      let gate =
        (check_tool_rules_gate (session_elicit env ctx) (env.fallback w) w (env.rules w)
            (call_of env tool)).1
          r listed applies in
      elim (Option-cases (confirm env tool ctx w).0) [
        | inl free ↦
            absurd
              (declined (subst (λ a. LetsThrough (env.fallback w) a.0) prompted (gate.1.0 free)))
        | inr (e, refused) ↦ (
          e,
          rw decoded (
              declined_outcome (confirm env tool ctx w) e refused
                (gate.0 ∙ ap (λ a. a.1) prompted)),
        )
      ]
    where
      declined_outcome :
          (verdict : Option CheckError × W) (e : CheckError)
          → verdict.0 ≡ some e
          → verdict.1 ≡ asked.1
          → after_confirmation env handler ctx request verdict
            ≡ (inr (new_text_result "" (some (confirmation_text e))), asked.1)
      declined_outcome (none, w') e refused behind = ground (arith, refused)
      declined_outcome (some x, w') e refused behind = cc (refused, behind)
