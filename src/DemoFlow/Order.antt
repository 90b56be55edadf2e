-- ===== src/DemoFlow/Order.antt =====
-- The order of the steps of backend/src/services/demo-flow.ts: what a step refuses before its predecessor.
use nyxfinance.Common.{ℕ, String, ◌≡◌, refl, none, some, arith, or_else}
use nyxfinance.Result.{Fault, Result, err, error}
use nyxfinance.Db.Anchor.{given}
use nyxfinance.Db.Quotes.{get_latest_quote}
use nyxfinance.World.{World, Action, then_run}
use nyxfinance.World.Laws.{lift_cases, require_cases}
use nyxfinance.DemoFlow.State.{DemoState, get_stored_state}
use nyxfinance.DemoFlow.Setting.{Setting, profile_of}
use nyxfinance.DemoFlow.Fixtures.{resolve_facility}
use nyxfinance.DemoFlow.Drawing.{
  StepInput, StepContext, DrawDemoResult, step_context, account_of, draw_demo_credit,
  public_inputs_of,
}
use nyxfinance.DemoFlow.Repaying.{RepayDemoResult, repay_demo_credit}
use nyxfinance.DemoFlow.History.{
  HistoryInput, HistoryFresh, HistoryResult, prove_demo_repayment_history,
}

-- The step throws, makes no call and changes nothing.
abbrev pub Refused : {R : Type 0} → World → World × Result R → Type 0
Refused w q = (e : Fault) × (q ≡ (w, err e))

-- The looking up either fails and changes nothing, or yields the position that is given or stored.
step_context_cases :
    {R : Type 0} (P : World × Result R → Type 0) (s : Setting) (e : Fault) (current : DemoState)
    (input : StepInput) (f : StepContext → Action R) (w : World)
    → ((x : Fault) → P (w, err x))
    → ((context : StepContext)
        → given (or_else input.position_id current.position_id) ≡ some context.position_id
        → P (f context w))
    → P (then_run (step_context s e current input w) f)
unfolding step_context
step_context_cases P s e current input f w no' yes' =
    lift_cases Q
      (profile_of s (or_else input.profile current.profile_id) (account_of current.quote)) _ w
      (λ x _. no' x)
      λ profile _.
        require_cases Q (given (or_else input.position_id current.position_id)) _ _ w (λ _. no' _)
          λ position_id found.
            require_cases Q (or_else current.quote (get_latest_quote w.db)) _ _ w (λ _. no' _)
              λ quote _.
                lift_cases Q (resolve_facility s.config) _ w (λ x _. no' x)
                  λ facility _. yes' _ found
  where
    Q : World × Result StepContext → Type 0
    Q q = P (then_run q f)

module _ (s : Setting) (now : ℕ) (w : World) where
  pub draw-Refused :
      (fresh : String) (input : StepInput)
      → public_inputs_of (get_stored_state now w.db).proof ≡ none
      → Refused w (draw_demo_credit s fresh now input w)
  unfolding draw_demo_credit
  draw-Refused fresh input no_proof =
      step_context_cases P s (error "No quote found for demo draw") (get_stored_state now w.db)
        input _ w (λ x. (x, refl))
        λ context _.
          require_cases P (given (public_inputs_of (get_stored_state now w.db).proof)) _ _ w
            (λ _. (_, refl)) λ public_inputs found. absurd (ground (arith, no_proof, found))
    where
      P : World × Result DrawDemoResult → Type 0
      P = Refused w

  pub repay-Refused :
      (fresh : String) (input : StepInput)
      → input.position_id ≡ none
      → (get_stored_state now w.db).position_id ≡ none
      → Refused w (repay_demo_credit s fresh now input w)
  unfolding repay_demo_credit
  repay-Refused fresh input not_given none_stored =
      step_context_cases P s (error "No quote found for demo repayment") (get_stored_state now w.db)
        input _ w (λ x. (x, refl))
        λ context found. absurd (ground (arith, not_given, none_stored, found))
    where
      P : World × Result RepayDemoResult → Type 0
      P = Refused w

  pub prove-Refused :
      (fresh : HistoryFresh) (input : HistoryInput)
      → (get_stored_state now w.db).repaid ≡ none
      → Refused w (prove_demo_repayment_history s fresh now input w)
  unfolding prove_demo_repayment_history
  prove-Refused fresh input not_repaid =
      require_cases P (given (or_else input.position_id (get_stored_state now w.db).position_id)) _
        _ w (λ _. (_, refl))
        λ position_id _.
          require_cases P (get_stored_state now w.db).repaid _ _ w (λ _. (_, refl))
            λ repaid found. absurd (ground (arith, not_repaid, found))
    where
      P : World × Result HistoryResult → Type 0
      P = Refused w
