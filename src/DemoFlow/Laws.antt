-- ===== src/DemoFlow/Laws.antt =====
-- The steps of backend/src/services/demo-flow.ts and the stored state: a step stores what it returns, or leaves the state
-- as it was.
pub mod Proofs
use nyxfinance.Common.{
  ℕ, String, ◌≡◌, refl, sym, ◌∙◌, Bool, true, false, Option, none, some, or_else,
}
use nyxfinance.Result.{Fault, Result, ok, err, error}
use nyxfinance.Db.Anchor.{given}
use nyxfinance.Db.Quotes.{get_latest_quote}
use nyxfinance.World.{World, Action, then_run}
use nyxfinance.World.Laws.{lift_cases, require_cases}
use nyxfinance.Sep31.{mark_sep31_completed}
use nyxfinance.CreditLine.Transfer.{
  DrawCreditInput, RepayCreditInput, execute_draw, repay_credit_line,
}
use nyxfinance.Transfers.{merge_confidential_balance}
use nyxfinance.DemoFlow.State.{DemoState, get_stored_state, put_stored_state}
use nyxfinance.DemoFlow.State.Laws.{get-stored_state}
use nyxfinance.DemoFlow.Fixtures.{resolve_facility}
use nyxfinance.DemoFlow.Setting.{Setting, profile_of}
use nyxfinance.DemoFlow.Drawing.{
  StepInput, StepContext, DrawDemoResult, step_context, account_of, draw_input, drawn_state,
  draw_and_store, draw_demo_credit, public_inputs_of,
}
use nyxfinance.DemoFlow.Repaying.{
  RepayDemoResult, merge_before, merge_token, merge_wanted, repay_input, repaid_state,
  repay_and_store, repay_demo_credit, complete_sep31, settlement, is_zero,
}
use nyxfinance.DemoFlow.Frames.{Keeps, here, keeps-then, keeps_here, keeps-mark_completed}
use nyxfinance.DemoFlow.Frames.Credit.{keeps-execute_draw, keeps-repay_credit_line}
use nyxfinance.DemoFlow.Frames.History.{keeps-merge}

-- A step that throws leaves the snapshots as they were; after one that returns, the stored state is the one it returns.
abbrev pub Tracks : {R : Type 0} → (R → DemoState) → ℕ → World → World × Result R → Type 0
Tracks state now w (v, err e) = v.db.snapshots ≡ w.db.snapshots
Tracks state now w (v, ok r) = get_stored_state now v.db ≡ state r

module _ {A R : Type 0} (state : R → DemoState) (now : ℕ) (w : World) where
  pub Tracks-then :
      (q : World × Result A) (f : A → Action R)
      → Keeps w q
      → ((a : A) (v : World) → v.db.snapshots ≡ w.db.snapshots → Tracks state now w (f a v))
      → Tracks state now w (then_run q f)
  Tracks-then (v, ok a) f h next = next a v h.same
  Tracks-then (v, err e) f h next = h.same

-- The write of the state ends a step.
pub Tracks-put :
    {R : Type 0} (state : R → DemoState) (now : ℕ) (w v : World) (s : DemoState) (f : DemoState → R)
    → state (f (record s { updated_at = now })) ≡ record s { updated_at = now }
    → Tracks state now w (then_run (put_stored_state now s v) (λ t u. (u, ok (f t))))
unfolding put_stored_state
Tracks-put state now w v s f returned = (get-stored_state now now s v.db).0 ∙ sym returned

-- What a step looks up changes nothing.
keeps-step_context :
    (s : Setting) (e : Fault) (current : DemoState) (input : StepInput) (w : World)
    → Keeps w (step_context s e current input w)
unfolding step_context
keeps-step_context s e current input w =
    lift_cases (Keeps w)
      (profile_of s (or_else input.profile current.profile_id) (account_of current.quote)) _ w
      (λ _ _. here)
      λ profile _.
        require_cases (Keeps w) (given (or_else input.position_id current.position_id)) _ _ w
          (λ _. here)
          λ position_id _.
            require_cases (Keeps w) (or_else current.quote (get_latest_quote w.db)) _ _ w
              (λ _. here)
              λ quote _.
                lift_cases (Keeps w) (resolve_facility s.config) _ w (λ _ _. here)
                  λ facility _. here

module _ (s : Setting) (fresh : String) (now : ℕ) (input : StepInput) (w : World) where
  draw_and_store-Tracks :
      (current : DemoState) (context : StepContext) (public_inputs secret : String) (v : World)
      → v.db.snapshots ≡ w.db.snapshots
      → Tracks
          (λ r. r.state)
          now
          w
          (draw_and_store s fresh now current context public_inputs secret v)
  unfolding draw_and_store
  draw_and_store-Tracks current context public_inputs secret v e =
      Tracks-then {R = DrawDemoResult} (λ r. r.state) now w
        (execute_draw s.chain s.platform s.config fresh now draw_with v) _
        (record {
          same = (keeps-execute_draw s.chain s.platform s.config fresh now draw_with v).same ∙ e;
        })
        λ result u _.
          Tracks-put (λ r. r.state) now w u (drawn_state context public_inputs result current)
            (λ t. record { state = t; draw = result }) refl
    where
      draw_with : DrawCreditInput
      draw_with = draw_input s context public_inputs secret

  pub draw_demo_credit-Tracks : Tracks (λ r. r.state) now w (draw_demo_credit s fresh now input w)
  unfolding draw_demo_credit
  draw_demo_credit-Tracks =
      Tracks-then {R = DrawDemoResult} (λ r. r.state) now w
        (step_context s (error "No quote found for demo draw") current input w) _
        (keeps-step_context s (error "No quote found for demo draw") current input w)
        λ context v e.
          require_cases P (given (public_inputs_of current.proof)) _ _ v (λ _. e)
            λ public_inputs _.
              require_cases P (given s.config.credit_executor_secret_key) _ _ v (λ _. e)
                λ secret _. draw_and_store-Tracks current context public_inputs secret v e
    where
      current : DemoState
      current = get_stored_state now w.db

      P : World × Result DrawDemoResult → Type 0
      P = Tracks (λ r. r.state) now w

  complete-keeps : (o : Option String) (v : World) → Keeps v (complete_sep31 s now o v)
  complete-keeps none v = keeps_here v (ok tt)
  complete-keeps (some id) v =
      keeps-then (mark_sep31_completed s.config now id (settlement id) v) _
        (keeps-mark_completed s.config now id (settlement id) v) λ view u. keeps_here u (ok tt)

  merge-keeps : (secret : String) (v : World) → Keeps v (merge_before s secret v)
  unfolding merge_before
  merge-keeps secret v = by_token (given s.config.contracts.confidential_cusdc)
    where
      by_flag : (b : Bool) (token : String) → Keeps v (merge_wanted s b token secret v)
      by_flag true token = keeps_here v (ok tt)
      by_flag false token =
          keeps-then (merge_confidential_balance s.chain token secret v) _
            (keeps-merge s.chain token secret v) λ tx u. keeps_here u (ok tt)

      by_token : (o : Option String) → Keeps v (merge_token s secret o v)
      by_token none = keeps_here v (ok tt)
      by_token (some token) = by_flag (is_zero (s.env "REPAYMENT_MERGE_BEFORE_TRANSFER")) token

  repay_and_store-Tracks :
      (current : DemoState) (context : StepContext) (secret : String) (v : World)
      → v.db.snapshots ≡ w.db.snapshots
      → Tracks (λ r. r.state) now w (repay_and_store s fresh now current context secret v)
  unfolding repay_and_store
  repay_and_store-Tracks current context secret v e =
      Tracks-then {R = RepayDemoResult} (λ r. r.state) now w
        (repay_credit_line s.chain s.platform s.config fresh now repay_with v) _
        (record {
          same =
              (keeps-repay_credit_line s.chain s.platform s.config fresh now repay_with v).same ∙ e;
        })
        λ result u e'.
          Tracks-then {R = RepayDemoResult} (λ r. r.state) now w
            (complete_sep31 s now (given context.anchor_transaction_id) u) _
            (record { same = (complete-keeps (given context.anchor_transaction_id) u).same ∙ e' })
            λ _ t _.
              Tracks-put (λ r. r.state) now w t (repaid_state context result current)
                (λ x. record { state = x; repay = result }) refl
    where
      repay_with : RepayCreditInput
      repay_with = repay_input s context secret

  pub repay_demo_credit-Tracks : Tracks (λ r. r.state) now w (repay_demo_credit s fresh now input w)
  unfolding repay_demo_credit
  repay_demo_credit-Tracks =
      Tracks-then {R = RepayDemoResult} (λ r. r.state) now w
        (step_context s (error "No quote found for demo repayment") current input w) _
        (keeps-step_context s (error "No quote found for demo repayment") current input w)
        λ context v e.
          require_cases P context.profile.signer_secret_key _ _ v (λ _. e)
            λ secret _.
              Tracks-then {R = RepayDemoResult} (λ r. r.state) now w (merge_before s secret v) _
                (record { same = (merge-keeps secret v).same ∙ e })
                λ _ u e'. repay_and_store-Tracks current context secret u e'
    where
      current : DemoState
      current = get_stored_state now w.db

      P : World × Result RepayDemoResult → Type 0
      P = Tracks (λ r. r.state) now w
