-- ===== src/DemoFlow/Laws/Proofs.antt =====
-- The two steps of backend/src/services/demo-flow.ts that wait for a proof, and the stored state; and all four steps
-- together.
use nyxfinance.Common.{
  ℕ, suc, String, ◌≡◌, refl, ◌∙◌, inl, inr, false, not, Option, none, some, List, [], ◌∷◌,
  Bool-cases, or_else, get_or,
}
use nyxfinance.Result.{Result, ok}
use nyxfinance.Db.{Quote, ProofJob}
use nyxfinance.Db.Anchor.{given}
use nyxfinance.World.{World, Action, Tx}
use nyxfinance.World.Laws.{lift_cases, require_cases, throw_if_cases}
use nyxfinance.Json.{Json}
use nyxfinance.ProofJobs.{create_proof_job}
use nyxfinance.CreditLine.{OpenCreditInput, open_credit_line}
use nyxfinance.Repayments.{
  HistoryProof, seed_repayment_leaf, set_repayment_history_root, verify_repayment_history,
}
use nyxfinance.DemoFlow.State.{DemoState, HistoryRef, get_stored_state}
use nyxfinance.DemoFlow.Profile.{DemoAnchorProfile, normalize_profile_id}
use nyxfinance.DemoFlow.Fixtures.{
  CollateralFixture, HistoryFixture, FixtureLeaf, create_collateral_fixture,
  create_repayment_history_fixture, joined, public_inputs_from_fixture, resolve_quote,
  resolve_anchor_transaction_id,
}
use nyxfinance.DemoFlow.Setting.{Setting, profile_of, on_db, changing_db}
use nyxfinance.DemoFlow.Jobs.{run_target_proof_job}
use nyxfinance.DemoFlow.Opening.{
  OpenDemoInput, OpenFresh, OpenDemoResult, collateral_payload, differs, result_text, is_text,
  open_input, opened_state, prove_collateral, open_position, open_demo_credit,
}
use nyxfinance.DemoFlow.Drawing.{StepInput, draw_demo_credit}
use nyxfinance.DemoFlow.Repaying.{repay_demo_credit}
use nyxfinance.DemoFlow.History.{
  HistoryInput, HistoryFresh, HistoryResult, seed_leaves, leaf_input, history_payload, three_leaves,
  history_ref, prove_leaves, verify_and_store, prove_history, unless_verified,
  prove_demo_repayment_history,
}
use nyxfinance.DemoFlow.Frames.{Keeps, here, keeps-then, keeps_here}
use nyxfinance.DemoFlow.Frames.Credit.{keeps-open_credit_line}
use nyxfinance.DemoFlow.Frames.History.{
  keeps-seed_leaf, keeps-set_root, keeps-verify, keeps-run_target, keeps-create_job,
}
use nyxfinance.DemoFlow.Laws.{
  Tracks, Tracks-then, Tracks-put, draw_demo_credit-Tracks, repay_demo_credit-Tracks,
}

module _ (s : Setting) (fresh : OpenFresh) (now : ℕ) (input : OpenDemoInput) (w : World) where
  prove_collateral-Keeps :
      (quote : Quote) (fixture : CollateralFixture) (v : World)
      → Keeps v (prove_collateral s fresh now quote fixture v)
  unfolding prove_collateral
  prove_collateral-Keeps quote fixture v =
      throw_if_cases (Keeps v) (differs quote fixture) _ _ v (λ _. here)
        λ _.
          keeps-then
            (changing_db
              (create_proof_job fresh.job_id now "collateral_sufficiency"
                (collateral_payload quote fixture))
              v)
            _
            (keeps-create_job fresh.job_id now "collateral_sufficiency"
              (collateral_payload quote fixture) v)
            λ job u. keeps-run_target s.prover s.clock job.id u

  open_position-Tracks :
      (profile : DemoAnchorProfile) (id : Option String) (quote : Quote)
      (fixture : CollateralFixture) (proof : ProofJob) (v : World)
      → v.db.snapshots ≡ w.db.snapshots
      → Tracks (λ r. r.state) now w (open_position s fresh now profile id quote fixture proof v)
  unfolding open_position
  open_position-Tracks profile id quote fixture proof v e =
      require_cases P proof.result _ _ v (λ _. e)
        λ result _.
          throw_if_cases P (not (is_text inputs (result_text "publicInputsHex" result))) _ _ v
            (λ _. e)
            λ _.
              require_cases P profile.signer_secret_key _ _ v (λ _. e)
                λ secret _.
                  let opens : OpenCreditInput =
                    open_input fresh quote id fixture secret inputs
                      (get_or (result_text "proofHex" result) "") in
                  Tracks-then {R = OpenDemoResult} (λ r. r.state) now w
                    (open_credit_line s.chain s.config s.big_int now opens v) _
                    (record {
                      same =
                          (keeps-open_credit_line s.chain s.config s.big_int now opens v).same ∙ e;
                    })
                    λ tx u _.
                      Tracks-put (λ r. r.state) now w u
                        (opened_state s.config fresh profile id quote proof (some inputs)
                          (result_text "proofHex" result) tx (get_stored_state now u.db))
                        (λ t. record { state = t; proof_job = proof; open_tx = tx }) refl
    where
      inputs : String
      inputs = joined (public_inputs_from_fixture fixture)

      P : World × Result OpenDemoResult → Type 0
      P = Tracks (λ r. r.state) now w

  open_demo_credit-Tracks : Tracks (λ r. r.state) now w (open_demo_credit s fresh now input w)
  unfolding open_demo_credit
  open_demo_credit-Tracks =
      lift_cases P (resolve_quote input.quote_id w.db) _ w (λ _ _. refl)
        λ quote _.
          lift_cases P
            (profile_of s (or_else input.profile (get_stored_state now w.db).profile_id)
              (some quote.account))
            _ w (λ _ _. refl)
            λ profile _.
              lift_cases P
                (create_collateral_fixture s.runner fresh.lock_key fresh.position_secret
                  quote.oracle_price_e7 profile)
                _ w (λ _ _. refl)
                λ fixture _.
                  Tracks-then {R = OpenDemoResult} (λ r. r.state) now w
                    (prove_collateral s fresh now quote fixture w) _
                    (prove_collateral-Keeps quote fixture w)
                    λ proof v e.
                      open_position-Tracks profile
                        (resolve_anchor_transaction_id input.anchor_transaction_id quote w.db) quote
                        fixture proof v e
    where
      P : World × Result OpenDemoResult → Type 0
      P = Tracks (λ r. r.state) now w

module _ (s : Setting) (fresh : HistoryFresh) (now : ℕ) (input : HistoryInput) (w : World) where
  seed_leaves-Keeps :
      (position_id : String) (i : ℕ) (leaves : List FixtureLeaf) (v : World)
      → Keeps v (seed_leaves s fresh now position_id i leaves v)
  unfolding seed_leaves
  seed_leaves-Keeps position_id i [] v = keeps_here v (ok [])
  seed_leaves-Keeps position_id i (leaf ∷ leaves) v =
      keeps-then
        (seed_repayment_leaf s.chain s.config (fresh.leaf_id i) now (leaf_input position_id leaf) v)
        _ (keeps-seed_leaf s.chain s.config (fresh.leaf_id i) now (leaf_input position_id leaf) v)
        λ tx u.
          keeps-then (seed_leaves s fresh now position_id (suc i) leaves u) _
            (seed_leaves-Keeps position_id (suc i) leaves u) λ txs t. keeps_here t (ok (tx ∷ txs))

  prove_leaves-Keeps :
      (position_id : String) (fixture : HistoryFixture) (v : World)
      → Keeps v (prove_leaves s fresh now position_id fixture v)
  unfolding prove_leaves
  prove_leaves-Keeps position_id fixture v =
      lift_cases (Keeps v) (three_leaves fixture.leaves) _ v (λ _ _. here)
        λ leaves _.
          keeps-then (seed_leaves s fresh now position_id 0 fixture.leaves v) _
            (seed_leaves-Keeps position_id 0 fixture.leaves v)
            λ txs u1.
              keeps-then (set_repayment_history_root s.chain s.config position_id u1) _
                (keeps-set_root s.chain s.config position_id u1)
                λ root u2.
                  keeps-then
                    (changing_db
                      (create_proof_job fresh.job_id now "repayment_history" (payload leaves)) u2)
                    _ (keeps-create_job fresh.job_id now "repayment_history" (payload leaves) u2)
                    λ job u3.
                      keeps-then (on_db (run_target_proof_job s.prover s.clock job.id) u3) _
                        (keeps-run_target s.prover s.clock job.id u3)
                        λ proof u4. keeps_here u4 (ok (txs, proof))
    where
      payload : FixtureLeaf × FixtureLeaf × FixtureLeaf → Json
      payload leaves = history_payload fixture (leaves.0) (leaves.1) (leaves.2)

  verify_and_store-Tracks :
      (current : DemoState) (profile_id position_id : String) (fixture : HistoryFixture)
      (txs : List Tx) (proof : ProofJob) (v : World)
      → v.db.snapshots ≡ w.db.snapshots
      → Tracks
          (λ r. r.state)
          now
          w
          (verify_and_store s now current profile_id position_id fixture txs proof v)
  unfolding verify_and_store
  verify_and_store-Tracks current profile_id position_id fixture txs proof v e =
      require_cases P proof.result _ _ v (λ _. e)
        λ result _.
          throw_if_cases P
            (not (is_text fixture.public_inputs_hex (result_text "publicInputsHex" result))) _ _ v
            (λ _. e)
            λ _.
              let says : HistoryProof = record {
                position_id = position_id;
                threshold = fixture.threshold;
                proof_nullifier = fixture.hex.proof_nullifier;
                public_inputs_hex = fixture.public_inputs_hex;
                proof_hex = get_or (result_text "proofHex" result) "";
              } in
              Tracks-then {R = HistoryResult} (λ r. r.state) now w
                (verify_repayment_history s.chain s.config says v) _
                (record { same = (keeps-verify s.chain s.config says v).same ∙ e })
                λ tx u _.
                  let ref = history_ref s.config fixture proof fixture.public_inputs_hex tx in
                  Tracks-put (λ r. r.state) now w u
                    (record current {
                      profile_id = some profile_id;
                      position_id = some position_id;
                      history_proof = some ref;
                    })
                    (λ t. record {
                      state = t;
                      history_proof = ref;
                      already_verified = false;
                      seed_leaf_txs = txs;
                    })
                    refl
    where
      P : World × Result HistoryResult → Type 0
      P = Tracks (λ r. r.state) now w

  prove_history-Tracks :
      (current : DemoState) (profile_id position_id : String)
      → Tracks (λ r. r.state) now w (prove_history s fresh now current profile_id position_id w)
  unfolding prove_history
  prove_history-Tracks current profile_id position_id =
      lift_cases P (create_repayment_history_fixture s.runner fresh.proof_secret position_id) _ w
        (λ _ _. refl)
        λ fixture _.
          Tracks-then {R = HistoryResult} (λ r. r.state) now w
            (prove_leaves s fresh now position_id fixture w) _
            (prove_leaves-Keeps position_id fixture w)
            λ proved v e.
              verify_and_store-Tracks current profile_id position_id fixture (proved.0) (proved.1) v
                e
    where
      P : World × Result HistoryResult → Type 0
      P = Tracks (λ r. r.state) now w

  unless_verified-Tracks :
      (o : Option HistoryRef) (rest : Action HistoryResult)
      → Tracks (λ r. r.state) now w (rest w)
      → Tracks (λ r. r.state) now w (unless_verified (get_stored_state now w.db) o rest w)
  unless_verified-Tracks none rest h = h
  unless_verified-Tracks (some ref) rest h = elim (Bool-cases ref.verified) [
    | inl verified ↦ rw verified refl
    | inr pending ↦ rw pending h
  ]

  prove_demo-Tracks : Tracks (λ r. r.state) now w (prove_demo_repayment_history s fresh now input w)
  unfolding prove_demo_repayment_history
  prove_demo-Tracks =
      require_cases P (given (or_else input.position_id current.position_id)) _ _ w (λ _. refl)
        λ position_id _.
          require_cases P current.repaid _ _ w (λ _. refl)
            λ repaid _. unless_verified-Tracks current.history_proof _ (
              prove_history-Tracks current
                (normalize_profile_id s.env (or_else input.profile current.profile_id)) position_id)
    where
      current : DemoState
      current = get_stored_state now w.db

      P : World × Result HistoryResult → Type 0
      P = Tracks (λ r. r.state) now w

module _ (s : Setting) (now : ℕ) (w : World) where
  -- Each of the four steps of the flow, the opening, the draw, the repayment and the proof of the history,
  -- leaves the table of snapshots, and with it the stored state, as it was if it throws, wherever it does
  -- so; and where it returns, the stored state that is read back is the state that it returns.
  pub steps-Tracks :
      (of_open : OpenFresh) (of_draw of_repay : String) (of_history : HistoryFresh)
      (open_demo : OpenDemoInput) (draw_demo repay_demo : StepInput) (history : HistoryInput)
      → Tracks (λ r. r.state) now w (open_demo_credit s of_open now open_demo w)
        × Tracks (λ r. r.state) now w (draw_demo_credit s of_draw now draw_demo w)
        × Tracks (λ r. r.state) now w (repay_demo_credit s of_repay now repay_demo w)
        × Tracks (λ r. r.state) now w (prove_demo_repayment_history s of_history now history w)
  steps-Tracks of_open of_draw of_repay of_history open_demo draw_demo repay_demo history = (
    open_demo_credit-Tracks s of_open now open_demo w,
    draw_demo_credit-Tracks s of_draw now draw_demo w,
    repay_demo_credit-Tracks s of_repay now repay_demo w,
    prove_demo-Tracks s of_history now history w,
  )
