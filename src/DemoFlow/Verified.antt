-- ===== src/DemoFlow/Verified.antt =====
-- `proveDemoRepaymentHistory` of backend/src/services/demo-flow.ts, asked a second time.
use mathlib.Core.Path.{subst}
use nyxfinance.Common.{
  ℕ, String, ◌≡◌, refl, sym, ap, ◌∙◌, ◌⊎◌, inl, inr, true, false, not, Option, none, some, List, [],
  ◌==◌, arith, skipped, Bool-cases, or_else, some-injective,
}
use nyxfinance.Result.{Result, ok, err}
use nyxfinance.Db.{ProofJob}
use nyxfinance.Db.Anchor.{given}
use nyxfinance.World.{World, Action, Tx}
use nyxfinance.World.Laws.{run_cases, lift_cases, require_cases, throw_if_cases}
use nyxfinance.Repayments.{verify_repayment_history}
use nyxfinance.DemoFlow.State.{DemoState, HistoryRef, RepayRef, get_stored_state, put_stored_state}
use nyxfinance.DemoFlow.State.Laws.{get-stored_state}
use nyxfinance.DemoFlow.Profile.{normalize_profile_id}
use nyxfinance.DemoFlow.Setting.{Setting}
use nyxfinance.DemoFlow.Fixtures.{HistoryFixture, create_repayment_history_fixture}
use nyxfinance.DemoFlow.Opening.{result_text, is_text}
use nyxfinance.DemoFlow.History.{
  HistoryInput, HistoryFresh, HistoryResult, history_ref, prove_leaves, verify_and_store,
  prove_history, unless_verified, prove_demo_repayment_history,
}

-- What a second request is answered with.
abbrev pub known_result : DemoState → HistoryRef → HistoryResult
known_result state ref = record {
  state = state;
  history_proof = ref;
  already_verified = true;
  seed_leaf_txs = [];
}

-- A request on a state whose proof is verified.
pub prove-known :
    (s : Setting) (fresh : HistoryFresh) (now : ℕ) (input : HistoryInput) (w : World)
    (state : DemoState) (position : String) (repay : RepayRef) (ref : HistoryRef)
    → get_stored_state now w.db ≡ state
    → given (or_else input.position_id state.position_id) ≡ some position
    → state.repaid ≡ some repay
    → state.history_proof ≡ some ref
    → ref.verified ≡ true
    → prove_demo_repayment_history s fresh now input w ≡ (w, ok (known_result state ref))
unfolding prove_demo_repayment_history
prove-known s fresh now input w state position repay ref stored named was_repaid has_proof
      verified =
    rw stored (rw named (rw was_repaid (rw has_proof (rw verified refl))))

given_again : (o : Option String) (t : String) → given o ≡ some t → given (some t) ≡ some t
given_again none t h = absurd (ground arith)
given_again (some x) t h = elim (Bool-cases (x == "")) [
  | inl empty ↦ absurd (ground (arith, h))
  | inr full ↦
      let same = some-injective (sym (skipped _ _ full) ∙ h) in
      subst (λ y. given (some y) ≡ some y) same (skipped _ _ full)
]

named_again :
    (asked old : Option String) (t : String)
    → given (or_else asked old) ≡ some t
    → given (or_else asked (some t)) ≡ some t
named_again none old t h = given_again old t h
named_again (some x) old t h = h

module _ (s : Setting) (fresh : HistoryFresh) (now : ℕ) (input : HistoryInput) (w : World) where
  -- The state that a new proof stores.
  abbrev proved : DemoState → String → String → HistoryRef → DemoState
  proved current profile position ref = record current {
    profile_id = some profile;
    position_id = some position;
    history_proof = some ref;
  }

  -- What a proof leaves, unless one was there already.
  abbrev Leaves : DemoState → String → World × Result HistoryResult → Type 0
  Leaves current position (v, err e) = Unit
  Leaves current position (v, ok r) =
      (r.already_verified ≡ true)
      ⊎ ((profile : String) × (r.history_proof.verified ≡ true)
          × ((later : ℕ)
              → get_stored_state later v.db
                ≡ record (proved current profile position r.history_proof) { updated_at = now }))

  verify_and_store-Leaves :
      (current : DemoState) (profile position : String) (fixture : HistoryFixture) (txs : List Tx)
      (proof : ProofJob) (v : World)
      → Leaves current position
          (verify_and_store s now current profile position fixture txs proof v)
  unfolding verify_and_store put_stored_state history_ref
  verify_and_store-Leaves current profile position fixture txs proof v =
      require_cases P proof.result _ _ v (λ _. tt)
        λ result _.
          throw_if_cases P
            (not (is_text fixture.public_inputs_hex (result_text "publicInputsHex" result))) _ _ v
            (λ _. tt)
            λ _.
              run_cases P (verify_repayment_history s.chain s.config _ v) _ (λ _ _ _. tt)
                λ u tx _. inr (
                  profile,
                  refl,
                  λ later.
                      (get-stored_state now later
                        (proved current profile position
                          (history_ref s.config fixture proof fixture.public_inputs_hex tx))
                        u.db).0,
                )
    where
      P : World × Result HistoryResult → Type 0
      P = Leaves current position

  prove_history-Leaves :
      (current : DemoState) (profile position : String)
      → Leaves current position (prove_history s fresh now current profile position w)
  unfolding prove_history
  prove_history-Leaves current profile position =
      lift_cases P (create_repayment_history_fixture s.runner fresh.proof_secret position) _ w
        (λ _ _. tt)
        λ fixture _.
          run_cases P (prove_leaves s fresh now position fixture w) _ (λ _ _ _. tt)
            λ v made _. verify_and_store-Leaves current profile position fixture (made.0) (made.1) v
    where
      P : World × Result HistoryResult → Type 0
      P = Leaves current position

  unless-Leaves :
      (current : DemoState) (position : String) (o : Option HistoryRef)
      (rest : Action HistoryResult)
      → Leaves current position (rest w)
      → Leaves current position (unless_verified current o rest w)
  unless-Leaves current position none rest h = h
  unless-Leaves current position (some ref) rest h = elim (Bool-cases ref.verified) [
    | inl verified ↦ rw verified (inl refl)
    | inr pending ↦ rw pending h
  ]

  -- The second request, where the first has made a proof.
  abbrev Settled : World × Result HistoryResult → Type 0
  Settled (v, err e) = Unit
  Settled (v, ok r) =
      (r.already_verified ≡ true)
      ⊎ ((fresh' : HistoryFresh) (later : ℕ)
          → prove_demo_repayment_history s fresh' later input v
            ≡ (v, ok (known_result (get_stored_state later v.db) r.history_proof)))

  settle-Leaves :
      (position : String) (repay : RepayRef) (q : World × Result HistoryResult)
      → given (or_else input.position_id (get_stored_state now w.db).position_id) ≡ some position
      → (get_stored_state now w.db).repaid ≡ some repay
      → Leaves (get_stored_state now w.db) position q
      → Settled q
  settle-Leaves position repay (v, err e) named was_repaid h = tt
  settle-Leaves position repay (v, ok r) named was_repaid (inl known) = inl known
  settle-Leaves position repay (v, ok r) named was_repaid (inr (profile, verified, reads)) =
      inr λ fresh' later.
        let state = reads later in
        prove-known s fresh' later input v (get_stored_state later v.db) position repay
          r.history_proof refl
          (ap (λ (t : DemoState). given (or_else input.position_id t.position_id)) state
            ∙ named_again input.position_id (get_stored_state now w.db).position_id position named)
          (ap (λ (t : DemoState). t.repaid) state ∙ was_repaid)
          (ap (λ (t : DemoState). t.history_proof) state) verified

  prove_demo-Settled : Settled (prove_demo_repayment_history s fresh now input w)
  unfolding prove_demo_repayment_history
  prove_demo-Settled =
      require_cases Settled (given (or_else input.position_id current.position_id)) _ _ w (λ _. tt)
        λ position named.
          require_cases Settled current.repaid _ _ w (λ _. tt)
            λ repay was_repaid. settle-Leaves position repay _ named was_repaid (
              unless-Leaves current position current.history_proof _ (
                prove_history-Leaves current
                  (normalize_profile_id s.env (or_else input.profile current.profile_id)) position))
    where
      current : DemoState
      current = get_stored_state now w.db

Settled-out :
    (s : Setting) (fresh : HistoryFresh) (now : ℕ) (input : HistoryInput) (w v : World)
    (r : HistoryResult)
    → Settled s fresh now input w (v, ok r)
    → r.already_verified ≡ false
    → (fresh' : HistoryFresh) (later : ℕ)
    → prove_demo_repayment_history s fresh' later input v
      ≡ (v, ok (known_result (get_stored_state later v.db) r.history_proof))
Settled-out s fresh now input w v r (inl known) new = absurd (ground arith)
Settled-out s fresh now input w v r (inr again) new = again

-- If the repayment history was proved and verified by a request, the same request again, at whatever time,
-- proves nothing: it makes no call, changes nothing, and answers with the proof of the first one and with the
-- state that is stored.
pub prove-prove_demo :
    (s : Setting) (fresh fresh' : HistoryFresh) (now later : ℕ) (input : HistoryInput) (w v : World)
    (r : HistoryResult)
    → prove_demo_repayment_history s fresh now input w ≡ (v, ok r)
    → r.already_verified ≡ false
    → prove_demo_repayment_history s fresh' later input v
      ≡ (v, ok (known_result (get_stored_state later v.db) r.history_proof))
prove-prove_demo s fresh fresh' now later input w v r e new =
    Settled-out s fresh now input w v r
      (subst (Settled s fresh now input w) e (prove_demo-Settled s fresh now input w)) new fresh'
      later
