-- ===== src/DemoFlow/Commitments.antt =====
-- The commitment of a draw in backend/src/services/demo-flow.ts is the one that the position was opened with.
use Prim.Native.String.{slice, len}
use text.Mathlib.TextLemmas.{append_assoc}
use text.Mathlib.TextPositions.{slice-append_middle, len-append}
use nyxfinance.Common.{ℕ, ◌+◌, ◌*◌, String, ◌≡◌, sym, ap, ◌∙◌, Option, arith, All, ◌<>◌}
use nyxfinance.Db.{Quote}
use nyxfinance.DemoFlow.Setting.{Setting}
use nyxfinance.DemoFlow.Fixtures.{CollateralFixture, public_inputs_from_fixture, joined}
use nyxfinance.DemoFlow.Opening.{OpenFresh, open_input}
use nyxfinance.DemoFlow.Drawing.{StepContext, draw_input}

-- The text at the place of one of several texts that are joined.
cut :
    (s t u : String) (from to : ℕ)
    → len s ≡ from
    → len s + len t ≡ to
    → slice (s <> t <> u) from to ≡ t
cut s t u from to e e' = rw (sym e) (rw (sym e') (slice-append_middle s t u))

len_four :
    (a b c d : String) (n : ℕ)
    → len a ≡ n
    → len b ≡ n
    → len c ≡ n
    → len d ≡ n
    → len (a <> b <> c <> d) ≡ 4 * n
len_four a b c d n ha hb hc hd =
    omega (arith, len-append a (b <> c <> d), len-append b (c <> d), len-append c d)

regroup_four : (a b c d rest : String) → a <> b <> c <> d <> rest ≡ (a <> b <> c <> d) <> rest
regroup_four a b c d rest =
    ap (λ t. a <> b <> t) (sym (append_assoc c d rest))
    ∙ ap (λ t. a <> t) (sym (append_assoc b (c <> d) rest))
    ∙ sym (append_assoc a (b <> c <> d) rest)

module _ (a b c d e f rest : String) (ha : len a ≡ 64) (hb : len b ≡ 64) (hc : len c ≡ 64)
    (hd : len d ≡ 64) (he : len e ≡ 64) (hf : len f ≡ 64) where
  fifth : slice (a <> b <> c <> d <> e <> f <> rest) 256 320 ≡ e
  fifth =
      ap (λ t. slice t 256 320) (regroup_four a b c d (e <> f <> rest))
      ∙ cut (a <> b <> c <> d) e (f <> rest) 256 320 (len_four a b c d 64 ha hb hc hd)
          (omega (arith, len_four a b c d 64 ha hb hc hd))

  sixth : slice (a <> b <> c <> d <> e <> f <> rest) 320 384 ≡ f
  sixth =
      ap (λ t. slice t 320 384)
        (regroup_four a b c d (e <> f <> rest)
          ∙ sym (append_assoc (a <> b <> c <> d) e (f <> rest)))
      ∙ cut ((a <> b <> c <> d) <> e) f rest 320 384
          (omega (arith, len-append (a <> b <> c <> d) e, len_four a b c d 64 ha hb hc hd))
          (omega (arith, len-append (a <> b <> c <> d) e, len_four a b c d 64 ha hb hc hd))

-- Where each of the eleven public inputs is a text of 64 bytes, the two commitments that the draw cuts out of the
-- stored public inputs are the two credit commitments that the position is opened with.
pub draw-open_commitments :
    (s : Setting) (fresh : OpenFresh) (quote : Quote) (fixture : CollateralFixture)
    (id : Option String) (anchor_secret executor_secret proof_hex : String) (context : StepContext)
    → All (λ t. len t ≡ 64) (public_inputs_from_fixture fixture)
    → let inputs = joined (public_inputs_from_fixture fixture) in
      let drawn = draw_input s context inputs executor_secret in
      let opened = open_input fresh quote id fixture anchor_secret inputs proof_hex in
      (drawn.transfer_commitment_x ≡ opened.credit_commitment_x)
      × (drawn.transfer_commitment_y ≡ opened.credit_commitment_y)
unfolding draw_input open_input public_inputs_from_fixture
draw-open_commitments s fresh quote fixture id anchor_secret executor_secret proof_hex context
      (ha, (hb, (hc, (hd, (he, (hf, more)))))) =
    (fifth _ _ _ _ _ _ _ ha hb hc hd he hf, sixth _ _ _ _ _ _ _ ha hb hc hd he hf)
