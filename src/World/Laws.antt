-- ===== src/World/Laws.antt =====
-- Rules for the outcomes of actions, one for each kind of step.
use nyxfinance.Common.{
  String, ◌≡◌, refl, ◌⊎◌, Bool, true, false, Option, none, some, [], ◌∷◌, ◌++◌, arith,
}
use nyxfinance.Result.{Fault, Result, ok, err}
use nyxfinance.World.{
  throw_if, Call, Tx, call_contract, World, Action, Chain, Arg, address, address_arg, recover,
  then_run, ◌>>=◌, require,
}

run-eq-ok :
    {A B : Type 0} (p : World × Result A) (f : A → Action B) {w' : World} {b : B}
    → then_run p f ≡ (w', ok b)
    → (w : World) × (a : A) × (p ≡ (w, ok a)) × (f a w ≡ (w', ok b))
run-eq-ok (w, ok a) f h = (w, a, refl, h)
run-eq-ok (w, err e) f h = absurd (ground arith)

pub >>=-eq-ok :
    {A B : Type 0} (m : Action A) (f : A → Action B) (w : World) {w' : World} {b : B}
    → (m >>= f) w ≡ (w', ok b)
    → (v : World) × (a : A) × (m w ≡ (v, ok a)) × (f a v ≡ (w', ok b))
>>=-eq-ok m f w h = run-eq-ok (m w) f h

-- What follows a step and does not act leaves the state of the step.
pub world-then_run :
    {A B : Type 0} (p : World × Result A) (f : A → B) → (then_run p (λ a w. (w, ok (f a)))).0 ≡ p.0
world-then_run (w, ok a) f = refl
world-then_run (w, err e) f = refl

-- Rules that prove a property of an action's outcome step by step, one for each kind of step.
module _ {A B : Type 0} (P : World × Result B → Type 0) where
  pub run_cases :
      (p : World × Result A) (f : A → Action B)
      → ((v : World) (e : Fault) → p ≡ (v, err e) → P (v, err e))
      → ((v : World) (a : A) → p ≡ (v, ok a) → P (f a v))
      → P (then_run p f)
  run_cases (v, ok a) f no' yes' = yes' v a refl
  run_cases (v, err e) f no' yes' = no' v e refl

  pub lift_cases :
      (r : Result A) (f : A → Action B) (w : World)
      → ((e : Fault) → r ≡ err e → P (w, err e))
      → ((a : A) → r ≡ ok a → P (f a w))
      → P (then_run (w, r) f)
  lift_cases (ok a) f w no' yes' = yes' a refl
  lift_cases (err e) f w no' yes' = no' e refl

  pub require_cases :
      (o : Option A) (fault : Fault) (f : A → Action B) (w : World)
      → (o ≡ none → P (w, err fault))
      → ((a : A) → o ≡ some a → P (f a w))
      → P (then_run (require o fault w) f)
  require_cases none fault f w no' yes' = no' refl
  require_cases (some a) fault f w no' yes' = yes' a refl

module _ {B : Type 0} (P : World × Result B → Type 0) where
  pub address_cases :
      (chain : Chain) (account : String) (f : Arg → Action B) (w : World)
      → ((e : Fault) → chain.check_address account ≡ err e → P (w, err e))
      → ((a : String) → chain.check_address account ≡ ok a → P (f (address a) w))
      → P (then_run (address_arg chain account w) f)
  address_cases chain account f w no' yes' = go (chain.check_address account) refl
    where
      go :
          (r : Result String)
          → chain.check_address account ≡ r
          → P (then_run (then_run (w, r) (λ s v. (v, ok (address s)))) f)
      go (ok a) e = yes' a e
      go (err x) e = no' x e

pub recover-world : {A : Type 0} (p : World × Result A) (f : Fault → A) → (recover p f).0 ≡ p.0
recover-world (v, ok a) f = refl
recover-world (v, err e) f = refl

-- The state after a contract call.
abbrev pub called : World → Call → World
called w c = record w { calls = w.calls ++ c ∷ [] }

module _ {B : Type 0} (P : World × Result B → Type 0) where
  pub call_cases :
      (chain : Chain) (c : Call) (f : Tx → Action B) (w : World)
      → ((e : Fault) → chain.submit w.calls c ≡ err e → P (called w c, err e))
      → ((tx : Tx) → chain.submit w.calls c ≡ ok tx → P (f tx (called w c)))
      → P (then_run (call_contract chain c w) f)
  unfolding call_contract
  call_cases chain c f w no' yes' = lift_cases P (chain.submit w.calls c) f (called w c) no' yes'

-- A property of the state alone outlives a step that only makes the result.
pub pure_after :
    {A B : Type 0} (P : World → Type 0) (p : World × Result A) (f : A → B)
    → P p.0
    → P (then_run p (λ a w. (w, ok (f a)))).0
pure_after P (w, ok a) f h = h
pure_after P (w, err e) f h = h

module _ {B : Type 0} (P : World × Result B → Type 0) where
  pub throw_if_cases :
      (b : Bool) (fault : Fault) (f : Unit {0} → Action B) (w : World)
      → (b ≡ true → P (w, err fault))
      → (b ≡ false → P (f tt w))
      → P (then_run (throw_if b fault w) f)
  throw_if_cases true fault f w no' yes' = no' refl
  throw_if_cases false fault f w no' yes' = yes' refl

-- What becomes of an operation that submits one call: it fails before the call and does nothing; or
-- the call fails, and nothing else is done; or the call succeeds, and `After` says what is done then.
abbrev pub Submits :
    {B : Type 0}
    → Chain
    → World
    → (Call → Type 0)
    → (Tx → World → World × Result B → Type 0)
    → World × Result B
    → Type 0
Submits chain w Made After q =
    ((e : Fault) × (q ≡ (w, err e)))
    ⊎ ((call : Call) × Made call
        × (((e : Fault) × (q ≡ (called w call, err e)))
            ⊎ ((tx : Tx) × (chain.submit w.calls call ≡ ok tx) × After tx (called w call) q)))
