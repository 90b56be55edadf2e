-- ===== src/DemoFlow/Setting.antt =====
-- backend/src/services/demo-flow.ts: what the steps of the flow are given: the configuration, the environment, and
-- the network, the prover and the tools outside the repository.
use nyxfinance.Common.{ℕ, String, Option}
use nyxfinance.Json.{Fields}
use nyxfinance.Result.{Result, ok, err}
use nyxfinance.Db.{Db}
use nyxfinance.Config.{AppConfig, Env}
use nyxfinance.World.{Chain, World, Action}
use nyxfinance.Evidence.{Platform}
use nyxfinance.ProofJobs.{Prover}
use nyxfinance.DemoFlow.Profile.{DemoAnchorProfile, resolve_demo_profile}
use nyxfinance.DemoFlow.Fixtures.{Runner}

-- `parse_json` is `JSON.parse` of an object, `big_int` reads a number of the type u128, and `clock` gives the times
-- of the worker's rounds.
pub record Setting : Type 0 where
  pub config : AppConfig
  pub env : Env
  pub chain : Chain
  pub platform : Platform
  pub prover : Prover
  pub runner : Runner
  pub parse_json : String → Result Fields
  pub big_int : String → Result ℕ
  pub clock : ℕ → ℕ

-- A function that changes the database, also where it throws.
abbrev pub with_db : World → {A : Type 0} → Db × Result A → World × Result A
with_db w (db, r) = (record w { db = db }, r)

abbrev pub on_db : {A : Type 0} → (Db → Db × Result A) → Action A
on_db f w = with_db w (f w.db)

-- One that changes it only where it succeeds.
abbrev pub after_change : World → {A : Type 0} → Result (Db × A) → World × Result A
after_change w (ok (db, a)) = (record w { db = db }, ok a)
after_change w (err e) = (w, err e)

abbrev pub changing_db : {A : Type 0} → (Db → Result (Db × A)) → Action A
changing_db f w = after_change w (f w.db)

abbrev pub profile_of : Setting → Option String → Option String → Result DemoAnchorProfile
profile_of s profile account = resolve_demo_profile s.config s.env s.parse_json profile account
