-- ===== src/World.antt =====
-- backend/src/services/operator-tx.ts as its callers see it: a state of database and submitted
-- contract calls, and actions that may throw. A throw keeps what was done before it, since no
-- service opens a database transaction.
pub mod Laws
use nyxfinance.Common.{ℕ, ℤ, Bool, Option, none, some, String, List, [], ◌∷◌, ◌++◌}
use nyxfinance.Result.{Fault, Result, ok, err}
use nyxfinance.Db.{Db}

-- An argument of a contract call, `StellarSdk.xdr.ScVal`.
pub data Arg : Type 0 where
  address bytes : String → Arg
  boolean : Bool → Arg
  u32 u128 : ℕ → Arg
  i128 : ℤ → Arg

-- One call of `submitContractCallWithSigners`; keypairs by their public keys.
pub record Call : Type 0 where
  pub signer : String
  pub auth_signers : List String
  pub contract_id : String
  pub method : String
  pub args : List Arg

pub record Tx : Type 0 where
  pub hash : String
  pub ledger : ℕ

-- The Stellar SDK and the network: `public_key s` is `Keypair.fromSecret(s).publicKey()`,
-- `check_address a` is `Address.fromString(a)`, and `submit` the outcome of a call after the calls
-- before it.
pub record Chain : Type 0 where
  pub public_key : String → Result String
  pub check_address : String → Result String
  pub submit : List Call → Call → Result Tx

pub record World : Type 0 where
  pub db : Db
  pub calls : List Call

abbrev pub Action : Type 0 → Type 0
Action A = World → World × Result A

abbrev pub pure : {A : Type 0} → A → Action A
pure a w = (w, ok a)

abbrev pub lift : {A : Type 0} → Result A → Action A
lift r w = (w, r)

abbrev pub throw : {A : Type 0} → Fault → Action A
throw e w = (w, err e)

abbrev pub gets : {A : Type 0} → (Db → A) → Action A
gets f w = (w, ok (f w.db))

abbrev pub modify : (Db → Db) → Action (Unit {0})
modify f w = (record w { db = f w.db }, ok tt)

abbrev pub after_write : World → Result Db → World × Result (Unit {0})
after_write w (ok db) = (record w { db = db }, ok tt)
after_write w (err e) = (w, err e)

-- A statement that may fail.
abbrev pub write : (Db → Result Db) → Action (Unit {0})
write f w = after_write w (f w.db)

abbrev pub then_run : {A B : Type 0} → World × Result A → (A → Action B) → World × Result B
then_run (w, ok a) f = f a w
then_run (w, err e) f = (w, err e)

infixl 5 ◌>>=◌ ◌>>◌
abbrev pub ◌>>=◌ : {A B : Type 0} → Action A → (A → Action B) → Action B
◌>>=◌ m f w = then_run (m w) f

abbrev pub ◌>>◌ : {B : Type 0} → Action (Unit {0}) → Action B → Action B
m >> k = m >>= λ _. k

-- `if (b) throw e`
abbrev pub throw_if : Bool → Fault → Action (Unit {0})
throw_if Bool.true e w = (w, err e)
throw_if Bool.false e w = (w, ok tt)

-- A configured value, or the error of its absence.
abbrev pub require : {A : Type 0} → Option A → Fault → Action A
require none e w = (w, err e)
require (some a) e w = (w, ok a)

abbrev pub recover : {A : Type 0} → World × Result A → (Fault → A) → World × Result A
recover (w, ok a) f = (w, ok a)
recover (w, err e) f = (w, ok (f e))

-- `try { m } catch (e) { f(e) }`
abbrev pub catch : {A : Type 0} → Action A → (Fault → A) → Action A
catch m f w = recover (m w) f

-- `submitContractCallWithSigners`
unfoldable pub call_contract : Chain → Call → Action Tx
call_contract chain c w = (record w { calls = w.calls ++ c ∷ [] }, chain.submit w.calls c)

abbrev pub address_arg : Chain → String → Action Arg
address_arg chain a = do s ← lift (chain.check_address a); pure (address s)
