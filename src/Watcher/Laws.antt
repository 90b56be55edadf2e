-- ===== src/Watcher/Laws.antt =====
-- The events that the watcher stores.
use nyxfinance.Common.{
  ℕ, suc, ◌+◌, String, ◌≡◌, refl, ap, ◌∙◌, Bool, true, false, Option, none, some, List, [], ◌∷◌,
  ◌++◌, ◌==◌, eq_refl, arith, if◌then◌else◌, get_or, any, length, All, length-append,
}
use nyxfinance.Sql.{insert_or_ignore}
use nyxfinance.Db.{Db, ContractEvent}
use nyxfinance.Db.Events.{insert_contract_event, same_event, event_clash}
use nyxfinance.Watcher.{RpcEvent, event_name, event_row, store_named, store_events}

module _ (decode : String → Option String) where
  -- The events that the watcher tracks and the table has, whatever identifier it gave them.
  abbrev IsStored : RpcEvent → Db → Type 0
  IsStored event db =
      (name : String)
      → event_name decode event ≡ some name
      → (fresh : String) (now : ℕ)
      → any (same_event (event_row fresh now name event)) db.contract_events ≡ true

  any-append_left :
      (q : ContractEvent → Bool) (rows more : List ContractEvent)
      → any q rows ≡ true
      → any q (rows ++ more) ≡ true
  any-append_left q [] more h = ground arith
  any-append_left q (r ∷ rs) more h = ground (arith, any-append_left q rs more)

  any-append_right :
      (q : ContractEvent → Bool) (rows : List ContractEvent) (new : ContractEvent)
      → q new ≡ true
      → any q (rows ++ new ∷ []) ≡ true
  any-append_right q [] new h = ground (arith, h)
  any-append_right q (r ∷ rs) new h = ground (arith, any-append_right q rs new h)

  any-clash :
      (e : ContractEvent) (rows : List ContractEvent)
      → any (same_event e) rows ≡ true
      → any (event_clash e) rows ≡ true
  any-clash e [] h = h
  any-clash e (r ∷ rs) h = ground (arith, any-clash e rs)

  keeps_IsStored :
      (e : RpcEvent) (o : Option String) (fresh : String) (now : ℕ) (event : RpcEvent) (db : Db)
      → IsStored e db
      → IsStored e (store_named o fresh now event db).0
  unfolding insert_contract_event insert_or_ignore
  keeps_IsStored e none fresh now event db h = h
  keeps_IsStored e (some name) fresh now event db h = λ n named f t. ground (
    arith,
    h n named f t,
    any-append_left (same_event (event_row f t n e)) db.contract_events
        (event_row fresh now name event ∷ []) (h n named f t),
  )

  same_event_refl :
      (name f g : String) (t u : ℕ) (e : RpcEvent)
      → same_event (event_row f t name e) (event_row g u name e) ≡ true
  same_event_refl name f g t u e = ground (
    arith,
    eq_refl name,
    eq_refl (event_row f t name e).contract_id,
    eq_refl (get_or (event_row f t name e).tx_hash ""),
    eq_refl (get_or (event_row f t name e).paging_token ""),
  )

  -- The identifiers to come are new to the table and differ from each other.
  abbrev pub AreFresh : (ℕ → String) → Db → Type 0
  AreFresh fresh db =
      ((i : ℕ) → any (λ r. r.id == fresh i) db.contract_events ≡ false)
      × ((i j : ℕ) → (fresh i == fresh j) ≡ true → i ≡ j)

  any-same :
      (e : ContractEvent) (rows : List ContractEvent)
      → any (λ r. r.id == e.id) rows ≡ false
      → any (event_clash e) rows ≡ true
      → any (same_event e) rows ≡ true
  any-same e [] new h = h
  any-same e (r ∷ rs) new h = ground (arith, any-same e rs)

  stored_now :
      (e : RpcEvent) (name f fresh : String) (now t : ℕ) (db : Db)
      → any (λ r. r.id == fresh) db.contract_events ≡ false
      → any
          (same_event (event_row f t name e))
          (store_named (some name) fresh now e db).0.contract_events
        ≡ true
  unfolding insert_contract_event insert_or_ignore
  stored_now e name f fresh now t db new = ground (
    arith,
    any-same (event_row fresh now name e) db.contract_events new,
    any-append_right (same_event (event_row f t name e)) db.contract_events
        (event_row fresh now name e) (same_event_refl name f fresh t now e),
  )

  store_named-IsStored :
      (e : RpcEvent) (fresh : String) (now : ℕ) (db : Db)
      → any (λ r. r.id == fresh) db.contract_events ≡ false
      → IsStored e (store_named (event_name decode e) fresh now e db).0
  store_named-IsStored e fresh now db new name named f t =
      ap
        (λ o.
          any (same_event (event_row f t name e)) (store_named o fresh now e db).0.contract_events)
        named
      ∙ stored_now e name f fresh now t db new

  any-append_none :
      (q : ContractEvent → Bool) (rows : List ContractEvent) (new : ContractEvent)
      → any q rows ≡ false
      → q new ≡ false
      → any q (rows ++ new ∷ []) ≡ false
  any-append_none q [] new h g = ground (arith, g)
  any-append_none q (r ∷ rs) new h g = ground (arith, any-append_none q rs new)

  store_named-AreFresh :
      (o : Option String) (fresh : ℕ → String) (now : ℕ) (e : RpcEvent) (db : Db)
      → AreFresh fresh db
      → AreFresh (λ i. fresh (suc i)) (store_named o (fresh 0) now e db).0
  unfolding insert_contract_event insert_or_ignore
  store_named-AreFresh none fresh now e db (new, apart) =
      ((λ i. new (suc i)), λ i j h. omega (arith, apart (suc i) (suc j) h))
  store_named-AreFresh (some name) fresh now e db (new, apart) = (
    (λ i. ground (
      arith,
      new (suc i),
      apart 0 (suc i),
      any-append_none (λ r. r.id == fresh (suc i)) db.contract_events
          (event_row (fresh 0) now name e) (new (suc i)),
    )),
    λ i j h. omega (arith, apart (suc i) (suc j) h),
  )

  store_events-keeps :
      (e : RpcEvent) (fresh : ℕ → String) (now : ℕ) (events : List RpcEvent) (db : Db)
      → IsStored e db
      → IsStored e (store_events decode fresh now events db).0
  unfolding store_events
  store_events-keeps e fresh now [] db h = h
  store_events-keeps e fresh now (x ∷ events) db h =
      store_events-keeps e (λ i. fresh (suc i)) now events _
        (keeps_IsStored e (event_name decode x) (fresh 0) now x db h)

  store_events-IsStored :
      (fresh : ℕ → String) (now : ℕ) (events : List RpcEvent) (db : Db)
      → AreFresh fresh db
      → All (λ e. IsStored e (store_events decode fresh now events db).0) events
  unfolding store_events
  store_events-IsStored fresh now [] db h = tt
  store_events-IsStored fresh now (e ∷ events) db h = (
    store_events-keeps e (λ i. fresh (suc i)) now events _
        (store_named-IsStored e (fresh 0) now db (h.0 0)),
    store_events-IsStored (λ i. fresh (suc i)) now events _
        (store_named-AreFresh (event_name decode e) fresh now e db h),
  )

  insert-again :
      (e : ContractEvent) (db : Db)
      → any (event_clash e) db.contract_events ≡ true
      → insert_contract_event e db ≡ (db, false)
  unfolding insert_contract_event insert_or_ignore
  insert-again e db h = rw h

  store_named-again :
      (e : RpcEvent) (fresh : String) (now : ℕ) (db : Db)
      → IsStored e db
      → store_named (event_name decode e) fresh now e db ≡ (db, false)
  store_named-again e fresh now db h = by_name (event_name decode e) refl
    where
      by_name :
          (o : Option String) → event_name decode e ≡ o → store_named o fresh now e db ≡ (db, false)
      by_name none named = refl
      by_name (some name) named =
          insert-again (event_row fresh now name e) db
            (any-clash (event_row fresh now name e) db.contract_events (h name named fresh now))

  store_events-again :
      (fresh : ℕ → String) (now : ℕ) (events : List RpcEvent) (db : Db)
      → All (λ e. IsStored e db) events
      → store_events decode fresh now events db ≡ (db, 0)
  unfolding store_events
  store_events-again fresh now [] db h = refl
  store_events-again fresh now (e ∷ events) db h =
      ap
        (λ p.
          let rest = store_events decode (λ i. fresh (suc i)) now events p.0 in
          (rest.0, if p.1 then suc rest.1 else rest.1))
        (store_named-again e (fresh 0) now db h.0)
      ∙ store_events-again (λ i. fresh (suc i)) now events db h.1

  -- Reading the same events again, at another time and with other identifiers, stores nothing more and leaves the
  -- database as it is: the unique index recognises each one.
  pub store_events-store_events :
      (fresh other : ℕ → String) (now again : ℕ) (events : List RpcEvent) (db : Db)
      → AreFresh fresh db
      → store_events decode other again events (store_events decode fresh now events db).0
        ≡ ((store_events decode fresh now events db).0, 0)
  store_events-store_events fresh other now again events db h =
      store_events-again other again events _ (store_events-IsStored fresh now events db h)

  named_length :
      (o : Option String) (fresh : String) (now : ℕ) (e : RpcEvent) (db : Db)
      → length (store_named o fresh now e db).0.contract_events
        ≡ length db.contract_events + (if (store_named o fresh now e db).1 then 1 else 0)
  unfolding insert_contract_event insert_or_ignore
  named_length none fresh now e db = omega arith
  named_length (some name) fresh now e db =
      ground (arith, length-append db.contract_events (event_row fresh now name e ∷ []))

  -- The number of events that a synchronisation reports is the number of rows it adds.
  pub length-store_events :
      (fresh : ℕ → String) (now : ℕ) (events : List RpcEvent) (db : Db)
      → length (store_events decode fresh now events db).0.contract_events
        ≡ length db.contract_events + (store_events decode fresh now events db).1
  unfolding store_events
  length-store_events fresh now [] db = omega arith
  length-store_events fresh now (e ∷ events) db =
      let step = named_length (event_name decode e) (fresh 0) now e db in
      let rest =
        length-store_events (λ i. fresh (suc i)) now events
          (store_named (event_name decode e) (fresh 0) now e db).0 in
      ground (arith, step, rest)
