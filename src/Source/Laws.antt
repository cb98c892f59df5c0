-- ===== src/Source/Laws.antt =====
-- What every sequence of calls and answers keeps of a `DataSource`
-- (frontend/src/app/shared/datasources/index.ts).
use asl_bissieux.Prelude.{◌<◌, ◌≡◌, ◌≢◌, true, false, List, [], none, arith}
use asl_bissieux.Source.{Source, new, load, receive, finish, refuse, disconnect}

-- One call of the class, or one callback of a running fetch.
pub data Step {ℓ} {T E : Type ℓ} (s t : Source T E) : Type ℓ where
  loads : t ≡ load s → Step s t
  receives : (rows : List T) → 0 < s.running → t ≡ receive rows s → Step s t
  finishes : 0 < s.running → t ≡ finish s → Step s t
  refuses : (e : E) → 0 < s.running → t ≡ refuse e s → Step s t
  disconnects : t ≡ disconnect s → Step s t

pub data Reach {ℓ} {T E : Type ℓ} : Source T E → Type ℓ where
  start : Reach new
  step : {s t : Source T E} → Reach s → Step s t → Reach t

-- Between two events.
pub record IsOrderly {ℓ} {T E : Type ℓ} (s : Source T E) : Type ℓ where
  -- An error is never shown beside rows.
  pub error_alone : s.error ≢ none → s.results ≡ []
  -- Rows or an error are shown only once a fetch has answered.
  pub rows_loaded : s.results ≢ [] → s.loaded ≡ true
  pub error_loaded : s.error ≢ none → s.loaded ≡ true
  -- The indicator stands only over a running fetch.
  pub loading_runs : s.loading ≡ true → 0 < s.running
  pub stopped_idle : s.stopped ≡ true → s.loading ≡ false

module _ {ℓ} {T E : Type ℓ} where
  load-IsOrderly : {s : Source T E} → IsOrderly s → IsOrderly (load s)
  unfolding load
  load-IsOrderly {s} c = ground arith

  receive-IsOrderly :
      {s : Source T E} (rows : List T) → 0 < s.running → IsOrderly s → IsOrderly (receive rows s)
  unfolding receive
  receive-IsOrderly {s} rows h c = ground arith

  finish-IsOrderly : {s : Source T E} → 0 < s.running → IsOrderly s → IsOrderly (finish s)
  unfolding finish
  finish-IsOrderly {s} h c = ground arith

  refuse-IsOrderly : {s : Source T E} (e : E) → 0 < s.running → IsOrderly s → IsOrderly (refuse e s)
  unfolding refuse
  refuse-IsOrderly {s} e h c = ground arith

  disconnect-IsOrderly : {s : Source T E} → IsOrderly s → IsOrderly (disconnect s)
  unfolding disconnect
  disconnect-IsOrderly {s} c = ground arith

  Step-IsOrderly : {s t : Source T E} → Step s t → IsOrderly s → IsOrderly t
  Step-IsOrderly (loads e) c = rw e (load-IsOrderly c)
  Step-IsOrderly (receives rows h e) c = rw e (receive-IsOrderly rows h c)
  Step-IsOrderly (finishes h e) c = rw e (finish-IsOrderly h c)
  Step-IsOrderly (refuses x h e) c = rw e (refuse-IsOrderly x h c)
  Step-IsOrderly (disconnects e) c = rw e (disconnect-IsOrderly c)

  new-IsOrderly : IsOrderly (new {T = T} {E = E})
  unfolding new
  new-IsOrderly = ground arith

  -- Whatever the order of calls and answers, rows are shown only after an answer, never beside an
  -- error, and the loading indicator stands only over a running fetch.
  pub Reach-IsOrderly : {s : Source T E} → Reach s → IsOrderly s
  Reach-IsOrderly start = new-IsOrderly
  Reach-IsOrderly (step r st) = Step-IsOrderly st (Reach-IsOrderly r)

  -- After `disconnect` no later call or answer changes what is published.
  pub Step-frozen :
      {s t : Source T E}
      → Step s t
      → s.stopped ≡ true
      → (t.results ≡ s.results)
        × (t.error ≡ s.error)
        × (t.loading ≡ s.loading)
        × (t.loaded ≡ s.loaded)
        × (t.stopped ≡ true)
  unfolding load receive finish refuse disconnect
  Step-frozen (loads e) h = ground arith
  Step-frozen (receives rows k e) h = ground arith
  Step-frozen (finishes k e) h = ground arith
  Step-frozen (refuses x k e) h = ground arith
  Step-frozen (disconnects e) h = ground arith
