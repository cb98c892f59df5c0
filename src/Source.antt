-- ===== src/Source.antt =====
-- frontend/src/app/shared/datasources/index.ts: the class `DataSource`, which every table reads,
-- and `UserDataSource` (users/datasources/user.datasource.ts), which cancels an earlier fetch.
-- The four `BehaviorSubject`s are fields; a subject that has completed publishes nothing more.
-- The answers of the API are events: `receive`, `finish` and `refuse` are the callbacks of `load`.
pub mod Laws
pub mod Users
pub mod Paged
mod Tests
use asl_bissieux.Prelude.{
  ℕ, ◌+◌, ◌-◌, Bool, true, false, List, [], Option, none, some, if◌then◌else◌, ltb,
}

pub record Source {ℓ} (T E : Type ℓ) : Type ℓ where
  -- `_results$`, `_loading$`, `_loaded$`, `_error$`
  pub results : List T
  pub loading : Bool
  pub loaded : Bool
  pub error : Option E
  -- The subjects and `_disconnected$` have completed.
  pub stopped : Bool
  -- The fetches that are subscribed and have not ended.
  pub running : ℕ

module _ {ℓ} {T E : Type ℓ} where
  unfoldable pub new : Source T E
  new = record {
    results = [];
    loading = false;
    loaded = false;
    error = none;
    stopped = false;
    running = 0;
  }

  -- `_setResults`
  unfoldable pub set_results : List T → Source T E → Source T E
  set_results rows s = if s.stopped then s else record s { results = rows; loaded = true }

  -- `_setLoading`
  unfoldable pub set_loading : Bool → Source T E → Source T E
  set_loading flag s = if s.stopped then s else record s { loading = flag }

  -- `_setError`
  unfoldable pub set_error : Option E → Source T E → Source T E
  set_error e s = if s.stopped then s else record s { error = e }

  -- `load`: the fetch is subscribed; its callbacks follow.
  unfoldable pub load : Source T E → Source T E
  unfolding set_loading
  load s = let t = set_loading true s in record t { running = t.running + 1 }

  -- `tap` and `next` of a fetch that emits.
  unfoldable pub receive : List T → Source T E → Source T E
  unfolding set_error set_results
  receive rows s = set_results rows (set_error none s)

  -- `complete` of a fetch.
  unfoldable pub finish : Source T E → Source T E
  unfolding set_loading
  finish s = let t = set_loading false s in record t { running = t.running - 1 }

  -- `catchError`: the error, then `of([])` goes through `next` and `complete`.
  unfoldable pub refuse : E → Source T E → Source T E
  unfolding set_error set_results finish
  refuse e s = finish (set_results [] (set_error (some e) s))

  -- `disconnect`: `_disconnected$` completes the running fetches, then the subjects complete. A
  -- second call finds `_disconnected$` completed and reaches no fetch.
  unfoldable pub disconnect : Source T E → Source T E
  disconnect s = if s.stopped then s else record s {
    loading = if ltb 0 s.running then false else s.loading;
    stopped = true;
    running = 0;
  }
