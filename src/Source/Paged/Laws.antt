-- ===== src/Source/Paged/Laws.antt =====
-- What every sequence of calls, timers and answers keeps of a `PagedDataSource`
-- (frontend/src/app/shared/datasources/paged.datasource.ts).
use asl_bissieux.Prelude.{ℕ, ◌≤◌, ◌≡◌, ◌≢◌, Bool, true, false, List, [], ◌∷◌, none, some, arith}
use asl_bissieux.Prelude.Int.{ℤ}
use asl_bissieux.Prelude.Strings.{String, eq_iff}
use asl_bissieux.Source.Paged.{
  Order, PageResult, Fields, Fetch, idle, waiting, requested, Paged, new, load, timeout, receive,
  refuse, set_filter, set_sort, set_page, set_extra, disconnect,
}

abbrev pub is_busy {ℓ} : {R : Type ℓ} → Fetch R → Bool
is_busy idle = false
is_busy (waiting delay) = true
is_busy (requested r) = true

-- The request in flight is the one that the present fields make.
abbrev pub IsFresh {ℓ} : {X R : Type ℓ} → (Fields X → R) → Fields X → Fetch R → Type ℓ
IsFresh fetch_page fields idle = Unit
IsFresh fetch_page fields (waiting delay) = Unit
IsFresh fetch_page fields (requested r) = r ≡ fetch_page fields

-- What arrives for the call of a number: the end of its timer, a page or a failure.
pub data Arrival {ℓ} (T E : Type ℓ) : Type ℓ where
  timer_ends : ℕ → Arrival T E
  page_comes : ℕ → PageResult T → Arrival T E
  call_fails : ℕ → E → Arrival T E

module _ {ℓ} {T E : Type ℓ} where
  abbrev pub number_of : Arrival T E → ℕ
  number_of (timer_ends n) = n
  number_of (page_comes n p) = n
  number_of (call_fails n e) = n

  -- All of it belongs to the calls up to this one.
  abbrev pub AreEarlier : ℕ → List (Arrival T E) → Type 0
  AreEarlier n [] = Unit
  AreEarlier n (a ∷ arrivals) = (number_of a ≤ n) × AreEarlier n arrivals

module _ {ℓ} {T E X R : Type ℓ} (fetch_page : Fields X → R) where
  pub data Step (s t : Paged T E X R) : Type ℓ where
    loads : (delay : ℕ) → t ≡ load fetch_page delay s → Step s t
    times_out : (n : ℕ) → t ≡ timeout fetch_page n s → Step s t
    receives : (n : ℕ) (p : PageResult T) → t ≡ receive fetch_page n p s → Step s t
    refuses : (n : ℕ) (e : E) → t ≡ refuse fetch_page n e s → Step s t
    filters : (query : String) → t ≡ set_filter fetch_page query s → Step s t
    sorts : (sort : Order) → t ≡ set_sort fetch_page sort s → Step s t
    pages : (i : ℤ) (size : ℕ) → t ≡ set_page fetch_page i size s → Step s t
    extends : (x : X) → t ≡ set_extra fetch_page x s → Step s t
    disconnects : t ≡ disconnect fetch_page s → Step s t

  pub data Reach : Paged T E X R → Type ℓ where
    start : (x : X) → Reach (new fetch_page x)
    step : {s t : Paged T E X R} → Reach s → Step s t → Reach t

  pub record IsCurrent (s : Paged T E X R) : Type ℓ where
    pub fresh : IsFresh fetch_page s.fields s.fetch
    pub loading_exact : s.base.loading ≡ is_busy s.fetch
    pub busy_clear : is_busy s.fetch ≡ true → s.base.error ≡ none
    pub error_alone : s.base.error ≢ none → s.base.results ≡ []
    pub rows_loaded : s.base.results ≢ [] → s.base.loaded ≡ true
    pub stopped_idle : s.base.stopped ≡ true → s.fetch ≡ idle
    pub none_running : s.base.running ≡ 0
    pub directed : s.fields.order.direction ≢ ""

  load-IsCurrent :
      {s : Paged T E X R} (delay : ℕ) → IsCurrent s → IsCurrent (load fetch_page delay s)
  unfolding load
  load-IsCurrent {s} delay c = ground arith

  timeout-IsCurrent : {s : Paged T E X R} (n : ℕ) → IsCurrent s → IsCurrent (timeout fetch_page n s)
  unfolding timeout
  timeout-IsCurrent {s} n c = ground arith

  receive-IsCurrent :
      {s : Paged T E X R} (n : ℕ) (p : PageResult T)
      → IsCurrent s
      → IsCurrent (receive fetch_page n p s)
  unfolding receive
  receive-IsCurrent {s} n p c = ground arith

  refuse-IsCurrent :
      {s : Paged T E X R} (n : ℕ) (e : E) → IsCurrent s → IsCurrent (refuse fetch_page n e s)
  unfolding refuse
  refuse-IsCurrent {s} n e c = ground arith

  set_filter-IsCurrent :
      {s : Paged T E X R} (q : String) → IsCurrent s → IsCurrent (set_filter fetch_page q s)
  unfolding set_filter
  set_filter-IsCurrent {s} q c = ground arith

  set_sort-IsCurrent :
      {s : Paged T E X R} (sort : Order) → IsCurrent s → IsCurrent (set_sort fetch_page sort s)
  unfolding set_sort
  set_sort-IsCurrent {s} sort c = ground (arith, eq_iff sort.direction "")

  set_page-IsCurrent :
      {s : Paged T E X R} (i : ℤ) (size : ℕ)
      → IsCurrent s
      → IsCurrent (set_page fetch_page i size s)
  unfolding set_page
  set_page-IsCurrent {s} i size c = ground arith

  set_extra-IsCurrent :
      {s : Paged T E X R} (x : X) → IsCurrent s → IsCurrent (set_extra fetch_page x s)
  unfolding set_extra
  set_extra-IsCurrent {s} x c = ground arith

  disconnect-IsCurrent : {s : Paged T E X R} → IsCurrent s → IsCurrent (disconnect fetch_page s)
  unfolding disconnect
  disconnect-IsCurrent {s} c = ground arith

  new-IsCurrent : (x : X) → IsCurrent (new fetch_page x)
  unfolding new
  new-IsCurrent x = ground (arith, eq_iff "desc" "")

  Step-IsCurrent : {s t : Paged T E X R} → Step s t → IsCurrent s → IsCurrent t
  Step-IsCurrent (loads delay e) c = rw e (load-IsCurrent delay c)
  Step-IsCurrent (times_out n e) c = rw e (timeout-IsCurrent n c)
  Step-IsCurrent (receives n p e) c = rw e (receive-IsCurrent n p c)
  Step-IsCurrent (refuses n x e) c = rw e (refuse-IsCurrent n x c)
  Step-IsCurrent (filters q e) c = rw e (set_filter-IsCurrent q c)
  Step-IsCurrent (sorts sort e) c = rw e (set_sort-IsCurrent sort c)
  Step-IsCurrent (pages i size e) c = rw e (set_page-IsCurrent i size c)
  Step-IsCurrent (extends x e) c = rw e (set_extra-IsCurrent x c)
  Step-IsCurrent (disconnects e) c = rw e (disconnect-IsCurrent c)

  -- Whatever the order of calls, timers and answers: the request in flight is the one that the
  -- present page, size, filter and order make; the loading indicator stands exactly while a timer
  -- or a request runs, and then no error is shown; an error is never shown beside rows; nothing
  -- runs after `disconnect`; and the order always has a direction.
  pub Reach-IsCurrent : {s : Paged T E X R} → Reach s → IsCurrent s
  Reach-IsCurrent (start x) = new-IsCurrent x
  Reach-IsCurrent (step r st) = Step-IsCurrent st (Reach-IsCurrent r)

  unfoldable pub arrive : Arrival T E → Paged T E X R → Paged T E X R
  arrive (timer_ends n) s = timeout fetch_page n s
  arrive (page_comes n p) s = receive fetch_page n p s
  arrive (call_fails n e) s = refuse fetch_page n e s

  unfoldable pub arrive_all : List (Arrival T E) → Paged T E X R → Paged T E X R
  arrive_all [] s = s
  arrive_all (a ∷ arrivals) s = arrive_all arrivals (arrive a s)

  -- A page answers the call: its rows and its place are shown, without an error.
  pub record IsLoaded (s : Paged T E X R) (p : PageResult T) (t : Paged T E X R) : Type ℓ where
    pub rows : t.base.results ≡ p.items
    pub has_rows : t.base.loaded ≡ true
    pub ended : t.base.loading ≡ false
    pub no_error : t.base.error ≡ none
    pub place : t.state ≡ p.page
    pub page_index : t.fields.page_index ≡ p.page.page_index
    pub page_size : t.fields.page_size ≡ p.page.page_size
    pub query : t.fields.query ≡ s.fields.query
    pub order : t.fields.order ≡ s.fields.order
    pub extra : t.fields.extra ≡ s.fields.extra
    pub over : t.fetch ≡ idle

  -- The call fails: the error is shown, without rows, and the fields stay.
  pub record IsFailed (s : Paged T E X R) (e : E) (t : Paged T E X R) : Type ℓ where
    pub no_rows : t.base.results ≡ []
    pub ended : t.base.loading ≡ false
    pub error : t.base.error ≡ some e
    pub place : t.state ≡ s.state
    pub same_fields : t.fields ≡ s.fields
    pub over : t.fetch ≡ idle
