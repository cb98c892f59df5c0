-- ===== src/Members/Feed.antt =====
-- frontend/src/app/members/datasources/member.datasource.ts: `MemberDataSource` reads the members and
-- the lots together, and shows the members that a query matches.
-- The answers of the API are events; a fetch of `_fetch` is named by its place among those that run.
-- `retries` counts the calls of `retryUnits` that run. `fold`, `base` and `locale` are those of
-- Members/Matching.
pub mod Laws
use asl_bissieux.Prelude.{
  ℕ, zero, suc, ◌+◌, ◌-◌, Bool, true, false, ◌&&◌, ◌||◌, not, List, [], ◌∷◌, ◌++◌, Option, none,
  some, if◌then◌else◌, ◌==◌, ltb, filter, is_some, get_elem?, ◌⊎◌, inl, inr,
}
use asl_bissieux.Prelude.Int.{ℤ}
use asl_bissieux.Prelude.Strings.{String}
use asl_bissieux.Directory.{Member, Lot}
use asl_bissieux.Sorting.{sort_by}
use asl_bissieux.Source.{Source, load, receive, finish, refuse, disconnect}
use asl_bissieux.Source as Base
use asl_bissieux.Members.Matching.{member_matches, compare_members}

-- The two requests of a `forkJoin`: the members once they have come, and whether the lots have.
pub record Fetch (M : Type 0) : Type 0 where
  pub members : Option (List (Member (Lot M)))
  pub units_done : Bool

pub record Feed (M E : Type 0) : Type 0 where
  pub source : Source (Member (Lot M)) E
  pub query : String
  pub units : List (Lot M)
  pub units_error : Option E
  pub units_loading : Bool
  pub fetches : List (Fetch M)
  pub retries : ℕ

unfoldable pub put_at : {A : Type 0} → ℕ → A → List A → List A
put_at i f [] = []
put_at zero f (g ∷ gs) = f ∷ gs
put_at (suc i) f (g ∷ gs) = g ∷ put_at i f gs

unfoldable pub remove_at : {A : Type 0} → ℕ → List A → List A
remove_at i [] = []
remove_at zero (g ∷ gs) = gs
remove_at (suc i) (g ∷ gs) = g ∷ remove_at i gs

module _ {M E : Type 0} where
  unfoldable pub new : Feed M E
  unfolding Base.new
  new = record {
    source = Base.new;
    query = "";
    units = [];
    units_error = none;
    units_loading = false;
    fetches = [];
    retries = 0;
  }

  -- `next` of the subjects, which publish nothing once they have completed.
  unfoldable pub set_units : List (Lot M) → Feed M E → Feed M E
  set_units units s = if s.source.stopped then s else record s { units = units }

  unfoldable pub set_units_error : Option E → Feed M E → Feed M E
  set_units_error error s = if s.source.stopped then s else record s { units_error = error }

  unfoldable pub set_units_loading : Bool → Feed M E → Feed M E
  set_units_loading flag s = if s.source.stopped then s else record s { units_loading = flag }

  unfoldable pub set_query : String → Feed M E → Feed M E
  set_query query s = if s.source.stopped then s else record s { query = query }

  -- `load` of the base class with `_fetch`, whose `fetchUnits` runs at once.
  unfoldable pub load_feed : Feed M E → Feed M E
  unfolding set_units_loading load
  load_feed s =
      let t = set_units_loading true s in
      record t {
        source = load t.source;
        fetches = t.fetches ++ record { members = none; units_done = false } ∷ [];
      }

  -- `retryUnits`
  unfoldable pub retry_units : Feed M E → Feed M E
  unfolding set_units_loading
  retry_units s =
      if s.units_loading
      then s
      else (let t = set_units_loading true s in record t { retries = t.retries + 1 })

  -- The answer of `listUnits`, `inr` being a failure, and `finalize`.
  unfoldable pub units_answered : List (Lot M) ⊎ E → Feed M E → Feed M E
  unfolding set_units set_units_error set_units_loading
  units_answered (inl units) s = set_units_loading false (set_units_error none (set_units units s))
  units_answered (inr error) s = set_units_loading false (set_units_error (some error) s)

  -- The answer to `retryUnits`.
  unfoldable pub retried : List (Lot M) ⊎ E → Feed M E → Feed M E
  unfolding units_answered
  retried answer s =
      if s.retries == 0 then s else units_answered answer (record s { retries = s.retries - 1 })

  module _ (base locale : String → String → ℤ) where
    -- Both requests have succeeded.
    unfoldable pub join_feed : ℕ → List (Member (Lot M)) → Feed M E → Feed M E
    unfolding compare_members receive finish remove_at
    join_feed i members s = record s {
      source = finish (receive (sort_by (compare_members base locale) members) s.source);
      fetches = remove_at i s.fetches;
    }

    -- `listMembers` of a fetch answers.
    members_at : ℕ → List (Member (Lot M)) → Fetch M → Feed M E → Feed M E
    unfolding join_feed put_at
    members_at i members f s = if f.units_done then join_feed i members s else record s {
      fetches = put_at i (record { members = some members; units_done = false }) s.fetches;
    }

    unfoldable pub members_received : ℕ → List (Member (Lot M)) → Feed M E → Feed M E
    unfolding members_at
    members_received i members s = elim (get_elem? s.fetches i) [
      | none ↦ s
      | some f ↦ if is_some f.members then s else members_at i members f s
    ]

    -- `fetchUnits` of a fetch ends: it has no failure.
    unfoldable pub units_at :
        ℕ → List (Lot M) ⊎ E → Option (List (Member (Lot M))) → Feed M E → Feed M E
    unfolding units_answered join_feed put_at
    units_at i answer none s =
        let t = units_answered answer s in
        record t { fetches = put_at i (record { members = none; units_done = true }) t.fetches }
    units_at i answer (some members) s = join_feed i members (units_answered answer s)

    unfoldable pub units_received : ℕ → List (Lot M) ⊎ E → Feed M E → Feed M E
    unfolding units_at
    units_received i answer s = elim (get_elem? s.fetches i) [
      | none ↦ s
      | some f ↦ if f.units_done then s else units_at i answer f.members s
    ]

    -- `listMembers` of a fetch fails: the other request is cancelled, which is its `finalize`.
    unfoldable pub fail_at : ℕ → E → Fetch M → Feed M E → Feed M E
    unfolding set_units set_units_loading refuse remove_at
    fail_at i error f s =
        let t = set_units [] s in
        let u = if f.units_done then t else set_units_loading false t in
        record u { source = refuse error u.source; fetches = remove_at i u.fetches }

    unfoldable pub members_refused : ℕ → E → Feed M E → Feed M E
    unfolding fail_at
    members_refused i error s = elim (get_elem? s.fetches i) [
      | none ↦ s
      | some f ↦ if is_some f.members then s else fail_at i error f s
    ]

  -- `disconnect`: the retries end (`finalize`), the subjects complete, then the base class.
  unfoldable pub disconnect_feed : Feed M E → Feed M E
  unfolding set_units_loading disconnect
  disconnect_feed s =
      if s.source.stopped
      then s
      else (let t = if ltb 0 s.retries then set_units_loading false s else s in
          record t { source = disconnect t.source; retries = 0; fetches = [] })

  -- `results$`: the members that the query matches.
  unfoldable pub results : (fold : String → String) → Feed M E → List (Member (Lot M))
  unfolding member_matches
  results fold s = filter (λ m. member_matches fold m s.query) s.source.results
