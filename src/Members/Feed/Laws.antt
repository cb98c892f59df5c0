-- ===== src/Members/Feed/Laws.antt =====
-- What the table of the members shows, and when the lots are said to be loading
-- (frontend/src/app/members/datasources/member.datasource.ts).
use asl_bissieux.Prelude.{
  ℕ, zero, suc, ◌+◌, ◌≡◌, refl, sym, ap, ◌∙◌, get_or, Bool, true, false, not, ◌||◌, ◌⊎◌, inl, inr,
  List, [], ◌∷◌, ◌++◌, Option, none, some, arith, any, length, ltb, is_some, get_elem?, Bool-cases,
  Option-cases,
}
use mathlib.Core.Path.{subst}
use asl_bissieux.Prelude.Int.{ℤ}
use asl_bissieux.Prelude.Strings.{String}
use asl_bissieux.Directory.{Member, Lot}
use asl_bissieux.Sorting.{sort_by, IsSorted, IsOrder, sort_by-IsSorted}
use asl_bissieux.Source.{Source, load, receive, finish, refuse, disconnect}
use asl_bissieux.Source as Base
use asl_bissieux.Members.Matching.{compare_members}
use asl_bissieux.Members.Feed.{
  Fetch, Feed, put_at, remove_at, new, set_query, load_feed, retry_units, units_answered, retried,
  join_feed, members_at, members_received, units_at, units_received, fail_at, members_refused,
  disconnect_feed, set_units, set_units_loading,
}

pub data Event (M E : Type 0) : Type 0 where
  loads retries disconnects : Event M E
  queries : String → Event M E
  retry_ends : List (Lot M) ⊎ E → Event M E
  members_come : ℕ → List (Member (Lot M)) → Event M E
  units_come : ℕ → List (Lot M) ⊎ E → Event M E
  members_fail : ℕ → E → Event M E

-- Some request for the lots has no answer.
abbrev pub waits : {M : Type 0} → List (Fetch M) → Bool
waits fs = any (λ f. not f.units_done) fs

waits-append : {M : Type 0} (fs gs : List (Fetch M)) → waits (fs ++ gs) ≡ waits fs || waits gs
waits-append [] gs = refl
waits-append (f ∷ fs) gs = ground (arith, waits-append fs gs)

length-snoc : {A : Type 0} (xs : List A) (x : A) → length (xs ++ x ∷ []) ≡ length xs + 1
length-snoc [] x = refl
length-snoc (y ∷ xs) x = omega (arith, length-snoc xs x)

module _ {M : Type 0} where
  waits-put_at :
      (i : ℕ) (g f : Fetch M) (fs : List (Fetch M))
      → get_elem? fs i ≡ some f
      → g.units_done ≡ false
      → waits (put_at i g fs) ≡ true
  unfolding put_at
  waits-put_at i g f [] e h = ground arith
  waits-put_at zero g f (x ∷ fs) e h = ground arith
  waits-put_at (suc i) g f (x ∷ fs) e h = ground (arith, waits-put_at i g f fs e h)

  length-put_at : (i : ℕ) (g : Fetch M) (fs : List (Fetch M)) → length (put_at i g fs) ≡ length fs
  unfolding put_at
  length-put_at i g [] = refl
  length-put_at zero g (x ∷ fs) = refl
  length-put_at (suc i) g (x ∷ fs) = omega (arith, length-put_at i g fs)

  waits-remove_at :
      (i : ℕ) (f : Fetch M) (fs : List (Fetch M))
      → get_elem? fs i ≡ some f
      → f.units_done ≡ true
      → waits (remove_at i fs) ≡ waits fs
  unfolding remove_at
  waits-remove_at i f [] e h = refl
  waits-remove_at zero f (x ∷ fs) e h =
      let done : x.units_done ≡ true = ap (λ o. (get_or o x).units_done) e ∙ h in ground arith
  waits-remove_at (suc i) f (x ∷ fs) e h = ground (arith, waits-remove_at i f fs e h)

  length-remove_at :
      (i : ℕ) (f : Fetch M) (fs : List (Fetch M))
      → get_elem? fs i ≡ some f
      → length (remove_at i fs) + 1 ≡ length fs
  unfolding remove_at
  length-remove_at i f [] e = ground arith
  length-remove_at zero f (x ∷ fs) e = omega arith
  length-remove_at (suc i) f (x ∷ fs) e = omega (arith, length-remove_at i f fs e)

-- What holds of the rows of before and of those that come holds of the rows after.
received_rows :
    {T E : Type 0} (P : List T → Type 0) (rows : List T) (s : Source T E)
    → P s.results
    → P rows
    → P (finish (receive rows s)).results
unfolding finish receive
received_rows P rows s h k = elim (Bool-cases s.stopped) [
  | inl e ↦
      let same : (finish (receive rows s)).results ≡ s.results = ground arith in
      subst P (sym same) h
  | inr e ↦
      let same : (finish (receive rows s)).results ≡ rows = ground arith in subst P (sym same) k
]

refused_rows :
    {T E : Type 0} (P : List T → Type 0) (error : E) (s : Source T E)
    → P s.results
    → P []
    → P (refuse error s).results
unfolding refuse
refused_rows P error s h k = elim (Bool-cases s.stopped) [
  | inl e ↦ let same : (refuse error s).results ≡ s.results = ground arith in subst P (sym same) h
  | inr e ↦ let same : (refuse error s).results ≡ [] = ground arith in subst P (sym same) k
]

module _ {M E : Type 0} (base locale : String → String → ℤ) where
  unfoldable pub perform : Event M E → Feed M E → Feed M E
  unfolding load_feed set_query retry_units retried members_received units_received members_refused
      disconnect_feed
  perform loads s = load_feed s
  perform retries s = retry_units s
  perform disconnects s = disconnect_feed s
  perform (queries q) s = set_query q s
  perform (retry_ends answer) s = retried answer s
  perform (members_come i members) s = members_received base locale i members s
  perform (units_come i answer) s = units_received base locale i answer s
  perform (members_fail i error) s = members_refused base locale i error s

  unfoldable pub run : List (Event M E) → Feed M E → Feed M E
  unfolding perform
  run [] s = s
  run (e ∷ es) s = run es (perform e s)

  pub record IsFed (s : Feed M E) : Type 0 where
    -- Each fetch of the base class is one of the source.
    pub counted : s.source.running ≡ length s.fetches
    -- The lots are said to be loading only while a request for them has no answer.
    pub waiting :
        s.source.stopped ≡ false
        → s.units_loading ≡ true
        → (ltb 0 s.retries || waits s.fetches) ≡ true
    pub sorted : IsSorted (compare_members base locale) s.source.results

  load_feed-IsFed : (s : Feed M E) → IsFed s → IsFed (load_feed s)
  unfolding load_feed load set_units_loading Base.set_loading
  load_feed-IsFed s c = ground (
    arith,
    waits-append s.fetches (record { members = none; units_done = false } ∷ []),
    length-snoc s.fetches (record { members = none; units_done = false }),
  )

  retry_units-IsFed : (s : Feed M E) → IsFed s → IsFed (retry_units s)
  unfolding retry_units set_units_loading
  retry_units-IsFed s c = ground arith

  retried-IsFed : (answer : List (Lot M) ⊎ E) (s : Feed M E) → IsFed s → IsFed (retried answer s)
  unfolding retried
  retried-IsFed answer s c = ground arith

  disconnect_feed-IsFed : (s : Feed M E) → IsFed s → IsFed (disconnect_feed s)
  unfolding disconnect_feed disconnect set_units_loading
  disconnect_feed-IsFed s c = ground arith

  module _ (o : IsOrder {A = Member (Lot M)} (compare_members base locale)) where
    join_feed-IsFed :
        (i : ℕ) (members : List (Member (Lot M))) (f : Fetch M) (s : Feed M E)
        → get_elem? s.fetches i ≡ some f
        → (s.source.stopped ≡ false → s.units_loading ≡ true → f.units_done ≡ true)
        → IsFed s
        → IsFed (join_feed base locale i members s)
    unfolding join_feed receive finish
    join_feed-IsFed i members f s e h c = record {
      counted = ground (arith, length-remove_at i f s.fetches e);
      waiting = ground (arith, waits-remove_at i f s.fetches e);
      sorted =
          received_rows (IsSorted (compare_members base locale))
            (sort_by (compare_members base locale) members) s.source c.sorted
            (sort_by-IsSorted (compare_members base locale) o members);
    }

    members_at-IsFed :
        (i : ℕ) (members : List (Member (Lot M))) (f : Fetch M) (s : Feed M E)
        → get_elem? s.fetches i ≡ some f
        → IsFed s
        → IsFed (members_at base locale i members f s)
    unfolding members_at
    members_at-IsFed i members f s e c = elim (Bool-cases f.units_done) [
      | inl d ↦ rw (d, members_at) (join_feed-IsFed i members f s e (λ p q. d) c)
      | inr d ↦
          let g : Fetch M = record { members = some members; units_done = false } in
          rw (d, members_at)
            (ground (arith, length-put_at i g s.fetches, waits-put_at i g f s.fetches e refl))
    ]

    answered-IsFed :
        (answer : List (Lot M) ⊎ E) (s : Feed M E) → IsFed s → IsFed (units_answered answer s)
    unfolding units_answered
    answered-IsFed answer s c = ground arith

    -- Nothing is said to be loading once an answer has come.
    answered-quiet :
        (answer : List (Lot M) ⊎ E) (s : Feed M E)
        → ((units_answered answer s).source.stopped ≡ false
            → (units_answered answer s).units_loading ≡ false)
          × ((units_answered answer s).fetches ≡ s.fetches)
    unfolding units_answered
    answered-quiet answer s = (ground arith, ground arith)

    units_at-IsFed :
        (i : ℕ) (answer : List (Lot M) ⊎ E) (members : Option (List (Member (Lot M)))) (f : Fetch M)
        (s : Feed M E)
        → get_elem? s.fetches i ≡ some f
        → IsFed s
        → IsFed (units_at base locale i answer members s)
    unfolding units_at
    units_at-IsFed i answer none f s e c =
        let t : Feed M E = units_answered answer s in
        let g : Fetch M = record { members = none; units_done = true } in
        let quiet = answered-quiet answer s in
        let fed = answered-IsFed answer s c in
        ground (arith, quiet, fed, length-put_at i g t.fetches)
    units_at-IsFed i answer (some members) f s e c =
        let quiet = answered-quiet answer s in
        join_feed-IsFed i members f (units_answered answer s)
          (ap (λ fs. get_elem? fs i) quiet.1 ∙ e) (λ p q. ground (arith, quiet.0 p))
          (answered-IsFed answer s c)

    fail_at-IsFed :
        (i : ℕ) (error : E) (f : Fetch M) (s : Feed M E)
        → get_elem? s.fetches i ≡ some f
        → IsFed s
        → IsFed (fail_at base locale i error f s)
    unfolding fail_at set_units set_units_loading refuse
    fail_at-IsFed i error f s e c =
        let source_same : (fail_at base locale i error f s).source ≡ refuse error s.source =
          ground arith in
        record {
          counted = ground (arith, length-remove_at i f s.fetches e);
          waiting = ground (arith, waits-remove_at i f s.fetches e);
          sorted =
              subst (λ src. IsSorted (compare_members base locale) (Source.results src))
                (sym source_same)
                (refused_rows (IsSorted (compare_members base locale)) error s.source c.sorted tt);
        }

    members_received-IsFed :
        (i : ℕ) (members : List (Member (Lot M))) (s : Feed M E)
        → IsFed s
        → IsFed (members_received base locale i members s)
    unfolding members_received
    members_received-IsFed i members s c = elim (Option-cases (get_elem? s.fetches i)) [
      | inl e ↦ rw (e, members_received) c
      | inr (f, e) ↦
          rw (e, members_received)
            (elim (Bool-cases (is_some f.members)) [
              | inl h ↦ rw h c
              | inr h ↦ rw h (members_at-IsFed i members f s e c)
            ])
    ]

    units_received-IsFed :
        (i : ℕ) (answer : List (Lot M) ⊎ E) (s : Feed M E)
        → IsFed s
        → IsFed (units_received base locale i answer s)
    unfolding units_received
    units_received-IsFed i answer s c = elim (Option-cases (get_elem? s.fetches i)) [
      | inl e ↦ rw (e, units_received) c
      | inr (f, e) ↦
          rw (e, units_received)
            (elim (Bool-cases f.units_done) [
              | inl h ↦ rw h c
              | inr h ↦ rw h (units_at-IsFed i answer f.members f s e c)
            ])
    ]

    members_refused-IsFed :
        (i : ℕ) (error : E) (s : Feed M E) → IsFed s → IsFed (members_refused base locale i error s)
    unfolding members_refused
    members_refused-IsFed i error s c = elim (Option-cases (get_elem? s.fetches i)) [
      | inl e ↦ rw (e, members_refused) c
      | inr (f, e) ↦
          rw (e, members_refused)
            (elim (Bool-cases (is_some f.members)) [
              | inl h ↦ rw h c
              | inr h ↦ rw h (fail_at-IsFed i error f s e c)
            ])
    ]

    perform-IsFed : (e : Event M E) (s : Feed M E) → IsFed s → IsFed (perform e s)
    unfolding perform set_query
    perform-IsFed loads s c = load_feed-IsFed s c
    perform-IsFed retries s c = retry_units-IsFed s c
    perform-IsFed disconnects s c = disconnect_feed-IsFed s c
    perform-IsFed (queries q) s c = ground arith
    perform-IsFed (retry_ends answer) s c = retried-IsFed answer s c
    perform-IsFed (members_come i members) s c = members_received-IsFed i members s c
    perform-IsFed (units_come i answer) s c = units_received-IsFed i answer s c
    perform-IsFed (members_fail i error) s c = members_refused-IsFed i error s c

    run-IsFed : (es : List (Event M E)) (s : Feed M E) → IsFed s → IsFed (run es s)
    unfolding run
    run-IsFed [] s c = c
    run-IsFed (e ∷ es) s c = run-IsFed es (perform e s) (perform-IsFed e s c)

    -- Where the order of the members is total and transitive, after any order of loads, retries,
    -- queries, answers and disconnections: the base class counts as many fetches as run; until the
    -- source is disconnected, the lots are said to be loading only while a request for them has no
    -- answer; and the members that are published are sorted.
    pub run-new-IsFed : (es : List (Event M E)) → IsFed (run es new)
    unfolding new Base.new
    run-new-IsFed es =
        run-IsFed es new (record { counted = refl; waiting = ground arith; sorted = tt })
