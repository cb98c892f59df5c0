-- ===== src/Tour/Laws.antt =====
-- Whose tour is shown, whatever arrives in which order (frontend/src/app/tour/tour.service.ts).
use asl_bissieux.Prelude.{
  ℕ, zero, suc, ◌≡◌, refl, ◌≢◌, false, ◌&&◌, ◌||◌, List, [], ◌∷◌, Option, none, some, arith,
  get_elem?, is_some, All, Bool-cases, inl, inr,
}
use asl_bissieux.Prelude.Strings.{String}
use mathlib.Core.Path.{subst}
use asl_bissieux.Auth.{User}
use asl_bissieux.Tour.{
  TourState, Tour, new, settle, user_changed, session_fetched, reload, reloaded, seen,
  seen_answered, drop_at, dismiss,
}

-- The account is that of the request, if there is one.
abbrev IsFor : String → Option String → Type 0
IsFor account none = Unit
IsFor account (some owner) = owner ≡ account

pub record IsOwn (s : Tour) : Type 0 where
  pub session_own : IsFor s.account s.session_fetch
  pub reload_own : IsFor s.account s.reload_fetch
  pub seen_own : All (λ owner. owner ≡ s.account) s.seen_requests
  -- The state that is shown answers a request of the present account.
  pub shown_own : s.state ≢ none → s.shown_for ≡ s.account
  -- One fetch at most, and the indicator stands exactly while it runs.
  pub one_fetch : is_some s.session_fetch && is_some s.reload_fetch ≡ false
  pub loading_exact : s.loading ≡ is_some s.session_fetch || is_some s.reload_fetch

owner_at :
    (account : String) (requests : List String) (n : ℕ) (owner : String)
    → All (λ other. other ≡ account) requests
    → get_elem? requests n ≡ some owner
    → owner ≡ account
owner_at account [] n owner a e = cc
owner_at account (x ∷ xs) zero owner a e = ground (arith, a.0)
owner_at account (x ∷ xs) (suc n) owner a e = owner_at account xs n owner a.1 e

All-drop_at :
    (account : String) (requests : List String) (n : ℕ)
    → All (λ other. other ≡ account) requests
    → All (λ other. other ≡ account) (drop_at n requests)
unfolding drop_at
All-drop_at account [] n a = tt
All-drop_at account (x ∷ xs) zero a = a.1
All-drop_at account (x ∷ xs) (suc n) a = (a.0, All-drop_at account xs n a.1)

-- An answer of a fetch settles the tour, once no fetch runs.
settle-IsOwn :
    (owner : String) (answer : Option (Option TourState)) (s : Tour)
    → owner ≡ s.account
    → s.session_fetch ≡ none
    → s.reload_fetch ≡ none
    → All (λ other. other ≡ s.account) s.seen_requests
    → IsOwn (settle owner answer s)
unfolding settle
settle-IsOwn owner none s own e f all_own = record {
  session_own = rw e tt;
  reload_own = rw f tt;
  seen_own = all_own;
  shown_own = λ h. own;
  one_fetch = rw e refl;
  loading_exact = rw (e, f) refl;
}
settle-IsOwn owner (some state) s own e f all_own = record {
  session_own = rw e tt;
  reload_own = rw f tt;
  seen_own = all_own;
  shown_own = λ h. own;
  one_fetch = rw e refl;
  loading_exact = rw (e, f) refl;
}

none_of_false : (o : Option String) → is_some o ≡ false → o ≡ none
none_of_false none h = refl
none_of_false (some x) h = cc

module _ (stringify : Option (List String) → String) where
  pub data Step (s t : Tour) : Type 0 where
    changes : (user : Option User) → t ≡ user_changed stringify user s → Step s t
    fetches : (answer : Option (Option TourState)) → t ≡ session_fetched answer s → Step s t
    reloads : t ≡ reload s → Step s t
    refetches : (answer : Option (Option TourState)) → t ≡ reloaded answer s → Step s t
    views : t ≡ seen s → Step s t
    viewed : (n : ℕ) (answer : Option (Option TourState)) → t ≡ seen_answered n answer s → Step s t
    dismisses : t ≡ dismiss s → Step s t

  pub data Reach : Tour → Type 0 where
    start : Reach new
    step : {s t : Tour} → Reach s → Step s t → Reach t

  user_changed-IsOwn :
      {s : Tour} (user : Option User) → IsOwn s → IsOwn (user_changed stringify user s)
  unfolding user_changed
  user_changed-IsOwn user c = ground arith

  session_fetched_at :
      (s : Tour) (answer : Option (Option TourState)) (found : Option String)
      → s.session_fetch ≡ found
      → IsOwn s
      → IsOwn (session_fetched answer s)
  unfolding session_fetched
  session_fetched_at s answer none e c = rw (e, session_fetched) c
  session_fetched_at s answer (some owner) e c =
      let own : IsFor s.account (some owner) = subst (IsFor s.account) e c.session_own in
      let idle : is_some s.reload_fetch ≡ false = ground (arith, c.one_fetch) in
      rw (e, session_fetched)
        (settle-IsOwn owner answer (record s { session_fetch = none }) own refl
          (none_of_false s.reload_fetch idle) c.seen_own)

  reload-IsOwn : {s : Tour} → IsOwn s → IsOwn (reload s)
  unfolding reload
  reload-IsOwn c = ground arith

  reloaded_at :
      (s : Tour) (answer : Option (Option TourState)) (found : Option String)
      → s.reload_fetch ≡ found
      → IsOwn s
      → IsOwn (reloaded answer s)
  unfolding reloaded
  reloaded_at s answer none e c = rw (e, reloaded) c
  reloaded_at s answer (some owner) e c =
      let own : IsFor s.account (some owner) = subst (IsFor s.account) e c.reload_own in
      let idle : is_some s.session_fetch ≡ false = ground (arith, c.one_fetch) in
      rw (e, reloaded)
        (settle-IsOwn owner answer (record s { reload_fetch = none }) own
          (none_of_false s.session_fetch idle) refl c.seen_own)

  seen-IsOwn : {s : Tour} → IsOwn s → IsOwn (seen s)
  unfolding seen
  seen-IsOwn {s} c = elim (Bool-cases (is_some s.state)) [
    | inl e ↦
        rw (e, seen)
          (record {
            session_own = c.session_own;
            reload_own = c.reload_own;
            seen_own = (refl, c.seen_own);
            shown_own = c.shown_own;
            one_fetch = c.one_fetch;
            loading_exact = c.loading_exact;
          })
    | inr e ↦ rw (e, seen) c
  ]

  seen_answered_at :
      (s : Tour) (n : ℕ) (answer : Option (Option TourState)) (found : Option String)
      → get_elem? s.seen_requests n ≡ found
      → IsOwn s
      → IsOwn (seen_answered n answer s)
  unfolding seen_answered
  seen_answered_at s n answer none e c = rw (e, seen_answered) c
  seen_answered_at s n none (some owner) e c =
      let rest = All-drop_at s.account s.seen_requests n c.seen_own in
      rw (e, seen_answered)
        (record {
          session_own = c.session_own;
          reload_own = c.reload_own;
          seen_own = rest;
          shown_own = c.shown_own;
          one_fetch = c.one_fetch;
          loading_exact = c.loading_exact;
        })
  seen_answered_at s n (some state) (some owner) e c =
      let rest = All-drop_at s.account s.seen_requests n c.seen_own in
      let own = owner_at s.account s.seen_requests n owner c.seen_own e in
      rw (e, seen_answered)
        (record {
          session_own = c.session_own;
          reload_own = c.reload_own;
          seen_own = rest;
          shown_own = λ h. own;
          one_fetch = c.one_fetch;
          loading_exact = c.loading_exact;
        })

  dismiss-IsOwn : {s : Tour} → IsOwn s → IsOwn (dismiss s)
  unfolding dismiss
  dismiss-IsOwn c = ground arith

  Step-IsOwn : {s t : Tour} → Step s t → IsOwn s → IsOwn t
  Step-IsOwn (changes user e) c = rw e (user_changed-IsOwn user c)
  Step-IsOwn {s} (fetches answer e) c = rw e (session_fetched_at s answer s.session_fetch refl c)
  Step-IsOwn (reloads e) c = rw e (reload-IsOwn c)
  Step-IsOwn {s} (refetches answer e) c = rw e (reloaded_at s answer s.reload_fetch refl c)
  Step-IsOwn (views e) c = rw e (seen-IsOwn c)
  Step-IsOwn {s} (viewed n answer e) c =
      rw e (seen_answered_at s n answer (get_elem? s.seen_requests n) refl c)
  Step-IsOwn (dismisses e) c = rw e (dismiss-IsOwn c)

  -- Whatever the order of users, reloads, views and answers: the tour that is shown answers a
  -- request that was made for the present account, so do all requests in flight, at most one fetch
  -- runs, and the loading indicator stands exactly while it does.
  pub Reach-IsOwn : {s : Tour} → Reach s → IsOwn s
  unfolding new
  Reach-IsOwn start = ground arith
  Reach-IsOwn (step r st) = Step-IsOwn st (Reach-IsOwn r)
