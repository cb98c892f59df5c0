-- ===== src/Dashboard/Stream.antt =====
-- The streams of frontend/src/app/dashboard/dashboard.component.ts: a value that comes from the API
-- for a key, under `switchMap`.
-- `asked` is the key of the request in flight, `shown_for` that of the answer that `remote` holds; no
-- decision reads `shown_for`.
use asl_bissieux.Prelude.{
  ◌≡◌, refl, ◌≢◌, Bool, true, false, Option, none, some, arith, if◌then◌else◌, is_some,
}

-- `Remote`
pub record Remote {ℓ} (T : Type ℓ) : Type ℓ where
  pub loading : Bool
  pub error : Bool
  pub value : Option T

module _ {ℓ} {T : Type ℓ} where
  unfoldable pub empty : Remote T
  empty = record { loading = false; error = false; value = none }

  unfoldable pub loading : Remote T
  loading = record { loading = true; error = false; value = none }

  unfoldable pub success : Option T → Remote T
  success value = record { loading = false; error = false; value = value }

  unfoldable pub failure : Remote T
  failure = record { loading = false; error = true; value = none }

pub record Track {ℓ} (K T : Type ℓ) : Type ℓ where
  pub remote : Remote T
  pub asked : Option K
  pub shown_for : Option K

module _ {ℓ} {K T : Type ℓ} where
  -- Before the first key.
  unfoldable pub idle : Track K T
  unfolding empty
  idle = record { remote = empty; asked = none; shown_for = none }

  -- A key arrives: `tap`, then `switchMap`, which makes a request if it is wanted.
  unfoldable pub begin : Bool → K → Track K T → Track K T
  unfolding empty loading
  begin wanted key t =
      if wanted
      then record { remote = loading; asked = some key; shown_for = none }
      else record { remote = empty; asked = none; shown_for = none }

  -- The request in flight answers: `none` is a failure, `some none` is null.
  unfoldable pub answer : Option (Option T) → Track K T → Track K T
  unfolding success failure
  answer result t = elim t.asked [
    | none ↦ t
    | some key ↦ record {
      remote = elim result [ none ↦ failure | some value ↦ success value ];
      asked = none;
      shown_for = some key;
    }
  ]

  -- The stream ends (`takeUntil`): the request in flight is left.
  unfoldable pub leave : Track K T → Track K T
  leave t = record t { asked = none }

  -- What is asked for and shown is of the key.
  pub record IsFor (key : K) (t : Track K T) : Type ℓ where
    pub asked_for : t.asked ≢ none → t.asked ≡ some key
    pub value_for : t.remote.value ≢ none → t.shown_for ≡ some key
    pub loading_exact : t.remote.loading ≡ is_some t.asked
    pub error_alone : t.remote.error ≡ true → t.remote.value ≡ none

  pub idle-IsFor : (key : K) → IsFor key idle
  unfolding idle
  idle-IsFor key = ground arith

  pub begin-IsFor : (wanted : Bool) (key : K) (t : Track K T) → IsFor key (begin wanted key t)
  unfolding begin
  begin-IsFor wanted key t = ground arith

  pub answer-IsFor :
      (result : Option (Option T)) (key : K) (t : Track K T)
      → IsFor key t
      → IsFor key (answer result t)
  unfolding answer
  answer-IsFor result key t c = ground arith

  pub begin-unwanted :
      (wanted : Bool) (key : K) (t : Track K T) → wanted ≡ false → begin wanted key t ≡ idle
  unfolding begin idle
  begin-unwanted wanted key t e = rw e refl

  pub begin-no_value :
      (wanted : Bool) (key : K) (t : Track K T) → (begin wanted key t).remote.value ≡ none
  unfolding begin empty loading
  begin-no_value true key t = refl
  begin-no_value false key t = refl

  pub answer-idle : (result : Option (Option T)) → answer result idle ≡ idle
  unfolding answer idle
  answer-idle result = refl
