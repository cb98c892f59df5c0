-- ===== src/Source/Users.antt =====
-- frontend/src/app/users/datasources/user.datasource.ts: `UserDataSource` cancels the fetch in
-- flight before it starts another.
use asl_bissieux.Prelude.{
  ◌≤◌, ◌<◌, ◌≡◌, false, ◌||◌, List, Option, none, some, arith, if◌then◌else◌, ◌==◌, ltb,
}
use asl_bissieux.Prelude.Strings.{String, str_eq}
use asl_bissieux.Source.{Source, new, load, receive, finish, refuse, disconnect, set_loading}

-- The query of `_fetch`: `status: this.status || undefined`.
unfoldable pub status_query : String → Option String
status_query status = if str_eq status "" then none else some status

module _ {ℓ} {T E : Type ℓ} where
  -- `cancel$.next()`: the fetch in flight completes. Once `cancel$` has completed it reaches none.
  unfoldable pub cancel : Source T E → Source T E
  unfolding set_loading
  cancel s =
      if s.stopped || (s.running == 0)
      then s
      else (let t = set_loading false s in record t { running = 0 })

  unfoldable pub reload : Source T E → Source T E
  unfolding cancel load
  reload s = load (cancel s)

  unfoldable pub leave : Source T E → Source T E
  unfolding cancel disconnect
  leave s = disconnect (cancel s)

pub data UserStep {ℓ} {T E : Type ℓ} (s t : Source T E) : Type ℓ where
  loads : t ≡ reload s → UserStep s t
  receives : (rows : List T) → 0 < s.running → t ≡ receive rows s → UserStep s t
  finishes : 0 < s.running → t ≡ finish s → UserStep s t
  refuses : (e : E) → 0 < s.running → t ≡ refuse e s → UserStep s t
  disconnects : t ≡ leave s → UserStep s t

pub data UserReach {ℓ} {T E : Type ℓ} : Source T E → Type ℓ where
  start : UserReach new
  step : {s t : Source T E} → UserReach s → UserStep s t → UserReach t

-- At most one fetch runs, and the indicator stands exactly while it does.
pub record IsSingle {ℓ} {T E : Type ℓ} (s : Source T E) : Type ℓ where
  pub single : s.stopped ≡ false → s.running ≤ 1
  pub exact : s.stopped ≡ false → s.loading ≡ ltb 0 s.running

module _ {ℓ} {T E : Type ℓ} where
  UserStep-IsSingle : {s t : Source T E} → UserStep s t → IsSingle s → IsSingle t
  unfolding reload receive finish refuse leave
  UserStep-IsSingle (loads e) c = ground arith
  UserStep-IsSingle (receives rows h e) c = ground arith
  UserStep-IsSingle (finishes h e) c = ground arith
  UserStep-IsSingle (refuses x h e) c = ground arith
  UserStep-IsSingle (disconnects e) c = ground arith

  new-IsSingle : IsSingle (new {T = T} {E = E})
  unfolding new
  new-IsSingle = ground arith

  -- In a `UserDataSource` that is not disconnected at most one fetch runs, and the loading
  -- indicator stands exactly while one does.
  pub UserReach-IsSingle : {s : Source T E} → UserReach s → IsSingle s
  UserReach-IsSingle start = new-IsSingle
  UserReach-IsSingle (step r st) = UserStep-IsSingle st (UserReach-IsSingle r)
