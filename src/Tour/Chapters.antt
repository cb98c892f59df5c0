-- ===== src/Tour/Chapters.antt =====
-- frontend/src/app/tour/tour.component.ts: the walk through the chapters of the tour.
-- `state`, `loading` and `generation` are the signals of `TourService`. While `saving` stands, the
-- request of `seen` is in flight; `flowChanged` ends it.
use asl_bissieux.Prelude.{
  ℕ, zero, suc, ◌+◌, ◌-◌, ◌<◌, ◌≡◌, refl, ◌⊎◌, sym, ◌∙◌, Bool, true, false, ◌&&◌, not, List, [],
  ◌∷◌, map, Option, none, some, arith, if◌then◌else◌, ◌==◌, ltb, leb, length, find?, filter,
  get_elem?, get_or, is_some, All,
}
use mathlib.Core.Path.{subst}
use asl_bissieux.Prelude.Strings.{String}
use asl_bissieux.Tour.{TourStep, TourState, steps_of, is_unseen, same_text}

pub data SaveError : Type 0 where
  conflict unsaved : SaveError

pub record Visit : Type 0 where
  -- The parameter `mode` of the address is "all".
  pub all : Bool
  pub ids : Option (List (Option String))
  pub index : ℕ
  pub finished : Bool
  pub saving : Bool
  pub save_error : Option SaveError
  -- `none` is -1.
  pub session_generation : Option ℕ

abbrev has_id : Option String → TourStep → Bool
has_id id step = same_text step.id id

-- `flatMap` over the identifiers: those that the tour still has.
unfoldable pub chapters_of : List TourStep → List (Option String) → List TourStep
chapters_of steps [] = []
chapters_of steps (id ∷ ids) =
    let rest = chapters_of steps ids in
    elim (find? (has_id id) steps) [ none ↦ rest | some step ↦ step ∷ rest ]

-- `chapters`
abbrev pub chapters : Option TourState → Visit → List TourStep
chapters state v = chapters_of (steps_of state) (get_or v.ids [])

-- `resetSession`
unfoldable pub reset_session : Visit → Visit
reset_session v = record v {
  ids = none;
  index = 0;
  finished = false;
  saving = false;
  save_error = none;
}

-- The subscription to the parameters of the address.
unfoldable pub set_mode : Bool → Visit → Visit
unfolding reset_session
set_mode all v = reset_session (record v { all = all })

abbrev is_current : Option ℕ → ℕ → Bool
is_current none generation = false
is_current (some last) generation = last == generation

-- The first `if` of the effect.
follow : ℕ → Visit → Visit
unfolding reset_session
follow generation v =
    if is_current v.session_generation generation
    then v
    else reset_session (record v { session_generation = some generation })

-- The second: the chapters are chosen once the tour has come.
choose : Option TourState → Bool → Visit → Visit
choose state loading v =
    if is_some state && not loading && not (is_some v.ids)
    then record v {
      ids =
          some
            (map (λ s. s.id) (if v.all then steps_of state else filter is_unseen (steps_of state)));
    }
    else v

-- The third: the index stays among the chapters.
bound : Option TourState → Visit → Visit
bound state v =
    if leb (length (chapters state v)) v.index
    then record v { index = length (chapters state v) - 1 }
    else v

unfoldable pub effect : ℕ → Option TourState → Bool → Visit → Visit
unfolding follow choose bound
effect generation state loading v = bound state (choose state loading (follow generation v))

-- `previous`
unfoldable pub previous : Visit → Visit
previous v =
    if not v.saving && ltb 0 v.index then record v { index = v.index - 1; save_error = none } else v

-- `advance`
unfoldable pub advance : Option TourState → Visit → Visit
advance state v =
    if ltb (v.index + 1) (length (chapters state v))
    then record v { index = v.index + 1 }
    else record v { finished = true }

-- `next`, up to the request of `seen`.
unfoldable pub next : Option TourState → Visit → Visit
unfolding advance
next state v = elim (get_elem? (chapters state v) v.index) [
  | none ↦ v
  | some step ↦
      if v.saving
      then v
      else if not (is_unseen step)
      then advance state (record v { save_error = none })
      else record v { save_error = none; saving = true }
]

-- The request is answered; the service has taken the new state.
unfoldable pub saved : Option TourState → Visit → Visit
unfolding advance
saved state v = if v.saving then (let t = advance state v in record t { saving = false }) else v

-- It fails with a status.
unfoldable pub save_failed : ℕ → Visit → Visit
save_failed status v =
    if v.saving
    then record v {
      saving = false;
      save_error = some (if status == 409 then conflict else unsaved);
    }
    else v

-- `next`, clicked a number of times.
unfoldable pub walk : ℕ → Option TourState → Visit → Visit
walk zero state v = v
walk (suc n) state v = walk n state (next state v)

bound-bounded :
    (state : Option TourState) (w : Visit)
    → ((bound state w).index < length (chapters state (bound state w)))
      ⊎ (((bound state w).index ≡ 0) × (length (chapters state (bound state w)) ≡ 0))
unfolding bound
bound-bounded state w = ground arith

-- Every run of the effect leaves the index among the chapters, or at 0 where there is none.
pub effect-bounded :
    (generation : ℕ) (state : Option TourState) (loading : Bool) (v : Visit)
    → ((effect generation state loading v).index
        < length (chapters state (effect generation state loading v)))
      ⊎ (((effect generation state loading v).index ≡ 0)
          × (length (chapters state (effect generation state loading v)) ≡ 0))
unfolding effect
effect-bounded generation state loading v =
    bound-bounded state (choose state loading (follow generation v))

get_elem?-All :
    {P : TourStep → Type 0} (xs : List TourStep) (n : ℕ)
    → All P xs
    → n < length xs
    → (x : TourStep) × (get_elem? xs n ≡ some x) × P x
get_elem?-All [] n a h = absurd (omega arith)
get_elem?-All (x ∷ xs) zero a h = (x, refl, a.0)
get_elem?-All (x ∷ xs) (suc n) a h = get_elem?-All xs n a.1 (omega arith)

-- The visit stands at the last chapter and is finished.
abbrev pub IsOver : Option TourState → Visit → Type 0
IsOver state v = (v.finished ≡ true) × (v.index + 1 ≡ length (chapters state v))

next_of_seen :
    (state : Option TourState) (v : Visit)
    → v.saving ≡ false
    → All (λ s. is_unseen s ≡ false) (chapters state v)
    → v.index < length (chapters state v)
    → next state v ≡ advance state (record v { save_error = none })
unfolding next
next_of_seen state v idle seen h =
    let (step, here, old) = get_elem?-All (chapters state v) v.index seen h in
    rw (here, next) (rw (idle, old) refl)

-- From any chapter of a tour that has been seen, with no request running, as many clicks on `next`
-- as chapters are left end the visit at the last chapter: nothing is saved or refused on the way.
pub walk-IsOver :
    (n : ℕ) (state : Option TourState) (v : Visit)
    → v.saving ≡ false
    → All (λ s. is_unseen s ≡ false) (chapters state v)
    → v.index + suc n ≡ length (chapters state v)
    → IsOver state (walk (suc n) state v)
unfolding walk advance
walk-IsOver zero state v idle seen h =
    rw (next_of_seen state v idle seen (omega arith)) (ground arith)
walk-IsOver (suc n) state v idle seen h =
    let moved : next state v ≡ record v { save_error = none; index = v.index + 1 } =
      next_of_seen state v idle seen (omega arith) ∙ ground arith in
    subst (λ w. IsOver state (walk (suc n) state w)) (sym moved)
      (walk-IsOver n state (record v { save_error = none; index = v.index + 1 }) idle seen
        (omega arith))
