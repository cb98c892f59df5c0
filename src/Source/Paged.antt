-- ===== src/Source/Paged.antt =====
-- frontend/src/app/shared/datasources/paged.datasource.ts: the class `PagedDataSource`, a source
-- whose rows come a page at a time, filtered and sorted by the server.
-- `switchMap` unsubscribes the fetch in flight when `reload` emits: each call of `load` has a
-- number, and an answer counts only under the number of the last call (`generation`).
pub mod Laws
pub mod Requests
use asl_bissieux.Prelude.{
  ℕ, ◌+◌, Bool, true, false, ◌||◌, ◌&&◌, List, [], Option, none, some, if◌then◌else◌, ◌==◌,
}
use asl_bissieux.Prelude.Int.{ℤ, pos}
use asl_bissieux.Prelude.Strings.{String, str_eq}
use asl_bissieux.Source
use asl_bissieux.Source.{Source}

-- `Sort` of the material table: a direction is "asc", "desc" or "".
pub record Order : Type 0 where
  pub active : String
  pub direction : String

pub record PageState : Type 0 where
  pub page_index : ℤ
  pub page_size : ℕ
  pub total : ℕ

pub record PageResult {ℓ} (T : Type ℓ) : Type ℓ where
  pub page : PageState
  pub items : List T

-- What a request is made of: the fields of the class, and those `extra` of the derived class.
pub record Fields {ℓ} (X : Type ℓ) : Type ℓ where
  pub page_index : ℤ
  pub page_size : ℕ
  pub query : String
  pub order : Order
  pub extra : X

-- The inner stream of `switchMap`: none, the timer, or the request.
pub data Fetch {ℓ} (R : Type ℓ) : Type ℓ where
  idle : Fetch R
  waiting : ℕ → Fetch R
  requested : R → Fetch R

pub record Paged {ℓ} (T E X R : Type ℓ) : Type ℓ where
  pub base : Source T E
  -- `state`, published as `page$`
  pub state : PageState
  pub fields : Fields X
  pub fetch : Fetch R
  pub generation : ℕ

abbrev pub start_order : Order
start_order = record { active = "created_at"; direction = "desc" }

-- `fetchPage`, the abstract method, is a parameter: the request that the fields make.
module _ {ℓ} {T E X R : Type ℓ} (fetch_page : Fields X → R) where
  unfoldable pub new : X → Paged T E X R
  unfolding Source.new
  new extra = record {
    base = Source.new;
    state = record { page_index = pos 0; page_size = 25; total = 0 };
    fields = record {
      page_index = pos 0;
      page_size = 25;
      query = "";
      order = start_order;
      extra = extra;
    };
    fetch = idle;
    generation = 0;
  }

  -- `load(delay)`: the fetch in flight is torn down (`finalize`), then the new one begins. The
  -- subscription to `reload` is gone once the source is disconnected.
  unfoldable pub load : ℕ → Paged T E X R → Paged T E X R
  unfolding Source.set_loading Source.set_error
  load delay s = if s.base.stopped then s else record s {
    base = Source.set_error none (Source.set_loading true s.base);
    fetch = if delay == 0 then requested (fetch_page s.fields) else waiting delay;
    generation = s.generation + 1;
  }

  -- The timer of the call with this number ends: `_fetch()` makes the request.
  unfoldable pub timeout : ℕ → Paged T E X R → Paged T E X R
  timeout n s = elim s.fetch [
    | waiting delay ↦
        if n == s.generation then record s { fetch = requested (fetch_page s.fields) } else s
    | _ ↦ s
  ]

  -- The request of the call with this number answers with a page.
  unfoldable pub receive : ℕ → PageResult T → Paged T E X R → Paged T E X R
  unfolding Source.set_results Source.set_loading
  receive n result s = elim s.fetch [
    | requested r ↦
        let fields = s.fields in
        if n == s.generation
        then record s {
          base = Source.set_loading false (Source.set_results result.items s.base);
          state = result.page;
          fields = record fields {
            page_index = result.page.page_index;
            page_size = result.page.page_size;
          };
          fetch = idle;
        }
        else s
    | _ ↦ s
  ]

  -- It fails: the error is published, and no rows.
  unfoldable pub refuse : ℕ → E → Paged T E X R → Paged T E X R
  unfolding Source.set_results Source.set_loading Source.set_error
  refuse n e s = elim s.fetch [
    | requested r ↦
        if n == s.generation
        then record s {
          base =
              Source.set_loading false (Source.set_results [] (Source.set_error (some e) s.base));
          fetch = idle;
        }
        else s
    | _ ↦ s
  ]

  unfoldable pub set_filter : String → Paged T E X R → Paged T E X R
  unfolding load
  set_filter query s =
      let fields = s.fields in
      if str_eq query fields.query
      then s
      else load 250 (record s { fields = record fields { query = query; page_index = pos 0 } })

  unfoldable pub set_sort : Order → Paged T E X R → Paged T E X R
  unfolding load
  set_sort sort s =
      let fields = s.fields in
      if str_eq sort.direction ""
        || (str_eq sort.active fields.order.active && str_eq sort.direction fields.order.direction)
      then s
      else load 0 (record s { fields = record fields { order = sort; page_index = pos 0 } })

  unfoldable pub set_page : ℤ → ℕ → Paged T E X R → Paged T E X R
  unfolding load
  set_page page_index page_size s =
      let fields = s.fields in
      load 0 (record s {
        fields = record fields {
          page_index = if page_size == fields.page_size then page_index else pos 0;
          page_size = page_size;
        };
      })

  -- A setter of a derived class: `extra` changes, and the first page is loaded.
  unfoldable pub set_extra : X → Paged T E X R → Paged T E X R
  unfolding load
  set_extra extra s =
      let fields = s.fields in
      load 0 (record s { fields = record fields { extra = extra; page_index = pos 0 } })

  -- `disconnect`: the subscription ends (`finalize`), the subjects complete.
  unfoldable pub disconnect : Paged T E X R → Paged T E X R
  unfolding Source.set_loading Source.disconnect
  disconnect s = record s {
    base = Source.disconnect (elim s.fetch [ idle ↦ s.base | _ ↦ Source.set_loading false s.base ]);
    fetch = idle;
  }
