-- ===== src/Source/Paged/Requests.antt =====
-- The two sources that load pages: `EmailCampaignDataSource` and `EmailDataSource`
-- (frontend/src/app/emails/datasources/campaign.datasource.ts and email.datasource.ts).
-- The request stands for the argument of `ApiService.listEmailCampaigns` and `listEmails`; the
-- response is the generated schema, whose fields may be missing.
use asl_bissieux.Prelude.{
  ℕ, ◌+◌, ◌≡◌, ◌≢◌, false, List, [], Option, none, some, arith, if◌then◌else◌, get_or, ◌==◌,
}
use asl_bissieux.Prelude.Int.{ℤ, pos, ◌+ℤ◌, ◌-ℤ◌, +ℤ_parts, -ℤ_parts, eq_of_parts}
use asl_bissieux.Prelude.Strings.{String, str_eq, eq_iff}
use asl_bissieux.Source.Paged.{
  PageResult, Fields, waiting, requested, Paged, timeout, receive, refuse, set_filter, set_page,
  set_extra,
}

pub record Request : Type 0 where
  pub page : ℤ
  pub page_size : ℕ
  pub query : String
  pub sort : String
  pub direction : String
  -- `undefined` is left out of the query string.
  pub state : Option String

pub record Response {ℓ} (T : Type ℓ) : Type ℓ where
  pub items : Option (List T)
  pub page : Option ℤ
  pub page_size : Option ℕ
  pub total : Option ℕ

-- `EmailCampaignDataSource.fetchPage`
unfoldable pub campaign_request : Fields (Unit {0}) → Request
campaign_request f = record {
  page = f.page_index +ℤ pos 1;
  page_size = f.page_size;
  query = f.query;
  sort = f.order.active;
  direction = f.order.direction;
  state = none;
}

-- `EmailDataSource.fetchPage`, whose own field is `filterState`.
unfoldable pub email_request : Fields String → Request
email_request f = record {
  page = f.page_index +ℤ pos 1;
  page_size = f.page_size;
  query = f.query;
  sort = f.order.active;
  direction = f.order.direction;
  state = if str_eq f.extra "" then none else some f.extra;
}

-- The `map` of both: the schema's defaults.
unfoldable pub read_page {ℓ} : {X T : Type ℓ} → Fields X → Response T → PageResult T
read_page f response = record {
  page = record {
    page_index = get_or response.page (pos 1) -ℤ pos 1;
    page_size = get_or response.page_size f.page_size;
    total = get_or response.total 0;
  };
  items = get_or response.items [];
}

module _ {T E X : Type 0} (fetch_page : Fields X → Request) (missing : E) where
  -- The answer to the call with this number; an empty body throws `missing`.
  unfoldable pub answer : ℕ → Option (Response T) → Paged T E X Request → Paged T E X Request
  answer n none s = refuse fetch_page n missing s
  answer n (some response) s = receive fetch_page n (read_page s.fields response) s

-- `EmailDataSource.setState`
unfoldable pub set_state :
    {T E : Type 0} → String → Paged T E String Request → Paged T E String Request
unfolding set_extra
set_state state s = if str_eq state s.fields.extra then s else set_extra email_request state s

shift_back : (p : ℤ) → p +ℤ pos 1 -ℤ pos 1 ≡ p
shift_back p = omega (arith, +ℤ_parts, -ℤ_parts, eq_of_parts)

module _ {T E : Type 0} (missing : E) where
  -- A server that answers with the page and the size that were asked for leaves the source where
  -- it is: the next reload makes the same request.
  pub answer-echo :
      (s : Paged T E String Request) (response : Response T)
      → s.fetch ≡ requested (email_request s.fields)
      → response.page ≡ some (email_request s.fields).page
      → response.page_size ≡ some (email_request s.fields).page_size
      → email_request (answer email_request missing s.generation (some response) s).fields
        ≡ email_request s.fields
  unfolding answer receive read_page email_request
  answer-echo s response h p q = ground (arith, shift_back s.fields.page_index)

  -- A new query asks for the first page, and only when the timer of 250 ms ends.
  pub set_filter-timeout :
      (s : Paged T E String Request) (q : String)
      → s.base.stopped ≡ false
      → q ≢ s.fields.query
      → ((set_filter email_request q s).fetch ≡ waiting 250)
        × ((timeout email_request (s.generation + 1) (set_filter email_request q s)).fetch
            ≡ requested (record {
              page = pos 1;
              page_size = s.fields.page_size;
              query = q;
              sort = s.fields.order.active;
              direction = s.fields.order.direction;
              state = if str_eq s.fields.extra "" then none else some s.fields.extra;
            }))
  unfolding set_filter timeout email_request ◌+ℤ◌
  set_filter-timeout s q h d = ground (arith, eq_iff q s.fields.query)

  -- A page is asked for by its number from 1; with another size the first page is asked for.
  pub set_page-request :
      (s : Paged T E String Request) (i : ℤ) (size : ℕ)
      → s.base.stopped ≡ false
      → (set_page email_request i size s).fetch
        ≡ requested (record {
          page = if size == s.fields.page_size then i +ℤ pos 1 else pos 1;
          page_size = size;
          query = s.fields.query;
          sort = s.fields.order.active;
          direction = s.fields.order.direction;
          state = if str_eq s.fields.extra "" then none else some s.fields.extra;
        })
  unfolding set_page email_request ◌+ℤ◌
  set_page-request s i size h = ground arith

  -- A state other than the one that is shown asks for its first page at once.
  pub set_state-request :
      (s : Paged T E String Request) (state : String)
      → s.base.stopped ≡ false
      → state ≢ s.fields.extra
      → (set_state state s).fetch
        ≡ requested (record {
          page = pos 1;
          page_size = s.fields.page_size;
          query = s.fields.query;
          sort = s.fields.order.active;
          direction = s.fields.order.direction;
          state = if str_eq state "" then none else some state;
        })
  unfolding set_state email_request ◌+ℤ◌
  set_state-request s state h d = ground (arith, eq_iff state s.fields.extra)
