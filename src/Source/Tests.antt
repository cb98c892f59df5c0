-- ===== src/Source/Tests.antt =====
-- The laws of the sources at concrete rows, calls and answers.
use asl_bissieux.Prelude.{ℕ, ◌≡◌, refl, ◌≢◌, false, List, [], ◌∷◌, some, arith}
use asl_bissieux.Prelude.Int.{pos, ◌+ℤ◌}
use asl_bissieux.Prelude.Strings.{String, eq_iff}
use asl_bissieux.Source
use asl_bissieux.Source.{Source}
use asl_bissieux.Source.Laws
use asl_bissieux.Source.Users.{UserReach, IsSingle, UserReach-IsSingle, reload}
use asl_bissieux.Source.Users
use asl_bissieux.Source.Paged
use asl_bissieux.Source.Paged.{Paged, PageResult, Fetch, waiting, requested}
use asl_bissieux.Source.Paged.Laws as Pages
use asl_bissieux.Source.Paged.Requests.{Request, Response, email_request}

-- A source of numbers, whose errors are numbers.
abbrev loading : Source ℕ ℕ
loading = Source.load Source.new

abbrev answered : Source ℕ ℕ
answered = Source.receive (1 ∷ 2 ∷ []) loading

answered-Reach : Laws.Reach answered
unfolding Source.load Source.new
answered-Reach =
    Laws.step (Laws.step Laws.start (Laws.loads refl))
      (Laws.receives (1 ∷ 2 ∷ []) (omega arith) refl)

Reach-IsOrderly_example : Laws.IsOrderly answered
Reach-IsOrderly_example = Laws.Reach-IsOrderly answered-Reach

answered_rows : answered.results ≡ 1 ∷ 2 ∷ []
unfolding Source.load Source.new Source.receive
answered_rows = refl

UserReach-IsSingle_example : IsSingle {T = ℕ} {E = ℕ} (reload (reload Source.new))
UserReach-IsSingle_example =
    UserReach-IsSingle (Users.step (Users.step Users.start (Users.loads refl)) (Users.loads refl))

-- The source of e-mails, whose rows are numbers here.
abbrev emails : Paged ℕ ℕ String Request
emails = Paged.load email_request 0 (Paged.new email_request "")

abbrev page_of_two : PageResult ℕ
page_of_two = record {
  page = record { page_index = pos 0; page_size = 25; total = 2 };
  items = 7 ∷ 8 ∷ [];
}

abbrev listed : Paged ℕ ℕ String Request
listed = Paged.receive email_request 1 page_of_two emails

listed-Reach : Pages.Reach email_request listed
listed-Reach =
    Pages.step (Pages.step (Pages.start "") (Pages.loads 0 refl))
      (Pages.receives 1 page_of_two refl)

Reach-IsCurrent_example : Pages.IsCurrent email_request listed
Reach-IsCurrent_example = Pages.Reach-IsCurrent email_request listed-Reach

listed_rows : (listed.base.results ≡ 7 ∷ 8 ∷ []) × (listed.base.loading ≡ false)
unfolding Paged.load Paged.new Paged.receive Source.new
listed_rows = (refl, refl)

-- The answers to the first call come late.
abbrev late : List (Pages.Arrival ℕ ℕ)
late = Pages.call_fails 1 4 ∷ Pages.page_comes 0 page_of_two ∷ []

abbrev response : Response ℕ
response = record {
  items = some (5 ∷ []);
  page = some (pos 1);
  page_size = some 25;
  total = some 1;
}

emails_asked : emails.fetch ≡ requested (email_request emails.fields)
unfolding Paged.load Paged.new email_request Source.new
emails_asked = refl

echo_page : response.page ≡ some (email_request emails.fields).page
unfolding Paged.load Paged.new email_request Source.new ◌+ℤ◌
echo_page = refl

echo_size : response.page_size ≡ some (email_request emails.fields).page_size
unfolding Paged.load Paged.new email_request Source.new
echo_size = refl

other_query : "loyer" ≢ listed.fields.query
unfolding Paged.load Paged.new Paged.receive Source.new
other_query = ground (arith, eq_iff "loyer" "")
