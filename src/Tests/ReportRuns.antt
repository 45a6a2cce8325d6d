-- ===== src/Tests/ReportRuns.antt =====
-- A walk over the pages of a short table, and the report of a short import.
use kurultay.Base.{ℕ, ◌+◌, ◌≡◌, refl, none, some, String, List, [], ◌∷◌, arith, All}
use kurultay.Pages.{descending, is_past, to_cursor_page, list_page, walk}
use kurultay.Pages.Walk.{IsRead, walk_lem}
use kurultay.Skips.{
  card, label, archived, defaulted, malformed, Skip, scope_index, reason_index, to_report,
  push_samples, upsert, add_many, collect,
}
use kurultay.Skips.Counts.{counted, skipped, counted-to_report}
use kurultay.Skips.Order.{IsSorted, IsBounded, to_report-IsSorted}

abbrev newest_first : List ℕ
newest_first = 9 ∷ 7 ∷ 4 ∷ 2 ∷ 1 ∷ []

newest_first-IsRead : IsRead descending (λ id. id) newest_first
unfolding is_past
newest_first-IsRead = (
  (refl, (refl, (refl, (refl, tt)))),
  ((refl, (refl, (refl, tt))), ((refl, (refl, tt)), ((refl, tt), (tt, tt)))),
)

walk_lem_example :
    walk descending (λ id. id) 6 newest_first none 2 (λ id. id + 100)
    ≡ 109 ∷ 107 ∷ 104 ∷ 102 ∷ 101 ∷ []
walk_lem_example =
    walk_lem descending (λ id. id) (λ id. id + 100) newest_first 2 6 newest_first-IsRead
      (omega arith) (omega arith)

-- The client of this walk asks for three pages.
walk_run :
    walk descending (λ id. id) 3 newest_first none 2 (λ id. id + 100)
    ≡ 109 ∷ 107 ∷ 104 ∷ 102 ∷ 101 ∷ []
unfolding list_page to_cursor_page is_past
walk_run = refl

abbrev kept_text : String → String
kept_text text = text

abbrev dropped : List Skip
dropped =
    record { scope = label; reason = defaulted; count = 1; samples = some "mauve" ∷ [] }
    ∷ record { scope = card; reason = archived; count = 1; samples = some "Old" ∷ [] }
    ∷ record { scope = label; reason = defaulted; count = 3; samples = none ∷ some "teal" ∷ [] }
    ∷ record { scope = card; reason = malformed; count = 0; samples = [] }
    ∷ []

report_run :
    to_report (collect kept_text dropped)
    ≡ record { scope = card; reason = archived; count = 1; samples = "Old" ∷ [] }
      ∷ record { scope = label; reason = defaulted; count = 4; samples = "mauve" ∷ "teal" ∷ [] }
      ∷ []
unfolding to_report add_many upsert push_samples scope_index reason_index
report_run = refl

counted-to_report_example :
    counted label defaulted (to_report (collect kept_text dropped))
    ≡ skipped label defaulted dropped
counted-to_report_example = counted-to_report kept_text dropped label defaulted

to_report-IsSorted_example :
    IsSorted (to_report (collect kept_text dropped))
    × All IsBounded (to_report (collect kept_text dropped))
to_report-IsSorted_example = to_report-IsSorted kept_text dropped
