-- ===== src/Tests/ReportTests.antt =====
-- The report on the sample rows.
use searchcar_desktop.Base.{◌≡◌, refl, inl, [], ◌∷◌, map, In, text}
use searchcar_desktop.Store.{ReportItem, Change}
use searchcar_desktop.Report.Context.{report_key}
use searchcar_desktop.Report.Dedupe.{dedupe_report}
use searchcar_desktop.Report.Once.{
  Covers, DistinctKeys, dedupe_report-DistinctKeys, dedupe_report-Covers,
}
use searchcar_desktop.Tests.Samples.{sample_report, row, ascii_upper, ascii_space}

sample_changes :
    map (λ r. r.change) (dedupe_report ascii_upper ascii_space sample_report)
    ≡ Change.new_listing ∷ Change.material_update ∷ []
unfolding dedupe_report
sample_changes = refl

dedupe_report-DistinctKeys_example :
    DistinctKeys ascii_upper ascii_space (dedupe_report ascii_upper ascii_space sample_report)
dedupe_report-DistinctKeys_example =
    dedupe_report-DistinctKeys ascii_upper ascii_space sample_report

abbrev second_plate : ReportItem
second_plate = row Change.price_drop (text "12ga 3456") 1 30

dedupe_report-Covers_example :
    (r : ReportItem) × In r (dedupe_report ascii_upper ascii_space sample_report)
    × (report_key ascii_upper ascii_space r ≡ report_key ascii_upper ascii_space second_plate)
    × Covers r second_plate
dedupe_report-Covers_example =
    dedupe_report-Covers ascii_upper ascii_space sample_report second_plate (inl refl) refl
