-- ===== src/Diagnostics/Snapshot/Rows.antt =====
-- diagnostics/endpoint.py: the loop of `build_snapshot` over the positions, against the rows that
-- each part of the report is about.
use auto_trader_claude.Base.{
  ◌≡◌, refl, ap, ◌∙◌, if◌then◌else◌, ℕ, Bool, true, false, List, [], ◌∷◌, map, length, keep, Dict,
}
use auto_trader_claude.Number.{Number}
use auto_trader_claude.Core.Types.{
  PositionStatus, opened, naked_spot, naked_perp, closed, is_open, is_naked, status_text,
}
use auto_trader_claude.State.Models.{Position}
use auto_trader_claude.State.Repository.Queries.{count}
use auto_trader_claude.Diagnostics.Snapshot.{
  OpenReport, NakedReport, Sorted, age_hours, naked_report, file, sort_positions,
}

abbrev is_naked_spot : PositionStatus → Bool
is_naked_spot naked_spot = true
is_naked_spot _ = false

abbrev is_naked_perp : PositionStatus → Bool
is_naked_perp naked_perp = true
is_naked_perp _ = false

abbrev is_closed : PositionStatus → Bool
is_closed closed = true
is_closed _ = false

abbrev add_if : {B : Type 0} → Bool → B → List B → List B
add_if test x xs = if test then x ∷ xs else xs

add_if-map :
    {B C : Type 0} (test : Bool) (f : B → C) (x : B) (xs : List B) {ys : List C}
    → ys ≡ map f xs
    → add_if test (f x) ys ≡ map f (add_if test x xs)
add_if-map true f x xs h = ap (λ rest. f x ∷ rest) h
add_if-map false f x xs h = h

module _ {A : Type 0} where
  abbrev having : (PositionStatus → Bool) → List (Position A) → List (Position A)
  having test ps = keep (λ (p : Position A). test p.status) ps

  -- the entry price of the leg that a naked position holds
  abbrev leg_price : Position A → PositionStatus → A
  leg_price p naked_spot = p.spot_entry_price
  leg_price p _ = p.perp_entry_price

  abbrev counts : List (Position A) → Dict ℕ
  counts ps =
      ("open", length (having is_open ps))
      ∷ ("naked_spot", length (having is_naked_spot ps))
      ∷ ("naked_perp", length (having is_naked_perp ps))
      ∷ ("closed", length (having is_closed ps))
      ∷ []

  count-counts :
      (p : Position A) (status : PositionStatus) (ps : List (Position A))
      → count (status_text status) (counts ps)
        ≡ ("open", length (add_if (is_open status) p (having is_open ps)))
          ∷ ("naked_spot", length (add_if (is_naked_spot status) p (having is_naked_spot ps)))
          ∷ ("naked_perp", length (add_if (is_naked_perp status) p (having is_naked_perp ps)))
          ∷ ("closed", length (add_if (is_closed status) p (having is_closed ps)))
          ∷ []
  count-counts p opened ps = refl
  count-counts p naked_spot ps = refl
  count-counts p naked_perp ps = refl
  count-counts p closed ps = refl

module _ {A : Type 0} ⦃n : Number A⦄ where
  abbrev open_report_of : ℕ → Position A → OpenReport A
  open_report_of now p = record { position = p; age = age_hours p.opened_at now }

  abbrev naked_report_of : ℕ → Position A → NakedReport A
  naked_report_of now p = naked_report now p (leg_price p p.status)

  -- One row for each open and each naked position, in the order of the table, with its age and
  -- the price of the leg it holds; and the number of positions under each status.
  pub record IsSorted (now : ℕ) (ps : List (Position A)) (r : Sorted A) : Type 0 where
    pub by_status : r.by_status ≡ counts ps
    pub open_reports : r.open_reports ≡ map (open_report_of now) (having is_open ps)
    pub naked_reports : r.naked_reports ≡ map (naked_report_of now) (having is_naked ps)

  file-open_reports :
      (now : ℕ) (p : Position A) (status : PositionStatus) (r : Sorted A)
      → (file now p status r).open_reports
        ≡ add_if (is_open status) (open_report_of now p) r.open_reports
  file-open_reports now p opened r = refl
  file-open_reports now p naked_spot r = refl
  file-open_reports now p naked_perp r = refl
  file-open_reports now p closed r = refl

  file-naked_reports :
      (now : ℕ) (p : Position A) (status : PositionStatus) (r : Sorted A)
      → (file now p status r).naked_reports
        ≡ add_if (is_naked status) (naked_report now p (leg_price p status)) r.naked_reports
  file-naked_reports now p opened r = refl
  file-naked_reports now p naked_spot r = refl
  file-naked_reports now p naked_perp r = refl
  file-naked_reports now p closed r = refl

  file-by_status :
      (now : ℕ) (p : Position A) (status : PositionStatus) (r : Sorted A)
      → (file now p status r).by_status ≡ r.by_status
  file-by_status now p opened r = refl
  file-by_status now p naked_spot r = refl
  file-by_status now p naked_perp r = refl
  file-by_status now p closed r = refl

  pub sort_positions-IsSorted :
      (now : ℕ) (ps : List (Position A)) → IsSorted now ps (sort_positions now ps)
  unfolding sort_positions
  sort_positions-IsSorted now [] = record {
    by_status = refl;
    open_reports = refl;
    naked_reports = refl;
  }
  sort_positions-IsSorted now (p ∷ ps) =
      let h = sort_positions-IsSorted now ps in
      record {
        by_status =
            ap (count (status_text p.status)) (file-by_status now p p.status _ ∙ h.by_status)
            ∙ count-counts p p.status ps;
        open_reports =
            file-open_reports now p p.status _
            ∙ add_if-map (is_open p.status) (open_report_of now) p _ h.open_reports;
        naked_reports =
            file-naked_reports now p p.status _
            ∙ add_if-map (is_naked p.status) (naked_report_of now) p _ h.naked_reports;
      }
