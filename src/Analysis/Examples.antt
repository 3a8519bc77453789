-- ===== src/Analysis/Examples.antt =====
-- Concrete items: one that runs short within its window, and one line beyond the window.
use synora_agentic_erp.Prelude.{◌≡◌, refl, some, [], ◌∷◌, arith}
use synora_agentic_erp.Prelude.Int.{pos, ◌<ℤ◌, ◌+ℤ◌, ◌-ℤ◌}
use synora_agentic_erp.Analysis.{
  shortage, ItemInput, analyze_item, negative_unknowns, sum_in_window,
}
use synora_agentic_erp.Analysis.Risks.{
  Means, risk-Means, in_window, analyze_item-in_window, risk-eq-shortage_iff,
}

abbrev bolts : ItemInput
bolts = record {
  item_code = "BOLT-M6";
  actual_qty = some (pos 40);
  horizon = 90;
  demand_lines =
      record { qty = pos 70; schedule_date = 30 }
      ∷ record { qty = pos 500; schedule_date = 120 }
      ∷ [];
  incoming_lines = record { qty = pos 10; schedule_date = 20 } ∷ [];
  open_mr_qty = some (pos 0);
}

bolts_complete : negative_unknowns bolts ≡ []
unfolding negative_unknowns
bolts_complete = refl

bolts_short : (analyze_item bolts).risk ≡ shortage
unfolding analyze_item negative_unknowns sum_in_window ◌+ℤ◌ ◌-ℤ◌
bolts_short = refl

bolts_lack : (analyze_item bolts).shortage_qty ≡ pos 20
unfolding analyze_item negative_unknowns sum_in_window ◌+ℤ◌ ◌-ℤ◌
bolts_lack = refl

risk-Means_example : Means (analyze_item bolts) (analyze_item bolts).risk
risk-Means_example = risk-Means bolts

analyze_item-in_window_example : analyze_item (in_window bolts) ≡ analyze_item bolts
analyze_item-in_window_example = analyze_item-in_window bolts bolts_complete

bolts_low : (pos 40 +ℤ sum_in_window 90 bolts.incoming_lines) <ℤ sum_in_window 90 bolts.demand_lines
unfolding sum_in_window ◌+ℤ◌
bolts_low = omega arith

risk-eq-shortage_iff_example : (analyze_item bolts).risk ≡ shortage
risk-eq-shortage_iff_example =
    (risk-eq-shortage_iff bolts (pos 40) (pos 0) bolts_complete refl refl).1 bolts_low
