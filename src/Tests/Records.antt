-- ===== src/Tests/Records.antt =====
-- Records in labels and comments, leg ids, prices, and what the node waits on.
use nautilus_ctrader_adapter.Prelude.{◌≡◌, ◌↔◌, refl, none, some, [], ◌∷◌, arith}
use nautilus_ctrader_adapter.Prelude.Eq.{codes, ℕ_eq}
use nautilus_ctrader_adapter.Prelude.Decimal.{decimal}
use nautilus_ctrader_adapter.OrderRecord.{
  ok, LegIds, parse_label, encode_label, parse_comment, encode_comment,
}
use nautilus_ctrader_adapter.OrderRecord.Label.{parse_label_iff}
use nautilus_ctrader_adapter.OrderRecord.Comment.{parse_comment_iff}
use nautilus_ctrader_adapter.LegId.{take_profit, leg_venue_order_id, parse_leg_venue_order_id}
use nautilus_ctrader_adapter.LegId.RoundTrip.{parse-leg_venue_order_id}
use nautilus_ctrader_adapter.Operations.{closing, OperationsInFlight}
use nautilus_ctrader_adapter.Operations.Closes.{closing-Answers, Answers}
use nautilus_ctrader_adapter.Tests.Data

parse_label_example :
    (parse_label (codes "ntca1:E-1") ≡ some (codes "E-1"))
    ↔ (encode_label (codes "E-1") ≡ ok (codes "ntca1:E-1"))
parse_label_example = parse_label_iff (codes "ntca1:E-1") (codes "E-1")

abbrev legs : LegIds
legs = record { stop_loss = some (codes "O-1"); take_profit = none }

parse_comment_example :
    (parse_comment (codes "ntca1|sl=O-1") ≡ ok (some legs))
    ↔ (encode_comment legs ≡ ok (codes "ntca1|sl=O-1"))
parse_comment_example = parse_comment_iff (codes "ntca1|sl=O-1") legs

leg_id_example : parse_leg_venue_order_id (codes "7-TP-12") ≡ some (7, take_profit, 12)
unfolding leg_venue_order_id decimal
leg_id_example = parse-leg_venue_order_id 7 take_profit 12 (codes "7-TP-12") (omega arith) refl

-- One amend of position 3 is in flight already.
abbrev amended : OperationsInFlight
amended = record Data.no_operations { amends = (3, 1) ∷ [] }

-- Two lost amends, and the levels of neither.
abbrev lost : OperationsInFlight
lost = record Data.no_operations {
  lost_amends = (3, Data.stop_levels 150 ∷ Data.stop_levels 160 ∷ []) ∷ [];
}

-- One close in flight, without an answer.
abbrev closing_one : OperationsInFlight
closing_one = record Data.no_operations {
  closes =
      (codes "C-1", record { close_position = 3; close_volume = 1000; anchor_ms = some 5 }) ∷ [];
}

closing_example : Answers 3 1000 9 8 closing_one (closing 3 1000 9 8 closing_one)
closing_example = closing-Answers 3 1000 9 8 closing_one
