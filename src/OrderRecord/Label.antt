-- ===== src/OrderRecord/Label.antt =====
-- The label's codec (common/order_record.py): reading is exactly the inverse of writing.
use nautilus_ctrader_adapter.Prelude.{
  ◌≡◌, ◌↔◌, refl, true, some, [], ◌∷◌, ◌++◌, arith, length, drop,
}
use nautilus_ctrader_adapter.Prelude.Eq.{Text}
use nautilus_ctrader_adapter.OrderRecord.{ok, parse_label, encode_label, starts_with, label_prefix}

starts_with-append : (p t : Text) → starts_with p t ≡ true → t ≡ p ++ drop (length p) t
starts_with-append [] t h = refl
starts_with-append (c ∷ p) [] h = ground arith
starts_with-append (c ∷ p) (d ∷ t) h = ground (arith, starts_with-append p t)

encode_label-parse_label :
    (label id : Text) → parse_label label ≡ some id → encode_label id ≡ ok label
unfolding parse_label encode_label
encode_label-parse_label label id h = ground (arith, starts_with-append label_prefix label)

parse_label-encode_label :
    (label id : Text) → encode_label id ≡ ok label → parse_label label ≡ some id
unfolding parse_label encode_label
parse_label-encode_label label id h = ground arith

-- A label is read as the record of an entry id exactly when it is the text that is written for it.
pub parse_label_iff :
    (label id : Text) → (parse_label label ≡ some id) ↔ (encode_label id ≡ ok label)
parse_label_iff label id = (encode_label-parse_label label id, parse_label-encode_label label id)
