-- ===== src/OrderRecord/Comment.antt =====
-- The comment's codec (common/order_record.py): reading is exactly the inverse of writing.
use nautilus_ctrader_adapter.Prelude.{
  ◌≡◌, ◌↔◌, refl, true, Option, none, some, [], ◌∷◌, ◌++◌, arith, all, if◌then◌else◌, Bool-cases,
  Option-cases, inl, inr, ltb, length,
}
use nautilus_ctrader_adapter.Prelude.Eq.{Text, codes, text_eq, text_eq_iff}
use nautilus_ctrader_adapter.Prelude.Dict.{Dict}
use nautilus_ctrader_adapter.OrderRecord.{
  Result, confirm, ◌>>=◌, ok, err, LegIds, parse_comment, encode_comment, read_fields, split_first,
  split_rest, field_separator, marker, is_recordable_char, comment_max,
}

split_first-recordable :
    (id t : Text)
    → all is_recordable_char id ≡ true
    → split_first field_separator (id ++ b'|' ∷ t) ≡ id
split_first-recordable [] t h = refl
split_first-recordable (c ∷ id) t h = ground (arith, split_first-recordable id t)

split_rest-recordable :
    (id t : Text)
    → all is_recordable_char id ≡ true
    → split_rest field_separator (id ++ b'|' ∷ t)
      ≡ split_first field_separator t ∷ split_rest field_separator t
split_rest-recordable [] t h = refl
split_rest-recordable (c ∷ id) t h = ground (arith, split_rest-recordable id t)

split_first-last :
    (id : Text) → all is_recordable_char id ≡ true → split_first field_separator (id ++ []) ≡ id
split_first-last [] h = refl
split_first-last (c ∷ id) h = ground (arith, split_first-last id)

split_rest-last :
    (id : Text) → all is_recordable_char id ≡ true → split_rest field_separator (id ++ []) ≡ []
split_rest-last [] h = refl
split_rest-last (c ∷ id) h = ground (arith, split_rest-last id)

confirm-written :
    (written : Result Text) (legs legs' : LegIds) (comment : Text)
    → (written >>= λ text. ok (if text_eq text comment then some legs' else none)) ≡ ok (some legs)
    → (written ≡ ok comment) × (legs' ≡ legs)
confirm-written (ok text) legs legs' comment h = ground (arith, text_eq_iff text comment)
confirm-written (err e) legs legs' comment h = cc

confirm-encode_comment :
    (comment : Text) (found : Dict Text Text) (legs : LegIds)
    → confirm comment found ≡ ok (some legs)
    → encode_comment legs ≡ ok comment
unfolding confirm
confirm-encode_comment comment found legs h =
    let (e, same) = confirm-written _ legs _ comment h in rw (← same) e

encode_comment-parse_comment :
    (comment : Text) (legs : LegIds)
    → parse_comment comment ≡ ok (some legs)
    → encode_comment legs ≡ ok comment
unfolding parse_comment
encode_comment-parse_comment comment legs h = elim (Bool-cases (ltb comment_max (length comment))) [
  | inl long ↦ cc (rw long at h)
  | inr fits ↦ elim (Bool-cases (text_eq (split_first field_separator comment) marker)) [
    | inr foreign ↦ cc (rw (fits, foreign) at h)
    | inl marked ↦ elim (Option-cases (read_fields (split_rest field_separator comment) [])) [
      | inl unread ↦ cc (rw (fits, marked, unread) at h)
      | inr (found, e) ↦ confirm-encode_comment comment found legs (rw (fits, marked, e) at h)
    ]
  ]
]

parse_comment-encode_comment :
    (comment : Text) (stop target : Option Text)
    → encode_comment (record { stop_loss = stop; take_profit = target }) ≡ ok comment
    → parse_comment comment ≡ ok (some (record { stop_loss = stop; take_profit = target }))
unfolding parse_comment
parse_comment-encode_comment comment none none h = ground (arith, text_eq_iff comment comment)
parse_comment-encode_comment comment (some a) none h =
    ground (arith, text_eq_iff comment comment, split_first-last a, split_rest-last a)
parse_comment-encode_comment comment none (some b) h =
    ground (arith, text_eq_iff comment comment, split_first-last b, split_rest-last b)
parse_comment-encode_comment comment (some a) (some b) h = ground (
  arith,
  text_eq_iff comment comment,
  split_first-recordable a (codes "tp=" ++ b ++ []),
  split_rest-recordable a (codes "tp=" ++ b ++ []),
  split_first-last b,
  split_rest-last b,
)

-- A comment is read as the record of `legs` exactly when it is the text that is written for them.
pub parse_comment_iff :
    (comment : Text) (legs : LegIds)
    → (parse_comment comment ≡ ok (some legs)) ↔ (encode_comment legs ≡ ok comment)
parse_comment_iff comment legs = (
  encode_comment-parse_comment comment legs,
  parse_comment-encode_comment comment legs.stop_loss legs.take_profit,
)
