-- ===== src/OrderRecord.antt =====
-- src/nautilus_ctrader/common/order_record.py: the adapter's records in an order's `label` and
-- `comment`. A text is the list of its code points; `raise` is a result.
pub mod Comment
pub mod Label
use nautilus_ctrader_adapter.Prelude.{
  ℕ, ◌≡◌, Bool, true, false, not, ◌&&◌, Option, none, some, List, [], ◌∷◌, ◌++◌, ltb, leb, nat_eq,
  if◌then◌else◌, length, all, drop, get_or,
}
use nautilus_ctrader_adapter.Prelude.Eq.{Text, ◌==◌, Text_eq, codes, text_eq}
use nautilus_ctrader_adapter.Prelude.Dict.{Dict, lookup, insert}

abbrev pub marker : Text
marker = codes "ntca1"

abbrev pub label_max : ℕ
label_max = 100

abbrev pub comment_max : ℕ
comment_max = 512

abbrev pub client_order_id_max : ℕ
client_order_id_max = 50

abbrev pub label_prefix : Text
label_prefix = codes "ntca1:"

abbrev pub field_separator : ℕ
field_separator = b'|'

abbrev pub stop_loss_key : Text
stop_loss_key = codes "sl"

abbrev pub take_profit_key : Text
take_profit_key = codes "tp"

pub data RecordError : Type 0 where
  not_recordable : RecordError
  record_too_long : RecordError

pub data Result {ℓ} (A : Type ℓ) : Type ℓ where
  ok : A → Result A
  err : RecordError → Result A

infixl 5 ◌>>=◌
abbrev pub ◌>>=◌ {ℓ κ} : {A : Type ℓ} {B : Type κ} → Result A → (A → Result B) → Result B
ok a >>= f = f a
err e >>= f = err e

pub record LegIds : Type 0 where
  pub stop_loss : Option Text
  pub take_profit : Option Text

abbrev pub is_recordable_char : ℕ → Bool
is_recordable_char c = leb b'!' c && leb c b'~' && not (nat_eq c field_separator)

abbrev is_empty : Text → Bool
is_empty [] = true
is_empty (c ∷ t) = false

abbrev pub is_recordable : Text → Bool
is_recordable order_id = not (is_empty order_id) && all is_recordable_char order_id

pub require_recordable : Text → Result Text
require_recordable order_id = if is_recordable order_id then ok order_id else err not_recordable

pub fit : Text → ℕ → Result Text
fit text limit = if ltb limit (length text) then err record_too_long else ok text

pub check_client_order_id : Text → Result Text
unfolding require_recordable fit
check_client_order_id entry_id = do fit (← require_recordable entry_id) client_order_id_max

unfoldable pub encode_label : Text → Result Text
unfolding require_recordable fit
encode_label entry_id = do
  recordable ← require_recordable entry_id
  fit (label_prefix ++ recordable) label_max

abbrev pub starts_with : Text → Text → Bool
starts_with [] t = true
starts_with (c ∷ s) [] = false
starts_with (c ∷ s) (d ∷ t) = nat_eq c d && starts_with s t

pub parse_label : Text → Option Text
parse_label label =
    if ltb label_max (length label)
    then none
    else if not (starts_with label_prefix label)
    then none
    else let entry_id = drop (length label_prefix) label in
      if is_recordable entry_id then some entry_id else none

-- `parts.append(f"{key}={order_id}")` for a leg id that is there.
pub leg_part : Text → Option Text → Result (List Text)
unfolding require_recordable
leg_part key none = ok []
leg_part key (some order_id) = do
  recordable ← require_recordable order_id
  ok ((key ++ b'=' ∷ recordable) ∷ [])

-- `sep.join(parts)`
abbrev pub join_rest : ℕ → List Text → Text
join_rest sep [] = []
join_rest sep (p ∷ ps) = sep ∷ (p ++ join_rest sep ps)

unfoldable pub encode_comment : LegIds → Result Text
unfolding leg_part fit
encode_comment legs = do
  stop ← leg_part stop_loss_key legs.stop_loss
  target ← leg_part take_profit_key legs.take_profit
  fit (marker ++ join_rest field_separator (stop ++ target)) comment_max

-- `text.split(sep)`: the first part, and the others.
abbrev pub split_first : ℕ → Text → Text
split_first sep [] = []
split_first sep (c ∷ t) = if nat_eq c sep then [] else c ∷ split_first sep t

abbrev pub split_rest : ℕ → Text → List Text
split_rest sep [] = []
split_rest sep (c ∷ t) =
    if nat_eq c sep then split_first sep t ∷ split_rest sep t else split_rest sep t

-- `text.partition("=")`: what stands before, whether the separator is there, what stands after.
abbrev pub partition : ℕ → Text → Text × Bool × Text
partition sep [] = ([], false, [])
partition sep (c ∷ t) =
    let (key, found, after) = partition sep t in
    if nat_eq c sep then ([], true, t) else (c ∷ key, found, after)

-- The loop over the comment's fields; `none` where it returns early.
pub read_fields : List Text → Dict Text Text → Option (Dict Text Text)
read_fields [] found = some found
read_fields (item ∷ fields) found =
    let (key, separator, order_id) = partition b'=' item in
    let known : Bool = if text_eq key stop_loss_key then true else text_eq key take_profit_key in
    let rest = read_fields fields (insert key order_id found) in
    if separator && known && is_recordable order_id then rest else none

-- What `parse_comment` does with the fields it found.
pub confirm : Text → Dict Text Text → Result (Option LegIds)
unfolding encode_comment
confirm comment found =
    let legs : LegIds = record {
      stop_loss = lookup stop_loss_key found;
      take_profit = lookup take_profit_key found;
    } in
    encode_comment legs >>= λ written. ok (if text_eq written comment then some legs else none)

pub parse_comment : Text → Result (Option LegIds)
unfolding read_fields confirm
parse_comment comment =
    if ltb comment_max (length comment)
    then ok none
    else if not (text_eq (split_first field_separator comment) marker)
    then ok none
    else elim (read_fields (split_rest field_separator comment) []) [
      | none ↦ ok none
      | some found ↦ confirm comment found
    ]
