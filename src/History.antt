-- ===== src/History.antt =====
-- Paged reads of the account's history (common/history.py). A window is a pair of Unix times in
-- milliseconds; the function that sends a request is a parameter, which may fail.
pub mod Windows
pub mod Pages
pub mod Complete
pub mod Reads
use nautilus_ctrader_adapter.Prelude.{
  ℕ, zero, suc, ◌+◌, ◌-◌, min, Bool, true, false, ◌&&◌, ◌||◌, Option, none, some, List, [], ◌∷◌,
  ltb, leb, nat_eq, if◌then◌else◌,
}
use nautilus_ctrader_adapter.Prelude.Eq.{ℕ_eq}
use nautilus_ctrader_adapter.Prelude.Dict.{Dict, set_default, values}
use nautilus_ctrader_adapter.Prelude.Sort.{sorted}
use nautilus_ctrader_adapter.Messages.{Deal, Order, stated}

abbrev pub Window : Type 0
Window = ℕ × ℕ

-- `WEEK_MS`
abbrev pub week_ms : ℕ
week_ms = 604800000

-- `_LATEST_MS`
abbrev pub latest_ms : ℕ
latest_ms = 2147483646000

-- The loop of `weekly_windows`. Each round leaves less, so `to_ms - start` rounds are enough.
pub windows_from : ℕ → ℕ → ℕ → List Window
windows_from zero start to_ms = []
windows_from (suc fuel) start to_ms =
    let end : ℕ = min (start + week_ms) to_ms in
    let rest = windows_from fuel end to_ms in if ltb start to_ms then (start, end) ∷ rest else []

pub weekly_windows : ℕ → ℕ → List Window
unfolding windows_from
weekly_windows from_ms to_ms = windows_from (to_ms - from_ms) from_ms to_ms

-- `items[-1]`, of a list and the item before it.
abbrev pub last_of {ℓ} : {A : Type ℓ} → A → List A → A
last_of a [] = a
last_of a (b ∷ items) = last_of b items

abbrev pub window_eq : Window → Window → Bool
window_eq (a, b) (c, d) = nat_eq a c && nat_eq b d

abbrev narrowed : Window → Window → Option Window
narrowed next window = if window_eq next window then none else some next

-- `_next_window`
pub next_window : {Item : Type 0} → (Item → ℕ) → List Item → Window → Option Window
next_window time_of [] window = none
next_window time_of (item ∷ items) window =
    let first : ℕ = time_of item in
    let last : ℕ = time_of (last_of item items) in
    if ltb first last
    then narrowed (last, window.1) window
    else if ltb last first
    then narrowed (window.0, last) window
    else none

-- What one page adds to the items found.
abbrev pub gather : {Item : Type 0} → (Item → ℕ) → List Item → Dict ℕ Item → Dict ℕ Item
gather id_of [] found = found
gather id_of (item ∷ items) found = gather id_of items (set_default (id_of item) item found)

module _ {Item Query Page : Type 0} (id_of time_of : Item → ℕ) (items_of : Page → List Item)
    (has_more : Page → Bool) where
  -- The rounds of `_paged` that are left; the first query, where one is given, takes the place of
  -- the window's own. A request that fails ends the read with its error.
  pub paged_from :
      ℕ
      → (Query → Option Page)
      → (Window → Query)
      → Option Query
      → Window
      → Dict ℕ Item
      → Option (List Item × Bool)
  unfolding next_window
  paged_from zero request ask first current found = some (values found, false)
  paged_from (suc pages) request ask first current found =
      elim (request (elim first [ none ↦ ask current | some query ↦ query ])) [
        | none ↦ none
        | some page ↦
            let found' = gather id_of (items_of page) found in
            elim (has_more page) [
              | false ↦ some (values found', true)
              | true ↦ elim (next_window time_of (items_of page) current) [
                | none ↦ some (values found', false)
                | some next ↦ paged_from pages request ask none next found'
              ]
            ]
      ]

  -- `_paged`
  abbrev pub paged :
      (Query → Option Page)
      → (Window → Query)
      → Window
      → ℕ
      → Option Query
      → Option (List Item × Bool)
  paged request ask window max_pages first = paged_from max_pages request ask first window []

infixl 5 ◌>>=◌
abbrev ◌>>=◌ {ℓ κ} : {A : Type ℓ} {B : Type κ} → Option A → (A → Option B) → Option B
none >>= f = none
some a >>= f = f a

-- `ProtoOADealListReq`, `ProtoOADealListByPositionIdReq` and `ProtoOAOrderListReq`.
pub data Query : Type 0 where
  deal_list : ℕ → Window → Query
  position_deal_list : ℕ → ℕ → Option Window → Query
  order_list : ℕ → Window → Query

-- A page of a list and its `hasMore`.
pub record Page (A : Type 0) : Type 0 where
  pub items : List A
  pub has_more : Bool

abbrev pub items_of : {A : Type 0} → Page A → List A
items_of page = page.items

abbrev pub more_of : {A : Type 0} → Page A → Bool
more_of page = page.has_more

abbrev pub id_of_deal : Deal → ℕ
id_of_deal deal = deal.deal_id

abbrev pub time_of_deal : Deal → ℕ
time_of_deal deal = deal.execution_timestamp

abbrev pub id_of_order : Order → ℕ
id_of_order order = order.order_id

abbrev pub time_of_order : Order → ℕ
time_of_order order = stated order.last_update

-- The comparison of `(time, id)` pairs.
abbrev pub time_le : {A : Type 0} → (A → ℕ) → (A → ℕ) → A → A → Bool
time_le id_of time_of a b =
    ltb (time_of a) (time_of b) || (nat_eq (time_of a) (time_of b) && leb (id_of a) (id_of b))

-- `_oldest_first`
abbrev pub oldest_first : List Deal → List Deal
oldest_first deals = sorted (time_le id_of_deal time_of_deal) deals

module _ (account_id : ℕ) where
  pub deals_between : (Query → Option (Page Deal)) → ℕ → ℕ → ℕ → Option (List Deal × Bool)
  unfolding paged_from
  deals_between request from_ms to_ms max_pages = do
    (found, complete) ←
        paged id_of_deal time_of_deal items_of more_of request (deal_list account_id)
          (from_ms, to_ms) max_pages none
    some (oldest_first found, complete)

  pub position_deals : (Query → Option (Page Deal)) → ℕ → ℕ → Option (List Deal × Bool)
  unfolding paged_from
  position_deals request position_id max_pages = do
    (found, complete) ←
        paged id_of_deal time_of_deal items_of more_of request
          (λ window. position_deal_list account_id position_id (some window)) (0, latest_ms)
          max_pages (some (position_deal_list account_id position_id none))
    some (oldest_first found, complete)

  pub orders_between : (Query → Option (Page Order)) → ℕ → ℕ → ℕ → Option (List Order)
  unfolding paged_from
  orders_between request from_ms to_ms max_pages = do
    (found, _) ←
        paged id_of_order time_of_order items_of more_of request (order_list account_id)
          (from_ms, to_ms) max_pages none
    some (sorted (time_le id_of_order time_of_order) found)
