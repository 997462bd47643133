-- ===== src/History/Reads.antt =====
-- The reads of deals and orders (common/history.py, `deals_between`, `position_deals`,
-- `orders_between`).
use nautilus_ctrader_adapter.Prelude.{
  ℕ, ◌-◌, ◌<◌, ◌≡◌, Bool, true, Option, none, some, List, [], arith, inl, inr,
}
use nautilus_ctrader_adapter.Prelude.Dict.{values}
use nautilus_ctrader_adapter.Prelude.Sort.{
  Mem, sorted, Ascending, IsOrder, Mem-sorted, sorted-Ascending,
}
use nautilus_ctrader_adapter.Messages.{Deal, Order}
use nautilus_ctrader_adapter.History.{
  Window, Query, deal_list, position_deal_list, order_list, Page, items_of, more_of, id_of_deal,
  time_of_deal, id_of_order, time_of_order, time_le, latest_ms, deals_between, position_deals,
  orders_between,
}
use nautilus_ctrader_adapter.History.Pages.{Distinct, Identifies, IsKeyed-Distinct, sorted-Distinct}
use nautilus_ctrader_adapter.History.Complete.{Within, Answered, Spread, Finds, paged_from-Finds}

module _ {Item : Type 0} (id_of time_of : Item → ℕ) where
  time_le-IsOrder : IsOrder (time_le id_of time_of)
  time_le-IsOrder = ((λ a b h. ground (arith, h)), λ a b c h i. ground (arith, h, i))

  -- The items are in the order of their time, and of their id where the times are the same; each is
  -- one of the list in the window, and no id stands twice.
  abbrev pub IsListing : List Item → Window → List Item → Type 0
  IsListing listed window items =
      Ascending (time_le id_of time_of) items
      × Distinct id_of items
      × ((x : Item) → Mem x items → Mem x listed × Within window (time_of x))

  -- The items are all those of the list in the window.
  abbrev pub IsWhole : List Item → Window → List Item → Type 0
  IsWhole listed window items = (x : Item) → Mem x listed → Within window (time_of x) → Mem x items

  -- What a read finds, in order, and whether it is whole.
  abbrev pub Listing : Type 0 → ℕ → List Item → Window → Option (List Item × Bool) → Type 0
  Listing Spread pages listed window result =
      (items : List Item) × (complete : Bool) × (result ≡ some (items, complete))
      × IsListing listed window items
      × (complete ≡ true → IsWhole listed window items)
      × (Spread → window.1 - window.0 < pages → complete ≡ true)

  Finds-Listing :
      (Spread : Type 0) (pages : ℕ) (listed : List Item) (window : Window)
      (result : Option (List Item × Bool))
      → Finds id_of time_of Spread pages listed [] window result
      → (found : List Item) × (complete : Bool) × (result ≡ some (found, complete))
        × IsListing listed window (sorted (time_le id_of time_of) found)
        × (complete ≡ true → IsWhole listed window (sorted (time_le id_of time_of) found))
        × (Spread → window.1 - window.0 < pages → complete ≡ true)
  Finds-Listing Spread pages listed window result (d, complete, e, k, sound, full, enough) = (
    values d,
    complete,
    e,
    (
      sorted-Ascending (time_le id_of time_of) time_le-IsOrder (values d),
      sorted-Distinct id_of (time_le id_of time_of) (values d) (IsKeyed-Distinct id_of d k),
      λ x m. elim (sound x ((Mem-sorted (time_le id_of time_of) x (values d)).0 m)) [
        | inl n ↦ elim n [ ]
        | inr h ↦ h
      ],
    ),
    (λ c x m w. (Mem-sorted (time_le id_of time_of) x (values d)).1 (full c x (inr (m, w)))),
    enough,
  )

-- When the venue answers each request for deals with a page of one list of deals whose ids tell
-- them apart, in the order of time or against it, the read of a span returns deals of the list in
-- the span, oldest first and no id twice; when it says that the list ended these are all of them.
-- It says so, if every page that is cut off spans more than one millisecond, whenever there are more
-- pages than milliseconds in the span.
pub deals_between-Listing :
    (account_id from_ms to_ms max_pages : ℕ) (request : Query → Option (Page Deal))
    (listed : List Deal)
    → Identifies id_of_deal listed
    → ((w : Window)
        → Answered id_of_deal time_of_deal items_of more_of listed request
            (deal_list account_id w)
            w)
    → Listing id_of_deal time_of_deal
        (Spread id_of_deal time_of_deal items_of more_of request)
        max_pages
        listed
        (from_ms, to_ms)
        (deals_between account_id request from_ms to_ms max_pages)
unfolding deals_between
deals_between-Listing account_id from_ms to_ms max_pages request listed unique answers =
    let finds =
      paged_from-Finds id_of_deal time_of_deal items_of more_of max_pages request
        (deal_list account_id) none (from_ms, to_ms) [] listed unique (answers (from_ms, to_ms))
        answers tt (λ x m. elim m [ ]) in
    let (found, complete, e, listing, whole, enough) =
      Finds-Listing id_of_deal time_of_deal _ max_pages listed (from_ms, to_ms) _ finds in
    (
      sorted (time_le id_of_deal time_of_deal) found,
      complete,
      ground (arith, e),
      listing,
      whole,
      enough,
    )

-- The same of one position's deals, whose first request has no window and is answered as the span
-- of all times is.
pub position_deals-Listing :
    (account_id position_id max_pages : ℕ) (request : Query → Option (Page Deal))
    (listed : List Deal)
    → Identifies id_of_deal listed
    → Answered id_of_deal time_of_deal items_of more_of listed request
        (position_deal_list account_id position_id none)
        (0, latest_ms)
    → ((w : Window)
        → Answered id_of_deal time_of_deal items_of more_of listed request
            (position_deal_list account_id position_id (some w))
            w)
    → Listing id_of_deal time_of_deal
        (Spread id_of_deal time_of_deal items_of more_of request)
        max_pages
        listed
        (0, latest_ms)
        (position_deals account_id request position_id max_pages)
unfolding position_deals
position_deals-Listing account_id position_id max_pages request listed unique answer answers =
    let finds =
      paged_from-Finds id_of_deal time_of_deal items_of more_of max_pages request
        (λ w. position_deal_list account_id position_id (some w))
        (some (position_deal_list account_id position_id none)) (0, latest_ms) [] listed unique
        answer answers tt (λ x m. elim m [ ]) in
    let (found, complete, e, listing, whole, enough) =
      Finds-Listing id_of_deal time_of_deal _ max_pages listed (0, latest_ms) _ finds in
    (
      sorted (time_le id_of_deal time_of_deal) found,
      complete,
      ground (arith, e),
      listing,
      whole,
      enough,
    )

-- When the venue answers each request for orders with a page of one list of orders whose ids tell
-- them apart, by the time of their last update, the read of a span returns orders of the list in
-- the span, oldest first and no id twice, and all of them, if every page that is cut off spans more than
-- one millisecond, when there are more pages than milliseconds in the span.
pub orders_between-Listing :
    (account_id from_ms to_ms max_pages : ℕ) (request : Query → Option (Page Order))
    (listed : List Order)
    → Identifies id_of_order listed
    → ((w : Window)
        → Answered id_of_order time_of_order items_of more_of listed request
            (order_list account_id w)
            w)
    → (orders : List Order) × (orders_between account_id request from_ms to_ms max_pages
        ≡ some orders)
      × IsListing id_of_order time_of_order listed (from_ms, to_ms) orders
      × (Spread id_of_order time_of_order items_of more_of request
          → to_ms - from_ms < max_pages
          → IsWhole id_of_order time_of_order listed (from_ms, to_ms) orders)
unfolding orders_between
orders_between-Listing account_id from_ms to_ms max_pages request listed unique answers =
    let finds =
      paged_from-Finds id_of_order time_of_order items_of more_of max_pages request
        (order_list account_id) none (from_ms, to_ms) [] listed unique (answers (from_ms, to_ms))
        answers tt (λ x m. elim m [ ]) in
    let (found, complete, e, listing, whole, enough) =
      Finds-Listing id_of_order time_of_order _ max_pages listed (from_ms, to_ms) _ finds in
    (
      sorted (time_le id_of_order time_of_order) found,
      ground (arith, e),
      listing,
      λ spread less. whole (enough spread less),
    )
