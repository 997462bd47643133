-- ===== src/Venue/Load/Held.antt =====
-- The positions that a load leaves (common/venue_book.py: `load`, `apply`, `awaits_close`).
use nautilus_ctrader_adapter.Prelude.{
  ℕ, ◌≡◌, refl, ◌∙◌, Bool, true, false, Option, none, some, List, [], ◌∷◌, arith, ◌||◌, ◌&&◌, not,
  nat_eq_iff, Option-cases, inl, inr,
}
use nautilus_ctrader_adapter.Prelude.Eq.{ℕ_eq, Text}
use nautilus_ctrader_adapter.Prelude.Dict.{Dict, lookup, insert, lookup-insert, member, contains}
use nautilus_ctrader_adapter.Messages.{Order, VenuePosition, Snapshot, stated}
use nautilus_ctrader_adapter.Records.{Record}
use nautilus_ctrader_adapter.VenueState.{Position, Book, Callbacks}
use nautilus_ctrader_adapter.Venue.Load.{
  load, load_positions, load_position, load_orders, load_order, protect, open_all, gone_positions,
  is_listed, ids_of, update, cleared, has_live_leg, still_waiting, settled,
}

load_positions-contains :
    (c : Callbacks) (waiting : List Text) (lists : Dict ℕ (List Order))
    (states : List VenuePosition) (positions : Dict ℕ Position) (id : ℕ) (records : List Record)
    → (load_positions c waiting lists states positions).1 ≡ some records
    → contains id (load_positions c waiting lists states positions).0
      ≡ (is_listed id states || contains id positions)
unfolding load_positions
load_positions-contains c waiting lists [] positions id records h = refl
load_positions-contains c waiting lists (state ∷ states) positions id records h =
    let p = (load_position c waiting lists state).0 in
    let next = insert state.position_id p positions in
    elim (Option-cases (load_position c waiting lists state).1) [
      | inl e ↦ ground (arith, e, h)
      | inr (told, e) ↦ elim (Option-cases (load_positions c waiting lists states next).1) [
        | inl f ↦ ground (arith, e, f, h)
        | inr (more, f) ↦ ground (
          arith,
          e,
          f,
          h,
          load_positions-contains c waiting lists states next id more f,
          lookup-insert state.position_id id p positions,
        )
      ]
    ]

load_order-contains :
    (c : Callbacks) (order : Order) (b : Book) (id : ℕ)
    → contains id (load_order c order b).positions ≡ contains id b.positions
unfolding load_order
load_order-contains c order b id =
    elim (Option-cases (lookup (stated order.position_id) b.positions)) [
      | inl e ↦ ground (arith, e)
      | inr (p, e) ↦ ground (
        arith,
        e,
        nat_eq_iff id (stated order.position_id),
        lookup-insert (stated order.position_id) id (protect order p) b.positions,
      )
    ]

load_orders-contains :
    (c : Callbacks) (orders : List Order) (b : Book) (id : ℕ)
    → contains id (load_orders c orders b).positions ≡ contains id b.positions
unfolding load_orders
load_orders-contains c [] b id = refl
load_orders-contains c (order ∷ orders) b id =
    load_orders-contains c orders (load_order c order b) id ∙ load_order-contains c order b id

load_order-kept : (c : Callbacks) (order : Order) (b : Book) → (load_order c order b).kept ≡ b.kept
unfolding load_order
load_order-kept c order b = ground arith

load_orders-kept :
    (c : Callbacks) (orders : List Order) (b : Book) → (load_orders c orders b).kept ≡ b.kept
unfolding load_orders
load_orders-kept c [] b = refl
load_orders-kept c (order ∷ orders) b =
    load_orders-kept c orders (load_order c order b) ∙ load_order-kept c order b

open_all-contains :
    (c : Callbacks) (positions : Dict ℕ Position) (id : ℕ)
    → contains id (open_all c positions).0 ≡ contains id positions
unfolding open_all
open_all-contains c [] id = refl
open_all-contains c ((j, p) ∷ positions) id = ground (arith, open_all-contains c positions id)

update-contains :
    (positions others : Dict ℕ Position) (id : ℕ)
    → contains id (update positions others) ≡ (member id (ids_of others) || contains id positions)
update-contains positions [] id = refl
update-contains positions ((j, p) ∷ others) id =
    ground (arith, update-contains (insert j p positions) others id, lookup-insert j id p positions)

-- Every key stands once, as in a dict.
abbrev pub IsDict : Dict ℕ Position → Type 0
IsDict [] = Unit
IsDict ((id, p) ∷ positions) = (lookup id positions ≡ none) × IsDict positions

update-lookup :
    (positions others : Dict ℕ Position) (id : ℕ)
    → IsDict others
    → lookup id (update positions others)
      ≡ (elim (lookup id others) [ none ↦ lookup id positions | some p ↦ some p ])
update-lookup positions [] id d = refl
update-lookup positions ((j, p) ∷ others) id (fresh, d) = ground (
  arith,
  fresh,
  nat_eq_iff id j,
  update-lookup (insert j p positions) others id d,
  lookup-insert j id p positions,
  update-lookup (insert j p positions) others j d,
)

-- What is gone is as the model held it: an open position, with a live leg, that the snapshot lacks.
abbrev pub AsHeld : Bool → List VenuePosition → Dict ℕ Position → ℕ → Option Position → Type 0
AsHeld keep_gone states positions id none = Unit
AsHeld keep_gone states positions id (some p) =
    (lookup id positions ≡ some p)
    × (keep_gone ≡ true)
    × (is_listed id states ≡ false)
    × (p.is_open ≡ true)
    × (has_live_leg p ≡ true)

gone_positions-AsHeld :
    (keep_gone : Bool) (states : List VenuePosition) (positions : Dict ℕ Position) (id : ℕ)
    → IsDict positions
    → AsHeld keep_gone states positions id (lookup id (gone_positions keep_gone states positions))
unfolding gone_positions
gone_positions-AsHeld keep_gone states [] id d = ground arith
gone_positions-AsHeld keep_gone states ((j, q) ∷ positions) id (fresh, d) =
    ground (arith, fresh, nat_eq_iff id j, gone_positions-AsHeld keep_gone states positions id d)

-- Whether a load keeps a position: it may, the model holds it open and with a live leg, and the
-- snapshot lacks it.
abbrev pub is_kept : Bool → List VenuePosition → Dict ℕ Position → ℕ → Bool
is_kept keep_gone states positions id = elim (lookup id positions) [
  | none ↦ false
  | some p ↦ keep_gone && not (is_listed id states) && p.is_open && has_live_leg p
]

gone_positions-contains :
    (keep_gone : Bool) (states : List VenuePosition) (positions : Dict ℕ Position) (id : ℕ)
    → IsDict positions
    → contains id (gone_positions keep_gone states positions)
      ≡ is_kept keep_gone states positions id
unfolding gone_positions
gone_positions-contains keep_gone states [] id d = refl
gone_positions-contains keep_gone states ((j, q) ∷ positions) id (fresh, d) =
    ground (arith, fresh, nat_eq_iff id j, gone_positions-contains keep_gone states positions id d)

gone_positions-IsDict :
    (keep_gone : Bool) (states : List VenuePosition) (positions : Dict ℕ Position)
    → IsDict positions
    → IsDict (gone_positions keep_gone states positions)
unfolding gone_positions
gone_positions-IsDict keep_gone states [] d = tt
gone_positions-IsDict keep_gone states ((j, q) ∷ positions) (fresh, d) = ground (
  arith,
  fresh,
  gone_positions-AsHeld keep_gone states positions j d,
  gone_positions-IsDict keep_gone states positions d,
)

member-ids_of :
    (positions : Dict ℕ Position) (id : ℕ) → member id (ids_of positions) ≡ contains id positions
member-ids_of [] id = refl
member-ids_of ((j, p) ∷ positions) id = ground (arith, member-ids_of positions id)

-- What a load that no price stopped leaves of the positions.
abbrev pub Holds : Bool → List VenuePosition → Dict ℕ Position → Book → ℕ → Type 0
Holds keep_gone states positions book id =
    (contains id book.positions ≡ (is_listed id states || member id book.kept))
    × (member id book.kept ≡ is_kept keep_gone states positions id)
    × (member id book.kept ≡ true → AsHeld keep_gone states positions id (lookup id book.positions))

-- A load that no price stops leaves the positions of the snapshot and those it keeps, and no
-- other. Where it may keep any, it keeps just those that the model held open and with a live leg
-- and that the snapshot lacks; each stands as the model held it.
pub load-Holds :
    (c : Callbacks) (snapshot : Snapshot) (lists : Dict ℕ (List Order)) (keep_gone : Bool)
    (read_ms : Option ℕ) (waiting : List Text) (book : Book) (records : List Record)
    → IsDict book.positions
    → (load c snapshot lists keep_gone read_ms waiting book).records ≡ some records
    → (id : ℕ)
    → Holds keep_gone snapshot.positions book.positions
        (load c snapshot lists keep_gone read_ms waiting book).book
        id
unfolding load
load-Holds c snapshot lists keep_gone read_ms waiting book records d h id =
    let waiting' = still_waiting (settled book.positions) waiting in
    let gone = gone_positions keep_gone snapshot.positions book.positions in
    let start = cleared read_ms gone book in
    let loaded = load_positions c waiting' lists snapshot.positions [] in
    let placed : Book = record start { positions = loaded.0 } in
    let ordered = load_orders c snapshot.orders placed in
    let opened = (open_all c ordered.positions).0 in
    elim (Option-cases loaded.1) [
      | inl e ↦ ground (arith, e, h)
      | inr (told, e) ↦
          let a = load_positions-contains c waiting' lists snapshot.positions [] id told e in
          let b = load_orders-contains c snapshot.orders placed id in
          let o = open_all-contains c ordered.positions id in
          let u = update-contains opened gone id in
          let v =
            update-lookup opened gone id
              (gone_positions-IsDict keep_gone snapshot.positions book.positions d) in
          let m = member-ids_of gone id in
          let k = load_orders-kept c snapshot.orders placed in
          let g = gone_positions-AsHeld keep_gone snapshot.positions book.positions id d in
          let s = gone_positions-contains keep_gone snapshot.positions book.positions id d in
          ground (arith, e, a, b, o, u, v, m, k, g, s, d)
    ]
