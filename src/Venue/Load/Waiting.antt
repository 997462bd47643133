-- ===== src/Venue/Load/Waiting.antt =====
-- The legs that a load keeps waiting (common/venue_book.py: `load`, `_adopt`).
use nautilus_ctrader_adapter.Prelude.{
  ℕ, ◌≡◌, refl, ◌∙◌, Bool, true, false, Option, none, some, List, [], ◌∷◌, ◌++◌, arith, ◌||◌, ◌&&◌,
  not, nat_eq_iff, Bool-cases, ap, inl, inr,
}
use nautilus_ctrader_adapter.Prelude.Eq.{ℕ_eq, Text, Text_eq, text_eq_iff, text_eq}
use nautilus_ctrader_adapter.Prelude.Dict.{Dict, lookup, member}
use nautilus_ctrader_adapter.LegId.{Level, stop_loss, take_profit}
use nautilus_ctrader_adapter.Messages.{Order}
use nautilus_ctrader_adapter.OrderRecord.{LegIds, ok, encode_label, encode_comment}
use nautilus_ctrader_adapter.Records.{at}
use nautilus_ctrader_adapter.VenueState.{Position, Leg}
use nautilus_ctrader_adapter.Venue.Legs.{adopt}
use nautilus_ctrader_adapter.Venue.Legs.Ends.{adopt-restores}
use nautilus_ctrader_adapter.Venue.Load.{settled, settled_id, still_waiting}

member-++ : (id : Text) (a b : List Text) → member id (a ++ b) ≡ (member id a || member id b)
member-++ id [] b = refl
member-++ id (x ∷ a) b = ground (arith, member-++ id a b)

settled-member :
    (positions : Dict ℕ Position) (id : ℕ) (p : Position) (level : Level) (leg : Leg)
    → lookup id positions ≡ some p
    → at level p.legs ≡ some leg
    → (not leg.alive || leg.accepted) ≡ true
    → member leg.client_order_id (settled positions) ≡ true
unfolding settled
settled-member [] id p level leg h a s = ground (arith, h)
settled-member ((j, q) ∷ positions) id p level leg h a s =
    let x = leg.client_order_id in
    let stop = settled_id (at stop_loss q.legs) in
    let target = settled_id (at take_profit q.legs) in
    ground (
      arith,
      h,
      a,
      s,
      nat_eq_iff id j,
      text_eq_iff x x,
      member-++ x stop (target ++ settled positions),
      member-++ x target (settled positions),
      settled-member positions id p level leg,
    )

still_waiting-member :
    (ids waiting : List Text) (id : Text)
    → member id (still_waiting ids waiting) ≡ (member id waiting && not (member id ids))
still_waiting-member ids [] id = refl
still_waiting-member ids (w ∷ waiting) id = elim (Bool-cases (text_eq id w)) [
  | inr n ↦ ground (arith, n, still_waiting-member ids waiting id)
  | inl e ↦
      let same : id ≡ w = (text_eq_iff id w).0 e in
      ground (arith, e, ap (λ i. member i ids) same, still_waiting-member ids waiting id)
]

abbrev pub id_at : Level → Text → Text → Text
id_at stop_loss stop target = stop
id_at take_profit stop target = target

abbrev pub is_alive : Option Leg → Bool
is_alive none = false
is_alive (some leg) = leg.alive

-- A leg that the model held ended or accepted does not wait again: where its level does not stand
-- at the broker any more, the leg that a load restores for it from the entry's record is ended,
-- though the node still lists it as waiting.
pub adopt-settled :
    (positions : Dict ℕ Position) (id : ℕ) (held : Position) (level : Level) (leg : Leg)
    (waiting : List Text) (entry : Order) (entry_id stop target : Text) (restored : Position)
    → lookup id positions ≡ some held
    → at level held.legs ≡ some leg
    → (not leg.alive || leg.accepted) ≡ true
    → id_at level stop target ≡ leg.client_order_id
    → encode_label entry_id ≡ ok entry.trade_data.label
    → encode_comment (record { stop_loss = some stop; take_profit = some target })
      ≡ ok entry.trade_data.comment
    → at level restored.levels ≡ none
    → is_alive
        (at level (adopt true (still_waiting (settled positions) waiting) entry restored).0.legs)
      ≡ false
adopt-settled positions id held level leg waiting entry entry_id stop target restored h a s i l c
      n =
    let ids = settled positions in
    let legs : LegIds = record { stop_loss = some stop; take_profit = some target } in
    let back = adopt-restores (still_waiting ids waiting) entry entry_id legs restored l c in
    let own = id_at level stop target in
    let here = settled-member positions id held level leg h a s in
    let member_own : member own ids ≡ true = ap (λ t. member t ids) i ∙ here in
    let ended : member own (still_waiting ids waiting) ≡ false =
      ground (arith, member_own, still_waiting-member ids waiting own) in
    ground (arith, back, ended, n)
