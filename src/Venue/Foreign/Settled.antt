-- ===== src/Venue/Foreign/Settled.antt =====
-- After a level change of a foreign position its legs are its levels (common/foreign_legs.py,
-- `level_changes`).
use nautilus_ctrader_adapter.Prelude.{
  ℕ, ◌+◌, ◌≡◌, ◌≢◌, refl, sym, ap, ◌∙◌, Bool, true, false, Option, none, some, [], ◌∷◌, arith,
  is_some,
}
use nautilus_ctrader_adapter.Prelude.Eq.{option_eq_iff}
use nautilus_ctrader_adapter.Prelude.Dict.{Dict, lookup, lookup-insert}
use nautilus_ctrader_adapter.Prelude.Int.{ℤ, ℤ_eq}
use nautilus_ctrader_adapter.LegId.{Level, stop_loss, take_profit, Level_eq, level_eq_iff}
use nautilus_ctrader_adapter.Records.{Levels, at}
use nautilus_ctrader_adapter.VenueState.{Position, ForeignLeg, Callbacks}
use nautilus_ctrader_adapter.Venue.Foreign.{
  live, rest, level_round, change_level, resize_legs, change_levels, level_changes, changes_by,
  open_leg,
}

-- Each live leg covers its fills and the protection.
abbrev pub IsSized : ℕ → Dict Level ForeignLeg → Type 0
IsSized n [] = Unit {0}
IsSized n ((level, leg) ∷ legs) =
    (leg.alive ≡ true → leg.quantity ≡ leg.filled + n) × IsSized n legs

abbrev has_live : Level → Dict Level ForeignLeg → Bool
has_live level legs = is_some (live (lookup level legs))

-- A level has a live leg exactly when it is set, and the live legs are sized.
pub record IsSettled (position : Position) : Type 0 where
  pub stop : has_live stop_loss position.foreign_legs ≡ is_some (at stop_loss position.levels)
  pub target : has_live take_profit position.foreign_legs ≡ is_some (at take_profit position.levels)
  pub sized : IsSized (rest position) position.foreign_legs

-- What a round leaves of the position: all but the foreign legs.
abbrev Same : Position → Position → Type 0
Same p q = (q.levels ≡ p.levels) × (rest q ≡ rest p) × (q.entry_order_id ≡ p.entry_order_id)

change_level-live :
    (c : Callbacks) (entry : ℕ) (old : Option ℤ) (ts : ℕ) (level : Level) (new : Option ℤ)
    (leg : Option ForeignLeg) (p : Position)
    → live (lookup level p.foreign_legs) ≡ leg
    → let q = (change_level c entry old ts level new leg p).0 in
      (has_live level q.foreign_legs ≡ is_some new) × Same p q
unfolding change_level
change_level-live c entry old ts level (some price) none p e =
    ground (arith, lookup-insert level level (open_leg c entry level p) p.foreign_legs)
change_level-live c entry old ts level none none p e = ground arith
change_level-live c entry old ts level none (some leg) p e =
    ground (arith, lookup-insert level level (record leg { alive = false }) p.foreign_legs)
change_level-live c entry old ts level (some price) (some leg) p e = ground (
  arith,
  lookup-insert level level (record leg { quantity = leg.filled + rest p }) p.foreign_legs,
)

resize_legs-IsSized :
    (n ts : ℕ) (legs : Dict Level ForeignLeg) → IsSized n (resize_legs n ts legs).0
unfolding resize_legs
resize_legs-IsSized n ts [] = tt
resize_legs-IsSized n ts ((level, leg) ∷ legs) = ground (arith, resize_legs-IsSized n ts legs)

resize_legs-live :
    (n ts : ℕ) (l : Level) (legs : Dict Level ForeignLeg)
    → has_live l (resize_legs n ts legs).0 ≡ has_live l legs
unfolding resize_legs
resize_legs-live n ts l [] = refl
resize_legs-live n ts l ((level, leg) ∷ legs) = ground (arith, resize_legs-live n ts l legs)

resize_legs-sized :
    (n ts : ℕ) (legs : Dict Level ForeignLeg) → IsSized n legs → resize_legs n ts legs ≡ (legs, [])
unfolding resize_legs
resize_legs-sized n ts [] h = refl
resize_legs-sized n ts ((level, leg) ∷ legs) h =
    ground (arith, h.0, resize_legs-sized n ts legs h.1)

change_level-other :
    (c : Callbacks) (entry : ℕ) (old : Option ℤ) (ts : ℕ) (level other : Level) (new : Option ℤ)
    (leg : Option ForeignLeg) (p : Position)
    → level ≢ other
    → has_live other (change_level c entry old ts level new leg p).0.foreign_legs
      ≡ has_live other p.foreign_legs
unfolding change_level
change_level-other c entry old ts level other (some price) none p ne = ground (
  arith,
  lookup-insert level other (open_leg c entry level p) p.foreign_legs,
  level_eq_iff other level,
)
change_level-other c entry old ts level other none none p ne = refl
change_level-other c entry old ts level other none (some leg) p ne = ground (
  arith,
  lookup-insert level other (record leg { alive = false }) p.foreign_legs,
  level_eq_iff other level,
)
change_level-other c entry old ts level other (some price) (some leg) p ne = ground (
  arith,
  lookup-insert level other (record leg { quantity = leg.filled + rest p }) p.foreign_legs,
  level_eq_iff other level,
)

level_round-live :
    (c : Callbacks) (entry : ℕ) (old : Levels) (ts : ℕ) (level : Level) (p : Position)
    → let q = (level_round c entry old ts level p).0 in
      (has_live level q.foreign_legs ≡ is_some (at level p.levels)) × Same p q
unfolding level_round
level_round-live c entry old ts level p =
    change_level-live c entry (at level old) ts level (at level p.levels) _ p refl

level_round-other :
    (c : Callbacks) (entry : ℕ) (old : Levels) (ts : ℕ) (level other : Level) (p : Position)
    → level ≢ other
    → has_live other (level_round c entry old ts level p).0.foreign_legs
      ≡ has_live other p.foreign_legs
unfolding level_round
level_round-other c entry old ts level other p ne =
    change_level-other c entry (at level old) ts level other (at level p.levels) _ p ne

-- A round at a level whose leg and price agree with the old price says and changes nothing.
level_round-quiet :
    (c : Callbacks) (entry : ℕ) (ts : ℕ) (level : Level) (p : Position)
    → has_live level p.foreign_legs ≡ is_some (at level p.levels)
    → level_round c entry p.levels ts level p ≡ (p, [])
unfolding level_round change_level
level_round-quiet c entry ts level p h =
    ground (arith, option_eq_iff (at level p.levels) (at level p.levels))

change_levels-IsSettled :
    (c : Callbacks) (entry : ℕ) (old : Levels) (ts : ℕ) (p : Position)
    → IsSettled (change_levels c entry old ts p).0
unfolding change_levels
change_levels-IsSettled c entry old ts p =
    let q : Position = (level_round c entry old ts stop_loss p).0 in
    let r : Position = (level_round c entry old ts take_profit q).0 in
    let a = level_round-live c entry old ts stop_loss p in
    let b = level_round-live c entry old ts take_profit q in
    let d = level_round-other c entry old ts take_profit stop_loss q (λ e. cc) in
    let sl = resize_legs-live (rest r) ts stop_loss r.foreign_legs in
    let tp = resize_legs-live (rest r) ts take_profit r.foreign_legs in
    record {
      stop = sl ∙ d ∙ a.0 ∙ ap (λ (l : Levels). is_some (at stop_loss l)) (sym (b.1.0 ∙ a.1.0));
      target = tp ∙ b.0 ∙ ap (λ (l : Levels). is_some (at take_profit l)) (sym b.1.0);
      sized = resize_legs-IsSized (rest r) ts r.foreign_legs;
    }

change_levels-entry :
    (c : Callbacks) (entry : ℕ) (old : Levels) (ts : ℕ) (p : Position)
    → (change_levels c entry old ts p).0.entry_order_id ≡ p.entry_order_id
unfolding change_levels
change_levels-entry c entry old ts p =
    (level_round-live c entry old ts take_profit (level_round c entry old ts stop_loss p).0).1.2
    ∙ (level_round-live c entry old ts stop_loss p).1.2

change_levels-quiet :
    (c : Callbacks) (entry ts : ℕ) (p : Position)
    → IsSettled p
    → change_levels c entry p.levels ts p ≡ (p, [])
unfolding change_levels
change_levels-quiet c entry ts p s = rw (
  level_round-quiet c entry ts stop_loss p s.stop,
  level_round-quiet c entry ts take_profit p s.target,
  resize_legs-sized (rest p) ts p.foreign_legs s.sized,
)

pub level_changes-known :
    (c : Callbacks) (entry : ℕ) (old : Levels) (ts : ℕ) (p : Position)
    → p.entry_order_id ≡ some entry
    → level_changes c old ts p ≡ change_levels c entry old ts p
unfolding level_changes
level_changes-known c entry old ts p e = ap (λ (o : Option ℕ). changes_by o c old ts p) e

-- For a foreign position with a known entry, a level change leaves a live leg at exactly the levels
-- that are set, each covering its fills and the protection, whatever stood there before; and
-- the same levels given again change nothing and tell Nautilus nothing.
pub level_changes-IsSettled :
    (c : Callbacks) (old : Levels) (ts later entry : ℕ) (p : Position)
    → p.entry_order_id ≡ some entry
    → let q = (level_changes c old ts p).0 in
      IsSettled q × (level_changes c q.levels later q ≡ (q, []))
level_changes-IsSettled c old ts later entry p e =
    let q : Position = (change_levels c entry old ts p).0 in
    let settled = change_levels-IsSettled c entry old ts p in
    let kept : q.entry_order_id ≡ some entry = change_levels-entry c entry old ts p ∙ e in
    rw (level_changes-known c entry old ts p e) (
      settled,
      level_changes-known c entry q.levels later q kept
          ∙ change_levels-quiet c entry later q settled,
    )
