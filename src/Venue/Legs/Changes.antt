-- ===== src/Venue/Legs/Changes.antt =====
-- After a level change the node's legs follow their levels (common/venue_book.py,
-- `_level_changes`).
use nautilus_ctrader_adapter.Prelude.{
  ℕ, ◌+◌, ◌≡◌, refl, sym, ap, subst, ◌∙◌, Bool, true, false, Option, none, some, [], arith, is_some,
}
use nautilus_ctrader_adapter.Prelude.Eq.{option_eq_iff}
use nautilus_ctrader_adapter.Prelude.Int.{ℤ, ℤ_eq}
use nautilus_ctrader_adapter.LegId.{Level, stop_loss, take_profit}
use nautilus_ctrader_adapter.Records.{ByLevel, Levels, at}
use nautilus_ctrader_adapter.VenueState.{Position, Leg}
use nautilus_ctrader_adapter.Venue.Legs.{live_leg, leg_round, size_leg, level_changes}

-- What a level change leaves of the position: all but the legs.
abbrev pub Same : Position → Position → Type 0
Same p q =
    (q.levels ≡ p.levels)
    × (q.protective_volume ≡ p.protective_volume)
    × (q.entry_order_id ≡ p.entry_order_id)
    × (q.entry_accepted ≡ p.entry_accepted)

-- A live leg whose level is set is accepted.
abbrev pub IsTold : Option ℤ → Option Leg → Type 0
IsTold price none = Unit {0}
IsTold price (some leg) = leg.alive ≡ true → is_some price ≡ true → leg.accepted ≡ true

-- An accepted live leg covers its fills and the protective order.
abbrev pub IsSized : ℕ → Option Leg → Type 0
IsSized volume none = Unit {0}
IsSized volume (some leg) =
    leg.alive ≡ true → leg.accepted ≡ true → leg.quantity ≡ leg.filled + volume

-- A level that was removed has no live leg.
abbrev pub IsEnded : Option ℤ → Option ℤ → Option Leg → Type 0
IsEnded old new leg = is_some old ≡ true → is_some new ≡ false → is_some (live_leg leg) ≡ false

pub other : Level → Level
other stop_loss = take_profit
other take_profit = stop_loss

abbrev After : Level → Option ℤ → Position → Position → Type 0
After level old p q =
    IsTold (at level p.levels) (at level q.legs)
    × IsEnded old (at level p.levels) (at level q.legs)
    × (at (other level) q.legs ≡ at (other level) p.legs)
    × Same p q

leg_round-After :
    (old : Levels) (manual : Bool) (ts : ℕ) (level : Level) (p : Position)
    → After level (at level old) p (leg_round old manual ts level p).0
unfolding leg_round other
leg_round-After old manual ts stop_loss p = ground arith
leg_round-After old manual ts take_profit p = ground arith

abbrev Sized : Level → Position → Position → Type 0
Sized level p q =
    IsSized p.protective_volume (at level q.legs)
    × ((price : Option ℤ) → IsTold price (at level p.legs) → IsTold price (at level q.legs))
    × (is_some (live_leg (at level q.legs)) ≡ is_some (live_leg (at level p.legs)))
    × (at (other level) q.legs ≡ at (other level) p.legs)
    × Same p q

size_leg-after :
    (ts : ℕ) (level : Level) (leg : Option Leg) (p : Position)
    → at level p.legs ≡ leg
    → Sized level p (size_leg ts level leg p).0
unfolding size_leg other
size_leg-after ts stop_loss none p e = ground arith
size_leg-after ts stop_loss (some leg) p e = ground arith
size_leg-after ts take_profit none p e = ground arith
size_leg-after ts take_profit (some leg) p e = ground arith

-- The legs against the levels before, the levels now and the protective volume.
pub record IsCurrent (old new : Levels) (volume : ℕ) (legs : ByLevel Leg) : Type 0 where
  pub stop_told : IsTold (at stop_loss new) (at stop_loss legs)
  pub target_told : IsTold (at take_profit new) (at take_profit legs)
  pub stop_ended : IsEnded (at stop_loss old) (at stop_loss new) (at stop_loss legs)
  pub target_ended : IsEnded (at take_profit old) (at take_profit new) (at take_profit legs)
  pub stop_sized : IsSized volume (at stop_loss legs)
  pub target_sized : IsSized volume (at take_profit legs)

settle :
    (old : Levels) (p p1 p2 p3 p4 : Position)
    → After stop_loss (at stop_loss old) p p1
    → After take_profit (at take_profit old) p1 p2
    → Sized stop_loss p2 p3
    → Sized take_profit p3 p4
    → IsCurrent old p.levels p.protective_volume p4.legs × Same p p4
unfolding other
settle old p p1 p2 p3 p4 a b d f =
    let stop₂ : at stop_loss p2.legs ≡ at stop_loss p1.legs = b.2 in
    let stop₄ : at stop_loss p4.legs ≡ at stop_loss p3.legs = f.3 in
    let target₃ : at take_profit p3.legs ≡ at take_profit p2.legs = d.3 in
    let levels₁ : p1.levels ≡ p.levels = a.3.0 in
    let volume₂ : p2.protective_volume ≡ p.protective_volume = b.3.1 ∙ a.3.1 in
    (
      record {
        stop_told =
            subst (IsTold (at stop_loss p.levels)) (sym stop₄) (
              d.1 (at stop_loss p.levels) (subst (IsTold (at stop_loss p.levels)) (sym stop₂) a.0));
        target_told =
            f.1 (at take_profit p.levels)
              (subst (IsTold (at take_profit p.levels)) (sym target₃) (rw (← levels₁) b.0));
        stop_ended = λ was gone.
            ap (λ (l : Option Leg). is_some (live_leg l)) stop₄
            ∙ d.2
            ∙ ap (λ (l : Option Leg). is_some (live_leg l)) stop₂
            ∙ a.1 was gone;
        target_ended = λ was gone.
            f.2
            ∙ ap (λ (l : Option Leg). is_some (live_leg l)) target₃
            ∙ b.1 was (ap (λ (l : Levels). is_some (at take_profit l)) levels₁ ∙ gone);
        stop_sized =
            subst (IsSized p.protective_volume) (sym stop₄)
              (subst (λ (n : ℕ). IsSized n (at stop_loss p3.legs)) volume₂ d.0);
        target_sized = subst (λ (n : ℕ). IsSized n (at take_profit p4.legs)) (d.4.1 ∙ volume₂) f.0;
      },
      (
        f.4.0 ∙ d.4.0 ∙ b.3.0 ∙ a.3.0,
        f.4.1 ∙ d.4.1 ∙ b.3.1 ∙ a.3.1,
        f.4.2 ∙ d.4.2 ∙ b.3.2 ∙ a.3.2,
        f.4.3 ∙ d.4.3 ∙ b.3.3 ∙ a.3.3,
      ),
    )

-- After a level change every live leg whose level is set has been accepted, a leg whose level
-- went is no longer live, and each accepted live leg covers its fills and the protective order;
-- the levels, the protective volume, the entry and its acceptance stay.
pub level_changes-IsCurrent :
    (old : Levels) (manual : Bool) (ts : ℕ) (p : Position)
    → let q = (level_changes old manual ts p).0 in
      IsCurrent old p.levels p.protective_volume q.legs × Same p q
unfolding level_changes
level_changes-IsCurrent old manual ts p =
    let p1 : Position = (leg_round old manual ts stop_loss p).0 in
    let p2 : Position = (leg_round old manual ts take_profit p1).0 in
    let p3 : Position = (size_leg ts stop_loss (at stop_loss p2.legs) p2).0 in
    let p4 : Position = (size_leg ts take_profit (at take_profit p3.legs) p3).0 in
    settle old p p1 p2 p3 p4 (leg_round-After old manual ts stop_loss p)
      (leg_round-After old manual ts take_profit p1) (size_leg-after ts stop_loss _ p2 refl)
      (size_leg-after ts take_profit _ p3 refl)

leg_round-quiet :
    (manual : Bool) (ts : ℕ) (level : Level) (p : Position)
    → IsTold (at level p.levels) (at level p.legs)
    → leg_round p.levels manual ts level p ≡ (p, [])
unfolding leg_round
leg_round-quiet manual ts stop_loss p h =
    ground (arith, option_eq_iff (at stop_loss p.levels) (at stop_loss p.levels))
leg_round-quiet manual ts take_profit p h =
    ground (arith, option_eq_iff (at take_profit p.levels) (at take_profit p.levels))

size_leg-quiet :
    (ts : ℕ) (level : Level) (leg : Option Leg) (p : Position)
    → IsSized p.protective_volume leg
    → size_leg ts level leg p ≡ (p, [])
unfolding size_leg
size_leg-quiet ts level none p h = refl
size_leg-quiet ts level (some leg) p h = ground arith

-- Once a level change is told, the same levels again tell Nautilus nothing and change nothing,
-- whoever made it.
pub level_changes-quiet :
    (old : Levels) (manual manual' : Bool) (ts later : ℕ) (p : Position)
    → let q = (level_changes old manual ts p).0 in level_changes q.levels manual' later q ≡ (q, [])
level_changes-quiet old manual manual' ts later p =
    let (settled, same) = level_changes-IsCurrent old manual ts p in
    quiet (level_changes old manual ts p).0 (rw same.0 settled.stop_told)
      (rw same.0 settled.target_told) (rw same.1 settled.stop_sized)
      (rw same.1 settled.target_sized)
  where
    quiet :
        (q : Position)
        → IsTold (at stop_loss q.levels) (at stop_loss q.legs)
        → IsTold (at take_profit q.levels) (at take_profit q.legs)
        → IsSized q.protective_volume (at stop_loss q.legs)
        → IsSized q.protective_volume (at take_profit q.legs)
        → level_changes q.levels manual' later q ≡ (q, [])
    quiet q a b d f =
        unfold level_changes in
        rw (
          leg_round-quiet manual' later stop_loss q a,
          leg_round-quiet manual' later take_profit q b,
          size_leg-quiet later stop_loss (at stop_loss q.legs) q d,
          size_leg-quiet later take_profit (at take_profit q.legs) q f,
        )
