-- ===== src/Operations/Closes.antt =====
-- Which close a broker order carries out (common/operations.py, `closing`).
use nautilus_ctrader_adapter.Prelude.{
  ℕ, ◌<◌, ◌≡◌, ◌↔◌, ◌⊎◌, inl, inr, refl, true, Option, none, some, [], ◌∷◌, arith, Bool-cases,
}
use nautilus_ctrader_adapter.Prelude.Eq.{Text, Text_eq}
use nautilus_ctrader_adapter.Prelude.Dict.{Dict, lookup}
use nautilus_ctrader_adapter.Operations.{
  OperationsInFlight, Close, closing, answered_close, unanswered_close, is_candidate,
}

-- An entry of the key `k` stands in the dict and is as wanted, and no entry before it is.
abbrev pub FirstEntry : {V : Type 0} → (Text → V → Type 0) → Text → Dict Text V → Type 0
FirstEntry Wanted k [] = ⊥
FirstEntry Wanted k ((j, v) ∷ d) = ((k ≡ j) × Wanted j v) ⊎ ((¬ Wanted j v) × FirstEntry Wanted k d)

abbrev pub NoEntry : {V : Type 0} → (Text → V → Type 0) → Dict Text V → Type 0
NoEntry Wanted [] = Unit {0}
NoEntry Wanted ((j, v) ∷ d) = (¬ Wanted j v) × NoEntry Wanted d

-- The answer of a close named the order.
abbrev pub Names : ℕ → Text → ℕ → Type 0
Names order_id k answer = answer ≡ order_id

-- The close was sent before the order was made, so far as its sending is known.
abbrev pub SentBefore : ℕ → Option ℕ → Type 0
SentBefore t none = Unit {0}
SentBefore t (some anchor) = anchor < t

-- The close `k` has no answer, is of the position `p` and the volume `v`, and was sent before `t`.
abbrev pub Fits : ℕ → ℕ → ℕ → Dict Text ℕ → Text → Close → Type 0
Fits p v t answers k close =
    (lookup k answers ≡ none)
    × (close.close_position ≡ p)
    × (close.close_volume ≡ v)
    × SentBefore t close.anchor_ms

candidate-Fits :
    (p v t : ℕ) (answers : Dict Text ℕ) (k : Text) (close : Close)
    → (is_candidate p v t answers k close ≡ true) ↔ Fits p v t answers k close
candidate-Fits p v t answers k close = ground arith

answered_close-first :
    (order_id : ℕ) (k : Text) (answers : Dict Text ℕ)
    → answered_close order_id answers ≡ some k
    → FirstEntry (Names order_id) k answers
unfolding answered_close
answered_close-first order_id k [] h = cc
answered_close-first order_id k ((j, a) ∷ answers) h =
    ground (arith, answered_close-first order_id k answers)

answered_close-none :
    (order_id : ℕ) (answers : Dict Text ℕ)
    → answered_close order_id answers ≡ none
    → NoEntry (Names order_id) answers
unfolding answered_close
answered_close-none order_id [] h = tt
answered_close-none order_id ((j, a) ∷ answers) h =
    ground (arith, answered_close-none order_id answers)

unanswered_close-first :
    (p v t : ℕ) (answers : Dict Text ℕ) (k : Text) (closes : Dict Text Close)
    → unanswered_close p v t answers closes ≡ some k
    → FirstEntry (Fits p v t answers) k closes
unfolding unanswered_close
unanswered_close-first p v t answers k [] h = cc
unanswered_close-first p v t answers k ((j, c) ∷ closes) h =
    elim (Bool-cases (is_candidate p v t answers j c)) [
      | inl hit ↦ inl (cc (rw hit at h), (candidate-Fits p v t answers j c).0 hit)
      | inr miss ↦ inr (
        λ fits. ground (arith, miss, (candidate-Fits p v t answers j c).1 fits),
        unanswered_close-first p v t answers k closes (rw miss at h),
      )
    ]

unanswered_close-none :
    (p v t : ℕ) (answers : Dict Text ℕ) (closes : Dict Text Close)
    → unanswered_close p v t answers closes ≡ none
    → NoEntry (Fits p v t answers) closes
unfolding unanswered_close
unanswered_close-none p v t answers [] h = tt
unanswered_close-none p v t answers ((j, c) ∷ closes) h =
    elim (Bool-cases (is_candidate p v t answers j c)) [
      | inl hit ↦ cc (rw hit at h)
      | inr miss ↦ (
        λ fits. ground (arith, miss, (candidate-Fits p v t answers j c).1 fits),
        unanswered_close-none p v t answers closes (rw miss at h),
      )
    ]

-- What `closing` may answer: the close whose own answer named the order; else the earliest sent
-- one that fits; else nothing, and then neither exists.
pub data Answers (p v t order_id : ℕ) (o : OperationsInFlight) : Option Text → Type 0 where
  own_answer :
      (k : Text) → FirstEntry (Names order_id) k o.answers → Answers p v t order_id o (some k)
  earliest :
      (k : Text)
      → NoEntry (Names order_id) o.answers
      → FirstEntry (Fits p v t o.answers) k o.closes
      → Answers p v t order_id o (some k)
  nothing :
      NoEntry (Names order_id) o.answers
      → NoEntry (Fits p v t o.answers) o.closes
      → Answers p v t order_id o none

closing-cases :
    (p v t order_id : ℕ) (o : OperationsInFlight) (a b : Option Text)
    → answered_close order_id o.answers ≡ a
    → unanswered_close p v t o.answers o.closes ≡ b
    → Answers p v t order_id o (closing p v t order_id o)
unfolding closing
closing-cases p v t order_id o (some k) b e f =
    rw (closing, e) (own_answer k (answered_close-first order_id k o.answers e))
closing-cases p v t order_id o none (some k) e f =
    rw (closing, e, f)
      (earliest k (answered_close-none order_id o.answers e)
        (unanswered_close-first p v t o.answers k o.closes f))
closing-cases p v t order_id o none none e f =
    rw (closing, e, f)
      (nothing (answered_close-none order_id o.answers e)
        (unanswered_close-none p v t o.answers o.closes f))

-- An order on a position is answered with the close whose own answer named it; else with the first
-- close in flight that fits: without an answer, of that position and volume, and sent before the
-- order was made, so far as its sending is known; else with none, and then there is no such close.
pub closing-Answers :
    (p v t order_id : ℕ) (o : OperationsInFlight)
    → Answers p v t order_id o (closing p v t order_id o)
closing-Answers p v t order_id o = closing-cases p v t order_id o _ _ refl refl
