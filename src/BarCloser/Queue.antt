-- ===== src/BarCloser/Queue.antt =====
-- The queue of a closer (common/bars.py, `_enqueue`).
use nautilus_ctrader_adapter.Prelude.{
  ℕ, suc, ◌≤◌, ◌≡◌, refl, sym, subst, Bool, true, false, ◌||◌, Option, none, some, List, [], ◌∷◌,
  arith, ltb, nat_eq, Bool-cases, inl, inr, if◌then◌else◌, or_else,
}
use nautilus_ctrader_adapter.BarCloser.{
  RawBar, Pending, BarCloser, is_covered, has_entry, attach, count_older, insert_at, enqueue,
  with_entry,
}
use nautilus_ctrader_adapter.BarCloser.Emitted.{
  Fits, Queued, InOrder, covered-next_of, either-InOrder, pump-InOrder,
}

pub either-Queued :
    (low : ℕ) (b : Bool) (x y : List Pending)
    → (b ≡ true → Queued low x)
    → Queued low y
    → Queued low (if b then x else y)
either-Queued low true x y h k = h refl
either-Queued low false x y h k = k

pub Fits-or_else :
    (boundary : ℕ) (a b : Option RawBar)
    → Fits boundary a
    → Fits boundary b
    → Fits boundary (or_else a b)
Fits-or_else boundary none b f g = g
Fits-or_else boundary (some bar) b f g = f

pub attach-Queued :
    (boundary : ℕ) (streamed : Option RawBar) (low : ℕ) (queue : List Pending)
    → Fits boundary streamed
    → Queued low queue
    → Queued low (attach boundary streamed queue)
attach-Queued boundary streamed low [] fits q = tt
attach-Queued boundary streamed low (p ∷ queue) fits (l, f, q) =
    either-Queued low (nat_eq p.boundary boundary) _ _
      (λ here. (
        l,
        Fits-or_else p.boundary p.streamed streamed f (
            subst (λ b. Fits b streamed) {x = boundary} {y = p.boundary} (ground (arith, here))
              fits),
        q,
      ))
      (l, f, attach-Queued boundary streamed (suc p.boundary) queue fits q)

pub count_older-none :
    (boundary low : ℕ) (queue : List Pending)
    → boundary ≤ low
    → Queued low queue
    → count_older boundary queue ≡ 0
count_older-none boundary low [] l q = refl
count_older-none boundary low (p ∷ queue) l (h, f, q) =
    ground (arith, l, h, count_older-none boundary (suc p.boundary) queue (omega (arith, l, h)) q)

-- What `_enqueue` inserts goes to its place.
pub insert_at-Queued :
    (entry : Pending) (low : ℕ) (queue : List Pending)
    → low ≤ entry.boundary
    → Fits entry.boundary entry.streamed
    → has_entry entry.boundary queue ≡ false
    → Queued low queue
    → Queued low (insert_at (count_older entry.boundary queue) entry queue)
insert_at-Queued entry low [] l f n q = (l, f, tt)
insert_at-Queued entry low (p ∷ queue) l f n (h, g, q) =
    elim (Bool-cases (ltb p.boundary entry.boundary)) [
      | inl older ↦
          let after : count_older entry.boundary (p ∷ queue)
              ≡ suc (count_older entry.boundary queue) =
            ground (arith, older) in
          subst (λ n. Queued low (insert_at n entry (p ∷ queue))) (sym after)
            (
              h,
              g,
              insert_at-Queued entry (suc p.boundary) queue (ground (arith, older)) f
                  (ground (arith, n)) q,
            )
      | inr newer ↦
          let first : count_older entry.boundary (p ∷ queue) ≡ 0 = ground (
            arith,
            newer,
            count_older-none entry.boundary (suc p.boundary) queue (ground (arith, newer)) q,
          ) in
          subst (λ n. Queued low (insert_at n entry (p ∷ queue))) (sym first)
            (l, f, (ground (arith, newer, n), g, q))
    ]

pub enqueue-InOrder :
    (boundary : ℕ) (streamed : Option RawBar) (needs_history : Bool) (closer : BarCloser)
    → Fits boundary streamed
    → InOrder closer
    → InOrder (enqueue boundary streamed needs_history closer)
unfolding enqueue
enqueue-InOrder boundary streamed needs_history closer fits (b, q) =
    either-InOrder (closer.closed || ltb boundary closer.floor || is_covered boundary closer) closer
      _ (λ _. (b, q))
      (λ fresh.
        either-InOrder (has_entry boundary closer.queue) _ _
          (λ _. (b, attach-Queued boundary streamed _ closer.queue fits q))
          (λ new.
            pump-InOrder
              (with_entry
                (record { boundary = boundary; streamed = streamed; needs_history = needs_history })
                closer)
              (
                b,
                insert_at-Queued
                    (record {
                      boundary = boundary;
                      streamed = streamed;
                      needs_history = needs_history;
                    })
                    _ closer.queue
                    (covered-next_of closer.floor boundary closer.last_emitted
                      (ground (arith, fresh)) (ground (arith, fresh)))
                    fits new q,
              )))
