-- ===== src/VenueState/Marks.antt =====
-- What `apply` marks, and that the steps of a handler leave it alone (common/venue_book.py).
use nautilus_ctrader_adapter.Prelude.{◌≡◌, arith}
use nautilus_ctrader_adapter.VenueState.{Book, Turn, Outcome, done, raised, ◌>>>◌, turn_of}

-- Two books with the same marks of what was applied.
abbrev pub SameMarks : Book → Book → Type 0
SameMarks a b =
    (a.seen ≡ b.seen)
    × (a.applied_deals ≡ b.applied_deals)
    × (a.closed_in_reconciliation ≡ b.closed_in_reconciliation)
    × (a.kept ≡ b.kept)

abbrev pub Keeps : Book → Outcome → Type 0
Keeps b o = SameMarks b (turn_of o).book

pub >>>-Keeps :
    (b : Book) (o : Outcome) (f : Turn → Outcome)
    → Keeps b o
    → ((t : Turn) → Keeps t.book (f t))
    → Keeps b (o >>> f)
>>>-Keeps b (done t records) f h g = ground (arith, h, g t)
>>>-Keeps b (raised t) f h g = h
