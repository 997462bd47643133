-- ===== src/Subscriptions/Counted.antt =====
-- Lists of consumers as the registry keeps them (common/subscriptions.py: `_consumers`): none is
-- empty, and each consumer stands once.
use nautilus_ctrader_adapter.Prelude.{
  ◌≤◌, ◌≡◌, refl, Bool, true, false, some, List, [], ◌∷◌, ◌++◌, arith, suc, if◌then◌else◌, length,
  length-append,
}
use nautilus_ctrader_adapter.Prelude.Dict.{
  Dict, lookup, insert, erase, member, add, discard, member-discard,
}
use nautilus_ctrader_adapter.Subscriptions.{Key, Key_eq, Consumer, Consumer_eq}

-- No consumer stands twice.
abbrev pub NoTwice : List Consumer → Type 0
NoTwice [] = Unit
NoTwice (x ∷ held) = (member x held ≡ false) × NoTwice held

abbrev pub IsHeld : List Consumer → Type 0
IsHeld held = (1 ≤ length held) × NoTwice held

abbrev pub AllHeld : Dict Key (List Consumer) → Type 0
AllHeld [] = Unit
AllHeld ((key, held) ∷ consumers) = IsHeld held × AllHeld consumers

member-append_one :
    (x c : Consumer) (held : List Consumer)
    → member x held ≡ false
    → member c (x ∷ held) ≡ false
    → member x (held ++ c ∷ []) ≡ false
member-append_one x c [] h n = ground (arith, n, Consumer_eq.beq_iff x c, Consumer_eq.beq_iff c x)
member-append_one x c (y ∷ held) h n =
    ground
      (arith, h, n, Consumer_eq.beq_iff x c, Consumer_eq.beq_iff c x, member-append_one x c held)

append_one-NoTwice :
    (c : Consumer) (held : List Consumer)
    → NoTwice held
    → member c held ≡ false
    → NoTwice (held ++ c ∷ [])
append_one-NoTwice c [] t n = (refl, tt)
append_one-NoTwice c (x ∷ held) (f, t) n =
    (member-append_one x c held f n, append_one-NoTwice c held t (ground (arith, n)))

pub add-IsHeld : (c : Consumer) (held : List Consumer) → NoTwice held → IsHeld (add c held)
add-IsHeld c held t = either (member c held) refl
  where
    nonempty : (held : List Consumer) → member c held ≡ true → 1 ≤ length held
    nonempty [] h = ground (arith, h)
    nonempty (x ∷ held) h = omega arith

    either : (b : Bool) → member c held ≡ b → IsHeld (if b then held else held ++ c ∷ [])
    either true e = (nonempty held e, t)
    either false e = (omega (arith, length-append held (c ∷ [])), append_one-NoTwice c held t e)

discard-absent :
    (c : Consumer) (held : List Consumer) → member c held ≡ false → discard c held ≡ held
discard-absent c [] n = refl
discard-absent c (x ∷ held) n = ground (arith, n, discard-absent c held)

pub length-discard :
    (c : Consumer) (held : List Consumer)
    → NoTwice held
    → length held ≤ suc (length (discard c held))
length-discard c [] t = omega arith
length-discard c (x ∷ held) (f, t) =
    ground (arith, f, Consumer_eq.beq_iff c x, discard-absent x held, length-discard c held t)

pub discard-NoTwice :
    (c : Consumer) (held : List Consumer) → NoTwice held → NoTwice (discard c held)
discard-NoTwice c [] t = tt
discard-NoTwice c (x ∷ held) (f, t) =
    ground (arith, f, member-discard c x held, discard-NoTwice c held t)

pub insert-AllHeld :
    (key : Key) (held : List Consumer) (consumers : Dict Key (List Consumer))
    → IsHeld held
    → AllHeld consumers
    → AllHeld (insert key held consumers)
insert-AllHeld key held [] h a = (h, tt)
insert-AllHeld key held ((k, x) ∷ consumers) h (i, a) =
    ground (arith, h, i, a, insert-AllHeld key held consumers h a)

pub erase-AllHeld :
    (key : Key) (consumers : Dict Key (List Consumer))
    → AllHeld consumers
    → AllHeld (erase key consumers)
erase-AllHeld key [] a = tt
erase-AllHeld key ((k, x) ∷ consumers) (i, a) = ground (arith, i, a, erase-AllHeld key consumers a)

pub lookup-IsHeld :
    (key : Key) (consumers : Dict Key (List Consumer)) (held : List Consumer)
    → AllHeld consumers
    → lookup key consumers ≡ some held
    → IsHeld held
lookup-IsHeld key [] held a e = ground (arith, e)
lookup-IsHeld key ((k, x) ∷ consumers) held (i, a) e =
    ground (arith, i, e, lookup-IsHeld key consumers held a)
