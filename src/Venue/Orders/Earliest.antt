-- ===== src/Venue/Orders/Earliest.antt =====
-- The entry does not hang on the order of a list (common/venue_book.py, `entry_of`).
use nautilus_ctrader_adapter.Prelude.{
  ◌≡◌, refl, sym, ap, subst, Bool-cases, ◌↔◌, inl, inr, Bool, true, false, Option, none, some, List,
  [], ◌∷◌, arith, Option-cases, if◌then◌else◌, keep, ◌∙◌,
}
use nautilus_ctrader_adapter.Prelude.Sort.{
  Mem, Ascending, IsOrder, Mem-sorted, Below-Mem, sorted-Ascending,
}
use nautilus_ctrader_adapter.Messages.{Order}
use nautilus_ctrader_adapter.Venue.Orders.{
  is_opening, earlier, opening_orders, is_named, first_named, first, entry_of,
}

earlier-IsOrder : IsOrder earlier
unfolding earlier
earlier-IsOrder = ((λ a b h. ground arith), λ a b c h k. ground arith)

Mem-keep :
    (p : Order → Bool) (o : Order) (orders : List Order)
    → Mem o (keep p orders) ↔ (Mem o orders × (p o ≡ true))
Mem-keep p o [] = ((λ m. elim m [ ]), λ (m, h). elim m [ ])
Mem-keep p o (x ∷ orders) = elim (Bool-cases (p x)) [
  | inl h ↦ (
    λ m. ground (arith, h, m, ap p, Mem-keep p o orders),
    λ (m, q). ground (arith, h, m, q, Mem-keep p o orders),
  )
  | inr h ↦ (
    λ m. ground (arith, h, m, Mem-keep p o orders),
    λ (m, q). elim m [
      | inl e ↦ ground (arith, h, q, ap p e)
      | inr m' ↦ ground (arith, h, m', q, Mem-keep p o orders)
    ],
  )
]

Mem-opening :
    (o : Order) (orders : List Order)
    → Mem o (opening_orders orders) ↔ (Mem o orders × (is_opening o ≡ true))
unfolding opening_orders
Mem-opening o orders =
    ground (arith, Mem-sorted earlier o (keep is_opening orders), Mem-keep is_opening o orders)

-- Below every element of an ascending list is its head.
head-earliest :
    (x : Order) (orders : List Order)
    → Ascending earlier (x ∷ orders)
    → (o : Order) → Mem o (x ∷ orders)
    → earlier x o ≡ true
unfolding earlier
head-earliest x orders (below, a) o (inl e) = rw e (ground arith)
head-earliest x orders (below, a) o (inr m) = Below-Mem earlier x o orders below m

-- Whether a list's order `e` is taken as the entry before `o`: an order with the node's record
-- comes before one without, else the one created earlier.
abbrev pub precedes : Order → Order → Bool
precedes e o =
    if is_named e
    then (if is_named o then earlier e o else true)
    else (if is_named o then false else earlier e o)

abbrev pub IsFirst : List Order → Order → Type 0
IsFirst orders e = Mem e orders × ((o : Order) → Mem o orders → precedes e o ≡ true)

-- The entry of an ascending list.
abbrev chosen : List Order → Option Order
chosen orders = elim (first_named orders) [ some order ↦ some order | none ↦ first orders ]

first_named-earliest :
    (orders : List Order) (e : Order)
    → Ascending earlier orders
    → first_named orders ≡ some e
    → Mem e orders
      × (is_named e ≡ true)
      × ((o : Order) → Mem o orders → is_named o ≡ true → earlier e o ≡ true)
first_named-earliest [] e a h = ground (arith, h)
first_named-earliest (x ∷ orders) e (below, a) h = elim (Bool-cases (is_named x)) [
  | inl n ↦
      let same : x ≡ e = ground (arith, n, h) in
      subst
        (λ y.
          Mem y (x ∷ orders)
          × (is_named y ≡ true)
          × ((o : Order) → Mem o (x ∷ orders) → is_named o ≡ true → earlier y o ≡ true))
        same (inl refl, n, λ o m k. head-earliest x orders (below, a) o m)
  | inr n ↦
      let later : first_named orders ≡ some e = ground (arith, n, h) in
      let (m, k, least) = first_named-earliest orders e a later in
      (
        inr m,
        k,
        λ o m' k'. elim m' [
          | inl same ↦ ground (arith, n, k', ap is_named same)
          | inr m'' ↦ least o m'' k'
        ],
      )
]

first_named-none :
    (orders : List Order) (o : Order)
    → first_named orders ≡ none
    → Mem o orders
    → is_named o ≡ false
first_named-none [] o h m = elim m [ ]
first_named-none (x ∷ orders) o h (inl e) = ground (arith, h, ap is_named e)
first_named-none (x ∷ orders) o h (inr m) = ground (arith, h, first_named-none orders o)

chosen-IsFirst :
    (orders : List Order) (e : Order)
    → Ascending earlier orders
    → chosen orders ≡ some e
    → IsFirst orders e
chosen-IsFirst [] e a h = ground (arith, h)
chosen-IsFirst (x ∷ orders) e a h = elim (Option-cases (first_named (x ∷ orders))) [
  | inr (e', f) ↦
      let same : e' ≡ e = ground (arith, f, h) in
      let (m, n, least) = first_named-earliest (x ∷ orders) e' a f in
      subst (IsFirst (x ∷ orders)) same (m, λ o k. ground (arith, n, least o k))
  | inl f ↦
      let same : x ≡ e = ground (arith, f, h) in
      let unnamed : is_named x ≡ false = first_named-none (x ∷ orders) x f (inl refl) in
      subst (IsFirst (x ∷ orders)) same (
        inl refl,
        λ o k.
            ground
              (arith, unnamed, first_named-none (x ∷ orders) o f k, head-earliest x orders a o k),
      )
]

-- The entry is one of the list's opening orders, and comes before every other of them.
pub entry_of-IsFirst :
    (orders : List Order) (e : Order)
    → entry_of orders ≡ some e
    → Mem e orders
      × (is_opening e ≡ true)
      × ((o : Order) → Mem o orders → is_opening o ≡ true → precedes e o ≡ true)
unfolding entry_of opening_orders
entry_of-IsFirst orders e h =
    let (m, least) =
      chosen-IsFirst (opening_orders orders) e
        (sorted-Ascending earlier earlier-IsOrder (keep is_opening orders)) h in
    let (m', opening) = (Mem-opening e orders).0 m in
    (m', opening, λ o k q. least o ((Mem-opening o orders).1 (k, q)))

entry_of-none :
    (orders : List Order) (o : Order) → entry_of orders ≡ none → Mem o orders → is_opening o ≡ false
unfolding entry_of
entry_of-none orders o h m = elim (Bool-cases (is_opening o)) [
  | inr q ↦ q
  | inl q ↦ no_first (opening_orders orders) h ((Mem-opening o orders).1 (m, q))
]
  where
    no_first : (l : List Order) → chosen l ≡ none → Mem o l → is_opening o ≡ false
    no_first [] c k = elim k [ ]
    no_first (x ∷ l) c k = ground (arith, c)

precedes-antisym :
    (a b : Order) → precedes a b ≡ true → precedes b a ≡ true → a.order_id ≡ b.order_id
unfolding earlier
precedes-antisym a b h k = ground (arith, h, k)

-- Two lists of the same orders have the same entry, in whatever order they list them, where no two
-- orders share an id.
pub entry_of-same :
    (a b : List Order)
    → ((o : Order) → Mem o a ↔ Mem o b)
    → ((o o' : Order) → Mem o a → Mem o' a → o.order_id ≡ o'.order_id → o ≡ o')
    → entry_of a ≡ entry_of b
entry_of-same a b same ids = elim (Option-cases (entry_of a)) [
  | inl none_a ↦ elim (Option-cases (entry_of b)) [
    | inl none_b ↦ none_a ∙ sym none_b
    | inr (y, some_b) ↦
        let (m, q, least) = entry_of-IsFirst b y some_b in
        ground (arith, q, entry_of-none a y none_a ((same y).1 m))
  ]
  | inr (x, some_a) ↦
      let (m, q, least) = entry_of-IsFirst a x some_a in
      elim (Option-cases (entry_of b)) [
        | inl none_b ↦ ground (arith, q, entry_of-none b x none_b ((same x).0 m))
        | inr (y, some_b) ↦
            let (m', q', least') = entry_of-IsFirst b y some_b in
            let my : Mem y a = (same y).1 m' in
            let id : x.order_id ≡ y.order_id =
              precedes-antisym x y (least y my q') (least' x ((same x).0 m) q) in
            some_a ∙ ap some (ids x y m my id) ∙ sym some_b
      ]
]
