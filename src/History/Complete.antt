-- ===== src/History/Complete.antt =====
-- A read of a list page by page finds the whole list (common/history.py, `_paged`).
use nautilus_ctrader_adapter.Prelude.{
  ℕ, zero, suc, ◌-◌, ◌<◌, ◌≤◌, ◌≡◌, ◌≢◌, ◌⊎◌, refl, Bool, true, false, Option, none, some, List, [],
  ◌∷◌, arith, Bool-cases, inl, inr, ltb, nat_eq,
}
use nautilus_ctrader_adapter.Prelude.Dict.{Dict, values}
use nautilus_ctrader_adapter.Prelude.Sort.{Mem}
use nautilus_ctrader_adapter.History.{Window, last_of, next_window, gather, paged_from}
use nautilus_ctrader_adapter.History.Pages.{IsKeyed, Identifies, gather-Mem}

abbrev pub Within : Window → ℕ → Type 0
Within (from, to) t = (from ≤ t) × (t ≤ to)

last_of-Mem : {A : Type 0} (a : A) (items : List A) → Mem (last_of a items) (a ∷ items)
last_of-Mem a [] = inl refl
last_of-Mem a (b ∷ items) = inr (last_of-Mem b items)

module _ {Item : Type 0} (time_of : Item → ℕ) where
  -- The page spans more than one time.
  abbrev pub Spans : List Item → Type 0
  Spans [] = ⊥
  Spans (item ∷ items) = time_of item ≢ time_of (last_of item items)

  -- A page that is cut off: it is empty or of one time only, or the list comes in the order of time
  -- or against it, and what its last item comes after in that order is in it.
  abbrev pub Cut : List Item → Window → List Item → Type 0
  Cut listed window [] = Unit {0}
  Cut listed window (item ∷ items) =
      (time_of item ≡ time_of (last_of item items))
      ⊎ ((time_of item < time_of (last_of item items))
          × ((x : Item)
              → Mem x listed
              → Within window (time_of x)
              → time_of x < time_of (last_of item items)
              → Mem x (item ∷ items)))
      ⊎ ((time_of (last_of item items) < time_of item)
          × ((x : Item)
              → Mem x listed
              → Within window (time_of x)
              → time_of (last_of item items) < time_of x
              → Mem x (item ∷ items)))

  -- What a page of a list in a window is: items of the list in the window, all of them when it says
  -- that no more follow.
  pub record IsPage (listed : List Item) (window : Window) (items : List Item) (more : Bool)
      : Type 0 where
    pub within : (x : Item) → Mem x items → Mem x listed × Within window (time_of x)
    pub whole : more ≡ false → (x : Item) → Mem x listed → Within window (time_of x) → Mem x items
    pub cut : more ≡ true → Cut listed window items

  -- A page that is cut off and spans more than one time leaves a shorter window, which holds what the page has not.
  next_window-Cut :
      (listed items : List Item) (window : Window)
      → ((x : Item) → Mem x items → Within window (time_of x))
      → Cut listed window items
      → Spans items
      → (next : Window) × (next_window time_of items window ≡ some next)
        × (next.1 - next.0 < window.1 - window.0)
        × ((x : Item)
            → Mem x listed
            → Within window (time_of x)
            → Mem x items ⊎ Within next (time_of x))
        × ((t : ℕ) → Within next t → Within window t)
  unfolding next_window
  next_window-Cut listed [] window within c s = absurd s
  next_window-Cut listed (item ∷ items) (from, to) within (inl same) s = absurd (s same)
  next_window-Cut listed (item ∷ items) (from, to) within (inr (inl (rises, rest))) s =
      let (l, u) = within (last_of item items) (last_of-Mem item items) in
      let (l', u') = within item (inl refl) in
      (
        (time_of (last_of item items), to),
        ground (arith, rises, l, l', u),
        omega (arith, rises, l', u),
        (λ x m w. elim (Bool-cases (ltb (time_of x) (time_of (last_of item items)))) [
          | inl early ↦ inl (rest x m w (ground (arith, early)))
          | inr late ↦ inr (ground (arith, late), w.1)
        ]),
        λ t w. (omega (arith, w.0, l), w.1),
      )
  next_window-Cut listed (item ∷ items) (from, to) within (inr (inr (falls, rest))) s =
      let (l, u) = within (last_of item items) (last_of-Mem item items) in
      let (l', u') = within item (inl refl) in
      (
        (from, time_of (last_of item items)),
        ground (arith, falls, l, u', u),
        omega (arith, falls, l, u', u),
        (λ x m w. elim (Bool-cases (ltb (time_of (last_of item items)) (time_of x))) [
          | inl late ↦ inl (rest x m w (ground (arith, late)))
          | inr early ↦ inr (w.0, ground (arith, early))
        ]),
        λ t w. (w.0, omega (arith, w.1, u)),
      )

  -- After one that does not, there is no way on.
  next_window-stuck :
      (items : List Item) (window : Window)
      → ((x : Item) → Mem x items → Within window (time_of x))
      → ¬ Spans items
      → next_window time_of items window ≡ none
  unfolding next_window
  next_window-stuck [] window within s = refl
  next_window-stuck (item ∷ items) (from, to) within s =
      let w = within (last_of item items) (last_of-Mem item items) in ground (arith, s, w)

  Spans-cases : (items : List Item) → Spans items ⊎ (¬ Spans items)
  Spans-cases [] = inr (λ s. s)
  Spans-cases (item ∷ items) =
      elim (Bool-cases (nat_eq (time_of item) (time_of (last_of item items)))) [
        | inl same ↦ inr (λ s. s (ground (arith, same)))
        | inr differ ↦ inl (λ same. ground (arith, differ, same))
      ]

-- The query that a round of the read sends.
abbrev pub asked : {Query : Type 0} → (Window → Query) → Option Query → Window → Query
asked ask first window = elim first [ none ↦ ask window | some query ↦ query ]

module _ {Item : Type 0} (id_of time_of : Item → ℕ) where
  -- What the read of a window returns: items of the list in the window, each once; all of them when
  -- it says that the list ended. It does, if every page that is cut off spans more than one time,
  -- when there are more pages than moments in the window.
  abbrev pub Finds :
      Type 0 → ℕ → List Item → Dict ℕ Item → Window → Option (List Item × Bool) → Type 0
  Finds Spread pages listed found window result =
      (found' : Dict ℕ Item) × (complete : Bool) × (result ≡ some (values found', complete))
      × IsKeyed id_of found'
      × ((x : Item)
          → Mem x (values found')
          → Mem x (values found) ⊎ (Mem x listed × Within window (time_of x)))
      × (complete ≡ true
          → (x : Item) → Mem x (values found) ⊎ (Mem x listed × Within window (time_of x))
          → Mem x (values found'))
      × (Spread → window.1 - window.0 < pages → complete ≡ true)

module _ {Item Query Page : Type 0} (id_of time_of : Item → ℕ) (items_of : Page → List Item)
    (has_more : Page → Bool) where
  -- A query is answered by a page of the list in the window.
  abbrev pub Answered : List Item → (Query → Option Page) → Query → Window → Type 0
  Answered listed request query window =
      (page : Page) × (request query ≡ some page)
      × IsPage time_of listed window (items_of page) (has_more page)

  -- Every page that is cut off spans more than one time.
  abbrev pub Spread : (Query → Option Page) → Type 0
  Spread request =
      (query : Query) (page : Page)
      → request query ≡ some page
      → has_more page ≡ true
      → Spans time_of (items_of page)

  pub paged_from-Finds :
      (pages : ℕ) (request : Query → Option Page) (ask : Window → Query) (first : Option Query)
      (window : Window) (found : Dict ℕ Item) (listed : List Item)
      → Identifies id_of listed
      → Answered listed request (asked ask first window) window
      → ((w : Window) → Answered listed request (ask w) w)
      → IsKeyed id_of found
      → ((x : Item) → Mem x (values found) → Mem x listed)
      → Finds id_of time_of
          (Spread request)
          pages
          listed
          found
          window
          (paged_from id_of time_of items_of has_more pages request ask first window found)
  unfolding paged_from
  paged_from-Finds zero request ask first window found listed unique answer answers k from = (
    found,
    false,
    refl,
    k,
    (λ x m. inl m),
    (λ h. ground (arith, h)),
    λ s h. absurd (omega (arith, h)),
  )
  paged_from-Finds (suc pages) request ask first window found listed unique (page, sent, is_page)
        answers k from =
      let (keyed, gathered) =
        gather-Mem id_of (items_of page) found listed unique (λ x m. (is_page.within x m).0) from
          k in
      elim (Bool-cases (has_more page)) [
        | inr last ↦ (
          gather id_of (items_of page) found,
          true,
          ground (arith, sent, last),
          keyed,
          (λ x. ground (arith, gathered x, is_page.within x)),
          (λ _ x. ground (arith, gathered x, is_page.whole last x)),
          λ _ _. refl,
        )
        | inl more ↦ elim (Spans-cases time_of (items_of page)) [
          | inr one ↦ (
            gather id_of (items_of page) found,
            false,
            ground (
              arith,
              sent,
              more,
              next_window-stuck time_of (items_of page) window (λ x m. (is_page.within x m).1) one,
            ),
            keyed,
            (λ x. ground (arith, gathered x, is_page.within x)),
            (λ c. ground (arith, c)),
            λ s _. absurd (one (s (asked ask first window) page sent more)),
          )
          | inl spans ↦
              let (next, narrows, shorter, covers, inside) =
                next_window-Cut time_of listed (items_of page) window
                  (λ x m. (is_page.within x m).1) (is_page.cut more) spans in
              let held : (x : Item)
                  → Mem x (values (gather id_of (items_of page) found))
                  → Mem x listed =
                λ x m. elim ((gathered x).0 m) [
                  | inl old ↦ from x old
                  | inr new ↦ (is_page.within x new).0
                ] in
              let (found', complete, f, keyed', sound, full, enough) =
                paged_from-Finds pages request ask none next (gather id_of (items_of page) found)
                  listed unique (answers next) answers keyed held in
              (
                found',
                complete,
                ground (arith, sent, more, narrows, f),
                keyed',
                (λ x. ground (arith, sound x, gathered x, is_page.within x, inside (time_of x))),
                (λ c x. ground (arith, full c x, gathered x, covers x)),
                λ s h. enough s (omega (arith, shorter, h)),
              )
        ]
      ]
