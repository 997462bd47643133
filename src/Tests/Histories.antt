-- ===== src/Tests/Histories.antt =====
-- Pages of an account's deals, the windows that they are asked in, and the balance they lead to.
use nautilus_ctrader_adapter.Prelude.{
  ℕ, ◌<◌, ◌≤◌, ◌≡◌, ◌↔◌, refl, Bool, true, false, ◌&&◌, Option, none, some, List, [], ◌∷◌, keep,
  inl, inr, arith, leb, if◌then◌else◌, ap,
}
use nautilus_ctrader_adapter.Prelude.Sort.{Mem}
use nautilus_ctrader_adapter.Prelude.Rising.{Rising-key}
use nautilus_ctrader_adapter.Messages.{Deal}
use nautilus_ctrader_adapter.History.{
  Window, Query, deal_list, Page, id_of_deal, time_of_deal, items_of, more_of, weekly_windows,
  deals_between,
}
use nautilus_ctrader_adapter.History.Windows.{Tiles, Holds, weekly_windows-Tiles}
use nautilus_ctrader_adapter.History.Complete.{IsPage, Spread}
use nautilus_ctrader_adapter.History.Reads.{Listing, deals_between-Listing}
use nautilus_ctrader_adapter.Tests.Data

weekly_windows-Tiles_example :
    Tiles 5 700000005 (weekly_windows 5 700000005)
    × (5 < 700000005 → (t : ℕ) → 5 ≤ t → t ≤ 700000005 → Holds t (weekly_windows 5 700000005))
weekly_windows-Tiles_example = weekly_windows-Tiles 5 700000005 (omega arith)

abbrev deal_at : ℕ → ℕ → Deal
deal_at id time = record Data.deal { deal_id = id; execution_timestamp = time }

abbrev listed : List Deal
listed = deal_at 1 10 ∷ deal_at 2 20 ∷ deal_at 3 30 ∷ []

abbrev is_in : Window → Deal → Bool
is_in (from, to) deal = leb from deal.execution_timestamp && leb deal.execution_timestamp to

-- The venue lists the deals in the order of time, two to a page when all three are asked.
abbrev page_of : Window → Page Deal
page_of window =
    if is_in window (deal_at 1 10) && is_in window (deal_at 3 30)
    then record { items = deal_at 1 10 ∷ deal_at 2 20 ∷ []; has_more = true }
    else record { items = keep (is_in window) listed; has_more = false }

abbrev request : Query → Option (Page Deal)
request (deal_list account_id window) = some (page_of window)
request query = none

Mem-keep :
    {A : Type 0} (p : A → Bool) (x : A) (xs : List A)
    → Mem x (keep p xs) ↔ (Mem x xs × (p x ≡ true))
Mem-keep p x [] = ground arith
Mem-keep p x (y ∷ xs) = ground (arith, Mem-keep p x xs, ap p {x = x} {y = y})

abbrev Pages : Window → Page Deal → Type 0
Pages w page = IsPage time_of_deal listed w page.items page.has_more

either-Pages :
    (w : Window) (b : Bool) (p q : Page Deal)
    → (b ≡ true → Pages w p)
    → (b ≡ false → Pages w q)
    → Pages w (if b then p else q)
either-Pages w true p q h k = h refl
either-Pages w false p q h k = k refl

page_of-Pages : (w : Window) → Pages w (page_of w)
page_of-Pages w =
    either-Pages w (is_in w (deal_at 1 10) && is_in w (deal_at 3 30)) _ _
      (λ both. record {
        within = λ x m. elim m [
          | inl e ↦ (inl e, ground (arith, both, ap time_of_deal e))
          | inr (inl e) ↦ (inr (inl e), ground (arith, both, ap time_of_deal e))
          | inr (inr n) ↦ elim n [ ]
        ];
        whole = λ h. ground (arith, h);
        cut = λ h. inr (
            inl (
              ground arith,
              λ x m i l. elim m [
                | inl e ↦ inl e
                | inr (inl e) ↦ inr (inl e)
                | inr (inr (inl e)) ↦ absurd (ground (arith, ap time_of_deal e, l))
                | inr (inr (inr n)) ↦ elim n [ ]
              ],
            ));
      })
      (λ part. record {
        within = λ x m. let (m', t) = (Mem-keep (is_in w) x listed).0 m in (m', ground (arith, t));
        whole = λ h x m i. (Mem-keep (is_in w) x listed).1 (m, ground (arith, i));
        cut = λ h. ground (arith, h);
      })

deals_between-Listing_example :
    Listing id_of_deal time_of_deal
      (Spread id_of_deal time_of_deal items_of more_of request)
      50
      listed
      (0, 40)
      (deals_between 9 request 0 40 50)
deals_between-Listing_example =
    deals_between-Listing 9 0 40 50 request listed
      (λ a b m n e. Rising-key id_of_deal a b listed (ground arith) m n e)
      (λ w. (page_of w, refl, page_of-Pages w))
