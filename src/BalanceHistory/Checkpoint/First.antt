-- ===== src/BalanceHistory/Checkpoint/First.antt =====
-- An occurrence is the first instant of its wall time (common/balance_history.py, `_occurrence`).
use nautilus_ctrader_adapter.Prelude.{
  ℕ, zero, suc, ◌+◌, ◌-◌, ◌/◌, ◌<◌, ◌≤◌, ◌≡◌, ◌≢◌, subst, sym, true, false, arith, ltb, leb, nat_eq,
  Bool-cases, inl, inr,
}
use nautilus_ctrader_adapter.BalanceHistory.Checkpoint.{Zone, combined, bisect, occurrence}

-- The first instant at which the wall time is not before `naive`.
abbrev pub IsFirst : (ℕ → ℕ) → ℕ → ℕ → Type 0
IsFirst wall naive first = (naive ≤ wall first) × ((t : ℕ) → t < first → wall t < naive)

-- Once the wall time is reached it stays so up to `high`.
abbrev pub StaysReached : (ℕ → ℕ) → ℕ → ℕ → ℕ → Type 0
StaysReached wall naive low high =
    (s t : ℕ) → low ≤ s → s ≤ t → t ≤ high → naive ≤ wall s → naive ≤ wall t

-- What has not reached the wall time by a middle has not before it.
below_middle :
    (wall : ℕ → ℕ) (naive low high : ℕ)
    → ((t : ℕ) → t < low → wall t < naive)
    → StaysReached wall naive low high
    → low < high
    → leb naive (wall ((low + high) / 2)) ≡ false
    → (t : ℕ) → t < (low + high) / 2 + 1
    → wall t < naive
below_middle wall naive low high b s more still t below = elim (Bool-cases (ltb (wall t) naive)) [
  | inl under ↦ ground (arith, under)
  | inr over ↦ elim (Bool-cases (ltb t low)) [
    | inl early ↦ b t (ground (arith, early))
    | inr late ↦
        let risen : naive ≤ wall ((low + high) / 2) =
          s t ((low + high) / 2) (ground (arith, late)) (ground (arith, below))
            (ground (arith, more)) (ground (arith, over)) in
        ground (arith, risen, still)
  ]
]

bisect-IsFirst :
    (fuel : ℕ) (wall : ℕ → ℕ) (naive low high : ℕ)
    → low ≤ high
    → high - low ≤ fuel
    → naive ≤ wall high
    → ((t : ℕ) → t < low → wall t < naive)
    → StaysReached wall naive low high
    → IsFirst wall naive (bisect fuel wall naive low high)
unfolding bisect
bisect-IsFirst zero wall naive low high l f h b s =
    let same : high ≡ low = omega (arith, l, f) in
    ground (arith, subst (λ x. naive ≤ wall x) same h, b)
bisect-IsFirst (suc fuel) wall naive low high l f h b s = elim (Bool-cases (ltb low high)) [
  | inr done ↦
      let same : high ≡ low = ground (arith, l, done) in
      subst (IsFirst wall naive) (sym (ground (arith, done)))
        (subst (λ x. naive ≤ wall x) same h, b)
  | inl more ↦ elim (Bool-cases (leb naive (wall ((low + high) / 2)))) [
    | inl reached ↦
        let again =
          bisect-IsFirst fuel wall naive low ((low + high) / 2) (ground (arith, more))
            (ground (arith, more, f)) (ground (arith, reached)) b
            (λ i j from up to. s i j from up (ground (arith, to, more))) in
        subst (IsFirst wall naive) (sym (ground (arith, more, reached))) again
    | inr still ↦
        let below : (t : ℕ) → t < (low + high) / 2 + 1 → wall t < naive =
          below_middle wall naive low high b s (ground (arith, more)) still in
        let again =
          bisect-IsFirst fuel wall naive ((low + high) / 2 + 1) high (ground (arith, more))
            (ground (arith, more, f)) h below
            (λ i j from up to. s i j (ground (arith, from, more)) up to) in
        subst (IsFirst wall naive) (sym (ground (arith, more, still))) again
  ]
]

-- What the zone library documents of reading a wall time. A time that the clock shows is read as
-- its first instant; one that a clock change skips is read before the change with `fold` set and at
-- or after it without, and around that change the clock does not go back.
pub record Reads (zone : Zone) (naive : ℕ) : Type 0 where
  pub shown :
      zone.wall (zone.instant false naive) ≡ naive
      → (t : ℕ) → t < zone.instant false naive
      → zone.wall t < naive
  pub skipped :
      zone.wall (zone.instant false naive) ≢ naive
      → (zone.instant true naive ≤ zone.instant false naive)
        × (naive ≤ zone.wall (zone.instant false naive))
        × ((t : ℕ) → t < zone.instant true naive → zone.wall t < naive)
        × StaysReached zone.wall naive (zone.instant true naive) (zone.instant false naive)

-- The occurrence of an hour of a day is the first instant at which the zone's clock has reached
-- that hour of that day, when the zone reads its wall time as documented: where the clock shows the
-- hour twice it is the earlier one, and where a clock change skips the hour it is the change.
pub occurrence-IsFirst :
    (day hour : ℕ) (zone : Zone)
    → Reads zone (combined day hour)
    → IsFirst zone.wall (combined day hour) (occurrence day hour zone)
unfolding occurrence
occurrence-IsFirst day hour zone reads =
    elim (Bool-cases
      (nat_eq (zone.wall (zone.instant false (combined day hour))) (combined day hour))) [
        | inl same ↦
            subst (IsFirst zone.wall (combined day hour)) (sym (ground (arith, same)))
              (ground (arith, same), reads.shown (ground (arith, same)))
        | inr other ↦
            let away : zone.wall (zone.instant false (combined day hour)) ≢ combined day hour =
              ground (arith, other) in
            let (l, h, b, s) = reads.skipped away in
            subst (IsFirst zone.wall (combined day hour)) (sym (ground (arith, other))) (
              bisect-IsFirst
                (zone.instant false (combined day hour) - zone.instant true (combined day hour))
                zone.wall (combined day hour) (zone.instant true (combined day hour))
                (zone.instant false (combined day hour)) l (omega arith) h b s)
      ]
