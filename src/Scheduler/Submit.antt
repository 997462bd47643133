-- ===== src/Scheduler/Submit.antt =====
-- A request's way through the scheduler (common/rate_limit.py, `submit`): its waits, its sends and
-- its retries. What the queue and the venue answer at each attempt is a parameter.
use nautilus_ctrader_adapter.Prelude.{
  ℕ, zero, suc, ◌+◌, ◌-◌, ◌<◌, ◌≤◌, ◌≡◌, ◌≢◌, ◌⊎◌, refl, sym, subst, ap, Bool, List, [], ◌∷◌, All,
  arith, leb, ltb, Bool-cases, inl, inr, if◌then◌else◌,
}
use nautilus_ctrader_adapter.Scheduler.{Pacing, pause_of}

-- What waiting for a turn within a budget comes to: a grant after a time, the budget's end, or the
-- error of `fail_all`.
pub data Turn : Type 0 where
  granted_after : ℕ → Turn
  timed_out lost : Turn

-- What a send comes to: a reply, a refusal for the rate with its `retry_after`, or another error.
pub data Sent {ℓ} (A : Type ℓ) : Type ℓ where
  replied : A → Sent A
  rate_refused : ℕ → Sent A
  other_error : Sent A

pub data Outcome {ℓ} (A : Type ℓ) : Type ℓ where
  returned : A → Outcome A
  queue_timeout not_sent other : Outcome A
  refused : ℕ → Outcome A

-- The outcome, how often the request was sent, the time it waited in the queue, and the pauses that
-- its refusals ordered, the first one first.
pub record Submitted {ℓ} (A : Type ℓ) : Type ℓ where
  pub outcome : Outcome A
  pub sends : ℕ
  pub waited : ℕ
  pub pauses : List ℕ

Turn-cases : (t : Turn) → (t ≡ timed_out) ⊎ (t ≡ lost) ⊎ ((secs : ℕ) × (t ≡ granted_after secs))
Turn-cases timed_out = inl refl
Turn-cases lost = inr (inl refl)
Turn-cases (granted_after secs) = inr (inr (secs, refl))

Sent-cases :
    {A : Type 0} (s : Sent A)
    → ((reply : A) × (s ≡ replied reply)) ⊎ (s ≡ other_error) ⊎ ((r : ℕ) × (s ≡ rate_refused r))
Sent-cases (replied reply) = inl (reply, refl)
Sent-cases other_error = inr (inl refl)
Sent-cases (rate_refused r) = inr (inr (r, refl))

module _ {A : Type 0} (pacing : Pacing) (turn : ℕ → ℕ → Turn) (send : ℕ → Sent A) where
  -- One round of the loop of `submit`; `next` is what a refusal leads to.
  pub attempt_once : (ℕ → ℕ → Submitted A) → ℕ → ℕ → Submitted A
  attempt_once next attempt waited =
      if leb pacing.queue_timeout waited
      then record { outcome = queue_timeout; sends = 0; waited = waited; pauses = [] }
      else elim (turn attempt (pacing.queue_timeout - waited)) [
        | timed_out ↦ record { outcome = queue_timeout; sends = 0; waited = waited; pauses = [] }
        | lost ↦ record { outcome = not_sent; sends = 0; waited = waited; pauses = [] }
        | granted_after secs ↦ elim (send attempt) [
          | replied reply ↦ record {
            outcome = returned reply;
            sends = 1;
            waited = waited + secs;
            pauses = [];
          }
          | other_error ↦ record { outcome = other; sends = 1; waited = waited + secs; pauses = [] }
          | rate_refused retry_after ↦
              let rest = next retry_after (waited + secs) in
              record rest {
                sends = suc rest.sends;
                pauses = pause_of pacing.max_pause retry_after ∷ rest.pauses;
              }
        ]
      ]

  -- The loop of `submit`, by the retries that are left.
  pub submit_from : ℕ → ℕ → ℕ → Submitted A
  submit_from zero attempt waited =
      attempt_once
        (λ retry_after spent. record {
          outcome = refused retry_after;
          sends = 0;
          waited = spent;
          pauses = [];
        })
        attempt waited
  submit_from (suc left) attempt waited =
      attempt_once (λ retry_after spent. submit_from left (suc attempt) spent) attempt waited

  -- `submit`, of a historical request or of another.
  abbrev pub submit : Bool → Submitted A
  submit historical = submit_from (if historical then pacing.retries else 0) 0 0

  -- A grant comes within the budget it waits for.
  abbrev pub GrantsInTime : Type 0
  GrantsInTime =
      (attempt budget secs : ℕ) → turn attempt budget ≡ granted_after secs → secs ≤ budget

  -- Whether an outcome is what the sends from an attempt on led to: each but the last was refused
  -- for the rate.
  abbrev pub Explains : ℕ → Submitted A → Type 0
  Explains attempt done =
      (reply : A)
      → done.outcome ≡ returned reply
      → (last : ℕ) × (done.sends ≡ suc last)
        × (send (attempt + last) ≡ replied reply)
        × ((earlier : ℕ) → earlier < last → (r : ℕ) × (send (attempt + earlier) ≡ rate_refused r))

  -- How often a request is sent, how long it waits and how long its refusals pause the group.
  abbrev pub IsBounded : ℕ → Submitted A → Type 0
  IsBounded left done =
      (done.sends ≤ suc left)
      × (done.waited ≤ pacing.queue_timeout)
      × All (λ p. p ≤ pacing.max_pause) done.pauses

  -- The ways in which a round ends.
  data Ends (next : ℕ → ℕ → Submitted A) (attempt waited : ℕ) : Submitted A → Type 0 where
    unsent :
        (outcome : Outcome A)
        → ((reply : A) → outcome ≢ returned reply)
        → Ends next attempt waited
            (record { outcome = outcome; sends = 0; waited = waited; pauses = [] })
    sent :
        (outcome : Outcome A) (secs : ℕ)
        → secs ≤ pacing.queue_timeout - waited
        → ((reply : A) → outcome ≡ returned reply → send attempt ≡ replied reply)
        → Ends next attempt waited
            (record { outcome = outcome; sends = 1; waited = waited + secs; pauses = [] })
    turned_down :
        (retry_after secs : ℕ)
        → secs ≤ pacing.queue_timeout - waited
        → send attempt ≡ rate_refused retry_after
        → Ends next attempt waited (record (next retry_after (waited + secs)) {
          sends = suc (next retry_after (waited + secs)).sends;
          pauses =
              pause_of pacing.max_pause retry_after ∷ (next retry_after (waited + secs)).pauses;
        })

  attempt_once-Ends :
      (next : ℕ → ℕ → Submitted A) (attempt waited : ℕ)
      → GrantsInTime
      → Ends next attempt waited (attempt_once next attempt waited)
  unfolding attempt_once
  attempt_once-Ends next attempt waited quick =
      elim (Bool-cases (leb pacing.queue_timeout waited)) [
        | inl over ↦
            subst (Ends next attempt waited) (sym (ground (arith, over)))
              (unsent queue_timeout (λ reply h. ground (arith, h)))
        | inr under ↦ elim (Turn-cases (turn attempt (pacing.queue_timeout - waited))) [
          | inl t ↦
              subst (Ends next attempt waited) (sym (ground (arith, under, t)))
                (unsent queue_timeout (λ reply h. ground (arith, h)))
          | inr (inl t) ↦
              subst (Ends next attempt waited) (sym (ground (arith, under, t)))
                (unsent not_sent (λ reply h. ground (arith, h)))
          | inr (inr (secs, t)) ↦
              let in_time = quick attempt (pacing.queue_timeout - waited) secs t in
              elim (Sent-cases (send attempt)) [
                | inl (reply, s) ↦
                    subst (Ends next attempt waited) (sym (ground (arith, under, t, s)))
                      (sent (returned reply) secs in_time (λ r h. ground (arith, s, h)))
                | inr (inl s) ↦
                    subst (Ends next attempt waited) (sym (ground (arith, under, t, s)))
                      (sent other secs in_time (λ r h. ground (arith, h)))
                | inr (inr (r, s)) ↦
                    subst (Ends next attempt waited) (sym (ground (arith, under, t, s)))
                      (turned_down r secs in_time s)
              ]
        ]
      ]

  -- What holds of what a refusal leads to.
  Follows : ℕ → ℕ → (ℕ → ℕ → Submitted A) → Type 0
  Follows left attempt next =
      (r spent : ℕ)
      → spent ≤ pacing.queue_timeout
      → ((next r spent).sends ≤ left)
        × ((next r spent).waited ≤ pacing.queue_timeout)
        × All (λ p. p ≤ pacing.max_pause) (next r spent).pauses
        × Explains (suc attempt) (next r spent)

  Ends-Explains :
      (left : ℕ) (next : ℕ → ℕ → Submitted A) (attempt waited : ℕ) (done : Submitted A)
      → waited ≤ pacing.queue_timeout
      → Follows left attempt next
      → Ends next attempt waited done
      → IsBounded left done × Explains attempt done
  unfolding Follows
  Ends-Explains left next attempt waited done w later (unsent outcome none_came) =
      ((omega arith, w, tt), λ reply h. absurd (none_came reply h))
  Ends-Explains left next attempt waited done w later (sent outcome secs in_time came) = (
    (omega arith, omega (arith, w, in_time), tt),
    λ reply h. (
      0,
      refl,
      subst (λ k. send k ≡ replied reply) (omega arith) (came reply h),
      λ e l. absurd (omega (arith, l)),
    ),
  )
  Ends-Explains left next attempt waited done w later (turned_down r secs in_time was) =
      let (few, short, capped, told) = later r (waited + secs) (omega (arith, w, in_time)) in
      (
        (omega (arith, few), short, (ground arith, capped)),
        λ reply h.
            let (last, count, came, before) = told reply h in
            (
              suc last,
              ap suc count,
              subst (λ k. send k ≡ replied reply) {x = suc attempt + last} {y = attempt + suc last}
                  (omega arith) came,
              λ e l. elim (Bool-cases (ltb 0 e)) [
                | inl later_one ↦
                    let (s, refusal) = before (e - 1) (ground (arith, later_one, l)) in
                    (
                      s,
                      subst (λ k. send k ≡ rate_refused s) {x = suc attempt + (e - 1)}
                          {y = attempt + e} (ground (arith, later_one)) refusal,
                    )
                | inr first ↦ (
                  r,
                  subst (λ k. send k ≡ rate_refused r) {x = attempt} {y = attempt + e}
                      (ground (arith, first)) was,
                )
              ],
            ),
      )

  submit_from-Explains :
      (left attempt waited : ℕ)
      → GrantsInTime
      → waited ≤ pacing.queue_timeout
      → IsBounded left (submit_from left attempt waited)
        × Explains attempt (submit_from left attempt waited)
  unfolding submit_from Follows
  submit_from-Explains zero attempt waited quick w =
      Ends-Explains 0 _ attempt waited _ w
        (λ r spent s. (omega arith, s, tt, λ reply h. ground (arith, h)))
        (attempt_once-Ends _ attempt waited quick)
  submit_from-Explains (suc left) attempt waited quick w =
      Ends-Explains (suc left) _ attempt waited _ w
        (λ r spent s.
          let ((few, short, capped), told) =
            submit_from-Explains left (suc attempt) spent quick s in
          (few, short, capped, told))
        (attempt_once-Ends _ attempt waited quick)

  -- When the queue grants a turn only within the time a request has left, a request is sent at most
  -- once more than its group's retries, and a request that is not historical at most once; it waits
  -- in the queue no longer than its limit, retries included; no refusal pauses its group for longer
  -- than the cap; and a reply that is returned is the last send's, every send before which the venue
  -- refused for the rate.
  pub submit-Explains :
      (historical : Bool)
      → GrantsInTime
      → IsBounded (if historical then pacing.retries else 0) (submit historical)
        × Explains 0 (submit historical)
  submit-Explains historical quick =
      submit_from-Explains (if historical then pacing.retries else 0) 0 0 quick (omega arith)
