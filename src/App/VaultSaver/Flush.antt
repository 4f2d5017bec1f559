-- ===== src/App/VaultSaver/Flush.antt =====
-- app/vault_saver.cpp: the waits of `flush` and of the destructor.
use steam_account_manager.Common.{
  ℕ, zero, suc, List, true, false, Option, none, some, if◌then◌else◌, leb, ◌≡◌, ◌≢◌, refl, sym, ap,
  ◌∙◌, arith, Bool-cases, Option-cases, inl, inr, ◌⊎◌,
}
use steam_account_manager.App.VaultSaver.{
  Pending, Worker, Saver, Action, unborn, waiting, writing, settling, leaving, last_writing, ended,
  flush, hurried, take_work, take_last, work_at, work, run, new, is_settled, step, works, stops,
}
use steam_account_manager.App.VaultSaver.Order.{
  Inv, run-Inv, step-Inv, flush-Inv, new-Inv, line, Coalesces, is_busy, is_leaving,
}

module _ {V : Type 0} where
  unfoldable pub work_times : ℕ → Saver V → Saver V
  work_times zero s = s
  work_times (suc n) s = work_times n (work s)

  abbrev at : Worker V → Saver V → Saver V
  at w s = record s { worker = w; busy = is_busy w }

  module _ (s : Saver V) where
    settled_at :
        (w : Worker V)
        → is_leaving w ≡ false
        → w ≢ unborn
        → s.stop ≡ false
        → (s.pending ≡ none)
          ⊎ ((p : Pending V) × (s.pending ≡ some p) × (leb p.deadline s.now ≡ true))
        → is_settled (work_times 5 (at w s)) ≡ true
    unfolding work_times work work_at take_work is_settled
    settled_at unborn l b on p = absurd (b refl)
    settled_at waiting l b on (inl p) = ground (arith, p, on)
    settled_at waiting l b on (inr (v, p, d)) = ground (arith, p, d, on)
    settled_at (writing v) l b on (inl p) = ground (arith, p, on)
    settled_at (writing v) l b on (inr (u, p, d)) = ground (arith, p, d, on)
    settled_at settling l b on (inl p) = ground (arith, p, on)
    settled_at settling l b on (inr (u, p, d)) = ground (arith, p, d, on)
    settled_at leaving l b on p = cc
    settled_at (last_writing v) l b on p = cc
    settled_at ended l b on p = cc

    ended_at :
        (w : Worker V)
        → is_leaving w ≡ false
        → w ≢ unborn
        → let s' = work_times 7 (record (at w s) { stop = true }) in
          (s'.worker ≡ ended) × (s'.pending ≡ none)
    unfolding work_times work work_at take_work take_last
    ended_at unborn l b = absurd (b refl)
    ended_at waiting l b = elim (Option-cases s.pending) [
      | inl p ↦ ground (arith, p)
      | inr (u, p) ↦ ground (arith, p)
    ]
    ended_at (writing v) l b = elim (Option-cases s.pending) [
      | inl p ↦ ground (arith, p)
      | inr (u, p) ↦ ground (arith, p)
    ]
    ended_at settling l b = elim (Option-cases s.pending) [
      | inl p ↦ ground (arith, p)
      | inr (u, p) ↦ ground (arith, p)
    ]
    ended_at leaving l b = cc
    ended_at (last_writing v) l b = cc
    ended_at ended l b = cc

  work_at-scheduled :
      (w : Worker V) (s : Saver V)
      → ((work_at w s).scheduled ≡ s.scheduled) × ((work_at w s).stop ≡ s.stop)
  unfolding work_at take_work take_last
  work_at-scheduled waiting s = elim (Option-cases s.pending) [
    | inl p ↦ ground (arith, p)
    | inr (u, p) ↦ ground (arith, p)
  ]
  work_at-scheduled leaving s = elim (Option-cases s.pending) [
    | inl p ↦ ground (arith, p)
    | inr (u, p) ↦ ground (arith, p)
  ]
  work_at-scheduled unborn s = (refl, refl)
  work_at-scheduled (writing v) s = (refl, refl)
  work_at-scheduled settling s = (refl, refl)
  work_at-scheduled (last_writing v) s = (refl, refl)
  work_at-scheduled ended s = (refl, refl)

  work_times-scheduled :
      (n : ℕ) (s : Saver V)
      → ((work_times n s).scheduled ≡ s.scheduled) × ((work_times n s).stop ≡ s.stop)
  unfolding work_times work
  work_times-scheduled zero s = (refl, refl)
  work_times-scheduled (suc n) s =
      let (a, b) = work_times-scheduled n (work s) in
      let (c, d) = work_at-scheduled s.worker s in (a ∙ c, b ∙ d)

  work_times-Inv : (n : ℕ) (s : Saver V) → Inv s → Inv (work_times n s)
  unfolding work_times
  work_times-Inv zero s h = h
  work_times-Inv (suc n) s h = work_times-Inv n (work s) (unfold step in step-Inv s works h)

  open-is_leaving : (s : Saver V) → Inv s → s.stop ≡ false → is_leaving s.worker ≡ false
  open-is_leaving s h on = elim (Bool-cases (is_leaving s.worker)) [
    | inl l ↦ let t = h.stopped l in cc
    | inr l ↦ l
  ]

  flush-scheduled : (s : Saver V) → ((flush s).scheduled ≡ s.scheduled) × ((flush s).stop ≡ s.stop)
  unfolding flush
  flush-scheduled s = ground arith

  settled-line : (s : Saver V) → Inv s → is_settled s ≡ true → s.stop ≡ false → line s ≡ s.attempted
  unfolding is_settled
  settled-line s h k on = elim (Option-cases s.pending) [
    | inl p ↦ ground (arith, h, open-is_leaving s h on)
    | inr (v, p) ↦ ground (arith, p)
  ]

  ended-line : (s : Saver V) → s.worker ≡ ended → s.pending ≡ none → line s ≡ s.attempted
  ended-line s e p = rw (e, p)

  attempted-Coalesces :
      (s : Saver V) → Inv s → line s ≡ s.attempted → Coalesces s.attempted s.scheduled
  attempted-Coalesces s h e = rw e at h.coalesced

  at_self : (s : Saver V) → s.busy ≡ is_busy s.worker → at s.worker s ≡ s
  at_self s h = ap (λ b. record s { busy = b }) (sym h)

  hurried_due :
      (now : ℕ) (o : Option (Pending V))
      → (hurried now o ≡ none)
        ⊎ ((p : Pending V) × (hurried now o ≡ some p) × (leb p.deadline now ≡ true))
  hurried_due now none = inl refl
  hurried_due now (some p) = inr (record p { deadline = now }, refl, ground arith)

  flush_at :
      (s : Saver V)
      → Inv s
      → s.started ≡ true
      → s.stop ≡ false
      → is_settled (work_times 5 (flush s)) ≡ true
  unfolding flush
  flush_at s h up on =
      let s' : Saver V = record s { pending = hurried s.now s.pending } in
      let e : flush s ≡ s' = ap (λ b. if b then s' else s) up in
      ap (λ x. is_settled (work_times 5 x)) (e ∙ sym (at_self s' h.busy_at))
      ∙ settled_at s' s.worker (open-is_leaving s h on) (h.born up) on (hurried_due s.now s.pending)

  -- From every state that a run reaches with the thread started and not stopped, five steps of
  -- the thread after `flush` satisfy its wait; then nothing waits, and the last vault that
  -- save_vault was called with is the last one scheduled.
  pub flush-settles :
      (actions : List (Action V))
      → (run new actions).started ≡ true
      → (run new actions).stop ≡ false
      → let s = work_times 5 (flush (run new actions)) in
        (is_settled s ≡ true)
        × (s.scheduled ≡ (run new actions).scheduled)
        × Coalesces s.attempted s.scheduled
  flush-settles actions up on =
      let s₀ = run new actions in
      let h₀ = run-Inv new actions new-Inv in
      let s = work_times 5 (flush s₀) in
      let h : Inv s = work_times-Inv 5 (flush s₀) (flush-Inv s₀ h₀) in
      let (kept, still) = work_times-scheduled 5 (flush s₀) in
      let (kept', still') = flush-scheduled s₀ in
      let settled = flush_at s₀ h₀ up on in
      (
        settled,
        kept ∙ kept',
        attempted-Coalesces s h (settled-line s h settled (still ∙ still' ∙ on)),
      )

  -- From every state that a run reaches with the thread started and not stopped, seven steps of
  -- the thread after the destructor has set `stop_` end it, with the last vault scheduled as the
  -- last one that save_vault was called with.
  pub stop-ends :
      (actions : List (Action V))
      → (run new actions).started ≡ true
      → (run new actions).stop ≡ false
      → let s = work_times 7 (step (run new actions) stops) in
        (s.worker ≡ ended)
        × (s.scheduled ≡ (run new actions).scheduled)
        × Coalesces s.attempted s.scheduled
  unfolding step
  stop-ends actions up on =
      let s₀ = run new actions in
      let h₀ = run-Inv new actions new-Inv in
      let s₁ : Saver V = record s₀ { stop = true } in
      let s = work_times 7 s₁ in
      let h : Inv s = work_times-Inv 7 s₁ (step-Inv s₀ stops h₀) in
      let same = sym (at_self s₁ h₀.busy_at) in
      let (done, none_left) = ended_at s₀ s₀.worker (open-is_leaving s₀ h₀ on) (h₀.born up) in
      let done' = ap (λ x. (work_times 7 x).worker) same ∙ done in
      let none_left' = ap (λ x. (work_times 7 x).pending) same ∙ none_left in
      let (kept, still) = work_times-scheduled 7 s₁ in
      (done', kept, attempted-Coalesces s h (ended-line s done' none_left'))
