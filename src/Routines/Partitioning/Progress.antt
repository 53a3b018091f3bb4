-- ===== src/Routines/Partitioning/Progress.antt =====
-- When the goroutines of the partitioning routine go on.
use kava_proxy_service.Base.{
  [], some, true, Error, Result, ok, err, panic, pos, lt_ℤ, ◌≡◌, ◌≢◌, ◌⊎◌, ◌↔◌, inl, inr, refl, ap,
  ◌∙◌,
}
use kava_proxy_service.Routines.Ticks.{MetricPartitioningRoutine}
use kava_proxy_service.Routines.Partitioning.{
  Caller, sleeping, first_run, sending_first, receiving, Ticker, not_started, at_timer, ticked,
  sending, Goroutines, start, main_thread, ticker_thread, sent_by_caller, sent_by_ticker,
  is_receiving, run_partition, Step, wake, first_run_ok, first_run_err, tick, tick_ok, tick_err,
  exchange, Reach, here, next,
}

caller_sends : (c : Caller) (e : Error) → sent_by_caller c ≡ some e → c ≡ sending_first e
caller_sends sleeping e h = cc
caller_sends first_run e h = cc
caller_sends (sending_first x) e h = cc
caller_sends receiving e h = cc

caller_receives : (c : Caller) → is_receiving c ≡ true → c ≡ receiving
caller_receives sleeping h = cc
caller_receives first_run h = cc
caller_receives (sending_first x) h = cc
caller_receives receiving h = refl

ticker_sends : (t : Ticker) (e : Error) → sent_by_ticker t ≡ some e → t ≡ sending e
ticker_sends not_started e h = cc
ticker_sends at_timer e h = cc
ticker_sends ticked e h = cc
ticker_sends (sending x) e h = cc

module _ {D : Type 0} (mcr : MetricPartitioningRoutine D) (d : D) where
  -- Before the end of the first run the database is as at the start; after it, the caller receives.
  abbrev pub IsGoing : Goroutines D → Type 0
  IsGoing s =
      ((s.caller ≡ sleeping) × (s.database ≡ d) × (s.ticker ≡ not_started))
      ⊎ ((s.caller ≡ first_run) × (s.database ≡ d) × (s.ticker ≡ not_started))
      ⊎ ((s.caller ≡ receiving) × (s.ticker ≢ not_started))

  Step-IsGoing :
      {s t : Goroutines D} → (run_partition mcr d).1 ≡ ok tt → Step mcr s t → IsGoing s → IsGoing t
  Step-IsGoing good (wake s e) (inl (_, db, t)) = inr (inl (refl, db, t))
  Step-IsGoing good (wake s e) (inr (inl (c, _, _))) = cc
  Step-IsGoing good (wake s e) (inr (inr (c, _))) = cc
  Step-IsGoing good (first_run_ok s e o) h = inr (inr (refl, (λ x. cc)))
  Step-IsGoing good (first_run_err s x e o) (inl (c, _, _)) = cc
  Step-IsGoing good (first_run_err s x e o) (inr (inl (_, db, _))) =
      let same : (run_partition mcr s.database).1 ≡ (run_partition mcr d).1 =
        ap (λ y. (run_partition mcr y).1) db in
      cc
  Step-IsGoing good (first_run_err s x e o) (inr (inr (c, _))) = cc
  Step-IsGoing good (tick s e p) (inl (_, _, t)) = cc
  Step-IsGoing good (tick s e p) (inr (inl (_, _, t))) = cc
  Step-IsGoing good (tick s e p) (inr (inr (c, _))) = inr (inr (c, (λ x. cc)))
  Step-IsGoing good (tick_ok s e o) (inl (_, _, t)) = cc
  Step-IsGoing good (tick_ok s e o) (inr (inl (_, _, t))) = cc
  Step-IsGoing good (tick_ok s e o) (inr (inr (c, _))) = inr (inr (c, (λ x. cc)))
  Step-IsGoing good (tick_err s x e o) (inl (_, _, t)) = cc
  Step-IsGoing good (tick_err s x e o) (inr (inl (_, _, t))) = cc
  Step-IsGoing good (tick_err s x e o) (inr (inr (c, _))) = inr (inr (c, (λ x. cc)))
  Step-IsGoing good (exchange s from ticker_thread x f r) h = cc r
  Step-IsGoing good (exchange s main_thread main_thread x f r) h =
      let sending_one = caller_sends s.caller x f in
      let receiving_one = caller_receives s.caller r in cc
  Step-IsGoing good (exchange s ticker_thread main_thread x f r) h =
      inr (inr (caller_receives s.caller r, (λ x. cc)))

  Reach-IsGoing :
      {s : Goroutines D} → (run_partition mcr d).1 ≡ ok tt → Reach mcr (start d) s → IsGoing s
  Reach-IsGoing good here = inl (refl, refl, refl)
  Reach-IsGoing good (next r step) = Step-IsGoing good step (Reach-IsGoing good r)

  -- A step of a state in which the caller receives.
  ticker_goes :
      (s : Goroutines D)
      → ((x : D) → (run_partition mcr x).1 ≢ panic)
      → lt_ℤ (pos 0) mcr.interval ≡ true
      → s.caller ≡ receiving
      → (ticker : Ticker) → s.ticker ≡ ticker
      → ticker ≢ not_started
      → (r : Result (Unit {0})) → (run_partition mcr s.database).1 ≡ r
      → (t : Goroutines D) × Step mcr s t
  ticker_goes s calm p c not_started e h r o = absurd (h refl)
  ticker_goes s calm p c at_timer e h r o = (_, tick s e p)
  ticker_goes s calm p c ticked e h (ok tt) o = (_, tick_ok s e o)
  ticker_goes s calm p c ticked e h (err x) o = (_, tick_err s x e o)
  ticker_goes s calm p c ticked e h panic o = absurd (calm s.database o)
  ticker_goes s calm p c (sending x) e h r o =
      (_, exchange s ticker_thread main_thread x (ap sent_by_ticker e) (ap is_receiving c))

  never_blocks :
      (s : Goroutines D)
      → (run_partition mcr d).1 ≡ ok tt
      → ((x : D) → (run_partition mcr x).1 ≢ panic)
      → lt_ℤ (pos 0) mcr.interval ≡ true
      → Reach mcr (start d) s
      → (t : Goroutines D) × Step mcr s t
  never_blocks s good calm p r = go (Reach-IsGoing good r)
    where
      go : IsGoing s → (t : Goroutines D) × Step mcr s t
      go (inl (c, _, _)) = (_, wake s c)
      go (inr (inl (c, db, _))) =
          (_, first_run_ok s c (ap (λ y. (run_partition mcr y).1) db ∙ good))
      go (inr (inr (c, t))) = ticker_goes s calm p c s.ticker refl t _ refl

  -- The state after the first run.
  abbrev waiting : Goroutines D
  waiting = record {
    caller = receiving;
    ticker = at_timer;
    database = (run_partition mcr d).0;
    logged = [];
  }

  waiting-Reach : (run_partition mcr d).1 ≡ ok tt → Reach mcr (start d) waiting
  waiting-Reach good = next (next here (wake _ refl)) (first_run_ok _ refl good)

  -- At the timer only a tick goes on.
  Step-positive :
      (s t : Goroutines D)
      → s.caller ≡ receiving
      → s.ticker ≡ at_timer
      → Step mcr s t
      → lt_ℤ (pos 0) mcr.interval ≡ true
  Step-positive s t c k (wake _ c') = cc
  Step-positive s t c k (first_run_ok _ c' o) = cc
  Step-positive s t c k (first_run_err _ x c' o) = cc
  Step-positive s t c k (tick _ k' p) = p
  Step-positive s t c k (tick_ok _ k' o) = cc
  Step-positive s t c k (tick_err _ x k' o) = cc
  Step-positive s t c k (exchange _ main_thread to x f r) =
      let sending_one = caller_sends s.caller x f in cc
  Step-positive s t c k (exchange _ ticker_thread to x f r) =
      let sending_one = ticker_sends s.ticker x f in cc

  -- If the first run returns no error and no run panics, then the goroutines never block, which is
  -- that there is a step from every state that they reach, also after errors of later runs, exactly if
  -- the interval is positive.
  pub never_blocks_iff :
      (run_partition mcr d).1 ≡ ok tt
      → ((x : D) → (run_partition mcr x).1 ≢ panic)
      → ((s : Goroutines D) → Reach mcr (start d) s → (t : Goroutines D) × Step mcr s t)
        ↔ (lt_ℤ (pos 0) mcr.interval ≡ true)
  never_blocks_iff good calm = (
    (λ go.
        let (t, step) = go waiting (waiting-Reach good) in Step-positive waiting t refl refl step),
    (λ p s r. never_blocks s good calm p r),
  )

  -- The places of the caller, with the database: until the first run it is as at the start.
  abbrev IsBefore : Error → Goroutines D → Type 0
  IsBefore e s =
      ((s.caller ≡ sleeping) × (s.database ≡ d))
      ⊎ ((s.caller ≡ first_run) × (s.database ≡ d))
      ⊎ ((s.caller ≡ sending_first e) × (s.database ≡ (run_partition mcr d).0))

  abbrev IsStuck : Error → Goroutines D → Type 0
  IsStuck e s = (s.logged ≡ []) × (s.ticker ≡ not_started) × IsBefore e s

  Step-IsStuck :
      {s t : Goroutines D} (e : Error)
      → (run_partition mcr d).1 ≡ err e
      → Step mcr s t
      → IsStuck e s
      → IsStuck e t
  Step-IsStuck e bad (wake s c) (l, t, inl (_, db)) = (l, t, inr (inl (refl, db)))
  Step-IsStuck e bad (wake s c) (l, t, inr (inl (c', _))) = cc
  Step-IsStuck e bad (wake s c) (l, t, inr (inr (c', _))) = cc
  Step-IsStuck e bad (first_run_ok s c o) (l, t, inl (c', _)) = cc
  Step-IsStuck e bad (first_run_ok s c o) (l, t, inr (inl (_, db))) =
      let same : (run_partition mcr s.database).1 ≡ (run_partition mcr d).1 =
        ap (λ y. (run_partition mcr y).1) db in
      cc
  Step-IsStuck e bad (first_run_ok s c o) (l, t, inr (inr (c', _))) = cc
  Step-IsStuck e bad (first_run_err s x c o) (l, t, inl (c', _)) = cc
  Step-IsStuck e bad (first_run_err s x c o) (l, t, inr (inl (_, db))) =
      let same : (run_partition mcr s.database).1 ≡ (run_partition mcr d).1 =
        ap (λ y. (run_partition mcr y).1) db in
      let same_error : x ≡ e = cc in
      (l, t, inr (inr (ap sending_first same_error, ap (λ y. (run_partition mcr y).0) db)))
  Step-IsStuck e bad (first_run_err s x c o) (l, t, inr (inr (c', _))) = cc
  Step-IsStuck e bad (tick s k p) (l, t, h) = cc
  Step-IsStuck e bad (tick_ok s k o) (l, t, h) = cc
  Step-IsStuck e bad (tick_err s x k o) (l, t, h) = cc
  Step-IsStuck e bad (exchange s from ticker_thread x f r) (l, t, h) = cc r
  Step-IsStuck e bad (exchange s main_thread main_thread x f r) (l, t, h) =
      let sending_one = caller_sends s.caller x f in
      let receiving_one = caller_receives s.caller r in cc
  Step-IsStuck e bad (exchange s ticker_thread main_thread x f r) (l, t, h) =
      let sending_one = ticker_sends s.ticker x f in cc

  Reach-IsStuck :
      {s : Goroutines D} (e : Error)
      → (run_partition mcr d).1 ≡ err e
      → Reach mcr (start d) s
      → IsStuck e s
  Reach-IsStuck e bad here = (refl, refl, inl (refl, refl))
  Reach-IsStuck e bad (next r step) = Step-IsStuck e bad step (Reach-IsStuck e bad r)

  no-Step_from_send :
      (s t : Goroutines D) (e : Error)
      → s.ticker ≡ not_started
      → s.caller ≡ sending_first e
      → ¬ Step mcr s t
  no-Step_from_send s t e k c (wake _ c') = cc
  no-Step_from_send s t e k c (first_run_ok _ c' o) = cc
  no-Step_from_send s t e k c (first_run_err _ x c' o) = cc
  no-Step_from_send s t e k c (tick _ k' p) = cc
  no-Step_from_send s t e k c (tick_ok _ k' o) = cc
  no-Step_from_send s t e k c (tick_err _ x k' o) = cc
  -- The caller sends, so that it does not receive, and the other goroutine never does.
  no-Step_from_send s t e k c (exchange _ from main_thread x f r) =
      let receiving_one = caller_receives s.caller r in cc
  no-Step_from_send s t e k c (exchange _ from ticker_thread x f r) = cc r

  -- If the first run returns an error, then in every state that the goroutines reach its error is not
  -- logged, the second goroutine is not started, and the database is as at the start or as the first
  -- run left it; and the goroutines go on exactly until the caller is at the send of the error, where
  -- there is no step.
  pub first_error_blocks :
      (s : Goroutines D) (e : Error)
      → (run_partition mcr d).1 ≡ err e
      → Reach mcr (start d) s
      → (s.logged ≡ [])
        × (s.ticker ≡ not_started)
        × ((s.database ≡ d) ⊎ (s.database ≡ (run_partition mcr d).0))
        × ((s.caller ≡ sending_first e) ↔ ((t : Goroutines D) → ¬ Step mcr s t))
  first_error_blocks s e bad r =
      let (l, t, h) = Reach-IsStuck e bad r in
      (l, t, unchanged h, ((λ c u. no-Step_from_send s u e t c), sent h))
    where
      unchanged : IsBefore e s → (s.database ≡ d) ⊎ (s.database ≡ (run_partition mcr d).0)
      unchanged (inl (_, db)) = inl db
      unchanged (inr (inl (_, db))) = inl db
      unchanged (inr (inr (_, db))) = inr db

      sent : IsBefore e s → ((t : Goroutines D) → ¬ Step mcr s t) → s.caller ≡ sending_first e
      sent (inl (c, _)) stops = absurd (stops _ (wake s c))
      sent (inr (inl (c, db))) stops =
          absurd (stops _ (first_run_err s e c (ap (λ y. (run_partition mcr y).1) db ∙ bad)))
      sent (inr (inr (c, _))) stops = c
