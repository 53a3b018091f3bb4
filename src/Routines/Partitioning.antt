-- ===== src/Routines/Partitioning.antt =====
-- routines/metric_partitioning.go: Run, with the goroutine of main.go that calls it and then receives from
-- its channel. The channel is unbuffered: a send goes on only together with a receive of the other
-- goroutine. time.Tick gives a channel that ticks only for a positive interval, else nil, on which a
-- receive waits for ever.
pub mod Progress
use kava_proxy_service.Base.{
  List, [], ◌∷◌, ◌++◌, Option, none, some, Bool, true, false, Error, Result, ok, err, pos, lt_ℤ,
  ◌≡◌,
}
use kava_proxy_service.Routines.Ticks.{MetricPartitioningRoutine}

-- The goroutine that calls Run: in time.Sleep, before the first run, at the send of its error, or, when
-- Run has returned, in the loop that receives.
pub data Caller : Type 0 where
  sleeping first_run : Caller
  sending_first : Error → Caller
  receiving : Caller

-- The goroutine that Run starts: at the timer, before a run, or at the send of its error.
pub data Ticker : Type 0 where
  not_started at_timer ticked : Ticker
  sending : Error → Ticker

-- The errors are those that main has logged, in order.
pub record Goroutines (D : Type 0) : Type 0 where
  pub caller : Caller
  pub ticker : Ticker
  pub database : D
  pub logged : List Error

abbrev pub start : {D : Type 0} → D → Goroutines D
start d = record { caller = sleeping; ticker = not_started; database = d; logged = [] }

-- The two goroutines that have the channel of errors.
pub data Thread : Type 0 where
  main_thread ticker_thread : Thread

abbrev pub sent_by_caller : Caller → Option Error
sent_by_caller sleeping = none
sent_by_caller first_run = none
sent_by_caller (sending_first e) = some e
sent_by_caller receiving = none

abbrev pub sent_by_ticker : Ticker → Option Error
sent_by_ticker not_started = none
sent_by_ticker at_timer = none
sent_by_ticker ticked = none
sent_by_ticker (sending e) = some e

abbrev pub is_receiving : Caller → Bool
is_receiving sleeping = false
is_receiving first_run = false
is_receiving (sending_first e) = false
is_receiving receiving = true

module _ {D : Type 0} where
  -- The error that a goroutine is sending.
  abbrev pub sends : Thread → Goroutines D → Option Error
  sends main_thread s = sent_by_caller s.caller
  sends ticker_thread s = sent_by_ticker s.ticker

  -- Whether a goroutine is at a receive of the channel, which the second goroutine never is.
  abbrev pub receives : Thread → Goroutines D → Bool
  receives main_thread s = is_receiving s.caller
  receives ticker_thread s = false

  -- What a goroutine does when its send is over: Run starts the second goroutine and returns, and the
  -- second goroutine goes back to the timer.
  abbrev pub after_send : Thread → Goroutines D → Goroutines D
  after_send main_thread s = record s { caller = receiving; ticker = at_timer }
  after_send ticker_thread s = record s { ticker = at_timer }

  -- What a goroutine does with an error that it has received: main logs it and receives again.
  abbrev pub after_receive : Thread → Error → Goroutines D → Goroutines D
  after_receive main_thread e s = record s { logged = s.logged ++ (e ∷ []) }
  after_receive ticker_thread e s = s

module _ {D : Type 0} (mcr : MetricPartitioningRoutine D) where
  abbrev pub run_partition : D → D × Result (Unit {0})
  run_partition d = mcr.db.partition mcr.prefill_period_days d

  pub data Step : Goroutines D → Goroutines D → Type 0 where
    -- time.Sleep returns.
    wake : (s : Goroutines D) → s.caller ≡ sleeping → Step s (record s { caller = first_run })
    -- The first run returns no error: the second goroutine is started, and Run returns.
    first_run_ok :
        (s : Goroutines D)
        → s.caller ≡ first_run
        → (run_partition s.database).1 ≡ ok tt
        → Step s (record s {
          caller = receiving;
          ticker = at_timer;
          database = (run_partition s.database).0;
        })
    first_run_err :
        (s : Goroutines D) (e : Error)
        → s.caller ≡ first_run
        → (run_partition s.database).1 ≡ err e
        → Step s (record s { caller = sending_first e; database = (run_partition s.database).0 })
    tick :
        (s : Goroutines D)
        → s.ticker ≡ at_timer
        → lt_ℤ (pos 0) mcr.interval ≡ true
        → Step s (record s { ticker = ticked })
    tick_ok :
        (s : Goroutines D)
        → s.ticker ≡ ticked
        → (run_partition s.database).1 ≡ ok tt
        → Step s (record s { ticker = at_timer; database = (run_partition s.database).0 })
    tick_err :
        (s : Goroutines D) (e : Error)
        → s.ticker ≡ ticked
        → (run_partition s.database).1 ≡ err e
        → Step s (record s { ticker = sending e; database = (run_partition s.database).0 })
    -- A goroutine that sends meets one that receives.
    exchange :
        (s : Goroutines D) (from to : Thread) (e : Error)
        → sends from s ≡ some e
        → receives to s ≡ true
        → Step s (after_receive to e (after_send from s))

  pub data Reach (s : Goroutines D) : Goroutines D → Type 0 where
    here : Reach s s
    next : {t u : Goroutines D} → Reach s t → Step t u → Reach s u
