-- ===== src/Runtime/Shutdown.antt =====
-- runtime/ShutdownSignal.hpp and .cpp. The handler runs between any two steps of the program; its
-- effect is the value of the global `g_pending_shutdown_signal`, here `Pending`.
use easy_failover.Base.{Text, codes, Bool, true, false, if◌then◌else◌}

pub data ShutdownSignal : Type 0 where
  no_signal interrupt terminate unknown : ShutdownSignal

pub record ShutdownSignalState : Type 0 where
  pub shutdown_requested : Bool
  pub signal : ShutdownSignal

-- The values of the sig_atomic_t: kNoSignal, kInterruptSignal, kTerminateSignal, kUnknownSignal.
pub data Pending : Type 0 where
  none_pending interrupt_pending terminate_pending unknown_pending : Pending

-- The signals that the handler tells apart.
pub data Signal : Type 0 where
  sigint sigterm other_signal : Signal

pub handle_shutdown_signal : Signal → Pending
handle_shutdown_signal sigint = interrupt_pending
handle_shutdown_signal sigterm = terminate_pending
handle_shutdown_signal other_signal = unknown_pending

pub signal_from_pending_value : Pending → ShutdownSignal
signal_from_pending_value interrupt_pending = interrupt
signal_from_pending_value terminate_pending = terminate
signal_from_pending_value none_pending = no_signal
signal_from_pending_value unknown_pending = unknown

abbrev pub initial_shutdown_state : ShutdownSignalState
initial_shutdown_state = record { shutdown_requested = false; signal = no_signal }

pub request_shutdown : ShutdownSignal → ShutdownSignalState → ShutdownSignalState
request_shutdown signal state = record { shutdown_requested = true; signal = signal }

pub reason : ShutdownSignalState → Text
reason state =
    if state.shutdown_requested
    then (elim state.signal [
      | interrupt ↦ codes "shutdown requested by interrupt signal"
      | terminate ↦ codes "shutdown requested by terminate signal"
      | no_signal ↦ codes "shutdown requested"
      | unknown ↦ codes "shutdown requested"
    ])
    else codes "shutdown not requested"

pub poll_shutdown_signals : Pending → ShutdownSignalState → ShutdownSignalState
unfolding signal_from_pending_value request_shutdown
poll_shutdown_signals pending state = elim (signal_from_pending_value pending) [
  | no_signal ↦ state
  | interrupt ↦ request_shutdown interrupt state
  | terminate ↦ request_shutdown terminate state
  | unknown ↦ request_shutdown unknown state
]

-- A ShutdownSignalState* that the runtime is given: `poll` is pollShutdownSignals on it, and `read`
-- is what it holds, which other threads and the signal handler may change between two calls.
pub record ShutdownHandle (W : Type 0) : Type 0 where
  pub poll : W → W
  pub read : W → ShutdownSignalState
