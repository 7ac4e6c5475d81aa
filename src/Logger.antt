-- ===== src/Logger.antt =====
-- logger/logger.hpp and logger/logger.cpp: messages go through a queue to the thread that writes
-- them. The steps of the writing thread are a relation; opening the file is not modelled.
pub mod Messages
use distributed_disk.Common.{
  ℕ, ◌≡◌, String, Bool, true, false, List, [], ◌∷◌, ◌++◌, if◌then◌else◌, leb,
}
use distributed_disk.Common.Exec.{Outcome, ok, fault, and_then, dangling_pointer}
use distributed_disk.Config.{ConfigMap, get_config}
use distributed_disk.Queue.{fifo, push}

-- Logger::MessageLevel
pub data MessageLevel : Type 0 where
  none_level error_level warning_level information_level debug_level : MessageLevel

abbrev pub level_number : MessageLevel → ℕ
level_number none_level = 0
level_number error_level = 1
level_number warning_level = 2
level_number information_level = 3
level_number debug_level = 4

-- Where ThreadLogger is: at the test of its loop, at Pop, or done.
pub data Place : Type 0 where
  testing popping returned : Place

pub record Logger : Type 0 where
  pub message_q : List String
  pub current_level : MessageLevel
  pub stop_flag : Bool
  -- the lines of the log file
  pub log_fd : List String
  pub holder : String
  pub place : Place

-- Logger::Logger
unfoldable pub make_logger : Logger
make_logger = record {
  message_q = [];
  current_level = debug_level;
  stop_flag = false;
  log_fd = [];
  holder = "";
  place = testing;
}

-- Logger::GetLoggerPath: the text that `log_path` points into has died with the temporary that
-- GetConfig returned. It is not NULL, so that the path in the working directory is never taken.
unfoldable pub get_logger_path : ConfigMap → Outcome String
get_logger_path config = and_then (get_config "LOG_PATH" config) λ value. fault dangling_pointer

-- Logger::GetLevel
unfoldable pub get_level : Logger → MessageLevel
get_level l = l.current_level

-- Logger::SetLevel
unfoldable pub set_level : MessageLevel → Logger → Logger
set_level level l = record l { current_level = level }

-- Logger::Log
unfoldable pub log : MessageLevel → String → Logger → Logger
unfolding push
log level message l =
    if leb (level_number level) (level_number l.current_level)
    then record l { message_q = push fifo message l.message_q }
    else l

-- Logger::~Logger before the join: the store of the flag, then the Push
unfoldable pub request_stop : Logger → Logger
request_stop l = record l { stop_flag = true }

unfoldable pub push_stop : Logger → Logger
unfolding push
push_stop l = record l { message_q = push fifo "stop" l.message_q }

-- A step of ThreadLogger, a call of Log by another thread, or the Push of the destructor
pub data Step : Logger → Logger → Type 0 where
  write_holder :
      (l : Logger)
      → l.place ≡ testing
      → l.stop_flag ≡ false
      → Step l (record l { log_fd = l.log_fd ++ l.holder ∷ []; place = popping })
  leave :
      (l : Logger) → l.place ≡ testing → l.stop_flag ≡ true → Step l (record l { place = returned })
  take_message :
      (l : Logger) (message : String) (rest : List String)
      → l.place ≡ popping
      → l.message_q ≡ message ∷ rest
      → Step l (record l { message_q = rest; holder = message; place = testing })
  call_log : (l : Logger) (level : MessageLevel) (message : String) → Step l (log level message l)
  stop_message : (l : Logger) → l.stop_flag ≡ true → Step l (push_stop l)

pub data Steps : Logger → Logger → Type 0 where
  done : (l : Logger) → Steps l l
  step : (l m n : Logger) → Step l m → Steps m n → Steps l n
