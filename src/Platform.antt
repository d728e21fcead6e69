-- ===== src/Platform.antt =====
-- What the program takes from outside: the JSON and URL libraries, the clock's time points and
-- their printed dates, and the sockets of boost::asio.
use feedback_ingest.Base.{Bytes, Option}
use feedback_ingest.Base.Int.{ℤ}
use feedback_ingest.Json.{JsonLibrary}

-- `boost::urls::url_view`, as far as the program reads it
pub record Url : Type 0 where
  pub scheme : Bytes
  pub encoded_host : Bytes
  pub port : Option Bytes
  pub encoded_target : Bytes

pub record Platform : Type 1 where
  pub json : JsonLibrary
  -- `boost::urls::parse_uri`
  pub parse_uri : Bytes → Option Url
  -- `BOOST_BEAST_VERSION_STRING`
  pub beast_version : Bytes
  -- `std::chrono::system_clock::time_point`
  pub Time : Type 0
  -- fmt's `{:%Y-%m-%d}`
  pub date : Time → Bytes
  -- `time_since_epoch().count()`
  pub count : Time → ℤ
  -- `std::chrono::sys_days{2023y / 1 / 1}`
  pub year_2023 : Time
  -- what `async_resolve` finds, and a connected or accepted socket
  pub Endpoints : Type 0
  pub Socket : Type 0
