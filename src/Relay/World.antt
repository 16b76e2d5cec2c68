-- ===== src/Relay/World.antt =====
-- The state of the server: `Server`, its `Client` and `Room` objects, and what the operating system
-- has seen of them. Objects are numbers, and each attribute is a table over them (`c.name` is
-- `w.name c`), so aliases of an object share its attributes, as in Python.
use fujinet_intv_golf.Base.{ℕ, Bool, List, Option, none, some, if◌then◌else◌}
use fujinet_intv_golf.Wire.{Bytes, Text}
use fujinet_intv_golf.Relay.Outcome.{Exn, Outcome, returned, raised, out_of_fuel, and_then}

-- What `sock.send` does: it takes a number of bytes, or raises BlockingIOError or OSError.
pub data SendResult : Type 0 where
  sent : ℕ → SendResult
  would_block send_error : SendResult

-- The operating system and the random generator, both outside the repository: the answer to the
-- n-th `sock.send` (on a socket, of some bytes), and the n-th `random.randrange(1, 0x10000)`.
pub record Os : Type 0 where
  pub send_result : ℕ → ℕ → Bytes → SendResult
  pub randrange : ℕ → ℕ

-- `LobbyPublisher`, as far as `Server.lobby_update` touches it.
pub record Publisher : Type 0 where
  pub curplayers : ℕ
  pub dirty : Bool
  pub stopping : Bool

-- What `log_crc` writes to the log.
pub data LogLine : Type 0 where
  crc_mismatch : ℕ → List (ℕ × ℕ) → LogLine
  crc_ok_through : ℕ → ℕ → LogLine

pub record World : Type 0 where
  -- `Server`
  pub delay : ℕ
  pub auto_go : ℕ
  pub by_name : List (Text × ℕ)
  pub lobby : Option Publisher
  pub clients : List ℕ
  pub tx_backlog_drops : ℕ
  pub hello_timeouts : ℕ
  pub connection_limit_rejections : ℕ
  -- `Client`
  pub ip : ℕ → ℕ
  pub rx : ℕ → Bytes
  pub tx : ℕ → Bytes
  pub name : ℕ → Option Text
  pub room : ℕ → Option ℕ
  pub connected_at : ℕ → ℕ
  pub dead : ℕ → Bool
  -- `Room`
  pub members : ℕ → List ℕ
  pub started : ℕ → Bool
  pub seed : ℕ → ℕ
  pub crc : ℕ → List (ℕ × List (ℕ × ℕ))
  pub crc_ok : ℕ → ℕ
  -- the next unused object of each class
  pub next_client : ℕ
  pub next_room : ℕ
  -- the selector: is the socket registered, and for EVENT_WRITE too
  pub registered : ℕ → Bool
  pub want_write : ℕ → Bool
  -- the bytes that the system has taken from each socket, and the calls made so far
  pub wire : ℕ → Bytes
  pub sends : ℕ
  pub rolls : ℕ
  pub journal : List LogLine

abbrev pub M : Type 0 → Type 0
M A = World → Outcome World A

abbrev pub pure : {A : Type 0} → A → M A
pure a w = returned a w

abbrev pub raise : {A : Type 0} → Exn → M A
raise e w = raised e w

abbrev pub gets : {A : Type 0} → (World → A) → M A
gets f w = returned (f w) w

abbrev pub modify : (World → World) → M (Unit {0})
modify f w = returned tt (f w)

abbrev pub no_fuel : {A : Type 0} → M A
no_fuel w = out_of_fuel

infixl 5 ◌>>=◌ ◌>>◌
abbrev pub ◌>>=◌ : {A B : Type 0} → M A → (A → M B) → M B
◌>>=◌ m f w = and_then (m w) f

abbrev pub ◌>>◌ : {B : Type 0} → M (Unit {0}) → M B → M B
m >> k = m >>= λ _. k

abbrev pub skip : M (Unit {0})
skip = pure tt

abbrev pub guard : Bool → Exn → M (Unit {0})
guard b e = if b then skip else raise e

-- `o` as an object: using None raises AttributeError.
abbrev pub or_raise : {A : Type 0} → Option A → Exn → M A
or_raise none e = raise e
or_raise (some a) e = pure a
