-- ===== src/Clients/Gate.antt =====
-- tools/bbnet_client_sim.py: `Cli` and the helpers of the scenarios, at this repository's server.
-- What a console sends reaches the server at once and in one piece, and what the server has sent is
-- the next chunk that `recv` yields.
pub mod Scenarios
pub mod Main
pub mod Match
use fujinet_intv_golf.Base.{
  ℕ, zero, suc, ◌-◌, Bool, true, false, List, [], ◌∷◌, ◌++◌, Option, none, some, ◌==◌,
  if◌then◌else◌, length, drop, is_empty, get_elem?,
}
use fujinet_intv_golf.Wire.{Bytes, Text, t_list, t_lobby}
use fujinet_intv_golf.Relay.Outcome.{Outcome, returned, raised, out_of_fuel}
use fujinet_intv_golf.Relay.World.{World, Os}
use fujinet_intv_golf.Relay.Service.{connection, ready, received, new_server, step}
use fujinet_intv_golf.Clients.Sim.{
  Received, got, timed_out, eof_error, index_error, client_frame, expect_type, hello, recv_frame,
  total,
}

-- A `Cli`: its number at the server, if it was accepted, its buffer, and how much has come so far.
pub record Console : Type 0 where
  pub number : Option ℕ
  pub buf : Bytes
  pub seen : ℕ

-- The server and the consoles, in the order of their creation.
pub record Stage : Type 0 where
  pub server : World
  pub consoles : List Console

-- A step of a scenario; none is an exception, AssertionError among them.
abbrev pub G : Type 0 → Type 0
G A = Stage → Option (A × Stage)

abbrev pub give : {A : Type 0} → A → G A
give a s = some (a, s)

abbrev pub then_with : {A B : Type 0} → Option (A × Stage) → (A → G B) → Option (B × Stage)
then_with none f = none
then_with (some (a, s)) f = f a s

infixl 5 ◌>>=◌ ◌>>◌
abbrev pub ◌>>=◌ : {A B : Type 0} → G A → (A → G B) → G B
◌>>=◌ m f s = then_with (m s) f

abbrev pub ◌>>◌ : {B : Type 0} → G (Unit {0}) → G B → G B
m >> k = m >>= λ _. k

abbrev pub asks : {A : Type 0} → (Stage → A) → G A
asks f s = some (f s, s)

abbrev pub change : (Stage → Stage) → G (Unit {0})
change f s = some (tt, f s)

abbrev pub or_fail : {A : Type 0} → Option A → G A
or_fail none s = none
or_fail (some a) s = some (a, s)

-- `assert`
abbrev pub assert_that : Bool → G (Unit {0})
assert_that true s = some (tt, s)
assert_that false s = none

abbrev pub each : {A : Type 0} → (A → G (Unit {0})) → List A → G (Unit {0})
each f [] = give tt
each f (a ∷ rest) = f a >> each f rest

-- The server goes on, and must not fail.
abbrev pub goes_on : Stage → Outcome World (Unit {0}) → Option (Unit {0} × Stage)
goes_on s (returned _ w) = some (tt, record s { server = w })
goes_on s (raised e w) = none
goes_on s out_of_fuel = none

-- The server gets bytes of a console, none at the end of the stream.
unfoldable pub give_bytes : Os → Option ℕ → Bytes → G (Unit {0})
give_bytes os none bytes s = some (tt, s)
give_bytes os (some c) bytes s =
    goes_on s (step os (ready c false (some (received bytes))) s.server)

-- What `recv` yields next.
unfoldable pub chunks_for : Console → World → List Bytes
chunks_for p w = elim p.number [
  | none ↦ [] ∷ []
  | some c ↦
      let new = drop p.seen (w.wire c) in
      let end = if w.dead c then [] ∷ [] else [] in if is_empty new then end else new ∷ end
]

unfoldable pub wire_length : Console → World → ℕ
wire_length p w = elim p.number [ none ↦ 0 | some c ↦ length (w.wire c) ]

-- The console after `recv_frame`. After EOFError it is not read again.
unfoldable pub settle : Console → World → Received → Console
unfolding wire_length total
settle p w (got t body buf chunks) = record p { buf = buf; seen = wire_length p w - total chunks }
settle p w (timed_out buf) = record p { buf = buf; seen = wire_length p w }
settle p w eof_error = p
settle p w index_error = p

unfoldable pub replace : ℕ → Console → List Console → List Console
replace i p [] = []
replace zero p (q ∷ ps) = p ∷ ps
replace (suc i) p (q ∷ ps) = q ∷ replace i p ps

-- `recv_frame`, with what it raises as a value.
unfoldable pub receive : ℕ → G Received
unfolding chunks_for settle replace recv_frame
receive i s = elim (get_elem? s.consoles i) [
  | none ↦ none
  | some p ↦
      let r = recv_frame p.buf (chunks_for p s.server) in
      some (r, record s { consoles = replace i (settle p s.server r) s.consoles })
]

-- `expect`
unfoldable pub expects : ℕ → ℕ → G Bytes
unfolding receive expect_type
expects i ftype = do r ← receive i; or_fail (expect_type ftype r)

abbrev is_timeout : Received → Bool
is_timeout (timed_out buf) = true
is_timeout _ = false

abbrev pub sees : ℕ → ℕ → G (Unit {0})
sees i ftype = expects i ftype >>= λ _. give tt

-- `expect_silence`
unfoldable pub expect_silence : ℕ → G (Unit {0})
unfolding receive
expect_silence i = do r ← receive i; assert_that (is_timeout r)

-- It was accepted if the server has one more client.
abbrev pub new_console : ℕ → ℕ → Console
new_console before now = record {
  number = if before == now then none else some before;
  buf = [];
  seen = 0;
}

module _ (os : Os) where
  -- `Cli.send`
  unfoldable pub tell : ℕ → Option Bytes → G (Unit {0})
  unfolding give_bytes
  tell i bytes = do
    sent ← or_fail bytes
    ps ← asks (λ s. s.consoles)
    p ← or_fail (get_elem? ps i)
    give_bytes os p.number sent

  -- `Cli.close`
  unfoldable pub hang_up : ℕ → G (Unit {0})
  unfolding tell
  hang_up i = tell i (some [])

  -- `Cli(name, ver)`
  unfoldable pub cli : Text → ℕ → G ℕ
  unfolding tell client_frame
  cli name ver = do
    before ← asks (λ s. s.server.next_client)
    λ s. goes_on s (step os (connection 1 0) s.server)
    now ← asks (λ s. s.server.next_client)
    i ← asks (λ s. length s.consoles)
    change (λ s. record s { consoles = s.consoles ++ new_console before now ∷ [] })
    tell i (hello ver name)
    give i

  -- `Cli.lobby`
  unfoldable pub ask_lobby : ℕ → G Bytes
  unfolding tell client_frame expects
  ask_lobby i = do tell i (client_frame t_list []); expects i t_lobby

  -- `start_server`, with the connection that probes it.
  unfoldable pub start_server : ℕ → G (Unit {0})
  unfolding give_bytes
  start_server auto_go = do
    change (λ s. record s { server = new_server 3 auto_go none; consoles = [] })
    λ s. goes_on s (step os (connection 1 0) s.server)
    give_bytes os (some 0) []
