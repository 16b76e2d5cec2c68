-- ===== src/Clients/Script.antt =====
-- tools/server_diff.py: `Ctx`, the clients of a scenario, at this repository's server. What a client
-- sends reaches the server at once and in one piece, as `sync` waits for.
pub mod Scenarios
pub mod VersionOne
pub mod Choice
pub mod Served
use fujinet_intv_golf.Base.{
  ℕ, zero, suc, ◌+◌, Bool, true, false, not, ◌&&◌, List, [], ◌∷◌, ◌++◌, map, Option, none, some,
  ◌==◌, if◌then◌else◌, same, length, drop, ltb,
}
use fujinet_intv_golf.Base.Texts.{codes}
use fujinet_intv_golf.Wire.{Bytes, Text, t_hello}
use fujinet_intv_golf.Relay.Outcome.{value_error}
use fujinet_intv_golf.Relay.World.{World, Os, M, pure, raise, gets, skip, ◌>>=◌, ◌>>◌}
use fujinet_intv_golf.Relay.Service.{connection, ready, received, step}
use fujinet_intv_golf.Clients.Diff.{Line, diff_frame, record_client}

-- What a scenario calls: the methods of `Ctx` and `Client`, with the label for the client. A frame
-- that cannot be built is none.
pub data Command : Type 0 where
  connects : Text → Command
  sends : Text → Option Bytes → Command
  closes : Text → Command
  syncs : Text → Command

-- `Ctx.hello`, with `PROTO` for a version that is not given.
unfoldable pub hello_as : Text → ℕ → List Command
unfolding diff_frame
hello_as label ver =
    connects label
    ∷ sends label (diff_frame t_hello (ver ∷ label))
    ∷ syncs (codes "hello " ++ label)
    ∷ []

-- `Client`: its number at the server, if it was accepted, whether its socket is open, and how much
-- it has read.
pub record Peer : Type 0 where
  pub label : Text
  pub number : Option ℕ
  pub is_open : Bool
  pub seen : ℕ

-- A line of the transcript for each client, with the step and its text.
pub record Recorded : Type 0 where
  pub step_number : ℕ
  pub what : Text
  pub who : Text
  pub lines : Option (List Line)

-- The server gets the bytes of a client, none at the end of the stream.
unfoldable pub deliver : Os → Option ℕ → Bytes → M (Unit {0})
deliver os none bytes = skip
deliver os (some c) bytes = step os (ready c false (some (received bytes)))

-- `Client.send` for the client of a label.
unfoldable pub send_as : Os → Text → Bytes → List Peer → M (Unit {0})
unfolding deliver
send_as os label bytes [] = skip
send_as os label bytes (p ∷ ps) =
    if same p.label label
    then if p.is_open then deliver os p.number bytes else skip
    else send_as os label bytes ps

-- `Client.close`
unfoldable pub close_as : Text → List Peer → List Peer
close_as label [] = []
close_as label (p ∷ ps) =
    if same p.label label then record p { is_open = false } ∷ ps else p ∷ close_as label ps

-- What has arrived at a client since it last read, and whether the stream has ended.
unfoldable pub arrived : Peer → World → Bytes
arrived p w = elim p.number [ none ↦ [] | some c ↦ drop p.seen (w.wire c) ]

unfoldable pub at_end : Peer → World → Bool
at_end p w = elim p.number [ none ↦ true | some c ↦ w.dead c ]

-- `Ctx.sync` for one client.
unfoldable pub drain_peer : Peer → World → Peer
unfolding arrived at_end
drain_peer p w =
    if p.is_open
    then record p { is_open = not (at_end p w); seen = p.seen + length (arrived p w) }
    else p

unfoldable pub sync_entry : ℕ → ℕ → Text → Peer → World → Recorded
unfolding arrived at_end record_client
sync_entry proto n what p w = record {
  step_number = n;
  what = what;
  who = p.label;
  lines = if p.is_open then record_client proto (arrived p w) (at_end p w) else some [];
}

-- A new client: it was accepted if the server has one more.
abbrev pub new_peer : Text → ℕ → ℕ → Peer
new_peer label before after = record {
  label = label;
  number = if before == after then none else some before;
  is_open = true;
  seen = 0;
}

-- A script, from the step that is next.
module _ (os : Os) (proto : ℕ) where
  unfoldable pub play : List Command → List Peer → ℕ → M (List Recorded)
  unfolding send_as close_as drain_peer sync_entry
  play [] ps n = pure []
  play (connects label ∷ acts) ps n = do
    before ← gets (λ w. w.next_client)
    step os (connection 1 0)
    after ← gets (λ w. w.next_client)
    play acts (ps ++ new_peer label before after ∷ []) n
  play (sends label none ∷ acts) ps n = raise value_error
  play (sends label (some bytes) ∷ acts) ps n = do send_as os label bytes ps; play acts ps n
  play (closes label ∷ acts) ps n = do send_as os label [] ps; play acts (close_as label ps) n
  play (syncs what ∷ acts) ps n = do
    now ← gets (λ w. map (λ p. sync_entry proto (suc n) what p w) ps)
    read ← gets (λ w. map (λ p. drain_peer p w) ps)
    rest ← play acts read (suc n)
    pure (now ++ rest)
