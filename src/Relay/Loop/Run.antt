-- ===== src/Relay/Loop/Run.antt =====
-- One round of `run`, and any sequence of rounds.
use fujinet_intv_golf.Base.{
  ℕ, suc, ◌<◌, refl, Bool, not, ◌&&◌, List, [], ◌∷◌, Option, none, some, arith, All, length,
  Bool-cases, inl, inr,
}
use fujinet_intv_golf.Base.Assoc.{lookup}
use fujinet_intv_golf.Relay.Outcome.{Outcome, returned, raised, out_of_fuel}
use fujinet_intv_golf.Relay.World.{World, Os, Publisher, M, skip}
use fujinet_intv_golf.Relay.Output.{flush, drop_client}
use fujinet_intv_golf.Relay.Service.{
  Event, connection, accept_failed, ready, second_passed, RecvResult, is_late, sweep_client, sweep,
  read_if, on_ready, step, run, new_server, rescue, count_ip,
}
use fujinet_intv_golf.Relay.Invariant.{Inv, LobbyOk}
use fujinet_intv_golf.Relay.Settles.{
  Settles, Settles-returned, Settles-from, for_each-Settles, if-Settles,
}
use fujinet_intv_golf.Relay.Settles.Steps.{output-Inv, output-Evolves}
use fujinet_intv_golf.Relay.Settles.Send.{flush-Settles}
use fujinet_intv_golf.Relay.Settles.Drop.{drop_client-Settles, drop_client-Calm}
use fujinet_intv_golf.Relay.Handles.{SeedsOk}
use fujinet_intv_golf.Relay.Loop.{Runs, Runs-of-Settles, Runs-and_then}
use fujinet_intv_golf.Relay.Loop.Accept.{accept-Runs}
use fujinet_intv_golf.Relay.Loop.Serve.{service-Runs}

-- Every event but a failing `accept`.
abbrev pub IsServed : Event → Type 0
IsServed accept_failed = ⊥
IsServed _ = Unit

-- A new server satisfies `Inv`, if the lobby publisher that it is given announces no player yet or
-- is stopping, or there is none.
pub new_server-Inv :
    (delay auto_go : ℕ) (lobby : Option Publisher)
    → LobbyOk lobby []
    → Inv (new_server delay auto_go lobby)
unfolding count_ip lookup
new_server-Inv delay auto_go lobby h = record {
  rooms = record {
    joined = λ c r e. cc;
    loyal = λ c d r e. absurd (cc);
    distinct = λ r. tt;
    seats = λ r. omega arith;
    named = λ c r e. e;
    unused = λ r h. refl;
  };
  names = record { ascii = λ c n e. absurd (cc); owner = λ n c e. absurd (cc); unique = tt };
  clients = record {
    active = λ c. refl;
    once = tt;
    capacity = omega arith;
    per_ip = λ a. omega arith;
  };
  unused = record { no_life = λ c h. refl; no_room = λ c h. refl; no_name = λ c h. refl };
  backlog = λ c. omega arith;
  crc = λ r. omega arith;
  lobby = h;
}

module _ (os : Os) where
  sweep_client-Settles : (now c : ℕ) (w : World) → Inv w → Settles w (sweep_client os now c w)
  unfolding sweep_client
  sweep_client-Settles now c w v = elim (Bool-cases (is_late now c w)) [
    | inl e ↦ rw e (
        Settles-from w _ _ (output-Evolves w w.tx w.want_write w.wire w.sends w.tx_backlog_drops _)
          (drop_client-Settles os c _
            (output-Inv w w.tx w.want_write w.wire w.sends w.tx_backlog_drops _ v v.backlog)))
    | inr e ↦ rw e (Settles-returned tt w v)
  ]

  sweep-Settles : (now : ℕ) (w : World) → Inv w → Settles w (sweep os now w)
  unfolding sweep
  sweep-Settles now w v =
      for_each-Settles (suc (length w.clients)) (sweep_client os now) w.clients w
        (λ c u vu _. sweep_client-Settles now c u vu) v (omega arith)

  module _ (seeds : SeedsOk os) where
    read-Runs :
        (c : ℕ) (readable : Option RecvResult) (w : World)
        → w.delay < 256
        → Inv w
        → Runs w (read_if os c readable w)
    unfolding read_if
    read-Runs c none w d v = (v, refl)
    read-Runs c (some result) w d v = elim (Bool-cases (w.dead c)) [
      | inl e ↦ rw e (v, refl)
      | inr e ↦ rw e (service-Runs os seeds c result w d v (ground (arith, v.unused.no_life c)))
    ]

    on_ready-Runs :
        (c : ℕ) (writable : Bool) (readable : Option RecvResult) (w : World)
        → w.delay < 256
        → Inv w
        → Runs w (on_ready os c writable readable w)
    unfolding on_ready
    on_ready-Runs c writable readable w d v =
        Runs-and_then w _ _
          (Runs-of-Settles w _ (
            if-Settles (writable && not (w.dead c)) w (flush os (drop_client os) c) skip
              (λ _.
                flush-Settles os (suc (length w.clients)) (drop_client os)
                  (drop_client-Calm os (suc (length w.clients))) c w v (omega arith))
              (λ _. Settles-returned tt w v)))
          λ _ u vu e. read-Runs c readable u (omega (arith, e)) vu

    -- `except Exception` around one client's events: it is never reached.
    rescue-Runs :
        (w : World) (o : Outcome World (Unit {0})) (handler : M (Unit {0}))
        → Runs w o
        → Runs w (rescue (λ _. o) handler w)
    rescue-Runs w (returned _ u) handler h = h
    rescue-Runs w (raised e u) handler h = absurd h
    rescue-Runs w out_of_fuel handler h = h

    pub step-Runs :
        (e : Event) (w : World) → IsServed e → w.delay < 256 → Inv w → Runs w (step os e w)
    unfolding step
    step-Runs (connection addr now) w s d v = accept-Runs addr now w v
    step-Runs accept_failed w s d v = absurd s
    step-Runs (ready c writable readable) w s d v =
        rescue-Runs w (on_ready os c writable readable w) (drop_client os c)
          (on_ready-Runs c writable readable w d v)
    step-Runs (second_passed now) w s d v = Runs-of-Settles w _ (sweep-Settles now w v)

    -- The event loop, from any state that satisfies `Inv` and with a start delay below 256, when
    -- the generator yields 16-bit seeds: whatever sequence of connections, readable and writable
    -- sockets and sweeps it meets (all but a failing `accept`), and whatever the sockets answer,
    -- `run` serves it to its end, raises nothing, and keeps `Inv` and the delay.
    pub run-Runs :
        (es : List Event) (w : World)
        → All IsServed es
        → w.delay < 256
        → Inv w
        → Runs w (run os es w)
    unfolding run
    run-Runs [] w s d v = (v, refl)
    run-Runs (e ∷ es) w s d v =
        Runs-and_then w (step os e w) _ (step-Runs e w s.0 d v)
          λ _ u vu h. run-Runs es u s.1 (omega (arith, h)) vu
