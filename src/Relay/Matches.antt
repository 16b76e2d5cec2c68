-- ===== src/Relay/Matches.antt =====
-- A match under way, while the network keeps up: what one relayed frame leaves.
use fujinet_intv_golf.Base.{
  arith, ==-eq, ==-self, if◌then◌else◌, ◌++◌, ℕ, ◌≤◌, ◌<◌, ◌≡◌, sym, ap, ◌∙◌, subst, Bool, true,
  not, ◌&&◌, List, some, ◌==◌, length, contains,
}
use fujinet_intv_golf.Wire.{Bytes, is_relay_type}
use fujinet_intv_golf.Relay.Outcome.{Ends, Ends-weaken}
use fujinet_intv_golf.Relay.World.{World, Os}
use fujinet_intv_golf.Relay.Handlers.{on_relay, handle}
use fujinet_intv_golf.Relay.Handles.Notes.{noted}
use fujinet_intv_golf.Relay.Frames.{framed}
use fujinet_intv_golf.Relay.Invariant.{Inv}
use fujinet_intv_golf.Relay.Delivery.{KeepsUp, Told}
use fujinet_intv_golf.Relay.Telling.{AllReady}
use fujinet_intv_golf.Relay.Announce.{Told-Inv}
use fujinet_intv_golf.Relay.Fanout.{noted_by, noted_by-Notes, noted-Inv, on_relay-Told}

-- A match: a started room, with none of its members dead or behind.
pub record Playing (r : ℕ) (ms : List ℕ) (w : World) : Type 0 where
  pub inv : Inv w
  pub going : w.started r ≡ true
  pub seats : w.members r ≡ ms
  pub rooms : (c : ℕ) → contains ms c ≡ true → w.room c ≡ some r
  pub ready : AllReady w ms

-- A relayed frame leaves the match as it is.
Told-Playing :
    (r ftype : ℕ) (payload : Bytes) (ms : List ℕ) (w x : World) (who : ℕ → Bool) (said : ℕ → Bytes)
    → Playing r ms w
    → Told (noted_by r ftype payload w) x who said
    → Playing r ms x
Told-Playing r ftype payload ms w x who said h q =
    let n = noted_by-Notes r ftype payload w h.inv.crc in
    let k : Told (noted w n.table n.rounds n.lines) x who said =
      subst (λ u. Told u x who said) n.only q in
    record {
      inv =
          Told-Inv (noted w n.table n.rounds n.lines) x who said k
            (noted-Inv w n.table n.rounds n.lines h.inv n.bounded);
      going = ap (λ (y : World). y.started r) k.same ∙ h.going;
      seats = ap (λ (y : World). y.members r) k.same ∙ h.seats;
      rooms = λ c e. ap (λ (y : World). y.room c) k.same ∙ h.rooms c e;
      ready = λ m e.
          (ap (λ (y : World). y.dead m) k.same ∙ (h.ready m e).0, k.queues m ∙ (h.ready m e).1);
    }

-- What follows a frame from one of the players.
pub record Relayed (r : ℕ) (ms : List ℕ) (c ftype : ℕ) (payload : Bytes) (w v : World)
    : Type 0 where
  pub still : Playing r ms v
  pub told :
      Told
        (noted_by r ftype payload w)
        v
        (λ x. contains ms x && not (x == c))
        (λ _. framed ftype payload)

pub handle-Relayed :
    (os : Os) (up : KeepsUp os) (r : ℕ) (ms : List ℕ) (c ftype : ℕ) (payload : Bytes) (w : World)
    → Playing r ms w
    → contains ms c ≡ true
    → is_relay_type ftype ≡ true
    → ftype < 256
    → length payload ≤ 254
    → Ends (handle os c ftype payload w) (λ _ v. Relayed r ms c ftype payload w v) (λ _ _. ⊥)
unfolding handle
handle-Relayed os up r ms c ftype payload w h mine relays t l = rw relays (
    Ends-weaken (on_relay os c ftype payload w) _ _ (λ _ _. ⊥) _
      (on_relay-Told os up c r ftype payload w h.inv (h.rooms c mine) h.going
        (subst (AllReady w) (sym h.seats) h.ready) t l)
      (λ _ x q.
        let k =
          subst
            (λ l.
              Told (noted_by r ftype payload w) x (λ y. contains l y && not (y == c))
                (λ _. framed ftype payload))
            h.seats q in
        record { still = Told-Playing r ftype payload ms w x _ _ h k; told = k })
      (λ _ _ q. q))

-- Each of the others has got the frame, right after what it had got before; the sender has not.
pub Relayed-wire :
    (r : ℕ) (ms : List ℕ) (c ftype : ℕ) (payload : Bytes) (w x : World) (m : ℕ)
    → Playing r ms w
    → Relayed r ms c ftype payload w x
    → contains ms m ≡ true
    → x.wire m ≡ (if c == m then w.wire m else w.wire m ++ framed ftype payload)
Relayed-wire r ms c ftype payload w x m h k mine =
    let n = noted_by-Notes r ftype payload w h.inv.crc in
    let same : (noted_by r ftype payload w).wire m ≡ w.wire m =
      ap (λ (u : World). u.wire m) n.only in
    ground (arith, k.told.wires m, same, mine, ==-eq m c, ==-eq c m, ==-self m)
