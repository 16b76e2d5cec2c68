-- ===== src/Relay/Fanout.antt =====
-- Relayed frames, while the network keeps up.
use fujinet_intv_golf.Base.{
  ℕ, suc, ◌≤◌, ◌<◌, ◌≡◌, refl, sym, ap, subst, Bool, true, not, ◌&&◌, List, [], ◌∷◌, ◌++◌, false,
  some, arith, ◌==◌, if◌then◌else◌, length, contains, Bool-cases, inl, inr,
}
use fujinet_intv_golf.Wire.{Bytes, t_crc}
use fujinet_intv_golf.Relay.Outcome.{and_then, Ends, Ends-weaken}
use fujinet_intv_golf.Relay.World.{World, Os, LogLine}
use fujinet_intv_golf.Relay.Output.{for_members, frame, drop_client}
use fujinet_intv_golf.Relay.Handlers.{send_other, relay, on_relay}
use fujinet_intv_golf.Relay.Crc.{Entry, crc_seat, crc_tick, crc_value, log_round, log_crc}
use fujinet_intv_golf.Relay.Handles.Notes.{Notes, noted, log_round-Notes}
use fujinet_intv_golf.Relay.Frames.{framed, frame_lem}
use fujinet_intv_golf.Relay.Invariant.{Inv, CrcOk}
use fujinet_intv_golf.Relay.Delivery.{KeepsUp, Told, apart}
use fujinet_intv_golf.Relay.Telling.{AllReady, send-so_far, skip-so_far, Tells, for_members-Told}

-- The whole state of the server but the sockets' buffers and events, what the system has taken from
-- them, and the comparison of checksums: its tables, its counts and its log.
abbrev pub but_crc : World → World
but_crc w = record (apart w) { crc = λ _. []; crc_ok = λ _. 0; journal = [] }

-- Those of `who` have been sent the bytes, no queue has changed, and neither has the rest of the
-- state, but for the comparison of checksums.
pub record Delivered (w w' : World) (who : ℕ → Bool) (bytes : Bytes) : Type 0 where
  pub wires : (m : ℕ) → w'.wire m ≡ (if who m then w.wire m ++ bytes else w.wire m)
  pub queues : (m : ℕ) → w'.tx m ≡ w.tx m
  pub same : but_crc w' ≡ but_crc w

-- The members of room `r` but the sender.
abbrev pub all_others : ℕ → ℕ → World → ℕ → Bool
all_others c r w x = contains (w.members r) x && not (x == c)

-- The state once a report in the frame is noted.
abbrev pub noted_by : ℕ → ℕ → Bytes → World → World
noted_by r ftype payload w =
    if ftype == t_crc && length payload == 5
    then log_round r (crc_seat payload) (crc_tick payload) (crc_value payload) w
    else w

pub noted_by-Notes :
    (r ftype : ℕ) (payload : Bytes) (w : World) → CrcOk w.crc → Notes w (noted_by r ftype payload w)
noted_by-Notes r ftype payload w h = elim (Bool-cases (ftype == t_crc && length payload == 5)) [
  | inl e ↦ rw e (log_round-Notes r (crc_seat payload) (crc_tick payload) (crc_value payload) w h)
  | inr e ↦
      rw e
        (record { table = w.crc; rounds = w.crc_ok; lines = w.journal; only = refl; bounded = h })
]

pub noted-Inv :
    (w : World) (table : ℕ → List (ℕ × Entry)) (rounds : ℕ → ℕ) (lines : List LogLine)
    → Inv w
    → CrcOk table
    → Inv (noted w table rounds lines)
noted-Inv w table rounds lines v bounded = record {
  rooms = v.rooms;
  names = v.names;
  clients = v.clients;
  unused = v.unused;
  backlog = v.backlog;
  crc = bounded;
  lobby = v.lobby;
}

Told-Delivered :
    (r ftype : ℕ) (payload : Bytes) (w x : World) (who : ℕ → Bool)
    → CrcOk w.crc
    → Told (noted_by r ftype payload w) x who (λ _. framed ftype payload)
    → Delivered w x who (framed ftype payload)
Told-Delivered r ftype payload w x who bounded h =
    let n = noted_by-Notes r ftype payload w bounded in
    let k : Told (noted w n.table n.rounds n.lines) x who (λ _. framed ftype payload) =
      subst (λ u. Told u x who (λ _. framed ftype payload)) n.only h in
    record {
      wires = k.wires;
      queues = k.queues;
      same = ap (λ (u : World). record u { crc = λ _. []; crc_ok = λ _. 0; journal = [] }) k.same;
    }

module _ (os : Os) (up : KeepsUp os) where
  send_other-Tells :
      (b : ℕ) (bs : Bytes) (c r : ℕ) (w : World)
      → Inv w
      → AllReady w (w.members r)
      → length bs ≤ 255
      → Tells os up r w (λ x. not (x == c)) (λ _. b ∷ bs) (send_other os c (b ∷ bs))
  send_other-Tells b bs c r w v ready l i m u e h = elim (Bool-cases (m == c)) [
    | inl f ↦
        rw f (skip-so_far os up r w (λ x. not (x == c)) (λ _. b ∷ bs) i m u e (ground (arith, f)) h)
    | inr f ↦ rw f (
        send-so_far os up r w (λ x. not (x == c)) (λ _. b ∷ bs) (drop_client os) i m b bs u e
          (v.rooms.distinct r) ready (ground (arith, f)) refl (omega arith) h)
  ]

  -- A relayed frame is told to the others, once a report in it is noted.
  pub on_relay-Told :
      (c r ftype : ℕ) (payload : Bytes) (w : World)
      → Inv w
      → w.room c ≡ some r
      → w.started r ≡ true
      → AllReady w (w.members r)
      → ftype < 256
      → length payload ≤ 254
      → Ends
          (on_relay os c ftype payload w)
          (λ _ v.
            Told (noted_by r ftype payload w) v (all_others c r w) (λ _. framed ftype payload))
          (λ _ _. ⊥)
  unfolding on_relay relay log_crc
  on_relay-Told c r ftype payload w v e s ready t l = rw e (
      rw s (elim (Bool-cases (ftype == t_crc && length payload == 5)) [
        | inl f ↦ rw f (
            rw e (
              subst
                (λ u.
                  Ends
                    (and_then (frame ftype payload u)
                      (λ bytes. for_members r (send_other os c bytes)))
                    (λ _ x. Told u x (all_others c r w) (λ _. framed ftype payload)) (λ _ _. ⊥))
                (sym notes.only) (sends notes.table notes.rounds notes.lines notes.bounded)))
        | inr f ↦ rw f (sends w.crc w.crc_ok w.journal v.crc)
      ]))
    where
      notes : Notes w (log_round r (crc_seat payload) (crc_tick payload) (crc_value payload) w)
      notes = log_round-Notes r (crc_seat payload) (crc_tick payload) (crc_value payload) w v.crc

      sends :
          (table : ℕ → List (ℕ × Entry)) (rounds : ℕ → ℕ) (lines : List LogLine)
          → CrcOk table
          → Ends
              (and_then
                (frame ftype payload (noted w table rounds lines))
                (λ bytes. for_members r (send_other os c bytes)))
              (λ _ x.
                Told (noted w table rounds lines) x (all_others c r w) (λ _. framed ftype payload))
              (λ _ _. ⊥)
      sends table rounds lines bounded =
          rw (frame_lem ftype payload (noted w table rounds lines) t l) (
            for_members-Told os up r (noted w table rounds lines) (λ x. not (x == c))
              (λ _. framed ftype payload) (send_other os c (framed ftype payload))
              (send_other-Tells (suc (length payload)) (ftype ∷ payload) c r
                (noted w table rounds lines) (noted-Inv w table rounds lines v bounded) ready
                (omega arith)))

  -- While the system takes what it is given, in a state that satisfies `Inv`: if no member of the
  -- sender's started room is dead or has output waiting, then a relayed frame, with a type below 256
  -- and at most 254 bytes of payload, reaches every other member whole, right after what was sent to
  -- it before, and reaches nobody else; the output queues and all of the server's state are as
  -- before, but for the tables, the counts and the log of the comparison of checksums.
  pub on_relay-Delivered :
      (c r ftype : ℕ) (payload : Bytes) (w : World)
      → Inv w
      → w.room c ≡ some r
      → w.started r ≡ true
      → ((m : ℕ) → contains (w.members r) m ≡ true → (w.dead m ≡ false) × (w.tx m ≡ []))
      → ftype < 256
      → length payload ≤ 254
      → Ends
          (on_relay os c ftype payload w)
          (λ _ v. Delivered w v (all_others c r w) (framed ftype payload))
          (λ _ _. ⊥)
  on_relay-Delivered c r ftype payload w v e s ready t l =
      Ends-weaken (on_relay os c ftype payload w) _ _ (λ _ _. ⊥) _
        (on_relay-Told c r ftype payload w v e s ready t l)
        (λ _ x q. Told-Delivered r ftype payload w x (all_others c r w) v.crc q) (λ _ _ q. q)
