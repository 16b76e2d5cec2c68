-- ===== src/Clients/Soak/Match.antt =====
-- The match of tools/soak.py at the server: each of its ticks is a good round.
use fujinet_intv_golf.Base.{
  ℕ, zero, suc, ◌+◌, ◌*◌, ◌/◌, ◌<◌, ◌≡◌, refl, ap, ◌∙◌, true, false, List, [], ◌∷◌, ◌++◌, arith,
  ◌==◌, ==-eq, ==-self, bit_and, bit_or, append_nil, concat_assoc, if◌then◌else◌, length, contains,
}
use fujinet_intv_golf.Base.Bits.{bit_and_low, bit_or_word}
use fujinet_intv_golf.Base.NatMap
use fujinet_intv_golf.Wire.{Bytes, is_relay_type, t_input, t_crc}
use fujinet_intv_golf.Relay.Outcome.{Ends, Ends-and_then, Ends-weaken}
use fujinet_intv_golf.Relay.World.{World, Os, M, skip, ◌>>◌}
use fujinet_intv_golf.Relay.Handlers.{handle}
use fujinet_intv_golf.Relay.Crc.{log_round}
use fujinet_intv_golf.Relay.Frames.{framed}
use fujinet_intv_golf.Relay.Delivery.{KeepsUp, apart}
use fujinet_intv_golf.Relay.Matches.{Playing, handle-Relayed, Relayed-wire}
use fujinet_intv_golf.Relay.Fanout.{noted_by}
use fujinet_intv_golf.Relay.Rounds.Whole.{log_round-more, log_round-done}
use fujinet_intv_golf.Clients.Soak.{next_tick, Sending, tick_frames}

-- The server handles what the players send, in the order in which they send it.
abbrev pub serve_all : Os → List Sending → M (Unit {0})
serve_all os [] = skip
serve_all os (f ∷ fs) = handle os f.sender f.ftype f.payload >> serve_all os fs

-- The ticks of a soak, from the one that is next.
unfoldable pub soak_ticks : Os → ℕ → ℕ → ℕ → ℕ → M (Unit {0})
unfolding tick_frames next_tick
soak_ticks os a b zero tick = skip
soak_ticks os a b (suc n) tick =
    serve_all os (tick_frames a b (next_tick tick)) >> soak_ticks os a b n (next_tick tick)

-- What a client is to get of the frames: those of the others, whole and in order.
abbrev pub frames_for : ℕ → List Sending → Bytes
frames_for m [] = []
frames_for m (f ∷ fs) =
    if f.sender == m then frames_for m fs else framed f.ftype f.payload ++ frames_for m fs

-- And of a number of ticks.
abbrev pub stream_for : ℕ → ℕ → ℕ → ℕ → ℕ → Bytes
stream_for a b m zero tick = []
stream_for a b m (suc n) tick =
    frames_for m (tick_frames a b (next_tick tick)) ++ stream_for a b m n (next_tick tick)

-- The match goes on, so many rounds have been good, and both have got these bytes.
pub record Soaked (r a b : ℕ) (w v : World) (rounds : ℕ) (for_host for_guest : Bytes) : Type 0 where
  pub still : Playing r (a ∷ b ∷ []) v
  pub table : v.crc r ≡ []
  pub good : v.crc_ok r ≡ w.crc_ok r + rounds
  pub host_gets : v.wire a ≡ w.wire a ++ for_host
  pub guest_gets : v.wire b ≡ w.wire b ++ for_guest

module _ (os : Os) (up : KeepsUp os) (r a b : ℕ) (other : (a == b) ≡ false) where
  -- One frame: the state of the match, the tables, and the bytes.
  record Step (c : ℕ) (bytes : Bytes) (w x next : World) : Type 0 where
    still : Playing r (a ∷ b ∷ []) x
    same : apart x ≡ apart next
    host_gets : x.wire a ≡ (if c == a then w.wire a else w.wire a ++ bytes)
    guest_gets : x.wire b ≡ (if c == b then w.wire b else w.wire b ++ bytes)

  host : contains (a ∷ b ∷ []) a ≡ true
  host = ground (arith, ==-self a)

  guest : contains (a ∷ b ∷ []) b ≡ true
  guest = ground (arith, ==-self b)

  -- A frame of a player.
  frame-Step :
      (c ftype : ℕ) (payload : Bytes) (w : World)
      → Playing r (a ∷ b ∷ []) w
      → contains (a ∷ b ∷ []) c ≡ true
      → is_relay_type ftype ≡ true
      → ftype < 256
      → length payload ≡ 5
      → Ends
          (handle os c ftype payload w)
          (λ _ x. Step c (framed ftype payload) w x (noted_by r ftype payload w))
          (λ _ _. ⊥)
  frame-Step c ftype payload w h mine relays t l =
      Ends-weaken (handle os c ftype payload w) _ _ (λ _ _. ⊥) _
        (handle-Relayed os up r (a ∷ b ∷ []) c ftype payload w h mine relays t (omega arith))
        (λ _ x k. record {
          still = k.still;
          same = k.told.same;
          host_gets = Relayed-wire r (a ∷ b ∷ []) c ftype payload w x a h k host;
          guest_gets = Relayed-wire r (a ∷ b ∷ []) c ftype payload w x b h k guest;
        })
        (λ _ _ k. k)

  word : (tick : ℕ) → bit_or (bit_and tick 0xFF) (tick / 256 * 256) ≡ tick
  word tick = ap (λ lo. bit_or lo (tick / 256 * 256)) (bit_and_low 8 tick) ∙ bit_or_word tick

  crc-Step :
      (c seat tick : ℕ) (w : World)
      → Playing r (a ∷ b ∷ []) w
      → contains (a ∷ b ∷ []) c ≡ true
      → Ends
          (handle os c t_crc (seat ∷ bit_and tick 0xFF ∷ tick / 256 ∷ 0x11 ∷ 0x22 ∷ []) w)
          (λ _ x.
            Step c
              (framed t_crc (seat ∷ bit_and tick 0xFF ∷ tick / 256 ∷ 0x11 ∷ 0x22 ∷ []))
              w
              x
              (log_round r seat tick 0x2211 w))
          (λ _ _. ⊥)
  crc-Step c seat tick w h mine =
      Ends-weaken (handle os c t_crc (seat ∷ bit_and tick 0xFF ∷ tick / 256 ∷ 0x11 ∷ 0x22 ∷ []) w) _
        _ (λ _ _. ⊥) _ (frame-Step c t_crc _ w h mine refl (omega arith) refl)
        (λ _ x k. record {
          still = k.still;
          same = k.same ∙ ap (λ t. apart (log_round r seat t 0x2211 w)) (word tick);
          host_gets = k.host_gets;
          guest_gets = k.guest_gets;
        })
        (λ _ _ k. k)

  module _ (tick : ℕ) (w : World) where
    -- The host's checksum waits for the guest's.
    waits :
        (bytes : Bytes) (x x' : World)
        → Playing r (a ∷ b ∷ []) x
        → x.crc r ≡ []
        → Step a bytes x x' (log_round r 0 tick 0x2211 x)
        → (x'.crc r ≡ (tick, (0, 0x2211) ∷ []) ∷ []) × (x'.crc_ok r ≡ x.crc_ok r)
    unfolding NatMap.lookup
    waits bytes x x' h empty s =
        let l =
          log_round-more r tick 0 0x2211 [] [] x refl refl (omega arith) empty
            (omega (arith, ap (length {A = ℕ}) h.seats)) in
        (
          ap (λ (k : World). k.crc r) s.same ∙ l.table,
          ap (λ (k : World). k.crc_ok r) s.same ∙ l.good,
        )

    -- The guest's ends the round.
    ends :
        (bytes : Bytes) (x x' : World)
        → Playing r (a ∷ b ∷ []) x
        → x.crc r ≡ (tick, (0, 0x2211) ∷ []) ∷ []
        → Step b bytes x x' (log_round r 1 tick 0x2211 x)
        → (x'.crc r ≡ []) × (x'.crc_ok r ≡ suc (x.crc_ok r))
    unfolding NatMap.lookup
    ends bytes x x' h now s =
        let l =
          log_round-done r tick 1 0x2211 [] ((0, 0x2211) ∷ []) x refl refl (omega arith) now
            (omega (arith, ap (length {A = ℕ}) h.seats)) in
        (
          ap (λ (k : World). k.crc r) s.same ∙ l.table,
          ap (λ (k : World). k.crc_ok r) s.same ∙ l.good,
        )

    -- Two of the four frames are the other's.
    after_two : (l m n : Bytes) → (l ++ m) ++ n ≡ l ++ (m ++ (n ++ []))
    after_two l m n = concat_assoc l m n ∙ ap (λ k. l ++ (m ++ k)) (append_nil n)

    counted :
        (f1 f2 f3 f4 : Bytes) (x1 x2 x3 x4 : World)
        → w.crc r ≡ []
        → Step a f1 w x1 w
        → Step a f2 x1 x2 (log_round r 0 tick 0x2211 x1)
        → Step b f3 x2 x3 x2
        → Step b f4 x3 x4 (log_round r 1 tick 0x2211 x3)
        → Soaked r a b w x4 1 (f3 ++ (f4 ++ [])) (f1 ++ (f2 ++ []))
    counted f1 f2 f3 f4 x1 x2 x3 x4 empty s1 s2 s3 s4 =
        let first = waits f2 x1 x2 s1.still (ap (λ (k : World). k.crc r) s1.same ∙ empty) s2 in
        let second = ends f4 x3 x4 s3.still (ap (λ (k : World). k.crc r) s3.same ∙ first.0) s4 in
        record {
          still = s4.still;
          table = second.0;
          good = omega (
            arith,
            second.1,
            ap (λ (k : World). k.crc_ok r) s3.same,
            first.1,
            ap (λ (k : World). k.crc_ok r) s1.same,
          );
          host_gets = ground (
            arith,
            s1.host_gets,
            s2.host_gets,
            s3.host_gets,
            s4.host_gets,
            ==-self a,
            other,
            ==-eq b a,
            after_two (w.wire a) f3 f4,
          );
          guest_gets = ground (
            arith,
            s1.guest_gets,
            s2.guest_gets,
            s3.guest_gets,
            s4.guest_gets,
            ==-self b,
            other,
            after_two (w.wire b) f1 f2,
          );
        }

  guest_other : (b == a) ≡ false
  guest_other = ground (arith, other, ==-eq b a, ==-self a)

  -- Four frames make a round.
  tick-Soaked :
      (tick : ℕ) (w : World)
      → Playing r (a ∷ b ∷ []) w
      → w.crc r ≡ []
      → Ends
          (serve_all os (tick_frames a b tick) w)
          (λ _ v.
            Soaked r a b w v 1
              (frames_for a (tick_frames a b tick))
              (frames_for b (tick_frames a b tick)))
          (λ _ _. ⊥)
  unfolding tick_frames
  tick-Soaked tick w h empty =
      Ends-and_then (handle os a t_input _ w) _ (λ _ x. Step a _ w x w) _ _
        (frame-Step a t_input _ w h host refl (omega arith) (omega arith))
        (λ _ x1 s1.
          Ends-and_then (handle os a t_crc _ x1) _
            (λ _ x. Step a _ x1 x (log_round r 0 tick 0x2211 x1)) _ _
            (crc-Step a 0 tick x1 s1.still host)
            (λ _ x2 s2.
              Ends-and_then (handle os b t_input _ x2) _ (λ _ x. Step b _ x2 x x2) _ _
                (frame-Step b t_input _ x2 s2.still guest refl (omega arith) (omega arith))
                (λ _ x3 s3.
                  Ends-and_then (handle os b t_crc _ x3) _
                    (λ _ x. Step b _ x3 x (log_round r 1 tick 0x2211 x3)) _ _
                    (crc-Step b 1 tick x3 s3.still guest)
                    (λ _ x4 s4.
                      rw (==-self a, ==-self b, other, guest_other)
                        (counted tick w _ _ _ _ x1 x2 x3 x4 empty s1 s2 s3 s4)))))

  -- The match of the soak, in a started room of two clients of which none is dead or has output
  -- waiting, and with no checksums in its table, while the system takes what it is given, in a state
  -- that satisfies `Inv`: after any number of ticks every frame has been handled without an
  -- exception, the match goes on, each tick has made one good round, the table is empty again, and
  -- each of the two has got exactly the other's frames, whole and in order, right after what it had
  -- got before.
  pub soak_ticks-Soaked :
      (n tick : ℕ) (w : World)
      → Playing r (a ∷ b ∷ []) w
      → w.crc r ≡ []
      → Ends
          (soak_ticks os a b n tick w)
          (λ _ v. Soaked r a b w v n (stream_for a b a n tick) (stream_for a b b n tick))
          (λ _ _. ⊥)
  unfolding soak_ticks
  soak_ticks-Soaked zero tick w h empty = record {
    still = h;
    table = empty;
    good = omega arith;
    host_gets = append_nil (w.wire a);
    guest_gets = append_nil (w.wire b);
  }
  soak_ticks-Soaked (suc n) tick w h empty =
      Ends-and_then (serve_all os (tick_frames a b (next_tick tick)) w) _
        (λ _ x.
          Soaked r a b w x 1 (frames_for a (tick_frames a b (next_tick tick)))
            (frames_for b (tick_frames a b (next_tick tick))))
        _ _ (tick-Soaked (next_tick tick) w h empty)
        (λ _ x s.
          Ends-weaken (soak_ticks os a b n (next_tick tick) x) _ _ (λ _ _. ⊥) _
            (soak_ticks-Soaked n (next_tick tick) x s.still s.table)
            (λ _ v k. record {
              still = k.still;
              table = k.table;
              good = omega (arith, k.good, s.good);
              host_gets =
                  k.host_gets
                  ∙ ap (λ l. l ++ stream_for a b a n (next_tick tick)) s.host_gets
                  ∙ concat_assoc (w.wire a) _ _;
              guest_gets =
                  k.guest_gets
                  ∙ ap (λ l. l ++ stream_for a b b n (next_tick tick)) s.guest_gets
                  ∙ concat_assoc (w.wire b) _ _;
            })
            (λ _ _ k. k))
