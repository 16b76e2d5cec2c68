-- ===== src/Relay/Rounds/Sent.antt =====
-- Checksum reports that arrive as frames: a whole round through `handle`.
use mathlib.Core.List.{Perm}
use fujinet_intv_golf.Base.{
  ℕ, suc, ◌+◌, ◌/◌, ◌%◌, ◌≤◌, ◌<◌, ◌≡◌, refl, ap, ap₂, ◌∙◌, subst, true, false, List, [], ◌∷◌, ◌++◌,
  map, none, arith, ◌==◌, ==-eq, ==-self, if◌then◌else◌, length, length-append, contains,
  AllDistinct, All,
}
use fujinet_intv_golf.Base.Bits.{bit_or_word}
use fujinet_intv_golf.Base.NatMap
use fujinet_intv_golf.Wire.{Bytes, t_crc}
use fujinet_intv_golf.Relay.Outcome.{Ends, Ends-and_then, Ends-weaken}
use fujinet_intv_golf.Relay.World.{World, Os, M, skip, ◌>>◌}
use fujinet_intv_golf.Relay.Handlers.{handle}
use fujinet_intv_golf.Relay.Crc.{Entry, sorted_items, log_round}
use fujinet_intv_golf.Relay.Delivery.{KeepsUp, apart}
use fujinet_intv_golf.Relay.Matches.{Playing, handle-Relayed}
use fujinet_intv_golf.Relay.Rounds.{values}
use fujinet_intv_golf.Relay.Rounds.Sorted.{InSeatOrder, sorted_items-perm, sorted_items-InSeatOrder}
use fujinet_intv_golf.Relay.Rounds.Whole.{
  all_same, verdict_lines, with_slot, Logged, log_round-more, log_round-done,
}

-- A report: who sends it, for which seat, and the checksum.
pub record CrcReport : Type 0 where
  pub sender : ℕ
  pub seat : ℕ
  pub crc : ℕ

abbrev pub crc_payload : ℕ → CrcReport → Bytes
crc_payload tick e = e.seat ∷ tick % 256 ∷ tick / 256 ∷ e.crc % 256 ∷ e.crc / 256 ∷ []

abbrev pub reports_of : List CrcReport → Entry
reports_of es = map (λ e. (e.seat, e.crc)) es

-- The reports for a tick arrive one after the other.
abbrev pub receive_all : Os → ℕ → List CrcReport → M (Unit {0})
receive_all os tick [] = skip
receive_all os tick (e ∷ es) =
    handle os e.sender t_crc (crc_payload tick e) >> receive_all os tick es

-- The round is over, with this entry.
abbrev pub RoundVerdict : ℕ → ℕ → List (ℕ × Entry) → Entry → World → World → Type 0
RoundVerdict r tick table entry w v =
    Logged r w.members v table (if all_same (values entry) then suc (w.crc_ok r) else w.crc_ok r)
      (w.journal ++ verdict_lines (all_same (values entry)) tick entry (suc (w.crc_ok r)))

-- The same, and what the reports of a mismatch line are.
pub record RoundDone (r tick : ℕ) (entry : Entry) (w v : World) : Type 0 where
  pub still : Playing r (w.members r) v
  pub verdict : RoundVerdict r tick (w.crc r) entry w v
  pub ascending : InSeatOrder (sorted_items entry)
  pub each_once : Perm (sorted_items entry) entry

-- Up to the end of the round nothing is counted or logged.
RoundVerdict-from :
    (r tick : ℕ) (table : List (ℕ × Entry)) (entry : Entry) (w x v : World)
    → x.members ≡ w.members
    → x.crc_ok r ≡ w.crc_ok r
    → x.journal ≡ w.journal
    → RoundVerdict r tick table entry x v
    → RoundVerdict r tick table entry w v
RoundVerdict-from r tick table entry w x v e f g h = record {
  table = h.table;
  good = h.good ∙ ap (λ n. if all_same (values entry) then suc n else n) f;
  lines =
      h.lines ∙ ap₂ (λ l n. l ++ verdict_lines (all_same (values entry)) tick entry (suc n)) g f;
  same_members = h.same_members ∙ e;
}

append_one : (p : Entry) (e : ℕ × ℕ) (q : Entry) → (p ++ e ∷ []) ++ q ≡ p ++ e ∷ q
append_one [] e q = refl
append_one (x ∷ p) e q = ap (◌∷◌ x) (append_one p e q)

lookup-concat_none :
    (k : ℕ) (p : Entry) (e : ℕ × ℕ)
    → NatMap.lookup k p ≡ none
    → (e.0 == k) ≡ false
    → NatMap.lookup k (p ++ e ∷ []) ≡ none
unfolding NatMap.lookup
lookup-concat_none k [] e h ne = rw ne refl
lookup-concat_none k ((j, v) ∷ p) e h ne = ground (arith, lookup-concat_none k p e)

-- A report that may come next: from a player, for a seat of which none is in.
abbrev pub IsNext : List ℕ → Entry → CrcReport → Type 0
IsNext ms p e = (contains ms e.sender ≡ true) × (NatMap.lookup e.seat p ≡ none)

-- The others may still come next.
IsNext-concat :
    (ms : List ℕ) (p : Entry) (e : CrcReport) (es : List CrcReport)
    → contains (map (λ x. x.seat) es) e.seat ≡ false
    → All (IsNext ms p) es
    → All (IsNext ms (p ++ (e.seat, e.crc) ∷ [])) es
IsNext-concat ms p e [] h next = tt
IsNext-concat ms p e (f ∷ es) h next = (
  (
    next.0.0,
    lookup-concat_none f.seat p (e.seat, e.crc) next.0.1
        (ground (arith, h, ==-eq e.seat f.seat, ==-self e.seat)),
  ),
  IsNext-concat ms p e es (ground (arith, h)) next.1,
)

module _ (os : Os) (up : KeepsUp os) (r tick : ℕ) (ms : List ℕ) (table : List (ℕ × Entry))
    (fresh : NatMap.lookup tick table ≡ none) (size : suc (length table) ≤ 64) where
  -- What the frame of a report does to the match and the tables.
  record Noted (p : Entry) (e : CrcReport) (w x : World) : Type 0 where
    still : Playing r ms x
    same : apart x ≡ apart (log_round r e.seat tick e.crc w)

  report-Noted :
      (p : Entry) (e : CrcReport) (w : World)
      → Playing r ms w
      → contains ms e.sender ≡ true
      → Ends (handle os e.sender t_crc (crc_payload tick e) w) (λ _ x. Noted p e w x) (λ _ _. ⊥)
  report-Noted p e w h mine =
      Ends-weaken (handle os e.sender t_crc (crc_payload tick e) w) _ _ (λ _ _. ⊥) _
        (handle-Relayed os up r ms e.sender t_crc (crc_payload tick e) w h mine refl (omega arith)
          (omega arith))
        (λ _ x q. record {
          still = q.still;
          same =
              q.told.same
              ∙ ap₂ (λ t v. apart (log_round r e.seat t v w)) (bit_or_word tick)
                  (bit_or_word e.crc);
        })
        (λ _ _ q. q)

  -- The rest of a round, when the reports `p` are in.
  receive_all-RoundVerdict :
      (p : Entry) (e : CrcReport) (es : List CrcReport) (w : World)
      → Playing r ms w
      → w.crc r ≡ with_slot tick table p
      → length p + suc (length es) ≡ length ms
      → All (IsNext ms p) (e ∷ es)
      → AllDistinct (map (λ x. x.seat) (e ∷ es))
      → Ends
          (receive_all os tick (e ∷ es) w)
          (λ _ v. Playing r ms v × RoundVerdict r tick table (p ++ reports_of (e ∷ es)) w v)
          (λ _ _. ⊥)
  receive_all-RoundVerdict p e [] w h now count next distinct =
      Ends-and_then (handle os e.sender t_crc (crc_payload tick e) w) _ (λ _ x. Noted p e w x) _ _
        (report-Noted p e w h next.0.0) (λ _ x q. (q.still, last x q))
    where
      full : length (w.members r) ≤ length (p ++ (e.seat, e.crc) ∷ [])
      full = omega (arith, ap (length {A = ℕ}) h.seats, length-append p ((e.seat, e.crc) ∷ []))

      last : (x : World) → Noted p e w x → RoundVerdict r tick table (p ++ (e.seat, e.crc) ∷ []) w x
      last x q =
          let l = log_round-done r tick e.seat e.crc table p w fresh next.0.1 size now full in
          record {
            table = ap (λ (y : World). y.crc r) q.same ∙ l.table;
            good = ap (λ (y : World). y.crc_ok r) q.same ∙ l.good;
            lines = ap (λ (y : World). y.journal) q.same ∙ l.lines;
            same_members = ap (λ (y : World). y.members) q.same ∙ l.same_members;
          }
  receive_all-RoundVerdict p e (f ∷ es) w h now count next distinct =
      Ends-and_then (handle os e.sender t_crc (crc_payload tick e) w) _ (λ _ x. Noted p e w x) _ _
        (report-Noted p e w h next.0.0)
        (λ _ x q.
          Ends-weaken (receive_all os tick (f ∷ es) x) _ _ (λ _ _. ⊥) _
            (receive_all-RoundVerdict (p ++ (e.seat, e.crc) ∷ []) f es x q.still
              (ap (λ (y : World). y.crc r) q.same ∙ waits.table)
              (omega (arith, length-append p ((e.seat, e.crc) ∷ [])))
              (IsNext-concat ms p e (f ∷ es) distinct.0 next.1) distinct.1)
            (λ _ v k. (
              k.0,
              RoundVerdict-from r tick table (p ++ reports_of (e ∷ f ∷ es)) w x v
                  (ap (λ (y : World). y.members) q.same ∙ waits.same_members)
                  (ap (λ (y : World). y.crc_ok r) q.same ∙ waits.good)
                  (ap (λ (y : World). y.journal) q.same ∙ waits.lines)
                  (subst (λ l. RoundVerdict r tick table l x v)
                    (append_one p (e.seat, e.crc) (reports_of (f ∷ es))) k.1),
            ))
            (λ _ _ k. k))
    where
      waits :
          Logged r w.members
            (log_round r e.seat tick e.crc w)
            (with_slot tick table (p ++ (e.seat, e.crc) ∷ []))
            (w.crc_ok r)
            w.journal
      waits = log_round-more r tick e.seat e.crc table p w fresh next.0.1 size now (
          omega (arith, ap (length {A = ℕ}) h.seats, length-append p ((e.seat, e.crc) ∷ []), count))

-- A round of checksums, in a match of which no member is dead or has output waiting, while the
-- system takes what it is given, in a state that satisfies `Inv`: as many reports for one tick as
-- the match has players arrive as frames, in any order, each from a player, and each for another
-- seat; before it there are fewer than 64 ticks in the room's table, and not this one. Then
-- every report is handled without an exception, and the match goes on. The table is as before the
-- round. If all checksums are equal, the count of good rounds has grown by one, and every fourth
-- time the log has a line with the tick and the count; else the count stays, and the log has one
-- mismatch line with the tick and these reports, each once, in ascending order of seats, whatever
-- the order of their arrival.
pub receive_all-round :
    (os : Os) (up : KeepsUp os) (r tick : ℕ) (e : CrcReport) (es : List CrcReport) (w : World)
    → Playing r (w.members r) w
    → NatMap.lookup tick (w.crc r) ≡ none
    → length (w.crc r) < 64
    → suc (length es) ≡ length (w.members r)
    → All (λ x. contains (w.members r) x.sender ≡ true) (e ∷ es)
    → AllDistinct (map (λ x. x.seat) (e ∷ es))
    → Ends
        (receive_all os tick (e ∷ es) w)
        (λ _ v. RoundDone r tick (reports_of (e ∷ es)) w v)
        (λ _ _. ⊥)
unfolding NatMap.lookup
receive_all-round os up r tick e es w h fresh room count mine distinct =
    Ends-weaken (receive_all os tick (e ∷ es) w) _ _ (λ _ _. ⊥) _
      (receive_all-RoundVerdict os up r tick (w.members r) (w.crc r) fresh (omega arith) [] e es w h
        refl (omega arith) (first (e ∷ es) mine) distinct)
      (λ _ v k. record {
        still = k.0;
        verdict = k.1;
        ascending = sorted_items-InSeatOrder (reports_of (e ∷ es));
        each_once = sorted_items-perm (reports_of (e ∷ es));
      })
      (λ _ _ k. k)
  where
    first :
        (l : List CrcReport)
        → All (λ x. contains (w.members r) x.sender ≡ true) l
        → All (IsNext (w.members r) []) l
    first [] h = tt
    first (x ∷ l) h = ((h.0, refl), first l h.1)
