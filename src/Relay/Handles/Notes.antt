-- ===== src/Relay/Handles/Notes.antt =====
-- What a checksum report changes: `Server.log_crc`.
use fujinet_intv_golf.Base.{
  ℕ, suc, ◌%◌, ◌≤◌, ◌≡◌, not, List, [], ◌∷◌, ◌++◌, map, arith, ltb, ◌==◌, if◌then◌else◌, update,
  length, Bool-cases, inl, inr,
}
use fujinet_intv_golf.Base.NatMap
use fujinet_intv_golf.Base.NatMap.{length-insert-le, length-pop-le, length-pop-min_key}
use fujinet_intv_golf.Relay.World.{World, LogLine, crc_mismatch, crc_ok_through}
use fujinet_intv_golf.Relay.Crc.{sorted_items, Entry, set_of, report, close_round, log_round}
use fujinet_intv_golf.Relay.Invariant.{CrcOk}

-- The table of ticks that a room keeps has at most 64 entries after a report, if it had at most 64
-- before.
pub length-report-le :
    (tick seat crc : ℕ) (table : List (ℕ × Entry))
    → length table ≤ 64
    → length (report tick seat crc table).1 ≤ 64
unfolding report
length-report-le tick seat crc table h =
    let entry = NatMap.insert seat crc (NatMap.get_or tick [] table) in
    let grown = NatMap.insert tick entry table in
    ground (arith, length-insert-le tick entry table, length-pop-min_key grown)

abbrev pub noted : World → (ℕ → List (ℕ × Entry)) → (ℕ → ℕ) → List LogLine → World
noted w crc crc_ok journal = record w { crc = crc; crc_ok = crc_ok; journal = journal }

-- A report changes the CRC tables, the count of rounds and the log alone.
pub record Notes (w w' : World) : Type 0 where
  pub table : ℕ → List (ℕ × Entry)
  pub rounds : ℕ → ℕ
  pub lines : List LogLine
  pub only : w' ≡ noted w table rounds lines
  pub bounded : CrcOk table

close_round-Notes :
    (r tick : ℕ) (entry : Entry) (w : World) → CrcOk w.crc → Notes w (close_round r tick entry w)
unfolding close_round
close_round-Notes r tick entry w h =
    elim (Bool-cases (not (length (set_of (map (λ (e : ℕ × ℕ). e.1) entry)) == 1))) [
      | inl e ↦ record {
        table = update w.crc r (NatMap.pop tick (w.crc r));
        rounds = w.crc_ok;
        lines = w.journal ++ crc_mismatch tick (sorted_items entry) ∷ [];
        only = rw e;
        bounded = λ s. ground (arith, h s, length-pop-le tick (w.crc r), h r);
      }
      | inr e ↦ record {
        table = update w.crc r (NatMap.pop tick (w.crc r));
        rounds = update w.crc_ok r (suc (w.crc_ok r));
        lines =
            if suc (w.crc_ok r) % 4 == 0
            then w.journal ++ crc_ok_through tick (suc (w.crc_ok r)) ∷ []
            else w.journal;
        only = rw e;
        bounded = λ s. ground (arith, h s, length-pop-le tick (w.crc r), h r);
      }
    ]

pub log_round-Notes :
    (r seat tick crc : ℕ) (w : World) → CrcOk w.crc → Notes w (log_round r seat tick crc w)
unfolding log_round
log_round-Notes r seat tick crc w h =
    elim (Bool-cases (ltb (length entry) (length (w.members r)))) [
      | inl e ↦ record {
        table = update w.crc r table;
        rounds = w.crc_ok;
        lines = w.journal;
        only = rw e;
        bounded = small;
      }
      | inr e ↦
          let n = close_round-Notes r tick entry (record w { crc = update w.crc r table }) small in
          record {
            table = n.table;
            rounds = n.rounds;
            lines = n.lines;
            only = rw e n.only;
            bounded = n.bounded;
          }
    ]
  where
    entry : Entry
    entry = (report tick seat crc (w.crc r)).0

    table : List (ℕ × Entry)
    table = (report tick seat crc (w.crc r)).1

    small : CrcOk (update w.crc r table)
    small s = ground (arith, h s, length-report-le tick seat crc (w.crc r) (h r))
