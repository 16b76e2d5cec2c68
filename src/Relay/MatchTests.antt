-- ===== src/Relay/MatchTests.antt =====
-- The theorems about a match at work, on two players.
use fujinet_intv_golf.Base.{
  ℕ, ◌≡◌, refl, sym, ap, subst, false, true, ◌==◌, ==-eq, List, [], ◌∷◌, some, arith, length,
  contains, Bool-cases, inl, inr,
}
use fujinet_intv_golf.Base.NatMap
use fujinet_intv_golf.Relay.Outcome.{Ends}
use fujinet_intv_golf.Relay.Matches.{Playing}
use fujinet_intv_golf.Relay.Rounds.Sent.{
  CrcReport, reports_of, receive_all, RoundDone, receive_all-round,
}
use fujinet_intv_golf.Relay.Worlds.{os_up, playing, playing-Inv, playing-Begun}
use fujinet_intv_golf.Clients.Soak.Match.{soak_ticks, stream_for, Soaked, soak_ticks-Soaked}

-- What is asked of both players.
both : (P : ℕ → Type 0) → P 0 → P 1 → (m : ℕ) → contains (0 ∷ 1 ∷ []) m ≡ true → P m
both P p q m h = elim (Bool-cases (m == 0)) [
  | inl e ↦ subst P (sym (==-eq m 0 e)) p
  | inr e ↦ subst P (ground (arith, h, e, ==-eq m 1)) q
]

playing-Playing : Playing 0 (0 ∷ 1 ∷ []) playing
playing-Playing = record {
  inv = playing-Inv;
  going = playing-Begun.started;
  seats = playing-Begun.seated;
  rooms = both (λ m. playing.room m ≡ some 0) playing-Begun.host playing-Begun.guest;
  ready =
      both (λ m. (playing.dead m ≡ false) × (playing.tx m ≡ []))
        (playing-Begun.alive_a, playing-Begun.idle_a) (playing-Begun.alive_b, playing-Begun.idle_b);
}

abbrev report_b : CrcReport
report_b = record { sender = 1; seat = 1; crc = 9 }

abbrev report_a : CrcReport
report_a = record { sender = 0; seat = 0; crc = 8 }

-- AA reports 8 and BB 9 for tick 5, BB first.
receive_all-round_example :
    Ends
      (receive_all os_up 5 (report_b ∷ report_a ∷ []) playing)
      (λ _ v. RoundDone 0 5 (reports_of (report_b ∷ report_a ∷ [])) playing v)
      (λ _ _. ⊥)
unfolding NatMap.lookup
receive_all-round_example =
    receive_all-round os_up (λ n c bytes. refl) 0 5 report_b (report_a ∷ []) playing
      (subst (λ l. Playing 0 l playing) (sym playing-Begun.seated) playing-Playing)
      (ap (NatMap.lookup 5) playing-Begun.quiet)
      (omega (arith, ap (length {A = ℕ × List (ℕ × ℕ)}) playing-Begun.quiet))
      (omega (arith, ap (length {A = ℕ}) playing-Begun.seated))
      (
        ap (λ (l : List ℕ). contains l 1) playing-Begun.seated,
        (ap (λ (l : List ℕ). contains l 0) playing-Begun.seated, tt),
      )
      (refl, (refl, tt))

soak_ticks-Soaked_example :
    Ends
      (soak_ticks os_up 0 1 3 0xFFFE playing)
      (λ _ v. Soaked 0 0 1 playing v 3 (stream_for 0 1 0 3 0xFFFE) (stream_for 0 1 1 3 0xFFFE))
      (λ _ _. ⊥)
soak_ticks-Soaked_example =
    soak_ticks-Soaked os_up (λ n c bytes. refl) 0 0 1 refl 3 0xFFFE playing playing-Playing
      playing-Begun.quiet
