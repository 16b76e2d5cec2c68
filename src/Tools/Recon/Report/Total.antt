-- ===== src/Tools/Recon/Report/Total.antt =====
-- About `report`: it fails only for an image that is too short.
use mathlib.Core.Option
use fujinet_intv_golf.Base.{
  ℕ, suc, ◌+◌, ◌-◌, ◌≤◌, ◌<◌, ◌≡◌, ◌↔◌, refl, ap, ap₂, ◌∙◌, true, List, [], ◌∷◌, Option, none, some,
  arith, leb, ltb, All, length, get_elem?, get_elem?-ge, Bool-cases, inl, inr,
}
use fujinet_intv_golf.Wire.{Bytes}
use fujinet_intv_golf.Tools.Recon.{Rom, Ref, words, load, has, word_at, refs}
use fujinet_intv_golf.Tools.Recon.Refs.{refs_total}
use fujinet_intv_golf.Tools.Recon.Names.{disp}
use fujinet_intv_golf.Tools.Recon.Report.{
  Header, header_of, header, cons_ok, display_line, display_state, TimerEntry, timer_table, Report,
  build, report_of, timers_at, report,
}
use fujinet_intv_golf.Tools.Recon.Report.Walk.{has-ge, word_at-some, ptr-some, walk_total}

timer_table_total :
    (rom : Rom) (tbl : ℕ)
    → rom.end_addr ≡ rom.base + length rom.w
    → (table : Option (List TimerEntry)) × (timer_table rom tbl ≡ some table)
unfolding timer_table
timer_table_total rom tbl at_end = elim (Bool-cases (has rom tbl)) [
  | inr e ↦ (none, rw e refl)
  | inl e ↦
      let (es, f) =
        walk_total rom (suc (length rom.w)) tbl 0 at_end (ground (arith, e)) (ground (arith, e))
          (omega (arith, at_end, has-ge rom tbl e)) in
      (some es, rw e (ap (Option.map (λ xs. some xs)) f))
]

timers_at_total :
    (rom : Rom) (o : Option Header)
    → rom.end_addr ≡ rom.base + length rom.w
    → (h : Header) × (o ≡ some h)
    → (table : Option (List TimerEntry)) × (timers_at rom o ≡ some table)
unfolding timers_at
timers_at_total rom o at_end (h, e) =
    let (table, f) = timer_table_total rom h.tbl at_end in (table, ap (timers_at rom) e ∙ f)

header_total : (rom : Rom) → 20 ≤ length rom.w → (h : Header) × (header rom ≡ some h)
unfolding header header_of
header_total rom enough =
    let (tbl, p) = ptr-some rom (rom.base + 2) (omega arith) (omega arith) in
    let (start, q) = ptr-some rom (rom.base + 4) (omega arith) (omega arith) in
    let (gram, r) = ptr-some rom (rom.base + 8) (omega arith) (omega arith) in
    (record { tbl = tbl; start = start; gram = gram }, rw (p, q, r) refl)

display_state_total :
    (rom : Rom) (offs : List (ℕ × List ℕ))
    → All (λ (e : ℕ × List ℕ). e.0 < length rom.w) offs
    → (shown : List (ℕ × ℕ × List ℕ)) × (display_state rom offs ≡ some shown)
unfolding display_state cons_ok display_line
display_state_total rom [] inside = ([], refl)
display_state_total rom ((off, what) ∷ offs) (here, others) =
    let (v, e) = word_at-some rom (rom.base + off) (omega arith) (omega arith) in
    let (vs, f) = display_state_total rom offs others in
    (
      (rom.base + off, v, what) ∷ vs,
      ap₂ (λ o r. cons_ok (display_line (rom.base + off) what o) r) e f,
    )

report_of-some :
    (rom : Rom) (o : Option Header) (p : Option (List (ℕ × ℕ × List ℕ)))
    (q : Option (Option (List TimerEntry))) (r : Option (List Ref))
    → (h : Header) × (o ≡ some h)
    → (vs : List (ℕ × ℕ × List ℕ)) × (p ≡ some vs)
    → (table : Option (List TimerEntry)) × (q ≡ some table)
    → (found : List Ref) × (r ≡ some found)
    → (out : Report) × (report_of rom o p q r ≡ some out)
unfolding report_of
report_of-some rom none p q r (h, e) a b c = absurd (cc)
report_of-some rom (some h) none q r a (vs, e) b c = absurd (cc)
report_of-some rom (some h) (some vs) none r a b (table, e) c = absurd (cc)
report_of-some rom (some h) (some vs) (some table) none a b c (found, e) = absurd (cc)
report_of-some rom (some h) (some vs) (some table) (some found) a b c d =
    (build rom h vs table found, refl)

disp_inside : (rom : Rom) → 20 ≤ length rom.w → All (λ (e : ℕ × List ℕ). e.0 < length rom.w) disp
disp_inside rom enough = (
  omega arith,
  (omega arith, (omega arith, (omega arith, (omega arith, (omega arith, (omega arith, tt)))))),
)

cons_ok_parts :
    {A : Type 0}
    → (o : Option A) (rest : Option (List A)) (xs : List A) → cons_ok o rest ≡ some xs
    → ((x : A) × (o ≡ some x)) × ((ys : List A) × (rest ≡ some ys))
unfolding cons_ok
cons_ok_parts none rest xs e = absurd (cc)
cons_ok_parts (some x) none xs e = absurd (cc)
cons_ok_parts (some x) (some ys) xs e = ((x, refl), (ys, refl))

word_at-lt : (rom : Rom) (off v : ℕ) → word_at rom (rom.base + off) ≡ some v → off < length rom.w
unfolding word_at
word_at-lt rom off v e =
    let after : leb rom.base (rom.base + off) ≡ true = ground arith in
    let back : rom.base + off - rom.base ≡ off = omega arith in
    let there : get_elem? rom.w off ≡ some v = rw back at rw after at e in
    elim (Bool-cases (ltb off (length rom.w))) [
      | inl f ↦ ground (arith, f)
      | inr f ↦ absurd (cc (get_elem?-ge rom.w off (ground (arith, f)), there))
    ]

display_line-some :
    (addr : ℕ) (what : List ℕ) (o : Option ℕ) (line : ℕ × ℕ × List ℕ)
    → display_line addr what o ≡ some line
    → (v : ℕ) × (o ≡ some v)
unfolding display_line
display_line-some addr what none line e = absurd (cc)
display_line-some addr what (some v) line e = (v, refl)

-- What is shown was there.
display_state-lt :
    (rom : Rom) (offs : List (ℕ × List ℕ)) (vs : List (ℕ × ℕ × List ℕ))
    → display_state rom offs ≡ some vs
    → All (λ (e : ℕ × List ℕ). e.0 < length rom.w) offs
unfolding display_state
display_state-lt rom [] vs e = tt
display_state-lt rom ((off, what) ∷ offs) vs e =
    let ((line, p), (ws, q)) =
      cons_ok_parts (display_line (rom.base + off) what (word_at rom (rom.base + off)))
        (display_state rom offs) vs e in
    let (v, f) = display_line-some (rom.base + off) what (word_at rom (rom.base + off)) line p in
    (word_at-lt rom off v f, display_state-lt rom offs ws q)

report_of_shown :
    (rom : Rom) (o : Option Header) (p : Option (List (ℕ × ℕ × List ℕ)))
    (q : Option (Option (List TimerEntry))) (r : Option (List Ref)) (out : Report)
    → report_of rom o p q r ≡ some out
    → (vs : List (ℕ × ℕ × List ℕ)) × (p ≡ some vs)
unfolding report_of
report_of_shown rom none p q r out e = absurd (cc)
report_of_shown rom (some h) none q r out e = absurd (cc)
report_of_shown rom (some h) (some vs) q r out e = (vs, refl)

-- The report is made, without an exception, exactly for the images of at least 20 words, wherever
-- they are loaded and whatever they hold.
pub report_total :
    (image : Bytes) (base : ℕ)
    → ((out : Report) × (report image base ≡ some out)) ↔ (20 ≤ length (words image))
unfolding report
report_total image base =
    let rom = load image base in
    (
      λ made.
          let (vs, shown) =
            report_of_shown rom (header rom) (display_state rom disp) (timers_at rom (header rom))
              (refs rom) made.0 made.1 in
          let inside = display_state-lt rom disp vs shown in omega (arith, inside.1.1.1.1.1.1.0),
      λ enough.
          report_of-some rom (header rom) (display_state rom disp) (timers_at rom (header rom))
            (refs rom) (header_total rom enough)
            (display_state_total rom disp (disp_inside rom enough))
            (timers_at_total rom (header rom) refl (header_total rom enough)) (refs_total rom),
    )
