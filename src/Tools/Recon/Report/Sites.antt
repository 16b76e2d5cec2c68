-- ===== src/Tools/Recon/Report/Sites.antt =====
-- About `report`: each call that the ROM encodes to a routine of interest is on a line.
use fujinet_intv_golf.Base.{
  some_inj, ℕ, zero, suc, ◌+◌, ◌%◌, ◌<◌, ◌≡◌, refl, sym, ap, ap₂, ◌∙◌, subst, Bool, true, List, [],
  ◌∷◌, ◌++◌, map, Option, none, some, arith, leb, ltb, ◌==◌, ==-eq, ==-self, get_elem?, drop,
  keep_if, contains, Bool-cases, inl, inr,
}
use fujinet_intv_golf.Base.NatMap
use fujinet_intv_golf.Base.NatMap.{lookup-insert}
use fujinet_intv_golf.Base.Found.{Found, Found-left, Found-right}
use fujinet_intv_golf.Wire.{Bytes}
use fujinet_intv_golf.Tools.Recon.{Rom, words, load, Call, jsrs, Ref, refs}
use fujinet_intv_golf.Tools.Recon.Calls.{second_word, jsrs-encoded}
use fujinet_intv_golf.Tools.Recon.Names.{rng_calls, name_of, disp}
use fujinet_intv_golf.Tools.Recon.Report.{
  sites_or_empty, add_call, exec_calls_from, exec_calls, insert_by, sort_by, lines_of, call_lines,
  rng_lines, Header, TimerEntry, Report, build, header, display_state, timers_at, report_of, report,
}

-- Whether a dict of calls has a site for a target.
abbrev HasSite : ℕ → ℕ → List (ℕ × List ℕ) → Type 0
HasSite tgt site d = (sites : List ℕ) × (NatMap.lookup tgt d ≡ some sites) × Found site sites

-- The call that is added is there after it.
add_call-here :
    (base : ℕ) (c : Call) (d : List (ℕ × List ℕ))
    → c.tgt < base
    → HasSite c.tgt c.site (add_call base c d)
unfolding add_call
add_call-here base c d below =
    let is_below : ltb c.tgt base ≡ true = ground (arith, below) in
    let sites = sites_or_empty (NatMap.lookup c.tgt d) in
    (
      sites ++ c.site ∷ [],
      rw is_below (lookup-insert c.tgt c.tgt (sites ++ c.site ∷ []) d ∙ (rw (==-self c.tgt) refl)),
      Found-right c.site sites (c.site ∷ []) (0, refl),
    )

-- A site stays.
add_call-HasSite :
    (base : ℕ) (c : Call) (d : List (ℕ × List ℕ)) (tgt site : ℕ)
    → HasSite tgt site d
    → HasSite tgt site (add_call base c d)
unfolding add_call sites_or_empty
add_call-HasSite base c d tgt site (sites, e, found) = elim (Bool-cases (ltb c.tgt base)) [
  | inr f ↦ rw f (sites, e, found)
  | inl f ↦
      let old = sites_or_empty (NatMap.lookup c.tgt d) in
      let inserted = lookup-insert c.tgt tgt (old ++ c.site ∷ []) d in
      rw f (elim (Bool-cases (c.tgt == tgt)) [
        | inr g ↦ (sites, inserted ∙ (rw g e), found)
        | inl g ↦
            let same_tgt : c.tgt ≡ tgt = ==-eq c.tgt tgt g in
            let old_sites : old ≡ sites =
              ap (λ t. sites_or_empty (NatMap.lookup t d)) same_tgt ∙ ap sites_or_empty e in
            (
              old ++ c.site ∷ [],
              inserted ∙ (rw g refl),
              Found-left site old (c.site ∷ []) (subst (Found site) (sym old_sites) found),
            )
      ])
]

exec_calls_from-keeps :
    (base : ℕ) (cs : List Call) (d : List (ℕ × List ℕ)) (tgt site : ℕ)
    → HasSite tgt site d
    → HasSite tgt site (exec_calls_from base cs d)
unfolding exec_calls_from
exec_calls_from-keeps base [] d tgt site h = h
exec_calls_from-keeps base (c ∷ cs) d tgt site h =
    exec_calls_from-keeps base cs (add_call base c d) tgt site
      (add_call-HasSite base c d tgt site h)

exec_calls_from-HasSite :
    (base : ℕ) (cs : List Call) (d : List (ℕ × List ℕ)) (c : Call)
    → Found c cs
    → c.tgt < base
    → HasSite c.tgt c.site (exec_calls_from base cs d)
unfolding exec_calls_from
exec_calls_from-HasSite base [] d c (k, e) below = absurd (cc)
exec_calls_from-HasSite base (x ∷ cs) d c (zero, e) below =
    let same_call : x ≡ c = cc in
    let here = add_call-here base c d below in
    exec_calls_from-keeps base cs (add_call base x d) c.tgt c.site
      (subst (λ y. HasSite c.tgt c.site (add_call base y d)) (sym same_call) here)
exec_calls_from-HasSite base (x ∷ cs) d c (suc k, e) below =
    exec_calls_from-HasSite base cs (add_call base x d) c (k, e) below

Found-keep_if {ℓ} :
    {A : Type ℓ}
    → (p : A → Bool) (x : A) (xs : List A) → p x ≡ true
    → Found x xs
    → Found x (keep_if p xs)
Found-keep_if p x [] ok h = h
Found-keep_if p x (y ∷ xs) ok (zero, e) =
    let same_x : y ≡ x = cc in let kept : p y ≡ true = rw same_x ok in rw kept (0, e)
Found-keep_if p x (y ∷ xs) ok (suc k, e) =
    let (n, f) = Found-keep_if p x xs ok (k, e) in
    elim (Bool-cases (p y)) [ inl g ↦ rw g (suc n, f) | inr g ↦ rw g (n, f) ]

insert_by-here :
    {A : Type 0} → (before : A → A → Bool) (x : A) (xs : List A) → Found x (insert_by before x xs)
unfolding insert_by
insert_by-here before x [] = (0, refl)
insert_by-here before x (y ∷ ys) = elim (Bool-cases (before x y)) [
  | inl e ↦ rw e (0, refl)
  | inr e ↦ let (k, f) = insert_by-here before x ys in rw e (suc k, f)
]

insert_by-Found :
    {A : Type 0}
    → (before : A → A → Bool) (x z : A) (xs : List A) → Found z xs
    → Found z (insert_by before x xs)
unfolding insert_by
insert_by-Found before x z [] (k, e) = absurd (cc)
insert_by-Found before x z (y ∷ ys) (zero, e) = elim (Bool-cases (before x y)) [
  | inl f ↦ rw f (1, e)
  | inr f ↦ rw f (0, e)
]
insert_by-Found before x z (y ∷ ys) (suc k, e) = elim (Bool-cases (before x y)) [
  | inl f ↦ rw f (suc (suc k), e)
  | inr f ↦ let (n, g) = insert_by-Found before x z ys (k, e) in rw f (suc n, g)
]

sort_by-Found :
    {A : Type 0}
    → (before : A → A → Bool) (z : A) (xs : List A) → Found z xs
    → Found z (sort_by before xs)
unfolding sort_by
sort_by-Found before z [] h = h
sort_by-Found before z (x ∷ xs) (zero, e) =
    let same_x : x ≡ z = cc in
    subst (λ y. Found z (insert_by before y (sort_by before xs))) (sym same_x)
      (insert_by-here before z (sort_by before xs))
sort_by-Found before z (x ∷ xs) (suc k, e) =
    insert_by-Found before x z (sort_by before xs) (sort_by-Found before z xs (k, e))

-- An entry of a dict.
lookup-Found :
    (tgt : ℕ) (sites : List ℕ) (d : List (ℕ × List ℕ))
    → NatMap.lookup tgt d ≡ some sites
    → Found (tgt, sites) d
unfolding NatMap.lookup
lookup-Found tgt sites [] e = absurd (cc)
lookup-Found tgt sites ((j, v) ∷ d) e = elim (Bool-cases (j == tgt)) [
  | inl f ↦ (0, ap₂ (λ x y. some (x, y)) (==-eq j tgt f) (some_inj (rw f at e)))
  | inr f ↦ let (k, g) = lookup-Found tgt sites d (rw f at e) in (suc k, g)
]

Found-map {ℓ κ} :
    {A : Type ℓ} {B : Type κ}
    → (f : A → B) (x : A) (xs : List A) → Found x xs
    → Found (f x) (map f xs)
Found-map f x [] (k, e) = absurd (cc)
Found-map f x (y ∷ xs) (zero, e) = (0, ap some (ap f (some_inj e)))
Found-map f x (y ∷ xs) (suc k, e) = let (n, g) = Found-map f x xs (k, e) in (suc n, g)

call_lines-Found :
    (tgt site : ℕ) (sites : List ℕ) (d : List (ℕ × List ℕ))
    → Found (tgt, sites) d
    → Found site sites
    → Found (site, tgt, name_of tgt) (call_lines d)
unfolding call_lines
call_lines-Found tgt site sites [] (k, e) h = absurd (cc)
call_lines-Found tgt site sites ((j, v) ∷ d) (zero, e) h =
    let same_tgt : j ≡ tgt = ap (λ p. p.0) (some_inj e) in
    let same_sites : v ≡ sites = ap (λ p. p.1) (some_inj e) in
    Found-left (site, tgt, name_of tgt) (lines_of j v) (call_lines d)
      (subst (λ t. Found (site, tgt, name_of tgt) (lines_of t v)) (sym same_tgt)
        (subst (λ xs. Found (site, tgt, name_of tgt) (lines_of tgt xs)) (sym same_sites)
          (Found-map (λ s. (s, tgt, name_of tgt)) site sites h)))
call_lines-Found tgt site sites ((j, v) ∷ d) (suc k, e) h =
    Found-right (site, tgt, name_of tgt) (lines_of j v) (call_lines d)
      (call_lines-Found tgt site sites d (k, e) h)

rng_lines-Found :
    (tgt site : ℕ) (d : List (ℕ × List ℕ))
    → contains rng_calls tgt ≡ true
    → HasSite tgt site d
    → Found (site, tgt, name_of tgt) (rng_lines d)
unfolding rng_lines
rng_lines-Found tgt site d is_rng (sites, e, h) =
    let kept = keep_if (λ (x : ℕ × List ℕ). contains rng_calls x.0) d in
    call_lines-Found tgt site sites (sort_by (λ x y. leb x.0 y.0) kept)
      (sort_by-Found (λ x y. leb x.0 y.0) (tgt, sites) kept
        (Found-keep_if (λ (x : ℕ × List ℕ). contains rng_calls x.0) (tgt, sites) d is_rng
          (lookup-Found tgt sites d e)))
      h

report_of_rng :
    (rom : Rom) (o : Option Header) (p : Option (List (ℕ × ℕ × List ℕ)))
    (q : Option (Option (List TimerEntry))) (r : Option (List Ref)) (out : Report)
    → report_of rom o p q r ≡ some out
    → out.rng ≡ rng_lines (exec_calls rom)
unfolding report_of build
report_of_rng rom none p q r out e = absurd (cc)
report_of_rng rom (some h) none q r out e = absurd (cc)
report_of_rng rom (some h) (some vs) none r out e = absurd (cc)
report_of_rng rom (some h) (some vs) (some table) none out e = absurd (cc)
report_of_rng rom (some h) (some vs) (some table) (some found) out e =
    sym (ap (λ x. x.rng) (some_inj e))

-- If a report is made, of an image that lies above a routine that makes random numbers, then each
-- call to the routine that the words of the image encode is on a line of the report, with the address
-- of the call, that of the routine, and its name.
pub report_rng :
    (image : Bytes) (base : ℕ) (out : Report) (i r tgt ff : ℕ) (rest : List ℕ)
    → report image base ≡ some out
    → drop i (words image) ≡ 4 ∷ second_word r tgt ff ∷ tgt % 1024 ∷ rest
    → r < 4
    → ff < 4
    → contains rng_calls tgt ≡ true
    → tgt < base
    → (k : ℕ) × (get_elem? out.rng k ≡ some (base + i, tgt, name_of tgt))
unfolding report exec_calls
report_rng image base out i r tgt ff rest made encoded hr hf is_rng below =
    let rom = load image base in
    let small : tgt < 65536 = ground (arith, is_rng) in
    let lines = rng_lines-Found tgt (base + i) (exec_calls rom) is_rng (
      exec_calls_from-HasSite base (jsrs rom) []
        (record { site = base + i; reg = 4 + r; tgt = tgt })
        (jsrs-encoded rom i r tgt ff rest encoded hr small hf) below) in
    let shown =
      report_of_rng rom (header rom) (display_state rom disp) (timers_at rom (header rom))
        (refs rom) out made in
    subst (Found (base + i, tgt, name_of tgt)) (sym shown) lines
