-- ===== src/Clients/Diff.antt =====
-- tools/server_diff.py: what is recorded of two servers, and how the records are compared.
pub mod Records
pub mod Verdicts
use fujinet_intv_golf.Base.{
  ℕ, zero, suc, ◌+◌, ◌-◌, ◌≤◌, ◌<◌, Bool, true, false, not, ◌&&◌, ◌||◌, List, [], ◌∷◌, ◌++◌, map,
  Option, none, some, ltb, leb, ◌==◌, if◌then◌else◌, length, take, drop, is_empty, same,
}
use fujinet_intv_golf.Base.Texts.{codes}
use fujinet_intv_golf.Wire.{Bytes, Text, ljust8, t_start}

-- `frame(ftype, payload)`
unfoldable pub diff_frame : ℕ → Bytes → Option Bytes
diff_frame ftype payload =
    if ltb (length payload + 1) 256 && ltb ftype 256
    then some ((length payload + 1) ∷ ftype ∷ payload)
    else none

-- The bodies of the whole frames in a buffer, and what is left of it. Each round takes a byte at
-- least, so that the buffer's length bounds the rounds.
unfoldable pub frames_from : ℕ → Bytes → List Bytes × Bytes
frames_from zero buf = ([], buf)
frames_from (suc k) [] = ([], [])
frames_from (suc k) (n ∷ rest) =
    let more = frames_from k (drop n rest) in
    if leb n (length rest) then (take n rest ∷ more.0, more.1) else ([], n ∷ rest)

unfoldable pub frames_of : Bytes → List Bytes × Bytes
unfolding frames_from
frames_of buf = frames_from (length buf) buf

-- A received frame as it is compared: the type stands for its name.
pub data Rendered : Type 0 where
  start_masked : Bytes → Rendered
  plain : ℕ → Bytes → Rendered

-- `p[lo:lo + 2] = b"\xAA\xAA"`
abbrev pub mask : ℕ → Bytes → Bytes
mask lo p = take lo p ++ (0xAA ∷ 0xAA ∷ drop (lo + 2) p)

abbrev pub seed_at : ℕ → ℕ
seed_at proto = if proto == 1 then 1 else 2

-- none is an IndexError.
unfoldable pub render : ℕ → Bytes → Option Rendered
render proto [] = none
render proto (t ∷ p) =
    some (
      if t == t_start && leb 4 (length p) then start_masked (mask (seed_at proto) p) else plain t p)

-- A line of the transcript, after its tag and label.
pub data Line : Type 0 where
  frame_line : Rendered → Line
  partial_line : Bytes → Line
  eof_line : Line

unfoldable pub line_and : Option Rendered → Option (List Line) → Option (List Line)
line_and none rest = none
line_and (some r) none = none
line_and (some r) (some rest) = some (frame_line r ∷ rest)

unfoldable pub render_all : ℕ → List Bytes → List Line → Option (List Line)
unfolding render line_and
render_all proto [] after = some after
render_all proto (body ∷ bodies) after =
    line_and (render proto body) (render_all proto bodies after)

abbrev pub after_frames : Bytes → Bool → List Line
after_frames left eof_seen =
    (if is_empty left then [] else partial_line left ∷ [])
    ++ (if eof_seen then eof_line ∷ [] else [])

-- What `sync` records of one client, once it has been drained.
unfoldable pub record_client : ℕ → Bytes → Bool → Option (List Line)
unfolding frames_of render_all
record_client proto buf eof_seen =
    render_all proto (frames_of buf).0 (after_frames (frames_of buf).1 eof_seen)

-- `normalize_log`. What a pattern of C_ONLY_LINES matches, and the substitutions, are Python's.
module _ (c_only : Text → Bool) (substitute : Text → Text) where
  unfoldable pub normalize_log : List Text → List Text × ℕ
  normalize_log [] = ([], 0)
  normalize_log (l ∷ ls) =
      let rest = normalize_log ls in
      if c_only l then (rest.0, suc rest.1) else (substitute l ∷ rest.0, rest.1)

-- `<=` on texts.
unfoldable pub before : Text → Text → Bool
before [] t = true
before (c ∷ s) [] = false
before (c ∷ s) (d ∷ t) = ltb c d || (c == d && before s t)

unfoldable pub insert_text : Text → List Text → List Text
unfolding before
insert_text x [] = x ∷ []
insert_text x (y ∷ ys) = if before x y then x ∷ y ∷ ys else y ∷ insert_text x ys

unfoldable pub sorted_texts : List Text → List Text
unfolding insert_text
sorted_texts [] = []
sorted_texts (x ∷ xs) = insert_text x (sorted_texts xs)

-- `==` on lists of texts.
unfoldable pub same_texts : List Text → List Text → Bool
same_texts [] [] = true
same_texts [] (t ∷ ts) = false
same_texts (s ∷ ss) [] = false
same_texts (s ∷ ss) (t ∷ ts) = same s t && same_texts ss ts

-- `compare`, of the records of both servers.
unfoldable pub compare : ℕ → Text → Bool → List Text → List Text → Bool
unfolding sorted_texts same_texts
compare proto name strict py c =
    if (if same name (codes "limits")
      then same_texts (sorted_texts py) (sorted_texts c)
      else same_texts py c)
    then true
    else if same name (codes "framing") && proto == 2
    then not strict
    else false

-- `ok &= compare(...)`, for each scenario; the exit status of `main`.
unfoldable pub all_pass : ℕ → Bool → List (Text × List Text × List Text) → Bool
unfolding compare
all_pass proto strict [] = true
all_pass proto strict ((name, py, c) ∷ runs) =
    compare proto name strict py c && all_pass proto strict runs

abbrev pub exit_status : ℕ → Bool → List (Text × List Text × List Text) → ℕ
exit_status proto strict runs = if all_pass proto strict runs then 0 else 1
