-- ===== src/Relay/Outcome.antt =====
-- What a method call does to the server: it returns, or raises with the state as it was then, or
-- the model's bound on nested calls ran out.
use fujinet_intv_golf.Base.{ℕ}

-- The messages of `ProtocolError`.
pub data Reason : Type 0 where
  short_hello bad_name join_before_hello : Reason
  wrong_version unknown_type : ℕ → Reason

-- `ProtocolError`, and what the Python code would raise if a value were out of its range.
pub data Exn : Type 0 where
  protocol_error : Reason → Exn
  attribute_error unicode_error value_error assertion_error os_error : Exn

pub data Outcome {ℓ κ} (W : Type ℓ) (A : Type κ) : Type (ℓ ⊔ κ) where
  returned : A → W → Outcome W A
  raised : Exn → W → Outcome W A
  out_of_fuel : Outcome W A

module _ {ℓ} {W : Type ℓ} where
  abbrev pub and_then {κ μ} :
      {A : Type κ} {B : Type μ} → Outcome W A → (A → W → Outcome W B) → Outcome W B
  and_then (returned a w) f = f a w
  and_then (raised e w) f = raised e w
  and_then out_of_fuel f = out_of_fuel

  -- Total correctness: the call ends, by a return that satisfies `Q` or by a raise that
  -- satisfies `E`.
  abbrev pub Ends {κ} : {A : Type κ} → Outcome W A → (A → W → Type 0) → (Exn → W → Type 0) → Type 0
  Ends (returned a w) Q E = Q a w
  Ends (raised e w) Q E = E e w
  Ends out_of_fuel Q E = ⊥

  pub Ends-and_then {κ μ} :
      {A : Type κ} {B : Type μ} (o : Outcome W A) (f : A → W → Outcome W B) (P : A → W → Type 0)
      (Q : B → W → Type 0) (E : Exn → W → Type 0)
      → Ends o P E
      → ((a : A) (w : W) → P a w → Ends (f a w) Q E)
      → Ends (and_then o f) Q E
  Ends-and_then (returned a w) f P Q E h k = k a w h
  Ends-and_then (raised e w) f P Q E h k = h
  Ends-and_then out_of_fuel f P Q E h k = h

  pub Ends-weaken {κ} :
      {A : Type κ} (o : Outcome W A) (P Q : A → W → Type 0) (D E : Exn → W → Type 0)
      → Ends o P D
      → ((a : A) (w : W) → P a w → Q a w)
      → ((e : Exn) (w : W) → D e w → E e w)
      → Ends o Q E
  Ends-weaken (returned a w) P Q D E h q e = q a w h
  Ends-weaken (raised x w) P Q D E h q e = e x w h
  Ends-weaken out_of_fuel P Q D E h q e = h

  pub Ends-both {κ} :
      {A : Type κ} (o : Outcome W A) (P Q : A → W → Type 0) (D E : Exn → W → Type 0)
      → Ends o P D
      → Ends o Q E
      → Ends o (λ a w. P a w × Q a w) (λ e w. D e w × E e w)
  Ends-both (returned a w) P Q D E p q = (p, q)
  Ends-both (raised x w) P Q D E p q = (p, q)
  Ends-both out_of_fuel P Q D E p q = p
