-- ===== src/Evidence/Contract/Outcome.antt =====
-- How a branch ends.
use torq_cli_python.Prelude.{◌≡◌, refl, subst, Bool, true, false, if◌then◌else◌}
use torq_cli_python.Evidence.Finding.{Finding}
use torq_cli_python.Evidence.Contract.State.{State}

pub data Outcome : Type 0 where
  go_on : State → Outcome
  stop : Finding → Outcome

-- `if test: return finding`
abbrev pub stop_if : Bool → Finding → Outcome → Outcome
stop_if b f rest = if b then stop f else rest

-- What holds of the state that a branch goes on with, if it does.
abbrev pub Ends {ℓ} : (State → Type ℓ) → Outcome → Type ℓ
Ends P (go_on s) = P s
Ends P (stop f) = Unit

Ends-stop_if {ℓ} :
    (P : State → Type ℓ) (b : Bool) (f : Finding) (o : Outcome)
    → (b ≡ false → Ends P o)
    → Ends P (stop_if b f o)
Ends-stop_if P true f o h = tt
Ends-stop_if P false f o h = h refl

pub Ends-go_on {ℓ} : (P : State → Type ℓ) (o : Outcome) (s : State) → Ends P o → o ≡ go_on s → P s
Ends-go_on P (go_on t) s h e = subst P (cc) h
Ends-go_on P (stop f) s h e = cc

pub Ends-map {ℓ κ} :
    (P : State → Type ℓ) (Q : State → Type κ) (o : Outcome)
    → ((s : State) → P s → Q s)
    → Ends P o
    → Ends Q o
Ends-map P Q (go_on s) f h = f s h
Ends-map P Q (stop x) f h = tt

-- Three tests in a row.
pub Ends-stop_if_thrice {ℓ} :
    (P : State → Type ℓ) (a b c : Bool) (f g h : Finding) (o : Outcome)
    → Ends P o
    → Ends P (stop_if a f (stop_if b g (stop_if c h o)))
Ends-stop_if_thrice P a b c f g h o e =
    Ends-stop_if P a f _ λ _. Ends-stop_if P b g _ λ _. Ends-stop_if P c h o λ _. e
