-- ===== src/Accounting/Enrollment.antt =====
-- The other rows of the registry: enrolled runs and changes of trust (`enroll`, `bind_run`,
-- `set_root_trust`, `enroll_legacy`), and the new anchor of `reanchor`.
pub mod Again
mod Tests
use torq_cli_python.Prelude.{
  ℕ, String, ◌==◌, Bool, true, false, ◌&&◌, ◌||◌, not, Option, none, some, List, [], ◌∷◌, ltb, eqb,
  elem, length, if◌then◌else◌,
}
use torq_cli_python.Dict.{Dict}
use torq_cli_python.Json.{str, Fields, no_fields, field, get, is_text}
use torq_cli_python.Entitlements.{PlanWindow}
use torq_cli_python.Accounting.Journal.{
  read_lines, RegistryError, Checked, raises, returns, and_then, Keys, Journal, anchor,
  verify_journal, verify_rows, append_locked, new_anchor, zero_hash,
}

-- What these methods raise.
pub data EnrollError : Type 0 where
  registry_refused : RegistryError → EnrollError
  registry_run_id_required registry_root_trust_status_invalid : EnrollError
  registry_root_trust_change_invalid registry_reanchor_confirmation_required : EnrollError
  registry_reanchor_quarantine_limit_exceeded : EnrollError

-- A registry's journal, with the error a method raised after it wrote it.
abbrev pub Written : Type 0
Written = Journal × Option EnrollError

abbrev written : Journal → Checked Journal → Written
written j (raises e) = (j, some (registry_refused e))
written j (returns j') = (j', none)

-- The row that says that a run is enrolled in a window.
abbrev pub is_enrollment : String → String → String → Fields → Bool
is_enrollment run account resets r =
    is_text "run_enrolled" (get "event" r)
    && (is_text run (get "run_id" r)
        && (is_text account (get "account" r) && is_text resets (get "resets_at" r)))

unfoldable pub any_enrollment : String → String → String → List Fields → Bool
any_enrollment run account resets [] = false
any_enrollment run account resets (r ∷ rs) =
    is_enrollment run account resets r || any_enrollment run account resets rs

-- `root_key_id or self.root_key_id`
abbrev pub root_or : Option String → String → String
root_or none own = own
root_or (some root) own = if root == "" then own else root

unfoldable pub enrollment : String → String → String → String → String → Fields
enrollment run account resets root entry = field "event" (str "run_enrolled") (
    field "entry_id" (str entry) (
      field "account" (str account) (
        field "run_id" (str run)
          (field "root_key_id" (str root) (field "resets_at" (str resets) no_fields)))))

abbrev pub append_new : Keys → Fields → String → Journal → Bool → Checked Journal
append_new k event now j known = if known then returns j else append_locked k now event j

-- `enroll`; `entry` and `now` are the id and the time of the row that it appends.
unfoldable pub enroll :
    Keys → String → String → String → Option String → String → String → Journal → Checked Journal
enroll k run account resets root entry now j = and_then k (verify_journal k j) (λ rows.
    append_new k (enrollment run account resets (root_or root k.key_id) entry) now j
      (any_enrollment run account resets rows))

-- The loop of `bind_run`, with the id and the time of the row for each account.
unfoldable pub enroll_all :
    Keys → String → (String → String × String) → Dict PlanWindow → Journal → Written
enroll_all k run stamp [] j = (j, none)
enroll_all k run stamp ((account, w) ∷ ws) j =
    elim (if w.settlement == "plan_covered"
      then enroll k run w.account w.resets_at none (stamp account).0 (stamp account).1 j
      else returns j) [
        | raises e ↦ (j, some (registry_refused e))
        | returns j' ↦ enroll_all k run stamp ws j'
      ]

-- `bind_run`: the run that is bound afterwards, and the journal.
unfoldable pub bind_run :
    Keys
    → Dict PlanWindow
    → String
    → (String → String × String)
    → Option String
    → Journal
    → Option String × Written
bind_run k ws run stamp before j =
    if run == ""
    then (before, (j, some registry_run_id_required))
    else (some run, enroll_all k run stamp ws j)

-- The root's own public key, the SHA-256 of a key in hex, and the hex text of a key.
pub record Root : Type 0 where
  pub keys : Keys
  pub own_key : List ℕ
  pub fingerprint : List ℕ → String
  pub hex : List ℕ → String

-- `public_key or (self.public_key if subject_root_key_id == self.root_key_id else None)`
abbrev resolved : Root → String → Option (List ℕ) → Option (List ℕ)
resolved w subject (some (b ∷ bs)) = some (b ∷ bs)
resolved w subject _ = if subject == w.keys.key_id then some w.own_key else none

trust_change : Root → String → String → String → List ℕ → String → Fields
trust_change w subject status actor key entry = field "event" (str "root_trust_changed") (
    field "entry_id" (str entry) (
      field "subject_root_key_id" (str subject) (
        field "trust_status" (str status)
          (field "public_key" (str (w.hex key)) (field "actor" (str actor) no_fields)))))

abbrev change_trust :
    Root → String → String → String → String → String → Journal → Option (List ℕ) → Written
change_trust w subject status actor entry now j none = (j, some registry_root_trust_change_invalid)
change_trust w subject status actor entry now j (some key) =
    if subject == ""
      || (actor == "" || (not (eqb (length key) 32) || not (w.fingerprint key == subject)))
    then (j, some registry_root_trust_change_invalid)
    else written j (append_locked w.keys now (trust_change w subject status actor key entry) j)

unfoldable pub set_root_trust :
    Root → String → String → String → Option (List ℕ) → String → String → Journal → Written
unfolding trust_change
set_root_trust w subject status actor key entry now j =
    if not (elem status ("active" ∷ "trusted_legacy" ∷ "distrusted" ∷ []))
    then (j, some registry_root_trust_status_invalid)
    else change_trust w subject status actor entry now j (resolved w subject key)

abbrev enroll_after : Root → String → String → String → String → String → String → Written → Written
enroll_after w run account resets root entry now (j, some e) = (j, some e)
enroll_after w run account resets root entry now (j, none) =
    written j (enroll w.keys run account resets (some root) entry now j)

-- `enroll_legacy`, with the ids and the times of its two rows.
unfoldable pub enroll_legacy :
    Root
    → String
    → String
    → String
    → List ℕ
    → String
    → String × String
    → String × String
    → Journal
    → Written
enroll_legacy w run account resets key actor (trust_id, then_at) (entry, now) j =
    enroll_after w run account resets (w.fingerprint key) entry now
      (set_root_trust w (w.fingerprint key) "trusted_legacy" actor (some key) trust_id then_at j)

-- The anchor for rows with this head, within the limit on quarantined rows.
abbrev pub anchored : Keys → ℕ → Journal → List Fields → Checked String → Written
anchored k limit j rows (raises e) = (j, some (registry_refused e))
anchored k limit j rows (returns head) =
    if ltb limit (length rows)
    then (j, some registry_reanchor_quarantine_limit_exceeded)
    else (record j { head = anchor (new_anchor k (length rows) head) }, none)

abbrev pub anchored_read : Keys → ℕ → Journal → Checked (List Fields) → Written
anchored_read k limit j (raises e) = (j, some (registry_refused e))
anchored_read k limit j (returns rows) = anchored k limit j rows (verify_rows k 1 zero_hash rows)

-- `reanchor`: the journal that it leaves. The record of the old anchor goes to another file.
unfoldable pub reanchor : Keys → String → String → ℕ → Journal → Written
reanchor k actor confirmation limit j =
    if actor == "" || confirmation == ""
    then (j, some registry_reanchor_confirmation_required)
    else anchored_read k limit j (read_lines k j.file)
