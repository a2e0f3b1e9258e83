-- ===== src/XInactivation/Wrapper.antt =====
-- x-inactivation/main.go: which allele a component expresses, the version that Xm emulates, and what
-- follows when the component's process ends.
pub mod Exits
pub mod Supervise
pub mod Emulation
pub mod Settings
use kyvernetria.XInactivation.Disk.{Allele, xm, xp, allele_text, Disk}
use kyvernetria.XInactivation.Cell.{Cell, Os, Outcome}
use kyvernetria.XInactivation.Crash.{record_crash}
use kyvernetria.XInactivation.Start.{
  StartError, StartOs, Phase, fresh, picked, lost, ended, starts, refuses, expressed,
}
use kyvernetria.Prelude.Int.{ℤ}
use kyvernetria.Text.{Text, codes, text_eq}
use kyvernetria.Text.Fields.{trim_space}
use kyvernetria.Text.Decimal.{parse_int}
use kyvernetria.Text.Split.{split, has_prefix}
use kyvernetria.Prelude.{
  ℕ, Bool, true, false, not, ◌||◌, List, [], ◌∷◌, ◌++◌, String, Option, none, some, ◌==◌, leb,
  if◌then◌else◌, str_eq, any,
}

-- The only component that follows the node's allele.
abbrev pub mosaic : String
mosaic = "kube-apiserver"

-- os.Getenv: "" for a variable that is not set.
abbrev pub Env : Type 0
Env = String → Text

pub record Wrapper : Type 0 where
  pub component : String
  pub cell : Cell
  pub pinned : Bool
  pub min_uptime : ℕ

pub data ChooseError : Type 0 where
  bad_pin : Text → ChooseError
  no_state : StartError → ChooseError

-- The allele and whether it is pinned, or why the component refuses to start.
pub data Choice : Type 0 where
  expresses : Allele → Bool → Choice
  declines : ChooseError → Choice

abbrev pub pin : Text → Choice
pin t =
    if text_eq t (allele_text xm)
    then expresses xm true
    else (if text_eq t (allele_text xp) then expresses xp true else declines (bad_pin t))

-- What Expressed returned; its last phase is an end.
abbrev pub choice_of : Phase → Option Choice
choice_of fresh = none
choice_of (picked p) = none
choice_of lost = none
choice_of (ended (starts a first)) = some (expresses a false)
choice_of (ended (refuses e)) = some (declines (no_state e))

unfoldable pub choose :
    Env → String → StartOs → (Disk → Disk) → (Disk → Disk) → Disk → Disk × Option Choice
unfolding expressed allele_text
choose env component os mid late d =
    if not (text_eq (env "KYVERNETRIA_ALLELE") [])
    then (d, some (pin (env "KYVERNETRIA_ALLELE")))
    else (if not (str_eq component mosaic)
        then (d, some (expresses xp false))
        else (let (e, p) = expressed os mid late d in (e, choice_of p)))

-- Why there is no version to emulate.
pub data MinorError : Type 0 where
  no_minor_file : MinorError
  not_major_minor : Text → MinorError

pub data Result {ℓ κ} (E : Type ℓ) (A : Type κ) : Type (ℓ ⊔ κ) where
  ok : A → Result E A
  err : E → Result E A

abbrev pub is_number : Option ℤ → Bool
is_number none = false
is_number (some n) = true

-- Two parts, each of which strconv.Atoi accepts.
abbrev pub two_numbers : List Text → Bool
two_numbers [] = false
two_numbers (a ∷ []) = false
two_numbers (a ∷ b ∷ []) = if is_number (parse_int a) then is_number (parse_int b) else false
two_numbers (a ∷ b ∷ c ∷ parts) = false

unfoldable pub checked_minor : Text → Result MinorError Text
unfolding split parse_int
checked_minor v = if two_numbers (split b'.' v) then ok v else err (not_major_minor v)

-- `file` is what os.ReadFile gives for the file that hack/build.sh bakes in.
unfoldable pub xp_minor : Env → Option Text → Result MinorError Text
unfolding checked_minor
xp_minor env file =
    if text_eq (env "KYVERNETRIA_XP_MINOR") []
    then (elim file [ none ↦ err no_minor_file | some t ↦ checked_minor (trim_space t) ])
    else checked_minor (env "KYVERNETRIA_XP_MINOR")

abbrev pub emulated_flag : Text
emulated_flag = codes "--emulated-version"

abbrev pub emulated_prefix : Text
emulated_prefix = codes "--emulated-version="

unfoldable pub is_emulation : Text → Bool
unfolding has_prefix
is_emulation a = text_eq a emulated_flag || has_prefix a emulated_prefix

unfoldable pub with_emulation : Env → Option Text → List Text → Result MinorError (List Text)
unfolding is_emulation
with_emulation env file args =
    if any is_emulation args then ok args else (elim (xp_minor env file) [
      | err e ↦ err e
      | ok minor ↦ ok (args ++ (emulated_prefix ++ minor) ∷ [])
    ])

-- The arguments that the component is run with.
unfoldable pub arguments :
    Env → Option Text → String → Allele → List Text → Result MinorError (List Text)
unfolding with_emulation
arguments env file component xm args =
    if str_eq component mosaic then with_emulation env file args else ok args
arguments env file component xp args = ok args

-- An exit is recorded as a crash only past all five guards.
unfoldable pub exited : Wrapper → Os → Allele → ℕ → ℕ → Bool → ℕ → Disk → Option Outcome
unfolding record_crash
exited w os allele code ran stopping now d =
    if code == 0
    then none
    else (if stopping
        then none
        else (if leb w.min_uptime ran
            then none
            else (if not (str_eq w.component mosaic)
                then none
                else (if w.pinned
                    then none
                    else some (record_crash w.cell os w.component allele now d)))))
