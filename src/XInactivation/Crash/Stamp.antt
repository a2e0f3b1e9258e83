-- ===== src/XInactivation/Crash/Stamp.antt =====
-- The last-escape file: what RecordCrash writes there, escapeBlocked reads back.
use kyvernetria.XInactivation.Disk.{Disk, holds}
use kyvernetria.XInactivation.Cell.{
  Cell, second, cooling_since, cooling_at, escape_blocked, stamp_text,
}
use kyvernetria.Prelude.Int.{pos}
use kyvernetria.Text.{Text, text_eq, text_eq_refl}
use kyvernetria.Text.Fields.{
  is_space, IsWord, fields, fields-word, fields-nil, newline-is_space, space-is_space,
}
use kyvernetria.Text.Decimal.{format_nat, format_nat-IsNumeral, parse_int-format_nat}
use kyvernetria.Prelude.{
  ℕ, ◌-◌, ◌*◌, ◌/◌, ◌<◌, ◌≤◌, ◌≡◌, ◌≢◌, refl, sym, ap, ◌∙◌, true, false, [], ◌∷◌, ◌++◌, none, some,
  arith, ◌⊎◌, inl, inr,
}

-- A kernel's boot id is a word.
abbrev pub IsBootId : Text → Type 0
IsBootId b = (b ≢ []) × IsWord b

fields-numeral :
    (n : ℕ) (sp : ℕ) (rest : Text)
    → is_space sp ≡ true
    → fields (format_nat n ++ sp ∷ rest) ≡ format_nat n ∷ fields rest
fields-numeral n sp rest h =
    let (c, w, e, _, word) = format_nat-IsNumeral n in
    ap (λ t. fields (t ++ sp ∷ rest)) e
    ∙ fields-word c w sp rest word h
    ∙ ap (λ t. t ∷ fields rest) (sym e)

fields-boot : (b : Text) → IsBootId b → fields (b ++ 10 ∷ []) ≡ b ∷ []
fields-boot [] h = absurd (h.0 refl)
fields-boot (c ∷ w) h =
    fields-word c w 10 [] h.1 newline-is_space ∙ ap (λ t. (c ∷ w) ∷ t) fields-nil

-- The fields of a stamp: the seconds, and the boot id where it is known.
fields-stamp_boot :
    (c : Cell) (t : ℕ)
    → IsBootId c.boot_id
    → fields (stamp_text c t) ≡ format_nat (t / second) ∷ c.boot_id ∷ []
unfolding stamp_text
fields-stamp_boot c t h = rw (text_eq-nil c.boot_id h.0) (
    fields-numeral (t / second) 32 (c.boot_id ++ 10 ∷ []) space-is_space
    ∙ ap (◌∷◌ (format_nat (t / second))) (fields-boot c.boot_id h))
  where
    text_eq-nil : (b : Text) → b ≢ [] → text_eq b [] ≡ false
    text_eq-nil [] n = absurd (n refl)
    text_eq-nil (x ∷ b) n = refl

fields-stamp_unknown :
    (c : Cell) (t : ℕ) → c.boot_id ≡ [] → fields (stamp_text c t) ≡ format_nat (t / second) ∷ []
unfolding stamp_text
fields-stamp_unknown c t h = simp h (
    fields-numeral (t / second) 10 [] newline-is_space
    ∙ ap (◌∷◌ (format_nat (t / second))) fields-nil)

-- `c` wrote the stamp, and `r`, the same node perhaps after a reboot, reads it.
module _ (c r : Cell) (t now : ℕ) (d : Disk)
    (stamped : d.last_escape ≡ holds (stamp_text c t)) where
  -- For the rest of the boot every escape is blocked, however much time passes.
  pub escape_blocked-same_boot :
      IsBootId c.boot_id → r.boot_id ≡ c.boot_id → escape_blocked r now d ≢ none
  unfolding escape_blocked
  escape_blocked-same_boot h e =
      simp (stamped, fields-stamp_boot c t h, e, text_eq_refl c.boot_id) (ground arith)

  cooling_at-recent :
      t ≤ now
      → now - t / second * second < r.cooldown
      → cooling_at r now (some (pos (t / second))) ≡ some (cooling_since (pos (t / second)))
  unfolding cooling_at
  cooling_at-recent h k = ground arith

  -- In any boot, the cooldown blocks it.
  pub escape_blocked-cooldown :
      (c.boot_id ≡ []) ⊎ IsBootId c.boot_id
      → t ≤ now
      → now - t / second * second < r.cooldown
      → t / second < 9223372036854775808
      → escape_blocked r now d ≢ none
  unfolding escape_blocked
  escape_blocked-cooldown (inl unknown) h k small =
      simp
        (
          stamped,
          fields-stamp_unknown c t unknown,
          parse_int-format_nat (t / second) small,
          cooling_at-recent h k,
        )
        (ground arith)
  escape_blocked-cooldown (inr known) h k small =
      simp
        (
          stamped,
          fields-stamp_boot c t known,
          parse_int-format_nat (t / second) small,
          cooling_at-recent h k,
        )
        (ground arith)
