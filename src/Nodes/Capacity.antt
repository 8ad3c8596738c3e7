-- ===== src/Nodes/Capacity.antt =====
-- internal/database/capacity.go. The arithmetic of `float64` is a parameter: its type, the literals of
-- the source in hundredths, and the operations that the code uses.
use admirald.Shared.{
  ℕ, ◌^◌, ℤ, pos, leb_ℤ, Bool, ◌||◌, Option, none, some, String, if◌then◌else◌, ◌==◌,
}
use admirald.Shared.Text.{trim_space, to_lower, has_suffix, trim_right_if}
use admirald.Shared.{nat_beq}

pub record Floats (F : Type 0) : Type 0 where
  pub of_int64 : ℤ → F
  pub to_int64 : F → ℤ
  -- A literal, in hundredths.
  pub hundredths : ℕ → F
  pub mul : F → F → F
  pub div : F → F → F
  pub le : F → F → Bool
  -- `strconv.ParseFloat(s, 64)`
  pub parse : String → Option F

-- The letters that `TrimRight(value, "tbTB")` and its like remove: the unit's and b's, of either case.
abbrev is_unit : ℕ → ℕ → ℕ → Bool
is_unit lower upper c = nat_beq c lower || nat_beq c upper || nat_beq c 98 || nat_beq c 66

module _ {F : Type 0} (fl : Floats F) where
  unfoldable pub calculate_ram_commit_limit : ℤ → ℤ
  calculate_ram_commit_limit total = fl.to_int64 (fl.mul (fl.of_int64 total) (fl.hundredths 80))

  unfoldable pub calculate_disk_commit_limit : ℤ → ℤ
  calculate_disk_commit_limit total =
      fl.to_int64 (fl.div (fl.mul (fl.of_int64 total) (fl.hundredths 80)) (fl.hundredths 120))

  -- The product of a text that is a positive number, and 0 otherwise.
  unfoldable pub scaled : String → ℕ → ℤ
  scaled value multiplier = elim (fl.parse (trim_space value)) [
    | none ↦ pos 0
    | some num ↦
        if fl.le num (fl.hundredths 0)
        then pos 0
        else fl.to_int64 (fl.mul num (fl.of_int64 (pos multiplier)))
  ]

  unfoldable pub parse_size_bytes : String → ℤ
  parse_size_bytes text =
      let value = trim_space text in
      let lower = to_lower value in
      if value == ""
      then pos 0
      else if has_suffix lower "tb" || has_suffix lower "t"
      then scaled (trim_right_if (is_unit 116 84) value) (2 ^ 40)
      else if has_suffix lower "gb" || has_suffix lower "g"
      then scaled (trim_right_if (is_unit 103 71) value) (2 ^ 30)
      else if has_suffix lower "mb" || has_suffix lower "m"
      then scaled (trim_right_if (is_unit 109 77) value) (2 ^ 20)
      else if has_suffix lower "kb" || has_suffix lower "k"
      then scaled (trim_right_if (is_unit 107 75) value) (2 ^ 10)
      else scaled value 1

  -- The state of a node's storage, and the percentage that its message quotes.
  unfoldable pub node_storage_state : ℤ → ℤ → String × Option F
  node_storage_state disk_total disk_used =
      let pct =
        fl.mul (fl.div (fl.of_int64 disk_used) (fl.of_int64 disk_total)) (fl.hundredths 10000) in
      if leb_ℤ disk_total (pos 0)
      then ("", none)
      else if fl.le (fl.hundredths 9500) pct
      then ("critical", some pct)
      else if fl.le (fl.hundredths 9000) pct
      then ("degraded", some pct)
      else if fl.le (fl.hundredths 8000) pct
      then ("warning", some pct)
      else ("", none)
